-- ===== src/Poker/Chips/Shares.antt =====
-- The shares of one pot in `settle` of internal/poker/engine/engine.go.
use momiao.Base.{
  ℕ, ◌+◌, ◌-◌, ◌*◌, ◌/◌, ◌%◌, min, ◌≡◌, ◌≢◌, refl, ◌∙◌, List, [], ◌∷◌, arith, length, All,
}
use momiao.Base.Sums.{sum_by}
use momiao.Poker.Types.{Time, units_per_chip, Participant, Award, State}
use momiao.Poker.Table.{update_player, emit, event_of}
use momiao.Poker.Settle.{awards_from, share, pay, add_stack}
use momiao.Poker.Chips.{IsWhole, stacks}
use momiao.Poker.Chips.Update.{Seated, sum_by-update_player_add, sum_by-update_player_same}

abbrev pub awarded : List Award → ℕ
awarded = sum_by (λ a. a.amount)

awarded-awards_from :
    (i base odd : ℕ) (ws : List ℕ)
    → awarded (awards_from i base odd ws)
      ≡ length ws * base + min (odd - i) (length ws) * units_per_chip
unfolding awards_from
awarded-awards_from i base odd [] = omega arith
awarded-awards_from i base odd (w ∷ ws) = ground (arith, awarded-awards_from (i + 1) base odd ws)

-- For at least one winner, every atomic unit of a whole pot is awarded.
pub awarded-share :
    (amount : ℕ) (ws : List ℕ) → ws ≢ [] → IsWhole amount → awarded (share amount ws) ≡ amount
unfolding share
awarded-share amount [] ne h = absurd (ne refl)
awarded-share amount (w ∷ ws) ne h = grind (
  arith,
  awarded-awards_from 0 (amount / units_per_chip / length (w ∷ ws) * units_per_chip)
      (amount / units_per_chip % length (w ∷ ws)) (w ∷ ws),
)

-- Every award names a player of the table.
abbrev pub AllSeated : List Participant → List Award → Type 0
AllSeated ps = All (λ a. Seated ps a.seat)

pub Seated-update_player :
    (f : Participant → Participant) (seat k : ℕ) (ps : List Participant)
    → ((p : Participant) → (f p).seat_no ≡ p.seat_no)
    → Seated ps k
    → Seated (update_player seat f ps) k
unfolding update_player
Seated-update_player f seat k [] h e = e
Seated-update_player f seat k (q ∷ ps) h e = ground (arith, h q, Seated-update_player f seat k ps h)

AllSeated-update_player :
    (amount seat : ℕ) (ps : List Participant) (as' : List Award)
    → AllSeated ps as'
    → AllSeated (update_player seat (add_stack amount) ps) as'
unfolding add_stack
AllSeated-update_player amount seat ps [] h = tt
AllSeated-update_player amount seat ps (a ∷ as') h = (
  Seated-update_player (add_stack amount) seat a.seat ps (λ p. refl) h.0,
  AllSeated-update_player amount seat ps as' h.1,
)

-- Paying awards changes nothing that does not look at stacks.
pub sum_by-pay :
    (g : Participant → ℕ) (now : Time) (as' : List Award) (s : State)
    → ((p : Participant) (amount : ℕ) → g (add_stack amount p) ≡ g p)
    → sum_by g (pay now as' s).players ≡ sum_by g s.players
unfolding pay
sum_by-pay g now [] s h = refl
sum_by-pay g now (a ∷ as') s h =
    sum_by-pay g now as' _ h
    ∙ sum_by-update_player_same g (add_stack a.amount) a.seat s.players (λ p. h p a.amount)

-- Paying awards to players raises the stacks by exactly the awards.
pub stacks-pay :
    (now : Time) (as' : List Award) (s : State)
    → AllSeated s.players as'
    → stacks (pay now as' s).players ≡ stacks s.players + awarded as'
unfolding pay
stacks-pay now [] s h = omega arith
stacks-pay now (a ∷ as') s h = omega (
  arith,
  stacks-pay now as'
      (emit (event_of momiao.Poker.Types.EventType.pot_award a.seat a.amount 0) now
        (record s { players = update_player a.seat (add_stack a.amount) s.players }))
      (AllSeated-update_player a.amount a.seat s.players as' h.1),
  sum_by-update_player_add (λ p. p.stack) (add_stack a.amount) a.seat a.amount s.players (λ p. refl)
      h.0,
)
