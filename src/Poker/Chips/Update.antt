-- ===== src/Poker/Chips/Update.antt =====
-- Sums over the players when one of them is updated by seat.
use momiao.Base.{
  ℕ, ◌+◌, ◌≡◌, refl, ap, true, inl, inr, some, List, [], ◌∷◌, arith, Bool-cases, ◌==◌, any,
}
use momiao.Base.Sums.{sum_by, sum_by-add}
use momiao.Poker.Types.{Participant}
use momiao.Poker.Table.{player, update_player, seats}
use momiao.Poker.Chips.{chips, stacks, committed}

-- Some player has the seat.
abbrev pub Seated : List Participant → ℕ → Type 0
Seated ps seat = any (λ p. p.seat_no == seat) ps ≡ true

-- An update that changes a measure of the seat's player changes the sum by as much.
pub sum_by-update_player :
    (g : Participant → ℕ) (f : Participant → Participant) (seat : ℕ) (p : Participant)
    (ps : List Participant)
    → player ps seat ≡ some p
    → sum_by g (update_player seat f ps) + g p ≡ sum_by g ps + g (f p)
unfolding player update_player
sum_by-update_player g f seat p [] h = cc
sum_by-update_player g f seat p (q ∷ ps) h = elim (Bool-cases (q.seat_no == seat)) [
  | inl hit ↦
      ground (
        arith,
        ap g (some-inj (hit-eq q ps hit h)),
        ap (λ x. g (f x)) (some-inj (hit-eq q ps hit h)),
      )
  | inr miss ↦ rw miss (omega (arith, sum_by-update_player g f seat p ps (rw miss at h)))
]
  where
    some-inj : {a b : Participant} → some a ≡ some b → a ≡ b
    some-inj e = cc

    hit-eq :
        (q : Participant) (ps : List Participant)
        → (q.seat_no == seat) ≡ true
        → player (q ∷ ps) seat ≡ some p
        → some q ≡ some p
    hit-eq q ps hit h = rw hit at h

-- An update that leaves a measure alone leaves its sum alone.
pub sum_by-update_player_same :
    (g : Participant → ℕ) (f : Participant → Participant) (seat : ℕ) (ps : List Participant)
    → ((p : Participant) → g (f p) ≡ g p)
    → sum_by g (update_player seat f ps) ≡ sum_by g ps
unfolding update_player
sum_by-update_player_same g f seat [] h = refl
sum_by-update_player_same g f seat (q ∷ ps) h =
    ground (arith, h q, sum_by-update_player_same g f seat ps h)

-- With every copy of the seat's player worth `amount` more, a seated player adds it once.
pub sum_by-update_player_add :
    (g : Participant → ℕ) (f : Participant → Participant) (seat amount : ℕ) (ps : List Participant)
    → ((p : Participant) → g (f p) ≡ g p + amount)
    → Seated ps seat
    → sum_by g (update_player seat f ps) ≡ sum_by g ps + amount
unfolding update_player
sum_by-update_player_add g f seat amount [] h e = cc
sum_by-update_player_add g f seat amount (q ∷ ps) h e =
    ground (arith, h q, sum_by-update_player_add g f seat amount ps h)

-- An update that keeps the seat number keeps the seats.
pub seats-update_player :
    (f : Participant → Participant) (seat : ℕ) (ps : List Participant)
    → ((p : Participant) → (f p).seat_no ≡ p.seat_no)
    → seats (update_player seat f ps) ≡ seats ps
unfolding seats update_player
seats-update_player f seat [] h = refl
seats-update_player f seat (q ∷ ps) h = ground (arith, h q, seats-update_player f seat ps h)

-- Stacks and commitments together are the chips.
pub chips-eq : (ps : List Participant) → chips ps ≡ stacks ps + committed ps
chips-eq ps = sum_by-add (λ p. p.stack) (λ p. p.total_committed) ps
