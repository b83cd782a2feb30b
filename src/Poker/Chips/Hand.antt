-- ===== src/Poker/Chips/Hand.antt =====
-- The chips under `progress` of internal/poker/engine/engine.go, on each of its turns.
use momiao.Base.{
  ℕ, zero, suc, ◌+◌, ◌-◌, ◌≤◌, ◌<◌, ◌≡◌, refl, sym, ◌∙◌, ap, subst, Bool, true, false, List, [],
  ◌∷◌, map, arith, ◌==◌, Option, none, some, get_elem?, Bool-cases, ◌⊎◌, inl, inr, Option-cases,
}
use momiao.Poker.Types.{
  Time, Card, Street, street_eq, Result, ok, >>=-eq-ok, Participant, EventType, Visibility, State,
  Evaluator,
}
use momiao.Poker.Table.{emit, event_of, deal}
use momiao.Poker.Street.{following, reset_round, deal_board, open_street, next_street}
use momiao.Poker.Settle.{settle}
use momiao.Poker.Progress.{drop_pending, clear_pending, run_out, turn_of, Turn, take_turn, progress}
use momiao.Poker.Chips.{Rising, WholeCommitted, chips}
use momiao.Poker.Chips.Update.{chips-eq}
use momiao.Poker.Chips.Settlement.{settle-chips}

-- The table after a step: the same chips, still in seat order and in whole commitments.
abbrev pub Keeps : ℕ → List Participant → Type 0
Keeps n ps = (chips ps ≡ n) × Rising 0 ps × WholeCommitted ps

pub map-chips :
    (f : Participant → Participant) (ps : List Participant)
    → ((p : Participant) → (f p).stack + (f p).total_committed ≡ p.stack + p.total_committed)
    → chips (map f ps) ≡ chips ps
map-chips f [] h = refl
map-chips f (p ∷ ps) h = omega (arith, h p, map-chips f ps h)

pub map-Rising :
    (f : Participant → Participant) (previous : ℕ) (ps : List Participant)
    → ((p : Participant) → (f p).seat_no ≡ p.seat_no)
    → Rising previous ps
    → Rising previous (map f ps)
map-Rising f previous [] h r = tt
map-Rising f previous (p ∷ ps) h r = ground (
  arith,
  h p,
  subst (λ (k : ℕ). Rising k (map f ps)) (sym (h p)) (map-Rising f p.seat_no ps h r.1),
)

pub map-WholeCommitted :
    (f : Participant → Participant) (ps : List Participant)
    → ((p : Participant) → (f p).total_committed ≡ p.total_committed)
    → WholeCommitted ps
    → WholeCommitted (map f ps)
map-WholeCommitted f [] h w = tt
map-WholeCommitted f (p ∷ ps) h w = ground (arith, h p, map-WholeCommitted f ps h w.1)

reset_round-Keeps : (n : ℕ) (ps : List Participant) → Keeps n ps → Keeps n (map reset_round ps)
unfolding reset_round
reset_round-Keeps n ps (c, r, w) = (
  map-chips reset_round ps (λ p. refl) ∙ c,
  map-Rising reset_round 0 ps (λ p. refl) r,
  map-WholeCommitted reset_round ps (λ p. refl) w,
)

drop_pending-Keeps : (n : ℕ) (ps : List Participant) → Keeps n ps → Keeps n (map drop_pending ps)
unfolding drop_pending
drop_pending-Keeps n ps (c, r, w) = (
  map-chips drop_pending ps (λ p. refl) ∙ c,
  map-Rising drop_pending 0 ps (λ p. refl) r,
  map-WholeCommitted drop_pending ps (λ p. refl) w,
)

-- Dealing moves cards only.
pub deal-players :
    (seat : ℕ) (v : Visibility) (now : Time) (s s' : State) (c : Card)
    → deal seat v now s ≡ ok (c, s')
    → s'.players ≡ s.players
unfolding deal
deal-players seat v now s s' c e = elim (Option-cases (get_elem? s.config.deck s.deck_cursor)) [
  | inl past ↦ ground arith
  | inr (card, q) ↦ ground arith
]

deal_board-players :
    (count : ℕ) (now : Time) (s s' : State)
    → deal_board count now s ≡ ok s'
    → s'.players ≡ s.players
unfolding deal_board
deal_board-players zero now s s' e = ground arith
deal_board-players (suc count) now s s' e =
    let (cs, q, e') =
      >>=-eq-ok (deal 0 Visibility.public_card now s)
        (λ (cs : Card × State).
          deal_board count now
            (record (cs.1) { board = momiao.Base.◌++◌ (cs.1).board (cs.0 ∷ []) }))
        e in
    deal_board-players count now _ s' e' ∙ deal-players 0 Visibility.public_card now s cs.1 cs.0 q

pub next_street-Keeps :
    (n : ℕ) (now : Time) (s s' : State)
    → next_street now s ≡ ok s'
    → Keeps n s.players
    → Keeps n s'.players
unfolding next_street open_street
next_street-Keeps n now s s' e k =
    subst (Keeps n) (sym (deal_board-players (following s.street).1 now (open_street now s) s' e))
      (reset_round-Keeps n s.players k)

pub run_out-Keeps :
    (n fuel : ℕ) (now : Time) (s s' : State)
    → run_out fuel now s ≡ ok s'
    → Keeps n s.players
    → Keeps n s'.players
unfolding run_out
run_out-Keeps n zero now s s' e k = cc
run_out-Keeps n (suc fuel) now s s' e k = elim (Bool-cases (street_eq s.street Street.river)) [
  | inl done ↦ ground arith
  | inr more ↦
      let (t, q, e') = >>=-eq-ok (next_street now s) (run_out fuel now) (rw (more, run_out) at e) in
      run_out-Keeps n fuel now t s' e' (next_street-Keeps n now s t q k)
]

settle-Keeps :
    (n : ℕ) (evaluate : Evaluator) (now : Time) (s s' : State)
    → settle evaluate now s ≡ ok s'
    → Keeps n s.players
    → chips s'.players ≡ n
settle-Keeps n evaluate now s s' e (c, r, w) =
    omega (arith, settle-chips evaluate now s s' r w e, chips-eq s'.players)

take_turn-chips :
    (evaluate : Evaluator) (now : Time) (continue : State → Result State) (turn : Turn) (n : ℕ)
    (s s' : State)
    → ((t t' : State) → Keeps n t.players → continue t ≡ ok t' → chips t'.players ≡ n)
    → Keeps n s.players
    → take_turn evaluate now continue turn s ≡ ok s'
    → chips s'.players ≡ n
unfolding take_turn
take_turn-chips evaluate now continue Turn.settles n s s' h k e =
    settle-Keeps n evaluate now s s' e k
take_turn-chips evaluate now continue Turn.runs_out n s s' h k e =
    let shown = emit (event_of EventType.all_in_runout 0 0 0) now s in
    let (t, q, e') = >>=-eq-ok (run_out 4 now shown) (settle evaluate now) e in
    settle-Keeps n evaluate now t s' e' (run_out-Keeps n 4 now shown t q k)
take_turn-chips evaluate now continue (Turn.acts next) n s s' h k e = ground (arith, k.0)
take_turn-chips evaluate now continue Turn.opens_street n s s' h k e =
    let (t, q, e') = >>=-eq-ok (next_street now s) continue e in
    h t s' (next_street-Keeps n now s t q k) e'

-- From seats in order and whole commitments, `progress` keeps the chips of the hand on every path
-- on which it returns a state.
pub progress-chips :
    (fuel : ℕ) (evaluate : Evaluator) (after : ℕ) (now : Time) (s s' : State)
    → Rising 0 s.players
    → WholeCommitted s.players
    → progress fuel evaluate after now s ≡ ok s'
    → chips s'.players ≡ chips s.players
unfolding progress clear_pending
progress-chips zero evaluate after now s s' r w e = cc
progress-chips (suc fuel) evaluate after now s s' r w e =
    take_turn-chips evaluate now (λ t. progress fuel evaluate s.config.button_seat now t)
      (turn_of after (clear_pending s)) (chips s.players) (clear_pending s) s'
      (λ t t' k q. progress-chips fuel evaluate s.config.button_seat now t t' k.1 k.2 q ∙ k.0)
      (drop_pending-Keeps (chips s.players) s.players (refl, r, w)) e
