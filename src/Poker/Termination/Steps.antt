-- ===== src/Poker/Termination/Steps.antt =====
-- Dealing, the streets and the run-out of internal/poker/engine/engine.go: the deck and the fuel.
use momiao.Base.{
  ℕ, zero, suc, ◌+◌, ◌≤◌, ◌<◌, ◌≡◌, ◌≢◌, refl, sym, ◌∙◌, ap, false, List, [], ◌∷◌, ◌++◌, arith,
  some, get_elem?, length, inl, inr, Bool-cases, String,
}
use momiao.Poker.Types.{
  Time, Card, Street, street_eq, Result, ok, err, out_of_fuel, index_panic, division_panic, ◌>>=◌,
  Visibility, State, Evaluator, Config,
}
use momiao.Poker.Table.{deal, deal_card}
use momiao.Poker.Street.{following, deal_board, open_street, next_street}
use momiao.Poker.Progress.{run_out}

-- Neither a panic (an index out of range or a division by zero) nor the end of the fuel.
abbrev pub NoFault {ℓ} : {A : Type ℓ} → Result A → Type 0
NoFault (ok a) = Unit
NoFault (err e) = (e ≢ out_of_fuel) × (e ≢ index_panic) × (e ≢ division_panic)

pub NoFault->>= {ℓ κ} :
    {A : Type ℓ} {B : Type κ} (m : Result A) (f : A → Result B)
    → NoFault m
    → ((a : A) → m ≡ ok a → NoFault (f a))
    → NoFault (m >>= f)
NoFault->>= (ok a) f h k = k a refl
NoFault->>= (err e) f h k = h

-- The public cards still to come.
abbrev pub cards_left : Street → ℕ
cards_left Street.preflop = 5
cards_left Street.flop = 2
cards_left Street.turn = 1
cards_left Street.river = 0
cards_left Street.settled = 0

-- How many streets follow.
abbrev pub streets_left : Street → ℕ
streets_left Street.preflop = 3
streets_left Street.flop = 2
streets_left Street.turn = 1
streets_left Street.river = 0
streets_left Street.settled = 0

-- The hand is running, and the deck holds the rest of the board.
pub record HasRoom (s : State) : Type 0 where
  pub running : s.street ≢ Street.settled
  pub room : s.deck_cursor + cards_left s.street ≤ length s.config.deck

-- The caller's evaluator does not panic.
abbrev pub Steady : Evaluator → Type 0
Steady evaluate =
    (hole : Card × Card) (board : List Card) (version : String)
    → NoFault (evaluate hole board version)

pub get_elem?-lt {ℓ} :
    {A : Type ℓ} (xs : List A) (i : ℕ) → i < length xs → (x : A) × (get_elem? xs i ≡ some x)
get_elem?-lt [] i h = elim h [ ]
get_elem?-lt (x ∷ xs) zero h = (x, refl)
get_elem?-lt (x ∷ xs) (suc i) h = get_elem?-lt xs i (omega arith)

pub deal-ok :
    (seat : ℕ) (v : Visibility) (now : Time) (s : State)
    → s.deck_cursor < length s.config.deck
    → (c : Card) × (t : State) × (deal seat v now s ≡ ok (c, t))
      × (t.street ≡ s.street)
      × (t.deck_cursor ≡ s.deck_cursor + 1)
      × (t.config ≡ s.config)
unfolding deal
deal-ok seat v now s h =
    let (card, q) = get_elem?-lt s.config.deck s.deck_cursor h in
    (card, deal_card seat v now card s, rw (q, deal) refl, refl, refl, refl)

deal_board-step :
    (count : ℕ) (now : Time) (s u t : State) (card : Card)
    → deal 0 Visibility.public_card now s ≡ ok (card, u)
    → deal_board count now (record u { board = u.board ++ card ∷ [] }) ≡ ok t
    → deal_board (suc count) now s ≡ ok t
deal_board-step count now s u t card q e = unfold deal_board in (rw q e)

-- With enough cards the board is dealt, and only the cursor and the log move on.
pub deal_board-ok :
    (count : ℕ) (now : Time) (s : State)
    → s.deck_cursor + count ≤ length s.config.deck
    → (t : State) × (deal_board count now s ≡ ok t)
      × (t.street ≡ s.street)
      × (t.deck_cursor ≡ s.deck_cursor + count)
      × (t.config ≡ s.config)
deal_board-ok zero now s h = (s, unfold deal_board in refl, refl, omega arith, refl)
deal_board-ok (suc count) now s h =
    let (card, u, q, st, cur, con) = deal-ok 0 Visibility.public_card now s (omega arith) in
    let (t, e, st', cur', con') =
      deal_board-ok count now (record u { board = u.board ++ card ∷ [] })
        (omega (arith, cur, ap (λ (c : Config). length c.deck) con)) in
    (t, deal_board-step count now s u t card q e, st' ∙ st, omega (arith, cur, cur'), con' ∙ con)

pub following_facts :
    (st : Street)
    → st ≢ Street.river
    → st ≢ Street.settled
    → ((following st).0 ≢ Street.settled)
      × (suc (streets_left (following st).0) ≡ streets_left st)
      × ((following st).1 + cards_left (following st).0 ≡ cards_left st)
unfolding following
following_facts Street.preflop r h = (λ e. cc, refl, refl)
following_facts Street.flop r h = (λ e. cc, refl, refl)
following_facts Street.turn r h = (λ e. cc, refl, refl)
following_facts Street.river r h = absurd (r refl)
following_facts Street.settled r h = absurd (h refl)

-- Before the river, the next street opens, with room for the ones after it.
pub next_street-ok :
    (now : Time) (s : State)
    → HasRoom s
    → s.street ≢ Street.river
    → (t : State) × (next_street now s ≡ ok t)
      × HasRoom t
      × (suc (streets_left t.street) ≡ streets_left s.street)
unfolding next_street open_street
next_street-ok now s h r =
    let (run, left, cards) = following_facts s.street r h.running in
    let (t, e, st, cur, con) =
      deal_board-ok (following s.street).1 now (open_street now s) (omega (arith, h.room, cards)) in
    (
      t,
      e,
      record {
        running = λ q. run (sym st ∙ q);
        room =
            omega
              (arith, h.room, cards, cur, ap cards_left st, ap (λ (c : Config). length c.deck) con);
      },
      ap (λ (x : Street). suc (streets_left x)) st ∙ left,
    )

pub street_eq-river : (st : Street) → street_eq st Street.river ≡ false → st ≢ Street.river
street_eq-river Street.preflop h e = cc
street_eq-river Street.flop h e = cc
street_eq-river Street.turn h e = cc
street_eq-river Street.river h e = cc
street_eq-river Street.settled h e = cc

run_out-step :
    (fuel : ℕ) (now : Time) (s t u : State)
    → street_eq s.street Street.river ≡ false
    → next_street now s ≡ ok t
    → run_out fuel now t ≡ ok u
    → run_out (suc fuel) now s ≡ ok u
run_out-step fuel now s t u more e h = unfold run_out in (rw (more, run_out, e) h)

-- Four rounds of the run-out reach the river from any street.
pub run_out-ok :
    (fuel : ℕ) (now : Time) (s : State)
    → HasRoom s
    → streets_left s.street < fuel
    → (t : State) × (run_out fuel now s ≡ ok t)
run_out-ok zero now s h f = absurd (omega arith)
run_out-ok (suc fuel) now s h f = elim (Bool-cases (street_eq s.street Street.river)) [
  | inl done ↦ (s, unfold run_out in (rw (done, run_out)))
  | inr more ↦
      let (t, e, room, left) = next_street-ok now s h (street_eq-river s.street more) in
      let (u, e') = run_out-ok fuel now t room (omega (arith, left, f)) in
      (u, run_out-step fuel now s t u more e e')
]
