-- ===== src/Poker/Termination.antt =====
-- The loops, the deck and the faults of `progress` in internal/poker/engine/engine.go.
mod Steps
pub use Steps.{NoFault, HasRoom, Steady, streets_left}
use Steps.{
  NoFault->>=, deal-ok, deal_board-ok, next_street-ok, street_eq-river, run_out-ok, following_facts,
  get_elem?-lt, cards_left,
}
use momiao.Base.{
  ℕ, zero, suc, ◌+◌, ◌≤◌, ◌<◌, ◌≡◌, ◌≢◌, refl, sym, ◌∙◌, ap, subst, Bool, true, false, List, [],
  ◌∷◌, ◌++◌, arith, ltb, some, get_elem?, length, inl, inr, Bool-cases, ◌==◌, String,
}
use momiao.Poker.Types.{
  Time, Card, Pot, Street, street_eq, Result, ok, err, invalid, out_of_fuel, index_panic, ◌>>=◌,
  ◌>>◌, Participant, EventType, Visibility, State, Evaluator, Config, Ranks, guard,
}
use momiao.Poker.Table.{emit, event_of, deal, deal_card}
use momiao.Poker.Street.{following, deal_board, open_street, next_street}
use momiao.Poker.Rank.{valid_rank}
use momiao.Poker.Settle.{
  levels, pot_of, winners_of, divide_pot, return_uncalled, rank_players, showdown, settle_level,
  settle_levels, settle, live_count, set_rank,
}
use momiao.Poker.Chips.Winners.{winners_of-ne-nil}
use momiao.Poker.Progress.{clear_pending, run_out, turn_of, Turn, take_turn, progress}

guard-NoFault : (b : Bool) → NoFault (guard b invalid)
guard-NoFault true = tt
guard-NoFault false = ((λ e. cc), (λ e. cc), λ e. cc)

rank_players-NoFault :
    (evaluate : Evaluator) (board : List Card) (version : String) (ps : List Participant)
    (ranks : Ranks)
    → Steady evaluate
    → NoFault (rank_players evaluate board version ps ranks)
unfolding rank_players
rank_players-NoFault evaluate board version [] ranks h = tt
rank_players-NoFault evaluate board version (p ∷ ps) ranks h =
    elim p.folded
      as (λ b. NoFault (elim b [
        | true ↦ rank_players evaluate board version ps ranks
        | false ↦ evaluate p.hole board version >>= λ r.
            guard (valid_rank r version) invalid
            >> rank_players evaluate board version ps (set_rank p.seat_no r ranks)
      ])) [
        | true ↦ rank_players-NoFault evaluate board version ps ranks h
        | false ↦ NoFault->>= (evaluate p.hole board version) _ (h p.hole board version) (λ r _.
            NoFault->>= (guard (valid_rank r version) invalid) _
              (guard-NoFault (valid_rank r version))
              (λ u _.
                rank_players-NoFault evaluate board version ps (set_rank p.seat_no r ranks) h))
      ]

showdown-NoFault :
    (evaluate : Evaluator) (now : Time) (s : State)
    → Steady evaluate
    → NoFault (showdown evaluate now s)
unfolding showdown
showdown-NoFault evaluate now s h = elim (Bool-cases (ltb 1 (live_count s.players))) [
  | inl several ↦ rw several (
      NoFault->>= (rank_players evaluate s.board s.config.evaluator_version s.players []) _
        (rank_players-NoFault evaluate s.board s.config.evaluator_version s.players [] h)
        (λ ranks _. tt))
  | inr alone ↦ rw alone tt
]

divide_pot-NoFault :
    (winners : List ℕ) (now : Time) (pot : Pot) (s : State)
    → winners ≢ []
    → NoFault (divide_pot winners now pot s)
unfolding divide_pot
divide_pot-NoFault [] now pot s h = absurd (h refl)
divide_pot-NoFault (w ∷ ws) now pot s h = tt

settle_level-NoFault :
    (now : Time) (previous level : ℕ) (s : State) → NoFault (settle_level now previous level s)
unfolding settle_level
settle_level-NoFault now previous level s = go (pot_of s previous level).eligible
  where
    go :
        (es : List ℕ)
        → NoFault {A = State} (elim es [
          | [] ↦ err invalid
          | seat ∷ seats ↦
              divide_pot
                (winners_of s.config.button_seat s.ranks (seat ∷ seats))
                now
                (pot_of s previous level)
                s
        ])
    go [] = ((λ e. cc), (λ e. cc), λ e. cc)
    go (x ∷ es) =
        divide_pot-NoFault (winners_of s.config.button_seat s.ranks (x ∷ es)) now
          (pot_of s previous level) s (winners_of-ne-nil s.config.button_seat s.ranks x es)

settle_levels-NoFault :
    (now : Time) (previous : ℕ) (ls : List ℕ) (s : State)
    → NoFault (settle_levels now previous ls s)
unfolding settle_levels
settle_levels-NoFault now previous [] s = tt
settle_levels-NoFault now previous (l ∷ ls) s =
    elim (l == previous)
      as (λ b. NoFault (elim b [
        | true ↦ settle_levels now previous ls s
        | false ↦ settle_level now previous l s >>= settle_levels now l ls
      ])) [
        | true ↦ settle_levels-NoFault now previous ls s
        | false ↦
            NoFault->>= (settle_level now previous l s) (settle_levels now l ls)
              (settle_level-NoFault now previous l s) (λ t _. settle_levels-NoFault now l ls t)
      ]

-- Settling can fail on the evaluator's answer, but neither panics nor loops.
settle-NoFault :
    (evaluate : Evaluator) (now : Time) (s : State)
    → Steady evaluate
    → NoFault (settle evaluate now s)
unfolding settle
settle-NoFault evaluate now s h =
    let back = return_uncalled now s in
    NoFault->>= (showdown evaluate now back) _ (showdown-NoFault evaluate now back h) (λ shown _.
      NoFault->>= (settle_levels now 0 (levels back.players) shown) _
        (settle_levels-NoFault now 0 (levels back.players) shown) (λ paid _. tt))

-- A street opens only before the river.
opens-before-river :
    (after : ℕ) (s : State) → turn_of after s ≡ Turn.opens_street → s.street ≢ Street.river
unfolding turn_of
opens-before-river after s e q = ground arith

take_turn-NoFault :
    (evaluate : Evaluator) (now : Time) (continue : State → Result State) (turn : Turn) (s : State)
    → Steady evaluate
    → HasRoom s
    → (turn ≡ Turn.opens_street → s.street ≢ Street.river)
    → ((t : State)
        → HasRoom t
        → suc (streets_left t.street) ≡ streets_left s.street
        → NoFault (continue t))
    → NoFault (take_turn evaluate now continue turn s)
unfolding take_turn
take_turn-NoFault evaluate now continue Turn.settles s h r o k = settle-NoFault evaluate now s h
take_turn-NoFault evaluate now continue Turn.runs_out s h r o k =
    let shown = emit (event_of EventType.all_in_runout 0 0 0) now s in
    let (t, e) =
      run_out-ok 4 now shown (record { running = r.running; room = r.room }) (left-lt s.street) in
    subst (λ (m : Result State). NoFault (m >>= settle evaluate now)) (sym e)
      (settle-NoFault evaluate now t h)
  where
    left-lt : (st : Street) → streets_left st < 4
    left-lt Street.preflop = omega arith
    left-lt Street.flop = omega arith
    left-lt Street.turn = omega arith
    left-lt Street.river = omega arith
    left-lt Street.settled = omega arith
take_turn-NoFault evaluate now continue (Turn.acts next) s h r o k = tt
take_turn-NoFault evaluate now continue Turn.opens_street s h r o k =
    let (t, e, room, left) = next_street-ok now s r (o refl) in
    subst (λ (m : Result State). NoFault (m >>= continue)) (sym e) (k t room left)

-- On a running hand whose deck holds the rest of the board, with an evaluator that neither panics
-- nor runs out of fuel, `progress` deals no card past the end of the deck, divides no pot among
-- no winners, and does not run out of fuel, if its fuel exceeds the number of streets to come.
pub progress-NoFault :
    (fuel : ℕ) (evaluate : Evaluator) (after : ℕ) (now : Time) (s : State)
    → Steady evaluate
    → HasRoom s
    → streets_left s.street < fuel
    → NoFault (progress fuel evaluate after now s)
unfolding progress clear_pending
progress-NoFault zero evaluate after now s h r f = absurd (omega arith)
progress-NoFault (suc fuel) evaluate after now s h r f =
    take_turn-NoFault evaluate now (λ t. progress fuel evaluate s.config.button_seat now t)
      (turn_of after (clear_pending s)) (clear_pending s) h
      (record { running = r.running; room = r.room }) (opens-before-river after (clear_pending s))
      (λ t room left.
        progress-NoFault fuel evaluate s.config.button_seat now t h room (omega (arith, left, f)))
