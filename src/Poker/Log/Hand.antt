-- ===== src/Poker/Log/Hand.antt =====
-- The event log under the steps of a hand in internal/poker/engine/engine.go: dealing, streets,
-- settlement and `progress`.
use momiao.Base.{
  ℕ, zero, suc, ◌≡◌, refl, sym, subst, List, [], ◌∷◌, ◌++◌, arith, ◌==◌, ltb, Option, none, some,
  get_elem?, Bool-cases, inl, inr,
}
use momiao.Poker.Types.{
  Time, Card, Street, street_eq, Result, ok, ◌>>=◌, >>=-eq-ok, ok-injective, EventType, Visibility,
  State, Evaluator, Award, Ranks,
}
use momiao.Poker.Table.{emit, event_of, deal, set_actor}
use momiao.Poker.Street.{following, deal_board, open_street, next_street}
use momiao.Poker.Settle.{
  levels, pay, pot_of, return_uncalled, rank_players, showdown, add_pot, settle_level,
  settle_levels, settle_level-paid, close_hand, settle, live_count, top_two,
}
use momiao.Poker.Progress.{clear_pending, run_out, turn_of, Turn, take_turn, progress}
use momiao.Poker.Log.{Extends}
use momiao.Poker.Log.Step.{Extends-same, Extends-trans, Extends-event}

pub Extends-refl : {s : State} → Extends s s
Extends-refl = Extends-same refl refl refl refl refl

set_actor-Extends : (seat : ℕ) (now : Time) (s : State) → Extends s (set_actor seat now s)
unfolding set_actor
set_actor-Extends seat now s = Extends-event _ refl refl refl refl refl refl refl

pub deal-Extends :
    (seat : ℕ) (v : Visibility) (now : Time) (s s' : State) (c : Card)
    → deal seat v now s ≡ ok (c, s')
    → Extends s s'
unfolding deal
deal-Extends seat v now s s' c e = go (get_elem? s.config.deck s.deck_cursor) refl
  where
    same : {a b : Card × State} → ok a ≡ ok b → a.1 ≡ b.1
    same h = cc

    go : (o : Option Card) → get_elem? s.config.deck s.deck_cursor ≡ o → Extends s s'
    go none q = absurd (ground arith)
    go (some card) q =
        subst (Extends s) (same (rw (q, deal) at e))
          (Extends-event _ refl refl refl refl refl refl refl)

pub deal_board-Extends :
    (count : ℕ) (now : Time) (s s' : State) → deal_board count now s ≡ ok s' → Extends s s'
unfolding deal_board
deal_board-Extends zero now s s' e = subst (Extends s) (ok-injective e) Extends-refl
deal_board-Extends (suc count) now s s' e =
    let (cs, q, e') =
      >>=-eq-ok (deal 0 Visibility.public_card now s)
        (λ (cs : Card × State).
          deal_board count now (record (cs.1) { board = (cs.1).board ++ cs.0 ∷ [] }))
        e in
    Extends-trans (deal-Extends 0 Visibility.public_card now s cs.1 cs.0 q)
      (Extends-trans (Extends-same refl refl refl refl refl) (deal_board-Extends count now _ s' e'))

next_street-Extends : (now : Time) (s s' : State) → next_street now s ≡ ok s' → Extends s s'
unfolding next_street open_street
next_street-Extends now s s' e =
    Extends-trans (Extends-event _ refl refl refl refl refl refl refl)
      (deal_board-Extends (following s.street).1 now (open_street now s) s' e)

run_out-Extends : (fuel : ℕ) (now : Time) (s s' : State) → run_out fuel now s ≡ ok s' → Extends s s'
unfolding run_out
run_out-Extends zero now s s' e = cc
run_out-Extends (suc fuel) now s s' e = elim (Bool-cases (street_eq s.street Street.river)) [
  | inl done ↦ subst (Extends s) (ok-injective (rw (done, run_out) at e)) Extends-refl
  | inr more ↦
      let (t, q, e') = >>=-eq-ok (next_street now s) (run_out fuel now) (rw (more, run_out) at e) in
      Extends-trans (next_street-Extends now s t q) (run_out-Extends fuel now t s' e')
]

return_uncalled-Extends : (now : Time) (s : State) → Extends s (return_uncalled now s)
unfolding return_uncalled
return_uncalled-Extends now s =
    elim (Bool-cases (ltb (top_two s.players).second (top_two s.players).highest)) [
      | inl uneven ↦ rw uneven (Extends-event _ refl refl refl refl refl refl refl)
      | inr even ↦ rw even Extends-refl
    ]

pay-Extends : (now : Time) (as' : List Award) (s : State) → Extends s (pay now as' s)
unfolding pay
pay-Extends now [] s = Extends-refl
pay-Extends now (a ∷ as') s =
    Extends-trans (Extends-event _ refl refl refl refl refl refl refl) (pay-Extends now as' _)

showdown-Extends :
    (evaluate : Evaluator) (now : Time) (s s' : State)
    → showdown evaluate now s ≡ ok s'
    → Extends s s'
unfolding showdown
showdown-Extends evaluate now s s' e = elim (Bool-cases (ltb 1 (live_count s.players))) [
  | inr alone ↦ subst (Extends s) (ok-injective (rw (alone, showdown) at e)) Extends-refl
  | inl several ↦
      let (ranks, q, e') =
        >>=-eq-ok (rank_players evaluate s.board s.config.evaluator_version s.players [])
          (λ (ranks : Ranks).
            ok (record (emit (event_of EventType.showdown 0 0 0) now s) { ranks = ranks }))
          (rw (several, showdown) at e) in
      subst (Extends s) (ok-injective e') (Extends-event _ refl refl refl refl refl refl refl)
]

settle_level-Extends :
    (now : Time) (previous level : ℕ) (s s' : State)
    → settle_level now previous level s ≡ ok s'
    → Extends s s'
unfolding add_pot
settle_level-Extends now previous level s s' e =
    subst (Extends s) (sym (settle_level-paid now previous level s s' e).1) (
      Extends-trans (pay-Extends now (pot_of s previous level).awards s)
        (Extends-same refl refl refl refl refl))

settle_levels-Extends :
    (now : Time) (previous : ℕ) (ls : List ℕ) (s s' : State)
    → settle_levels now previous ls s ≡ ok s'
    → Extends s s'
unfolding settle_levels
settle_levels-Extends now previous [] s s' e = subst (Extends s) (ok-injective e) Extends-refl
settle_levels-Extends now previous (l ∷ ls) s s' e = elim (Bool-cases (l == previous)) [
  | inl old ↦ settle_levels-Extends now previous ls s s' (rw (old, settle_levels) at e)
  | inr new ↦
      let (t, q, e') =
        >>=-eq-ok (settle_level now previous l s) (settle_levels now l ls)
          (rw (new, settle_levels) at e) in
      Extends-trans (settle_level-Extends now previous l s t q)
        (settle_levels-Extends now l ls t s' e')
]

settle-Extends :
    (evaluate : Evaluator) (now : Time) (s s' : State)
    → settle evaluate now s ≡ ok s'
    → Extends s s'
unfolding settle close_hand
settle-Extends evaluate now s s' e =
    let back = return_uncalled now s in
    let (shown, q, e') =
      >>=-eq-ok (showdown evaluate now back)
        (λ (shown : State).
          settle_levels now 0 (levels back.players) shown >>= λ paid. ok (close_hand now paid))
        e in
    let (paid, q', e'') =
      >>=-eq-ok (settle_levels now 0 (levels back.players) shown)
        (λ (paid : State). ok (close_hand now paid)) e' in
    Extends-trans (return_uncalled-Extends now s) (
      Extends-trans (showdown-Extends evaluate now back shown q) (
        Extends-trans (settle_levels-Extends now 0 (levels back.players) shown paid q') (
          subst (Extends paid) (ok-injective e'')
            (Extends-event _ refl refl refl refl refl refl refl))))

take_turn-Extends :
    (evaluate : Evaluator) (now : Time) (continue : State → Result State) (turn : Turn)
    (s s' : State)
    → ((t t' : State) → continue t ≡ ok t' → Extends t t')
    → take_turn evaluate now continue turn s ≡ ok s'
    → Extends s s'
unfolding take_turn
take_turn-Extends evaluate now continue Turn.settles s s' h e = settle-Extends evaluate now s s' e
take_turn-Extends evaluate now continue Turn.runs_out s s' h e =
    let shown = emit (event_of EventType.all_in_runout 0 0 0) now s in
    let (t, q, e') = >>=-eq-ok (run_out 4 now shown) (settle evaluate now) e in
    Extends-trans (Extends-event _ refl refl refl refl refl refl refl)
      (Extends-trans (run_out-Extends 4 now shown t q) (settle-Extends evaluate now t s' e'))
take_turn-Extends evaluate now continue (Turn.acts next) s s' h e =
    subst (Extends s) (ok-injective e) (set_actor-Extends next now s)
take_turn-Extends evaluate now continue Turn.opens_street s s' h e =
    let (t, q, e') = >>=-eq-ok (next_street now s) continue e in
    Extends-trans (next_street-Extends now s t q) (h t s' e')

-- `progress` extends the log, whatever it does.
pub progress-Extends :
    (fuel : ℕ) (evaluate : Evaluator) (after : ℕ) (now : Time) (s s' : State)
    → progress fuel evaluate after now s ≡ ok s'
    → Extends s s'
unfolding progress clear_pending
progress-Extends zero evaluate after now s s' e = cc
progress-Extends (suc fuel) evaluate after now s s' e =
    Extends-trans {t = clear_pending s} (Extends-same refl refl refl refl refl) (
      take_turn-Extends evaluate now (λ t. progress fuel evaluate s.config.button_seat now t)
        (turn_of after (clear_pending s)) (clear_pending s) s'
        (λ t t' q. progress-Extends fuel evaluate s.config.button_seat now t t' q) e)
