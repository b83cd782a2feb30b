-- ===== src/Poker/Replay.antt =====
-- Repeated action ids in `Apply` of internal/poker/engine/engine.go.
use momiao.Base.{
  ◌≡◌, refl, sym, subst, Bool, true, false, List, [], ◌∷◌, ◌++◌, arith, String, Option, none, some,
  length, take-length, find, ==_refl,
}
use momiao.Base.Int.{ℤ, pos, negsuc, eqb_ℤ}
use text.Mathlib.Text.{◌==◌ as str_eq}
use text.Mathlib.TextPositions.{eq_refl}
use momiao.Poker.Types.{
  Time, ActionKind, kind_eq, Result, ok, err, invalid, conflict, Action, Event, Receipt, State,
  Evaluator, Outcome, ok-injective,
}
use momiao.Poker.Engine.{next_state, result, apply_as, action_eq, replay, apply}
use momiao.Poker.Log.Act.{next_state-records}

kind_eq_refl : (k : ActionKind) → kind_eq k k ≡ true
kind_eq_refl ActionKind.fold = refl
kind_eq_refl ActionKind.check = refl
kind_eq_refl ActionKind.call = refl
kind_eq_refl ActionKind.bet = refl
kind_eq_refl ActionKind.raise = refl
kind_eq_refl ActionKind.all_in = refl

eqb_ℤ_refl : (i : ℤ) → eqb_ℤ i i ≡ true
eqb_ℤ_refl (pos n) = ground arith
eqb_ℤ_refl (negsuc n) = ground arith

action_eq_refl : (a : Action) → action_eq a a ≡ true
action_eq_refl a =
    rw
      (
        eq_refl a.id,
        ==_refl a.seat,
        ==_refl a.expected_version,
        kind_eq_refl a.kind,
        eqb_ℤ_refl a.to,
      )
      refl

-- The receipts that name an id.
abbrev names : String → Receipt → Bool
names id r = str_eq r.action.id id

find-append :
    (id : String) (rs : List Receipt) (r : Receipt)
    → find (names id) rs ≡ none
    → str_eq r.action.id id ≡ true
    → find (names id) (rs ++ r ∷ []) ≡ some r
find-append id [] r h k = ground arith
find-append id (x ∷ rs) r h k = ground (arith, find-append id rs r)

apply_as-accepted :
    (evaluate : Evaluator) (s s' : State) (a : Action) (now : Time) (timeout : Bool) (out : Outcome)
    → apply_as evaluate s a now timeout ≡ (s', ok out)
    → (next_state evaluate s a now timeout ≡ ok s') × (out ≡ result (length s.events) s')
unfolding apply_as
apply_as-accepted evaluate s s' a now timeout out e = go (next_state evaluate s a now timeout) refl
  where
    go :
        (r : Result State)
        → next_state evaluate s a now timeout ≡ r
        → (next_state evaluate s a now timeout ≡ ok s') × (out ≡ result (length s.events) s')
    go (ok t) q = ground arith
    go (err x) q = absurd (ground arith)

-- An accepted action that is no duplicate had a fresh id and went through `apply`.
accepted :
    (evaluate : Evaluator) (s s' : State) (a : Action) (now : Time) (out : Outcome)
    → apply evaluate s a now ≡ (s', ok out)
    → out.duplicate ≡ false
    → (find (names a.id) s.receipts ≡ none)
      × (next_state evaluate s a now false ≡ ok s')
      × (out ≡ result (length s.events) s')
unfolding apply replay
accepted evaluate s s' a now out e d = go (find (names a.id) s.receipts) refl
  where
    go :
        (o : Option Receipt)
        → find (names a.id) s.receipts ≡ o
        → (find (names a.id) s.receipts ≡ none)
          × (next_state evaluate s a now false ≡ ok s')
          × (out ≡ result (length s.events) s')
    go (some r) q = absurd (ground arith)
    go none q = ground (arith, apply_as-accepted evaluate s s' a now false out)

found_again :
    (evaluate : Evaluator) (s s' : State) (a : Action) (now : Time) (out : Outcome)
    → apply evaluate s a now ≡ (s', ok out)
    → out.duplicate ≡ false
    → find (names a.id) s'.receipts
      ≡ some (record { action = a; first_event = length s.events; last_event = length s'.events })
found_again evaluate s s' a now out e d =
    let (fresh, next, _) = accepted evaluate s s' a now out e d in
    rw ((next_state-records evaluate s s' a now false next).receipts)
      (find-append a.id s.receipts _ fresh (eq_refl a.id))

-- Sending an accepted new action again, at any time, leaves the hand as it is and answers with
-- the same version and events, marked as a duplicate.
pub apply-apply :
    (evaluate : Evaluator) (s s' : State) (a : Action) (now later : Time) (out : Outcome)
    → apply evaluate s a now ≡ (s', ok out)
    → out.duplicate ≡ false
    → apply evaluate s' a later ≡ (s', ok (record out { duplicate = true }))
unfolding apply replay result
apply-apply evaluate s s' a now later out e d =
    let (fresh, next, answer) = accepted evaluate s s' a now out e d in
    rw (found_again evaluate s s' a now out e d, apply)
      (ground (arith, action_eq_refl a, take-length s'.events))

-- The id of an accepted new action, sent with another action, is answered with a conflict, and
-- the hand stays as it is.
pub apply-conflict :
    (evaluate : Evaluator) (s s' : State) (a b : Action) (now later : Time) (out : Outcome)
    → apply evaluate s a now ≡ (s', ok out)
    → out.duplicate ≡ false
    → b.id ≡ a.id
    → action_eq a b ≡ false
    → apply evaluate s' b later ≡ (s', err conflict)
unfolding apply replay
apply-conflict evaluate s s' a b now later out e d i ne =
    let again : find (names b.id) s'.receipts
        ≡ some
            (record { action = a; first_event = length s.events; last_event = length s'.events }) =
      subst
        (λ (id : String).
          find (names id) s'.receipts
          ≡ some
              (record { action = a; first_event = length s.events; last_event = length s'.events }))
        (sym i) (found_again evaluate s s' a now out e d) in
    rw (again, apply) (ground arith)

-- An operation that fails leaves the engine as it was.
pub apply-err :
    (evaluate : Evaluator) (s s' : State) (a : Action) (now : Time) (x : momiao.Poker.Types.Error)
    → apply evaluate s a now ≡ (s', err x)
    → s' ≡ s
unfolding apply apply_as
apply-err evaluate s s' a now x e = ground arith
