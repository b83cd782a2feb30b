-- ===== src/Poker/Recovery.antt =====
-- The recovery grace of internal/poker/engine/engine.go: BeginRecovery, Resume, and the actions
-- between them.
use momiao.Base.{
  ◌+◌, ◌≤◌, ◌<◌, ◌≡◌, refl, ap, ◌∙◌, true, false, Bool, none, some, ltb, ◌==◌, find, arith,
  Bool-cases, ◌⊎◌, inl, inr,
}
use text.Mathlib.Text.{◌==◌ as str_eq}
use momiao.Poker.Types.{
  Time, Street, street_eq, decision_window, Result, ok, err, recovering, Action, State, Evaluator,
  Outcome, guard, ◌>>=◌, ◌>>◌,
}
use momiao.Poker.Table.{emit, set_actor}
use momiao.Poker.Engine.{
  may_act, move, next_state, apply_as, apply, valid_id, begin_recovery, enter_recovery, resume,
  leave_recovery,
}

-- A hand that runs, without a grace at the time.
pub record IsRunning (s : State) : Type 0 where
  pub running : street_eq s.street Street.settled ≡ false
  pub no_grace : s.recovery_until ≡ none

begin_recovery-enters :
    (s : State) (now : Time)
    → IsRunning s
    → 0 < now
    → (begin_recovery s now).0 ≡ enter_recovery now s
unfolding begin_recovery
begin_recovery-enters s now r h =
    let started : now == 0 ≡ false = ground arith in rw (started, r.running, r.no_grace) refl

move-recovering :
    (evaluate : Evaluator) (s : State) (a : Action) (now : Time) (timeout : Bool) (until : Time)
    → s.recovery_until ≡ some until
    → move evaluate s a now timeout ≡ err recovering
unfolding move may_act
move-recovering evaluate s a now timeout until h = rw h refl

next_state-recovering :
    (evaluate : Evaluator) (s : State) (a : Action) (now : Time) (timeout : Bool) (until : Time)
    → s.recovery_until ≡ some until
    → next_state evaluate s a now timeout ≡ err recovering
unfolding next_state
next_state-recovering evaluate s a now timeout until h =
    rw (move-recovering evaluate s a now timeout until h) refl

apply-refused :
    (evaluate : Evaluator) (t : State) (a : Action) (later : Time) (e : momiao.Poker.Types.Error)
    → find (λ r. str_eq r.action.id a.id) t.receipts ≡ none
    → valid_id a.id ≡ true
    → next_state evaluate t a later false ≡ err e
    → apply evaluate t a later ≡ (t, err e)
unfolding apply apply_as
apply-refused evaluate t a later e new valid refused =
    rw (new, apply, valid, refused, apply_as) refl

-- During the grace that BeginRecovery opens on a running hand at a time that is not zero, an
-- action with a new and valid id is refused as recovering at any time, and the hand stays as it
-- is.
pub apply-begin_recovery :
    (evaluate : Evaluator) (s : State) (a : Action) (now later : Time)
    → IsRunning s
    → 0 < now
    → find (λ r. str_eq r.action.id a.id) s.receipts ≡ none
    → valid_id a.id ≡ true
    → apply evaluate (begin_recovery s now).0 a later ≡ ((begin_recovery s now).0, err recovering)
unfolding enter_recovery emit
apply-begin_recovery evaluate s a now later r h new valid =
    let refused =
      next_state-recovering evaluate (enter_recovery now s) a later false (now + decision_window)
        refl in
    rw (begin_recovery-enters s now r h)
      (apply-refused evaluate (enter_recovery now s) a later recovering new valid refused)

resume-late :
    (s : State) (now later : Time)
    → ltb later (now + decision_window) ≡ false
    → (resume (enter_recovery now s) later).0 ≡ leave_recovery later (enter_recovery now s)
unfolding resume enter_recovery emit
resume-late s now later late = rw late refl

-- Resume after BeginRecovery on a running hand changes nothing before the decision window has
-- passed; from then on it ends the grace and gives the actor a whole window, with the players,
-- the board and the actor as they were.
pub resume-begin_recovery :
    (s : State) (now later : Time)
    → IsRunning s
    → 0 < now
    → ((later < now + decision_window)
        × ((resume (begin_recovery s now).0 later).0 ≡ (begin_recovery s now).0))
      ⊎ (now + decision_window ≤ later)
        × ((resume (begin_recovery s now).0 later).0.recovery_until ≡ none)
        × ((resume (begin_recovery s now).0 later).0.deadline ≡ later + decision_window)
        × ((resume (begin_recovery s now).0 later).0.players ≡ s.players)
        × ((resume (begin_recovery s now).0 later).0.board ≡ s.board)
        × ((resume (begin_recovery s now).0 later).0.actor ≡ s.actor)
unfolding resume enter_recovery leave_recovery set_actor emit
resume-begin_recovery s now later r h = elim (Bool-cases (ltb later (now + decision_window))) [
  | inl early ↦ inl (ground arith, rw (begin_recovery-enters s now r h, early) refl)
  | inr late ↦
      let e : (resume (begin_recovery s now).0 later).0
          ≡ leave_recovery later (enter_recovery now s) =
        ap (λ (t : State). (resume t later).0) (begin_recovery-enters s now r h)
        ∙ resume-late s now later late in
      inr (
        ground arith,
        ap (λ (t : State). t.recovery_until) e,
        ap (λ (t : State). t.deadline) e,
        ap (λ (t : State). t.players) e,
        ap (λ (t : State). t.board) e,
        ap (λ (t : State). t.actor) e,
      )
]
