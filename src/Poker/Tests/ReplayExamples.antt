-- ===== src/Poker/Tests/ReplayExamples.antt =====
-- The theorems on repeated actions and on the event log at the sample hand.
use momiao.Base.{◌≡◌, refl, Bool, true, false, [], arith}
use momiao.Poker.Types.{ok, err, Action, State, Outcome, Result, conflict}
use momiao.Poker.Rank.{evaluate}
use momiao.Poker.Engine.{apply, apply_as, next_state, valid_id, result, action_eq}
use momiao.Poker.Log.{IsLogged}
use momiao.Poker.Log.Act.{next_state-Recorded, Recorded}
use momiao.Poker.Replay.{apply-apply, apply-conflict}
use momiao.Poker.Tests.Sample.{started, all_in, fold_of, value_of, is_ok, value_of-eq}

abbrev shove : Action
shove = all_in "a1" 1 started.version

unfoldable outcome_of : Result Outcome → Outcome
outcome_of (ok out) = out
outcome_of (err e) = record { version = 0; events = []; duplicate = true; no_op = true }

abbrev shove_outcome : Outcome
shove_outcome = outcome_of (apply evaluate started shove 2000).1

is_done : State × Result Outcome → Bool
is_done (s, ok out) = true
is_done (s, err e) = false

is_done-eq : (r : State × Result Outcome) → is_done r ≡ true → r ≡ (r.0, ok (outcome_of r.1))
unfolding is_done outcome_of
is_done-eq (s, ok out) h = refl
is_done-eq (s, err e) h = cc

shove_done : is_done (apply evaluate started shove 2000) ≡ true
unfolding is_done started apply apply_as next_state valid_id result
shove_done = refl

shove_new : shove_outcome.duplicate ≡ false
unfolding outcome_of started apply apply_as next_state valid_id result
shove_new = refl

apply-apply_example :
    apply evaluate (apply evaluate started shove 2000).0 shove 9000
    ≡ ((apply evaluate started shove 2000).0, ok (record shove_outcome { duplicate = true }))
apply-apply_example =
    apply-apply evaluate started (apply evaluate started shove 2000).0 shove 2000 9000 shove_outcome
      (is_done-eq (apply evaluate started shove 2000) shove_done) shove_new

fold_differs : action_eq shove (fold_of "a1" 1 started.version) ≡ false
unfolding started
fold_differs = refl

apply-conflict_example :
    apply evaluate (apply evaluate started shove 2000).0 (fold_of "a1" 1 started.version) 9000
    ≡ ((apply evaluate started shove 2000).0, err conflict)
apply-conflict_example =
    apply-conflict evaluate started (apply evaluate started shove 2000).0 shove
      (fold_of "a1" 1 started.version) 2000 9000 shove_outcome
      (is_done-eq (apply evaluate started shove 2000) shove_done) shove_new refl fold_differs

abbrev after_shove : State
after_shove = value_of (next_state evaluate started shove 2000 false)

after_shove_ok : is_ok (next_state evaluate started shove 2000 false) ≡ true
unfolding started next_state
after_shove_ok = refl

started-IsLogged : IsLogged started
unfolding started
started-IsLogged = omega arith

next_state-Recorded_example : Recorded started after_shove shove × IsLogged after_shove
next_state-Recorded_example =
    next_state-Recorded evaluate started after_shove shove 2000 false started-IsLogged
      (value_of-eq _ after_shove_ok)
