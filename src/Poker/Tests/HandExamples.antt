-- ===== src/Poker/Tests/HandExamples.antt =====
-- The theorems on whole hands at the sample hand.
use momiao.Base.{ℕ, some, ◌-◌, ◌≤◌, ◌+◌, ◌≡◌, refl, List, [], ◌∷◌, true, false, arith, String}
use momiao.Poker.Types.{
  Participant, Action, ok, State, Card, HandRank, Result, invalid, Street, guard-eq-ok,
}
use momiao.Poker.Rank.{evaluate}
use momiao.Poker.Settle.{settle}
use momiao.Poker.Progress.{progress, progress_fuel}
use momiao.Poker.Table.{player, legal}
use momiao.Poker.Engine.{move, target_of, perform}
use momiao.Poker.Targets.{move-covered}
use momiao.Poker.Validate.{is_valid, validate}
use momiao.Poker.Chips.{chips, stacks, committed, WholeCommitted}
use momiao.Poker.Chips.Settlement.{settle-chips}
use momiao.Poker.Chips.Pots.{potted, returned, settle-potted}
use momiao.Poker.Chips.Hand.{progress-chips}
use momiao.Poker.Validated.{move-initial_total, is_valid-Sound, Sound}
use momiao.Poker.Termination.{progress-NoFault, NoFault, HasRoom}
use momiao.Poker.Tests.Sample.{shoved, all_in, called, fold_of, value_of, is_ok, value_of-eq}
use momiao.Poker.Tests.ChipsExamples.{after_fold, after_fold_ok, called-Rising}

called_validated : validate called ≡ ok tt
unfolding called validate
called_validated = refl

called_valid : is_valid called ≡ true
unfolding validate
called_valid = guard-eq-ok (is_valid called) invalid called_validated

move-initial_total_example : chips after_fold.players ≡ called.initial_total
move-initial_total_example =
    move-initial_total evaluate called after_fold (fold_of "c1" 4 called.version) 4000 false
      called_valid (value_of-eq _ after_fold_ok)

shoved_validated : validate shoved ≡ ok tt
unfolding shoved validate
shoved_validated = refl

shoved_valid : is_valid shoved ≡ true
unfolding validate
shoved_valid = guard-eq-ok (is_valid shoved) invalid shoved_validated

abbrev second_all_in : Action
second_all_in = all_in "b1" 2 shoved.version

after_all_in_ok : is_ok (move evaluate shoved second_all_in 3000 false) ≡ true
unfolding shoved move evaluate
after_all_in_ok = refl

abbrev after_all_in : State
after_all_in = value_of (move evaluate shoved second_all_in 3000 false)

move-covered_example :
    (p : Participant) × (target : ℕ) × (player shoved.players 2 ≡ some p)
    × (target_of (legal shoved) p second_all_in ≡ ok target)
    × (p.street_committed ≤ target)
    × (target ≤ p.stack + p.street_committed)
    × (progress progress_fuel evaluate 2 3000
          (perform second_all_in 3000 false (target - p.street_committed) target shoved)
        ≡ ok after_all_in)
move-covered_example =
    move-covered evaluate shoved after_all_in second_all_in 3000 false shoved_valid
      (value_of-eq _ after_all_in_ok)

is_valid-Sound_example : Sound called
is_valid-Sound_example = is_valid-Sound called called_valid

called-WholeCommitted : WholeCommitted called.players
unfolding called
called-WholeCommitted = omega arith

-- The hand with every street dealt, ready to be settled.
abbrev ready : State
ready = record called { board = 6 ∷ 7 ∷ 8 ∷ 9 ∷ 10 ∷ []; street = Street.river }

abbrev paid : State
paid = value_of (settle evaluate 4000 ready)

paid_ok : is_ok (settle evaluate 4000 ready) ≡ true
unfolding called settle evaluate
paid_ok = refl

settle-chips_example : (stacks paid.players ≡ chips ready.players) × (committed paid.players ≡ 0)
settle-chips_example =
    settle-chips evaluate 4000 ready paid called-Rising called-WholeCommitted
      (value_of-eq _ paid_ok)

settle-potted_example :
    potted paid.pots + returned paid.returns
    ≡ potted ready.pots + returned ready.returns + committed ready.players
settle-potted_example = settle-potted evaluate 4000 ready paid called-Rising (value_of-eq _ paid_ok)

progressed_ok : is_ok (progress progress_fuel evaluate 2 3000 called) ≡ true
unfolding called progress evaluate
progressed_ok = refl

progress-chips_example :
    chips (value_of (progress progress_fuel evaluate 2 3000 called)).players ≡ chips called.players
progress-chips_example =
    progress-chips progress_fuel evaluate 2 3000 called
      (value_of (progress progress_fuel evaluate 2 3000 called)) called-Rising called-WholeCommitted
      (value_of-eq _ progressed_ok)

-- An evaluator that gives every hand the same rank.
abbrev flat_evaluate : Card × Card → List Card → String → Result HandRank
flat_evaluate hole board version =
    ok (record { category = "HIGH_CARD"; vector = 0 ∷ []; best_five = []; version = version })

called-HasRoom : HasRoom called
unfolding called
called-HasRoom = record { running = λ e. cc; room = omega arith }

progress-NoFault_example : NoFault (progress progress_fuel flat_evaluate 2 3000 called)
unfolding called
progress-NoFault_example =
    progress-NoFault progress_fuel flat_evaluate 2 3000 called (λ hole board version. tt)
      called-HasRoom (omega arith)
