-- ===== src/Poker/Tests/ChipsExamples.antt =====
-- The theorems on chips at the sample hand.
use momiao.Base.{◌≡◌, refl, true, false, arith}
use momiao.Poker.Types.{State}
use momiao.Poker.Rank.{evaluate}
use momiao.Poker.Engine.{move}
use momiao.Poker.Chips.{Rising}
use momiao.Poker.Tests.Sample.{called, fold_of, value_of, is_ok}

abbrev pub after_fold : State
after_fold = value_of (move evaluate called (fold_of "c1" 4 called.version) 4000 false)

pub after_fold_ok : is_ok (move evaluate called (fold_of "c1" 4 called.version) 4000 false) ≡ true
unfolding called move evaluate
after_fold_ok = refl

pub called-Rising : Rising 0 called.players
unfolding called
called-Rising = omega arith
