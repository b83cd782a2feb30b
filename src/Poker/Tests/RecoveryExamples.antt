-- ===== src/Poker/Tests/RecoveryExamples.antt =====
-- The theorems on the recovery grace at the sample hand.
use momiao.Base.{◌+◌, ◌≡◌, ◌≤◌, ◌<◌, ◌⊎◌, refl, true, none, arith, find}
use text.Mathlib.Text.{◌==◌ as str_eq}
use momiao.Poker.Types.{err, recovering, decision_window}
use momiao.Poker.Rank.{evaluate}
use momiao.Poker.Engine.{apply, begin_recovery, resume, valid_id}
use momiao.Poker.Recovery.{IsRunning, apply-begin_recovery, resume-begin_recovery}
use momiao.Poker.Tests.Sample.{called, fold_of}

called-IsRunning : IsRunning called
unfolding called
called-IsRunning = record { running = refl; no_grace = refl }

fold_id_valid : valid_id "c1" ≡ true
unfolding valid_id
fold_id_valid = refl

called_unseen : find (λ r. str_eq r.action.id "c1") called.receipts ≡ none
unfolding called
called_unseen = refl

apply-begin_recovery_example :
    apply evaluate (begin_recovery called 4000).0 (fold_of "c1" 4 called.version) 5000
    ≡ ((begin_recovery called 4000).0, err recovering)
apply-begin_recovery_example =
    apply-begin_recovery evaluate called (fold_of "c1" 4 called.version) 4000 5000 called-IsRunning
      (omega arith) called_unseen fold_id_valid

resume-begin_recovery_example :
    ((5000 < 4000 + decision_window)
      × ((resume (begin_recovery called 4000).0 5000).0 ≡ (begin_recovery called 4000).0))
    ⊎ (4000 + decision_window ≤ 5000)
      × ((resume (begin_recovery called 4000).0 5000).0.recovery_until ≡ none)
      × ((resume (begin_recovery called 4000).0 5000).0.deadline ≡ 5000 + decision_window)
      × ((resume (begin_recovery called 4000).0 5000).0.players ≡ called.players)
      × ((resume (begin_recovery called 4000).0 5000).0.board ≡ called.board)
      × ((resume (begin_recovery called 4000).0 5000).0.actor ≡ called.actor)
resume-begin_recovery_example =
    resume-begin_recovery called 4000 5000 called-IsRunning (omega arith)
