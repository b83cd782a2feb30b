-- ===== src/Blackjack/Round/Ends.antt =====
-- `VerifyRecovery` and `Apply` of internal/games/blackjack/blackjack.go: their loops and their fuel.
use momiao.Base.{ℕ, ◌≢◌, refl, false, not, List, [], ◌∷◌, String, Bool-cases, inl, inr}
use momiao.Base.Int.{ℤ, pos}
use momiao.Blackjack.{is_shoe, Error, refused, shoe_hash}
use momiao.Blackjack.Round.Types.{max_int64, ActionRecord, Action, State, Time}
use momiao.Blackjack.Round.Deal.{new}
use momiao.Blackjack.Round.Play.{apply_action, is_auto_stand}
use momiao.Blackjack.Round.Same.{same_state}
use momiao.Blackjack.Round.Recover.{reviewed, replay_actions, rebuild, verify_recovery, apply}
use momiao.Blackjack.Round.Rounds.{IsRound}
use momiao.Blackjack.Round.Paced.{IsPaced, apply_action-IsPaced}
use momiao.Blackjack.Round.Turns.{apply_action-IsTurn}
use momiao.Blackjack.Round.Opened.{new-IsNew}
use momiao.Blackjack.Round.Recovered.{verify_recovery_iff, verify_recovery-IsRound}
use momiao.Blackjack.Round.Replayed.{IsRecovered-IsPaced, fresh-IsPaced}
use momiao.Blackjack.Round.Ended.{
  Ends, Ends-≢, returned-Ends, failed-Ends, reviewed-Ends, refuse_if-Ends, >>=-Ends, tested-Ends,
  apply_action-Ends,
}

shoe_hash-Ends : (digest : List ℕ → String) (shoe : List ℕ) → Ends (shoe_hash digest shoe)
unfolding shoe_hash
shoe_hash-Ends digest shoe = elim (Bool-cases (is_shoe [] shoe)) [
  | inl valid ↦ rw (valid) (returned-Ends _)
  | inr bad ↦ rw (bad) (failed-Ends Error.invalid_shoe refl)
]

new-Ends :
    (digest : List ℕ → String) (shoe : List ℕ) (wager : ℤ) (id : String) (now : Time)
    → Ends (new digest shoe wager id now)
unfolding new
new-Ends digest shoe wager id now = tested-Ends _ Error.invalid_wager _ refl (
    tested-Ends _ Error.integer_overflow _ refl (
      tested-Ends _ Error.action_not_allowed _ refl (
        >>=-Ends (shoe_hash digest shoe) _ (shoe_hash-Ends digest shoe)
          (λ hash _. returned-Ends _))))

replay_actions-Ends :
    (shoe : List ℕ) (records : List ActionRecord) (s : State)
    → IsRound s
    → IsPaced shoe s
    → Ends (replay_actions shoe records s)
unfolding replay_actions
replay_actions-Ends shoe [] s r k = returned-Ends s
replay_actions-Ends shoe (a ∷ records) s r k =
    let system = is_auto_stand a.action.type in
    >>=-Ends (apply_action shoe a.action (pos max_int64) a.at system s) _
      (apply_action-Ends shoe a.action (pos max_int64) a.at system s r k)
      (λ (added, u) acted.
        replay_actions-Ends shoe records u
          (apply_action-IsTurn shoe a.action (pos max_int64) a.at system s u added r acted).round
          (apply_action-IsPaced shoe a.action (pos max_int64) a.at system s u added r k acted))

-- Whatever the state records, replaying it ends.
rebuild-Ends : (digest : List ℕ → String) (shoe : List ℕ) (s : State) → Ends (rebuild digest shoe s)
unfolding rebuild
rebuild-Ends digest shoe s =
    let wager = pos s.initial_wager_units in
    let id = s.initial_hand_id in
    >>=-Ends (new digest shoe wager id s.created_at) _ (new-Ends digest shoe wager id s.created_at)
      (λ v opened.
        let (round, hash, _, f) = new-IsNew digest shoe wager id s.created_at v opened in
        replay_actions-Ends shoe s.actions v round
          (fresh-IsPaced shoe hash id s.initial_wager_units s.created_at v f))

pub verify_recovery-Ends :
    (digest : List ℕ → String) (shoe : List ℕ) (s : State) → Ends (verify_recovery digest shoe s)
unfolding verify_recovery
verify_recovery-Ends digest shoe s =
    >>=-Ends (reviewed (shoe_hash digest shoe)) _
      (reviewed-Ends (shoe_hash digest shoe) (shoe_hash-Ends digest shoe))
      (λ hash _. tested-Ends _ Error.needs_review _ refl (
        >>=-Ends (reviewed (rebuild digest shoe s)) _
          (reviewed-Ends (rebuild digest shoe s) (rebuild-Ends digest shoe s))
          (λ t _. refuse_if-Ends (not (same_state s t)) Error.needs_review refl)))

-- Neither `Apply` nor the replay in its recovery runs out of the fuel of the dealer's draws,
-- whatever `Apply` is given.
pub apply-ends :
    (digest : List ℕ → String) (s : State) (shoe : List ℕ) (a : Action) (available : ℤ) (now : Time)
    → apply digest s shoe a available now ≢ refused Error.out_of_fuel
unfolding apply
apply-ends digest s shoe a available now = Ends-≢ _ (
    >>=-Ends (verify_recovery digest shoe s) _ (verify_recovery-Ends digest shoe s) (λ _ verified.
      >>=-Ends (apply_action shoe a available now false s) _
        (apply_action-Ends shoe a available now false s
          (verify_recovery-IsRound digest shoe s verified)
          (IsRecovered-IsPaced digest shoe s ((verify_recovery_iff digest shoe s).0 verified)))
        (λ _ _. returned-Ends _)))
