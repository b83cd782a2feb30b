-- ===== src/Blackjack/Round/Recovered.antt =====
-- `VerifyRecovery` and `Apply` of internal/games/blackjack/blackjack.go.
use momiao.Base.{
  ℕ, ◌*◌, ◌≤◌, ◌↔◌, ◌≡◌, refl, sym, ◌∙◌, ap, subst, Bool, true, false, not, ◌||◌, List, [], ◌∷◌,
  String, ltb, length, arith,
}
use native.Mathlib.Nat.{mul-le-mul_right}
use momiao.Base.Int.{ℤ, pos}
use text.Mathlib.Text.{◌==◌ as str_eq}
use text.Mathlib.TextEquality.{eq_iff}
use text.Mathlib.TextPositions.{eq_refl}
use momiao.Blackjack.{Error, Checked, accepted, refused, ◌>>=◌, ◌>>◌, refuse_if, shoe_hash}
use momiao.Blackjack.Totals.{accepted-injective, refused-accepted, >>=-eq-accepted}
use momiao.Blackjack.Round.Types.{max_int64, Phase, Action, ActionRecord, State, Transition, Time}
use momiao.Blackjack.Round.Deal.{new}
use momiao.Blackjack.Round.Play.{apply_action, is_auto_stand}
use momiao.Blackjack.Round.Same.{same_state}
use momiao.Blackjack.Round.Recover.{reviewed, replay_actions, rebuild, verify_recovery, apply}
use momiao.Blackjack.Round.Plays.{refuse_if-eq-accepted}
use momiao.Blackjack.Round.Rounds.{IsRound, InPhase, stakes-le, true-false}
use momiao.Blackjack.Round.Turns.{IsTurn, apply_action-IsTurn}
use momiao.Blackjack.Round.Opened.{new-IsNew}
use momiao.Blackjack.Round.Equal.{same_state-IsSound, same_state_refl}

reviewed-accepted : {A : Type 0} (m : Checked A) (x : A) → reviewed m ≡ accepted x → m ≡ accepted x
reviewed-accepted (accepted y) x h = h
reviewed-accepted (refused Error.out_of_fuel) x h = elim (refused-accepted h) [ ]
reviewed-accepted (refused _) x h = elim (refused-accepted h) [ ]

not-true : (b : Bool) → not b ≡ false → b ≡ true
not-true true h = refl
not-true false h = elim (true-false (sym h)) [ ]

or-false : (a b : Bool) → (a || b) ≡ false → (a ≡ false) × (b ≡ false)
or-false false b h = (refl, h)
or-false true b h = elim (true-false (sym h)) [ ]

-- What the recovery asks of a state.
pub record IsRecovered (digest : List ℕ → String) (shoe : List ℕ) (s : State) : Type 0 where
  pub hashed : shoe_hash digest shoe ≡ accepted s.shoe_hash
  pub few_actions : length s.actions ≤ 320
  pub rebuilt : rebuild digest shoe s ≡ accepted s

verify_recovery-IsRecovered :
    (digest : List ℕ → String) (shoe : List ℕ) (s : State)
    → verify_recovery digest shoe s ≡ accepted tt
    → IsRecovered digest shoe s
unfolding verify_recovery
verify_recovery-IsRecovered digest shoe s e =
    let (hash, hashed, e₁) = >>=-eq-accepted (reviewed (shoe_hash digest shoe)) _ e in
    let (_, tests, e₂) =
      >>=-eq-accepted
        (refuse_if (not (str_eq hash s.shoe_hash) || ltb 320 (length s.actions)) Error.needs_review)
        _ e₁ in
    let (t, built, e₃) = >>=-eq-accepted (reviewed (rebuild digest shoe s)) _ e₂ in
    let (other, many) =
      or-false (not (str_eq hash s.shoe_hash)) (ltb 320 (length s.actions))
        (refuse_if-eq-accepted _ _ tests) in
    let same : s ≡ t =
      same_state-IsSound s t (not-true (same_state s t) (refuse_if-eq-accepted _ _ e₃)) in
    record {
      hashed =
          reviewed-accepted (shoe_hash digest shoe) hash hashed
          ∙ ap accepted ((eq_iff hash s.shoe_hash).0 (not-true (str_eq hash s.shoe_hash) other));
      few_actions = few (length s.actions) many;
      rebuilt = reviewed-accepted (rebuild digest shoe s) t built ∙ ap accepted (sym same);
    }
  where
    few : (n : ℕ) → ltb 320 n ≡ false → n ≤ 320
    few n h = ground arith

-- The tests of the recovery pass on the state's own hash and replay.
passes :
    (hash : Checked String) (built : Checked State) (s : State)
    → hash ≡ accepted s.shoe_hash
    → length s.actions ≤ 320
    → built ≡ accepted s
    → (reviewed hash >>= λ h.
        refuse_if (not (str_eq h s.shoe_hash) || ltb 320 (length s.actions)) Error.needs_review
        >> reviewed built
        >>= λ t. refuse_if (not (same_state s t)) Error.needs_review)
      ≡ accepted tt
passes hash built s e few f =
    rw (e, f, eq_refl s.shoe_hash, below (length s.actions) few, same_state_refl s) refl
  where
    below : (n : ℕ) → n ≤ 320 → ltb 320 n ≡ false
    below n h = ground arith

-- A recovered state passes.
IsRecovered-verify_recovery :
    (digest : List ℕ → String) (shoe : List ℕ) (s : State)
    → IsRecovered digest shoe s
    → verify_recovery digest shoe s ≡ accepted tt
unfolding verify_recovery
IsRecovered-verify_recovery digest shoe s r =
    passes (shoe_hash digest shoe) (rebuild digest shoe s) s r.hashed r.few_actions r.rebuilt

-- `VerifyRecovery` accepts a state exactly when its hash is that of the valid shoe, it records at
-- most 320 actions, and opening the round again and replaying these actions gives the state
-- itself.
pub verify_recovery_iff :
    (digest : List ℕ → String) (shoe : List ℕ) (s : State)
    → (verify_recovery digest shoe s ≡ accepted tt) ↔ IsRecovered digest shoe s
verify_recovery_iff digest shoe s =
    (verify_recovery-IsRecovered digest shoe s, IsRecovered-verify_recovery digest shoe s)

replay_actions-IsRound :
    (shoe : List ℕ) (records : List ActionRecord) (s t : State)
    → IsRound s
    → replay_actions shoe records s ≡ accepted t
    → IsRound t
unfolding replay_actions
replay_actions-IsRound shoe [] s t r e = subst IsRound (accepted-injective e) r
replay_actions-IsRound shoe (a ∷ records) s t r e =
    let system = is_auto_stand a.action.type in
    let ((added, u), acted, e₁) =
      >>=-eq-accepted (apply_action shoe a.action (pos max_int64) a.at system s) _ e in
    replay_actions-IsRound shoe records u t
      (apply_action-IsTurn shoe a.action (pos max_int64) a.at system s u added r acted).round e₁

rebuild-IsRound :
    (digest : List ℕ → String) (shoe : List ℕ) (s t : State)
    → rebuild digest shoe s ≡ accepted t
    → IsRound t
unfolding rebuild
rebuild-IsRound digest shoe s t e =
    let (u, opened, e₁) =
      >>=-eq-accepted (new digest shoe (pos s.initial_wager_units) s.initial_hand_id s.created_at) _
        e in
    replay_actions-IsRound shoe s.actions u t
      (new-IsNew digest shoe (pos s.initial_wager_units) s.initial_hand_id s.created_at u opened).0
      e₁

-- A state that the recovery accepts is a round.
pub verify_recovery-IsRound :
    (digest : List ℕ → String) (shoe : List ℕ) (s : State)
    → verify_recovery digest shoe s ≡ accepted tt
    → IsRound s
verify_recovery-IsRound digest shoe s e =
    rebuild-IsRound digest shoe s s (verify_recovery-IsRecovered digest shoe s e).rebuilt

-- Whatever state is given, an action that `Apply` accepts leads to a round whose stakes, hands
-- and phase are well formed, with the same wager, shoe and identity, the next version, and a
-- total stake that has grown by exactly the additional stake, which is zero or covered by the
-- available balance.
pub apply-IsTurn :
    (digest : List ℕ → String) (s : State) (shoe : List ℕ) (a : Action) (available : ℤ) (now : Time)
    (t : Transition)
    → apply digest s shoe a available now ≡ accepted t
    → IsTurn available s t.state t.additional_stake_units
unfolding apply
apply-IsTurn digest s shoe a available now t e =
    let (_, verified, e₁) = >>=-eq-accepted (verify_recovery digest shoe s) _ e in
    let ((added, u), acted, e₂) =
      >>=-eq-accepted (apply_action shoe a available now false s) _ e₁ in
    subst (λ (x : Transition). IsTurn available s x.state x.additional_stake_units)
      (accepted-injective e₂)
      (apply_action-IsTurn shoe a available now false s u added
        (verify_recovery-IsRound digest shoe s verified) acted)

stakes_fit : (s : State) → IsRound s → s.total_stake_units ≤ 16 * s.initial_wager_units
stakes_fit s r =
    let k = r.has_stakes in
    omega (
      arith,
      k.total_stakes,
      stakes-le s.initial_wager_units s.hands k.staked,
      mul-le-mul_right (s.initial_wager_units * 2) k.few_hands,
    )

payout_fits :
    (s : State) (p : Phase) → InPhase p s → s.total_payout_units ≤ 16 * s.initial_wager_units
payout_fits s Phase.player_turn (_, unpaid, _, _, _) = omega (arith, unpaid)
payout_fits s Phase.settled (_, _, most, _) = most

-- In a state that passes the recovery, the total stake and the total payout are at most sixteen
-- times the initial wager, which fits an int64.
pub verify_recovery-fits :
    (digest : List ℕ → String) (shoe : List ℕ) (s : State)
    → verify_recovery digest shoe s ≡ accepted tt
    → (s.total_stake_units ≤ 16 * s.initial_wager_units)
      × (s.total_payout_units ≤ 16 * s.initial_wager_units)
      × (16 * s.initial_wager_units ≤ max_int64)
verify_recovery-fits digest shoe s e =
    let r = verify_recovery-IsRound digest shoe s e in
    (stakes_fit s r, payout_fits s s.phase r.in_phase, r.has_stakes.wager_fits)
