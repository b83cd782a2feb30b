-- ===== src/Blackjack/Round/Recover.antt =====
-- `VerifyRecovery`, `Apply` and `AutoResolve` of internal/games/blackjack/blackjack.go. `digest` is
-- the hexadecimal SHA-256 of a shoe.
use momiao.Base.{
  ℕ, zero, suc, String, true, false, not, ◌||◌, List, [], ◌∷◌, Option, none, some, ltb, length,
  if◌then◌else◌,
}
use momiao.Base.Int.{ℤ, pos}
use text.Mathlib.Text.{◌==◌ as str_eq}
use momiao.Blackjack.{Error, Checked, refused, accepted, ◌>>=◌, ◌>>◌, refuse_if, shoe_hash}
use momiao.Blackjack.Round.Types.{
  Time, max_int64, ActionType, Action, ActionRecord, State, Transition,
}
use momiao.Blackjack.Round.Deal.{new}
use momiao.Blackjack.Round.Play.{apply_action, is_player_turn, is_auto_stand}
use momiao.Blackjack.Round.Same.{same_state}

-- Every error that the replay returns is ErrNeedsReview. Used-up fuel stands for a loop that does
-- not return, so it is kept.
abbrev pub reviewed : {A : Type 0} → Checked A → Checked A
reviewed (refused Error.out_of_fuel) = refused Error.out_of_fuel
reviewed (refused error) = refused Error.needs_review
reviewed (accepted value) = accepted value

-- The recorded actions played again, with any balance.
unfoldable pub replay_actions : List ℕ → List ActionRecord → State → Checked State
unfolding apply_action
replay_actions shoe [] s = accepted s
replay_actions shoe (r ∷ records) s =
    apply_action shoe r.action (pos max_int64) r.at (is_auto_stand r.action.type) s >>= λ p.
    replay_actions shoe records p.1

-- The round that the recorded actions make of a shoe.
unfoldable pub rebuild : (List ℕ → String) → List ℕ → State → Checked State
unfolding new replay_actions
rebuild digest shoe s =
    new digest shoe (pos s.initial_wager_units) s.initial_hand_id s.created_at >>= λ t.
    replay_actions shoe s.actions t

unfoldable pub verify_recovery : (List ℕ → String) → List ℕ → State → Checked (Unit {0})
unfolding shoe_hash rebuild same_state
verify_recovery digest shoe s = reviewed (shoe_hash digest shoe) >>= λ hash.
    refuse_if (not (str_eq hash s.shoe_hash) || ltb 320 (length s.actions)) Error.needs_review
    >> reviewed (rebuild digest shoe s)
    >>= λ t. refuse_if (not (same_state s t)) Error.needs_review

unfoldable pub apply : (List ℕ → String) → State → List ℕ → Action → ℤ → Time → Checked Transition
unfolding verify_recovery apply_action
apply digest s shoe a available now =
    verify_recovery digest shoe s >> apply_action shoe a available now false s >>= λ p.
    accepted (record { state = p.1; additional_stake_units = p.0 })

-- The action that stands the active hand for the system.
abbrev pub stand_for : String → State → Action
stand_for id s = record {
  id = id;
  expected_version = s.version;
  hand_id = s.active_hand_id;
  type = ActionType.system_auto_stand;
  new_hand_id = "";
}

-- The loop of `AutoResolve`, one round for each active hand.
unfoldable pub stand_all : ℕ → List ℕ → Time → (String → Checked String) → State → Checked State
unfolding apply_action
stand_all zero shoe now name s = refused Error.out_of_fuel
stand_all (suc fuel) shoe now name s = elim (is_player_turn s.phase) [
  | false ↦ accepted s
  | true ↦ name s.active_hand_id >>= λ id.
      apply_action shoe (stand_for id s) (pos 0) now true s >>= λ p.
      stand_all fuel shoe now name p.1
]

-- The callback that names the system's actions may be missing.
unfoldable pub stand_expired :
    List ℕ → Time → Option (String → Checked String) → State → Checked Transition
unfolding stand_all
stand_expired shoe now none s = refused Error.action_not_allowed
stand_expired shoe now (some name) s = stand_all (suc (length s.hands)) shoe now name s >>= λ t.
    accepted (record { state = t; additional_stake_units = 0 })

unfoldable pub auto_resolve :
    (List ℕ → String)
    → State
    → List ℕ
    → Time
    → Option (String → Checked String)
    → Checked Transition
unfolding verify_recovery stand_expired
auto_resolve digest s shoe now name =
    verify_recovery digest shoe s
    >> (if not (is_player_turn s.phase) || ltb now s.auto_resolve_at
        then accepted (record { state = s; additional_stake_units = 0 })
        else stand_expired shoe now name s)
