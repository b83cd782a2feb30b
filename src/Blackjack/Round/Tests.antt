-- ===== src/Blackjack/Round/Tests.antt =====
-- A sample round: the shoe in order, a wager of 10 chips.
use momiao.Base.{
  ℕ, ◌+◌, ◌*◌, ◌≤◌, ◌≡◌, ◌≢◌, ◌↔◌, refl, String, Bool, true, false, List, [], ◌∷◌, length, map,
  Option, some,
}
use momiao.Base.Int.{pos}
use momiao.Blackjack.{
  Checked, accepted, refused, Error, Card, cards_in_shoe, count_up, shoe_hash, is_shoe, evaluate,
  count_points, point,
}
use momiao.Blackjack.Round.{
  inactivity, max_int64, units_per_chip, Phase, ActionType, Action, Hand, State, Transition, new,
  initial_state, verify_recovery, apply, auto_resolve, value_of_cards, class_of, settle_hands,
  settle_hand, outcome_of, same_state, public_view,
}
use momiao.Blackjack.Round.Opened.{IsNew, new-IsNew}
use momiao.Blackjack.Round.Recovered.{
  IsRecovered, verify_recovery_iff, verify_recovery-fits, apply-IsTurn,
}
use momiao.Blackjack.Round.Replayed.{verify_recovery-new, verify_recovery-apply}
use momiao.Blackjack.Round.Ends.{apply-ends}
use momiao.Blackjack.Round.Turns.{IsTurn}
use momiao.Blackjack.Round.Expiry.{IsExpiry, auto_resolve-IsExpiry, auto_resolve-ends}
use momiao.Blackjack.Round.Hidden.{with_hidden, public_view-hidden}

abbrev digest : List ℕ → String
digest shoe = "digest"

unfoldable shoe : List ℕ
unfolding count_up
shoe = count_up 0 cards_in_shoe

shoe_ok : is_shoe [] shoe ≡ true
unfolding shoe is_shoe
shoe_ok = refl

unfoldable value_of : Checked State → State
unfolding initial_state
value_of (accepted s) = s
value_of (refused e) = initial_state "" 0 "" 0

abbrev is_accepted : {A : Type 0} → Checked A → Bool
is_accepted (accepted a) = true
is_accepted (refused e) = false

unfoldable opened : State
unfolding value_of new shoe_hash value_of_cards evaluate count_points point is_shoe shoe
opened = value_of (new digest shoe (pos (10 * units_per_chip)) "h1" 1000)

opened_deal :
    (map (λ (c : Card). c.instance_id) opened.dealt ≡ 0 ∷ 1 ∷ 2 ∷ 3 ∷ [])
    × (opened.active_hand_id ≡ "h1")
unfolding opened
opened_deal = (refl, refl)

abbrev act : String → ActionType → ℕ → Action
act id type version = record {
  id = id;
  expected_version = version;
  hand_id = "h1";
  type = type;
  new_hand_id = "h2";
}

unfoldable state_of : Checked Transition → State
unfolding initial_state
state_of (accepted t) = t.state
state_of (refused e) = initial_state "" 0 "" 0

unfoldable after_hit : State
unfolding opened state_of apply
after_hit = state_of (apply digest opened shoe (act "a1" ActionType.hit 1) (pos 0) 2000)

after_hit_cards :
    map (λ (h : Hand). map (λ (c : Card). c.instance_id) h.cards) after_hit.hands
    ≡ (0 ∷ 2 ∷ 4 ∷ []) ∷ []
unfolding after_hit
after_hit_cards = refl

unfoldable after_stand : State
unfolding after_hit state_of apply class_of settle_hands settle_hand outcome_of
after_stand = state_of (apply digest after_hit shoe (act "a2" ActionType.stand 2) (pos 0) 3000)

after_stand_settled :
    (after_stand.phase ≡ Phase.settled)
    × (map (λ (c : Card). c.instance_id) after_stand.dealer ≡ 1 ∷ 3 ∷ 5 ∷ 6 ∷ [])
    × (after_stand.class ≡ "BREAK_EVEN")
unfolding after_stand
after_stand_settled = (refl, refl, refl)

abbrev hit_action : Action
hit_action = act "a1" ActionType.hit 1

after_hit_applied :
    apply digest opened shoe hit_action (pos 0) 2000
    ≡ accepted (record { state = after_hit; additional_stake_units = 0 })
unfolding after_hit
after_hit_applied = refl

abbrev expiry : ℕ
expiry = 1000 + inactivity

abbrev system_name : Option (String → Checked String)
system_name = some (λ (hand : String). accepted "system")

unfoldable resolved : State
unfolding opened state_of auto_resolve class_of settle_hands settle_hand outcome_of
resolved = state_of (auto_resolve digest opened shoe expiry system_name)

resolved_at_expiry :
    auto_resolve digest opened shoe expiry system_name
    ≡ accepted (record { state = resolved; additional_stake_units = 0 })
unfolding resolved
resolved_at_expiry = refl

opened-new : new digest shoe (pos (10 * units_per_chip)) "h1" 1000 ≡ accepted opened
unfolding opened
opened-new = refl

length-shoe : length shoe ≡ cards_in_shoe
unfolding shoe
length-shoe = refl

new-IsNew_example : IsNew digest shoe (10 * units_per_chip) "h1" 1000 opened
new-IsNew_example = new-IsNew digest shoe (pos (10 * units_per_chip)) "h1" 1000 opened opened-new

verify_recovery_iff_example :
    (verify_recovery digest shoe after_hit ≡ accepted tt) ↔ IsRecovered digest shoe after_hit
verify_recovery_iff_example = verify_recovery_iff digest shoe after_hit

apply-IsTurn_example : IsTurn (pos 0) opened after_hit 0
apply-IsTurn_example =
    apply-IsTurn digest opened shoe hit_action (pos 0) 2000
      (record { state = after_hit; additional_stake_units = 0 }) after_hit_applied

verify_recovery-new_example : verify_recovery digest shoe opened ≡ accepted tt
verify_recovery-new_example =
    verify_recovery-new digest shoe (pos (10 * units_per_chip)) "h1" 1000 opened opened-new

verify_recovery-apply_example : verify_recovery digest shoe after_hit ≡ accepted tt
verify_recovery-apply_example =
    verify_recovery-apply digest opened shoe hit_action (pos 0) 2000
      (record { state = after_hit; additional_stake_units = 0 }) length-shoe refl after_hit_applied

opened_verified : verify_recovery digest shoe opened ≡ accepted tt
unfolding opened verify_recovery shoe same_state
opened_verified = refl

verify_recovery-fits_example :
    (opened.total_stake_units ≤ 16 * opened.initial_wager_units)
    × (opened.total_payout_units ≤ 16 * opened.initial_wager_units)
    × (16 * opened.initial_wager_units ≤ max_int64)
verify_recovery-fits_example = verify_recovery-fits digest shoe opened opened_verified

apply-ends_example : apply digest opened shoe hit_action (pos 0) 2000 ≢ refused Error.out_of_fuel
apply-ends_example = apply-ends digest opened shoe hit_action (pos 0) 2000

auto_resolve-IsExpiry_example : (◌≡◌ {A = ℕ} 0 0) × IsExpiry expiry opened resolved
auto_resolve-IsExpiry_example =
    auto_resolve-IsExpiry digest opened shoe expiry system_name
      (record { state = resolved; additional_stake_units = 0 }) resolved_at_expiry

named_system :
    (id : String) → ◌≡◌ {A = Checked String} (accepted "system") (refused Error.out_of_fuel) → ⊥
named_system id e = cc

auto_resolve-ends_example :
    auto_resolve digest opened shoe expiry system_name ≢ refused Error.out_of_fuel
auto_resolve-ends_example =
    auto_resolve-ends digest opened shoe expiry (λ (hand : String). accepted "system") named_system

abbrev card : ℕ → ℕ → Card
card index id = record { shoe_index = index; instance_id = id }

opened_turn : (opened.phase ≡ Phase.player_turn) × (opened.dealer ≡ card 1 1 ∷ card 3 3 ∷ [])
unfolding opened
opened_turn = (refl, refl)

public_view-hidden_example :
    public_view opened (pos 0)
    ≡ public_view (with_hidden opened (card 1 1 ∷ card 3 12 ∷ []) [] 7 "other") (pos 0)
public_view-hidden_example =
    public_view-hidden opened (card 1 1) (card 3 3 ∷ []) (card 3 12 ∷ []) [] 7 "other" (pos 0)
      new-IsNew_example.0 opened_turn.0 opened_turn.1
