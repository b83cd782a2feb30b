-- ===== src/Blackjack/Round/Same.antt =====
-- `reflect.DeepEqual` on the states of internal/games/blackjack/blackjack.go, as their clones
-- normalise them: field by field.
use momiao.Base.{ℕ, Bool, true, false, ◌&&◌, List, [], ◌∷◌, ◌==◌, String}
use momiao.Base.Int.{ℤ, pos, negsuc}
use text.Mathlib.Text.{◌==◌ as str_eq}
use momiao.Blackjack.{Card, Value}
use momiao.Blackjack.Round.Types.{Phase, HandStatus, ActionType, Hand, Action, ActionRecord, State}

unfoldable pub same_list : {A : Type 0} → (A → A → Bool) → List A → List A → Bool
same_list eq [] [] = true
same_list eq (x ∷ xs) (y ∷ ys) = eq x y && same_list eq xs ys
same_list eq [] (y ∷ ys) = false
same_list eq (x ∷ xs) [] = false

unfoldable pub same_bool : Bool → Bool → Bool
same_bool true true = true
same_bool false false = true
same_bool true false = false
same_bool false true = false

unfoldable pub same_int : ℤ → ℤ → Bool
same_int (pos m) (pos n) = m == n
same_int (negsuc m) (negsuc n) = m == n
same_int (pos m) (negsuc n) = false
same_int (negsuc m) (pos n) = false

unfoldable pub phase_code : Phase → ℕ
phase_code Phase.player_turn = 0
phase_code Phase.settled = 1

unfoldable pub status_code : HandStatus → ℕ
status_code HandStatus.active = 0
status_code HandStatus.stood = 1
status_code HandStatus.bust = 2
status_code HandStatus.doubled_complete = 3
status_code HandStatus.split_aces_complete = 4
status_code HandStatus.natural_complete = 5

abbrev pub type_code : ActionType → ℕ
type_code ActionType.hit = 0
type_code ActionType.stand = 1
type_code ActionType.double = 2
type_code ActionType.split = 3
type_code ActionType.system_auto_stand = 4
type_code (ActionType.other_type _) = 5

abbrev pub type_text : ActionType → String
type_text (ActionType.other_type text) = text
type_text _ = ""

unfoldable pub same_type : ActionType → ActionType → Bool
same_type a b = type_code a == type_code b && str_eq (type_text a) (type_text b)

unfoldable pub same_card : Card → Card → Bool
same_card a b = a.shoe_index == b.shoe_index && a.instance_id == b.instance_id

unfoldable pub same_value : Value → Value → Bool
unfolding same_bool
same_value a b =
    a.hard_total == b.hard_total && a.best_total == b.best_total && same_bool a.soft b.soft

unfoldable pub same_hand : Hand → Hand → Bool
unfolding same_list same_card same_value same_bool same_int status_code
same_hand a b =
    str_eq a.id b.id
    && a.index == b.index
    && str_eq a.parent_id b.parent_id
    && same_list same_card a.cards b.cards
    && a.stake_units == b.stake_units
    && same_bool a.from_split b.from_split
    && same_bool a.split_aces b.split_aces
    && same_bool a.natural b.natural
    && status_code a.status == status_code b.status
    && same_value a.value b.value
    && str_eq a.result b.result
    && a.payout_units == b.payout_units
    && same_int a.net_change_units b.net_change_units

unfoldable pub same_action : Action → Action → Bool
unfolding same_type
same_action a b =
    str_eq a.id b.id
    && a.expected_version == b.expected_version
    && str_eq a.hand_id b.hand_id
    && same_type a.type b.type
    && str_eq a.new_hand_id b.new_hand_id

unfoldable pub same_record : ActionRecord → ActionRecord → Bool
unfolding same_action
same_record a b =
    same_action a.action b.action
    && a.sequence == b.sequence
    && a.at == b.at
    && a.additional_stake_units == b.additional_stake_units

unfoldable pub same_state : State → State → Bool
unfolding same_list same_hand same_record same_int same_bool phase_code
same_state a b =
    str_eq a.initial_hand_id b.initial_hand_id
    && a.created_at == b.created_at
    && a.initial_wager_units == b.initial_wager_units
    && str_eq a.shoe_hash b.shoe_hash
    && a.shoe_index == b.shoe_index
    && same_list same_card a.dealt b.dealt
    && same_list same_card a.dealer b.dealer
    && same_bool a.dealer_revealed b.dealer_revealed
    && same_list same_hand a.hands b.hands
    && str_eq a.active_hand_id b.active_hand_id
    && phase_code a.phase == phase_code b.phase
    && a.version == b.version
    && same_list same_record a.actions b.actions
    && a.last_player_action_at == b.last_player_action_at
    && a.auto_resolve_at == b.auto_resolve_at
    && a.total_stake_units == b.total_stake_units
    && a.total_payout_units == b.total_payout_units
    && a.fair_return_units == b.fair_return_units
    && same_int a.net_change_units b.net_change_units
    && str_eq a.class b.class
