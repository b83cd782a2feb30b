-- ===== src/Blackjack/Round/Types.antt =====
-- The data of internal/games/blackjack/blackjack.go. Amounts, indices and counters that the source
-- keeps from being negative are numbers; a wager, a balance and a net change are integers. An
-- instant counts the nanoseconds since Go's zero time; `canonicalTime`, which changes the location
-- and drops the monotonic reading, is the identity on it.
use momiao.Base.{ℕ, String, Bool, List}
use momiao.Base.Int.{ℤ}
use momiao.Blackjack.{Card, Value}

abbrev pub Time : Type 0
Time = ℕ

abbrev pub units_per_chip : ℕ
units_per_chip = 500_000

abbrev pub max_hands : ℕ
max_hands = 4

abbrev pub max_int64 : ℕ
max_int64 = 9_223_372_036_854_775_807

-- 24 hours
abbrev pub inactivity : ℕ
inactivity = 86_400_000_000_000

pub data Phase : Type 0 where
  player_turn settled : Phase

pub data HandStatus : Type 0 where
  active stood bust doubled_complete split_aces_complete natural_complete : HandStatus

-- A request may hold any other text.
pub data ActionType : Type 0 where
  hit stand double split system_auto_stand : ActionType
  other_type : String → ActionType

pub record Hand : Type 0 where
  pub id : String
  pub index : ℕ
  pub parent_id : String
  pub cards : List Card
  pub stake_units : ℕ
  pub from_split : Bool
  pub split_aces : Bool
  pub natural : Bool
  pub status : HandStatus
  pub value : Value
  pub result : String
  pub payout_units : ℕ
  pub net_change_units : ℤ

pub record Action : Type 0 where
  pub id : String
  pub expected_version : ℕ
  pub hand_id : String
  pub type : ActionType
  pub new_hand_id : String

pub record ActionRecord : Type 0 where
  pub action : Action
  pub sequence : ℕ
  pub at : Time
  pub additional_stake_units : ℕ

pub record State : Type 0 where
  pub initial_hand_id : String
  pub created_at : Time
  pub initial_wager_units : ℕ
  pub shoe_hash : String
  pub shoe_index : ℕ
  pub dealt : List Card
  pub dealer : List Card
  pub dealer_revealed : Bool
  pub hands : List Hand
  pub active_hand_id : String
  pub phase : Phase
  pub version : ℕ
  pub actions : List ActionRecord
  pub last_player_action_at : Time
  pub auto_resolve_at : Time
  pub total_stake_units : ℕ
  pub total_payout_units : ℕ
  pub fair_return_units : ℕ
  pub net_change_units : ℤ
  pub class : String

pub record Transition : Type 0 where
  pub state : State
  pub additional_stake_units : ℕ
