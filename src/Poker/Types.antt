-- ===== src/Poker/Types.antt =====
-- The data of internal/poker/engine/engine.go: constants, enums and records, and the error monad.
-- Amounts, seats and counters are numbers; a value that the source lets be negative (a requested
-- target, the sequence number -1) is an integer. An instant counts the nanoseconds since Go's zero
-- time, so that `IsZero` is a test against 0; locations are forgotten, as `UTC` does.
use momiao.Base.{ℕ, ◌*◌, ◌/◌, ◌%◌, String, Bool, true, false, ◌≡◌, refl, Option, List, ◌==◌}
use momiao.Base.Int.{ℤ, pos, negsuc}

abbrev pub Time : Type 0
Time = ℕ

-- uint8 codes; 0..51 are the cards of a deck.
abbrev pub Card : Type 0
Card = ℕ

abbrev pub snapshot_version : ℕ
snapshot_version = 1

abbrev pub decision_window : ℕ
decision_window = 30_000_000_000

abbrev pub units_per_chip : ℕ
units_per_chip = 500_000

abbrev pub max_int64 : ℕ
max_int64 = 9_223_372_036_854_775_807

abbrev pub max_int32 : ℕ
max_int32 = 2_147_483_647

abbrev pub max_whole_units : ℕ
max_whole_units = max_int64 / units_per_chip * units_per_chip

-- No negative amount is whole.
abbrev pub whole_units : ℤ → Bool
whole_units (pos n) = n % units_per_chip == 0
whole_units (negsuc n) = false

abbrev pub whole : ℕ → Bool
whole n = whole_units (pos n)

pub data ActionKind : Type 0 where
  fold check call bet raise all_in : ActionKind

pub data Street : Type 0 where
  preflop flop turn river settled : Street

-- The last four stand for an error of the caller's evaluator, for an index out of range and for a
-- division by zero, which panic in the source, and for a loop that used up the model's fuel.
pub data Error : Type 0 where
  invalid illegal stale conflict deadline recovering : Error
  evaluation index_panic division_panic out_of_fuel : Error

pub data Result {ℓ} (A : Type ℓ) : Type ℓ where
  err : Error → Result A
  ok : A → Result A

module _ {ℓ} {B : Type ℓ} where
  infixl 5 ◌>>=◌ ◌>>◌
  -- What follows runs on the value, and an error before it is the error of the whole.
  abbrev pub ◌>>=◌ {κ} : {A : Type κ} → Result A → (A → Result B) → Result B
  err error >>= next = err error
  ok value >>= next = next value

  abbrev pub ◌>>◌ : Result (Unit {0}) → Result B → Result B
  first >> next = first >>= λ _. next

  -- The steps of a chain that succeeds have succeeded.
  pub >>=-eq-ok {κ} :
      {A : Type κ} (first : Result A) (next : A → Result B) {value : B}
      → (first >>= next) ≡ ok value
      → (a : A) × (first ≡ ok a) × (next a ≡ ok value)
  >>=-eq-ok (err error) next h = cc
  >>=-eq-ok (ok a) next h = (a, refl, h)

-- `if !holds { return error }`
abbrev pub guard : Bool → Error → Result (Unit {0})
guard false error = err error
guard true error = ok tt

pub ok-injective {ℓ} : {A : Type ℓ} {a b : A} → ok a ≡ ok b → a ≡ b
ok-injective h = cc

pub guard-eq-ok : (b : Bool) (e : Error) {u : Unit {0}} → guard b e ≡ ok u → b ≡ true
guard-eq-ok true e h = refl
guard-eq-ok false e h = cc

-- rules.go
pub record ButtonChoice : Type 0 where
  pub version : String
  pub eligible_seats : List ℕ
  pub draw_index : ℕ
  pub seat : ℕ

pub record Config : Type 0 where
  pub hand_id : String
  pub button_seat : ℕ
  pub small_blind : ℕ
  pub big_blind : ℕ
  pub deck : List Card
  pub evaluator_version : String
  pub button_selection : Option ButtonChoice

pub record Seat : Type 0 where
  pub seat_no : ℕ
  pub player_id : String
  pub stack : ℕ
  pub consecutive_timeouts : ℕ
  pub timeout_sit_out : Bool

-- The embedded `Seat` stands in line.
pub record Participant : Type 0 where
  pub seat_no : ℕ
  pub player_id : String
  pub stack : ℕ
  pub consecutive_timeouts : ℕ
  pub timeout_sit_out : Bool
  pub initial_stack : ℕ
  pub hole : Card × Card
  pub street_committed : ℕ
  pub total_committed : ℕ
  pub folded : Bool
  pub last_acted : ℤ
  pub pending : Bool
  pub disconnected_since : Option Time
  pub disconnect_sit_out : Bool

pub record Action : Type 0 where
  pub id : String
  pub seat : ℕ
  pub expected_version : ℕ
  pub kind : ActionKind
  pub to : ℤ

pub record Legal : Type 0 where
  pub actions : List ActionKind
  pub seat : ℕ
  pub to_call : ℕ
  pub minimum_bet : ℕ
  pub minimum_raise_to : ℕ
  pub maximum_raise_to : ℕ
  pub current_pot : ℕ
  pub current_stack : ℕ
  pub raise_rights : Bool

-- The strings of `Event.Type`: `acted k` is string(k), `auto_acted k` is "AUTO_" + string(k),
-- `dealt_street s` is "DEAL_" + string(s); a snapshot may hold any other text.
pub data EventType : Type 0 where
  hand_committed post_sb post_bb card_dealt actor_changed all_in_runout : EventType
  return_uncalled showdown pot_award system_settlement : EventType
  disconnected reconnected recovering resumed : EventType
  acted auto_acted : ActionKind → EventType
  dealt_street : Street → EventType
  other_type : String → EventType

pub data Visibility : Type 0 where
  unset private_card public_card : Visibility

pub record Event : Type 0 where
  pub sequence : ℕ
  pub version : ℕ
  pub type : EventType
  pub street : Street
  pub seat : ℕ
  pub delta : ℕ
  pub to : ℕ
  pub action_id : String
  pub deck_index : Option ℕ
  pub card : Option Card
  pub visibility : Visibility
  pub at : Time

pub record Award : Type 0 where
  pub seat : ℕ
  pub base : ℕ
  pub odd : ℕ
  pub amount : ℕ

pub record Pot : Type 0 where
  pub index : ℕ
  pub amount : ℕ
  pub floor : ℕ
  pub ceiling : ℕ
  pub eligible : List ℕ
  pub awards : List Award

pub record Return : Type 0 where
  pub seat : ℕ
  pub amount : ℕ

pub record Receipt : Type 0 where
  pub action : Action
  pub first_event : ℕ
  pub last_event : ℕ

-- evaluate.go
pub record HandRank : Type 0 where
  pub category : String
  pub vector : List ℕ
  pub best_five : List ℕ
  pub version : String

-- map[int]HandRank
abbrev pub Ranks : Type 0
Ranks = List (ℕ × HandRank)

pub record State : Type 0 where
  pub schema_version : ℕ
  pub config : Config
  pub players : List Participant
  pub initial_total : ℕ
  pub street : Street
  pub board : List Card
  pub deck_cursor : ℕ
  pub small_blind_seat : ℕ
  pub big_blind_seat : ℕ
  pub actor : ℕ
  pub current_bet : ℕ
  pub last_full_raise : ℕ
  pub full_raise_sequence : ℕ
  pub version : ℕ
  pub action_sequence : ℕ
  pub started_at : Time
  pub deadline : Time
  pub recovery_until : Option Time
  pub pots : List Pot
  pub returns : List Return
  pub ranks : Ranks
  pub events : List Event
  pub receipts : List Receipt

-- The caller's evaluator: two hole cards, the board and the frozen version.
abbrev pub Evaluator : Type 0
Evaluator = Card × Card → List Card → String → Result HandRank

pub record Outcome : Type 0 where
  pub version : ℕ
  pub events : List Event
  pub duplicate : Bool
  pub no_op : Bool

abbrev pub street_eq : Street → Street → Bool
street_eq Street.preflop Street.preflop = true
street_eq Street.flop Street.flop = true
street_eq Street.turn Street.turn = true
street_eq Street.river Street.river = true
street_eq Street.settled Street.settled = true
street_eq _ _ = false

abbrev pub kind_eq : ActionKind → ActionKind → Bool
kind_eq ActionKind.fold ActionKind.fold = true
kind_eq ActionKind.check ActionKind.check = true
kind_eq ActionKind.call ActionKind.call = true
kind_eq ActionKind.bet ActionKind.bet = true
kind_eq ActionKind.raise ActionKind.raise = true
kind_eq ActionKind.all_in ActionKind.all_in = true
kind_eq _ _ = false
