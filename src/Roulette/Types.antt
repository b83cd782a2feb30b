-- ===== src/Roulette/Types.antt =====
-- The actions of internal/roulette/types.go, the state of internal/roulette/devil.go, and the
-- outcome of an operation. A seat is one of two, and an array of two is a pair of fields. The
-- strings of kinds, targets and items are constructors; a request may hold any other text.
use momiao.Base.{ℕ, String, Bool, true, false, ◌&&◌, ◌==◌, List, Option, none}
use text.Mathlib.Text.{◌==◌ as str_eq}

pub data Kind : Type 0 where
  devil_shoot devil_item timeout game_limit surrender pressure_vote : Kind
  join leave ready unready cancel : Kind
  pressure_fire pressure_pass pressure_again pressure_charge pressure_unload : Kind
  pressure_riposte : Kind
  other_kind : String → Kind

pub data Target : Type 0 where
  self opponent : Target
  other_target : String → Target

pub data Item : Type 0 where
  handcuffs adrenaline saw magnifier inverter phone beer cigarette medicine : Item
  other_item : String → Item

pub record Action : Type 0 where
  pub kind : Kind
  pub target : Target
  pub item : Item
  pub stolen_item : Item
  pub agree : Option Bool

pub data Seat : Type 0 where
  first_seat second_seat : Seat

-- 1 - seat
abbrev pub other : Seat → Seat
other Seat.first_seat = Seat.second_seat
other Seat.second_seat = Seat.first_seat

pub record Both (A : Type 0) : Type 0 where
  pub at_first : A
  pub at_second : A

abbrev pub at : {A : Type 0} → Seat → Both A → A
at Seat.first_seat b = b.at_first
at Seat.second_seat b = b.at_second

abbrev pub put : {A : Type 0} → Seat → A → Both A → Both A
put Seat.first_seat a b = record b { at_first = a }
put Seat.second_seat a b = record b { at_second = a }

abbrev pub both : {A : Type 0} → A → Both A
both a = record { at_first = a; at_second = a }

pub record DevilState : Type 0 where
  pub hp : Both ℕ
  pub items : Both (List Item)
  pub known : Both (List (ℕ × Bool))
  pub shells : List Bool
  pub pointer : ℕ
  pub turn : Seat
  pub first : Seat
  pub saw : Bool
  pub cuffed : Both Bool
  pub obscured : Bool
  pub ended : Bool
  pub eligible : List Seat
  pub forfeited : Both Bool

-- An index out of range panics in the source.
pub data Error : Type 0 where
  action_invalid out_of_range : Error
  source_error : String → Error

pub data Checked (A : Type 0) : Type 0 where
  refused : Error → Checked A
  accepted : A → Checked A

infixr 5 ◌>>=◌
abbrev pub ◌>>=◌ : {A B : Type 0} → Checked A → (A → Checked B) → Checked B
refused error >>= next = refused error
accepted value >>= next = next value

abbrev pub seat_eq : Seat → Seat → Bool
seat_eq Seat.first_seat Seat.first_seat = true
seat_eq Seat.second_seat Seat.second_seat = true
seat_eq _ _ = false

abbrev pub item_code : Item → ℕ
item_code Item.handcuffs = 0
item_code Item.adrenaline = 1
item_code Item.saw = 2
item_code Item.magnifier = 3
item_code Item.inverter = 4
item_code Item.phone = 5
item_code Item.beer = 6
item_code Item.cigarette = 7
item_code Item.medicine = 8
item_code (Item.other_item text) = 9

abbrev pub item_text : Item → String
item_text (Item.other_item text) = text
item_text _ = ""

unfoldable pub item_eq : Item → Item → Bool
item_eq a b = item_code a == item_code b && str_eq (item_text a) (item_text b)

abbrev pub target_code : Target → ℕ
target_code Target.self = 0
target_code Target.opponent = 1
target_code (Target.other_target text) = 2

abbrev pub target_text : Target → String
target_text (Target.other_target text) = text
target_text _ = ""

unfoldable pub target_eq : Target → Target → Bool
target_eq a b = target_code a == target_code b && str_eq (target_text a) (target_text b)

abbrev pub kind_code : Kind → ℕ
kind_code Kind.devil_shoot = 0
kind_code Kind.devil_item = 1
kind_code Kind.timeout = 2
kind_code Kind.game_limit = 3
kind_code Kind.surrender = 4
kind_code Kind.pressure_vote = 5
kind_code Kind.join = 6
kind_code Kind.leave = 7
kind_code Kind.ready = 8
kind_code Kind.unready = 9
kind_code Kind.cancel = 10
kind_code Kind.pressure_fire = 11
kind_code Kind.pressure_pass = 12
kind_code Kind.pressure_again = 13
kind_code Kind.pressure_charge = 14
kind_code Kind.pressure_unload = 15
kind_code Kind.pressure_riposte = 16
kind_code (Kind.other_kind text) = 17

abbrev pub kind_text : Kind → String
kind_text (Kind.other_kind text) = text
kind_text _ = ""

unfoldable pub kind_eq : Kind → Kind → Bool
kind_eq a b = kind_code a == kind_code b && str_eq (kind_text a) (kind_text b)

-- Go compares the two answers as pointers, and the engine's own actions have none.
abbrev pub agree_eq : Option Bool → Option Bool → Bool
agree_eq none none = true
agree_eq _ _ = false

unfoldable pub action_eq : Action → Action → Bool
unfolding kind_eq target_eq item_eq
action_eq a b =
    kind_eq a.kind b.kind
    && target_eq a.target b.target
    && item_eq a.item b.item
    && item_eq a.stolen_item b.stolen_item
    && agree_eq a.agree b.agree
