-- ===== src/Slot/Types.antt =====
-- The data of internal/games/slot/slot.go, and the error monad of its operations. A wager and a
-- stop may be negative in the source, so that they are integers here; an int64 that is never
-- negative is a number.
use momiao.Base.{ℕ, String, Bool, true, false, List, ◌==◌, ◌≡◌, refl}
use momiao.Base.Int.{ℤ}

abbrev pub units_per_chip : ℕ
units_per_chip = 500_000

abbrev pub max_int64 : ℕ
max_int64 = 9_223_372_036_854_775_807

abbrev pub max_round_line_multiplier : ℕ
max_round_line_multiplier = 5164

abbrev pub frequent_max_round_line_multiplier : ℕ
frequent_max_round_line_multiplier = 5201

-- `unnamed` is the empty text, which a line without a win keeps.
pub data Symbol : Type 0 where
  unnamed l1 l2 l3 m1 m2 h1 h2 wild : Symbol

abbrev pub symbol_code : Symbol → ℕ
symbol_code Symbol.unnamed = 0
symbol_code Symbol.l1 = 1
symbol_code Symbol.l2 = 2
symbol_code Symbol.l3 = 3
symbol_code Symbol.m1 = 4
symbol_code Symbol.m2 = 5
symbol_code Symbol.h1 = 6
symbol_code Symbol.h2 = 7
symbol_code Symbol.wild = 8

abbrev pub symbol_eq : Symbol → Symbol → Bool
symbol_eq a b = symbol_code a == symbol_code b

-- Go's fixed-size arrays are lists; `IsShaped` of Slot/Configs.antt states their sizes.
pub record Config : Type 0 where
  pub reel_strip_version : String
  pub payline_version : String
  pub paytable_version : String
  pub symbols : List Symbol
  pub reel_strips : List (List Symbol)
  pub paylines : List (List ℕ)
  pub paytable : List (List ℕ)

pub record LineResult : Type 0 where
  pub line_number : ℕ
  pub symbol : Symbol
  pub match_length : ℕ
  pub multiplier : ℕ
  pub line_stake_units : ℕ
  pub payout_units : ℕ

pub record Result : Type 0 where
  pub stops : List ℕ
  pub grid : List (List Symbol)
  pub lines : List LineResult
  pub total_wager_units : ℕ
  pub line_stake_units : ℕ
  pub total_payout_units : ℕ
  pub net_change_units : ℤ
  pub class : String
  pub detail : String

-- An invalid stop names its reel, counted from 1; the last is an error of the caller's sampler.
pub data Error : Type 0 where
  invalid_wager integer_overflow missing_sampler sample_out_of_range : Error
  invalid_stop : ℕ → Error
  sampler_error : String → Error

pub data Fallible {ℓ} (A : Type ℓ) : Type ℓ where
  failed : Error → Fallible A
  returned : A → Fallible A

module _ {ℓ} {B : Type ℓ} where
  infixr 5 ◌>>=◌ ◌>>◌
  abbrev pub ◌>>=◌ {κ} : {A : Type κ} → Fallible A → (A → Fallible B) → Fallible B
  failed error >>= next = failed error
  returned value >>= next = next value

  abbrev pub ◌>>◌ : Fallible (Unit {0}) → Fallible B → Fallible B
  first >> next = first >>= λ _. next

  -- A chain that returns has returned at each step.
  pub >>=-eq-returned {κ} :
      {A : Type κ} (first : Fallible A) (next : A → Fallible B) {value : B}
      → (first >>= next) ≡ returned value
      → (a : A) × (first ≡ returned a) × (next a ≡ returned value)
  >>=-eq-returned (failed error) next h = cc
  >>=-eq-returned (returned a) next h = (a, refl, h)

-- `if holds { return error }`
abbrev pub fail_if : Bool → Error → Fallible (Unit {0})
fail_if true error = failed error
fail_if false error = returned tt

pub fail_if-eq-returned :
    (b : Bool) (e : Error) {u : Unit {0}} → fail_if b e ≡ returned u → b ≡ false
fail_if-eq-returned true e h = cc
fail_if-eq-returned false e h = refl

pub returned-injective {ℓ} : {A : Type ℓ} {a b : A} → returned a ≡ returned b → a ≡ b
returned-injective h = cc
