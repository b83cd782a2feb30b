-- ===== src/Dice.antt =====
-- internal/games/dice.go: three dice, bet on a big or a small total. The checked round and the
-- streams of random numbers are the fairness package's, and parameters of `roll_dice`.
use momiao.Base.{
  ℕ, ◌+◌, ◌%◌, ◌^◌, String, Bool, true, false, not, ◌&&◌, ◌||◌, ltb, leb, ◌==◌, if◌then◌else◌,
}
use text.Mathlib.Text.{◌==◌ as str_eq}
pub mod Odds
pub mod Roll
mod Tests

pub data Outcome : Type 0 where
  loss break_even win : Outcome

pub record Reward : Type 0 where
  pub cost_multiplier : ℕ
  pub payout_multiplier : ℕ
  pub outcome : Outcome

unfoldable pub reward : ℕ → ℕ → Reward
reward cost payout = record {
  cost_multiplier = cost;
  payout_multiplier = payout;
  outcome =
      if ltb payout cost
      then Outcome.loss
      else if ltb cost payout
      then Outcome.win
      else Outcome.break_even;
}

-- A request may hold any other text.
pub data DiceSide : Type 0 where
  big small triple : DiceSide
  other_side : String → DiceSide

-- choice == Big || choice == Small
abbrev pub is_choice : DiceSide → Bool
is_choice DiceSide.big = true
is_choice DiceSide.small = true
is_choice _ = false

abbrev pub side_eq : DiceSide → DiceSide → Bool
side_eq DiceSide.big DiceSide.big = true
side_eq DiceSide.small DiceSide.small = true
side_eq DiceSide.triple DiceSide.triple = true
side_eq (DiceSide.other_side a) (DiceSide.other_side b) = str_eq a b
side_eq _ _ = false

abbrev pub Dice : Type 0
Dice = ℕ × ℕ × ℕ

pub record DiceResult : Type 0 where
  pub dice : Dice
  pub total : ℕ
  pub is_triple : Bool
  pub side : DiceSide
  pub choice : DiceSide
  pub reward : Reward

-- The last is an error of the fairness package.
pub data Error : Type 0 where
  invalid_input : Error
  fairness_error : String → Error

pub data Fallible (A : Type 0) : Type 0 where
  failed : Error → Fallible A
  returned : A → Fallible A

module _ {A B : Type 0} where
  infixr 5 ◌>>=◌
  abbrev pub ◌>>=◌ : Fallible A → (A → Fallible B) → Fallible B
  failed error >>= next = failed error
  returned value >>= next = next value

-- dice[0] + dice[1] + dice[2], in bytes.
abbrev pub total_of : Dice → ℕ
total_of (a, b, c) = ((a + b) % 2 ^ 8 + c) % 2 ^ 8

unfoldable pub classify_dice : Dice → DiceSide
classify_dice (a, b, c) =
    if a == b && b == c
    then DiceSide.triple
    else if leb (total_of (a, b, c)) 10
    then DiceSide.small
    else DiceSide.big

abbrev pub is_face : ℕ → Bool
is_face d = not (ltb d 1 || ltb 6 d)

unfoldable pub evaluate_dice : Dice → DiceSide → Fallible DiceResult
evaluate_dice (a, b, c) choice =
    let side = classify_dice (a, b, c) in
    if not (is_choice choice)
    then failed Error.invalid_input
    else if not (is_face a && is_face b && is_face c)
    then failed Error.invalid_input
    else returned (record {
      dice = (a, b, c);
      total = total_of (a, b, c);
      is_triple = side_eq side DiceSide.triple;
      side = side;
      choice = choice;
      reward = reward 1 (if side_eq side choice then 2 else 0);
    })

-- The second ruleset gives the stake back on a triple.
unfoldable pub settle_roll : String → DiceResult → DiceResult
settle_roll version r =
    if r.is_triple && str_eq version "dice-rules-v2" then record r { reward = reward 1 1 } else r

-- A stream's number below a bound, for a domain.
abbrev pub Sampler : Type 0
Sampler = String → ℕ → Fallible ℕ

-- uint8(n + 1)
unfoldable pub roll_die : Sampler → String → Fallible ℕ
roll_die sample domain = sample domain 6 >>= λ n. returned ((n + 1) % 2 ^ 8)

-- `checked` is the answer of `checkRound`, and `version` the bound version of the rules.
unfoldable pub roll_dice : Fallible (Unit {0}) → Sampler → String → DiceSide → Fallible DiceResult
roll_dice checked sample version choice = checked >>= λ _.
    (if is_choice choice then returned tt else failed Error.invalid_input) >>= λ _.
    roll_die sample "dice:d1" >>= λ a. roll_die sample "dice:d2" >>= λ b.
    roll_die sample "dice:d3" >>= λ c.
    evaluate_dice (a, b, c) choice >>= λ r. returned (settle_roll version r)
