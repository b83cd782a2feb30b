-- ===== src/Dice/Roll.antt =====
-- The results of `RollDice` in internal/games/dice.go.
use momiao.Base.{
  ℕ, ap, Bool-cases, inl, inr, ◌&&◌, if◌then◌else◌, ◌+◌, ◌≡◌, ◌<◌, refl, true, String, arith,
}
use momiao.Dice.{
  DiceSide, DiceResult, returned, is_choice, reward, classify_dice, evaluate_dice, settle_roll,
  side_eq, is_face, total_of, Sampler, roll_die, roll_dice, Dice,
}
use text.Mathlib.Text.{◌==◌ as str_eq}

-- The sampler answers each of the three domains with a number below its bound.
pub record Samples (sample : Sampler) (x y z : ℕ) : Type 0 where
  pub first : sample "dice:d1" 6 ≡ returned x
  pub second : sample "dice:d2" 6 ≡ returned y
  pub third : sample "dice:d3" 6 ≡ returned z
  pub below_first : x < 6
  pub below_second : y < 6
  pub below_third : z < 6

-- What a roll with given numbers comes to.
pub record IsRoll (x y z : ℕ) (choice : DiceSide) (r : DiceResult) : Type 0 where
  pub faces : r.dice ≡ (x + 1, y + 1, z + 1)
  pub sum : r.total ≡ x + y + z + 3
  pub side : r.side ≡ classify_dice (x + 1, y + 1, z + 1)
  pub chosen : r.choice ≡ choice

roll_die-face :
    (sample : Sampler) (domain : String) (n : ℕ)
    → sample domain 6 ≡ returned n
    → n < 6
    → roll_die sample domain ≡ returned (n + 1)
unfolding roll_die
roll_die-face sample domain n e h = rw e (ap returned (omega arith))

-- The result of faces that have passed the checks.
abbrev scored : Dice → DiceSide → DiceResult
scored (a, b, c) choice = record {
  dice = (a, b, c);
  total = total_of (a, b, c);
  is_triple = side_eq (classify_dice (a, b, c)) DiceSide.triple;
  side = classify_dice (a, b, c);
  choice = choice;
  reward = reward 1 (if side_eq (classify_dice (a, b, c)) choice then 2 else 0);
}

is_face-suc : (n : ℕ) → n < 6 → is_face (n + 1) ≡ true
is_face-suc n h = ground arith

evaluate_dice-scored :
    (a b c : ℕ) (choice : DiceSide)
    → is_choice choice ≡ true
    → is_face a ≡ true
    → is_face b ≡ true
    → is_face c ≡ true
    → evaluate_dice (a, b, c) choice ≡ returned (scored (a, b, c) choice)
unfolding evaluate_dice
evaluate_dice-scored a b c choice h f g k = rw (h, f, g, k) refl

settle_roll-keeps :
    (version : String) (x y z : ℕ) (choice : DiceSide) (r : DiceResult)
    → IsRoll x y z choice r
    → IsRoll x y z choice (settle_roll version r)
unfolding settle_roll
settle_roll-keeps version x y z choice r k =
    elim (Bool-cases (r.is_triple && str_eq version "dice-rules-v2")) [
      | inl yes_ ↦
          rw yes_ (record { faces = k.faces; sum = k.sum; side = k.side; chosen = k.chosen })
      | inr no_ ↦ rw no_ k
    ]

-- When the round is accepted, a choice of either side and three numbers below six give a roll
-- that returns a result: the faces are the numbers plus one, the total is their sum, and the side
-- is that of the faces.
pub roll_dice-returns :
    (sample : Sampler) (version : String) (choice : DiceSide) (x y z : ℕ)
    → is_choice choice ≡ true
    → Samples sample x y z
    → (r : DiceResult) × (roll_dice (returned tt) sample version choice ≡ returned r)
      × IsRoll x y z choice r
unfolding roll_dice
roll_dice-returns sample version choice x y z h s =
    let faces : Dice = (x + 1, y + 1, z + 1) in
    let scored-eq : evaluate_dice faces choice ≡ returned (scored faces choice) =
      evaluate_dice-scored (x + 1) (y + 1) (z + 1) choice h (is_face-suc x s.below_first)
        (is_face-suc y s.below_second) (is_face-suc z s.below_third) in
    let first : roll_die sample "dice:d1" ≡ returned (x + 1) =
      roll_die-face sample "dice:d1" x s.first s.below_first in
    let second : roll_die sample "dice:d2" ≡ returned (y + 1) =
      roll_die-face sample "dice:d2" y s.second s.below_second in
    let third : roll_die sample "dice:d3" ≡ returned (z + 1) =
      roll_die-face sample "dice:d3" z s.third s.below_third in
    let b1 = s.below_first in
    let b2 = s.below_second in
    let b3 = s.below_third in
    (
      settle_roll version (scored faces choice),
      rw (h, first, second, third, scored-eq) refl,
      settle_roll-keeps version x y z choice (scored faces choice)
          (record { faces = refl; sum = omega arith; side = refl; chosen = refl }),
    )
