-- ===== src/Dice/Tests.antt =====
-- Sample rolls of the dice.
use momiao.Base.{◌≡◌, refl, if◌then◌else◌, arith}
use momiao.Dice.{DiceSide, DiceResult, returned, Sampler, roll_dice}
use momiao.Dice.Odds.{return_of, return_of-fair}
use momiao.Dice.Roll.{Samples, IsRoll, roll_dice-returns}
use text.Mathlib.Text.{◌==◌ as str_eq}

return_of-fair_example :
    (return_of "dice-rules-v2" DiceSide.small ≡ 216)
    × (return_of "dice-rules-v1" DiceSide.small ≡ 210)
return_of-fair_example = return_of-fair DiceSide.small refl

-- The first die shows a 5, the others a 2.
abbrev sampler : Sampler
sampler domain n = returned (if str_eq domain "dice:d1" then 4 else 1)

sampler-Samples : Samples sampler 4 1 1
sampler-Samples = record {
  first = refl;
  second = refl;
  third = refl;
  below_first = omega arith;
  below_second = omega arith;
  below_third = omega arith;
}

roll_dice-returns_example :
    (r : DiceResult) × (roll_dice (returned tt) sampler "dice-rules-v2" DiceSide.big ≡ returned r)
    × IsRoll 4 1 1 DiceSide.big r
roll_dice-returns_example =
    roll_dice-returns sampler "dice-rules-v2" DiceSide.big 4 1 1 refl sampler-Samples
