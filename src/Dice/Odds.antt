-- ===== src/Dice/Odds.antt =====
-- The payouts of internal/games/dice.go over all 216 rolls.
use momiao.Base.{ℕ, ◌≡◌, refl, true, List, [], ◌∷◌, ◌++◌, map, String}
use momiao.Base.Sums.{sum_by}
use momiao.Dice.{
  Dice, DiceSide, DiceResult, Fallible, returned, failed, is_choice, reward, classify_dice,
  evaluate_dice, settle_roll,
}

abbrev pub faces : List ℕ
faces = 1 ∷ 2 ∷ 3 ∷ 4 ∷ 5 ∷ 6 ∷ []

abbrev pub all_pairs : List ℕ → List (ℕ × ℕ)
all_pairs [] = []
all_pairs (b ∷ bs) = map (λ c. (b, c)) faces ++ all_pairs bs

abbrev pub all_rolls : List ℕ → List Dice
all_rolls [] = []
all_rolls (a ∷ as') = map (λ (p : ℕ × ℕ). (a, p.0, p.1)) (all_pairs faces) ++ all_rolls as'

-- The payout of a roll in stakes, with none for a roll that fails.
abbrev pub payout_under : String → Fallible DiceResult → ℕ
payout_under version (returned r) = (settle_roll version r).reward.payout_multiplier
payout_under version (failed e) = 0

abbrev pub return_of : String → DiceSide → ℕ
return_of version choice =
    sum_by (λ (d : Dice). payout_under version (evaluate_dice d choice)) (all_rolls faces)

-- Over all 216 rolls, 216 stakes on either side return 216 under the second rules and 210 under
-- the first.
pub return_of-fair :
    (choice : DiceSide)
    → is_choice choice ≡ true
    → (return_of "dice-rules-v2" choice ≡ 216) × (return_of "dice-rules-v1" choice ≡ 210)
unfolding evaluate_dice settle_roll classify_dice reward
return_of-fair DiceSide.big h = (refl, refl)
return_of-fair DiceSide.small h = (refl, refl)
return_of-fair DiceSide.triple h = cc
return_of-fair (DiceSide.other_side t) h = cc
