-- ===== src/Poker/Rank/Laws.antt =====
-- The order of `compareRanks` in internal/poker/engine/engine.go.
use momiao.Base.{ℕ, ◌≡◌, ◌≢◌, refl, List, [], ◌∷◌, arith}
use momiao.Poker.Rank.Vector.{Comparison, above, same, below}
use momiao.Poker.Rank.Order.{compare_ranks}

abbrev pub opposite : Comparison → Comparison
opposite above = below
opposite same = same
opposite below = above

-- Swapping two rank vectors swaps the answer of their comparison.
pub compare_ranks-swap : (a b : List ℕ) → compare_ranks b a ≡ opposite (compare_ranks a b)
unfolding compare_ranks
compare_ranks-swap [] [] = refl
compare_ranks-swap [] (y ∷ b) = refl
compare_ranks-swap (x ∷ a) [] = refl
compare_ranks-swap (x ∷ a) (y ∷ b) = ground (arith, compare_ranks-swap a b)

-- Only equal vectors tie.
pub compare_ranks-same : (a b : List ℕ) → compare_ranks a b ≡ same → a ≡ b
unfolding compare_ranks
compare_ranks-same [] [] h = refl
compare_ranks-same [] (y ∷ b) h = cc
compare_ranks-same (x ∷ a) [] h = cc
compare_ranks-same (x ∷ a) (y ∷ b) h = ground (arith, compare_ranks-same a b)

pub compare_ranks_refl : (a : List ℕ) → compare_ranks a a ≡ same
unfolding compare_ranks
compare_ranks_refl [] = refl
compare_ranks_refl (x ∷ a) = ground (arith, compare_ranks_refl a)

-- a is at least as good as b.
abbrev pub AtLeast : List ℕ → List ℕ → Type 0
AtLeast a b = compare_ranks b a ≢ above

-- Being at least as good is transitive in the comparison of rank vectors.
pub AtLeast-trans : (a b c : List ℕ) → AtLeast a b → AtLeast b c → AtLeast a c
unfolding compare_ranks
AtLeast-trans [] [] c h k = k
AtLeast-trans [] (y ∷ b) c h k = absurd (h refl)
AtLeast-trans (x ∷ a) [] [] h k = ground arith
AtLeast-trans (x ∷ a) [] (z ∷ c) h k = absurd (k refl)
AtLeast-trans (x ∷ a) (y ∷ b) [] h k = ground arith
AtLeast-trans (x ∷ a) (y ∷ b) (z ∷ c) h k = ground (arith, AtLeast-trans a b c)
