-- ===== src/Poker/Rank/Order.antt =====
-- `compareRanks` and `validateRank` of internal/poker/engine/engine.go.
use momiao.Base.{
  ℕ, Bool, not, ◌&&◌, String, List, [], ◌∷◌, ltb, leb, ◌==◌, if◌then◌else◌, length, all,
}
use text.Mathlib.Text.{◌==◌ as str_eq}
use momiao.Poker.Types.{HandRank}
use momiao.Poker.Rank.Vector.{Comparison, above, same, below}
use momiao.Poker.Rank.Best.{duplicate_free}

unfoldable pub compare_ranks : List ℕ → List ℕ → Comparison
compare_ranks [] [] = same
compare_ranks (x ∷ a) [] = above
compare_ranks [] (y ∷ b) = below
compare_ranks (x ∷ a) (y ∷ b) =
    let rest = compare_ranks a b in if ltb y x then above else if ltb x y then below else rest

unfoldable pub valid_rank : HandRank → String → Bool
unfolding duplicate_free
valid_rank r version =
    str_eq r.version version
    && not (str_eq r.category "")
    && not (length r.vector == 0)
    && leb (length r.vector) 6
    && (length r.best_five == 5)
    && all (λ i. ltb i 7) r.best_five
    && duplicate_free r.best_five
