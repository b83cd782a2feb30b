-- ===== src/Poker/Rank/Best.antt =====
-- `Evaluate` of internal/poker/engine/evaluate.go: the search over the 21 choices of five cards.
use momiao.Base.{
  ℕ, zero, suc, ◌+◌, Bool, true, not, ◌&&◌, String, Option, none, some, List, [], ◌∷◌, ◌++◌, map,
  leb, ◌==◌, length, get_or, any,
}
use text.Mathlib.Text.{◌==◌ as str_eq}
use momiao.Poker.Types.{
  Card, HandRank, Result, ok, err, evaluation, index_panic, ◌>>=◌, ◌>>◌, guard,
}
use momiao.Poker.Rank.Vector.{rank, compare, above, same, below}

abbrev pub evaluator_version : String
evaluator_version = "poker-holdem-high-v1"

-- The `count` numbers from `start` on.
unfoldable pub span : ℕ → ℕ → List ℕ
span start zero = []
span start (suc count) = start ∷ span (start + 1) count

-- The nested loops: every way to choose `count` further positions below `size`, from `start` on.
unfoldable pub choose_from : ℕ → ℕ → ℕ → List (List ℕ)
choose_from zero start room = [] ∷ []
choose_from (suc count) start zero = []
choose_from (suc count) start (suc room) =
    map (◌∷◌ start) (choose_from count (start + 1) room) ++ choose_from (suc count) (start + 1) room

-- a < b < c < d < e below 7, in the order of the loops.
unfoldable pub five_of_seven : List (List ℕ)
unfolding choose_from
five_of_seven = choose_from 5 0 7

abbrev pub select : List Card → List ℕ → List Card
select cards idx = map (λ n. get_or cards n 0) idx

unfoldable pub duplicate_free : List Card → Bool
duplicate_free [] = true
duplicate_free (c ∷ cs) = not (any (λ d. d == c) cs) && duplicate_free cs

abbrev pub valid_cards : List Card → Bool
valid_cards cards = not (any (λ c. leb 52 c) cards) && duplicate_free cards

-- The best so far: `none` stands for the nil vector.
abbrev pub Candidate : Type 0
Candidate = Option (List ℕ × List ℕ)

unfoldable pub better : Candidate → List ℕ → List ℕ → Result Candidate
better none v idx = ok (some (v, idx))
better (some (w, jdx)) v idx = elim (compare v w) [
  | none ↦ err index_panic
  | some above ↦ ok (some (v, idx))
  | some same ↦ ok (some (w, jdx))
  | some below ↦ ok (some (w, jdx))
]

unfoldable pub best_of : List Card → List (List ℕ) → Candidate → Result Candidate
unfolding better
best_of cards [] best = ok best
best_of cards (idx ∷ rest) best = do
  best' ← better best (rank (select cards idx)) idx
  best_of cards rest best'

abbrev pub categories : List String
categories =
    "HIGH_CARD" ∷ "PAIR" ∷ "TWO_PAIR" ∷ "THREE_OF_A_KIND" ∷ "STRAIGHT" ∷ "FLUSH" ∷ "FULL_HOUSE"
    ∷ "FOUR_OF_A_KIND" ∷ "STRAIGHT_FLUSH" ∷ []

unfoldable pub finish : String → Candidate → Result HandRank
finish version none = err index_panic
finish version (some (v, idx)) = ok (record {
  category = get_or categories (get_or v 0 0) "";
  vector = v;
  best_five = idx;
  version = version;
})

unfoldable pub evaluate : Card × Card → List Card → String → Result HandRank
unfolding best_of finish duplicate_free rank compare five_of_seven
evaluate (c, d) board version = do
  guard (str_eq version evaluator_version && (length board == 5)) evaluation
  guard (valid_cards (c ∷ d ∷ board)) evaluation
  best ← best_of (c ∷ d ∷ board) five_of_seven none
  finish version best
