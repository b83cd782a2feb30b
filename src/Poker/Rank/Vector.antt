-- ===== src/Poker/Rank/Vector.antt =====
-- `rank` and `compare` of internal/poker/engine/evaluate.go: the rank vector of five cards.
use momiao.Base.{
  ℕ, zero, suc, ◌+◌, ◌-◌, ◌/◌, ◌%◌, ◌*◌, Bool, true, ◌&&◌, Option, none, some, List, [], ◌∷◌, ◌++◌,
  ltb, ◌==◌, if◌then◌else◌, get_or, all, map,
}
use momiao.Base.Sort.{sort_by}
use momiao.Poker.Types.{Card}

-- 2..14, with the ace high.
unfoldable pub card_rank : Card → ℕ
card_rank c = if c % 13 + 1 == 1 then 14 else c % 13 + 1

unfoldable pub count_rank : ℕ → List Card → ℕ
unfolding card_rank
count_rank r [] = 0
count_rank r (c ∷ cs) = (if card_rank c == r then 1 else 0) + count_rank r cs

unfoldable pub is_flush : List Card → Bool
is_flush [] = true
is_flush (c ∷ cs) = all (λ d. d / 13 == c / 13) cs

abbrev pub descending : List ℕ
descending = 14 ∷ 13 ∷ 12 ∷ 11 ∷ 10 ∷ 9 ∷ 8 ∷ 7 ∷ 6 ∷ 5 ∷ 4 ∷ 3 ∷ 2 ∷ []

unfoldable pub repeat : ℕ → ℕ → List ℕ
repeat zero r = []
repeat (suc n) r = r ∷ repeat n r

-- Every card's rank, highest first.
unfoldable pub rank_values : List ℕ → List Card → List ℕ
unfolding repeat count_rank
rank_values [] cs = []
rank_values (r ∷ rs) cs = repeat (count_rank r cs) r ++ rank_values rs cs

-- Five ranks in a row from `high` down; rank 1 is the ace.
unfoldable pub run_from : ℕ → List Card → Bool
unfolding count_rank
run_from high cs =
    all (λ d. ltb 0 (count_rank (if high - d == 1 then 14 else high - d) cs))
      (0 ∷ 1 ∷ 2 ∷ 3 ∷ 4 ∷ [])

-- The highest straight, or 0.
unfoldable pub straight_high : List ℕ → List Card → ℕ
unfolding run_from
straight_high [] cs = 0
straight_high (high ∷ hs) cs =
    let lower = straight_high hs cs in if run_from high cs then high else lower

abbrev pub straight_tops : List ℕ
straight_tops = 14 ∷ 13 ∷ 12 ∷ 11 ∷ 10 ∷ 9 ∷ 8 ∷ 7 ∷ 6 ∷ 5 ∷ []

pub record Group : Type 0 where
  pub rank : ℕ
  pub count : ℕ

unfoldable pub groups_of : List ℕ → List Card → List Group
unfolding count_rank
groups_of [] cs = []
groups_of (r ∷ rs) cs =
    let rest = groups_of rs cs in
    if ltb 0 (count_rank r cs) then record { rank = r; count = count_rank r cs } ∷ rest else rest

-- More cards first, then the higher rank: with ranks below 15 the key orders as the comparison.
abbrev pub group_key : Group → ℕ
group_key g = (5 - g.count) * 15 + (14 - g.rank)

abbrev pub no_group : Group
no_group = record { rank = 0; count = 0 }

abbrev pub group_at : List Group → ℕ → Group
group_at gs i = get_or gs i no_group

-- The last part of `rank`: three of a kind and below.
unfoldable pub low_vector : List Group → List ℕ
low_vector gs =
    (if (group_at gs 0).count == 3
      then 3
      else if (group_at gs 0).count == 2 && (group_at gs 1).count == 2
      then 2
      else if (group_at gs 0).count == 2
      then 1
      else 0)
    ∷ map (λ g. g.rank) gs

unfoldable pub vector_of : Bool → ℕ → List ℕ → List Group → List ℕ
unfolding low_vector
vector_of flush straight values gs =
    if flush && ltb 0 straight
    then 8 ∷ straight ∷ []
    else if (group_at gs 0).count == 4
    then 7 ∷ (group_at gs 0).rank ∷ (group_at gs 1).rank ∷ []
    else if (group_at gs 0).count == 3 && (group_at gs 1).count == 2
    then 6 ∷ (group_at gs 0).rank ∷ (group_at gs 1).rank ∷ []
    else if flush
    then 5 ∷ values
    else if ltb 0 straight
    then 4 ∷ straight ∷ []
    else low_vector gs

unfoldable pub rank : List Card → List ℕ
unfolding vector_of is_flush straight_high rank_values groups_of sort_by
rank cs =
    vector_of (is_flush cs) (straight_high straight_tops cs) (rank_values descending cs)
      (sort_by group_key (groups_of descending cs))

-- The int result 1, 0 or -1.
pub data Comparison : Type 0 where
  above same below : Comparison

-- `compare` indexes b by a's positions and panics past its end: `none`.
unfoldable pub compare : List ℕ → List ℕ → Option Comparison
compare [] b = some same
compare (x ∷ a) [] = none
compare (x ∷ a) (y ∷ b) =
    let rest = compare a b in if ltb y x then some above else if ltb x y then some below else rest
