-- ===== src/Poker/Tests/PartExamples.antt =====
-- The theorems on ranks, pots and seats at concrete inputs.
use momiao.Base.{ℕ, true, ◌*◌, ◌≡◌, ◌≤◌, refl, List, [], ◌∷◌, All, some}
use momiao.Base.Int.{ℤ, pos}
use momiao.Base.Sort.{sort_by}
use momiao.Base.Sums.{sum_by}
use momiao.Poker.Types.{units_per_chip, ok, State, Result, HandRank, Ranks, ButtonChoice, Card}
use momiao.Poker.Rank.{rank, evaluate, select, evaluator_version}
use momiao.Poker.Rank.Choices.{IsChoice}
use momiao.Poker.Rank.Maximal.{evaluate_best, NotAbove}
use momiao.Poker.Button.{ordered_seats, next_button, select_initial_button, valid_button_choice}
use momiao.Poker.Button.Ordered.{Rises, ordered_seats-Rises}
use momiao.Poker.Button.Clockwise.{
  distance, occurs, next_button-nearest, select_initial_button-valid,
}
use momiao.Poker.Settle.{share, winners_of}
use momiao.Poker.Chips.Shares.{awarded, awarded-share}
use momiao.Poker.Winners.{winners_of-Unbeaten, Tied, Unbeaten}

abbrev board : List Card
board = 2 ∷ 16 ∷ 30 ∷ 44 ∷ 5 ∷ []

unfoldable rank_of : Result HandRank → HandRank
rank_of (ok r) = r
rank_of (momiao.Poker.Types.err e) = record {
  category = "";
  vector = [];
  best_five = [];
  version = "";
}

abbrev quads : HandRank
quads = rank_of (evaluate (0, 12) board evaluator_version)

quads-eq : evaluate (0, 12) board evaluator_version ≡ ok quads
unfolding evaluate rank_of
quads-eq = refl

evaluate_best_example :
    (quads.vector ≡ rank (select (0 ∷ 12 ∷ board) quads.best_five))
    × IsChoice quads.best_five
    × ((idx : List ℕ) → IsChoice idx → NotAbove (rank (select (0 ∷ 12 ∷ board) idx)) quads.vector)
evaluate_best_example = evaluate_best 0 12 board evaluator_version quads quads-eq

abbrev ranks : Ranks
ranks =
    (1, record quads { vector = 7 ∷ 3 ∷ 14 ∷ [] })
    ∷ (4, record quads { vector = 7 ∷ 3 ∷ 14 ∷ [] })
    ∷ (6, record quads { vector = 2 ∷ 3 ∷ [] })
    ∷ []

winners_of-Unbeaten_example :
    (best : List ℕ) × Tied ranks best (winners_of 1 ranks (1 ∷ 4 ∷ 6 ∷ []))
    × Unbeaten ranks best (1 ∷ 4 ∷ 6 ∷ [])
winners_of-Unbeaten_example = winners_of-Unbeaten ranks 1 1 (4 ∷ 6 ∷ [])

awarded-share_example : awarded (share (7 * units_per_chip) (4 ∷ 6 ∷ [])) ≡ 7 * units_per_chip
awarded-share_example = awarded-share (7 * units_per_chip) (4 ∷ 6 ∷ []) (λ e. cc) refl

next_seat_eq : next_button 6 (9 ∷ 2 ∷ 4 ∷ []) ≡ ok 9
unfolding next_button
next_seat_eq = refl

next_button-nearest_example :
    (1 ≤ occurs 9 (9 ∷ 2 ∷ 4 ∷ [])) × All (λ s. distance 6 9 ≤ distance 6 s) (9 ∷ 2 ∷ 4 ∷ [])
next_button-nearest_example = next_button-nearest 6 (9 ∷ 2 ∷ 4 ∷ []) 9 next_seat_eq

abbrev second : ℕ → Result ℤ
second n = ok (pos 1)

abbrev chosen : ButtonChoice
chosen = record {
  version = momiao.Poker.Button.button_selection_version;
  eligible_seats = 2 ∷ 4 ∷ 9 ∷ [];
  draw_index = 1;
  seat = 4;
}

chosen-eq : select_initial_button (9 ∷ 2 ∷ 4 ∷ []) (some second) ≡ ok chosen
unfolding select_initial_button
chosen-eq = refl

select_initial_button-valid_example :
    (ordered : List ℕ) × (ordered_seats (9 ∷ 2 ∷ 4 ∷ []) ≡ ok ordered)
    × (valid_button_choice chosen ordered ≡ true)
select_initial_button-valid_example =
    select_initial_button-valid (9 ∷ 2 ∷ 4 ∷ []) second chosen chosen-eq

ordered-eq : ordered_seats (9 ∷ 2 ∷ 4 ∷ []) ≡ ok (2 ∷ 4 ∷ 9 ∷ [])
unfolding ordered_seats
ordered-eq = refl

ordered_seats-Rises_example :
    Rises 0 (2 ∷ 4 ∷ 9 ∷ [])
    × (2 ∷ 4 ∷ 9 ∷ [] ≡ sort_by (λ n. n) (9 ∷ 2 ∷ 4 ∷ []))
    × ((f : ℕ → ℕ) → sum_by f (2 ∷ 4 ∷ 9 ∷ []) ≡ sum_by f (9 ∷ 2 ∷ 4 ∷ []))
ordered_seats-Rises_example = ordered_seats-Rises (9 ∷ 2 ∷ 4 ∷ []) (2 ∷ 4 ∷ 9 ∷ []) ordered-eq
