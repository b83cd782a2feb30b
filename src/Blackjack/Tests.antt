-- ===== src/Blackjack/Tests.antt =====
-- Sample hands and a sample shuffle.
use momiao.Base.{ℕ, ◌≡◌, ◌≤◌, refl, true, List, [], ◌∷◌, inl, arith, length, some}
use momiao.Base.Sums.{sum_by}
use momiao.Blackjack.{
  Card, Value, accepted, point, count_points, evaluate, Sampler, shuffle, count_up, cards_in_shoe,
}
use momiao.Blackjack.Totals.{Counts, evaluate-best}
use momiao.Blackjack.Shoe.{shuffle-accepted}

-- An ace, a five and another ace.
abbrev hand : List Card
hand =
    record { shoe_index = 0; instance_id = 0 }
    ∷ record { shoe_index = 1; instance_id = 4 }
    ∷ record { shoe_index = 2; instance_id = 13 }
    ∷ []

abbrev hand_value : Value
hand_value = record { hard_total = 7; best_total = 17; soft = true }

hand_evaluated : evaluate hand ≡ accepted hand_value
unfolding evaluate count_points point
hand_evaluated = refl

hand-Counts : Counts hand 7
unfolding point
hand-Counts = (6, (1, (0, refl, inl refl), inl refl), inl refl)

evaluate-best_example : Counts hand 17 × (7 ≤ 17) × (17 ≤ 21)
evaluate-best_example = evaluate-best hand hand_value 7 hand_evaluated hand-Counts (omega arith)

-- A sampler that always draws the first card.
abbrev first_card : Sampler
first_card n = accepted 0

shuffle-accepted_example :
    (shoe : List ℕ) × (shuffle (some first_card) ≡ accepted shoe)
    × (length shoe ≡ cards_in_shoe)
    × (sum_by (λ n. n) shoe ≡ sum_by (λ n. n) (count_up 0 cards_in_shoe))
shuffle-accepted_example = shuffle-accepted (λ n. n) first_card (λ n h. (0, refl, omega arith))
