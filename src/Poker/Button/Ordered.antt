-- ===== src/Poker/Button/Ordered.antt =====
-- `orderedSeats` of internal/poker/engine/rules.go.
use momiao.Base.{ℕ, ◌≤◌, ◌<◌, ◌≡◌, refl, subst, true, ◌&&◌, List, [], ◌∷◌, arith, leb, length}
use momiao.Base.Sums.{sum_by}
use momiao.Base.Sort.{insert_by, sort_by, sum_by-sort_by}
use momiao.Poker.Types.{ok, invalid, ◌>>◌, >>=-eq-ok, ok-injective, guard, guard-eq-ok}
use momiao.Poker.Button.{seats_rise, ordered_seats}

-- In order, above `low`, and on the table.
abbrev pub Rises : ℕ → List ℕ → Type 0
Rises low [] = Unit
Rises low (s ∷ rest) = (low < s) × (s ≤ 9) × Rises s rest

abbrev pub Sorted : ℕ → List ℕ → Type 0
Sorted low [] = Unit
Sorted low (s ∷ rest) = (low ≤ s) × Sorted s rest

insert_by-Sorted :
    (low a : ℕ) (xs : List ℕ) → low ≤ a → Sorted low xs → Sorted low (insert_by (λ n. n) a xs)
unfolding insert_by
insert_by-Sorted low a [] h k = (h, tt)
insert_by-Sorted low a (x ∷ xs) h k = ground (arith, insert_by-Sorted x a xs)

sort_by-Sorted : (xs : List ℕ) → Sorted 0 (sort_by (λ n. n) xs)
unfolding sort_by
sort_by-Sorted [] = tt
sort_by-Sorted (x ∷ xs) =
    insert_by-Sorted 0 x (sort_by (λ n. n) xs) (omega arith) (sort_by-Sorted xs)

seats_rise-Rises : (low : ℕ) (xs : List ℕ) → Sorted low xs → seats_rise low xs ≡ true → Rises low xs
unfolding seats_rise
seats_rise-Rises low [] h k = tt
seats_rise-Rises low (x ∷ xs) h k = ground (arith, seats_rise-Rises x xs h.1)

-- Ordered seats that are returned rise strictly within 1..9, and are the given seats sorted: any
-- measure adds up to the same over both.
pub ordered_seats-Rises :
    (seats out : List ℕ)
    → ordered_seats seats ≡ ok out
    → Rises 0 out × (out ≡ sort_by (λ n. n) seats) × ((f : ℕ → ℕ) → sum_by f out ≡ sum_by f seats)
unfolding ordered_seats
ordered_seats-Rises seats out e =
    let sorted = sort_by (λ (n : ℕ). n) seats in
    let (u, size, e₁) =
      >>=-eq-ok (guard (leb 2 (length seats) && leb (length seats) 9) invalid)
        (λ (u : Unit {0}). guard (seats_rise 0 sorted) invalid >> ok sorted) e in
    let (v, rise, e₂) =
      >>=-eq-ok (guard (seats_rise 0 sorted) invalid) (λ (v : Unit {0}). ok sorted) e₁ in
    subst
      (λ (xs : List ℕ). Rises 0 xs × (xs ≡ sorted) × ((f : ℕ → ℕ) → sum_by f xs ≡ sum_by f seats))
      (ok-injective e₂)
      (
        seats_rise-Rises 0 sorted (sort_by-Sorted seats)
            (guard-eq-ok (seats_rise 0 sorted) invalid rise),
        refl,
        λ f. sum_by-sort_by (λ n. n) f seats,
      )
