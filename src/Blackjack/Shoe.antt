-- ===== src/Blackjack/Shoe.antt =====
-- The shoe that `Shuffle` of internal/games/blackjack/cards.go returns.
use momiao.Base.{
  ℕ, zero, suc, ◌+◌, ◌≤◌, ◌<◌, ◌≡◌, refl, sym, ◌∙◌, ap, subst, false, Bool-cases, List, [], ◌∷◌,
  ◌⊎◌, inl, inr, arith, ltb, get_or, length, some,
}
use momiao.Base.Sums.{sum_by}
use momiao.Blackjack.Totals.{accepted-injective, refused-accepted, >>=-eq-accepted}
use momiao.Blackjack.{
  accepted, Sampler, set_at, swap, shuffle_from, count_up, shuffle, cards_in_shoe,
}

length-set_at : (xs : List ℕ) (i x : ℕ) → length (set_at xs i x) ≡ length xs
unfolding set_at
length-set_at [] i x = refl
length-set_at (y ∷ ys) zero x = refl
length-set_at (y ∷ ys) (suc i) x = ap suc (length-set_at ys i x)

-- What a measure gains and loses by an assignment.
sum_by-set_at :
    (f : ℕ → ℕ) (xs : List ℕ) (i x : ℕ)
    → i < length xs
    → sum_by f (set_at xs i x) + f (get_or xs i 0) ≡ sum_by f xs + f x
unfolding set_at
sum_by-set_at f [] i x h = ground arith
sum_by-set_at f (y ∷ ys) zero x h = omega arith
sum_by-set_at f (y ∷ ys) (suc i) x h = omega (arith, sum_by-set_at f ys i x (omega arith))

-- An element after an assignment: the new value at its index, the old one elsewhere.
get_or-set_at :
    (xs : List ℕ) (i j x : ℕ)
    → i < length xs
    → ((i ≡ j) × (get_or (set_at xs i x) j 0 ≡ x)) ⊎ (get_or (set_at xs i x) j 0 ≡ get_or xs j 0)
unfolding set_at
get_or-set_at [] i j x h = ground arith
get_or-set_at (y ∷ ys) zero zero x h = inl (refl, refl)
get_or-set_at (y ∷ ys) zero (suc j) x h = inr refl
get_or-set_at (y ∷ ys) (suc i) zero x h = inr refl
get_or-set_at (y ∷ ys) (suc i) (suc j) x h = elim (get_or-set_at ys i j x (omega arith)) [
  | inl (same, e) ↦ inl (omega arith, e)
  | inr e ↦ inr e
]

sum_by-swap :
    (f : ℕ → ℕ) (xs : List ℕ) (i j : ℕ)
    → i < length xs
    → j < length xs
    → sum_by f (swap xs i j) ≡ sum_by f xs
unfolding swap
sum_by-swap f xs i j h g =
    let first = sum_by-set_at f xs i (get_or xs j 0) h in
    let second =
      sum_by-set_at f (set_at xs i (get_or xs j 0)) j (get_or xs i 0)
        (subst (λ n. j < n) (sym (length-set_at xs i (get_or xs j 0))) g) in
    elim (get_or-set_at xs i j (get_or xs j 0) h) [
      | inl (same, e) ↦ omega (arith, first, second, ap f e, ap (λ k. f (get_or xs k 0)) same)
      | inr e ↦ omega (arith, first, second, ap f e)
    ]

length-swap : (xs : List ℕ) (i j : ℕ) → length (swap xs i j) ≡ length xs
unfolding swap
length-swap xs i j =
    length-set_at (set_at xs i (get_or xs j 0)) j (get_or xs i 0)
    ∙ length-set_at xs i (get_or xs j 0)

shuffle_from-keeps :
    (f : ℕ → ℕ) (sample : Sampler) (i : ℕ) (shoe out : List ℕ)
    → i < length shoe
    → shuffle_from sample i shoe ≡ accepted out
    → (length out ≡ length shoe) × (sum_by f out ≡ sum_by f shoe)
unfolding shuffle_from
shuffle_from-keeps f sample zero shoe out h e =
    (ap length (sym (accepted-injective e)), ap (sum_by f) (sym (accepted-injective e)))
shuffle_from-keeps f sample (suc i) shoe out h e =
    let (j, drawn, e₁) = >>=-eq-accepted (sample (suc i + 1)) _ e in
    elim (Bool-cases (ltb (suc i) j)) [
      | inl beyond ↦ elim (refused-accepted (rw beyond at e₁)) [ ]
      | inr within ↦
          let low : j < length shoe = ground arith in
          let n = length-swap shoe (suc i) j in
          let (m, s) =
            shuffle_from-keeps f sample i (swap shoe (suc i) j) out (omega (arith, n))
              (rw within at e₁) in
          (m ∙ n, s ∙ sum_by-swap f shoe (suc i) j h low)
    ]

length-count_up : (from n : ℕ) → length (count_up from n) ≡ n
unfolding count_up
length-count_up from zero = refl
length-count_up from (suc n) = ap suc (length-count_up (from + 1) n)

shuffle-permutes :
    (f : ℕ → ℕ) (sample : Sampler) (shoe : List ℕ)
    → shuffle (some sample) ≡ accepted shoe
    → (length shoe ≡ cards_in_shoe) × (sum_by f shoe ≡ sum_by f (count_up 0 cards_in_shoe))
unfolding shuffle
shuffle-permutes f sample shoe e =
    let n = length-count_up 0 cards_in_shoe in
    let (m, s) =
      shuffle_from-keeps f sample 311 (count_up 0 cards_in_shoe) shoe (omega (arith, n)) e in
    (m ∙ n, s)

shuffle_from-accepted :
    (sample : Sampler)
    → ((n : ℕ) → 1 ≤ n → (j : ℕ) × (sample n ≡ accepted j) × (j < n))
    → (i : ℕ) (shoe : List ℕ) → (out : List ℕ) × (shuffle_from sample i shoe ≡ accepted out)
unfolding shuffle_from
shuffle_from-accepted sample h zero shoe = (shoe, refl)
shuffle_from-accepted sample h (suc i) shoe =
    let (j, drawn, low) = h (suc i + 1) (omega arith) in
    let within : ltb (suc i) j ≡ false = ground arith in
    let (out, e) = shuffle_from-accepted sample h i (swap shoe (suc i) j) in
    (out, rw (drawn, within) e)

-- With a sampler that answers every positive bound with a number below it, a shuffle returns a
-- shoe of 312 entries over which a measure adds up to the same as over the 312 instances.
pub shuffle-accepted :
    (f : ℕ → ℕ) (sample : Sampler)
    → ((n : ℕ) → 1 ≤ n → (j : ℕ) × (sample n ≡ accepted j) × (j < n))
    → (shoe : List ℕ) × (shuffle (some sample) ≡ accepted shoe)
      × (length shoe ≡ cards_in_shoe)
      × (sum_by f shoe ≡ sum_by f (count_up 0 cards_in_shoe))
unfolding shuffle
shuffle-accepted f sample h =
    let (shoe, e) = shuffle_from-accepted sample h 311 (count_up 0 cards_in_shoe) in
    let (n, s) = shuffle-permutes f sample shoe e in (shoe, e, n, s)
