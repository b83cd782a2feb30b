-- ===== src/Roulette/Loads.antt =====
-- The draws of `reload` in internal/roulette/devil.go.
use momiao.Base.{
  ℕ, zero, suc, ◌+◌, ◌-◌, ◌*◌, ◌/◌, ◌≤◌, ◌<◌, ◌≡◌, refl, ◌∙◌, ap, subst, Bool, false, ◌||◌, List,
  [], ◌∷◌, arith, some, ltb, ◌==◌, length, length-append, get_elem?, Bool-cases, inl, inr,
}
use momiao.Fairness.{Sampled, uniform_int, IsBelow, uniform_int-IsBelow}
use momiao.Roulette.Types.{Item, Error, Checked, refused, accepted, ◌>>=◌}
use momiao.Roulette.Load.{
  Source, random_int, item_order, weight_of, acquire, total_weight, pick, deal_items, set_at,
  swap_at, shuffle_from, shuffle, fill, load,
}

-- An outcome that does not panic, and whose value has the property.
abbrev pub Holds : {A : Type 0} → (A → Type 0) → Checked A → Type 0
Holds P (refused Error.action_invalid) = Unit
Holds P (refused Error.out_of_range) = ⊥
Holds P (refused (Error.source_error text)) = Unit
Holds P (accepted a) = P a

pub >>=-Holds :
    {A B : Type 0} (P : A → Type 0) (Q : B → Type 0) (m : Checked A) (next : A → Checked B)
    → Holds P m
    → ((a : A) → P a → Holds Q (next a))
    → Holds Q (m >>= next)
>>=-Holds P Q (refused Error.action_invalid) next h k = tt
>>=-Holds P Q (refused Error.out_of_range) next h k = h
>>=-Holds P Q (refused (Error.source_error text)) next h k = tt
>>=-Holds P Q (accepted a) next h k = k a h

-- A source of numbers below the bounds it is given.
abbrev pub IsFair : {R : Type 0} → Source R → Type 0
IsFair {R = R} next = (r : R) (n : ℕ) → 0 < n → Holds (λ (p : ℕ × R). p.0 < n) (next r n)

sampled-below :
    (n : ℕ) (o : Sampled)
    → IsBelow n o
    → Holds
        (λ (p : ℕ × List ℕ). p.0 < n)
        (elim o [
          | Sampled.sampled v rest ↦ accepted (v, rest)
          | Sampled.invalid_input ↦ refused (Error.source_error "invalid input")
          | Sampled.source_ended ↦ refused (Error.source_error "unexpected end")
        ])
sampled-below n (Sampled.sampled v rest) h = h
sampled-below n Sampled.invalid_input h = tt
sampled-below n Sampled.source_ended h = tt

-- The engine's own source is fair.
pub random_int-IsFair : IsFair random_int
unfolding random_int
random_int-IsFair words n h = sampled-below n (uniform_int words n) (uniform_int-IsBelow words n)

-- The items held after a draw: one more at most.
length-pick :
    (held : List Item) (draw : ℕ) (items : List Item)
    → length (pick held draw items) ≤ length held + 1
unfolding pick
length-pick held draw [] = omega arith
length-pick held draw (item ∷ rest) = elim (Bool-cases (acquire held item)) [
  | inr never ↦ rw (never) (length-pick held draw rest)
  | inl may ↦ elim (Bool-cases (ltb draw (weight_of item))) [
    | inl here ↦ rw (may, here) (omega (arith, length-append held (item ∷ [])))
    | inr later ↦ rw (may, later) (length-pick held (draw - weight_of item) rest)
  ]
]

not_four : (n : ℕ) (t : ℕ) → (n == 4 || t == 0) ≡ false → n ≤ 4 → (n + 1 ≤ 4) × (0 < t)
not_four n t h k = (ground arith, ground arith)

pub deal_items-few :
    {R : Type 0} (next : Source R) (count : ℕ) (held : List Item) (r : R)
    → IsFair next
    → length held ≤ 4
    → Holds (λ (p : List Item × R). length p.0 ≤ 4) (deal_items next count held r)
unfolding deal_items
deal_items-few next zero held r fair few = few
deal_items-few {R = R} next (suc count) held r fair few =
    elim (Bool-cases (length held == 4 || total_weight held item_order == 0)) [
      | inl full ↦ rw (full) few
      | inr room ↦
          let (small, some_weight) =
            not_four (length held) (total_weight held item_order) room few in
          rw (room) (
            >>=-Holds (λ (p : ℕ × R). p.0 < total_weight held item_order)
              (λ (p : List Item × R). length p.0 ≤ 4) (next r (total_weight held item_order)) _
              (fair r (total_weight held item_order) some_weight)
              (λ p _.
                deal_items-few next count (pick held p.0 item_order) p.1 fair
                  (omega (arith, length-pick held p.0 item_order, small))))
    ]

pub length-set_at : {A : Type 0} (i : ℕ) (v : A) (xs : List A) → length (set_at i v xs) ≡ length xs
unfolding set_at
length-set_at i v [] = refl
length-set_at zero v (x ∷ xs) = refl
length-set_at (suc i) v (x ∷ xs) = ap suc (length-set_at i v xs)

pub get_elem?-some :
    {A : Type 0} (xs : List A) (i : ℕ) → i < length xs → (x : A) × (get_elem? xs i ≡ some x)
get_elem?-some [] i h = elim (none_below i h) [ ]
  where
    none_below : (i : ℕ) → i < 0 → ⊥
    none_below i h = omega (arith, h)
get_elem?-some (x ∷ xs) zero h = (x, refl)
get_elem?-some (x ∷ xs) (suc i) h = get_elem?-some xs i (omega (arith, h))

swap_at-length :
    {A : Type 0} (i j : ℕ) (xs : List A)
    → i < length xs
    → j < length xs
    → Holds (λ (ys : List A). length ys ≡ length xs) (swap_at i j xs)
unfolding swap_at
swap_at-length i j xs h k =
    let (a, e) = get_elem?-some xs i h in
    let (b, f) = get_elem?-some xs j k in
    rw (e, f, swap_at) (length-set_at j a (set_at i b xs) ∙ length-set_at i b xs)

shuffle_from-length :
    {A R : Type 0} (next : Source R) (i : ℕ) (xs : List A) (r : R)
    → IsFair next
    → i ≤ length xs - 1
    → Holds (λ (p : List A × R). length p.0 ≡ length xs) (shuffle_from next i xs r)
unfolding shuffle_from
shuffle_from-length next zero xs r fair h = refl
shuffle_from-length {A = A} {R = R} next (suc i) xs r fair h =
    >>=-Holds (λ (p : ℕ × R). p.0 < suc i + 1) (λ (p : List A × R). length p.0 ≡ length xs)
      (next r (suc i + 1)) _ (fair r (suc i + 1) (omega arith))
      (λ p low.
        >>=-Holds (λ (ys : List A). length ys ≡ length xs)
          (λ (p : List A × R). length p.0 ≡ length xs) (swap_at (suc i) p.0 xs) _
          (swap_at-length (suc i) p.0 xs (omega (arith, h)) (omega (arith, h, low)))
          (λ ys same.
            subst
              (λ (n : ℕ). Holds (λ (p : List A × R). length p.0 ≡ n) (shuffle_from next i ys p.1))
              same (shuffle_from-length next i ys p.1 fair (omega (arith, same, h)))))

length-fill : (live n : ℕ) → length (fill live n) ≡ n
unfolding fill
length-fill live zero = refl
length-fill zero (suc n) = ap suc (length-fill zero n)
length-fill (suc live) (suc n) = ap suc (length-fill live n)

fits :
    (n p : ℕ) → p < (6 * n + 5) / 10 - (4 * n + 5) / 10 + 1 → ltb n (p + (4 * n + 5) / 10) ≡ false
fits n p h = ground arith

pub load-length :
    {R : Type 0} (next : Source R) (n : ℕ) (r : R)
    → IsFair next
    → Holds (λ (p : List Bool × R). length p.0 ≡ n) (load next n r)
unfolding load shuffle
load-length {R = R} next n r fair =
    >>=-Holds (λ (p : ℕ × R). p.0 < (6 * n + 5) / 10 - (4 * n + 5) / 10 + 1)
      (λ (p : List Bool × R). length p.0 ≡ n) (next r ((6 * n + 5) / 10 - (4 * n + 5) / 10 + 1)) _
      (fair r ((6 * n + 5) / 10 - (4 * n + 5) / 10 + 1) (omega arith))
      (λ p low.
        let live = p.0 + (4 * n + 5) / 10 in
        rw (fits n p.0 low) (
          subst
            (λ (k : ℕ).
              Holds (λ (q : List Bool × R). length q.0 ≡ k) (shuffle next (fill live n) p.1))
            (length-fill live n)
            (shuffle_from-length next (length (fill live n) - 1) (fill live n) p.1 fair
              (omega arith))))
