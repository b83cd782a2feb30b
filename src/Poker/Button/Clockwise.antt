-- ===== src/Poker/Button/Clockwise.antt =====
-- The seats and the button of internal/poker/engine/rules.go, clockwise around the table.
use momiao.Poker.Button.Ordered.{Rises, ordered_seats-Rises}
use momiao.Base.{
  ℕ, ◌+◌, ◌-◌, ◌%◌, ◌≤◌, ◌<◌, ◌≡◌, refl, ◌∙◌, ap, subst, true, ◌&&◌, List, [], ◌∷◌, arith, leb, ltb,
  ◌==◌, find, none, some, inl, inr, if◌then◌else◌, All, length, get_elem?, ==_refl, Option-cases,
  Bool-cases,
}
use momiao.Base.Int.{ℤ, pos, negsuc}
use momiao.Base.Sums.{sum_by}
use momiao.Base.Sort.{insert_by, sort_by}
use momiao.Poker.Types.{
  Result, ok, err, invalid, index_panic, ◌>>=◌, ◌>>◌, >>=-eq-ok, ok-injective, guard, guard-eq-ok,
  ButtonChoice,
}
use momiao.Poker.Button.{
  ordered_seats, choose_button, select_initial_button, next_button, same_seats, valid_button_choice,
}

-- How many seats lie between `previous` and s, clockwise round the table of nine.
abbrev pub distance : ℕ → ℕ → ℕ
distance previous s = (s + 8 - previous) % 9

module _ (P : ℕ → Type 0) where
  All-insert_by : (a : ℕ) (xs : List ℕ) → All P (insert_by (λ n. n) a xs) → P a × All P xs
  unfolding insert_by
  All-insert_by a [] h = (h.0, tt)
  All-insert_by a (x ∷ xs) h = elim (Bool-cases (leb a x)) [
    | inl front ↦ let k : P a × (P x × All P xs) = rw (front, insert_by) at h in k
    | inr behind ↦
        let k : P x × All P (insert_by (λ n. n) a xs) = rw (behind, insert_by) at h in
        let (p, rest) = All-insert_by a xs k.1 in (p, (k.0, rest))
  ]

  -- What holds of all sorted seats holds of all seats.
  All-sort_by : (xs : List ℕ) → All P (sort_by (λ n. n) xs) → All P xs
  unfolding sort_by
  All-sort_by [] h = tt
  All-sort_by (x ∷ xs) h =
      let (p, rest) = All-insert_by x (sort_by (λ n. n) xs) h in (p, All-sort_by xs rest)

-- Seats behind a seat above `previous` are further away.
later-distance :
    (previous r x : ℕ) (xs : List ℕ)
    → 1 ≤ previous
    → previous < r
    → r ≤ x
    → Rises x xs
    → All (λ s. distance previous r ≤ distance previous s) xs
later-distance previous r x [] p q n h = tt
later-distance previous r x (y ∷ ys) p q n h =
    (omega (arith, h.0, h.1), later-distance previous r y ys p q (omega (arith, h.0)) h.2)

find-some :
    (previous x : ℕ) (xs : List ℕ) (r : ℕ)
    → find (λ s. ltb previous s) xs ≡ some r
    → Rises x xs
    → (previous < r) × (r ≤ 9) × (x < r)
find-some previous x [] r e h = cc
find-some previous x (y ∷ ys) r e h = ground (arith, find-some previous y ys r)

-- The first seat above `previous` is the nearest one clockwise.
found-distance :
    (previous low : ℕ) (xs : List ℕ) (r : ℕ)
    → 1 ≤ previous
    → previous ≤ 9
    → Rises low xs
    → find (λ s. ltb previous s) xs ≡ some r
    → All (λ s. distance previous r ≤ distance previous s) xs
found-distance previous low [] r p q h e = tt
found-distance previous low (x ∷ xs) r p q h e = elim (Bool-cases (ltb previous x)) [
  | inl hit ↦
      let same : x ≡ r = ground arith in
      let up : previous < x = ground arith in
      (
        omega (arith, same),
        subst (λ (k : ℕ). All (λ s. distance previous k ≤ distance previous s) xs) same
            (later-distance previous x x xs p up (omega arith) h.2),
      )
  | inr miss ↦
      let e' : find (λ (s : ℕ). ltb previous s) xs ≡ some r = rw (miss, find) at e in
      let (up, top, _) = find-some previous x xs r e' h.2 in
      let low' : x ≤ previous = ground arith in
      (omega (arith, up, top, h.1), found-distance previous x xs r p q h.2 e')
]

find-none :
    (previous : ℕ) (xs : List ℕ) → find (λ s. ltb previous s) xs ≡ none → All (λ s. s ≤ previous) xs
find-none previous [] e = tt
find-none previous (x ∷ xs) e = ground (arith, find-none previous xs)

-- With no seat above `previous`, the lowest one is the nearest clockwise.
lowest-distance :
    (previous r low : ℕ) (xs : List ℕ)
    → previous ≤ 9
    → r ≤ low
    → r ≤ previous
    → 1 ≤ r
    → Rises low xs
    → All (λ s. s ≤ previous) xs
    → All (λ s. distance previous r ≤ distance previous s) xs
lowest-distance previous r low [] q l b o h k = tt
lowest-distance previous r low (x ∷ xs) q l b o h k = (
  omega (arith, h.0, h.1, k.0),
  lowest-distance previous r x xs q (omega (arith, h.0)) b o h.2 k.1,
)

-- The seat that follows in a non-empty order, as `NextButton` takes it.
abbrev after : ℕ → List ℕ → Result ℕ
after previous ordered = elim (find (λ (seat : ℕ). ltb previous seat) ordered) [
  | some seat ↦ ok seat
  | none ↦ elim ordered [ [] ↦ err index_panic | seat ∷ _ ↦ ok seat ]
]

after-distance :
    (previous : ℕ) (xs : List ℕ) (r : ℕ)
    → 1 ≤ previous
    → previous ≤ 9
    → Rises 0 xs
    → after previous xs ≡ ok r
    → All (λ s. distance previous r ≤ distance previous s) xs
after-distance previous [] r p q h e = tt
after-distance previous (x ∷ xs) r p q h e =
    elim (Option-cases (find (λ (seat : ℕ). ltb previous seat) (x ∷ xs))) [
      | inr (y, found) ↦
          let same : y ≡ r =
            ok-injective
              (subst (λ o. (elim o [ some seat ↦ ok seat | none ↦ ok x ]) ≡ ok r) found e) in
          found-distance previous 0 (x ∷ xs) r p q h (found ∙ ap some same)
      | inl nobody ↦
          let same : x ≡ r =
            ok-injective
              (subst (λ o. (elim o [ some seat ↦ ok seat | none ↦ ok x ]) ≡ ok r) nobody e) in
          let (low, rest) = find-none previous (x ∷ xs) nobody in
          subst (λ (k : ℕ). All (λ s. distance previous k ≤ distance previous s) (x ∷ xs)) same
            (
              omega arith,
              lowest-distance previous x x xs q (omega arith) low (omega (arith, h.0)) h.2 rest,
            )
    ]

-- How often a seat stands in a list.
abbrev pub occurs : ℕ → List ℕ → ℕ
occurs r = sum_by (λ s. if s == r then 1 else 0)

find-occurs :
    (previous : ℕ) (xs : List ℕ) (r : ℕ) → find (λ s. ltb previous s) xs ≡ some r → 1 ≤ occurs r xs
find-occurs previous [] r e = cc
find-occurs previous (x ∷ xs) r e = ground (arith, find-occurs previous xs r, ==_refl x)

after-occurs : (previous : ℕ) (xs : List ℕ) (r : ℕ) → after previous xs ≡ ok r → 1 ≤ occurs r xs
after-occurs previous [] r e = cc
after-occurs previous (x ∷ xs) r e =
    elim (Option-cases (find (λ (seat : ℕ). ltb previous seat) (x ∷ xs))) [
      | inr (y, found) ↦
          let same : y ≡ r =
            ok-injective
              (subst (λ o. (elim o [ some seat ↦ ok seat | none ↦ ok x ]) ≡ ok r) found e) in
          find-occurs previous (x ∷ xs) r (found ∙ ap some same)
      | inl nobody ↦
          let same : x ≡ r =
            ok-injective
              (subst (λ o. (elim o [ some seat ↦ ok seat | none ↦ ok x ]) ≡ ok r) nobody e) in
          ground (arith, ==_refl x)
    ]

-- The next button that is returned is one of the seats, and no seat is nearer clockwise from the
-- previous button, which comes last itself.
pub next_button-nearest :
    (previous : ℕ) (seats : List ℕ) (r : ℕ)
    → next_button previous seats ≡ ok r
    → (1 ≤ occurs r seats) × All (λ s. distance previous r ≤ distance previous s) seats
unfolding next_button
next_button-nearest previous seats r e =
    let (ordered, q, e₁) =
      >>=-eq-ok (ordered_seats seats)
        (λ (ordered : List ℕ).
          guard (leb 1 previous && leb previous 9) invalid >> after previous ordered)
        e in
    let (u, range, e₂) =
      >>=-eq-ok (guard (leb 1 previous && leb previous 9) invalid)
        (λ (u : Unit {0}). after previous ordered) e₁ in
    let in_range = guard-eq-ok (leb 1 previous && leb previous 9) invalid range in
    let (rise, is_sorted, same) = ordered_seats-Rises seats ordered q in
    (
      omega (arith, after-occurs previous ordered r e₂, same (λ s. if s == r then 1 else 0)),
      All-sort_by (λ s. distance previous r ≤ distance previous s) seats
          (subst (All (λ s. distance previous r ≤ distance previous s)) is_sorted
            (after-distance previous ordered r (ground arith) (ground arith) rise e₂)),
    )

same_seats_refl : (xs : List ℕ) → same_seats xs xs ≡ true
unfolding same_seats
same_seats_refl [] = refl
same_seats_refl (x ∷ xs) = ground (arith, same_seats_refl xs)

choose_button-valid :
    (ordered : List ℕ) (i : ℤ) (choice : ButtonChoice)
    → choose_button ordered i ≡ ok choice
    → valid_button_choice choice ordered ≡ true
unfolding choose_button valid_button_choice
choose_button-valid ordered (negsuc i) choice e = cc
choose_button-valid ordered (pos i) choice e = elim (Option-cases (get_elem? ordered i)) [
  | inl nothing ↦ absurd (ground arith)
  | inr (seat, found) ↦
      subst (λ (c : ButtonChoice). valid_button_choice c ordered ≡ true)
        (ok-injective (rw (found, choose_button) at e))
        (rw (same_seats_refl ordered, found) (==_refl seat))
]

-- An initial button that is selected passes the check that `New` and `validate` make of it,
-- whatever the sampler answered.
pub select_initial_button-valid :
    (seats : List ℕ) (uniform : ℕ → Result ℤ) (choice : ButtonChoice)
    → select_initial_button seats (some uniform) ≡ ok choice
    → (ordered : List ℕ) × (ordered_seats seats ≡ ok ordered)
      × (valid_button_choice choice ordered ≡ true)
unfolding select_initial_button
select_initial_button-valid seats uniform choice e =
    let (ordered, q, e₁) =
      >>=-eq-ok (ordered_seats seats)
        (λ (ordered : List ℕ). uniform (length ordered) >>= λ i. choose_button ordered i) e in
    let (i, r, e₂) = >>=-eq-ok (uniform (length ordered)) (λ (i : ℤ). choose_button ordered i) e₁ in
    (ordered, q, choose_button-valid ordered i choice e₂)
