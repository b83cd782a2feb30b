-- ===== src/Poker/Rank/Choices.antt =====
-- The loops of `Evaluate` of internal/poker/engine/evaluate.go that choose five of seven cards.
use momiao.Base.{
  ℕ, zero, suc, ◌+◌, ◌≤◌, ◌<◌, ◌≡◌, refl, sym, subst, ◌==◌, ==→eq, inl, inr, List, [], ◌∷◌, map,
  arith, All, All-append, All-split, length, Bool-cases, ap,
}
use momiao.Poker.Rank.Best.{choose_from, five_of_seven}

-- Positions from `start` on and below `size`, in strictly rising order.
abbrev pub RisesFrom : ℕ → ℕ → List ℕ → Type 0
RisesFrom start size [] = Unit
RisesFrom start size (n ∷ ns) = (start ≤ n) × (n < size) × RisesFrom (suc n) size ns

-- Five different positions of seven, in rising order.
abbrev pub IsChoice : List ℕ → Type 0
IsChoice idx = (length idx ≡ 5) × RisesFrom 0 7 idx

RisesFrom-widen : (a b s t : ℕ) (ns : List ℕ) → b ≤ a → s ≤ t → RisesFrom a s ns → RisesFrom b t ns
RisesFrom-widen a b s t [] h k r = tt
RisesFrom-widen a b s t (n ∷ ns) h k (low, high, rest) =
    (omega arith, omega arith, RisesFrom-widen (suc n) (suc n) s t ns (omega arith) k rest)

All-map {ℓ κ μ} :
    {A : Type ℓ} {B : Type κ} (f : A → B) (P : B → Type μ) (xs : List A)
    → All P (map f xs)
    → All (λ x. P (f x)) xs
All-map f P [] h = tt
All-map f P (x ∷ xs) h = (h.0, All-map f P xs h.1)

map-All {ℓ κ μ ν} :
    {A : Type ℓ} {B : Type κ} (f : A → B) (Q : A → Type ν) (P : B → Type μ) (xs : List A)
    → ((x : A) → Q x → P (f x))
    → All Q xs
    → All P (map f xs)
map-All f Q P [] k h = tt
map-All f Q P (x ∷ xs) k h = (k x h.0, map-All f Q P xs k h.1)

All-imp {ℓ κ μ} :
    {A : Type ℓ} (P : A → Type κ) (Q : A → Type μ) (xs : List A)
    → ((x : A) → P x → Q x)
    → All P xs
    → All Q xs
All-imp P Q [] k h = tt
All-imp P Q (x ∷ xs) k h = (k x h.0, All-imp P Q xs k h.1)

-- The loops miss no choice: what holds of all that they run through holds of each one.
choose_from_complete :
    (P : List ℕ → Type 0) (count start room : ℕ) (idx : List ℕ)
    → All P (choose_from count start room)
    → length idx ≡ count
    → RisesFrom start (start + room) idx
    → P idx
unfolding choose_from
choose_from_complete P zero start room [] h e r = h.0
choose_from_complete P zero start room (n ∷ ns) h e r = absurd (omega arith)
choose_from_complete P (suc count) start room [] h e r = absurd (omega arith)
choose_from_complete P (suc count) start zero (n ∷ ns) h e r = absurd (omega arith)
choose_from_complete P (suc count) start (suc room) (n ∷ ns) h e (low, high, rest) =
    let (first, later) = All-split P _ _ h in
    elim (Bool-cases (n == start)) [
      | inl q ↦
          subst (λ (m : ℕ). P (m ∷ ns)) (sym (==→eq n start q))
            (choose_from_complete (λ ms. P (start ∷ ms)) count (start + 1) room ns
              (All-map (◌∷◌ start) P (choose_from count (start + 1) room) first) (omega arith)
              (RisesFrom-widen (suc n) (start + 1) (start + suc room) (start + 1 + room) ns
                (omega (arith, ==→eq n start q)) (omega arith) rest))
      | inr q ↦ choose_from_complete P (suc count) (start + 1) room (n ∷ ns) later e (
        ground arith,
        omega arith,
        RisesFrom-widen (suc n) (suc n) (start + suc room) (start + 1 + room) ns (omega arith)
            (omega arith) rest,
      )
    ]

-- And they run through nothing else.
choose_from_sound :
    (count start room : ℕ)
    → All
        (λ idx. (length idx ≡ count) × RisesFrom start (start + room) idx)
        (choose_from count start room)
unfolding choose_from
choose_from_sound zero start room = ((refl, tt), tt)
choose_from_sound (suc count) start zero = tt
choose_from_sound (suc count) start (suc room) =
    All-append _ _ _
      (map-All (◌∷◌ start) (λ ns. (length ns ≡ count) × RisesFrom (start + 1) (start + 1 + room) ns)
        _ (choose_from count (start + 1) room)
        (λ ns (size, r). (
          ap suc size,
          (
            omega arith,
            omega arith,
            RisesFrom-widen (start + 1) (suc start) (start + 1 + room) (start + suc room) ns
                (omega arith) (omega arith) r,
          ),
        ))
        (choose_from_sound count (start + 1) room))
      (All-imp (λ ns. (length ns ≡ suc count) × RisesFrom (start + 1) (start + 1 + room) ns) _
        (choose_from (suc count) (start + 1) room)
        (λ ns (size, r). (
          size,
          RisesFrom-widen (start + 1) start (start + 1 + room) (start + suc room) ns (omega arith)
              (omega arith) r,
        ))
        (choose_from_sound (suc count) (start + 1) room))

pub five_of_seven_complete :
    (P : List ℕ → Type 0) (idx : List ℕ) → All P five_of_seven → IsChoice idx → P idx
unfolding five_of_seven
five_of_seven_complete P idx h (size, r) = choose_from_complete P 5 0 7 idx h size r

pub five_of_seven-IsChoice : All IsChoice five_of_seven
unfolding five_of_seven
five_of_seven-IsChoice = choose_from_sound 5 0 7
