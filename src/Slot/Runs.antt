-- ===== src/Slot/Runs.antt =====
-- The runs of a line in `evaluateLine` of internal/games/slot/slot.go.
use momiao.Base.{
  ℕ, suc, ==→eq, ◌≢◌, ap, ==_refl, subst, ◌∙◌, ◌≤◌, ◌≡◌, refl, sym, List, [], ◌∷◌, ◌⊎◌, inl, inr,
  arith, get_or, length, take, get_elem?, some, true, false, All, Bool-cases,
}
use momiao.Slot.Types.{symbol_code, symbol_eq, Symbol}
use momiao.Slot.Resolve.{continues, run_of}

-- The first `n` values of a line each are the symbol or wild, and the value after them, where
-- there is one, is neither.
abbrev pub IsRun : Symbol → List Symbol → ℕ → Type 0
IsRun symbol values n =
    (n ≤ length values)
    × All (λ value. (value ≡ symbol) ⊎ (value ≡ Symbol.wild)) (take n values)
    × ((value : Symbol)
        → get_elem? values n ≡ some value
        → (value ≢ symbol) × (value ≢ Symbol.wild))

abbrev symbol_of : ℕ → Symbol
symbol_of n =
    get_or
      (Symbol.unnamed ∷ Symbol.l1 ∷ Symbol.l2 ∷ Symbol.l3 ∷ Symbol.m1 ∷ Symbol.m2 ∷ Symbol.h1
        ∷ Symbol.h2 ∷ Symbol.wild ∷ [])
      n Symbol.unnamed

symbol_of-symbol_code : (a : Symbol) → symbol_of (symbol_code a) ≡ a
symbol_of-symbol_code Symbol.unnamed = refl
symbol_of-symbol_code Symbol.l1 = refl
symbol_of-symbol_code Symbol.l2 = refl
symbol_of-symbol_code Symbol.l3 = refl
symbol_of-symbol_code Symbol.m1 = refl
symbol_of-symbol_code Symbol.m2 = refl
symbol_of-symbol_code Symbol.h1 = refl
symbol_of-symbol_code Symbol.h2 = refl
symbol_of-symbol_code Symbol.wild = refl

symbol_eq_sound : (a b : Symbol) → symbol_eq a b ≡ true → a ≡ b
symbol_eq_sound a b h =
    sym (symbol_of-symbol_code a)
    ∙ ap symbol_of (==→eq (symbol_code a) (symbol_code b) h)
    ∙ symbol_of-symbol_code b

symbol_eq-≢ : (a b : Symbol) → symbol_eq a b ≡ false → a ≢ b
symbol_eq-≢ a b h e =
    true-false (sym (==_refl (symbol_code b)) ∙ ap (λ x. symbol_eq x b) (sym e) ∙ h)
  where
    true-false : true ≡ false → ⊥
    true-false k = cc

-- A value that continues a symbol is that symbol or wild, and one that does not is neither.
continues-true :
    (symbol value : Symbol)
    → continues symbol value ≡ true
    → (value ≡ symbol) ⊎ (value ≡ Symbol.wild)
continues-true symbol value h = elim (Bool-cases (symbol_eq value symbol)) [
  | inl e ↦ inl (symbol_eq_sound value symbol e)
  | inr n ↦ elim (Bool-cases (symbol_eq value Symbol.wild)) [
    | inl e ↦ inr (symbol_eq_sound value Symbol.wild e)
    | inr m ↦ absurd (ground arith)
  ]
]

continues-false :
    (symbol value : Symbol)
    → continues symbol value ≡ false
    → (value ≢ symbol) × (value ≢ Symbol.wild)
continues-false symbol value h = elim (Bool-cases (symbol_eq value symbol)) [
  | inl e ↦ absurd (ground arith)
  | inr n ↦ (
    symbol_eq-≢ value symbol n,
    λ w. elim (Bool-cases (symbol_eq symbol Symbol.wild)) [
      | inl e ↦ symbol_eq-≢ value symbol n (w ∙ sym (symbol_eq_sound symbol Symbol.wild e))
      | inr m ↦
          let stands : symbol_eq value Symbol.wild ≡ true = ap (λ x. symbol_eq x Symbol.wild) w in
          absurd (ground arith)
    ],
  )
]

IsRun-suc :
    (symbol value : Symbol) (values : List Symbol) (n : ℕ)
    → continues symbol value ≡ true
    → IsRun symbol values n
    → IsRun symbol (value ∷ values) (suc n)
IsRun-suc symbol value values n h (low, prefix, next) =
    (omega arith, (continues-true symbol value h, prefix), next)

some-injective {ℓ} : {A : Type ℓ} {x y : A} → some x ≡ some y → x ≡ y
some-injective h = cc

run_of-suc :
    (symbol value : Symbol) (values : List Symbol)
    → continues symbol value ≡ true
    → run_of symbol (value ∷ values) ≡ suc (run_of symbol values)
unfolding run_of
run_of-suc symbol value values h = rw h refl

run_of-stop :
    (symbol value : Symbol) (values : List Symbol)
    → continues symbol value ≡ false
    → run_of symbol (value ∷ values) ≡ 0
unfolding run_of
run_of-stop symbol value values h = rw h refl

-- The run of a symbol is the longest prefix of the line whose values each are the symbol or wild.
pub run_of-IsRun :
    (symbol : Symbol) (values : List Symbol) → IsRun symbol values (run_of symbol values)
unfolding run_of
run_of-IsRun symbol [] = (omega arith, tt, λ value h. cc)
run_of-IsRun symbol (value ∷ values) = elim (Bool-cases (continues symbol value)) [
  | inl h ↦
      subst (IsRun symbol (value ∷ values)) (sym (run_of-suc symbol value values h))
        (IsRun-suc symbol value values (run_of symbol values) h (run_of-IsRun symbol values))
  | inr h ↦ subst (IsRun symbol (value ∷ values)) (sym (run_of-stop symbol value values h)) (
    omega arith,
    tt,
    λ (v : Symbol) e.
        continues-false symbol v (subst (λ x. continues symbol x ≡ false) (some-injective e) h),
  )
]
