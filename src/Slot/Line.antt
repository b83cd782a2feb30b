-- ===== src/Slot/Line.antt =====
-- The best reading of a line in `evaluateLine` of internal/games/slot/slot.go.
use momiao.Base.{
  ℕ, zero, suc, subst, ◌∙◌, ◌-◌, ◌≤◌, ◌≡◌, refl, sym, List, [], ◌∷◌, ◌⊎◌, inl, inr, arith, ltb,
  get_or, length, get_elem?, some, true, false, Bool-cases, if◌then◌else◌,
}
use momiao.Slot.Types.{Symbol, Config, LineResult}
use momiao.Slot.Resolve.{run_of, no_line, consider, best_line, evaluate_line}

-- The multiplier of a reading: its run counts from three on.
abbrev pub reading : List ℕ → List Symbol → Symbol → ℕ
reading pays values symbol =
    if ltb (run_of symbol values) 3 then 0 else get_or pays (run_of symbol values - 3) 0

consider-multiplier :
    (pays : List ℕ) (values : List Symbol) (best : LineResult) (symbol : Symbol)
    → best.multiplier ≤ (consider pays values best symbol).multiplier
      × reading pays values symbol ≤ (consider pays values best symbol).multiplier
unfolding consider
consider-multiplier pays values best symbol = ground arith

best_line-grows :
    (symbols : List Symbol) (table : List (List ℕ)) (values : List Symbol) (best : LineResult)
    → best.multiplier ≤ (best_line symbols table values best).multiplier
unfolding best_line
best_line-grows [] table values best = omega arith
best_line-grows (symbol ∷ symbols) (pays ∷ table) values best = omega (
  arith,
  best_line-grows symbols table values (consider pays values best symbol),
  consider-multiplier pays values best symbol,
)
best_line-grows (symbol ∷ symbols) [] values best = omega (
  arith,
  best_line-grows symbols [] values (consider [] values best symbol),
  consider-multiplier [] values best symbol,
)

best_line-maximal :
    (symbols : List Symbol) (table : List (List ℕ)) (values : List Symbol) (best : LineResult)
    (i : ℕ) {symbol : Symbol} {pays : List ℕ}
    → get_elem? symbols i ≡ some symbol
    → get_elem? table i ≡ some pays
    → reading pays values symbol ≤ (best_line symbols table values best).multiplier
unfolding best_line
best_line-maximal [] table values best i h e = cc
best_line-maximal (s ∷ symbols) [] values best i h e = cc
best_line-maximal (s ∷ symbols) (p ∷ table) values best zero {symbol = s'} {pays = p'} h e =
    let a : reading p values s ≤ (consider p values best s).multiplier =
      (consider-multiplier p values best s).1 in
    let b : reading p' values s' ≡ reading p values s = cc in
    omega (arith, a, b, best_line-grows symbols table values (consider p values best s))
best_line-maximal (s ∷ symbols) (p ∷ table) values best (suc i) h e =
    best_line-maximal symbols table values (consider p values best s) i h e

-- A result that reads the line as the symbol of one row, with its run and its multiplier.
abbrev pub IsReadingOf : List Symbol → List (List ℕ) → List Symbol → LineResult → Type 0
IsReadingOf symbols table values result =
    (i : ℕ) × (pays : List ℕ) × (get_elem? symbols i ≡ some (result.symbol))
    × (get_elem? table i ≡ some pays)
    × (result.match_length ≡ run_of (result.symbol) values)
    × (3 ≤ result.match_length)
    × (result.multiplier ≡ get_or pays (result.match_length - 3) 0)

IsReadingOf-suc :
    (s : Symbol) (p : List ℕ) (symbols : List Symbol) (table : List (List ℕ)) (values : List Symbol)
    (result : LineResult)
    → IsReadingOf symbols table values result
    → IsReadingOf (s ∷ symbols) (p ∷ table) values result
IsReadingOf-suc s p symbols table values result (i, pays, a, b, d, e, f) =
    (suc i, pays, a, b, d, e, f)

-- The result that replaces the best one.
abbrev better_line : List ℕ → List Symbol → Symbol → LineResult
better_line pays values symbol = record no_line {
  symbol = symbol;
  match_length = run_of symbol values;
  multiplier = get_or pays (run_of symbol values - 3) 0;
}

consider-better :
    (p : List ℕ) (values : List Symbol) (best : LineResult) (s : Symbol)
    → ltb (run_of s values) 3 ≡ false
    → ltb (best.multiplier) (get_or p (run_of s values - 3) 0) ≡ true
    → consider p values best s ≡ better_line p values s
unfolding consider
consider-better p values best s h g = rw (h, g) refl

consider-cases :
    (s : Symbol) (p : List ℕ) (symbols : List Symbol) (table : List (List ℕ)) (values : List Symbol)
    (best : LineResult)
    → (consider p values best s ≡ best)
      ⊎ IsReadingOf (s ∷ symbols) (p ∷ table) values (consider p values best s)
unfolding consider
consider-cases s p symbols table values best = elim (Bool-cases (ltb (run_of s values) 3)) [
  | inl h ↦ inl (rw h refl)
  | inr h ↦ elim (Bool-cases (ltb (best.multiplier) (get_or p (run_of s values - 3) 0))) [
    | inl g ↦ inr (
        subst (IsReadingOf (s ∷ symbols) (p ∷ table) values)
          (sym (consider-better p values best s h g))
          (zero, p, refl, refl, refl, ground arith, refl))
    | inr g ↦ inl (rw (h, g) refl)
  ]
]

best_line-cases :
    (symbols : List Symbol) (table : List (List ℕ)) (values : List Symbol) (best : LineResult)
    → length symbols ≡ length table
    → (best_line symbols table values best ≡ best)
      ⊎ IsReadingOf symbols table values (best_line symbols table values best)
unfolding best_line
best_line-cases [] table values best e = inl refl
best_line-cases (s ∷ symbols) [] values best e = ground arith
best_line-cases (s ∷ symbols) (p ∷ table) values best e =
    let next : LineResult = consider p values best s in
    elim (best_line-cases symbols table values next (omega arith)) [
      | inl same ↦ elim (consider-cases s p symbols table values best) [
        | inl old ↦ inl (same ∙ old)
        | inr new ↦ inr (subst (IsReadingOf (s ∷ symbols) (p ∷ table) values) (sym same) new)
      ]
      | inr later ↦
          inr (IsReadingOf-suc s p symbols table values (best_line symbols table values next) later)
    ]

-- With one paytable row for each symbol, a slot line pays at least what a symbol of the
-- configuration with its run would, and its result is empty or is the reading of one symbol, with
-- its run of at least three and the multiplier of the paytable.
pub evaluate_line-best :
    (c : Config) (values : List Symbol) (i : ℕ) (symbol : Symbol) (pays : List ℕ)
    → length c.symbols ≡ length c.paytable
    → get_elem? c.symbols i ≡ some symbol
    → get_elem? c.paytable i ≡ some pays
    → (reading pays values symbol ≤ (evaluate_line values c).multiplier)
      × ((evaluate_line values c ≡ no_line)
          ⊎ IsReadingOf c.symbols c.paytable values (evaluate_line values c))
unfolding evaluate_line
evaluate_line-best c values i symbol pays e h g = (
  best_line-maximal c.symbols c.paytable values no_line i h g,
  best_line-cases c.symbols c.paytable values no_line e,
)
