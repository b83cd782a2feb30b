-- ===== src/Slot/Returns.antt =====
-- The errors of `resolve` in internal/games/slot/slot.go.
use momiao.Base.{
  ℕ, zero, suc, ◌+◌, ◌-◌, ◌*◌, ◌/◌, ◌≤◌, ◌<◌, ◌≡◌, refl, ap, ◌∙◌, List, [], ◌∷◌, arith, ltb, false,
  Bool, ◌&&◌, ◌||◌, All, not,
}
use momiao.Base.Sums.{sum_by}
use momiao.Base.Int.{ℤ, pos, pos_part, ltb_ℤ}
use momiao.Slot.Types.{
  units_per_chip, max_int64, Symbol, Config, LineResult, Result, Error, Fallible, returned, ◌>>=◌,
  ◌>>◌, fail_if, >>=-eq-returned, fail_if-eq-returned,
}
use momiao.Slot.Resolve.{
  maximum_of, is_whole_chips, validate_wager, grid_of, line_result, pay_lines, resolve, result_of,
}
use native.Mathlib.Nat.{mul-add, mul-le-mul_left, le-div_iff_mul-le}

abbrev Payouts : ℕ → ℕ → ℕ → List LineResult → Type 0
Payouts stake total sum results =
    (sum ≡ total + stake * sum_by (λ (r : LineResult). r.multiplier) results)
    × (sum ≤ max_int64)
    × All
        (λ (r : LineResult). (r.payout_units ≡ stake * r.multiplier) × (r.line_stake_units ≡ stake))
        results

abbrev Paid : Type 0
Paid = ℕ × List LineResult

-- The records of a round's lines before any is paid.
abbrev pub line_results : Config → List (List Symbol) → ℕ → ℕ → List (List ℕ) → List LineResult
line_results c grid stake i [] = []
line_results c grid stake i (line ∷ lines) =
    line_result c grid stake i line ∷ line_results c grid stake (i + 1) lines

guards-pass :
    (a b : Bool) {A : Type 0} (e : Error) (m : Fallible A)
    → a ≡ false
    → b ≡ false
    → (fail_if a e >> fail_if b e >> m) ≡ m
guards-pass a b e m h g = rw (h, g) refl

product-passes :
    (stake m : ℕ) → stake * m ≤ max_int64 → (ltb 0 m && ltb (max_int64 / m) stake) ≡ false
product-passes stake zero h = ground arith
product-passes stake (suc m) h =
    let g : stake ≤ max_int64 / suc m =
      (le-div_iff_mul-le {k = suc m} {x = stake} {y = max_int64} (omega arith)).1 h in
    ground arith

room-passes :
    (total payout : ℕ) → total + payout ≤ max_int64 → ltb (max_int64 - payout) total ≡ false
room-passes total payout h = ground arith

-- A total that is within an int64 with everything still to be paid is paid.
pay_lines-returns :
    (c : Config) (grid : List (List Symbol)) (stake i total : ℕ) (lines : List (List ℕ))
    → total + stake * sum_by (λ (r : LineResult). r.multiplier) (line_results c grid stake i lines)
      ≤ max_int64
    → (sum : ℕ) × (pay_lines c grid stake i total lines
        ≡ returned (sum, line_results c grid stake i lines))
unfolding pay_lines line_result
pay_lines-returns c grid stake i total [] h = (total, refl)
pay_lines-returns c grid stake i total (line ∷ lines) h =
    let r : LineResult = line_result c grid stake i line in
    let later : ℕ =
      sum_by (λ (l : LineResult). l.multiplier) (line_results c grid stake (i + 1) lines) in
    let split : stake * (r.multiplier + later) ≡ r.payout_units + stake * later =
      mul-add stake r.multiplier later in
    let whole : total + stake * (r.multiplier + later) ≤ max_int64 = h in
    let (sum, e) =
      pay_lines-returns c grid stake (i + 1) (total + r.payout_units) lines
        (omega (arith, split, whole)) in
    (
      sum,
      guards-pass _ _ Error.integer_overflow _
            (product-passes stake r.multiplier (omega (arith, split, whole)))
            (room-passes total r.payout_units (omega (arith, split, whole)))
          ∙ ap (λ (x : Fallible Paid). x >>= λ p. returned (p.0, r ∷ p.1)) e,
    )

validate_wager-bounds :
    (wager : ℤ) (c : Config) {u : Unit {0}}
    → validate_wager wager c ≡ returned u
    → pos_part wager / 10 ≤ max_int64 / maximum_of c
unfolding validate_wager
validate_wager-bounds wager c e =
    let (_, _, e₁) =
      >>=-eq-returned
        (fail_if (ltb_ℤ wager (pos (10 * units_per_chip)) || not (is_whole_chips wager))
          Error.invalid_wager)
        (λ (u : Unit {0}).
          fail_if (ltb (max_int64 / maximum_of c) (pos_part wager / 10)) Error.integer_overflow)
        e in
    let g : ltb (max_int64 / maximum_of c) (pos_part wager / 10) ≡ false =
      fail_if-eq-returned _ _ e₁ in
    ground arith

maximum_of-positive : (c : Config) → 0 < maximum_of c
unfolding maximum_of
maximum_of-positive c = ground arith

-- A slot round with a valid wager and valid stops resolves, with no overflow, when the
-- multipliers of its lines sum to no more than the maximum of its configuration.
pub resolve-returns :
    (wager : ℤ) (stops : List ℤ) (c : Config) (grid : List (List Symbol)) {u : Unit {0}}
    → validate_wager wager c ≡ returned u
    → grid_of 0 c.reel_strips stops ≡ returned grid
    → sum_by
        (λ (r : LineResult). r.multiplier)
        (line_results c grid (pos_part wager / 10) 0 c.paylines)
      ≤ maximum_of c
    → (r : Result) × (resolve wager stops c ≡ returned r)
      × (r.lines ≡ line_results c grid (pos_part wager / 10) 0 c.paylines)
unfolding resolve
resolve-returns wager stops c grid e g h =
    let stake : ℕ = pos_part wager / 10 in
    let within : stake * maximum_of c ≤ max_int64 =
      (le-div_iff_mul-le (maximum_of-positive c)).0 (validate_wager-bounds wager c e) in
    let (sum, paid) =
      pay_lines-returns c grid stake 0 0 c.paylines
        (omega (arith, within, mul-le-mul_left stake h)) in
    (
      result_of (pos_part wager) stops grid (sum, line_results c grid stake 0 c.paylines),
      rw (e, g, paid) refl,
      refl,
    )
