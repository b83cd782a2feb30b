-- ===== src/Slot/Payout.antt =====
-- The amounts of `resolve` in internal/games/slot/slot.go.
use momiao.Base.{
  ℕ, zero, suc, ◌+◌, ◌-◌, ◌*◌, ◌/◌, ◌≤◌, ◌<◌, ◌≡◌, refl, ap, ◌∙◌, subst, List, [], ◌∷◌, ◌⊎◌, arith,
  ltb, length, false, ◌&&◌, All, String,
}
use momiao.Base.Sums.{sum_by}
use momiao.Base.Int.{ℤ, pos_part, sub_ℕ}
use momiao.Slot.Types.{
  max_int64, Symbol, Config, LineResult, Result, Error, Fallible, returned, ◌>>=◌, ◌>>◌, fail_if,
  >>=-eq-returned, fail_if-eq-returned, returned-injective,
}
use momiao.Slot.Resolve.{validate_wager, grid_of, line_result, pay_lines, class_of, resolve}
use native.Mathlib.Nat.{mul-add, le-div_iff_mul-le}

abbrev Payouts : ℕ → ℕ → ℕ → List LineResult → Type 0
Payouts stake total sum results =
    (sum ≡ total + stake * sum_by (λ (r : LineResult). r.multiplier) results)
    × (sum ≤ max_int64)
    × All
        (λ (r : LineResult). (r.payout_units ≡ stake * r.multiplier) × (r.line_stake_units ≡ stake))
        results

-- The guard before a product keeps it within an int64.
product_fits :
    (stake m : ℕ) → (ltb 0 m && ltb (max_int64 / m) stake) ≡ false → stake * m ≤ max_int64
product_fits stake zero h = omega arith
product_fits stake (suc m) h =
    let g : stake ≤ max_int64 / suc m = ground arith in
    (le-div_iff_mul-le {k = suc m} {x = stake} {y = max_int64} (omega arith)).0 g

payout_sum :
    (stake total payout m rest sum : ℕ)
    → payout ≡ stake * m
    → sum ≡ total + payout + stake * rest
    → sum ≡ total + stake * (m + rest)
payout_sum stake total payout m rest sum h e = omega (arith, h, e, mul-add stake m rest)

abbrev Paid : Type 0
Paid = ℕ × List LineResult

pay_lines-Payouts :
    (c : Config) (grid : List (List Symbol)) (stake i total : ℕ) (lines : List (List ℕ)) (sum : ℕ)
    (results : List LineResult)
    → total ≤ max_int64
    → pay_lines c grid stake i total lines ≡ returned (sum, results)
    → Payouts stake total sum results × (length results ≡ length lines)
unfolding pay_lines line_result
pay_lines-Payouts c grid stake i total [] sum results h e =
    let p : Paid = (total, []) in
    let q : p ≡ (sum, results) = returned-injective e in
    subst (λ (x : Paid). Payouts stake total x.0 x.1 × (length x.1 ≡ 0)) q
      ((omega arith, h, tt), refl)
pay_lines-Payouts c grid stake i total (line ∷ lines) sum results h e =
    let r : LineResult = line_result c grid stake i line in
    let rest : ℕ × List LineResult → Fallible (ℕ × List LineResult) =
      λ p. returned (p.0, r ∷ p.1) in
    let (_, first, e₁) =
      >>=-eq-returned
        (fail_if (ltb 0 (r.multiplier) && ltb (max_int64 / r.multiplier) stake)
          Error.integer_overflow)
        (λ (u : Unit {0}).
          fail_if (ltb (max_int64 - r.payout_units) total) Error.integer_overflow
          >> (pay_lines c grid stake (i + 1) (total + r.payout_units) lines >>= rest))
        e in
    let (_, second, e₂) =
      >>=-eq-returned (fail_if (ltb (max_int64 - r.payout_units) total) Error.integer_overflow)
        (λ (u : Unit {0}). pay_lines c grid stake (i + 1) (total + r.payout_units) lines >>= rest)
        e₁ in
    let ((sum', results'), e₃, e₄) =
      >>=-eq-returned (pay_lines c grid stake (i + 1) (total + r.payout_units) lines) rest e₂ in
    let fits : r.payout_units ≤ max_int64 =
      product_fits stake r.multiplier (fail_if-eq-returned _ _ first) in
    let room : total + r.payout_units ≤ max_int64 =
      let g : ltb (max_int64 - r.payout_units) total ≡ false = fail_if-eq-returned _ _ second in
      ground arith in
    let ((total_eq, bound, pays), n) =
      pay_lines-Payouts c grid stake (i + 1) (total + r.payout_units) lines sum' results' room e₃ in
    let q : (sum', r ∷ results') ≡ (sum, results) = returned-injective e₄ in
    subst (λ (x : Paid). Payouts stake total x.0 x.1 × (length x.1 ≡ suc (length lines))) q
      (
        (
          payout_sum stake total r.payout_units r.multiplier _ sum' refl total_eq,
          bound,
          ((refl, refl), pays),
        ),
        ap suc n,
      )

-- The class and its detail of a payout against its wager.
abbrev IsClassOf : ℕ → ℕ → String × String → Type 0
IsClassOf wager total class =
    ((class ≡ ("LOSS", "NO_WIN")) × (total ≡ 0))
    ⊎ ((class ≡ ("LOSS", "PARTIAL_RETURN")) × (0 < total) × (total < wager))
    ⊎ ((class ≡ ("BREAK_EVEN", "BREAK_EVEN")) × (total ≡ wager))
    ⊎ ((class ≡ ("WIN", "WIN")) × (wager < total))

class_of-IsClassOf : (wager total : ℕ) → IsClassOf wager total (class_of wager total)
unfolding class_of
class_of-IsClassOf wager total = ground arith

-- A round's amounts: the stake of each line is a tenth of the wager, each payline has one record,
-- which pays the stake times its multiplier, and the total is the stake times the sum of the
-- multipliers, within an int64; the net change and the class compare it with the wager.
abbrev pub IsPaid : ℕ → Config → Result → Type 0
IsPaid wager c r =
    (r.line_stake_units ≡ wager / 10)
    × (length r.lines ≡ length c.paylines)
    × All
        (λ (l : LineResult).
          (l.payout_units ≡ r.line_stake_units * l.multiplier)
          × (l.line_stake_units ≡ r.line_stake_units))
        r.lines
    × (r.total_payout_units
        ≡ r.line_stake_units * sum_by (λ (l : LineResult). l.multiplier) r.lines)
    × (r.total_payout_units ≤ max_int64)
    × (r.net_change_units ≡ sub_ℕ r.total_payout_units wager)
    × IsClassOf wager r.total_payout_units (r.class, r.detail)

-- A slot round that resolves has a tenth of the wager as the stake of each line, one record for
-- each payline that pays the stake times its multiplier, a total of the stake times the sum of
-- the multipliers, within an int64, and the net change and class that compare the total with the
-- wager.
pub resolve-IsPaid :
    (wager : ℤ) (stops : List ℤ) (c : Config) (r : Result)
    → resolve wager stops c ≡ returned r
    → IsPaid (pos_part wager) c r
unfolding resolve
resolve-IsPaid wager stops c r e =
    let (_, valid, e₁) = >>=-eq-returned (validate_wager wager c) _ e in
    let (grid, seen, e₂) = >>=-eq-returned (grid_of 0 c.reel_strips stops) _ e₁ in
    let ((total, lines), paid, e₃) =
      >>=-eq-returned (pay_lines c grid (pos_part wager / 10) 0 0 c.paylines) _ e₂ in
    let ((sum_eq, bound, pays), n) =
      pay_lines-Payouts c grid (pos_part wager / 10) 0 0 c.paylines total lines (omega arith)
        paid in
    subst (IsPaid (pos_part wager) c) (returned-injective e₃)
      (refl, n, pays, sum_eq ∙ omega arith, bound, refl, class_of-IsClassOf (pos_part wager) total)
