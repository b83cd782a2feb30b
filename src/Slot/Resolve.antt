-- ===== src/Slot/Resolve.antt =====
-- The operations of internal/games/slot/slot.go: `validateWager`, `spin`, `resolve` and
-- `evaluateLine`. A sum or a product is formed after the guard that keeps it within an int64, so
-- that no operation wraps around.
use momiao.Base.{
  ℕ, suc, ◌+◌, ◌-◌, ◌*◌, ◌/◌, ◌%◌, String, Bool, false, not, ◌&&◌, ◌||◌, List, [], ◌∷◌, Option,
  none, some, ltb, leb, ◌==◌, if◌then◌else◌, get_or, map,
}
use momiao.Base.Int.{ℤ, pos, pos_part, negsuc, ltb_ℤ, sub_ℕ}
use momiao.Slot.Types.{
  units_per_chip, max_int64, max_round_line_multiplier, frequent_max_round_line_multiplier, Symbol,
  symbol_eq, Config, LineResult, Result, Error, Fallible, returned, failed, ◌>>=◌, ◌>>◌, fail_if,
}
use momiao.Slot.Configs.{frozen_config, fair_config, frequent_config}
use text.Mathlib.Text.{◌==◌ as str_eq}

-- The largest sum of line multipliers that a configuration allows for.
unfoldable pub maximum_of : Config → ℕ
maximum_of c =
    if str_eq (c.paytable_version) "slot-paytable-v3"
    then frequent_max_round_line_multiplier
    else max_round_line_multiplier

abbrev pub is_whole_chips : ℤ → Bool
is_whole_chips (pos n) = n % units_per_chip == 0
is_whole_chips (negsuc n) = false

unfoldable pub validate_wager : ℤ → Config → Fallible (Unit {0})
validate_wager wager c =
    fail_if (ltb_ℤ wager (pos (10 * units_per_chip)) || not (is_whole_chips wager))
      Error.invalid_wager
    >> fail_if (ltb (max_int64 / maximum_of c) (pos_part wager / 10)) Error.integer_overflow

-- A value extends a run of a symbol when it is that symbol or stands in for it.
abbrev pub continues : Symbol → Symbol → Bool
continues symbol value = not (
    not (symbol_eq value symbol)
    && (not (symbol_eq value Symbol.wild) || symbol_eq symbol Symbol.wild))

-- The length of the run of a symbol from the left.
unfoldable pub run_of : Symbol → List Symbol → ℕ
run_of symbol [] = 0
run_of symbol (value ∷ values) =
    let rest = run_of symbol values in if continues symbol value then suc rest else 0

abbrev pub no_line : LineResult
no_line = record {
  line_number = 0;
  symbol = Symbol.unnamed;
  match_length = 0;
  multiplier = 0;
  line_stake_units = 0;
  payout_units = 0;
}

-- One round of the loop over the symbols: a longer-paying reading replaces the best one.
unfoldable pub consider : List ℕ → List Symbol → LineResult → Symbol → LineResult
consider pays values best symbol =
    let count = run_of symbol values in
    let multiplier = get_or pays (count - 3) 0 in
    if ltb count 3
    then best
    else if ltb (best.multiplier) multiplier
    then record no_line { symbol = symbol; match_length = count; multiplier = multiplier }
    else best

-- The loop, over the symbols with their rows of the paytable.
unfoldable pub best_line : List Symbol → List (List ℕ) → List Symbol → LineResult → LineResult
best_line (symbol ∷ symbols) (pays ∷ table) values best =
    best_line symbols table values (consider pays values best symbol)
best_line (symbol ∷ symbols) [] values best =
    best_line symbols [] values (consider [] values best symbol)
best_line [] table values best = best

unfoldable pub evaluate_line : List Symbol → Config → LineResult
evaluate_line values c = best_line (c.symbols) (c.paytable) values no_line

-- The three visible symbols of a strip at a stop.
unfoldable pub window : List Symbol → ℕ → List Symbol
window strip stop =
    map (λ row. get_or strip ((stop + row + 31) % 32) Symbol.unnamed) (0 ∷ 1 ∷ 2 ∷ [])

-- The first loop of `resolve`: `reel` is the index of the first strip.
unfoldable pub grid_of : ℕ → List (List Symbol) → List ℤ → Fallible (List (List Symbol))
grid_of reel (strip ∷ strips) (stop ∷ stops) =
    fail_if (ltb_ℤ stop (pos 0) || ltb_ℤ (pos 31) stop) (Error.invalid_stop (reel + 1))
    >> (grid_of (reel + 1) strips stops >>= λ grid. returned (window strip (pos_part stop) ∷ grid))
grid_of reel [] stops = returned []
grid_of reel (strip ∷ strips) [] = returned []

-- The symbols on a payline.
unfoldable pub line_values : List (List Symbol) → List ℕ → List Symbol
line_values (column ∷ grid) (row ∷ line) = get_or column row Symbol.unnamed ∷ line_values grid line
line_values [] line = []
line_values (column ∷ grid) [] = []

-- The record of one payline.
unfoldable pub line_result : Config → List (List Symbol) → ℕ → ℕ → List ℕ → LineResult
line_result c grid stake i line =
    let result = evaluate_line (line_values grid line) c in
    record result {
      line_number = i + 1;
      line_stake_units = stake;
      payout_units = stake * result.multiplier;
    }

-- The second loop of `resolve`: the total payout and the records, from payline `i` on.
unfoldable pub pay_lines :
    Config → List (List Symbol) → ℕ → ℕ → ℕ → List (List ℕ) → Fallible (ℕ × List LineResult)
pay_lines c grid stake i total [] = returned (total, [])
pay_lines c grid stake i total (line ∷ lines) =
    let result = line_result c grid stake i line in
    fail_if (ltb 0 (result.multiplier) && ltb (max_int64 / result.multiplier) stake)
      Error.integer_overflow
    >> fail_if (ltb (max_int64 - result.payout_units) total) Error.integer_overflow
    >> (pay_lines c grid stake (i + 1) (total + result.payout_units) lines >>= λ (sum, rest).
        returned (sum, result ∷ rest))

-- The result class and its detail.
unfoldable pub class_of : ℕ → ℕ → String × String
class_of wager total =
    if total == 0
    then ("LOSS", "NO_WIN")
    else if ltb total wager
    then ("LOSS", "PARTIAL_RETURN")
    else if total == wager
    then ("BREAK_EVEN", "BREAK_EVEN")
    else ("WIN", "WIN")

-- The result of a round, from its grid, its total payout and the records of its lines.
abbrev pub result_of : ℕ → List ℤ → List (List Symbol) → ℕ × List LineResult → Result
result_of wager stops grid (total, lines) = record {
  stops = map pos_part stops;
  grid = grid;
  lines = lines;
  total_wager_units = wager;
  line_stake_units = wager / 10;
  total_payout_units = total;
  net_change_units = sub_ℕ total wager;
  class = (class_of wager total).0;
  detail = (class_of wager total).1;
}

unfoldable pub resolve : ℤ → List ℤ → Config → Fallible Result
resolve wager stops c =
    validate_wager wager c
    >> (grid_of 0 c.reel_strips stops >>= λ grid.
        pay_lines c grid (pos_part wager / 10) 0 0 c.paylines >>= λ paid.
        returned (result_of (pos_part wager) stops grid paid))

-- The caller's sampler: a domain and a bound.
abbrev pub Sampler : Type 0
Sampler = String → ℕ → Fallible ℕ

abbrev pub domains : List String
domains = ("slot:reel:1" ∷ "slot:reel:2" ∷ "slot:reel:3" ∷ "slot:reel:4" ∷ "slot:reel:5" ∷ [])

-- The loop of `spin` over the domains.
unfoldable pub draw_stops : Sampler → List String → Fallible (List ℤ)
draw_stops sample [] = returned []
draw_stops sample (domain ∷ rest) = sample domain 32 >>= λ n.
    fail_if (leb 32 n) Error.sample_out_of_range
    >> (draw_stops sample rest >>= λ stops. returned (pos n ∷ stops))

unfoldable pub spin_with : ℤ → Option Sampler → Config → Fallible Result
spin_with wager none c = validate_wager wager c >> failed Error.missing_sampler
spin_with wager (some sample) c =
    validate_wager wager c >> (draw_stops sample domains >>= λ stops. resolve wager stops c)

unfoldable pub spin : ℤ → Option Sampler → Fallible Result
spin wager sample = spin_with wager sample frozen_config

unfoldable pub spin_fair : ℤ → Option Sampler → Fallible Result
spin_fair wager sample = spin_with wager sample fair_config

unfoldable pub spin_frequent : ℤ → Option Sampler → Fallible Result
spin_frequent wager sample = spin_with wager sample frequent_config

unfoldable pub resolve_frozen : ℤ → List ℤ → Fallible Result
resolve_frozen wager stops = resolve wager stops frozen_config

unfoldable pub resolve_fair : ℤ → List ℤ → Fallible Result
resolve_fair wager stops = resolve wager stops fair_config

unfoldable pub resolve_frequent : ℤ → List ℤ → Fallible Result
resolve_frequent wager stops = resolve wager stops frequent_config
