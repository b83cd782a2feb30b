-- ===== src/Slot/Tests.antt =====
-- Sample rounds of the slot machine.
use momiao.Base.{◌*◌, ◌≡◌, ◌≤◌, refl, Bool, true, false, List, [], ◌∷◌, some, arith, ◌⊎◌}
use momiao.Base.Int.{ℤ, pos}
use momiao.Base.Sums.{sum_by}
use momiao.Slot.Types.{units_per_chip, Symbol, Result, LineResult, Fallible, returned, failed}
use momiao.Slot.Configs.{frozen_config, fair_config, frequent_config, is_shaped}
use momiao.Slot.Resolve.{
  no_line, maximum_of, validate_wager, run_of, consider, best_line, evaluate_line, window, grid_of,
  line_values, line_result, pay_lines, class_of, resolve, Sampler, domains, draw_stops, spin_with,
}
use momiao.Slot.Runs.{IsRun, run_of-IsRun}
use momiao.Slot.Line.{evaluate_line-best, reading, IsReadingOf}
use momiao.Slot.Payout.{resolve-IsPaid, IsPaid}
use momiao.Slot.Returns.{resolve-returns, line_results}
use momiao.Slot.Sampling.{spin_with-Drawn, Drawn}

shapes :
    (is_shaped frozen_config ≡ true)
    × (is_shaped fair_config ≡ true)
    × (is_shaped frequent_config ≡ true)
shapes = (refl, refl, refl)

-- A wager of 20 chips.
abbrev wager : ℤ
wager = pos (20 * units_per_chip)

abbrev stops : List ℤ
stops = pos 5 ∷ pos 7 ∷ pos 2 ∷ pos 4 ∷ pos 0 ∷ []

unfoldable value_of : Fallible Result → Result
value_of (returned r) = r
value_of (failed e) = record {
  stops = [];
  grid = [];
  lines = [];
  total_wager_units = 0;
  line_stake_units = 0;
  total_payout_units = 0;
  net_change_units = pos 0;
  class = "";
  detail = "";
}

abbrev is_returned {ℓ} : {A : Type ℓ} → Fallible A → Bool
is_returned (returned r) = true
is_returned (failed e) = false

value_of-eq : (m : Fallible Result) → is_returned m ≡ true → m ≡ returned (value_of m)
unfolding value_of
value_of-eq (returned r) h = refl
value_of-eq (failed e) h = cc

abbrev round : Result
round = value_of (resolve wager stops frozen_config)

-- Line payouts of 50 line stakes.
round_total : round.total_payout_units ≡ 50 * (2 * units_per_chip)
unfolding value_of resolve validate_wager maximum_of grid_of window pay_lines line_result
    line_values evaluate_line best_line consider run_of class_of
round_total = refl

round_returns : is_returned (resolve wager stops frozen_config) ≡ true
unfolding resolve validate_wager maximum_of grid_of window pay_lines line_result line_values
    evaluate_line best_line consider run_of class_of
round_returns = refl

round-eq : resolve wager stops frozen_config ≡ returned round
round-eq = value_of-eq (resolve wager stops frozen_config) round_returns

resolve-IsPaid_example : IsPaid (20 * units_per_chip) frozen_config round
resolve-IsPaid_example = resolve-IsPaid wager stops frozen_config round round-eq

abbrev grid : List (List Symbol)
grid = round.grid

grid-eq : grid_of 0 frozen_config.reel_strips stops ≡ returned grid
unfolding value_of resolve validate_wager maximum_of grid_of window pay_lines line_result
    line_values evaluate_line best_line consider run_of class_of
grid-eq = refl

wager_valid : validate_wager wager frozen_config ≡ returned tt
unfolding validate_wager maximum_of
wager_valid = refl

lines_small :
    sum_by
      (λ (r : LineResult). r.multiplier)
      (line_results frozen_config grid (2 * units_per_chip) 0 frozen_config.paylines)
    ≤ maximum_of frozen_config
unfolding value_of resolve validate_wager maximum_of grid_of window pay_lines line_result
    line_values evaluate_line best_line consider run_of class_of
lines_small = omega arith

resolve-returns_example :
    (r : Result) × (resolve wager stops frozen_config ≡ returned r)
    × (r.lines ≡ line_results frozen_config grid (2 * units_per_chip) 0 frozen_config.paylines)
resolve-returns_example =
    resolve-returns wager stops frozen_config grid wager_valid grid-eq lines_small

-- Three L1 with a wild, which pays for a run of four.
abbrev values : List Symbol
values = Symbol.l1 ∷ Symbol.wild ∷ Symbol.l1 ∷ Symbol.l1 ∷ Symbol.h2 ∷ []

line_multiplier : (evaluate_line values frozen_config).multiplier ≡ 15
unfolding evaluate_line best_line consider run_of
line_multiplier = refl

evaluate_line-best_example :
    (reading (4 ∷ 15 ∷ 50 ∷ []) values Symbol.l1 ≤ (evaluate_line values frozen_config).multiplier)
    × ((evaluate_line values frozen_config ≡ no_line)
        ⊎ IsReadingOf frozen_config.symbols frozen_config.paytable values
            (evaluate_line values frozen_config))
evaluate_line-best_example =
    evaluate_line-best frozen_config values 0 Symbol.l1 (4 ∷ 15 ∷ 50 ∷ []) refl refl refl

-- A sampler that always draws the second stop.
abbrev sampler : Sampler
sampler domain n = returned 1

abbrev spun : Result
spun = value_of (spin_with wager (some sampler) frozen_config)

spin_returns : is_returned (spin_with wager (some sampler) frozen_config) ≡ true
unfolding spin_with draw_stops resolve validate_wager maximum_of grid_of window pay_lines
    line_result line_values evaluate_line best_line consider run_of class_of
spin_returns = refl

spin_with-Drawn_example :
    (ss : List ℤ) × Drawn sampler domains ss × (resolve wager ss frozen_config ≡ returned spun)
spin_with-Drawn_example =
    spin_with-Drawn wager sampler frozen_config spun
      (value_of-eq (spin_with wager (some sampler) frozen_config) spin_returns)

run_of-IsRun_example : IsRun Symbol.l1 values (run_of Symbol.l1 values)
run_of-IsRun_example = run_of-IsRun Symbol.l1 values
