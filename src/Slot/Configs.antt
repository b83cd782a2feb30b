-- ===== src/Slot/Configs.antt =====
-- The three configurations of internal/games/slot/slot.go: the frozen one and the two that change
-- cells of its strips and paytable.
use momiao.Base.{ℕ, zero, suc, Bool, ◌&&◌, List, [], ◌∷◌, length, all, ltb, ◌==◌}
use momiao.Slot.Types.{Symbol, Config}

abbrev reel_strip_1 : List Symbol
reel_strip_1 =
    (Symbol.l3 ∷ Symbol.l2 ∷ Symbol.l3 ∷ Symbol.m1 ∷ Symbol.l2 ∷ Symbol.l1 ∷ Symbol.l3 ∷ Symbol.l2
      ∷ Symbol.m2 ∷ Symbol.h2 ∷ Symbol.l1 ∷ Symbol.m2 ∷ Symbol.l3 ∷ Symbol.m1 ∷ Symbol.h1
      ∷ Symbol.l2 ∷ Symbol.l1 ∷ Symbol.h1 ∷ Symbol.l1 ∷ Symbol.m2 ∷ Symbol.l2 ∷ Symbol.l3
      ∷ Symbol.l1 ∷ Symbol.m1 ∷ Symbol.wild ∷ Symbol.l1 ∷ Symbol.l2 ∷ Symbol.l1 ∷ Symbol.l2
      ∷ Symbol.h2 ∷ Symbol.m1 ∷ Symbol.l1 ∷ [])

abbrev reel_strip_2 : List Symbol
reel_strip_2 =
    (Symbol.l2 ∷ Symbol.m2 ∷ Symbol.l1 ∷ Symbol.l2 ∷ Symbol.l3 ∷ Symbol.l2 ∷ Symbol.wild ∷ Symbol.l1
      ∷ Symbol.h1 ∷ Symbol.l1 ∷ Symbol.m1 ∷ Symbol.l3 ∷ Symbol.m1 ∷ Symbol.h2 ∷ Symbol.m1
      ∷ Symbol.l2 ∷ Symbol.l1 ∷ Symbol.l3 ∷ Symbol.l1 ∷ Symbol.l3 ∷ Symbol.h1 ∷ Symbol.l1
      ∷ Symbol.h2 ∷ Symbol.l3 ∷ Symbol.l1 ∷ Symbol.l2 ∷ Symbol.m2 ∷ Symbol.l2 ∷ Symbol.l1
      ∷ Symbol.l2 ∷ Symbol.m1 ∷ Symbol.m2 ∷ [])

abbrev reel_strip_3 : List Symbol
reel_strip_3 =
    (Symbol.l2 ∷ Symbol.l3 ∷ Symbol.l1 ∷ Symbol.m2 ∷ Symbol.l1 ∷ Symbol.h1 ∷ Symbol.l3 ∷ Symbol.l1
      ∷ Symbol.m1 ∷ Symbol.m2 ∷ Symbol.l2 ∷ Symbol.m1 ∷ Symbol.l3 ∷ Symbol.l1 ∷ Symbol.l2
      ∷ Symbol.l3 ∷ Symbol.h2 ∷ Symbol.l2 ∷ Symbol.l1 ∷ Symbol.m1 ∷ Symbol.l2 ∷ Symbol.l1
      ∷ Symbol.h1 ∷ Symbol.l2 ∷ Symbol.l1 ∷ Symbol.h2 ∷ Symbol.m1 ∷ Symbol.l3 ∷ Symbol.l1
      ∷ Symbol.l2 ∷ Symbol.m2 ∷ Symbol.wild ∷ [])

abbrev reel_strip_4 : List Symbol
reel_strip_4 =
    (Symbol.m1 ∷ Symbol.l3 ∷ Symbol.wild ∷ Symbol.l2 ∷ Symbol.l1 ∷ Symbol.h2 ∷ Symbol.l2 ∷ Symbol.m2
      ∷ Symbol.l1 ∷ Symbol.m1 ∷ Symbol.l1 ∷ Symbol.l3 ∷ Symbol.h1 ∷ Symbol.l2 ∷ Symbol.l3
      ∷ Symbol.m2 ∷ Symbol.h1 ∷ Symbol.l1 ∷ Symbol.l2 ∷ Symbol.l3 ∷ Symbol.m1 ∷ Symbol.l1
      ∷ Symbol.l3 ∷ Symbol.l1 ∷ Symbol.l2 ∷ Symbol.h2 ∷ Symbol.l1 ∷ Symbol.m1 ∷ Symbol.m2
      ∷ Symbol.l2 ∷ Symbol.l1 ∷ Symbol.l2 ∷ [])

abbrev reel_strip_5 : List Symbol
reel_strip_5 =
    (Symbol.l1 ∷ Symbol.h2 ∷ Symbol.l2 ∷ Symbol.l1 ∷ Symbol.l3 ∷ Symbol.l2 ∷ Symbol.l3 ∷ Symbol.l1
      ∷ Symbol.h1 ∷ Symbol.l2 ∷ Symbol.l1 ∷ Symbol.l2 ∷ Symbol.m1 ∷ Symbol.l1 ∷ Symbol.wild
      ∷ Symbol.h2 ∷ Symbol.m1 ∷ Symbol.l2 ∷ Symbol.h1 ∷ Symbol.l1 ∷ Symbol.l2 ∷ Symbol.l1
      ∷ Symbol.m1 ∷ Symbol.m2 ∷ Symbol.l3 ∷ Symbol.m1 ∷ Symbol.l2 ∷ Symbol.l1 ∷ Symbol.m2
      ∷ Symbol.l3 ∷ Symbol.m2 ∷ Symbol.l3 ∷ [])

abbrev pub frozen_config : Config
frozen_config = record {
  reel_strip_version = "slot-strips-v1";
  payline_version = "slot-paylines-v1";
  paytable_version = "slot-paytable-v1";
  symbols =
      (Symbol.l1 ∷ Symbol.l2 ∷ Symbol.l3 ∷ Symbol.m1 ∷ Symbol.m2 ∷ Symbol.h1 ∷ Symbol.h2
        ∷ Symbol.wild ∷ []);
  reel_strips = (reel_strip_1 ∷ reel_strip_2 ∷ reel_strip_3 ∷ reel_strip_4 ∷ reel_strip_5 ∷ []);
  paylines =
      ((1 ∷ 1 ∷ 1 ∷ 1 ∷ 1 ∷ [])
        ∷ (0 ∷ 0 ∷ 0 ∷ 0 ∷ 0 ∷ [])
        ∷ (2 ∷ 2 ∷ 2 ∷ 2 ∷ 2 ∷ [])
        ∷ (0 ∷ 1 ∷ 2 ∷ 1 ∷ 0 ∷ [])
        ∷ (2 ∷ 1 ∷ 0 ∷ 1 ∷ 2 ∷ [])
        ∷ (0 ∷ 0 ∷ 1 ∷ 2 ∷ 2 ∷ [])
        ∷ (2 ∷ 2 ∷ 1 ∷ 0 ∷ 0 ∷ [])
        ∷ (1 ∷ 0 ∷ 0 ∷ 0 ∷ 1 ∷ [])
        ∷ (1 ∷ 2 ∷ 2 ∷ 2 ∷ 1 ∷ [])
        ∷ (2 ∷ 1 ∷ 1 ∷ 1 ∷ 0 ∷ [])
        ∷ []);
  paytable =
      ((4 ∷ 15 ∷ 50 ∷ [])
        ∷ (8 ∷ 25 ∷ 80 ∷ [])
        ∷ (10 ∷ 40 ∷ 150 ∷ [])
        ∷ (15 ∷ 60 ∷ 250 ∷ [])
        ∷ (25 ∷ 100 ∷ 500 ∷ [])
        ∷ (50 ∷ 250 ∷ 1000 ∷ [])
        ∷ (100 ∷ 500 ∷ 2500 ∷ [])
        ∷ (125 ∷ 1000 ∷ 5000 ∷ [])
        ∷ []);
}

-- xs[i] = f(xs[i]); an index out of range changes nothing.
abbrev pub update_at {ℓ} : {A : Type ℓ} → ℕ → (A → A) → List A → List A
update_at i f [] = []
update_at zero f (x ∷ xs) = f x ∷ xs
update_at (suc i) f (x ∷ xs) = x ∷ update_at i f xs

-- c.Paytable[row][column] = value
abbrev pub set_pay : ℕ → ℕ → ℕ → List (List ℕ) → List (List ℕ)
set_pay row column value table = update_at row (update_at column (λ _. value)) table

abbrev pub fair_config : Config
fair_config = record frozen_config {
  paytable_version = "slot-paytable-v2";
  paytable = set_pay 6 0 115 (set_pay 2 2 175 (set_pay 1 0 10 (frozen_config.paytable)));
}

-- for _, stop := range stops { strip[stop] = L1 }
abbrev pub set_l1 : List ℕ → List Symbol → List Symbol
set_l1 [] strip = strip
set_l1 (stop ∷ stops) strip = set_l1 stops (update_at stop (λ _. Symbol.l1) strip)

-- The same on every reel with the stops given for it.
abbrev pub set_l1_on : List (List ℕ) → List (List Symbol) → List (List Symbol)
set_l1_on [] strips = strips
set_l1_on (stops ∷ rest) [] = []
set_l1_on (stops ∷ rest) (strip ∷ strips) = set_l1 stops strip ∷ set_l1_on rest strips

abbrev pub frequent_config : Config
frequent_config = record fair_config {
  reel_strip_version = "slot-strips-v2";
  paytable_version = "slot-paytable-v3";
  reel_strips =
      set_l1_on
        ((1 ∷ 12 ∷ 29 ∷ [])
          ∷ (0 ∷ 11 ∷ 13 ∷ [])
          ∷ (0 ∷ 15 ∷ 25 ∷ [])
          ∷ (1 ∷ 5 ∷ 13 ∷ [])
          ∷ (15 ∷ 17 ∷ 24 ∷ [])
          ∷ [])
        (fair_config.reel_strips);
  paytable =
      set_pay 2 0 11
        (set_pay 1 0 11 (update_at 0 (λ _. (11 ∷ 12 ∷ 15 ∷ [])) (fair_config.paytable)));
}

-- The sizes that the source's array types state, and paylines that stay on the grid's three rows.
abbrev pub is_shaped : Config → Bool
is_shaped c =
    length (c.symbols) == 8
    && length (c.reel_strips) == 5
    && all (λ strip. length strip == 32) (c.reel_strips)
    && length (c.paylines) == 10
    && all (λ line. length line == 5 && all (λ row. ltb row 3) line) (c.paylines)
    && length (c.paytable) == 8
    && all (λ row. length row == 3) (c.paytable)
