-- ===== src/Roulette/Tables.antt =====
-- The tables that internal/roulette/devil.go plays on.
use momiao.Base.{ℕ, ◌+◌, ◌≤◌, ◌<◌, ◌≡◌, refl, Bool, true, false, List, [], arith, length}
use momiao.Roulette.Types.{Item, Seat, at, both, DevilState}
use momiao.Roulette.Load.{Source, deal_items, load, reload, alternate_first, empty_devil, new_devil}
use momiao.Roulette.Loads.{Holds, >>=-Holds, IsFair, deal_items-few, load-length}

-- What holds of both seats holds of each.
pub each : (P : Seat → Type 0) → P Seat.first_seat → P Seat.second_seat → (i : Seat) → P i
each P a b Seat.first_seat = a
each P a b Seat.second_seat = b

-- Each seat has at most four lives and holds at most four items.
pub record IsSeats (s : DevilState) : Type 0 where
  pub lives : (i : Seat) → at i s.hp ≤ 4
  pub few_items : (i : Seat) → length (at i s.items) ≤ 4

-- Both seats are alive, and neither has surrendered.
pub record IsAlive (s : DevilState) : Type 0 where
  pub alive : (i : Seat) → 1 ≤ at i s.hp
  pub staying : (i : Seat) → at i s.forfeited ≡ false

-- A table: while it is not ended, there is a next shell and both seats are alive.
pub record IsTable (s : DevilState) : Type 0 where
  pub seats : IsSeats s
  pub loaded : s.ended ≡ false → s.pointer < length s.shells
  pub playing : s.ended ≡ false → IsAlive s

abbrev pub IsTabled : {R : Type 0} → DevilState × R → Type 0
IsTabled p = IsTable p.0

-- The reloaded state, before the seats alternate.
abbrev reloaded : DevilState → List Bool → List Item → List Item → DevilState
reloaded s shells one two = record s {
  shells = shells;
  pointer = 0;
  obscured = false;
  known = both [];
  items = record { at_first = one; at_second = two };
}

reloaded-IsTable :
    (alternate : Bool) (s : DevilState) (shells : List Bool) (one two : List Item)
    → IsSeats s
    → IsAlive s
    → 0 < length shells
    → length one ≤ 4
    → length two ≤ 4
    → IsTable (alternate_first alternate (reloaded s shells one two))
unfolding alternate_first
reloaded-IsTable false s shells one two k live h a b = record {
  seats = record {
    lives = k.lives;
    few_items = each (λ i. length (at i (reloaded s shells one two).items) ≤ 4) a b;
  };
  loaded = λ _. h;
  playing = λ _. record { alive = live.alive; staying = live.staying };
}
reloaded-IsTable true s shells one two k live h a b = record {
  seats = record {
    lives = k.lives;
    few_items = each (λ i. length (at i (reloaded s shells one two).items) ≤ 4) a b;
  };
  loaded = λ _. h;
  playing = λ _. record { alive = live.alive; staying = live.staying };
}

pub reload-IsTable :
    {R : Type 0} (next : Source R) (alternate : Bool) (s : DevilState) (r : R)
    → IsFair next
    → IsSeats s
    → IsAlive s
    → Holds (IsTabled {R = R}) (reload next alternate s r)
unfolding reload
reload-IsTable {R = R} next alternate s r fair k live =
    >>=-Holds (λ (p : ℕ × R). p.0 < 4) (IsTabled {R = R}) (next r 4) _ (fair r 4 (omega arith))
      (λ n _.
        >>=-Holds (λ (p : List Bool × R). length p.0 ≡ n.0 + 5) (IsTabled {R = R})
          (load next (n.0 + 5) n.1) _ (load-length next (n.0 + 5) n.1 fair)
          (λ shells full.
            >>=-Holds (λ (p : ℕ × R). p.0 < 2) (IsTabled {R = R}) (next shells.1 2) _
              (fair shells.1 2 (omega arith))
              (λ count _.
                >>=-Holds (λ (p : List Item × R). length p.0 ≤ 4) (IsTabled {R = R})
                  (deal_items next (count.0 + 2) s.items.at_first count.1) _
                  (deal_items-few next (count.0 + 2) s.items.at_first count.1 fair
                    (k.few_items Seat.first_seat))
                  (λ one few_one.
                    >>=-Holds (λ (p : List Item × R). length p.0 ≤ 4) (IsTabled {R = R})
                      (deal_items next (count.0 + 2) s.items.at_second one.1) _
                      (deal_items-few next (count.0 + 2) s.items.at_second one.1 fair
                        (k.few_items Seat.second_seat))
                      (λ two few_two.
                        reloaded-IsTable alternate s shells.0 one.0 two.0 k live
                          (omega (arith, full)) few_one few_two)))))

empty-IsSeats : IsSeats empty_devil
unfolding empty_devil
empty-IsSeats = record {
  lives = each (λ i. at i empty_devil.hp ≤ 4) (omega arith) (omega arith);
  few_items = each (λ i. length (at i empty_devil.items) ≤ 4) (omega arith) (omega arith);
}

empty-IsAlive : IsAlive empty_devil
unfolding empty_devil
empty-IsAlive = record {
  alive = each (λ i. 1 ≤ at i empty_devil.hp) (omega arith) (omega arith);
  staying = each (λ i. at i empty_devil.forfeited ≡ false) refl refl;
}

-- With a source that answers below the bounds it is given and without a panic, a new devil
-- roulette does not panic, and is a well-formed table when it is returned.
pub new_devil-IsTable :
    {R : Type 0} (next : Source R) (r : R)
    → IsFair next
    → Holds (IsTabled {R = R}) (new_devil next r)
unfolding new_devil
new_devil-IsTable {R = R} next r fair =
    >>=-Holds (IsTabled {R = R}) (IsTabled {R = R}) (reload next false empty_devil r) _
      (reload-IsTable next false empty_devil r fair empty-IsSeats empty-IsAlive)
      (λ p k.
        >>=-Holds (λ (q : ℕ × R). q.0 < 2) (IsTabled {R = R}) (next p.1 2) _
          (fair p.1 2 (omega arith))
          (λ turn _. record {
            seats = record { lives = k.seats.lives; few_items = k.seats.few_items };
            loaded = k.loaded;
            playing =
                λ on. record { alive = (k.playing on).alive; staying = (k.playing on).staying };
          }))
