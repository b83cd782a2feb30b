-- ===== src/Roulette/Effects.antt =====
-- What items do in internal/roulette/devil.go.
use momiao.Base.{
  ℕ, zero, suc, ◌+◌, ◌-◌, ◌≤◌, ◌<◌, ◌≡◌, subst, Bool, true, false, not, List, [], ◌∷◌, arith, some,
  ltb, ◌==◌, if◌then◌else◌, length, All, keep, get_elem?, Bool-cases, inl, inr, min,
}
use momiao.Roulette.Types.{Item, Seat, other, Both, at, put, DevilState}
use momiao.Roulette.Load.{Source}
use momiao.Roulette.Devil.{
  consume, reveal, phone_call, future_of, indices, heal, take_medicine, invert, drink_beer, effect,
}
use momiao.Roulette.Loads.{Holds, >>=-Holds, IsFair, get_elem?-some, length-set_at}
use momiao.Roulette.Tables.{IsSeats, IsTable, IsTabled}
use momiao.Roulette.Shots.{finish-IsTable, after_shell-IsTable, put_lives}

reveal-IsTable :
    (seat : Seat) (i : ℕ) (s : DevilState)
    → IsTable s
    → i < length s.shells
    → Holds IsTable (reveal seat i s)
unfolding reveal
reveal-IsTable seat i s k h =
    let (live, e) = get_elem?-some s.shells i h in
    rw (e, reveal)
      (record {
        seats = record { lives = k.seats.lives; few_items = k.seats.few_items };
        loaded = k.loaded;
        playing = λ on. record { alive = (k.playing on).alive; staying = (k.playing on).staying };
      })

indices-below : (from n : ℕ) → All (λ (i : ℕ). i < from + n) (indices from n)
unfolding indices
indices-below from zero = tt
indices-below from (suc n) =
    (omega arith, weaken (indices (from + 1) n) (indices-below (from + 1) n))
  where
    weaken :
        (is : List ℕ) → All (λ (i : ℕ). i < from + 1 + n) is → All (λ (i : ℕ). i < from + suc n) is
    weaken [] a = tt
    weaken (i ∷ is) (h, a) = (omega (arith, h), weaken is a)

All-keep : {A : Type 0} (P : A → Type 0) (p : A → Bool) (xs : List A) → All P xs → All P (keep p xs)
All-keep P p [] a = tt
All-keep P p (x ∷ xs) (h, a) = elim (Bool-cases (p x)) [
  | inl yes_kept ↦ rw (yes_kept) (h, All-keep P p xs a)
  | inr dropped ↦ rw (dropped) (All-keep P p xs a)
]

All-if :
    (P : ℕ → Type 0) (b : Bool) (xs ys : List ℕ)
    → All P xs
    → All P ys
    → All P (if b then xs else ys)
All-if P true xs ys a b = a
All-if P false xs ys a b = b

future_of-below :
    (s : DevilState) (seat : Seat)
    → s.pointer < length s.shells
    → All (λ (i : ℕ). i < length s.shells) (future_of s seat)
unfolding future_of
future_of-below s seat h =
    let n = length s.shells - (s.pointer + 1) in
    let future = indices (s.pointer + 1) n in
    let below =
      subst (λ (m : ℕ). All (λ (i : ℕ). i < m) future) (the_length (length s.shells) h)
        (indices-below (s.pointer + 1) n) in
    All-if (λ (i : ℕ). i < length s.shells) _ future _ below
      (All-keep (λ (i : ℕ). i < length s.shells) _ future below)
  where
    the_length : (m : ℕ) → s.pointer < m → s.pointer + 1 + (m - (s.pointer + 1)) ≡ m
    the_length m k = omega (arith, k)

get_elem?-All :
    {A : Type 0} (P : A → Type 0) (xs : List A) (i : ℕ) (x : A)
    → All P xs
    → get_elem? xs i ≡ some x
    → P x
get_elem?-All P [] i x a e = cc
get_elem?-All P (y ∷ ys) zero x (h, a) e = subst P (some-injective e) h
  where
    some-injective : some y ≡ some x → y ≡ x
    some-injective q = cc
get_elem?-All P (y ∷ ys) (suc i) x (h, a) e = get_elem?-All P ys i x a e

above_zero : (n : ℕ) → (n == 0) ≡ false → 0 < n
above_zero n h = ground arith

phone_call-IsTable :
    {R : Type 0} (next : Source R) (seat : Seat) (s : DevilState) (r : R)
    → IsFair next
    → IsTable s
    → s.pointer < length s.shells
    → Holds (IsTabled {R = R}) (phone_call next seat s r)
unfolding phone_call
phone_call-IsTable {R = R} next seat s r fair k h =
    elim (Bool-cases (length (future_of s seat) == 0)) [
      | inl nothing ↦ rw (nothing) k
      | inr calls ↦ rw (calls) (
          >>=-Holds (λ (p : ℕ × R). p.0 < length (future_of s seat)) (IsTabled {R = R})
            (next r (length (future_of s seat))) _
            (fair r (length (future_of s seat)) (above_zero (length (future_of s seat)) calls))
            (λ p low.
              let (i, e) = get_elem?-some (future_of s seat) p.0 low in
              rw (e) (
                >>=-Holds IsTable (IsTabled {R = R}) (reveal seat i s) _
                  (reveal-IsTable seat i s k (
                    get_elem?-All (λ (j : ℕ). j < length s.shells) (future_of s seat) p.0 i
                      (future_of-below s seat h) e))
                  (λ t told. told))))
    ]

heal-IsSeats : (seat : Seat) (n : ℕ) (s : DevilState) → IsSeats s → IsSeats (heal seat n s)
heal-IsSeats seat n s k = record {
  lives = put_lives s.hp seat (min 4 (at seat s.hp + n)) k.lives (omega arith);
  few_items = k.few_items;
}

hurt_by_medicine :
    (seat : Seat) (s : DevilState)
    → IsSeats s
    → IsSeats (record s { hp = put seat (at seat s.hp - 1) s.hp })
hurt_by_medicine seat s k = record {
  lives = put_lives s.hp seat (at seat s.hp - 1) k.lives (omega (arith, k.lives seat));
  few_items = k.few_items;
}

put_alive :
    (hp : Both ℕ) (seat : Seat) (n : ℕ)
    → ((i : Seat) → 1 ≤ at i hp)
    → 1 ≤ n
    → (i : Seat) → 1 ≤ at i (put seat n hp)
put_alive hp Seat.first_seat n k h Seat.first_seat = h
put_alive hp Seat.first_seat n k h Seat.second_seat = k Seat.second_seat
put_alive hp Seat.second_seat n k h Seat.first_seat = k Seat.first_seat
put_alive hp Seat.second_seat n k h Seat.second_seat = h

heal-IsTable : (seat : Seat) (n : ℕ) (s : DevilState) → IsTable s → IsTable (heal seat n s)
heal-IsTable seat n s k = record {
  seats = heal-IsSeats seat n s k.seats;
  loaded = k.loaded;
  playing = λ on. record {
    alive =
        put_alive s.hp seat (min 4 (at seat s.hp + n)) (k.playing on).alive
          (omega (arith, (k.playing on).alive seat));
    staying = (k.playing on).staying;
  };
}

take_medicine-IsTable :
    {R : Type 0} (next : Source R) (seat : Seat) (s : DevilState) (r : R)
    → IsFair next
    → IsTable s
    → s.pointer < length s.shells
    → Holds (IsTabled {R = R}) (take_medicine next seat s r)
unfolding take_medicine
take_medicine-IsTable {R = R} next seat s r fair k h =
    >>=-Holds (λ (p : ℕ × R). p.0 < 5) (IsTabled {R = R}) (next r 5) _ (fair r 5 (omega arith))
      (λ p _. elim (Bool-cases (ltb p.0 2)) [
        | inl well ↦ rw (well) (finish-IsTable (heal seat 2 s) (heal-IsSeats seat 2 s k.seats) h)
        | inr ill ↦ rw (ill) (
            finish-IsTable (record s { hp = put seat (at seat s.hp - 1) s.hp })
              (hurt_by_medicine seat s k.seats) h)
      ])

invert-IsTable :
    (s : DevilState) → IsTable s → s.pointer < length s.shells → Holds IsTable (invert s)
unfolding invert
invert-IsTable s k h =
    let (live, e) = get_elem?-some s.shells s.pointer h in
    rw (e, invert)
      (record {
        seats = record { lives = k.seats.lives; few_items = k.seats.few_items };
        loaded = λ _. omega (arith, h, length-set_at s.pointer (not live) s.shells);
        playing = λ on. record { alive = (k.playing on).alive; staying = (k.playing on).staying };
      })

drink_beer-IsTable :
    {R : Type 0} (next : Source R) (s : DevilState) (r : R)
    → IsFair next
    → IsTable s
    → s.ended ≡ false
    → Holds (IsTabled {R = R}) (drink_beer next s r)
unfolding drink_beer consume
drink_beer-IsTable next s r fair k on =
    let (live, e) = get_elem?-some s.shells s.pointer (k.loaded on) in
    rw (e, drink_beer)
      (after_shell-IsTable next (λ t. t) (consume s) r fair
        (record { lives = k.seats.lives; few_items = k.seats.few_items })
        (record { alive = (k.playing on).alive; staying = (k.playing on).staying })
        (omega (arith, k.loaded on)) (λ t. t))

same-IsTable :
    (s : DevilState) (saw : Bool) (cuffed : Both Bool)
    → IsTable s
    → IsTable (record s { saw = saw; cuffed = cuffed })
same-IsTable s saw cuffed k = record {
  seats = record { lives = k.seats.lives; few_items = k.seats.few_items };
  loaded = k.loaded;
  playing = λ on. record { alive = (k.playing on).alive; staying = (k.playing on).staying };
}

pub effect-IsTable :
    {R : Type 0} (next : Source R) (seat : Seat) (item : Item) (s : DevilState) (r : R)
    → IsFair next
    → IsTable s
    → s.ended ≡ false
    → Holds (IsTabled {R = R}) (effect next seat item s r)
unfolding effect
effect-IsTable {R = R} next seat Item.magnifier s r fair k on =
    >>=-Holds IsTable (IsTabled {R = R}) (reveal seat s.pointer s) _
      (reveal-IsTable seat s.pointer s k (k.loaded on)) (λ t told. told)
effect-IsTable next seat Item.phone s r fair k on =
    phone_call-IsTable next seat s r fair k (k.loaded on)
effect-IsTable next seat Item.saw s r fair k on = same-IsTable s true s.cuffed k
effect-IsTable next seat Item.handcuffs s r fair k on =
    same-IsTable s s.saw (put (other seat) true s.cuffed) k
effect-IsTable next seat Item.cigarette s r fair k on = heal-IsTable seat 1 s k
effect-IsTable next seat Item.medicine s r fair k on =
    take_medicine-IsTable next seat s r fair k (k.loaded on)
effect-IsTable {R = R} next seat Item.inverter s r fair k on =
    >>=-Holds IsTable (IsTabled {R = R}) (invert s) _ (invert-IsTable s k (k.loaded on))
      (λ t turned. turned)
effect-IsTable next seat Item.beer s r fair k on = drink_beer-IsTable next s r fair k on
effect-IsTable next seat Item.adrenaline s r fair k on = k
effect-IsTable next seat (Item.other_item text) s r fair k on = k
