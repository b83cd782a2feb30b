-- ===== src/Roulette/Shots.antt =====
-- Shots in internal/roulette/devil.go, and what ends a round.
use momiao.Base.{
  ℕ, ◌-◌, ◌≤◌, ◌<◌, ◌≡◌, refl, sym, ◌∙◌, ap, subst, Bool, true, false, ◌||◌, List, [], ◌∷◌, arith,
  ◌==◌, if◌then◌else◌, length, ◌⊎◌, Bool-cases, inl, inr,
}
use momiao.Roulette.Types.{Target, Seat, other, Both, at, put, DevilState, Checked, accepted}
use momiao.Roulette.Load.{Source}
use momiao.Roulette.Devil.{
  finish, finish_seat, consume, after_shell, shot, damage_of, target_seat, next_seat, take_turn,
  fire,
}
use momiao.Roulette.Loads.{Holds, IsFair, get_elem?-some}
use momiao.Roulette.Tables.{each, IsSeats, IsAlive, IsTable, IsTabled, reload-IsTable}

-- The state of an ended round.
abbrev closed : DevilState → List Seat → DevilState
closed s winners = record s { ended = true; eligible = winners }

pub ended_true : {A : Type 0} → true ≡ false → A
ended_true {A = A} e = elim (true-false (sym e)) [ ]
  where
    true-false : false ≡ true → ⊥
    true-false h = cc

-- What `finish` leaves of a state.
record IsLeft (s t : DevilState) : Type 0 where
  seats : IsSeats t
  playing : t.ended ≡ false → IsAlive t
  same_pointer : t.pointer ≡ s.pointer
  same_shells : t.shells ≡ s.shells

closed-IsLeft : (s : DevilState) (winners : List Seat) → IsSeats s → IsLeft s (closed s winners)
closed-IsLeft s winners k = record {
  seats = record { lives = k.lives; few_items = k.few_items };
  playing = ended_true;
  same_pointer = refl;
  same_shells = refl;
}

not_over : (n : ℕ) (b : Bool) → (n == 0 || b) ≡ false → (1 ≤ n) × (b ≡ false)
not_over n b h = (ground arith, ground arith)

-- A seat ends the round, or is alive and stays.
finish_seat-cases :
    (i : Seat) (s : DevilState)
    → (finish_seat i s ≡ closed s (other i ∷ []))
      ⊎ (finish_seat i s ≡ s) × (1 ≤ at i s.hp) × (at i s.forfeited ≡ false)
unfolding finish_seat
finish_seat-cases i s = elim (Bool-cases (at i s.hp == 0 || at i s.forfeited)) [
  | inl over ↦ inl (rw (over) refl)
  | inr on ↦
      let (alive, stays) = not_over (at i s.hp) (at i s.forfeited) on in
      inr (rw (on) refl, alive, stays)
]

finish-IsLeft : (s : DevilState) → IsSeats s → IsLeft s (finish s)
unfolding finish
finish-IsLeft s k = elim (finish_seat-cases Seat.first_seat s) [
  | inl e ↦
      let t = closed s (Seat.second_seat ∷ []) in
      subst (λ (x : DevilState). IsLeft s (finish_seat Seat.second_seat x)) (sym e)
        (elim (finish_seat-cases Seat.second_seat t) [
          | inl f ↦ subst (IsLeft s) (sym f) (record {
            seats = record { lives = k.lives; few_items = k.few_items };
            playing = ended_true;
            same_pointer = refl;
            same_shells = refl;
          })
          | inr (f, _, _) ↦ subst (IsLeft s) (sym f) (closed-IsLeft s (Seat.second_seat ∷ []) k)
        ])
  | inr (e, alive_one, stays_one) ↦
      subst (λ (x : DevilState). IsLeft s (finish_seat Seat.second_seat x)) (sym e)
        (elim (finish_seat-cases Seat.second_seat s) [
          | inl f ↦ subst (IsLeft s) (sym f) (closed-IsLeft s (Seat.first_seat ∷ []) k)
          | inr (f, alive_two, stays_two) ↦ subst (IsLeft s) (sym f) (record {
            seats = k;
            playing = λ _. record {
              alive = each (λ i. 1 ≤ at i s.hp) alive_one alive_two;
              staying = each (λ i. at i s.forfeited ≡ false) stays_one stays_two;
            };
            same_pointer = refl;
            same_shells = refl;
          })
        ])
]

pub finish-IsTable : (s : DevilState) → IsSeats s → s.pointer < length s.shells → IsTable (finish s)
finish-IsTable s k h =
    let f = finish-IsLeft s k in
    record {
      seats = f.seats;
      loaded = λ _. omega (arith, h, f.same_pointer, ap (length {A = Bool}) f.same_shells);
      playing = f.playing;
    }

take_turn-IsTable : (seat : Seat) (s : DevilState) → IsTable s → IsTable (take_turn seat s)
unfolding take_turn
take_turn-IsTable seat s k = record {
  seats = record { lives = k.seats.lives; few_items = k.seats.few_items };
  loaded = k.loaded;
  playing = λ on. record { alive = (k.playing on).alive; staying = (k.playing on).staying };
}

not_last : (n m : ℕ) → (n == m) ≡ false → n ≤ m → n < m
not_last n m h k = ground arith

-- A spent cylinder is loaded again, and otherwise a shell is left.
pub after_shell-IsTable :
    {R : Type 0} (next : Source R) (go_on : DevilState → DevilState) (s : DevilState) (r : R)
    → IsFair next
    → IsSeats s
    → IsAlive s
    → s.pointer ≤ length s.shells
    → (IsTable s → IsTable (go_on s))
    → Holds (IsTabled {R = R}) (after_shell next go_on s r)
unfolding after_shell
after_shell-IsTable next go_on s r fair k live h keeps =
    elim (Bool-cases (s.pointer == length s.shells)) [
      | inl spent ↦ rw (spent) (reload-IsTable next true s r fair k live)
      | inr more ↦ rw (more) (
          keeps (record {
            seats = k;
            loaded = λ _. not_last s.pointer (length s.shells) more h;
            playing = λ _. live;
          }))
    ]

-- The state that a shot leaves before `finish`.
abbrev hurt : Bool → Seat → DevilState → DevilState
hurt hit target s =
    let fired = consume (record s { saw = false }) in
    record fired { hp = if hit then put target (at target s.hp - damage_of s.saw) s.hp else s.hp }

pub put_lives :
    (hp : Both ℕ) (target : Seat) (n : ℕ)
    → ((i : Seat) → at i hp ≤ 4)
    → n ≤ 4
    → (i : Seat) → at i (put target n hp) ≤ 4
put_lives hp Seat.first_seat n k h Seat.first_seat = h
put_lives hp Seat.first_seat n k h Seat.second_seat = k Seat.second_seat
put_lives hp Seat.second_seat n k h Seat.first_seat = k Seat.first_seat
put_lives hp Seat.second_seat n k h Seat.second_seat = h

hurt-IsSeats :
    (hit : Bool) (target : Seat) (s : DevilState) → IsSeats s → IsSeats (hurt hit target s)
unfolding consume
hurt-IsSeats true target s k = record {
  lives =
      put_lives s.hp target (at target s.hp - damage_of s.saw) k.lives
        (omega (arith, k.lives target));
  few_items = k.few_items;
}
hurt-IsSeats false target s k = record { lives = k.lives; few_items = k.few_items }

-- A test that leads to two outcomes, each of which holds.
pub if-Holds :
    {A : Type 0} (P : A → Type 0) (b : Bool) (x y : Checked A)
    → (b ≡ true → Holds P x)
    → (b ≡ false → Holds P y)
    → Holds P (if b then x else y)
if-Holds P true x y h k = h refl
if-Holds P false x y h k = k refl

left-IsTable :
    {R : Type 0} (next : Source R) (seat : Seat) (s left : DevilState) (r : R)
    → IsFair next
    → IsLeft s left
    → s.pointer ≤ length s.shells
    → Holds
        (IsTabled {R = R})
        (if left.ended then accepted (left, r) else after_shell next (take_turn seat) left r)
left-IsTable {R = R} next seat s left r fair f h =
    if-Holds (IsTabled {R = R}) left.ended (accepted (left, r))
      (after_shell next (take_turn seat) left r)
      (λ over. record {
        seats = f.seats;
        loaded = λ open_ended. ended_true (sym over ∙ open_ended);
        playing = f.playing;
      })
      (λ more.
        after_shell-IsTable next (take_turn seat) left r fair f.seats (f.playing more)
          (omega (arith, f.same_pointer, ap (length {A = Bool}) f.same_shells, h))
          (take_turn-IsTable seat left))

pub fire-IsTable :
    {R : Type 0} (next : Source R) (seat : Seat) (target : Target) (s : DevilState) (r : R)
    → IsFair next
    → IsTable s
    → s.ended ≡ false
    → Holds (IsTabled {R = R}) (fire next seat target s r)
unfolding fire shot consume
fire-IsTable {R = R} next seat target s r fair k on =
    let (hit, e) = get_elem?-some s.shells s.pointer (k.loaded on) in
    let aim = target_seat target seat in
    let base = hurt hit aim s in
    rw (e, fire)
      (left-IsTable next (next_seat hit target seat) base (finish base) r fair
        (finish-IsLeft base (hurt-IsSeats hit aim s k.seats)) (omega (arith, k.loaded on)))
