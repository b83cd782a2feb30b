-- ===== src/Roulette/Moves.antt =====
-- `applyDevil` of internal/roulette/devil.go.
use momiao.Base.{
  ◌+◌, ◌≤◌, ◌≡◌, refl, sym, subst, Bool, true, false, not, ◌||◌, ◌&&◌, List, arith, Option, none,
  some, if◌then◌else◌, length, any, ◌⊎◌, inl, inr,
}
use momiao.Base.Int.{ℤ}
use momiao.Roulette.Types.{
  Kind, Item, Action, Seat, other, Both, at, put, DevilState, Error, refused, item_eq, kind_eq,
  action_eq,
}
use momiao.Roulette.Load.{Source, contains}
use momiao.Roulette.Devil.{
  valid_action, actions, finish, remove_item, spend, use_on, perform, played_as, apply_at, seat_at,
  apply_devil,
}
use momiao.Roulette.Loads.{Holds, >>=-Holds, IsFair}
use momiao.Roulette.Tables.{IsTable, IsTabled}
use momiao.Roulette.Shots.{ended_true, finish-IsTable, if-Holds, fire-IsTable}
use momiao.Roulette.Effects.{effect-IsTable}
use momiao.Roulette.Offers.{
  true-false, item_eq-eq, IsOffered, actions-IsOffered, remove_item-length,
}

put_items :
    (items : Both (List Item)) (seat : Seat) (left : List Item)
    → ((i : Seat) → length (at i items) ≤ 4)
    → length left ≤ 4
    → (i : Seat) → length (at i (put seat left items)) ≤ 4
put_items items Seat.first_seat left k h Seat.first_seat = h
put_items items Seat.first_seat left k h Seat.second_seat = k Seat.second_seat
put_items items Seat.second_seat left k h Seat.first_seat = k Seat.first_seat
put_items items Seat.second_seat left k h Seat.second_seat = h

at_other :
    {A : Type 0} (b : Both A) (seat : Seat) (a : A)
    → at (other seat) (put seat a b) ≡ at (other seat) b
at_other b Seat.first_seat a = refl
at_other b Seat.second_seat a = refl

-- A table of which one seat holds other items, at most four.
with_items-IsTable :
    (s : DevilState) (seat : Seat) (left : List Item)
    → IsTable s
    → length left ≤ 4
    → IsTable (record s { items = put seat left s.items })
with_items-IsTable s seat left k h = record {
  seats = record {
    lives = k.seats.lives;
    few_items = put_items s.items seat left k.seats.few_items h;
  };
  loaded = k.loaded;
  playing = λ on. record { alive = (k.playing on).alive; staying = (k.playing on).staying };
}

-- What spending an item leaves.
abbrev IsSpent : Item × DevilState → Type 0
IsSpent p = IsTable p.1 × (p.1.ended ≡ false)

not-false : (b : Bool) → not b ≡ false → b ≡ true
not-false true h = refl
not-false false h = elim (true-false (sym h)) [ ]

spend-IsSpent :
    (s : DevilState) (seat : Seat) (a : Action)
    → IsTable s
    → s.ended ≡ false
    → IsOffered s seat (at seat s.items) a
    → Holds IsSpent (spend seat a.item a.stolen_item s)
unfolding spend
spend-IsSpent s seat a k on (held, stolen) =
    >>=-Holds (λ (left : List Item). length left + 1 ≡ length (at seat s.items)) IsSpent
      (remove_item (at seat s.items) a.item) _ (remove_item-length (at seat s.items) a.item held)
      (λ own fewer.
        let t : DevilState = record s { items = put seat own s.items } in
        let kt = with_items-IsTable s seat own k (omega (arith, fewer, k.seats.few_items seat)) in
        let there = at_other s.items seat own in
        if-Holds IsSpent (not (item_eq a.item Item.adrenaline)) _ _ (λ _. (kt, on))
          (λ steals.
            let used = item_eq-eq a.item Item.adrenaline (not-false _ steals) in
            >>=-Holds (λ (left : List Item). length left + 1 ≡ length (at (other seat) t.items))
              IsSpent (remove_item (at (other seat) t.items) a.stolen_item) _
              (remove_item-length (at (other seat) t.items) a.stolen_item (
                subst (λ (items : List Item). contains items a.stolen_item ≡ true) (sym there)
                  (stolen used)))
              (λ theirs less. (
                with_items-IsTable t (other seat) theirs kt
                    (omega (arith, less, kt.seats.few_items (other seat))),
                on,
              ))))

use_on-IsTable :
    {R : Type 0} (next : Source R) (seat : Seat) (a : Action) (s : DevilState) (r : R)
    → IsFair next
    → IsTable s
    → s.ended ≡ false
    → IsOffered s seat (at seat s.items) a
    → Holds (IsTabled {R = R}) (use_on next seat a s r)
unfolding use_on
use_on-IsTable {R = R} next seat a s r fair k on offered =
    >>=-Holds IsSpent (IsTabled {R = R}) (spend seat a.item a.stolen_item s) _
      (spend-IsSpent s seat a k on offered)
      (λ p spent. effect-IsTable next seat p.0 p.1 r fair spent.0 spent.1)

surrendered-IsTable :
    (s : DevilState) (seat : Seat)
    → IsTable s
    → s.ended ≡ false
    → IsTable (finish (record s { forfeited = put seat true s.forfeited }))
surrendered-IsTable s seat k on =
    finish-IsTable (record s { forfeited = put seat true s.forfeited })
      (record { lives = k.seats.lives; few_items = k.seats.few_items }) (k.loaded on)

perform-IsTable :
    {R : Type 0} (next : Source R) (seat : Seat) (a : Action) (s : DevilState) (r : R)
    → IsFair next
    → IsTable s
    → s.ended ≡ false
    → (a.kind ≡ Kind.devil_item → IsOffered s seat (at seat s.items) a)
    → Holds (IsTabled {R = R}) (perform next seat a s r)
unfolding perform
perform-IsTable {R = R} next seat a s r fair k on offered = go a.kind refl
  where
    go : (kind : Kind) → a.kind ≡ kind → Holds (IsTabled {R = R}) (perform next seat a s r)
    go Kind.game_limit q =
        rw (q, perform)
          (record {
            seats = record { lives = k.seats.lives; few_items = k.seats.few_items };
            loaded = ended_true;
            playing = ended_true;
          })
    go Kind.surrender q = rw (q, perform) (surrendered-IsTable s seat k on)
    go Kind.devil_shoot q = rw (q, perform) (fire-IsTable next seat a.target s r fair k on)
    go Kind.devil_item q = rw (q, perform) (use_on-IsTable next seat a s r fair k on (offered q))
    go _ q = rw (q, perform) tt

not-and-cases : (a b : Bool) → (not a && not b) ≡ false → (a ≡ true) ⊎ (b ≡ true)
not-and-cases true b h = inl refl
not-and-cases false true h = inr refl
not-and-cases false false h = elim (true-false (sym h)) [ ]

item_no_limit : (a : Action) → a.kind ≡ Kind.devil_item → kind_eq a.kind Kind.game_limit ≡ true → ⊥
unfolding kind_eq
item_no_limit a item h = true-false (subst (λ (k : Kind). kind_eq k Kind.game_limit ≡ true) item h)

apply_at-IsTable :
    {R : Type 0} (next : Source R) (seat : Seat) (a : Action) (s : DevilState) (r : R)
    → IsFair next
    → IsTable s
    → s.ended ≡ false
    → Holds (IsTabled {R = R}) (apply_at next seat a s r)
unfolding apply_at
apply_at-IsTable {R = R} next seat a s r fair k on =
    let b = played_as a in
    if-Holds (IsTabled {R = R})
      (not (kind_eq b.kind Kind.game_limit)
        && not (any (λ (v : Action). action_eq v b) (actions s seat)))
      (refused Error.action_invalid) (perform next seat b s r) (λ _. tt)
      (λ may. perform-IsTable next seat b s r fair k on (λ item. elim (not-and-cases _ _ may) [
        | inl limit ↦ elim (item_no_limit b item limit) [ ]
        | inr there ↦ actions-IsOffered s seat b item there
      ]))

or-false_right : (a b : Bool) → (a || b) ≡ false → b ≡ false
or-false_right false b h = h
or-false_right true b h = elim (true-false (sym h)) [ ]

-- With a source that answers below the bounds it is given and without a panic, an action of any
-- kind and seat on a well-formed table of the devil roulette does not panic, and what it leads to
-- is a well-formed table: at most four lives and four items a seat, and, until the round ends, a
-- next shell and two seats alive that have not surrendered.
pub apply_devil-IsTable :
    {R : Type 0} (next : Source R) (s : DevilState) (seat : ℤ) (a : Action) (r : R)
    → IsFair next
    → IsTable s
    → Holds (IsTabled {R = R}) (apply_devil next s seat a r)
unfolding apply_devil
apply_devil-IsTable {R = R} next s seat a r fair k = go (seat_at seat)
  where
    go :
        (o : Option Seat)
        → Holds (IsTabled {R = R}) (elim o [
          | none ↦ refused Error.action_invalid
          | some i ↦
              if not (valid_action a true) || s.ended
              then refused Error.action_invalid
              else apply_at next i a s r
        ])
    go none = tt
    go (some i) =
        if-Holds (IsTabled {R = R}) (not (valid_action a true) || s.ended)
          (refused Error.action_invalid) (apply_at next i a s r) (λ _. tt)
          (λ on. apply_at-IsTable next i a s r fair k (or-false_right _ _ on))
