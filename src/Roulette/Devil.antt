-- ===== src/Roulette/Devil.antt =====
-- `actions` and `applyDevil` of internal/roulette/devil.go, with `ValidAction` of types.go. The
-- texts of events are left out.
use momiao.Base.{
  ℕ, zero, suc, ◌+◌, ◌-◌, Bool, true, false, not, ◌&&◌, ◌||◌, List, [], ◌∷◌, ◌++◌, Option, none,
  some, ltb, leb, ◌==◌, if◌then◌else◌, length, get_elem?, any, keep, min, map,
}
use momiao.Base.Int.{ℤ, pos}
use momiao.Roulette.Types.{
  Kind, Target, Item, Action, Seat, other, Both, at, put, DevilState, Error, Checked, refused,
  accepted, ◌>>=◌, seat_eq, item_eq, target_eq, kind_eq, action_eq,
}
use momiao.Roulette.Load.{Source, contains, item_order, set_at, reload}

unfoldable pub valid_item : Item → Bool
unfolding contains
valid_item item = contains item_order item

abbrev pub no_item : Item
no_item = Item.other_item ""

abbrev pub no_target : Target
no_target = Target.other_target ""

abbrev pub is_none : Option Bool → Bool
is_none none = true
is_none (some _) = false

-- No field but the kind.
unfoldable pub bare : Action → Bool
unfolding item_eq target_eq
bare a =
    target_eq a.target no_target
    && item_eq a.item no_item
    && item_eq a.stolen_item no_item
    && is_none a.agree

unfoldable pub valid_stolen : Item → Item → Bool
unfolding valid_item item_eq
valid_stolen item stolen =
    if item_eq item Item.adrenaline
    then valid_item stolen && not (item_eq stolen Item.adrenaline)
    else item_eq stolen no_item

unfoldable pub valid_action : Action → Bool → Bool
unfolding bare valid_stolen
valid_action a internal = elim a.kind [
  | Kind.devil_shoot ↦
      (target_eq a.target Target.self || target_eq a.target Target.opponent)
      && item_eq a.item no_item
      && item_eq a.stolen_item no_item
      && is_none a.agree
  | Kind.devil_item ↦
      target_eq a.target no_target
      && is_none a.agree
      && valid_item a.item
      && valid_stolen a.item a.stolen_item
  | Kind.pressure_vote ↦
      not (is_none a.agree)
      && target_eq a.target no_target
      && item_eq a.item no_item
      && item_eq a.stolen_item no_item
  | Kind.timeout ↦ internal && bare a
  | Kind.game_limit ↦ internal && bare a
  | Kind.other_kind text ↦ false
  | _ ↦ bare a
]

abbrev pub action_of : Kind → Target → Item → Item → Action
action_of kind target item stolen = record {
  kind = kind;
  target = target;
  item = item;
  stolen_item = stolen;
  agree = none;
}

abbrev pub surrender_action : Action
surrender_action = action_of Kind.surrender no_target no_item no_item

abbrev pub shoot : Target → Action
shoot target = action_of Kind.devil_shoot target no_item no_item

abbrev pub use_item : Item → Item → Action
use_item item stolen = action_of Kind.devil_item no_target item stolen

-- No shell follows the next one.
abbrev pub last_shell : DevilState → Bool
last_shell s = leb (length s.shells) (s.pointer + 1)

unfoldable pub item_legal : DevilState → Seat → Item → Bool
unfolding valid_item
item_legal s seat item =
    if not (valid_item item) || item_eq item Item.adrenaline
    then false
    else not (
        item_eq item Item.phone && last_shell s
        || item_eq item Item.handcuffs && (last_shell s || at (other seat) s.cuffed))

-- What can be stolen, each item once.
unfoldable pub stolen_items : List Item → List Item → List Action
unfolding contains
stolen_items seen [] = []
stolen_items seen (item ∷ rest) =
    let later = stolen_items (item ∷ seen) rest in
    let same = stolen_items seen rest in
    if not (contains seen item) && valid_item item && not (item_eq item Item.adrenaline)
    then use_item Item.adrenaline item ∷ later
    else same

unfoldable pub item_actions : DevilState → Seat → List Item → List Item → List Action
unfolding stolen_items
item_actions s seat seen [] = []
item_actions s seat seen (item ∷ rest) =
    let later = item_actions s seat (item ∷ seen) rest in
    let same = item_actions s seat seen rest in
    if contains seen item
    then same
    else if item_eq item Item.adrenaline
    then stolen_items [] (at (other seat) s.items) ++ later
    else if item_legal s seat item
    then use_item item no_item ∷ later
    else later

unfoldable pub actions : DevilState → Seat → List Action
unfolding item_actions
actions s seat =
    if s.ended
    then []
    else if not (seat_eq seat s.turn)
    then surrender_action ∷ []
    else surrender_action
      ∷ shoot Target.self
      ∷ shoot Target.opponent
      ∷ item_actions s seat [] (at seat s.items)

-- One round of the loop of `turn`: a cuffed seat is freed and passed over.
abbrev pub pass_cuffed : Seat × Both Bool → Seat × Both Bool
pass_cuffed (next, cuffed) =
    if at next cuffed then (other next, put next false cuffed) else (next, cuffed)

unfoldable pub take_turn : Seat → DevilState → DevilState
take_turn next s =
    let p = pass_cuffed (pass_cuffed (next, s.cuffed)) in record s { turn = p.0; cuffed = p.1 }

-- A map of shells as an association list.
unfoldable pub forget : ℕ → List (ℕ × Bool) → List (ℕ × Bool)
forget i known = keep (λ (e : ℕ × Bool). not (e.0 == i)) known

unfoldable pub knows : ℕ → List (ℕ × Bool) → Bool
knows i known = any (λ (e : ℕ × Bool). e.0 == i) known

unfoldable pub learn : ℕ → Bool → List (ℕ × Bool) → List (ℕ × Bool)
unfolding forget
learn i live known = (i, live) ∷ forget i known

unfoldable pub turn_over : ℕ → List (ℕ × Bool) → List (ℕ × Bool)
turn_over i known = map (λ (e : ℕ × Bool). if e.0 == i then (e.0, not e.1) else e) known

unfoldable pub consume : DevilState → DevilState
unfolding forget
consume s = record s {
  known = record {
    at_first = forget s.pointer s.known.at_first;
    at_second = forget s.pointer s.known.at_second;
  };
  pointer = s.pointer + 1;
  obscured = false;
}

unfoldable pub finish_seat : Seat → DevilState → DevilState
finish_seat i s =
    if at i s.hp == 0 || at i s.forfeited
    then record s { ended = true; eligible = other i ∷ [] }
    else s

unfoldable pub finish : DevilState → DevilState
unfolding finish_seat
finish s = finish_seat Seat.second_seat (finish_seat Seat.first_seat s)

-- Without its first occurrence, which must be there.
unfoldable pub remove_item : List Item → Item → Checked (List Item)
unfolding item_eq
remove_item [] item = refused Error.out_of_range
remove_item (v ∷ items) item =
    let rest = remove_item items item in
    if item_eq v item then accepted items else rest >>= λ left. accepted (v ∷ left)

-- A spent cylinder is loaded again, or play goes on.
unfoldable pub after_shell :
    {R : Type 0} → Source R → (DevilState → DevilState) → DevilState → R → Checked (DevilState × R)
unfolding reload
after_shell next go_on s r =
    if s.pointer == length s.shells then reload next true s r else accepted (go_on s, r)

abbrev pub damage_of : Bool → ℕ
damage_of saw = if saw then 2 else 1

abbrev pub target_seat : Target → Seat → Seat
target_seat Target.self seat = seat
target_seat _ seat = other seat

unfoldable pub shot : Bool → Seat → DevilState → DevilState
unfolding consume finish
shot hit target s =
    let fired = consume (record s { saw = false }) in
    finish (record fired {
      hp = if hit then put target (at target s.hp - damage_of s.saw) s.hp else s.hp;
    })

-- The turn passes, but for a blank shot at oneself.
abbrev pub next_seat : Bool → Target → Seat → Seat
next_seat false Target.self seat = seat
next_seat _ _ seat = other seat

unfoldable pub fire :
    {R : Type 0} → Source R → Seat → Target → DevilState → R → Checked (DevilState × R)
unfolding shot after_shell take_turn
fire next seat target s r = elim (get_elem? s.shells s.pointer) [
  | none ↦ refused Error.out_of_range
  | some hit ↦
      let left = shot hit (target_seat target seat) s in
      if left.ended
      then accepted (left, r)
      else after_shell next (take_turn (next_seat hit target seat)) left r
]

-- from, from + 1, …
unfoldable pub indices : ℕ → ℕ → List ℕ
indices from zero = []
indices from (suc n) = from ∷ indices (from + 1) n

-- The shells after the next one that a phone may tell of: unknown ones, if there are any.
unfoldable pub future_of : DevilState → Seat → List ℕ
unfolding indices knows
future_of s seat =
    let future = indices (s.pointer + 1) (length s.shells - (s.pointer + 1)) in
    let unknown = keep (λ i. not (knows i (at seat s.known))) future in
    if length unknown == 0 then future else unknown

unfoldable pub reveal : Seat → ℕ → DevilState → Checked DevilState
unfolding learn
reveal seat i s = elim (get_elem? s.shells i) [
  | none ↦ refused Error.out_of_range
  | some live ↦ accepted (record s { known = put seat (learn i live (at seat s.known)) s.known })
]

unfoldable pub phone_call :
    {R : Type 0} → Source R → Seat → DevilState → R → Checked (DevilState × R)
unfolding future_of reveal
phone_call next seat s r =
    if length (future_of s seat) == 0
    then accepted (s, r)
    else (next r (length (future_of s seat)) >>= λ p. elim (get_elem? (future_of s seat) p.0) [
      | none ↦ refused Error.out_of_range
      | some i ↦ reveal seat i s >>= λ told. accepted (told, p.1)
    ])

abbrev pub heal : Seat → ℕ → DevilState → DevilState
heal seat n s = record s { hp = put seat (min 4 (at seat s.hp + n)) s.hp }

unfoldable pub take_medicine :
    {R : Type 0} → Source R → Seat → DevilState → R → Checked (DevilState × R)
unfolding finish
take_medicine next seat s r = next r 5 >>= λ p. accepted (
  finish (if ltb p.0 2 then heal seat 2 s else record s { hp = put seat (at seat s.hp - 1) s.hp }),
  p.1,
)

unfoldable pub invert : DevilState → Checked DevilState
unfolding turn_over set_at
invert s = elim (get_elem? s.shells s.pointer) [
  | none ↦ refused Error.out_of_range
  | some live ↦ accepted (record s {
    shells = set_at s.pointer (not live) s.shells;
    obscured = true;
    known = record {
      at_first = turn_over s.pointer s.known.at_first;
      at_second = turn_over s.pointer s.known.at_second;
    };
  })
]

unfoldable pub drink_beer : {R : Type 0} → Source R → DevilState → R → Checked (DevilState × R)
unfolding after_shell consume
drink_beer next s r = elim (get_elem? s.shells s.pointer) [
  | none ↦ refused Error.out_of_range
  | some live ↦ after_shell next (λ t. t) (consume s) r
]

-- What an item does once it is spent.
unfoldable pub effect :
    {R : Type 0} → Source R → Seat → Item → DevilState → R → Checked (DevilState × R)
unfolding reveal phone_call take_medicine invert drink_beer
effect next seat item s r = elim item [
  | Item.magnifier ↦ reveal seat s.pointer s >>= λ told. accepted (told, r)
  | Item.phone ↦ phone_call next seat s r
  | Item.saw ↦ accepted (record s { saw = true }, r)
  | Item.handcuffs ↦ accepted (record s { cuffed = put (other seat) true s.cuffed }, r)
  | Item.cigarette ↦ accepted (heal seat 1 s, r)
  | Item.medicine ↦ take_medicine next seat s r
  | Item.inverter ↦ invert s >>= λ turned. accepted (turned, r)
  | Item.beer ↦ drink_beer next s r
  | _ ↦ accepted (s, r)
]

-- The item leaves its holder, and adrenaline takes another from the other seat.
unfoldable pub spend : Seat → Item → Item → DevilState → Checked (Item × DevilState)
unfolding remove_item
spend seat item stolen s = remove_item (at seat s.items) item >>= λ own.
    let t : DevilState = record s { items = put seat own s.items } in
    if not (item_eq item Item.adrenaline)
    then accepted (item, t)
    else (remove_item (at (other seat) t.items) stolen >>= λ theirs.
        let u : DevilState = record t { items = put (other seat) theirs t.items } in
        accepted (stolen, u))

unfoldable pub use_on :
    {R : Type 0} → Source R → Seat → Action → DevilState → R → Checked (DevilState × R)
unfolding spend effect
use_on next seat a s r = spend seat a.item a.stolen_item s >>= λ p. effect next seat p.0 p.1 r

-- The action of a kind, once it is checked.
unfoldable pub perform :
    {R : Type 0} → Source R → Seat → Action → DevilState → R → Checked (DevilState × R)
unfolding fire use_on
perform next seat a s r = elim a.kind [
  | Kind.game_limit ↦
      accepted (record s { ended = true; eligible = Seat.first_seat ∷ Seat.second_seat ∷ [] }, r)
  | Kind.surrender ↦ accepted (finish (record s { forfeited = put seat true s.forfeited }), r)
  | Kind.devil_shoot ↦ fire next seat a.target s r
  | Kind.devil_item ↦ use_on next seat a s r
  | _ ↦ refused Error.action_invalid
]

-- A timeout shoots the opponent.
unfoldable pub played_as : Action → Action
unfolding kind_eq
played_as a = if kind_eq a.kind Kind.timeout then shoot Target.opponent else a

unfoldable pub apply_at :
    {R : Type 0} → Source R → Seat → Action → DevilState → R → Checked (DevilState × R)
unfolding perform actions played_as action_eq
apply_at next seat a s r =
    if not (kind_eq (played_as a).kind Kind.game_limit)
      && not (any (λ (v : Action). action_eq v (played_as a)) (actions s seat))
    then refused Error.action_invalid
    else perform next seat (played_as a) s r

abbrev pub seat_at : ℤ → Option Seat
seat_at (pos zero) = some Seat.first_seat
seat_at (pos (suc zero)) = some Seat.second_seat
seat_at _ = none

unfoldable pub apply_devil :
    {R : Type 0} → Source R → DevilState → ℤ → Action → R → Checked (DevilState × R)
unfolding apply_at valid_action
apply_devil next s seat a r = elim (seat_at seat) [
  | none ↦ refused Error.action_invalid
  | some i ↦
      if not (valid_action a true) || s.ended
      then refused Error.action_invalid
      else apply_at next i a s r
]
