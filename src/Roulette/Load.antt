-- ===== src/Roulette/Load.antt =====
-- `newDevil`, `reload` and `acquire` of internal/roulette/devil.go, with `shuffle` of fairness.go.
-- `next` is `randomInt`: it reads a number below its bound from the source of the round, which
-- `random_int` does from a list of words.
use momiao.Base.{
  ℕ, zero, suc, ◌+◌, ◌-◌, ◌*◌, ◌/◌, Bool, true, false, not, ◌&&◌, ◌||◌, List, [], ◌∷◌, ◌++◌, none,
  some, ltb, leb, ◌==◌, if◌then◌else◌, length, get_elem?, any, keep,
}
use momiao.Fairness.{Sampled, uniform_int}
use momiao.Roulette.Types.{
  Item, Seat, other, both, DevilState, Error, Checked, refused, accepted, ◌>>=◌, item_eq,
}

abbrev pub Source : Type 0 → Type 0
Source R = R → ℕ → Checked (ℕ × R)

unfoldable pub random_int : Source (List ℕ)
random_int words n = elim (uniform_int words n) [
  | Sampled.sampled v rest ↦ accepted (v, rest)
  | Sampled.invalid_input ↦ refused (Error.source_error "invalid input")
  | Sampled.source_ended ↦ refused (Error.source_error "unexpected end")
]

abbrev pub item_order : List Item
item_order =
    Item.handcuffs ∷ Item.adrenaline ∷ Item.saw ∷ Item.magnifier ∷ Item.inverter ∷ Item.phone
    ∷ Item.beer ∷ Item.cigarette ∷ Item.medicine ∷ []

-- The weight at the item's place in `itemWeights`.
abbrev pub weight_of : Item → ℕ
weight_of Item.handcuffs = 2
weight_of Item.adrenaline = 2
weight_of Item.saw = 2
weight_of Item.magnifier = 3
weight_of Item.inverter = 4
weight_of Item.phone = 4
weight_of Item.beer = 4
weight_of Item.cigarette = 5
weight_of Item.medicine = 5
weight_of (Item.other_item text) = 0

unfoldable pub contains : List Item → Item → Bool
unfolding item_eq
contains items item = any (λ (v : Item). item_eq v item) items

abbrev pub most_of : Item → ℕ
most_of Item.saw = 1
most_of Item.handcuffs = 1
most_of Item.adrenaline = 1
most_of Item.inverter = 1
most_of Item.cigarette = 1
most_of Item.medicine = 1
most_of _ = 2

abbrev pub cures : List Item
cures = Item.cigarette ∷ Item.medicine ∷ []

abbrev pub tricks : List Item
tricks = Item.saw ∷ Item.handcuffs ∷ Item.adrenaline ∷ []

-- The item and one of the items held are in the group.
abbrev pub excludes : List Item → List Item → Item → Bool
excludes group held item = contains group item && any (contains group) held

unfoldable pub acquire : List Item → Item → Bool
unfolding contains
acquire held item = not (
    leb (most_of item) (length (keep (λ (v : Item). item_eq v item) held))
    || excludes cures held item
    || excludes tricks held item)

unfoldable pub total_weight : List Item → List Item → ℕ
unfolding acquire
total_weight held [] = 0
total_weight held (item ∷ rest) =
    (if acquire held item then weight_of item else 0) + total_weight held rest

-- The item at which the weights that the draw is taken from pass it.
unfoldable pub pick : List Item → ℕ → List Item → List Item
unfolding acquire
pick held draw [] = held
pick held draw (item ∷ rest) =
    let later = pick held (draw - weight_of item) rest in
    let same = pick held draw rest in
    if acquire held item
    then if ltb draw (weight_of item) then held ++ item ∷ [] else later
    else same

-- The draws of one seat's items: at most four are held.
unfoldable pub deal_items : {R : Type 0} → Source R → ℕ → List Item → R → Checked (List Item × R)
unfolding total_weight pick
deal_items next zero held r = accepted (held, r)
deal_items next (suc count) held r =
    if length held == 4 || total_weight held item_order == 0
    then accepted (held, r)
    else (next r (total_weight held item_order) >>= λ p.
        deal_items next count (pick held p.0 item_order) p.1)

-- values[i] = value
unfoldable pub set_at : {A : Type 0} → ℕ → A → List A → List A
set_at i v [] = []
set_at zero v (x ∷ xs) = v ∷ xs
set_at (suc i) v (x ∷ xs) = x ∷ set_at i v xs

unfoldable pub swap_at : {A : Type 0} → ℕ → ℕ → List A → Checked (List A)
unfolding set_at
swap_at i j xs = elim (get_elem? xs i) [
  | none ↦ refused Error.out_of_range
  | some a ↦ elim (get_elem? xs j) [
    | none ↦ refused Error.out_of_range
    | some b ↦ accepted (set_at j a (set_at i b xs))
  ]
]

-- From the index i down to 1.
unfoldable pub shuffle_from : {A R : Type 0} → Source R → ℕ → List A → R → Checked (List A × R)
unfolding swap_at
shuffle_from next zero xs r = accepted (xs, r)
shuffle_from next (suc i) xs r =
    next r (suc i + 1) >>= λ p. swap_at (suc i) p.0 xs >>= λ ys. shuffle_from next i ys p.1

unfoldable pub shuffle : {A R : Type 0} → Source R → List A → R → Checked (List A × R)
unfolding shuffle_from
shuffle next xs r = shuffle_from next (length xs - 1) xs r

-- n shells, of which the first are live.
unfoldable pub fill : ℕ → ℕ → List Bool
fill live zero = []
fill zero (suc n) = false ∷ fill zero n
fill (suc live) (suc n) = true ∷ fill live n

-- The live shells must fit the cylinder, as an index past it panics.
unfoldable pub load : {R : Type 0} → Source R → ℕ → R → Checked (List Bool × R)
unfolding fill shuffle
load next n r = next r ((6 * n + 5) / 10 - (4 * n + 5) / 10 + 1) >>= λ p.
    if ltb n (p.0 + (4 * n + 5) / 10)
    then refused Error.out_of_range
    else shuffle next (fill (p.0 + (4 * n + 5) / 10) n) p.1

-- The other seat begins after a cylinder is spent.
unfoldable pub alternate_first : Bool → DevilState → DevilState
alternate_first false s = s
alternate_first true s = record s {
  cuffed = both false;
  first = other s.first;
  turn = other s.first;
}

unfoldable pub reload : {R : Type 0} → Source R → Bool → DevilState → R → Checked (DevilState × R)
unfolding load deal_items alternate_first
reload next alternate s r = next r 4 >>= λ n. load next (n.0 + 5) n.1 >>= λ loaded.
    next loaded.1 2 >>= λ count. deal_items next (count.0 + 2) s.items.at_first count.1 >>= λ one.
    deal_items next (count.0 + 2) s.items.at_second one.1 >>= λ two. accepted (
      alternate_first alternate (record s {
        shells = loaded.0;
        pointer = 0;
        obscured = false;
        known = both [];
        items = record { at_first = one.0; at_second = two.0 };
      }),
      two.1,
    )

unfoldable pub empty_devil : DevilState
empty_devil = record {
  hp = both 4;
  items = both [];
  known = both [];
  shells = [];
  pointer = 0;
  turn = Seat.first_seat;
  first = Seat.first_seat;
  saw = false;
  cuffed = both false;
  obscured = false;
  ended = false;
  eligible = [];
  forfeited = both false;
}

abbrev pub seat_of : ℕ → Seat
seat_of zero = Seat.first_seat
seat_of (suc n) = Seat.second_seat

unfoldable pub new_devil : {R : Type 0} → Source R → R → Checked (DevilState × R)
unfolding reload empty_devil
new_devil next r = reload next false empty_devil r >>= λ p. next p.1 2 >>= λ turn.
    let s = p.0 in
    let begun : DevilState = record s { turn = seat_of turn.0; first = seat_of turn.0 } in
    accepted (begun, turn.1)
