-- ===== src/Roulette/Tests.antt =====
-- A sample round of the devil roulette, whose source counts up.
use momiao.Base.{
  List, ℕ, ◌+◌, ◌≡◌, refl, true, false, [], ◌∷◌, ltb, if◌then◌else◌, arith, Bool-cases, inl, inr,
}
use momiao.Base.Int.{pos}
use momiao.Roulette.{
  random_int, Target, Item, Seat, DevilState, Checked, accepted, refused, Source, contains, item_eq,
  empty_devil, new_devil, item_legal, shoot, use_item, valid_item, apply_devil,
}
use momiao.Roulette.Loads.{random_int-IsFair, Holds, IsFair}
use momiao.Roulette.Tables.{IsTable, IsTabled, new_devil-IsTable}
use momiao.Roulette.Moves.{apply_devil-IsTable}

abbrev count : Source ℕ
count r n = if ltb r n then accepted (r, r + 1) else accepted (0, 1)

count-IsFair : IsFair count
count-IsFair r n h = elim (Bool-cases (ltb r n)) [
  | inl low ↦ rw (low) (ground arith)
  | inr high ↦ rw (high) h
]

unfoldable state_of : Checked (DevilState × ℕ) → DevilState
unfolding empty_devil
state_of (accepted p) = p.0
state_of (refused e) = empty_devil

unfoldable begun : DevilState
unfolding state_of new_devil
begun = state_of (new_devil count 1)

begun_items :
    (begun.items.at_first ≡ Item.adrenaline ∷ Item.inverter ∷ Item.phone ∷ [])
    × (begun.items.at_second ≡ Item.saw ∷ Item.inverter ∷ Item.beer ∷ [])
unfolding begun
begun_items = (refl, refl)

-- The first seat steals the saw, and then hits for two lives.
unfoldable stolen : DevilState
unfolding begun state_of apply_devil item_legal item_eq valid_item contains
stolen = state_of (apply_devil count begun (pos 0) (use_item Item.adrenaline Item.saw) 1)

stolen_items :
    (stolen.saw ≡ true)
    × (stolen.items.at_first ≡ Item.inverter ∷ Item.phone ∷ [])
    × (stolen.items.at_second ≡ Item.inverter ∷ Item.beer ∷ [])
unfolding stolen
stolen_items = (refl, refl, refl)

unfoldable shot_at : DevilState
unfolding stolen
shot_at = state_of (apply_devil count stolen (pos 0) (shoot Target.opponent) 1)

shot_lives : (shot_at.hp.at_second ≡ 2) × (shot_at.saw ≡ false) × (shot_at.turn ≡ Seat.second_seat)
unfolding shot_at
shot_lives = (refl, refl, refl)

new_devil-IsTable_example : Holds IsTabled (new_devil count 1)
new_devil-IsTable_example = new_devil-IsTable count 1 count-IsFair

begun-IsTable : IsTable begun
unfolding begun
begun-IsTable = new_devil-IsTable_example

abbrev words : List ℕ
words = 7 ∷ 4_294_967_295 ∷ 12 ∷ []

apply_devil-IsTable_example :
    Holds IsTabled (apply_devil random_int begun (pos 0) (use_item Item.adrenaline Item.saw) words)
apply_devil-IsTable_example =
    apply_devil-IsTable random_int begun (pos 0) (use_item Item.adrenaline Item.saw) words
      random_int-IsFair begun-IsTable
