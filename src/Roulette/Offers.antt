-- ===== src/Roulette/Offers.antt =====
-- The items that `actions` of internal/roulette/devil.go offers.
use momiao.Base.{
  ℕ, suc, ◌+◌, ◌≡◌, refl, sym, ◌∙◌, subst, String, Bool, true, false, not, ◌||◌, ◌&&◌, List, [],
  ◌∷◌, ◌++◌, arith, ◌==◌, ==→eq, if◌then◌else◌, length, any, ◌⊎◌, Bool-cases, inl, inr,
}
use text.Mathlib.Text.{◌==◌ as str_eq}
use text.Mathlib.TextEquality.{eq_iff}
use momiao.Roulette.Types.{
  Kind, Target, Item, Action, Seat, other, at, DevilState, seat_eq, item_code, item_text, item_eq,
  target_eq, kind_eq, agree_eq, action_eq,
}
use momiao.Roulette.Load.{contains}
use momiao.Roulette.Devil.{
  valid_item, no_item, item_legal, stolen_items, item_actions, actions, surrender_action, shoot,
  use_item, remove_item,
}
use momiao.Roulette.Loads.{Holds, >>=-Holds}

pub true-false : false ≡ true → ⊥
true-false h = cc

and-both : (a b : Bool) → (a && b) ≡ true → (a ≡ true) × (b ≡ true)
and-both true true h = (refl, refl)
and-both true false h = elim (true-false h) [ ]
and-both false b h = elim (true-false h) [ ]

or-cases : (a b : Bool) → (a || b) ≡ true → (a ≡ true) ⊎ (b ≡ true)
or-cases true b h = inl refl
or-cases false b h = inr h

or_left : (a b : Bool) → a ≡ true → (a || b) ≡ true
or_left true b h = refl
or_left false b h = elim (true-false h) [ ]

or_right : (a b : Bool) → b ≡ true → (a || b) ≡ true
or_right true b h = refl
or_right false b h = h

-- The item that a code and a text stand for.
item_of : ℕ → String → Item
item_of n text =
    if n == 0
    then Item.handcuffs
    else if n == 1
    then Item.adrenaline
    else if n == 2
    then Item.saw
    else if n == 3
    then Item.magnifier
    else if n == 4
    then Item.inverter
    else if n == 5
    then Item.phone
    else if n == 6
    then Item.beer
    else if n == 7
    then Item.cigarette
    else if n == 8
    then Item.medicine
    else Item.other_item text

item_of-code : (a : Item) → item_of (item_code a) (item_text a) ≡ a
unfolding item_of
item_of-code Item.handcuffs = refl
item_of-code Item.adrenaline = refl
item_of-code Item.saw = refl
item_of-code Item.magnifier = refl
item_of-code Item.inverter = refl
item_of-code Item.phone = refl
item_of-code Item.beer = refl
item_of-code Item.cigarette = refl
item_of-code Item.medicine = refl
item_of-code (Item.other_item text) = refl

pub item_eq-eq : (a b : Item) → item_eq a b ≡ true → a ≡ b
unfolding item_eq
item_eq-eq a b h =
    let (p, q) = and-both (item_code a == item_code b) (str_eq (item_text a) (item_text b)) h in
    let e = ==→eq (item_code a) (item_code b) p in
    let f = (eq_iff (item_text a) (item_text b)).0 q in
    sym (item_of-code a) ∙ (λ i. item_of (e i) (f i)) ∙ item_of-code b

-- What the comparison of two actions gives.
action_eq-parts :
    (v a : Action)
    → action_eq v a ≡ true
    → (kind_eq v.kind a.kind ≡ true)
      × (item_eq v.item a.item ≡ true)
      × (item_eq v.stolen_item a.stolen_item ≡ true)
unfolding action_eq
action_eq-parts v a h =
    let (h₁, _) =
      and-both
        (kind_eq v.kind a.kind
          && target_eq v.target a.target
          && item_eq v.item a.item
          && item_eq v.stolen_item a.stolen_item)
        (agree_eq v.agree a.agree) h in
    let (h₂, stolen) =
      and-both (kind_eq v.kind a.kind && target_eq v.target a.target && item_eq v.item a.item)
        (item_eq v.stolen_item a.stolen_item) h₁ in
    let (h₃, item) =
      and-both (kind_eq v.kind a.kind && target_eq v.target a.target) (item_eq v.item a.item) h₂ in
    let (kind, _) = and-both (kind_eq v.kind a.kind) (target_eq v.target a.target) h₃ in
    (kind, item, stolen)

any-append :
    {A : Type 0} (p : A → Bool) (xs ys : List A)
    → any p (xs ++ ys) ≡ true
    → (any p xs ≡ true) ⊎ (any p ys ≡ true)
any-append p [] ys h = inr h
any-append p (x ∷ xs) ys h = elim (or-cases (p x) (any p (xs ++ ys)) h) [
  | inl here ↦ inl (or_left (p x) (any p xs) here)
  | inr later ↦ elim (any-append p xs ys later) [
    | inl one ↦ inl (or_right (p x) (any p xs) one)
    | inr two ↦ inr two
  ]
]

-- An action that is offered for stealing takes an item that is held.
stolen_items-held :
    (seen items : List Item) (a : Action)
    → any (λ (v : Action). action_eq v a) (stolen_items seen items) ≡ true
    → (Item.adrenaline ≡ a.item) × (contains items a.stolen_item ≡ true)
unfolding stolen_items contains
stolen_items-held seen [] a h = elim (true-false h) [ ]
stolen_items-held seen (item ∷ rest) a h =
    elim (Bool-cases
      (not (contains seen item) && valid_item item && not (item_eq item Item.adrenaline))) [
        | inr no_more ↦
            let (used, held) = stolen_items-held seen rest a (rw (no_more, stolen_items) at h) in
            (used, or_right (item_eq item a.stolen_item) (contains rest a.stolen_item) held)
        | inl offered ↦
            elim (or-cases (action_eq (use_item Item.adrenaline item) a)
              (any (λ (v : Action). action_eq v a) (stolen_items (item ∷ seen) rest))
              (rw (offered, stolen_items) at h)) [
                | inl same ↦
                    let (_, used, stolen) =
                      action_eq-parts (use_item Item.adrenaline item) a same in
                    (
                      item_eq-eq Item.adrenaline a.item used,
                      or_left (item_eq item a.stolen_item) (contains rest a.stolen_item) stolen,
                    )
                | inr later ↦
                    let (used, held) = stolen_items-held (item ∷ seen) rest a later in
                    (used, or_right (item_eq item a.stolen_item) (contains rest a.stolen_item) held)
              ]
      ]

-- The item of an action is held, and what adrenaline steals is held by the other seat.
abbrev pub IsOffered : DevilState → Seat → List Item → Action → Type 0
IsOffered s seat items a =
    (contains items a.item ≡ true)
    × (a.item ≡ Item.adrenaline → contains (at (other seat) s.items) a.stolen_item ≡ true)

later-IsOffered :
    (s : DevilState) (seat : Seat) (item : Item) (rest : List Item) (a : Action)
    → IsOffered s seat rest a
    → IsOffered s seat (item ∷ rest) a
unfolding contains
later-IsOffered s seat item rest a (held, stolen) =
    (or_right (item_eq item a.item) (contains rest a.item) held, stolen)

item_actions-IsOffered :
    (s : DevilState) (seat : Seat) (seen items : List Item) (a : Action)
    → any (λ (v : Action). action_eq v a) (item_actions s seat seen items) ≡ true
    → IsOffered s seat items a
unfolding item_actions contains
item_actions-IsOffered s seat seen [] a h = elim (true-false h) [ ]
item_actions-IsOffered s seat seen (item ∷ rest) a h = elim (Bool-cases (contains seen item)) [
  | inl known ↦
      later-IsOffered s seat item rest a
        (item_actions-IsOffered s seat seen rest a (rw (known, item_actions) at h))
  | inr fresh ↦ elim (Bool-cases (item_eq item Item.adrenaline)) [
    | inl steals ↦
        elim (any-append (λ (v : Action). action_eq v a) (stolen_items [] (at (other seat) s.items))
          (item_actions s seat (item ∷ seen) rest) (rw (fresh, steals, item_actions) at h)) [
            | inl one ↦
                let (used, held) = stolen_items-held [] (at (other seat) s.items) a one in
                (
                  or_left (item_eq item a.item) (contains rest a.item)
                      (subst (λ (x : Item). item_eq item x ≡ true) used steals),
                  λ _. held,
                )
            | inr later ↦
                later-IsOffered s seat item rest a
                  (item_actions-IsOffered s seat (item ∷ seen) rest a later)
          ]
    | inr plain ↦ elim (Bool-cases (item_legal s seat item)) [
      | inr illegal ↦ later-IsOffered s seat item rest a (
          item_actions-IsOffered s seat (item ∷ seen) rest a
            (rw (fresh, plain, illegal, item_actions) at h))
      | inl legal ↦
          elim (or-cases (action_eq (use_item item no_item) a)
            (any (λ (v : Action). action_eq v a) (item_actions s seat (item ∷ seen) rest))
            (rw (fresh, plain, legal, item_actions) at h)) [
              | inl same ↦
                  let (_, used, _) = action_eq-parts (use_item item no_item) a same in
                  (
                    or_left (item_eq item a.item) (contains rest a.item) used,
                    λ steals.
                        elim (true-false (
                          sym plain ∙ subst (λ (x : Item). item_eq item x ≡ true) steals used)) [ ],
                  )
              | inr later ↦
                  later-IsOffered s seat item rest a
                    (item_actions-IsOffered s seat (item ∷ seen) rest a later)
            ]
    ]
  ]
]

-- An action of another kind is not the use of an item.
other_kind_no :
    (v a : Action)
    → kind_eq v.kind Kind.devil_item ≡ false
    → a.kind ≡ Kind.devil_item
    → action_eq v a ≡ true
    → ⊥
other_kind_no v a differs item h =
    true-false
      (sym differs ∙ subst (λ (k : Kind). kind_eq v.kind k ≡ true) item (action_eq-parts v a h).0)

pub actions-IsOffered :
    (s : DevilState) (seat : Seat) (a : Action)
    → a.kind ≡ Kind.devil_item
    → any (λ (v : Action). action_eq v a) (actions s seat) ≡ true
    → IsOffered s seat (at seat s.items) a
unfolding actions kind_eq item_legal
actions-IsOffered s seat a item h = elim (Bool-cases s.ended) [
  | inl over ↦ elim (true-false (rw (over, actions) at h)) [ ]
  | inr on ↦ elim (Bool-cases (not (seat_eq seat s.turn))) [
    | inl waits ↦
        elim (or-cases (action_eq surrender_action a) false (rw (on, waits, actions) at h)) [
          | inl one ↦ elim (other_kind_no surrender_action a refl item one) [ ]
          | inr none_left ↦ elim (true-false none_left) [ ]
        ]
    | inr acts ↦ elim (or-cases (action_eq surrender_action a) _ (rw (on, acts, actions) at h)) [
      | inl one ↦ elim (other_kind_no surrender_action a refl item one) [ ]
      | inr h₁ ↦ elim (or-cases (action_eq (shoot Target.self) a) _ h₁) [
        | inl two ↦ elim (other_kind_no (shoot Target.self) a refl item two) [ ]
        | inr h₂ ↦ elim (or-cases (action_eq (shoot Target.opponent) a) _ h₂) [
          | inl three ↦ elim (other_kind_no (shoot Target.opponent) a refl item three) [ ]
          | inr h₃ ↦ item_actions-IsOffered s seat [] (at seat s.items) a h₃
        ]
      ]
    ]
  ]
]

-- An item that is held can be removed, and leaves one fewer.
pub remove_item-length :
    (items : List Item) (item : Item)
    → contains items item ≡ true
    → Holds (λ (left : List Item). length left + 1 ≡ length items) (remove_item items item)
unfolding remove_item contains
remove_item-length [] item h = elim (true-false h) [ ]
remove_item-length (v ∷ items) item h = elim (Bool-cases (item_eq v item)) [
  | inl here ↦ rw (here, remove_item) (omega arith)
  | inr other_item ↦
      rw (other_item, remove_item)
        (>>=-Holds (λ (left : List Item). length left + 1 ≡ length items)
          (λ (left : List Item). length left + 1 ≡ suc (length items)) (remove_item items item) _
          (remove_item-length items item (rw (other_item) at h)) (λ left e. omega (arith, e)))
]
