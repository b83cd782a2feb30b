-- ===== src/Blackjack/Totals.antt =====
-- The totals of a hand in `Evaluate` of internal/games/blackjack/cards.go.
use momiao.Base.{
  ℕ, ◌+◌, ◌≤◌, ◌≡◌, refl, sym, ap, ◌∙◌, true, false, Bool, Bool-cases, ◌||◌, ◌&&◌, List, [], ◌∷◌,
  ◌⊎◌, inl, inr, arith, ltb, leb, ◌==◌, length, subst,
}
use momiao.Blackjack.{
  Card, Value, Error, Checked, accepted, refused, ◌>>=◌, cards_in_shoe, point, count_points,
  value_of, evaluate,
}

-- A total that counts each ace as 1 or as 11, and any other card as its points.
abbrev pub Counts : List Card → ℕ → Type 0
Counts [] total = total ≡ 0
Counts (c ∷ cards) total =
    (rest : ℕ) × Counts cards rest
    × ((total ≡ point c.instance_id + rest) ⊎ (point c.instance_id ≡ 1) × (total ≡ 11 + rest))

-- The sum of the points, with one for each ace.
abbrev hard_of : List Card → ℕ
hard_of [] = 0
hard_of (c ∷ cards) = point c.instance_id + hard_of cards

abbrev has_ace : List Card → Bool
has_ace [] = false
has_ace (c ∷ cards) = point c.instance_id == 1 || has_ace cards

-- A total raises the sum by ten for some aces: by none, by one if there is an ace, or by two or
-- more, which the sum is at least.
abbrev Raised : ℕ → Bool → ℕ → Type 0
Raised hard ace total =
    (total ≡ hard) ⊎ ((ace ≡ true) × (total ≡ hard + 10)) ⊎ (hard + 20 ≤ total) × (2 ≤ hard)

ace-positive : (cards : List Card) → has_ace cards ≡ true → 1 ≤ hard_of cards
ace-positive [] h = ground arith
ace-positive (c ∷ cards) h = grind (arith, ace-positive cards)

ap-pair : {a b : ℕ} {x y : Bool} → a ≡ b → x ≡ y → ◌≡◌ {A = ℕ × Bool} (a, x) (b, y)
ap-pair h g = cc (h, g)

or_assoc : (a b c : Bool) → ((a || b) || c) ≡ (a || (b || c))
or_assoc true b c = refl
or_assoc false b c = refl

or_false : (a : Bool) → a ≡ (a || false)
or_false true = refl
or_false false = refl

pub refused-accepted : {A : Type 0} {e : Error} {a : A} → refused e ≡ accepted a → ⊥
refused-accepted h = cc

and_left : (a b : Bool) → (a && b) ≡ true → a ≡ true
and_left true b h = refl
and_left false b h = h

or_right : (a b : Bool) → b ≡ true → (a || b) ≡ true
or_right true b h = refl
or_right false b h = h

Counts-Raised :
    (cards : List Card) (total : ℕ)
    → Counts cards total
    → Raised (hard_of cards) (has_ace cards) total
Counts-Raised [] total h = inl h
Counts-Raised (c ∷ cards) total (rest, k, inl e) = elim (Counts-Raised cards rest k) [
  | inl same ↦ inl (omega arith)
  | inr (inl (ace, ten)) ↦
      inr (inl (or_right (point c.instance_id == 1) (has_ace cards) ace, omega arith))
  | inr (inr (more, two)) ↦ inr (inr (omega arith, omega arith))
]
Counts-Raised (c ∷ cards) total (rest, k, inr (one, e)) = elim (Counts-Raised cards rest k) [
  | inl same ↦ inr (inl (rw one refl, omega arith))
  | inr (inl (ace, ten)) ↦
      inr (inr (omega (arith, ace-positive cards ace), omega (arith, ace-positive cards ace)))
  | inr (inr (more, two)) ↦ inr (inr (omega arith, omega arith))
]

Counts-hard : (cards : List Card) → Counts cards (hard_of cards)
Counts-hard [] = refl
Counts-hard (c ∷ cards) = (hard_of cards, Counts-hard cards, inl refl)

Counts-soft : (cards : List Card) → has_ace cards ≡ true → Counts cards (hard_of cards + 10)
Counts-soft [] h = ground arith
Counts-soft (c ∷ cards) h = elim (Bool-cases (point c.instance_id == 1)) [
  | inl ace ↦
      let one : point c.instance_id ≡ 1 = ground arith in
      (hard_of cards, Counts-hard cards, inr (one, omega arith))
  | inr other ↦ (hard_of cards + 10, Counts-soft cards (rw other at h), inl (omega arith))
]

pub accepted-injective : {A : Type 0} {a b : A} → accepted a ≡ accepted b → a ≡ b
accepted-injective h = cc

-- The totals of cards that are counted.
abbrev sums : ℕ → Bool → List Card → ℕ × Bool
sums hard ace cards = (hard + hard_of cards, ace || has_ace cards)

sums-step :
    (hard : ℕ) (ace : Bool) (c : Card) (cards : List Card)
    → sums (hard + point c.instance_id) (ace || point c.instance_id == 1) cards
      ≡ sums hard ace (c ∷ cards)
sums-step hard ace c cards =
    ap-pair (omega arith) (or_assoc ace (point c.instance_id == 1) (has_ace cards))

count_points-sums :
    (cards : List Card) (hard : ℕ) (ace : Bool) (p : ℕ × Bool)
    → count_points hard ace cards ≡ accepted p
    → sums hard ace cards ≡ p
unfolding count_points
count_points-sums [] hard ace p h =
    ap-pair (omega arith) (sym (or_false ace)) ∙ accepted-injective h
count_points-sums (c ∷ cards) hard ace p h = elim (Bool-cases (leb cards_in_shoe c.instance_id)) [
  | inl bad ↦ elim (refused-accepted (rw (bad, count_points) at h)) [ ]
  | inr good ↦
      sym (sums-step hard ace c cards)
      ∙ count_points-sums cards (hard + point c.instance_id) (ace || point c.instance_id == 1) p
          (rw (good, count_points) at h)
]

value_of-best :
    (cards : List Card) (total : ℕ)
    → Counts cards total
    → total ≤ 21
    → (total ≤ (value_of (hard_of cards, has_ace cards)).best_total)
      × ((value_of (hard_of cards, has_ace cards)).best_total ≤ 21)
value_of-best cards total k h = elim (Counts-Raised cards total k) [
  | inl same ↦ ground arith
  | inr (inl (ace, ten)) ↦ ground arith
  | inr (inr (more, two)) ↦ ground arith
]

value_of-Counts :
    (cards : List Card) → Counts cards (value_of (hard_of cards, has_ace cards)).best_total
value_of-Counts cards = elim (Bool-cases (has_ace cards && leb (hard_of cards + 10) 21)) [
  | inl soft ↦
      rw soft (Counts-soft cards (and_left (has_ace cards) (leb (hard_of cards + 10) 21) soft))
  | inr hard ↦ rw hard (Counts-hard cards)
]

-- An accepted value passes on.
pub >>=-accepted :
    {A B : Type 0} (first : Checked A) (next : A → Checked B) {a : A} {value : B}
    → first ≡ accepted a
    → next a ≡ accepted value
    → (first >>= next) ≡ accepted value
>>=-accepted first next e h = rw (e) h

pub >>=-eq-accepted :
    {A B : Type 0} (first : Checked A) (next : A → Checked B) {value : B}
    → (first >>= next) ≡ accepted value
    → (a : A) × (first ≡ accepted a) × (next a ≡ accepted value)
>>=-eq-accepted (refused e) next h = elim (refused-accepted h) [ ]
>>=-eq-accepted (accepted a) next h = (a, refl, h)

evaluate-value :
    (cards : List Card) (v : Value)
    → evaluate cards ≡ accepted v
    → value_of (hard_of cards, has_ace cards) ≡ v
unfolding evaluate
evaluate-value cards v h = elim (Bool-cases (ltb cards_in_shoe (length cards))) [
  | inl many ↦ elim (refused-accepted (rw (many, evaluate) at h)) [ ]
  | inr few ↦
      let (p, counted, e) =
        >>=-eq-accepted (count_points 0 false cards) (λ p. accepted (value_of p))
          (rw (few, evaluate) at h) in
      let start : ◌≡◌ {A = ℕ × Bool} (hard_of cards, has_ace cards) p =
        ap-pair (omega arith) refl ∙ count_points-sums cards 0 false p counted in
      ap value_of start ∙ accepted-injective e
]

-- For an accepted hand with some total of at most 21, which counts each card by its points with
-- each ace as 1 or as 11, the best total is such a total too, is at most 21, and is no smaller.
pub evaluate-best :
    (cards : List Card) (v : Value) (total : ℕ)
    → evaluate cards ≡ accepted v
    → Counts cards total
    → total ≤ 21
    → Counts cards v.best_total × (total ≤ v.best_total) × (v.best_total ≤ 21)
unfolding evaluate
evaluate-best cards v total h k small =
    let counted : value_of (hard_of cards, has_ace cards) ≡ v = evaluate-value cards v h in
    let (least, within) = value_of-best cards total k small in
    subst (λ (u : Value). Counts cards u.best_total × (total ≤ u.best_total) × (u.best_total ≤ 21))
      counted (value_of-Counts cards, least, within)
