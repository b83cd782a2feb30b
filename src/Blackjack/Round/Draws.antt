-- ===== src/Blackjack/Round/Draws.antt =====
-- What drawing from the shoe changes in a round of internal/games/blackjack/blackjack.go.
use momiao.Base.{
  ℕ, zero, suc, ◌+◌, ◌≤◌, ◌<◌, ◌≡◌, ◌≢◌, refl, sym, ◌∙◌, ap, subst, List, [], ◌∷◌, ◌++◌, some,
  arith, leb, length, get_elem?, lt-length_of_get_elem?, Option-cases, Bool-cases, ◌⊎◌, inl, inr,
}
use momiao.Blackjack.{Card, Error, Checked, accepted, refused}
use momiao.Blackjack.Totals.{accepted-injective, refused-accepted, >>=-eq-accepted}
use momiao.Blackjack.Round.Types.{State}
use momiao.Blackjack.Round.Deal.{draw, value_of_cards}
use momiao.Blackjack.Round.Play.{dealer_draws}

-- The state after the card at the shoe's index is drawn.
abbrev pub next_card : List ℕ → State → ℕ → Card
next_card shoe s v = record { shoe_index = s.shoe_index; instance_id = v }

abbrev pub drawn : State → Card → State
drawn s c = record s { shoe_index = s.shoe_index + 1; dealt = s.dealt ++ c ∷ [] }

-- A draw takes the shoe's next card.
pub draw-drawn :
    (shoe : List ℕ) (s : State) (c : Card) (t : State)
    → draw shoe s ≡ accepted (c, t)
    → (get_elem? shoe s.shoe_index ≡ some c.instance_id)
      × (c.shoe_index ≡ s.shoe_index)
      × (t ≡ drawn s c)
unfolding draw
draw-drawn shoe s c t e = elim (Option-cases (get_elem? shoe s.shoe_index)) [
  | inl out ↦ elim (refused-accepted (rw (out, draw) at e)) [ ]
  | inr (v, found) ↦
      let p : ◌≡◌ {A = Card × State} (next_card shoe s v, drawn s (next_card shoe s v)) (c, t) =
        accepted-injective (rw (found, draw) at e) in
      let same : next_card shoe s v ≡ c = ap (λ (q : Card × State). q.0) p in
      (
        found ∙ ap (λ (d : Card). some d.instance_id) same,
        ap (λ (d : Card). d.shoe_index) (sym same),
        sym (ap (λ (q : Card × State). q.1) p) ∙ ap (drawn s) same,
      )
]

-- A state that differs in its shoe's index and the cards dealt alone.
abbrev pub ShoeOnly : State → State → Type 0
ShoeOnly s t = t ≡ record s { shoe_index = t.shoe_index; dealt = t.dealt }

pub draw-ShoeOnly :
    (shoe : List ℕ) (s : State) (c : Card) (t : State)
    → draw shoe s ≡ accepted (c, t)
    → ShoeOnly s t
draw-ShoeOnly shoe s c t e =
    let (_, _, same) = draw-drawn shoe s c t e in subst (ShoeOnly s) (sym same) refl

-- A draw moves the shoe's index on by one, within the shoe.
pub draw-index :
    (shoe : List ℕ) (s : State) (c : Card) (t : State)
    → draw shoe s ≡ accepted (c, t)
    → (t.shoe_index ≡ s.shoe_index + 1) × (s.shoe_index < length shoe)
draw-index shoe s c t e =
    let (found, _, same) = draw-drawn shoe s c t e in
    (ap (λ (x : State). x.shoe_index) same, lt-length_of_get_elem? shoe s.shoe_index found)

pub ShoeOnly-trans : (s t u : State) → ShoeOnly s t → ShoeOnly t u → ShoeOnly s u
ShoeOnly-trans s t u h k =
    k
    ∙ ap
        (λ (x : State).
          let y : State = record x { shoe_index = u.shoe_index; dealt = u.dealt } in y)
        h

-- The dealer's draws change the dealer's cards and the shoe alone, and end at 17 or more.
pub record Dealt (s t : State) : Type 0 where
  pub rest : t ≡ record s { dealer = t.dealer; dealt = t.dealt; shoe_index = t.shoe_index }
  pub later : s.shoe_index ≤ t.shoe_index
  pub stands : 17 ≤ (value_of_cards t.dealer).best_total

pub dealer_draws-Dealt :
    (fuel : ℕ) (shoe : List ℕ) (s t : State) → dealer_draws fuel shoe s ≡ accepted t → Dealt s t
unfolding dealer_draws
dealer_draws-Dealt zero shoe s t e = elim (refused-accepted e) [ ]
dealer_draws-Dealt (suc fuel) shoe s t e =
    elim (Bool-cases (leb 17 (value_of_cards s.dealer).best_total)) [
      | inl stop ↦
          subst (Dealt s) (accepted-injective (rw (stop, dealer_draws) at e))
            (record { rest = refl; later = omega arith; stands = ground arith })
      | inr more ↦
          let ((c, u), took, e') = >>=-eq-accepted (draw shoe s) _ (rw (more, dealer_draws) at e) in
          let (_, _, same) = draw-drawn shoe s c u took in
          let d = dealer_draws-Dealt fuel shoe (record u { dealer = u.dealer ++ c ∷ [] }) t e' in
          record {
            rest =
                d.rest
                ∙ ap
                    (λ (x : State).
                      let y : State = record x {
                        dealer = t.dealer;
                        dealt = t.dealt;
                        shoe_index = t.shoe_index;
                      } in
                      y)
                    same;
            later = omega (arith, d.later, (draw-index shoe s c u took).0);
            stands = d.stands;
          }
    ]

needs_review-out_of_fuel :
    {A : Type 0} → ◌≡◌ {A = Checked A} (refused Error.needs_review) (refused Error.out_of_fuel) → ⊥
needs_review-out_of_fuel e = cc

pub draw-cases :
    (shoe : List ℕ) (s : State)
    → (draw shoe s ≡ refused Error.needs_review)
      ⊎ (s.shoe_index < length shoe) × (c : Card) × (draw shoe s ≡ accepted (c, drawn s c))
unfolding draw
draw-cases shoe s = elim (Option-cases (get_elem? shoe s.shoe_index)) [
  | inl out ↦ inl (rw (out, draw))
  | inr (v, found) ↦
      inr (lt-length_of_get_elem? shoe s.shoe_index found, next_card shoe s v, rw (found, draw))
]

-- With more fuel than cards left in the shoe, the dealer's draws never run out of it.
pub dealer_draws-ends :
    (fuel : ℕ) (shoe : List ℕ) (s : State)
    → length shoe < s.shoe_index + fuel
    → s.shoe_index ≤ length shoe
    → dealer_draws fuel shoe s ≢ refused Error.out_of_fuel
unfolding dealer_draws
dealer_draws-ends zero shoe s h k e = omega arith
dealer_draws-ends (suc fuel) shoe s h k e =
    elim (Bool-cases (leb 17 (value_of_cards s.dealer).best_total)) [
      | inl stop ↦ refused-accepted (sym (rw (stop, dealer_draws) at e))
      | inr more ↦ elim (draw-cases shoe s) [
        | inl out ↦ needs_review-out_of_fuel (rw (more, dealer_draws, out) at e)
        | inr (low, c, found) ↦
            dealer_draws-ends fuel shoe (record (drawn s c) { dealer = s.dealer ++ c ∷ [] })
              (omega arith) (omega arith) (rw (more, dealer_draws, found) at e)
      ]
    ]

pub dealer_draws-index :
    (fuel : ℕ) (shoe : List ℕ) (s t : State)
    → s.shoe_index ≤ length shoe
    → dealer_draws fuel shoe s ≡ accepted t
    → t.shoe_index ≤ length shoe
unfolding dealer_draws
dealer_draws-index zero shoe s t low e = elim (refused-accepted e) [ ]
dealer_draws-index (suc fuel) shoe s t low e =
    elim (Bool-cases (leb 17 (value_of_cards s.dealer).best_total)) [
      | inl stop ↦
          subst (λ (x : State). x.shoe_index ≤ length shoe)
            (accepted-injective (rw (stop, dealer_draws) at e)) low
      | inr more ↦
          let ((c, u), took, e') = >>=-eq-accepted (draw shoe s) _ (rw (more, dealer_draws) at e) in
          let (next, left) = draw-index shoe s c u took in
          dealer_draws-index fuel shoe (record u { dealer = u.dealer ++ c ∷ [] }) t
            (omega (arith, next, left)) e'
    ]
