-- ===== src/Blackjack/Round/Plays.antt =====
-- What playing one action changes in a round of internal/games/blackjack/blackjack.go: the stakes
-- and the number of the hands.
use momiao.Base.{
  ℕ, ◌+◌, ◌*◌, ◌/◌, ◌≤◌, ◌<◌, ◌≡◌, refl, ◌∙◌, ap, subst, Bool, true, false, not, ◌||◌, List, [],
  ◌∷◌, arith, length, ◌⊎◌, inl, inr, All, leb, ◌==◌, any, if◌then◌else◌, String,
}
use momiao.Base.Int.{ℤ, pos, ltb_ℤ}
use momiao.Base.Sums.{sum_by}
use text.Mathlib.Text.{◌==◌ as str_eq}
use momiao.Blackjack.{Card, Error, Checked, accepted, refuse_if}
use momiao.Blackjack.Totals.{accepted-injective, refused-accepted, >>=-eq-accepted}
use momiao.Blackjack.Round.Types.{max_hands, HandStatus, ActionType, Hand, Action, State}
use momiao.Blackjack.Round.Deal.{draw}
use momiao.Blackjack.Round.Play.{
  is_active, is_pair, Played, hit_hand, play_hit, double_hand, play_double, right_boundary,
  split_cards, play_split, play,
}
use momiao.Blackjack.Round.Draws.{ShoeOnly, draw-ShoeOnly, ShoeOnly-trans, draw-index}

-- A hand holds the initial wager, or twice as much once it is doubled, and is then complete.
abbrev pub IsStaked : ℕ → Hand → Type 0
IsStaked wager h =
    (h.stake_units ≡ wager) ⊎ ((h.stake_units ≡ wager * 2) × (is_active h.status ≡ false))

abbrev pub stakes : List Hand → ℕ
stakes = sum_by (λ (h : Hand). h.stake_units)

abbrev pub Unnatural : Hand → Type 0
Unnatural h = h.natural ≡ false

-- How many hands are done.
abbrev pub done : List Hand → ℕ
done = sum_by (λ (h : Hand). if is_active h.status then 0 else 1)

-- What a play of an active hand leaves: hands with proper stakes in its place, a stake that the
-- balance covers, and a state that changes in its shoe alone.
pub record IsPlay (shoe : List ℕ) (wager : ℕ) (available : ℤ) (h : Hand) (s : State) (p : Played)
    : Type 0 where
  pub staked : All (IsStaked wager) p.1
  pub unnatural : All Unnatural p.1
  pub added : stakes p.1 ≡ h.stake_units + p.0
  pub covered : (p.0 ≡ 0) ⊎ (ltb_ℤ available (pos p.0) ≡ false)
  pub some_hand : 1 ≤ length p.1
  pub few_hands : length s.hands + length p.1 ≤ max_hands + 1
  pub shoe_only : ShoeOnly s p.2
  pub paced : s.shoe_index + 1 ≤ p.2.shoe_index + done p.1
  pub in_shoe : s.shoe_index ≤ length shoe → p.2.shoe_index ≤ length shoe

pub refuse_if-eq-accepted :
    (b : Bool) (e : Error) {u : Unit {0}} → refuse_if b e ≡ accepted u → b ≡ false
refuse_if-eq-accepted false e h = refl
refuse_if-eq-accepted true e h = elim (refused-accepted h) [ ]

module _ (wager : ℕ) (available : ℤ) (h : Hand) (s : State) (stake : h.stake_units ≡ wager)
    (plain : h.natural ≡ false) (many : length s.hands ≤ max_hands) where
  hit_hand-parts :
      (c : Card)
      → ((hit_hand c h).stake_units ≡ h.stake_units) × ((hit_hand c h).natural ≡ h.natural)
  unfolding hit_hand
  hit_hand-parts c = ground arith

  play_hit-IsPlay :
      (shoe : List ℕ) (p : Played)
      → play_hit shoe h s ≡ accepted p
      → IsPlay shoe wager available h s p
  unfolding play_hit
  play_hit-IsPlay shoe p e =
      let ((c, t), took, e') = >>=-eq-accepted (draw shoe s) _ e in
      let (index, left) = draw-index shoe s c t took in
      let parts = hit_hand-parts c in
      subst (IsPlay shoe wager available h s) (accepted-injective e') (record {
        staked = (inl (parts.0 ∙ stake), tt);
        unnatural = (parts.1 ∙ plain, tt);
        added = omega arith;
        covered = inl refl;
        some_hand = omega arith;
        few_hands = omega arith;
        shoe_only = draw-ShoeOnly shoe s c t took;
        paced = omega (arith, index);
        in_shoe = λ low. omega (arith, index, left);
      })

  stood-IsPlay :
      (shoe : List ℕ) (p : Played)
      → ◌≡◌ {A = Checked Played}
          (accepted (0, record h { status = HandStatus.stood } ∷ [], s))
          (accepted p)
      → IsPlay shoe wager available h s p
  stood-IsPlay shoe p e = subst (IsPlay shoe wager available h s) (accepted-injective e) (record {
    staked = (inl stake, tt);
    unnatural = (plain, tt);
    added = omega arith;
    covered = inl refl;
    some_hand = omega arith;
    few_hands = omega arith;
    shoe_only = refl;
    paced = omega arith;
    in_shoe = λ low. low;
  })

  play_double-IsPlay :
      (shoe : List ℕ) (p : Played)
      → play_double shoe available h s ≡ accepted p
      → IsPlay shoe wager available h s p
  unfolding play_double double_hand
  play_double-IsPlay shoe p e =
      let (_, _, e₁) =
        >>=-eq-accepted
          (refuse_if (not (length h.cards == 2) || h.split_aces) Error.action_not_allowed) _ e in
      let (_, rich, e₂) =
        >>=-eq-accepted
          (refuse_if (ltb_ℤ available (pos h.stake_units)) Error.insufficient_for_double) _ e₁ in
      let ((c, t), took, e') = >>=-eq-accepted (draw shoe s) _ e₂ in
      let (index, left) = draw-index shoe s c t took in
      subst (IsPlay shoe wager available h s) (accepted-injective e') (record {
        staked = (inr (ap (λ (n : ℕ). n * 2) stake, refl), tt);
        unnatural = (plain, tt);
        added = omega arith;
        covered = inr (refuse_if-eq-accepted _ _ rich);
        some_hand = omega arith;
        few_hands = omega arith;
        shoe_only = draw-ShoeOnly shoe s c t took;
        paced = omega (arith, index);
        in_shoe = λ low. omega (arith, index, left);
      })

  split_cards-IsPlay :
      (shoe : List ℕ) (id : String) (index : ℕ) (cards : List Card) (p : Played)
      → length s.hands < max_hands
      → ltb_ℤ available (pos h.stake_units) ≡ false
      → split_cards shoe id index h s cards ≡ accepted p
      → IsPlay shoe wager available h s p
  unfolding split_cards
  split_cards-IsPlay shoe id index [] p few rich e = elim (refused-accepted e) [ ]
  split_cards-IsPlay shoe id index (a ∷ []) p few rich e = elim (refused-accepted e) [ ]
  split_cards-IsPlay shoe id index (a ∷ b ∷ c ∷ cards) p few rich e = elim (refused-accepted e) [ ]
  split_cards-IsPlay shoe id index (a ∷ b ∷ []) p few rich e =
      let ((left, t), took, e₁) = >>=-eq-accepted (draw shoe s) _ e in
      let ((right, u), took', e₂) = >>=-eq-accepted (draw shoe t) _ e₁ in
      let (index, _) = draw-index shoe s left t took in
      let (index', left') = draw-index shoe t right u took' in
      subst (IsPlay shoe wager available h s) (accepted-injective e₂) (record {
        staked = (inl stake, (inl stake, tt));
        unnatural = (refl, (refl, tt));
        added = omega arith;
        covered = inr rich;
        some_hand = omega arith;
        few_hands = omega arith;
        shoe_only =
            ShoeOnly-trans s t u (draw-ShoeOnly shoe s left t took)
              (draw-ShoeOnly shoe t right u took');
        paced = omega (arith, index, index');
        in_shoe = λ low. omega (arith, index', left');
      })

  play_split-IsPlay :
      (shoe : List ℕ) (new_id : String) (after : List Hand) (p : Played)
      → play_split shoe available new_id after h s ≡ accepted p
      → IsPlay shoe wager available h s p
  unfolding play_split
  play_split-IsPlay shoe new_id after p e =
      let (_, _, e₁) =
        >>=-eq-accepted (refuse_if (not (is_pair h.cards) || h.split_aces) Error.action_not_allowed)
          _ e in
      let (_, few, e₂) =
        >>=-eq-accepted (refuse_if (leb max_hands (length s.hands)) Error.max_hands_reached) _ e₁ in
      let (_, rich, e₃) =
        >>=-eq-accepted
          (refuse_if (ltb_ℤ available (pos h.stake_units)) Error.insufficient_for_split) _ e₂ in
      let (_, _, e₄) =
        >>=-eq-accepted
          (refuse_if (str_eq new_id "" || any (λ (o : Hand). str_eq o.id new_id) s.hands)
            Error.action_not_allowed)
          _ e₃ in
      let (_, _, e₅) =
        >>=-eq-accepted
          (refuse_if (leb ((h.index + right_boundary after) / 2) h.index) Error.needs_review) _
          e₄ in
      let room : leb max_hands (length s.hands) ≡ false = refuse_if-eq-accepted _ _ few in
      split_cards-IsPlay shoe new_id ((h.index + right_boundary after) / 2) h.cards p (ground arith)
        (refuse_if-eq-accepted _ _ rich) e₅

  pub play-IsPlay :
      (shoe : List ℕ) (a : Action) (after : List Hand) (p : Played)
      → play shoe a available after h s ≡ accepted p
      → IsPlay shoe wager available h s p
  unfolding play
  play-IsPlay shoe a after p e = go a.type refl
    where
      go : (k : ActionType) → a.type ≡ k → IsPlay shoe wager available h s p
      go ActionType.hit q = play_hit-IsPlay shoe p (rw (q, play) at e)
      go ActionType.stand q = stood-IsPlay shoe p (rw (q, play) at e)
      go ActionType.system_auto_stand q = stood-IsPlay shoe p (rw (q, play) at e)
      go ActionType.double q = play_double-IsPlay shoe p (rw (q, play) at e)
      go ActionType.split q = play_split-IsPlay shoe a.new_hand_id after p (rw (q, play) at e)
      go (ActionType.other_type text) q = elim (refused-accepted (rw (q, play) at e)) [ ]
