-- ===== src/Blackjack/Round/Opening.antt =====
-- The dealt hand of `New` in internal/games/blackjack/blackjack.go.
use momiao.Base.{
  ℕ, ◌+◌, ◌*◌, ◌≤◌, ◌≡◌, refl, sym, ◌∙◌, ap, subst, Bool, true, false, not, ◌||◌, List, [], ◌∷◌,
  arith, inl, inr, ◌==◌, if◌then◌else◌, String, some, Bool-cases,
}
use text.Mathlib.TextPositions.{eq_refl}
use momiao.Blackjack.{Card, Value}
use momiao.Blackjack.Round.Types.{inactivity, max_int64, HandStatus, Phase, Hand, State, Time}
use momiao.Blackjack.Round.Deal.{
  value_of_cards, revalue, draw_card, outcome_of, settle_hand, settle_hands, settle, deal_four,
  peek_hand, open_round, dealt_hand, first_hand, initial_state, has_natural,
}
use momiao.Blackjack.Round.Play.{is_active, find_active, next_active}
use momiao.Blackjack.Round.Draws.{ShoeOnly, ShoeOnly-trans, draw-cases}
use momiao.Blackjack.Round.Rounds.{true-false, HasStakes, InPhase, IsRound}

draw_card-ShoeOnly : (shoe : List ℕ) (s : State) → ShoeOnly s (draw_card shoe s).1
unfolding draw_card
draw_card-ShoeOnly shoe s = elim (draw-cases shoe s) [
  | inl out ↦ rw (out, draw_card) refl
  | inr (_, c, e) ↦ rw (e, draw_card) refl
]

-- A single dealt hand with the whole wager.
pub record IsOpening (s : State) (h : Hand) : Type 0 where
  pub fits : 16 * s.initial_wager_units ≤ max_int64
  pub stake : h.stake_units ≡ s.initial_wager_units
  pub total : s.total_stake_units ≡ s.initial_wager_units
  pub turn : s.phase ≡ Phase.player_turn
  pub unpaid : s.total_payout_units ≡ 0
  pub hidden : s.dealer_revealed ≡ false
  pub live : is_active h.status ≡ not h.natural

one_stake :
    (s : State) (h g : Hand)
    → IsOpening s h
    → g.stake_units ≡ h.stake_units
    → HasStakes s.initial_wager_units s.total_stake_units (g ∷ [])
one_stake s h g o e = record {
  wager_fits = o.fits;
  staked = (inl (e ∙ o.stake), tt);
  total_stakes = omega (arith, o.total, o.stake, e);
  some_hand = omega arith;
  few_hands = omega arith;
}

-- Even a natural is paid at most three times its stake.
outcome_of-le_three :
    (dealer : Value) (n : Bool) (h : Hand) → (outcome_of dealer n h).1 ≤ h.stake_units * 3
unfolding outcome_of
outcome_of-le_three dealer n h = ground arith

settle_one-IsRound :
    (s : State) (h : Hand)
    → HasStakes s.initial_wager_units s.total_stake_units (h ∷ [])
    → h.stake_units ≡ s.initial_wager_units
    → is_active h.status ≡ false
    → IsRound (settle (record s { hands = h ∷ [] }))
unfolding settle settle_hands settle_hand next_active
settle_one-IsRound s h k e done = record {
  has_stakes = record {
    wager_fits = k.wager_fits;
    staked = (inl e, tt);
    total_stakes = k.total_stakes;
    some_hand = omega arith;
    few_hands = omega arith;
  };
  in_phase = (
    rw (done, next_active) refl,
    refl,
    omega (arith, e, outcome_of-le_three (value_of_cards s.dealer) (has_natural s.dealer) h),
    refl,
  );
}

closed_status : Hand → HandStatus
closed_status h = if h.natural then h.status else HandStatus.stood

closed-inactive :
    (h : Hand) → is_active h.status ≡ not h.natural → is_active (closed_status h) ≡ false
unfolding closed_status
closed-inactive h live = elim (Bool-cases h.natural) [
  | inl natural ↦ rw (natural) (live ∙ ap not natural)
  | inr plain ↦ rw (plain) refl
]

or_right : (a b : Bool) → (a || b) ≡ false → b ≡ false
or_right true b h = elim (true-false (sym h)) [ ]
or_right false b h = h

alone : (h : Hand) → is_active h.status ≡ true → find_active h.id (h ∷ []) ≡ some ([], h, [])
unfolding find_active
alone h live = rw (find_active, eq_refl, live) refl

pub open_round-IsRound :
    (now : Time) (h : Hand) (s : State) → IsOpening s h → IsRound (open_round now h s)
unfolding open_round closed_status
open_round-IsRound now h s o =
    elim (Bool-cases ((value_of_cards s.dealer).best_total == 21 || h.natural)) [
      | inl over ↦ rw (over) (
          let g : Hand = record h { status = closed_status h } in
          settle_one-IsRound s g (one_stake s h g o refl) o.stake (closed-inactive h o.live))
      | inr on ↦ rw (on) (
          let plain = or_right ((value_of_cards s.dealer).best_total == 21) h.natural on in
          let t : State = record s {
            hands = h ∷ [];
            active_hand_id = h.id;
            last_player_action_at = now;
            auto_resolve_at = now + inactivity;
          } in
          record {
            has_stakes = one_stake s h h o refl;
            in_phase =
                subst (λ (p : Phase). InPhase p t) (sym o.turn)
                  (((plain, tt), o.unpaid, o.hidden, ([], h, []), alone h (o.live ∙ ap not plain)));
          })
    ]

-- A state with one hand of the same stake, in which the cards alone were dealt.
abbrev pub Table : Hand → State → State → Type 0
Table h s t =
    (cards : List Card) × (t ≡ record s {
      hands = record h { cards = cards } ∷ [];
      dealer = t.dealer;
      shoe_index = t.shoe_index;
      dealt = t.dealt;
    })

pub deal_four-Table : (shoe : List ℕ) (h : Hand) (s : State) → Table h s (deal_four shoe h s)
unfolding deal_four
deal_four-Table shoe h s =
    let s₁ = (draw_card shoe s).1 in
    let s₂ = (draw_card shoe s₁).1 in
    let s₃ = (draw_card shoe s₂).1 in
    let s₄ = (draw_card shoe s₃).1 in
    let moved : ShoeOnly s s₄ = ShoeOnly-trans s s₁ s₄ (draw_card-ShoeOnly shoe s) (
      ShoeOnly-trans s₁ s₂ s₄ (draw_card-ShoeOnly shoe s₁)
        (ShoeOnly-trans s₂ s₃ s₄ (draw_card-ShoeOnly shoe s₂) (draw_card-ShoeOnly shoe s₃))) in
    let p₁ = (draw_card shoe s).0 in
    let d₁ = (draw_card shoe s₁).0 in
    let p₂ = (draw_card shoe s₂).0 in
    let d₂ = (draw_card shoe s₃).0 in
    (
      p₁ ∷ p₂ ∷ [],
      ap
          (λ (x : State).
            let y : State = record x {
              hands = record h { cards = p₁ ∷ p₂ ∷ [] } ∷ [];
              dealer = d₁ ∷ d₂ ∷ [];
            } in
            y)
          moved,
    )

opened_live :
    (n : Bool) → is_active (if n then HandStatus.natural_complete else HandStatus.active) ≡ not n
opened_live true = refl
opened_live false = refl

pub Table-IsOpening :
    (hash id : String) (wager : ℕ) (now : Time) (t : State)
    → 16 * wager ≤ max_int64
    → Table (first_hand id wager) (initial_state hash wager id now) t
    → IsOpening t (peek_hand (dealt_hand t (first_hand id wager)))
unfolding initial_state first_hand peek_hand revalue
Table-IsOpening hash id wager now t fits (cards, e) =
    subst (λ (x : State). IsOpening x (peek_hand (dealt_hand x (first_hand id wager)))) (sym e)
      (record {
        fits = fits;
        stake = refl;
        total = refl;
        turn = refl;
        unpaid = refl;
        hidden = refl;
        live = opened_live ((value_of_cards cards).best_total == 21);
      })
