-- ===== src/Blackjack/Round/Rounds.antt =====
-- The stakes, the payouts and the phase of a round of internal/games/blackjack/blackjack.go, from
-- `New` on through `apply`.
use momiao.Base.{
  ℕ, suc, ◌+◌, ◌*◌, ◌≤◌, ◌≡◌, refl, sym, ◌∙◌, ap, subst, Bool, true, false, ◌&&◌, List, [], ◌∷◌,
  arith, length, inl, inr, All, String, some, none, map, Bool-cases, Option-cases,
}
use native.Mathlib.Nat.{suc-mul, mul-le-mul_right}
use momiao.Base.Int.{sub_ℕ}
use momiao.Base.Sums.{sum_by}
use text.Mathlib.Text.{◌==◌ as str_eq}
use text.Mathlib.TextPositions.{eq_refl}
use momiao.Blackjack.{Value, accepted}
use momiao.Blackjack.Totals.{accepted-injective, >>=-eq-accepted}
use momiao.Blackjack.Round.Types.{max_int64, max_hands, Phase, Hand, State}
use momiao.Blackjack.Round.Deal.{
  value_of_cards, has_natural, outcome_of, settle_hand, settle_hands, settle,
}
use momiao.Blackjack.Round.Play.{
  is_active, find_active, next_active, all_bust, advance, dealer_draws,
}
use momiao.Blackjack.Round.Draws.{Dealt, dealer_draws-Dealt}
use momiao.Blackjack.Round.Plays.{IsStaked, Unnatural, stakes}

abbrev pub payouts : List Hand → ℕ
payouts = sum_by (λ (h : Hand). h.payout_units)

-- The stakes of a round: the total is that of the hands, each hand holds the wager or twice as
-- much, there are one to four hands, and sixteen wagers fit an int64.
pub record HasStakes (wager total : ℕ) (hands : List Hand) : Type 0 where
  pub wager_fits : 16 * wager ≤ max_int64
  pub staked : All (IsStaked wager) hands
  pub total_stakes : total ≡ stakes hands
  pub some_hand : 1 ≤ length hands
  pub few_hands : length hands ≤ max_hands

-- While the player acts, no hand is a natural, nothing is paid, the dealer's
-- cards are hidden, and the active hand is there. Once
-- settled, no hand is active, the total payout is that of the hands and at most sixteen wagers, and
-- the net change is what it exceeds the total stake by.
abbrev pub InPhase : Phase → State → Type 0
InPhase Phase.player_turn s =
    All Unnatural s.hands
    × (s.total_payout_units ≡ 0)
    × (s.dealer_revealed ≡ false)
    × (found : List Hand × Hand × List Hand) × (find_active s.active_hand_id s.hands ≡ some found)
InPhase Phase.settled s =
    (next_active s.hands ≡ none)
    × (s.total_payout_units ≡ payouts s.hands)
    × (s.total_payout_units ≤ 16 * s.initial_wager_units)
    × (s.net_change_units ≡ sub_ℕ s.total_payout_units s.total_stake_units)

pub record IsRound (s : State) : Type 0 where
  pub has_stakes : HasStakes s.initial_wager_units s.total_stake_units s.hands
  pub in_phase : InPhase s.phase s

-- A hand that is no natural is paid at most twice its stake, and any hand five halves of it.
outcome_of-le :
    (dealer : Value) (n : Bool) (h : Hand)
    → Unnatural h
    → (outcome_of dealer n h).1 ≤ h.stake_units * 2
unfolding outcome_of
outcome_of-le dealer n h u = ground arith

pub stakes-settled :
    (dealer : Value) (n : Bool) (hs : List Hand)
    → stakes (map (settle_hand dealer n) hs) ≡ stakes hs
unfolding settle_hand
stakes-settled dealer n [] = refl
stakes-settled dealer n (h ∷ hs) = ap (◌+◌ h.stake_units) (stakes-settled dealer n hs)

payouts-settled :
    (dealer : Value) (n : Bool) (hs : List Hand)
    → All Unnatural hs
    → payouts (map (settle_hand dealer n) hs) ≤ stakes hs * 2
unfolding settle_hand
payouts-settled dealer n [] u = omega arith
payouts-settled dealer n (h ∷ hs) u =
    omega (arith, outcome_of-le dealer n h u.0, payouts-settled dealer n hs u.1)

pub IsStaked-settled :
    (w : ℕ) (dealer : Value) (n : Bool) (hs : List Hand)
    → All (IsStaked w) hs
    → All (IsStaked w) (map (settle_hand dealer n) hs)
unfolding settle_hand
IsStaked-settled w dealer n [] a = tt
IsStaked-settled w dealer n (h ∷ hs) a = (a.0, IsStaked-settled w dealer n hs a.1)

length-settled :
    (dealer : Value) (n : Bool) (hs : List Hand)
    → length (map (settle_hand dealer n) hs) ≡ length hs
length-settled dealer n [] = refl
length-settled dealer n (h ∷ hs) = ap suc (length-settled dealer n hs)

pub next_active-settled :
    (dealer : Value) (n : Bool) (hs : List Hand)
    → next_active hs ≡ none
    → next_active (map (settle_hand dealer n) hs) ≡ none
unfolding next_active settle_hand
next_active-settled dealer n [] e = refl
next_active-settled dealer n (h ∷ hs) e = ground (arith, next_active-settled dealer n hs)

pub stakes-le : (w : ℕ) (hs : List Hand) → All (IsStaked w) hs → stakes hs ≤ length hs * (w * 2)
stakes-le w [] a = omega arith
stakes-le w (h ∷ hs) (inl e, a) = omega (arith, stakes-le w hs a, suc-mul (length hs) (w * 2))
stakes-le w (h ∷ hs) (inr (e, _), a) = omega (arith, stakes-le w hs a, suc-mul (length hs) (w * 2))

pub true-false : false ≡ true → ⊥
true-false h = cc

pub some-injective {ℓ} : {A : Type ℓ} {x y : A} → some x ≡ some y → x ≡ y
some-injective h = cc

find_active-later :
    (id : String) (x : Hand) (hs before after : List Hand) (a : Hand)
    → (str_eq x.id id && is_active x.status) ≡ false
    → find_active id hs ≡ some (before, a, after)
    → find_active id (x ∷ hs) ≡ some (x ∷ before, a, after)
unfolding find_active
find_active-later id x hs before after a h e = rw (h, e) refl

-- The next active hand is found by its id.
next_active-found :
    (hs : List Hand) (h : Hand)
    → next_active hs ≡ some h
    → (found : List Hand × Hand × List Hand) × (find_active h.id hs ≡ some found)
unfolding next_active find_active
next_active-found [] h e = cc
next_active-found (x ∷ hs) h e = elim (Bool-cases (str_eq x.id h.id && is_active x.status)) [
  | inl here ↦ (([], x, hs), rw (here, find_active) refl)
  | inr later ↦ elim (Bool-cases (is_active x.status)) [
    | inl live ↦
        let same : x ≡ h = some-injective (rw (live, next_active) at e) in
        let own : str_eq x.id h.id ≡ true =
          subst (λ (y : Hand). str_eq x.id y.id ≡ true) same (eq_refl x.id) in
        elim (true-false (sym (rw (own, live) at later))) [ ]
    | inr done ↦
        let ((before, a, after), found) = next_active-found hs h (rw (done, next_active) at e) in
        ((x ∷ before, a, after), find_active-later h.id x hs before after a later found)
  ]
]

-- What `settle` makes of a round whose hands are done.
pub settle-IsRound :
    (s : State)
    → HasStakes s.initial_wager_units s.total_stake_units s.hands
    → All Unnatural s.hands
    → next_active s.hands ≡ none
    → IsRound (settle s)
unfolding settle settle_hands
settle-IsRound s k u done =
    let v = value_of_cards s.dealer in
    let n = has_natural s.dealer in
    record {
      has_stakes = record {
        wager_fits = k.wager_fits;
        staked = IsStaked-settled s.initial_wager_units v n s.hands k.staked;
        total_stakes = k.total_stakes ∙ sym (stakes-settled v n s.hands);
        some_hand = omega (arith, length-settled v n s.hands, k.some_hand);
        few_hands = omega (arith, length-settled v n s.hands, k.few_hands);
      };
      in_phase = (next_active-settled v n s.hands done, refl, bounded, refl);
    }
  where
    bounded :
        payouts (map (settle_hand (value_of_cards s.dealer) (has_natural s.dealer)) s.hands)
        ≤ 16 * s.initial_wager_units
    bounded = omega (
      arith,
      payouts-settled (value_of_cards s.dealer) (has_natural s.dealer) s.hands u,
      stakes-le s.initial_wager_units s.hands k.staked,
      mul-le-mul_right (s.initial_wager_units * 2) k.few_hands,
    )

-- A state that the dealer's draws lead to has the same stakes, hands and wager.
dealt-settle :
    (s t : State)
    → HasStakes s.initial_wager_units s.total_stake_units s.hands
    → All Unnatural s.hands
    → next_active s.hands ≡ none
    → Dealt s t
    → IsRound (settle t)
dealt-settle s t k u done d =
    subst (λ (x : State). IsRound (settle x)) (sym d.rest)
      (settle-IsRound (record s { dealer = t.dealer; dealt = t.dealt; shoe_index = t.shoe_index }) k
        u done)

pub advance-IsRound :
    (shoe : List ℕ) (s t : State)
    → HasStakes s.initial_wager_units s.total_stake_units s.hands
    → All Unnatural s.hands
    → s.phase ≡ Phase.player_turn
    → s.total_payout_units ≡ 0
    → s.dealer_revealed ≡ false
    → advance shoe s ≡ accepted t
    → IsRound t
unfolding advance
advance-IsRound shoe s t k u turn unpaid hidden e = elim (Option-cases (next_active s.hands)) [
  | inr (h, more) ↦ subst IsRound (accepted-injective (rw (more, advance) at e)) (record {
    has_stakes = k;
    in_phase =
        subst (λ (p : Phase). InPhase p (record s { active_hand_id = h.id })) (sym turn)
          (let (found, there) = next_active-found s.hands h more in
            (u, unpaid, hidden, found, there));
  })
  | inl done ↦ elim (Bool-cases (all_bust s.hands)) [
    | inl bust ↦
        subst IsRound (accepted-injective (rw (done, bust, advance) at e))
          (settle-IsRound (record s { active_hand_id = ""; dealer_revealed = true }) k u done)
    | inr standing ↦
        let (x, drew, e') =
          >>=-eq-accepted
            (dealer_draws (suc (length shoe)) shoe
              (record s { active_hand_id = ""; dealer_revealed = true }))
            (λ (x : State). accepted (settle x)) (rw (done, standing, advance) at e) in
        subst IsRound (accepted-injective e') (
          dealt-settle (record s { active_hand_id = ""; dealer_revealed = true }) x k u done
            (dealer_draws-Dealt (suc (length shoe)) shoe _ x drew))
  ]
]
