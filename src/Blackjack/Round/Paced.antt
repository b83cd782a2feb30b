-- ===== src/Blackjack/Round/Paced.antt =====
-- How many actions `apply` of internal/games/blackjack/blackjack.go records.
use momiao.Base.{
  ℕ, suc, ◌+◌, ◌≤◌, ◌≡◌, refl, ap, subst, Bool, true, List, [], ◌∷◌, ◌++◌, arith, length,
  length-append, map, Bool-cases, Option-cases, inl, inr, if◌then◌else◌,
}
use momiao.Base.Int.{ℤ}
use momiao.Base.Sums.{sum_by-append}
use momiao.Blackjack.{Value, accepted}
use momiao.Blackjack.Totals.{accepted-injective, >>=-eq-accepted}
use momiao.Blackjack.Round.Types.{Hand, Action, ActionRecord, State, Time}
use momiao.Blackjack.Round.Deal.{value_of_cards, has_natural, settle_hand, settle_hands, settle}
use momiao.Blackjack.Round.Play.{
  is_active, next_active, all_bust, Played, play, check_action, record_action, advance,
  apply_action, dealer_draws,
}
use momiao.Blackjack.Round.Draws.{Dealt, dealer_draws-Dealt, dealer_draws-index}
use momiao.Blackjack.Round.Plays.{IsPlay, done}
use momiao.Blackjack.Round.Rounds.{IsRound}
use momiao.Blackjack.Round.Found.{IsFound, check_action-IsFound}
use momiao.Blackjack.Round.Turns.{played-IsPlay}

-- An action is recorded for each card drawn or hand done, at most, and the draws stay in the shoe.
pub record IsPaced (shoe : List ℕ) (s : State) : Type 0 where
  pub paced : length s.actions ≤ s.shoe_index + done s.hands
  pub in_shoe : s.shoe_index ≤ length shoe

done-settled :
    (dealer : Value) (n : Bool) (hs : List Hand) → done (map (settle_hand dealer n) hs) ≡ done hs
unfolding settle_hand
done-settled dealer n [] = refl
done-settled dealer n (h ∷ hs) =
    ap (λ (k : ℕ). (if is_active h.status then 0 else 1) + k) (done-settled dealer n hs)

settle-IsPaced : (shoe : List ℕ) (s : State) → IsPaced shoe s → IsPaced shoe (settle s)
unfolding settle settle_hands
settle-IsPaced shoe s p = record {
  paced =
      omega (arith, p.paced, done-settled (value_of_cards s.dealer) (has_natural s.dealer) s.hands);
  in_shoe = p.in_shoe;
}

-- The dealer's draws keep the actions and the hands.
Dealt-IsPaced :
    (shoe : List ℕ) (s t : State)
    → IsPaced shoe s
    → t.shoe_index ≤ length shoe
    → Dealt s t
    → IsPaced shoe t
Dealt-IsPaced shoe s t p low d = record {
  paced = omega (
    arith,
    p.paced,
    d.later,
    ap (λ (x : State). length x.actions) d.rest,
    ap (λ (x : State). done x.hands) d.rest,
  );
  in_shoe = low;
}

advance-IsPaced :
    (shoe : List ℕ) (s t : State) → IsPaced shoe s → advance shoe s ≡ accepted t → IsPaced shoe t
unfolding advance
advance-IsPaced shoe s t p e = elim (Option-cases (next_active s.hands)) [
  | inr (h, more) ↦
      subst (IsPaced shoe) (accepted-injective (rw (more, advance) at e))
        (record { paced = p.paced; in_shoe = p.in_shoe })
  | inl none_left ↦
      let start : State = record s { active_hand_id = ""; dealer_revealed = true } in
      let q : IsPaced shoe start = record { paced = p.paced; in_shoe = p.in_shoe } in
      elim (Bool-cases (all_bust s.hands)) [
        | inl bust ↦
            subst (IsPaced shoe) (accepted-injective (rw (none_left, bust, advance) at e))
              (settle-IsPaced shoe start q)
        | inr standing ↦
            let (x, drew, e') =
              >>=-eq-accepted (dealer_draws (suc (length shoe)) shoe start)
                (λ (x : State). accepted (settle x)) (rw (none_left, standing, advance) at e) in
            subst (IsPaced shoe) (accepted-injective e') (
              settle-IsPaced shoe x (
                Dealt-IsPaced shoe start x q
                  (dealer_draws-index (suc (length shoe)) shoe start x p.in_shoe drew)
                  (dealer_draws-Dealt (suc (length shoe)) shoe start x drew)))
      ]
]

abbrev done_of : Hand → ℕ
done_of h = if is_active h.status then 0 else 1

done-replace :
    (before played after : List Hand) (h : Hand)
    → is_active h.status ≡ true
    → done (before ++ (played ++ after)) ≡ done (before ++ (h ∷ after)) + done played
done-replace before played after h live = omega (
  arith,
  sum_by-append done_of before (played ++ after),
  sum_by-append done_of played after,
  sum_by-append done_of before (h ∷ after),
  not_done,
)
  where
    not_done : done_of h ≡ 0
    not_done = rw (live) refl

pub record_action-IsPaced :
    (shoe : List ℕ) (a : Action) (available : ℤ) (now : Time) (system : Bool) (s : State)
    (before : List Hand) (h : Hand) (after : List Hand) (p : Played)
    → IsPaced shoe s
    → IsFound s.hands before h after
    → IsPlay shoe s.initial_wager_units available h s p
    → IsPaced shoe (record_action a now system before after p)
unfolding record_action
record_action-IsPaced shoe a available now system s before h after p k f y = record {
  paced = omega (
    arith,
    k.paced,
    y.paced,
    done-replace before p.1 after h f.live,
    ap done f.place,
    ap (λ (x : State). length x.actions) y.shoe_only,
    length-append p.2.actions (entry ∷ []),
  );
  in_shoe = y.in_shoe k.in_shoe;
}
  where
    entry : ActionRecord
    entry = record {
      action = a;
      sequence = length p.2.actions + 1;
      at = now;
      additional_stake_units = p.0;
    }

-- An accepted action keeps the pace.
pub apply_action-IsPaced :
    (shoe : List ℕ) (a : Action) (available : ℤ) (now : Time) (system : Bool) (s t : State)
    (added : ℕ)
    → IsRound s
    → IsPaced shoe s
    → apply_action shoe a available now system s ≡ accepted (added, t)
    → IsPaced shoe t
unfolding apply_action
apply_action-IsPaced shoe a available now system s t added r k e =
    let ((before, h, after), checked, e₁) = >>=-eq-accepted (check_action a now system s) _ e in
    let (p, played, e₂) = >>=-eq-accepted (play shoe a available after h s) _ e₁ in
    let (t', advanced, e₃) =
      >>=-eq-accepted (advance shoe (record_action a now system before after p)) _ e₂ in
    let (turn, _, f) = check_action-IsFound a now system s before after h checked in
    let y = played-IsPlay shoe a available s before h after p r turn f played in
    subst (IsPaced shoe) (ap (λ (q : ℕ × State). q.1) (accepted-injective e₃)) (
      advance-IsPaced shoe (record_action a now system before after p) t'
        (record_action-IsPaced shoe a available now system s before h after p k f y) advanced)
