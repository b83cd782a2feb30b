-- ===== src/Blackjack/Round/Turns.antt =====
-- One accepted action of internal/games/blackjack/blackjack.go, checks, play and `advance` together.
use momiao.Base.{
  ℕ, suc, ◌+◌, ◌≡◌, refl, sym, ◌∙◌, ap, subst, Bool, true, false, List, ◌∷◌, ◌++◌, arith, length,
  length-append, All-append, All-split, ◌⊎◌, inl, inr, All, Bool-cases, Option-cases,
}
use momiao.Base.Int.{ℤ, pos, ltb_ℤ}
use momiao.Base.Sums.{sum_by-append}
use momiao.Blackjack.{accepted}
use momiao.Blackjack.Totals.{accepted-injective, >>=-eq-accepted}
use momiao.Blackjack.Round.Types.{Phase, Hand, Action, State, Time}
use momiao.Blackjack.Round.Deal.{settle}
use momiao.Blackjack.Round.Play.{
  is_active, is_player_turn, next_active, all_bust, Played, play, check_action, record_action,
  advance, apply_action, dealer_draws,
}
use momiao.Blackjack.Round.Draws.{Dealt, dealer_draws-Dealt}
use momiao.Blackjack.Round.Plays.{IsStaked, Unnatural, stakes, IsPlay, play-IsPlay}
use momiao.Blackjack.Round.Rounds.{HasStakes, InPhase, IsRound, advance-IsRound, true-false}
use momiao.Blackjack.Round.Found.{IsFound, check_action-IsFound}

-- A state with the same wager, stake, version, identity and actions.
abbrev pub Keeps : State → State → Type 0
Keeps s t =
    (t.initial_wager_units ≡ s.initial_wager_units)
    × (t.total_stake_units ≡ s.total_stake_units)
    × (t.version ≡ s.version)
    × (t.shoe_hash ≡ s.shoe_hash)
    × (t.initial_hand_id ≡ s.initial_hand_id)
    × (t.created_at ≡ s.created_at)
    × (t.actions ≡ s.actions)

Dealt-Keeps : (s t : State) → Dealt s t → Keeps s (settle t)
unfolding settle
Dealt-Keeps s t d =
    subst (λ (x : State). Keeps s (settle x)) (sym d.rest)
      (refl, refl, refl, refl, refl, refl, refl)

pub advance-Keeps : (shoe : List ℕ) (s t : State) → advance shoe s ≡ accepted t → Keeps s t
unfolding advance
advance-Keeps shoe s t e = elim (Option-cases (next_active s.hands)) [
  | inr (h, more) ↦
      subst (Keeps s) (accepted-injective (rw (more, advance) at e))
        (refl, refl, refl, refl, refl, refl, refl)
  | inl done ↦ elim (Bool-cases (all_bust s.hands)) [
    | inl bust ↦
        subst (Keeps s) (accepted-injective (rw (done, bust, advance) at e))
          (unfold settle in (refl, refl, refl, refl, refl, refl, refl))
    | inr standing ↦
        let start : State = record s { active_hand_id = ""; dealer_revealed = true } in
        let (x, drew, e') =
          >>=-eq-accepted (dealer_draws (suc (length shoe)) shoe start)
            (λ (x : State). accepted (settle x)) (rw (done, standing, advance) at e) in
        subst (Keeps s) (accepted-injective e')
          (Dealt-Keeps start x (dealer_draws-Dealt (suc (length shoe)) shoe start x drew))
  ]
]

-- What one property of all hands gives of the active hand and of the others.
module _ (P : Hand → Type 0) (hs before : List Hand) (h : Hand) (after : List Hand)
    (f : IsFound hs before h after) (a : All P hs) where
  Around : All P before × (P h × All P after)
  Around = All-split P before (h ∷ after) (subst (All P) f.place a)

  All-replace : (played : List Hand) → All P played → All P (before ++ (played ++ after))
  All-replace played b =
      All-append P before (played ++ after) Around.0 (All-append P played after b Around.1.1)

abbrev stake_of : Hand → ℕ
stake_of h = h.stake_units

stakes-replace :
    (before played after : List Hand) (h : Hand) (added : ℕ)
    → stakes played ≡ h.stake_units + added
    → stakes (before ++ (played ++ after)) ≡ stakes (before ++ (h ∷ after)) + added
stakes-replace before played after h added e = omega (
  arith,
  e,
  sum_by-append stake_of before (played ++ after),
  sum_by-append stake_of played after,
  sum_by-append stake_of before (h ∷ after),
)

length-replace :
    (before played after : List Hand) (h : Hand)
    → length (before ++ (played ++ after)) + 1 ≡ length (before ++ (h ∷ after)) + length played
length-replace before played after h = omega (
  arith,
  length-append before (played ++ after),
  length-append played after,
  length-append before (h ∷ after),
)

-- The active hand holds the wager alone.
active_stake :
    (wager : ℕ) (h : Hand) → is_active h.status ≡ true → IsStaked wager h → h.stake_units ≡ wager
active_stake wager h live (inl e) = e
active_stake wager h live (inr (e, done)) = elim (true-false (sym done ∙ live)) [ ]

-- Replacing the active hand by what a play leaves keeps the stakes.
module _ (shoe : List ℕ) (wager total : ℕ) (available : ℤ) (s : State) (before : List Hand)
    (h : Hand) (after : List Hand) (f : IsFound s.hands before h after) (p : Played)
    (k : HasStakes wager total s.hands) (y : IsPlay shoe wager available h s p) where
  HasStakes-replace : HasStakes wager (total + p.0) (before ++ (p.1 ++ after))
  HasStakes-replace =
      let n = length-replace before p.1 after h in
      let m = ap (length {A = Hand}) f.place in
      record {
        wager_fits = k.wager_fits;
        staked = All-replace (IsStaked wager) s.hands before h after f k.staked p.1 y.staked;
        total_stakes = omega (
          arith,
          k.total_stakes,
          ap stakes f.place,
          stakes-replace before p.1 after h p.0 y.added,
        );
        some_hand = omega (arith, n, m, y.some_hand, k.some_hand);
        few_hands = omega (arith, n, m, y.few_hands);
      }

-- What an accepted action makes of a round: a round again, with the same wager, and a total stake
-- that has grown by the added stake, which the balance covers.
pub record IsTurn (available : ℤ) (s t : State) (added : ℕ) : Type 0 where
  pub round : IsRound t
  pub same_wager : t.initial_wager_units ≡ s.initial_wager_units
  pub stake_added : t.total_stake_units ≡ s.total_stake_units + added
  pub covered : (added ≡ 0) ⊎ (ltb_ℤ available (pos added) ≡ false)
  pub next_version : t.version ≡ s.version + 1
  pub same_shoe : t.shoe_hash ≡ s.shoe_hash
  pub same_hand : t.initial_hand_id ≡ s.initial_hand_id
  pub same_time : t.created_at ≡ s.created_at

player_turn-phase : (p : Phase) → is_player_turn p ≡ true → p ≡ Phase.player_turn
player_turn-phase Phase.player_turn h = refl
player_turn-phase Phase.settled h = elim (true-false h) [ ]

-- The recorded state, with the play's state written as the old one and a new shoe.
recorded-IsTurn :
    (shoe : List ℕ) (a : Action) (available : ℤ) (now : Time) (system : Bool) (s t : State)
    (before : List Hand) (h : Hand) (after : List Hand) (p : Played)
    → IsRound s
    → s.phase ≡ Phase.player_turn
    → IsFound s.hands before h after
    → IsPlay shoe s.initial_wager_units available h s p
    → advance shoe (record_action a now system before after p) ≡ accepted t
    → IsTurn available s t p.0
unfolding record_action
recorded-IsTurn shoe a available now system s t before h after p r phase f y e =
    let v : State = record s { shoe_index = p.2.shoe_index; dealt = p.2.dealt } in
    let w : State = record_action a now system before after (p.0, p.1, v) in
    let e' : advance shoe w ≡ accepted t =
      subst
        (λ (x : State).
          advance shoe (record_action a now system before after (p.0, p.1, x)) ≡ accepted t)
        y.shoe_only e in
    let (plain, unpaid, hidden, _, _) = subst (λ (x : Phase). InPhase x s) phase r.in_phase in
    let (wager, stake, version, hash, id, time, _) = advance-Keeps shoe w t e' in
    record {
      round =
          advance-IsRound shoe w t
            (HasStakes-replace shoe s.initial_wager_units s.total_stake_units available s before h
              after f p r.has_stakes y)
            (All-replace Unnatural s.hands before h after f plain p.1 y.unnatural) phase unpaid
            hidden e';
      same_wager = wager;
      stake_added = stake;
      covered = y.covered;
      next_version = version;
      same_shoe = hash;
      same_hand = id;
      same_time = time;
    }

-- The play that follows the checks, on a round.
pub played-IsPlay :
    (shoe : List ℕ) (a : Action) (available : ℤ) (s : State) (before : List Hand) (h : Hand)
    (after : List Hand) (p : Played)
    → IsRound s
    → is_player_turn s.phase ≡ true
    → IsFound s.hands before h after
    → play shoe a available after h s ≡ accepted p
    → IsPlay shoe s.initial_wager_units available h s p
played-IsPlay shoe a available s before h after p r turn f e =
    let phase = player_turn-phase s.phase turn in
    let (plain, unpaid, hidden, _, _) = subst (λ (x : Phase). InPhase x s) phase r.in_phase in
    let k = r.has_stakes in
    let around = Around (IsStaked s.initial_wager_units) s.hands before h after f k.staked in
    let own = active_stake s.initial_wager_units h f.live around.1.0 in
    let natural = (Around Unnatural s.hands before h after f plain).1.0 in
    play-IsPlay s.initial_wager_units available h s own natural k.few_hands shoe a after p e

pub apply_action-IsTurn :
    (shoe : List ℕ) (a : Action) (available : ℤ) (now : Time) (system : Bool) (s t : State)
    (added : ℕ)
    → IsRound s
    → apply_action shoe a available now system s ≡ accepted (added, t)
    → IsTurn available s t added
unfolding apply_action record_action
apply_action-IsTurn shoe a available now system s t added r e =
    let ((before, h, after), checked, e₁) = >>=-eq-accepted (check_action a now system s) _ e in
    let (p, played, e₂) = >>=-eq-accepted (play shoe a available after h s) _ e₁ in
    let (t', advanced, e₃) =
      >>=-eq-accepted (advance shoe (record_action a now system before after p)) _ e₂ in
    let (turn, _, f) = check_action-IsFound a now system s before after h checked in
    let y = played-IsPlay shoe a available s before h after p r turn f played in
    subst (λ (q : ℕ × State). IsTurn available s q.1 q.0) (accepted-injective e₃)
      (recorded-IsTurn shoe a available now system s t' before h after p r
        (player_turn-phase s.phase turn) f y advanced)
