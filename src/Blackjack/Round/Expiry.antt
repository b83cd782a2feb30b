-- ===== src/Blackjack/Round/Expiry.antt =====
-- `AutoResolve` of internal/games/blackjack/blackjack.go.
use momiao.Base.{
  ℕ, zero, suc, ◌+◌, ◌≤◌, ◌<◌, ◌≡◌, ◌≢◌, refl, sym, ◌∙◌, ap, subst, true, false, not, ◌||◌, List,
  [], ◌∷◌, ◌++◌, arith, String, length, ltb, Bool-cases, Option, some, none, Option-cases, ◌⊎◌, inl,
  inr, if◌then◌else◌,
}
use momiao.Base.Int.{pos}
use momiao.Base.Sums.{sum_by, sum_by-append}
use momiao.Blackjack.{Error, Checked, accepted, refused}
use momiao.Blackjack.Totals.{accepted-injective, refused-accepted, >>=-eq-accepted}
use momiao.Blackjack.Round.Types.{Phase, HandStatus, Hand, State, Transition, Time}
use momiao.Blackjack.Round.Deal.{settle}
use momiao.Blackjack.Round.Play.{
  is_active, is_player_turn, next_active, all_bust, check_action, record_action, advance,
  apply_action, dealer_draws,
}
use momiao.Blackjack.Round.Recover.{
  verify_recovery, stand_for, stand_all, stand_expired, auto_resolve,
}
use momiao.Blackjack.Round.Rounds.{IsRound, InPhase, true-false}
use momiao.Blackjack.Round.Found.{check_action-IsFound}
use momiao.Blackjack.Round.Turns.{IsTurn, apply_action-IsTurn}
use momiao.Blackjack.Round.Paced.{IsPaced, apply_action-IsPaced}
use momiao.Blackjack.Round.Recovered.{verify_recovery_iff, verify_recovery-IsRound}
use momiao.Blackjack.Round.Replayed.{IsRecovered-IsPaced}
use momiao.Blackjack.Round.Ended.{Ends, Ends-≢, ≢-Ends, >>=-Ends, returned-Ends, apply_action-Ends}
use momiao.Blackjack.Round.Ends.{verify_recovery-Ends}

abbrev live_of : Hand → ℕ
live_of h = if is_active h.status then 1 else 0

-- How many hands are active.
abbrev live : List Hand → ℕ
live = sum_by live_of

next_active-live : (hs : List Hand) → next_active hs ≡ none → live hs ≡ 0
unfolding next_active
next_active-live [] e = refl
next_active-live (h ∷ hs) e = elim (Bool-cases (is_active h.status)) [
  | inl on ↦ cc (rw (on) at e)
  | inr off ↦ rw (off) (omega (arith, next_active-live hs (rw (off) at e)))
]

live-le_length : (hs : List Hand) → live hs ≤ length hs
live-le_length [] = omega arith
live-le_length (h ∷ hs) = ground (arith, live-le_length hs)

-- Advancing settles the round or keeps its hands.
advance-cases :
    (shoe : List ℕ) (s t : State)
    → advance shoe s ≡ accepted t
    → (t.phase ≡ Phase.settled) ⊎ (t.hands ≡ s.hands)
unfolding advance
advance-cases shoe s t e = elim (Option-cases (next_active s.hands)) [
  | inr (h, more) ↦
      inr (sym (ap (λ (x : State). x.hands) (accepted-injective (rw (more, advance) at e))))
  | inl done ↦ elim (Bool-cases (all_bust s.hands)) [
    | inl bust ↦
        inl (sym (ap (λ (x : State). x.phase) (accepted-injective (rw (done, bust, advance) at e))))
    | inr standing ↦
        let (x, _, e') =
          >>=-eq-accepted
            (dealer_draws (suc (length shoe)) shoe
              (record s { active_hand_id = ""; dealer_revealed = true }))
            (λ (x : State). accepted (settle x)) (rw (done, standing, advance) at e) in
        inl (sym (ap (λ (x : State). x.phase) (accepted-injective e')))
  ]
]

live-replace :
    (before after : List Hand) (h g : Hand)
    → is_active h.status ≡ true
    → is_active g.status ≡ false
    → live (before ++ (g ∷ after)) + 1 ≡ live (before ++ (h ∷ after))
live-replace before after h g on off = omega (
  arith,
  one,
  none_left,
  sum_by-append live_of before (g ∷ after),
  sum_by-append live_of before (h ∷ after),
)
  where
    one : live_of h ≡ 1
    one = rw (on) refl

    none_left : live_of g ≡ 0
    none_left = rw (off) refl

-- What standing the active hand for the system makes of a round.
record IsStand (s t : State) (added : ℕ) : Type 0 where
  nothing : added ≡ 0
  fewer : live t.hands + 1 ≤ live s.hands

settled-live : (t : State) → IsRound t → t.phase ≡ Phase.settled → live t.hands ≡ 0
settled-live t r e = next_active-live t.hands (subst (λ (p : Phase). InPhase p t) e r.in_phase).0

stand_for-IsStand :
    (shoe : List ℕ) (id : String) (now : Time) (s t : State) (added : ℕ)
    → IsRound s
    → apply_action shoe (stand_for id s) (pos 0) now true s ≡ accepted (added, t)
    → IsStand s t added
unfolding apply_action record_action
stand_for-IsStand shoe id now s t added r e =
    let a = stand_for id s in
    let turn = apply_action-IsTurn shoe a (pos 0) now true s t added r e in
    let ((before, h, after), checked, e₁) = >>=-eq-accepted (check_action a now true s) _ e in
    let (_, _, f) = check_action-IsFound a now true s before after h checked in
    let stood : Hand = record h { status = HandStatus.stood } in
    let w = record_action a now true before after (0, stood ∷ [], s) in
    let (t', advanced, e₂) = >>=-eq-accepted (advance shoe w) (λ (x : State). accepted (0, x)) e₁ in
    let same : ◌≡◌ {A = ℕ × State} (0, t') (added, t) = accepted-injective e₂ in
    let hands = live-replace before after h stood f.live refl in
    let placed = ap live f.place in
    record {
      nothing = sym (ap (λ (q : ℕ × State). q.0) same);
      fewer = elim (advance-cases shoe w t' advanced) [
        | inl over ↦
            let out =
              settled-live t turn.round (sym (ap (λ (q : ℕ × State). q.1.phase) same) ∙ over) in
            omega (arith, out, hands, placed)
        | inr kept ↦
            let moved : t.hands ≡ before ++ (stood ∷ after) =
              sym (ap (λ (q : ℕ × State). q.1.hands) same) ∙ kept in
            omega (arith, hands, placed, ap live moved)
      ];
    }

-- What standing all active hands makes of a round: a settled round with the same stakes.
pub record IsResolved (s t : State) : Type 0 where
  pub round : IsRound t
  pub over : t.phase ≡ Phase.settled
  pub same_wager : t.initial_wager_units ≡ s.initial_wager_units
  pub same_stake : t.total_stake_units ≡ s.total_stake_units

IsResolved-after :
    (s t u : State) (added : ℕ)
    → IsTurn (pos 0) s t added
    → added ≡ 0
    → IsResolved t u
    → IsResolved s u
IsResolved-after s t u added turn none_added r = record {
  round = r.round;
  over = r.over;
  same_wager = r.same_wager ∙ turn.same_wager;
  same_stake = omega (arith, r.same_stake, turn.stake_added, none_added);
}

settled_phase : (p : Phase) → is_player_turn p ≡ false → p ≡ Phase.settled
settled_phase Phase.settled h = refl
settled_phase Phase.player_turn h = elim (true-false (sym h)) [ ]

stand_all-IsResolved :
    (fuel : ℕ) (shoe : List ℕ) (now : Time) (name : String → Checked String) (s t : State)
    → IsRound s
    → stand_all fuel shoe now name s ≡ accepted t
    → IsResolved s t
unfolding stand_all
stand_all-IsResolved zero shoe now name s t r e = elim (refused-accepted e) [ ]
stand_all-IsResolved (suc fuel) shoe now name s t r e = elim (Bool-cases (is_player_turn s.phase)) [
  | inr over ↦ subst (IsResolved s) (accepted-injective (rw (over, stand_all) at e)) (record {
    round = r;
    over = settled_phase s.phase over;
    same_wager = refl;
    same_stake = refl;
  })
  | inl on ↦
      let (id, named, e₁) = >>=-eq-accepted (name s.active_hand_id) _ (rw (on, stand_all) at e) in
      let ((added, u), acted, e₂) =
        >>=-eq-accepted (apply_action shoe (stand_for id s) (pos 0) now true s) _ e₁ in
      let turn = apply_action-IsTurn shoe (stand_for id s) (pos 0) now true s u added r acted in
      IsResolved-after s u t added turn (stand_for-IsStand shoe id now s u added r acted).nothing
        (stand_all-IsResolved fuel shoe now name u t turn.round e₂)
]

no_fuel : (n : ℕ) → n < 0 → ⊥
no_fuel n h = omega (arith, h)

stand_all-Ends :
    (fuel : ℕ) (shoe : List ℕ) (now : Time) (name : String → Checked String) (s : State)
    → ((id : String) → Ends (name id))
    → IsRound s
    → IsPaced shoe s
    → live s.hands < fuel
    → Ends (stand_all fuel shoe now name s)
unfolding stand_all
stand_all-Ends zero shoe now name s named r k enough = elim (no_fuel (live s.hands) enough) [ ]
stand_all-Ends (suc fuel) shoe now name s named r k enough =
    elim (Bool-cases (is_player_turn s.phase)) [
      | inr over ↦ rw (over, stand_all) (returned-Ends s)
      | inl on ↦
          rw (on, stand_all)
            (>>=-Ends (name s.active_hand_id) _ (named s.active_hand_id) (λ id _.
              let a = stand_for id s in
              >>=-Ends (apply_action shoe a (pos 0) now true s) _
                (apply_action-Ends shoe a (pos 0) now true s r k)
                (λ (added, u) acted.
                  stand_all-Ends fuel shoe now name u named
                    (apply_action-IsTurn shoe a (pos 0) now true s u added r acted).round
                    (apply_action-IsPaced shoe a (pos 0) now true s u added r k acted)
                    (omega
                      (arith, enough, (stand_for-IsStand shoe id now s u added r acted).fewer)))))
    ]

-- Before the expiry, and once settled, nothing changes; from the expiry on, the round is resolved.
abbrev pub IsExpiry : Time → State → State → Type 0
IsExpiry now s t =
    if not (is_player_turn s.phase) || ltb now s.auto_resolve_at then t ≡ s else IsResolved s t

stand_expired-IsResolved :
    (shoe : List ℕ) (now : Time) (name : Option (String → Checked String)) (s : State)
    (t : Transition)
    → IsRound s
    → stand_expired shoe now name s ≡ accepted t
    → (t.additional_stake_units ≡ 0) × IsResolved s t.state
unfolding stand_expired
stand_expired-IsResolved shoe now none s t r e = elim (refused-accepted e) [ ]
stand_expired-IsResolved shoe now (some f) s t r e =
    let (u, stood, e₁) = >>=-eq-accepted (stand_all (suc (length s.hands)) shoe now f s) _ e in
    subst (λ (x : Transition). (x.additional_stake_units ≡ 0) × IsResolved s x.state)
      (accepted-injective e₁)
      (refl, stand_all-IsResolved (suc (length s.hands)) shoe now f s u r stood)

-- When `AutoResolve` returns, it adds no stake; before the expiry, and once the round is settled,
-- the state is unchanged, and from the expiry on the state is a well-formed settled round with
-- the same wager and total stake.
pub auto_resolve-IsExpiry :
    (digest : List ℕ → String) (s : State) (shoe : List ℕ) (now : Time)
    (name : Option (String → Checked String)) (t : Transition)
    → auto_resolve digest s shoe now name ≡ accepted t
    → (t.additional_stake_units ≡ 0) × IsExpiry now s t.state
unfolding auto_resolve
auto_resolve-IsExpiry digest s shoe now name t e =
    let (_, verified, e₁) = >>=-eq-accepted (verify_recovery digest shoe s) _ e in
    elim (Bool-cases (not (is_player_turn s.phase) || ltb now s.auto_resolve_at)) [
      | inl early ↦
          let same = accepted-injective (rw (early) at e₁) in
          (
            sym (ap (λ (x : Transition). x.additional_stake_units) same),
            rw (early) (sym (ap (λ (x : Transition). x.state) same)),
          )
      | inr late ↦
          let (free, resolved) =
            stand_expired-IsResolved shoe now name s t
              (verify_recovery-IsRound digest shoe s verified) (rw (late) at e₁) in
          (free, rw (late) resolved)
    ]

-- With a callback that does not answer with the model's fuel error, `AutoResolve`, the replay in
-- its recovery included, never runs out of fuel.
pub auto_resolve-ends :
    (digest : List ℕ → String) (s : State) (shoe : List ℕ) (now : Time)
    (f : String → Checked String)
    → ((id : String) → f id ≢ refused Error.out_of_fuel)
    → auto_resolve digest s shoe now (some f) ≢ refused Error.out_of_fuel
unfolding auto_resolve stand_expired
auto_resolve-ends digest s shoe now f named = Ends-≢ _ (
    >>=-Ends (verify_recovery digest shoe s) _ (verify_recovery-Ends digest shoe s) (λ _ verified.
      elim (Bool-cases (not (is_player_turn s.phase) || ltb now s.auto_resolve_at)) [
        | inl early ↦ rw (early) (returned-Ends _)
        | inr late ↦ rw (late) (
            >>=-Ends (stand_all (suc (length s.hands)) shoe now f s) _
              (stand_all-Ends (suc (length s.hands)) shoe now f s (λ id. ≢-Ends (f id) (named id))
                (verify_recovery-IsRound digest shoe s verified)
                (IsRecovered-IsPaced digest shoe s ((verify_recovery_iff digest shoe s).0 verified))
                (omega (arith, live-le_length s.hands)))
              (λ _ _. returned-Ends _))
      ]))
