-- ===== src/Blackjack/Round/Replayed.antt =====
-- The replay of the actions that `Apply` of internal/games/blackjack/blackjack.go records.
use momiao.Base.{
  ℕ, ◌+◌, ◌≤◌, ◌≡◌, refl, sym, ◌∙◌, ap, subst, Bool, false, List, [], ◌∷◌, ◌++◌, arith, String,
  length,
}
use momiao.Base.Int.{ℤ, pos, negsuc, ltb_ℤ}
use momiao.Blackjack.{accepted, cards_in_shoe}
use momiao.Blackjack.Totals.{accepted-injective, refused-accepted, >>=-eq-accepted, >>=-accepted}
use momiao.Blackjack.Round.Types.{max_int64, Hand, Action, ActionRecord, State, Transition, Time}
use momiao.Blackjack.Round.Deal.{new}
use momiao.Blackjack.Round.Play.{
  is_auto_stand, play, check_action, record_action, advance, apply_action,
}
use momiao.Blackjack.Round.Recover.{replay_actions, rebuild, verify_recovery, apply}
use momiao.Blackjack.Round.Plays.{done}
use momiao.Blackjack.Round.Rounds.{IsRound}
use momiao.Blackjack.Round.Found.{check_action-IsFound}
use momiao.Blackjack.Round.Paced.{IsPaced, apply_action-IsPaced}
use momiao.Blackjack.Round.Turns.{played-IsPlay, advance-Keeps, apply_action-IsTurn}
use momiao.Blackjack.Round.Opened.{IsFresh, new-IsNew}
use momiao.Blackjack.Round.Recovered.{IsRecovered, verify_recovery_iff, verify_recovery-IsRound}
use momiao.Blackjack.Round.Replays.{apply_action-replayed, replay_actions-snoc}

-- The record of an action that is played on a state.
abbrev record_of : Action → Time → State → ℕ → ActionRecord
record_of a now s added = record {
  action = a;
  sequence = length s.actions + 1;
  at = now;
  additional_stake_units = added;
}

apply_action-actions :
    (shoe : List ℕ) (a : Action) (available : ℤ) (now : Time) (system : Bool) (s t : State)
    (added : ℕ)
    → IsRound s
    → apply_action shoe a available now system s ≡ accepted (added, t)
    → t.actions ≡ s.actions ++ record_of a now s added ∷ []
unfolding apply_action record_action
apply_action-actions shoe a available now system s t added r e =
    let ((before, h, after), checked, e₁) = >>=-eq-accepted (check_action a now system s) _ e in
    let (p, played, e₂) = >>=-eq-accepted (play shoe a available after h s) _ e₁ in
    let w = record_action a now system before after p in
    let (t', advanced, e₃) = >>=-eq-accepted (advance shoe w) _ e₂ in
    let (turn, _, f) = check_action-IsFound a now system s before after h checked in
    let y = played-IsPlay shoe a available s before h after p r turn f played in
    let (_, _, _, _, _, _, kept) = advance-Keeps shoe w t' advanced in
    subst (λ (q : ℕ × State). q.1.actions ≡ s.actions ++ record_of a now s q.0 ∷ [])
      (accepted-injective e₃)
      (kept ∙ ap (λ (x : State). x.actions ++ record_of a now x p.0 ∷ []) y.shoe_only)

replay_actions-IsPaced :
    (shoe : List ℕ) (records : List ActionRecord) (s t : State)
    → IsRound s
    → IsPaced shoe s
    → replay_actions shoe records s ≡ accepted t
    → IsPaced shoe t
unfolding replay_actions
replay_actions-IsPaced shoe [] s t r k e = subst (IsPaced shoe) (accepted-injective e) k
replay_actions-IsPaced shoe (a ∷ records) s t r k e =
    let system = is_auto_stand a.action.type in
    let ((added, u), acted, e₁) =
      >>=-eq-accepted (apply_action shoe a.action (pos max_int64) a.at system s) _ e in
    replay_actions-IsPaced shoe records u t
      (apply_action-IsTurn shoe a.action (pos max_int64) a.at system s u added r acted).round
      (apply_action-IsPaced shoe a.action (pos max_int64) a.at system s u added r k acted) e₁

pub fresh-IsPaced :
    (shoe : List ℕ) (hash id : String) (wager : ℕ) (now : Time) (s : State)
    → IsFresh (length shoe) hash id wager now s
    → IsPaced shoe s
fresh-IsPaced shoe hash id wager now s f = record {
  paced = omega (arith, ap (length {A = ActionRecord}) f.no_actions);
  in_shoe = f.in_shoe;
}

-- A recovered state is paced.
pub IsRecovered-IsPaced :
    (digest : List ℕ → String) (shoe : List ℕ) (s : State)
    → IsRecovered digest shoe s
    → IsPaced shoe s
unfolding rebuild
IsRecovered-IsPaced digest shoe s r =
    let wager = pos s.initial_wager_units in
    let id = s.initial_hand_id in
    let (v, opened, e) = >>=-eq-accepted (new digest shoe wager id s.created_at) _ r.rebuilt in
    let (round, hash, _, f) = new-IsNew digest shoe wager id s.created_at v opened in
    replay_actions-IsPaced shoe s.actions v s round
      (fresh-IsPaced shoe hash id s.initial_wager_units s.created_at v f) e

done-le_length : (hs : List Hand) → done hs ≤ length hs
done-le_length [] = omega arith
done-le_length (h ∷ hs) = ground (arith, done-le_length hs)

-- A round of a full shoe records at most 316 actions.
few_actions :
    (shoe : List ℕ) (s : State)
    → length shoe ≡ cards_in_shoe
    → IsRound s
    → IsPaced shoe s
    → length s.actions ≤ 316
few_actions shoe s full r k =
    omega (arith, full, k.paced, k.in_shoe, done-le_length s.hands, r.has_stakes.few_hands)

-- The replay of a state, one recorded action later.
rebuild-later :
    (digest : List ℕ → String) (shoe : List ℕ) (a : Action) (available : ℤ) (now : Time)
    (s t : State) (added : ℕ)
    → ltb_ℤ (pos max_int64) available ≡ false
    → IsRound s
    → rebuild digest shoe s ≡ accepted s
    → apply_action shoe a available now false s ≡ accepted (added, t)
    → rebuild digest shoe t ≡ accepted t
unfolding rebuild
rebuild-later digest shoe a available now s t added most r rebuilt e =
    let turn = apply_action-IsTurn shoe a available now false s t added r e in
    let (v, opened, replayed) =
      >>=-eq-accepted (new digest shoe (pos s.initial_wager_units) s.initial_hand_id s.created_at) _
        rebuilt in
    let same : new digest shoe (pos t.initial_wager_units) t.initial_hand_id t.created_at
        ≡ new digest shoe (pos s.initial_wager_units) s.initial_hand_id s.created_at =
      λ i. new digest shoe (pos (turn.same_wager i)) (turn.same_hand i) (turn.same_time i) in
    >>=-accepted (new digest shoe (pos t.initial_wager_units) t.initial_hand_id t.created_at) _
      (same ∙ opened)
      (subst (λ (records : List ActionRecord). replay_actions shoe records v ≡ accepted t)
        (sym (apply_action-actions shoe a available now false s t added r e))
        (replay_actions-snoc shoe s.actions (record_of a now s added) v s t added replayed
          (apply_action-replayed shoe a available now false s t added most e)))

-- For a shoe of 312 entries and an available balance of at most the largest int64, the state of
-- every transition that `Apply` returns passes the recovery: replaying its recorded actions on
-- the shoe gives the same state.
pub verify_recovery-apply :
    (digest : List ℕ → String) (s : State) (shoe : List ℕ) (a : Action) (available : ℤ) (now : Time)
    (t : Transition)
    → length shoe ≡ cards_in_shoe
    → ltb_ℤ (pos max_int64) available ≡ false
    → apply digest s shoe a available now ≡ accepted t
    → verify_recovery digest shoe t.state ≡ accepted tt
unfolding apply
verify_recovery-apply digest s shoe a available now t full most e =
    let (_, verified, e₁) = >>=-eq-accepted (verify_recovery digest shoe s) _ e in
    let ((added, u), acted, e₂) =
      >>=-eq-accepted (apply_action shoe a available now false s) _ e₁ in
    let r = verify_recovery-IsRound digest shoe s verified in
    let known = (verify_recovery_iff digest shoe s).0 verified in
    let turn = apply_action-IsTurn shoe a available now false s u added r acted in
    let paced =
      apply_action-IsPaced shoe a available now false s u added r
        (IsRecovered-IsPaced digest shoe s known) acted in
    subst (λ (x : Transition). verify_recovery digest shoe x.state ≡ accepted tt)
      (accepted-injective e₂)
      ((verify_recovery_iff digest shoe u).1 (record {
        hashed = known.hashed ∙ ap accepted (sym turn.same_shoe);
        few_actions = omega (arith, few_actions shoe u full turn.round paced);
        rebuilt = rebuild-later digest shoe a available now s u added most r known.rebuilt acted;
      }))

rebuild-new :
    (digest : List ℕ → String) (shoe : List ℕ) (wager : ℕ) (hash id : String) (now : Time)
    (s : State)
    → IsFresh (length shoe) hash id wager now s
    → new digest shoe (pos wager) id now ≡ accepted s
    → rebuild digest shoe s ≡ accepted s
unfolding rebuild replay_actions
rebuild-new digest shoe wager hash id now s f e =
    let same : new digest shoe (pos s.initial_wager_units) s.initial_hand_id s.created_at
        ≡ new digest shoe (pos wager) id now =
      λ i. new digest shoe (pos (f.same_wager i)) (f.same_hand i) (f.same_time i) in
    >>=-accepted (new digest shoe (pos s.initial_wager_units) s.initial_hand_id s.created_at) _
      (same ∙ e)
      (subst (λ (records : List ActionRecord). replay_actions shoe records s ≡ accepted s)
        (sym f.no_actions) refl)

new-negative :
    (digest : List ℕ → String) (shoe : List ℕ) (n : ℕ) (id : String) (now : Time) (s : State)
    → new digest shoe (negsuc n) id now ≡ accepted s
    → ⊥
unfolding new
new-negative digest shoe n id now s e = refused-accepted e

-- A round that `New` opens passes the recovery on the same shoe.
pub verify_recovery-new :
    (digest : List ℕ → String) (shoe : List ℕ) (wager : ℤ) (id : String) (now : Time) (s : State)
    → new digest shoe wager id now ≡ accepted s
    → verify_recovery digest shoe s ≡ accepted tt
verify_recovery-new digest shoe (negsuc n) id now s e =
    elim (new-negative digest shoe n id now s e) [ ]
verify_recovery-new digest shoe (pos n) id now s e =
    let (_, hash, hashed, f) = new-IsNew digest shoe (pos n) id now s e in
    (verify_recovery_iff digest shoe s).1 (record {
      hashed = hashed ∙ ap accepted (sym f.same_shoe);
      few_actions = omega (arith, ap (length {A = ActionRecord}) f.no_actions);
      rebuilt = rebuild-new digest shoe n hash id now s f e;
    })
