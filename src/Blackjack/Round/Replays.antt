-- ===== src/Blackjack/Round/Replays.antt =====
-- The replay of one action that `apply` of internal/games/blackjack/blackjack.go records.
use momiao.Base.{
  ℕ, ◌≡◌, refl, sym, subst, Bool, true, false, not, ◌||◌, ◌&&◌, List, [], ◌∷◌, ◌++◌, arith, String,
  length, leb, ltb, ◌==◌,
}
use momiao.Base.Int.{ℤ, pos, negsuc, ltb_ℤ}
use momiao.Blackjack.{Error, Checked, accepted, ◌>>=◌, refuse_if}
use momiao.Blackjack.Totals.{accepted-injective, refused-accepted, >>=-eq-accepted, >>=-accepted}
use momiao.Blackjack.Round.Types.{
  max_int64, max_hands, ActionType, Hand, Action, ActionRecord, State, Time,
}
use momiao.Blackjack.Round.Play.{
  is_pair, is_auto_stand, is_player_action, Played, play, play_double, play_split, check_action,
  apply_action, may_act,
}
use momiao.Blackjack.Round.Recover.{replay_actions}
use momiao.Blackjack.Round.Plays.{refuse_if-eq-accepted}
use momiao.Blackjack.Round.Rounds.{true-false}
use momiao.Blackjack.Round.Found.{check_action-IsFound}

-- A stake that a balance covers is covered by the largest one.
covered-max :
    (available : ℤ) (n : ℕ)
    → ltb_ℤ (pos max_int64) available ≡ false
    → ltb_ℤ available (pos n) ≡ false
    → ltb_ℤ (pos max_int64) (pos n) ≡ false
covered-max (pos a) n h k = ground arith
covered-max (negsuc a) n h k = ground arith

-- A test that passes can be replaced by one that it implies.
refuse_if-replace :
    {A : Type 0} (b c : Bool) (e : Error) (next : Unit {0} → Checked A) (x : A)
    → (b ≡ false → c ≡ false)
    → (refuse_if b e >>= next) ≡ accepted x
    → (refuse_if c e >>= next) ≡ accepted x
refuse_if-replace true c e next x f h = elim (refused-accepted h) [ ]
refuse_if-replace false c e next x f h = rw (f refl) h

module _ (shoe : List ℕ) (available : ℤ) (most : ltb_ℤ (pos max_int64) available ≡ false) (h : Hand)
    (s : State) (p : Played) where
  play_double-max :
      play_double shoe available h s ≡ accepted p
      → play_double shoe (pos max_int64) h s ≡ accepted p
  unfolding play_double
  play_double-max e =
      let first = not (length h.cards == 2) || h.split_aces in
      let (_, pair, e₁) = >>=-eq-accepted (refuse_if first Error.action_not_allowed) _ e in
      rw (refuse_if-eq-accepted _ _ pair) (
        refuse_if-replace (ltb_ℤ available (pos h.stake_units))
          (ltb_ℤ (pos max_int64) (pos h.stake_units)) Error.insufficient_for_double _ p
          (covered-max available h.stake_units most) e₁)

  play_split-max :
      (new_id : String) (after : List Hand)
      → play_split shoe available new_id after h s ≡ accepted p
      → play_split shoe (pos max_int64) new_id after h s ≡ accepted p
  unfolding play_split
  play_split-max new_id after e =
      let (_, pair, e₁) =
        >>=-eq-accepted (refuse_if (not (is_pair h.cards) || h.split_aces) Error.action_not_allowed)
          _ e in
      let (_, few, e₂) =
        >>=-eq-accepted (refuse_if (leb max_hands (length s.hands)) Error.max_hands_reached) _ e₁ in
      rw (refuse_if-eq-accepted _ _ pair, refuse_if-eq-accepted _ _ few)
        (refuse_if-replace (ltb_ℤ available (pos h.stake_units))
          (ltb_ℤ (pos max_int64) (pos h.stake_units)) Error.insufficient_for_split _ p
          (covered-max available h.stake_units most) e₂)

  play-max :
      (a : Action) (after : List Hand)
      → play shoe a available after h s ≡ accepted p
      → play shoe a (pos max_int64) after h s ≡ accepted p
  unfolding play
  play-max a after e = go a.type refl
    where
      go : (k : ActionType) → a.type ≡ k → play shoe a (pos max_int64) after h s ≡ accepted p
      go ActionType.hit q = rw (q, play) (rw (q, play) at e)
      go ActionType.stand q = rw (q, play) (rw (q, play) at e)
      go ActionType.system_auto_stand q = rw (q, play) (rw (q, play) at e)
      go ActionType.double q = rw (q, play) (play_double-max (rw (q, play) at e))
      go ActionType.split q = rw (q, play) (play_split-max a.new_hand_id after (rw (q, play) at e))
      go (ActionType.other_type text) q = elim (refused-accepted (rw (q, play) at e)) [ ]

and_left : (a b : Bool) → (a && b) ≡ true → a ≡ true
and_left true b h = refl
and_left false b h = h

-- No action of the player stands for the system.
player_action-manual : (k : ActionType) → is_player_action k ≡ true → is_auto_stand k ≡ false
player_action-manual ActionType.hit h = refl
player_action-manual ActionType.stand h = refl
player_action-manual ActionType.double h = refl
player_action-manual ActionType.split h = refl
player_action-manual ActionType.system_auto_stand h = elim (true-false h) [ ]
player_action-manual (ActionType.other_type text) h = refl

auto_stand-system :
    (s : State) (a : Action) (now : Time) (system : Bool)
    → may_act s a now system ≡ true
    → is_auto_stand a.type ≡ system
auto_stand-system s a now true h =
    and_left (is_auto_stand a.type) (not (ltb now s.auto_resolve_at)) h
auto_stand-system s a now false h = player_action-manual a.type h

-- The replay of an accepted action, with the recovery's balance, gives the same state.
pub apply_action-replayed :
    (shoe : List ℕ) (a : Action) (available : ℤ) (now : Time) (system : Bool) (s t : State)
    (added : ℕ)
    → ltb_ℤ (pos max_int64) available ≡ false
    → apply_action shoe a available now system s ≡ accepted (added, t)
    → apply_action shoe a (pos max_int64) now (is_auto_stand a.type) s ≡ accepted (added, t)
unfolding apply_action
apply_action-replayed shoe a available now system s t added most e =
    let ((before, h, after), checked, e₁) = >>=-eq-accepted (check_action a now system s) _ e in
    let (p, played, e₂) = >>=-eq-accepted (play shoe a available after h s) _ e₁ in
    let (_, may, _) = check_action-IsFound a now system s before after h checked in
    subst (λ (b : Bool). apply_action shoe a (pos max_int64) now b s ≡ accepted (added, t))
      (sym (auto_stand-system s a now system may))
      (>>=-accepted (check_action a now system s) _ checked (
        >>=-accepted (play shoe a (pos max_int64) after h s) _
          (play-max shoe available most h s p a after played) e₂))

-- The recorded action replays last.
pub replay_actions-snoc :
    (shoe : List ℕ) (records : List ActionRecord) (r : ActionRecord) (s t u : State) (added : ℕ)
    → replay_actions shoe records s ≡ accepted t
    → apply_action shoe r.action (pos max_int64) r.at (is_auto_stand r.action.type) t
      ≡ accepted (added, u)
    → replay_actions shoe (records ++ r ∷ []) s ≡ accepted u
unfolding replay_actions
replay_actions-snoc shoe [] r s t u added e f =
    >>=-accepted (apply_action shoe r.action (pos max_int64) r.at (is_auto_stand r.action.type) s)
      (λ (q : ℕ × State). accepted q.1)
      (subst
        (λ (x : State).
          apply_action shoe r.action (pos max_int64) r.at (is_auto_stand r.action.type) x
          ≡ accepted (added, u))
        (sym (accepted-injective e)) f)
      refl
replay_actions-snoc shoe (x ∷ records) r s t u added e f =
    let ((before, v), acted, e₁) =
      >>=-eq-accepted
        (apply_action shoe x.action (pos max_int64) x.at (is_auto_stand x.action.type) s) _ e in
    >>=-accepted (apply_action shoe x.action (pos max_int64) x.at (is_auto_stand x.action.type) s) _
      acted (replay_actions-snoc shoe records r v t u added e₁ f)
