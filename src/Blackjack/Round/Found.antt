-- ===== src/Blackjack/Round/Found.antt =====
-- The checks of `apply` in internal/games/blackjack/blackjack.go, and the active hand they find.
use momiao.Base.{
  ◌≡◌, refl, sym, ap, subst, Bool, true, false, not, ◌||◌, ◌&&◌, List, [], ◌∷◌, ◌++◌, inl, inr, ltb,
  ◌==◌, any, String, some, Bool-cases, Option-cases,
}
use text.Mathlib.Text.{◌==◌ as str_eq}
use momiao.Blackjack.{Error, accepted, ◌>>◌, refuse_if}
use momiao.Blackjack.Totals.{accepted-injective, refused-accepted, >>=-eq-accepted}
use momiao.Blackjack.Round.Types.{Hand, Action, ActionRecord, State, Time}
use momiao.Blackjack.Round.Play.{is_active, is_player_turn, find_active, check_action, may_act}
use momiao.Blackjack.Round.Plays.{refuse_if-eq-accepted}
use momiao.Blackjack.Round.Rounds.{true-false, some-injective}

-- The active hand in its place.
pub record IsFound (hs before : List Hand) (h : Hand) (after : List Hand) : Type 0 where
  pub place : hs ≡ before ++ (h ∷ after)
  pub live : is_active h.status ≡ true

abbrev Place : Type 0
Place = List Hand × Hand × List Hand

and_right : (a b : Bool) → (a && b) ≡ true → b ≡ true
and_right true b h = h
and_right false b h = elim (true-false h) [ ]

IsFound-later :
    (x : Hand) (hs before after : List Hand) (h : Hand)
    → IsFound hs before h after
    → IsFound (x ∷ hs) (x ∷ before) h after
IsFound-later x hs before after h f = record { place = ap (◌∷◌ x) f.place; live = f.live }

pub find_active-IsFound :
    (id : String) (hs before after : List Hand) (h : Hand)
    → find_active id hs ≡ some (before, h, after)
    → IsFound hs before h after
unfolding find_active
find_active-IsFound id [] before after h e = cc
find_active-IsFound id (x ∷ hs) before after h e =
    elim (Bool-cases (str_eq x.id id && is_active x.status)) [
      | inl here ↦
          let p : ◌≡◌ {A = Place} ([], x, hs) (before, h, after) =
            some-injective (rw (here, find_active) at e) in
          subst (λ (q : Place). IsFound (x ∷ hs) q.0 q.1 q.2) p
            (record { place = refl; live = and_right (str_eq x.id id) (is_active x.status) here })
      | inr other ↦ elim (Option-cases (find_active id hs)) [
        | inl out ↦ cc (rw (other, out, find_active) at e)
        | inr ((b, a, r), found) ↦
            let p : ◌≡◌ {A = Place} (x ∷ b, a, r) (before, h, after) =
              some-injective (rw (other, found, find_active) at e) in
            subst (λ (q : Place). IsFound (x ∷ hs) q.0 q.1 q.2) p
              (IsFound-later x hs b r a (find_active-IsFound id hs b r a found))
      ]
    ]

not-false : (b : Bool) → not b ≡ false → b ≡ true
not-false true h = refl
not-false false h = elim (true-false (sym h)) [ ]

-- The checks on the hand's id and on the action's type return the place that was found.
permitted :
    (a : Action) (now : Time) (system : Bool) (s : State) (found place : Place)
    → (refuse_if (not (str_eq a.hand_id s.active_hand_id)) Error.hand_not_active
        >> refuse_if (not (may_act s a now system)) Error.action_not_allowed
        >> accepted found)
      ≡ accepted place
    → (found ≡ place) × (may_act s a now system ≡ true)
permitted a now system s found place e =
    let (_, _, e₁) =
      >>=-eq-accepted (refuse_if (not (str_eq a.hand_id s.active_hand_id)) Error.hand_not_active) _
        e in
    let (_, may, e₂) =
      >>=-eq-accepted (refuse_if (not (may_act s a now system)) Error.action_not_allowed) _ e₁ in
    (accepted-injective e₂, not-false (may_act s a now system) (refuse_if-eq-accepted _ _ may))

-- The checks pass on the player's turn alone, and find the active hand.
pub check_action-IsFound :
    (a : Action) (now : Time) (system : Bool) (s : State) (before after : List Hand) (h : Hand)
    → check_action a now system s ≡ accepted (before, h, after)
    → (is_player_turn s.phase ≡ true)
      × (may_act s a now system ≡ true)
      × IsFound s.hands before h after
unfolding check_action
check_action-IsFound a now system s before after h e =
    let (_, _, e₁) =
      >>=-eq-accepted
        (refuse_if (any (λ (r : ActionRecord). str_eq r.action.id a.id) s.actions)
          Error.duplicate_action)
        _ e in
    let (_, _, e₂) =
      >>=-eq-accepted
        (refuse_if (str_eq a.id "" || now == 0 || ltb now s.last_player_action_at)
          Error.action_not_allowed)
        _ e₁ in
    let (_, _, e₃) =
      >>=-eq-accepted (refuse_if (not (a.expected_version == s.version)) Error.stale_version) _
        e₂ in
    let (_, turn, e₄) =
      >>=-eq-accepted (refuse_if (not (is_player_turn s.phase)) Error.hand_not_active) _ e₃ in
    elim (Option-cases (find_active s.active_hand_id s.hands)) [
      | inl out ↦ elim (refused-accepted (rw (out) at e₄)) [ ]
      | inr ((b, x, r), found) ↦
          let (e₅, may) =
            permitted a now system s (b, x, r) (before, h, after) (rw (found) at e₄) in
          (
            not-false (is_player_turn s.phase) (refuse_if-eq-accepted _ _ turn),
            may,
            subst (λ (q : Place). IsFound s.hands q.0 q.1 q.2) e₅
                (find_active-IsFound s.active_hand_id s.hands b r x found),
          )
    ]
