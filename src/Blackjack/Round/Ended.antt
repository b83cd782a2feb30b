-- ===== src/Blackjack/Round/Ended.antt =====
-- The loops of one action in internal/games/blackjack/blackjack.go and their fuel.
use momiao.Base.{
  ℕ, suc, ◌+◌, ◌/◌, ◌≤◌, ◌≡◌, ◌≢◌, refl, sym, ◌∙◌, ap, Bool, true, false, not, ◌||◌, List, [], ◌∷◌,
  arith, String, length, any, leb, Bool-cases, Option, some, none, Option-cases, inl, inr,
}
use momiao.Base.Int.{ℤ, pos, ltb_ℤ}
use text.Mathlib.Text.{◌==◌ as str_eq}
use momiao.Blackjack.{Card, Error, Checked, accepted, refused, ◌>>=◌, ◌>>◌, refuse_if}
use momiao.Blackjack.Round.Types.{max_hands, ActionType, Hand, Action, State, Time}
use momiao.Blackjack.Round.Deal.{draw}
use momiao.Blackjack.Round.Play.{
  is_pair, find_active, next_active, all_bust, play, play_hit, play_double, play_split, split_cards,
  right_boundary, check_action, record_action, advance, apply_action, may_act, dealer_draws,
}
use momiao.Blackjack.Round.Recover.{reviewed}
use momiao.Blackjack.Round.Draws.{draw-cases, dealer_draws-ends}
use momiao.Blackjack.Round.Rounds.{IsRound, true-false}
use momiao.Blackjack.Round.Found.{check_action-IsFound}
use momiao.Blackjack.Round.Paced.{IsPaced, record_action-IsPaced}
use momiao.Blackjack.Round.Turns.{played-IsPlay}

abbrev pub is_fuel : Error → Bool
is_fuel Error.out_of_fuel = true
is_fuel _ = false

abbrev pub runs_out : {A : Type 0} → Checked A → Bool
runs_out (refused e) = is_fuel e
runs_out (accepted a) = false

-- An outcome other than a loop that ran out of fuel.
pub record Ends {A : Type 0} (m : Checked A) : Type 0 where
  pub ends : runs_out m ≡ false

pub returned-Ends : {A : Type 0} (a : A) → Ends (accepted a)
returned-Ends a = record { ends = refl }

pub failed-Ends : {A : Type 0} (e : Error) → is_fuel e ≡ false → Ends {A = A} (refused e)
failed-Ends e h = record { ends = h }

pub Ends-≢ : {A : Type 0} (m : Checked A) → Ends m → m ≢ refused Error.out_of_fuel
Ends-≢ m h e = true-false (sym h.ends ∙ ap runs_out e)

pub ≢-Ends : {A : Type 0} (m : Checked A) → m ≢ refused Error.out_of_fuel → Ends m
≢-Ends (accepted a) h = returned-Ends a
≢-Ends (refused Error.out_of_fuel) h = elim (h refl) [ ]
≢-Ends (refused _) h = record { ends = refl }

pub refuse_if-Ends : (b : Bool) (e : Error) → is_fuel e ≡ false → Ends (refuse_if b e)
refuse_if-Ends true e h = failed-Ends e h
refuse_if-Ends false e h = returned-Ends tt

pub >>=-Ends :
    {A B : Type 0} (m : Checked A) (next : A → Checked B)
    → Ends m
    → ((a : A) → m ≡ accepted a → Ends (next a))
    → Ends (m >>= next)
>>=-Ends (refused e) next h k = failed-Ends e h.ends
>>=-Ends (accepted a) next h k = k a refl

pub reviewed-Ends : {A : Type 0} (m : Checked A) → Ends m → Ends (reviewed m)
reviewed-Ends (refused Error.out_of_fuel) h = h
reviewed-Ends (refused _) h = failed-Ends Error.needs_review refl
reviewed-Ends (accepted a) h = returned-Ends a

draw-Ends : (shoe : List ℕ) (s : State) → Ends (draw shoe s)
unfolding draw
draw-Ends shoe s = elim (draw-cases shoe s) [
  | inl out ↦ rw (out) (failed-Ends Error.needs_review refl)
  | inr (_, c, e) ↦ rw (e) (returned-Ends _)
]

-- A test before an operation that ends.
pub tested-Ends :
    {A : Type 0} (b : Bool) (e : Error) (next : Checked A)
    → is_fuel e ≡ false
    → Ends next
    → Ends (refuse_if b e >> next)
tested-Ends b e next h k = >>=-Ends (refuse_if b e) _ (refuse_if-Ends b e h) (λ _ _. k)

found-Ends :
    (a : Action) (now : Time) (system : Bool) (s : State)
    (o : Option (List Hand × Hand × List Hand))
    → Ends {A = List Hand × Hand × List Hand} (elim o [
      | none ↦ refused Error.hand_not_active
      | some found ↦
          refuse_if (not (str_eq a.hand_id s.active_hand_id)) Error.hand_not_active
          >> refuse_if (not (may_act s a now system)) Error.action_not_allowed
          >> accepted found
    ])
found-Ends a now system s none = failed-Ends Error.hand_not_active refl
found-Ends a now system s (some found) =
    tested-Ends _ Error.hand_not_active _ refl
      (tested-Ends _ Error.action_not_allowed _ refl (returned-Ends found))

check_action-Ends :
    (a : Action) (now : Time) (system : Bool) (s : State) → Ends (check_action a now system s)
unfolding check_action
check_action-Ends a now system s = tested-Ends _ Error.duplicate_action _ refl (
    tested-Ends _ Error.action_not_allowed _ refl (
      tested-Ends _ Error.stale_version _ refl (
        tested-Ends _ Error.hand_not_active _ refl
          (found-Ends a now system s (find_active s.active_hand_id s.hands)))))

split_cards-Ends :
    (shoe : List ℕ) (id : String) (index : ℕ) (h : Hand) (s : State) (cards : List Card)
    → Ends (split_cards shoe id index h s cards)
unfolding split_cards
split_cards-Ends shoe id index h s [] = failed-Ends Error.action_not_allowed refl
split_cards-Ends shoe id index h s (a ∷ []) = failed-Ends Error.action_not_allowed refl
split_cards-Ends shoe id index h s (a ∷ b ∷ c ∷ cards) = failed-Ends Error.action_not_allowed refl
split_cards-Ends shoe id index h s (a ∷ b ∷ []) =
    >>=-Ends (draw shoe s) _ (draw-Ends shoe s)
      (λ p _. >>=-Ends (draw shoe p.1) _ (draw-Ends shoe p.1) (λ _ _. returned-Ends _))

play_hit-Ends : (shoe : List ℕ) (h : Hand) (s : State) → Ends (play_hit shoe h s)
unfolding play_hit
play_hit-Ends shoe h s = >>=-Ends (draw shoe s) _ (draw-Ends shoe s) (λ _ _. returned-Ends _)

play_double-Ends :
    (shoe : List ℕ) (available : ℤ) (h : Hand) (s : State) → Ends (play_double shoe available h s)
unfolding play_double
play_double-Ends shoe available h s = tested-Ends _ Error.action_not_allowed _ refl (
    tested-Ends _ Error.insufficient_for_double _ refl
      (>>=-Ends (draw shoe s) _ (draw-Ends shoe s) (λ _ _. returned-Ends _)))

play_split-Ends :
    (shoe : List ℕ) (available : ℤ) (new_id : String) (after : List Hand) (h : Hand) (s : State)
    → Ends (play_split shoe available new_id after h s)
unfolding play_split
play_split-Ends shoe available new_id after h s =
    tested-Ends (not (is_pair h.cards) || h.split_aces) Error.action_not_allowed _ refl (
      tested-Ends (leb max_hands (length s.hands)) Error.max_hands_reached _ refl (
        tested-Ends (ltb_ℤ available (pos h.stake_units)) Error.insufficient_for_split _ refl (
          tested-Ends (str_eq new_id "" || any (λ (o : Hand). str_eq o.id new_id) s.hands)
            Error.action_not_allowed _ refl
            (tested-Ends (leb ((h.index + right_boundary after) / 2) h.index) Error.needs_review _
              refl
              (split_cards-Ends shoe new_id ((h.index + right_boundary after) / 2) h s h.cards)))))

play-Ends :
    (shoe : List ℕ) (a : Action) (available : ℤ) (after : List Hand) (h : Hand) (s : State)
    → Ends (play shoe a available after h s)
unfolding play
play-Ends shoe a available after h s = go a.type refl
  where
    go : (k : ActionType) → a.type ≡ k → Ends (play shoe a available after h s)
    go ActionType.hit q = rw (q, play) (play_hit-Ends shoe h s)
    go ActionType.stand q = rw (q, play) (record { ends = refl })
    go ActionType.system_auto_stand q = rw (q, play) (record { ends = refl })
    go ActionType.double q = rw (q, play) (play_double-Ends shoe available h s)
    go ActionType.split q = rw (q, play) (play_split-Ends shoe available a.new_hand_id after h s)
    go (ActionType.other_type text) q = rw (q, play) (record { ends = refl })

advance-Ends : (shoe : List ℕ) (s : State) → s.shoe_index ≤ length shoe → Ends (advance shoe s)
unfolding advance
advance-Ends shoe s low = elim (Option-cases (next_active s.hands)) [
  | inr (h, more) ↦ rw (more, advance) (returned-Ends _)
  | inl done ↦ elim (Bool-cases (all_bust s.hands)) [
    | inl bust ↦ rw (done, bust, advance) (returned-Ends _)
    | inr standing ↦
        let start : State = record s { active_hand_id = ""; dealer_revealed = true } in
        rw (done, standing, advance)
          (>>=-Ends (dealer_draws (suc (length shoe)) shoe start) _
            (≢-Ends (dealer_draws (suc (length shoe)) shoe start)
              (dealer_draws-ends (suc (length shoe)) shoe start (omega arith) low))
            (λ _ _. returned-Ends _))
  ]
]

-- An action on a round ends.
pub apply_action-Ends :
    (shoe : List ℕ) (a : Action) (available : ℤ) (now : Time) (system : Bool) (s : State)
    → IsRound s
    → IsPaced shoe s
    → Ends (apply_action shoe a available now system s)
unfolding apply_action
apply_action-Ends shoe a available now system s r k =
    >>=-Ends (check_action a now system s) _ (check_action-Ends a now system s)
      (λ (before, h, after) checked.
        >>=-Ends (play shoe a available after h s) _ (play-Ends shoe a available after h s)
          (λ p played.
            let (turn, _, f) = check_action-IsFound a now system s before after h checked in
            let y = played-IsPlay shoe a available s before h after p r turn f played in
            let w = record_action a now system before after p in
            let q = record_action-IsPaced shoe a available now system s before h after p k f y in
            >>=-Ends (advance shoe w) _ (advance-Ends shoe w q.in_shoe) (λ _ _. returned-Ends _)))
