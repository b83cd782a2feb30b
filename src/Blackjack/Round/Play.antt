-- ===== src/Blackjack/Round/Play.antt =====
-- `apply`, `advance` and `LegalActions` of internal/games/blackjack/blackjack.go. A failed operation
-- discards the state it worked on, so that it returns an error alone.
use momiao.Base.{
  ℕ, zero, suc, ◌+◌, ◌*◌, ◌/◌, String, Bool, true, false, not, ◌&&◌, ◌||◌, List, [], ◌∷◌, ◌++◌,
  Option, none, some, ltb, leb, ◌==◌, if◌then◌else◌, length, any, all,
}
use momiao.Base.Int.{ℤ, pos, ltb_ℤ}
use text.Mathlib.Text.{◌==◌ as str_eq}
use momiao.Blackjack.{Card, Error, Checked, refused, accepted, ◌>>=◌, ◌>>◌, refuse_if, point}
use momiao.Blackjack.Round.Types.{
  Time, max_hands, inactivity, Phase, HandStatus, ActionType, Hand, Action, ActionRecord, State,
}
use momiao.Blackjack.Round.Deal.{value_of_cards, revalue, draw, settle, zero_value}

abbrev pub is_active : HandStatus → Bool
is_active HandStatus.active = true
is_active _ = false

abbrev pub is_player_turn : Phase → Bool
is_player_turn Phase.player_turn = true
is_player_turn Phase.settled = false

-- The hand that has the active id and is active: the source's index as the hands before it.
unfoldable pub find_active : String → List Hand → Option (List Hand × Hand × List Hand)
find_active id [] = none
find_active id (h ∷ hands) =
    let later = find_active id hands in
    if str_eq h.id id && is_active h.status
    then some ([], h, hands)
    else elim later [ none ↦ none | some (before, a, after) ↦ some (h ∷ before, a, after) ]

-- Two cards that count the same.
abbrev pub is_pair : List Card → Bool
is_pair (a ∷ b ∷ []) = point a.instance_id == point b.instance_id
is_pair _ = false

abbrev pub legal_for : Hand → ℕ → ℤ → List ActionType
legal_for h hands available =
    if length h.cards == 2 && not h.split_aces && not (ltb_ℤ available (pos h.stake_units))
    then if ltb hands max_hands && is_pair h.cards
      then ActionType.hit ∷ ActionType.stand ∷ ActionType.double ∷ ActionType.split ∷ []
      else ActionType.hit ∷ ActionType.stand ∷ ActionType.double ∷ []
    else ActionType.hit ∷ ActionType.stand ∷ []

unfoldable pub legal_actions : State → ℤ → List ActionType
unfolding find_active
legal_actions s available = elim (find_active s.active_hand_id s.hands) [
  | none ↦ []
  | some (before, h, after) ↦
      if is_player_turn s.phase then legal_for h (length s.hands) available else []
]

-- A play on the active hand: what it adds to the stake, the hands in its place, the state.
abbrev pub Played : Type 0
Played = ℕ × List Hand × State

unfoldable pub with_card : Card → Hand → Hand
unfolding revalue
with_card c h = revalue (record h { cards = h.cards ++ c ∷ [] })

unfoldable pub hit_hand : Card → Hand → Hand
unfolding with_card
hit_hand c h =
    let v = with_card c h in
    if ltb 21 v.value.best_total
    then record v { status = HandStatus.bust }
    else if v.value.best_total == 21
    then record v { status = HandStatus.stood }
    else v

unfoldable pub play_hit : List ℕ → Hand → State → Checked Played
unfolding hit_hand
play_hit shoe h s = do (c, drawn) ← draw shoe s; accepted (0, hit_hand c h ∷ [], drawn)

unfoldable pub double_hand : Card → Hand → Hand
unfolding with_card
double_hand c h = record (with_card c (record h { stake_units = h.stake_units * 2 })) {
  status = HandStatus.doubled_complete;
}

unfoldable pub play_double : List ℕ → ℤ → Hand → State → Checked Played
unfolding double_hand
play_double shoe available h s = do
  refuse_if (not (length h.cards == 2) || h.split_aces) Error.action_not_allowed
  refuse_if (ltb_ℤ available (pos h.stake_units)) Error.insufficient_for_double
  (c, drawn) ← draw shoe s
  accepted (h.stake_units, double_hand c h ∷ [], drawn)

abbrev pub after_split : Bool → HandStatus
after_split true = HandStatus.split_aces_complete
after_split false = HandStatus.active

-- The left hand keeps its id and index, and the first card.
unfoldable pub left_hand : Bool → Card → Card → Hand → Hand
unfolding revalue
left_hand aces kept drawn h = revalue (record h {
  cards = kept ∷ drawn ∷ [];
  from_split = true;
  split_aces = aces;
  natural = false;
  status = if aces then HandStatus.split_aces_complete else h.status;
})

unfoldable pub right_hand : Bool → String → ℕ → Card → Card → Hand → Hand
unfolding revalue
right_hand aces id index kept drawn h = revalue (record {
  id = id;
  index = index;
  parent_id = h.id;
  cards = kept ∷ drawn ∷ [];
  stake_units = h.stake_units;
  from_split = true;
  split_aces = aces;
  natural = false;
  status = after_split aces;
  value = zero_value;
  result = "";
  payout_units = 0;
  net_change_units = pos 0;
})

-- The index of the next hand, or 8.
abbrev pub right_boundary : List Hand → ℕ
right_boundary [] = 8
right_boundary (h ∷ hands) = h.index

-- The two cards of a split: one is drawn to the left hand, then one to the right hand.
unfoldable pub split_cards : List ℕ → String → ℕ → Hand → State → List Card → Checked Played
unfolding left_hand right_hand
split_cards shoe id index h s (a ∷ b ∷ []) = do
  (left, s₁) ← draw shoe s
  (right, s₂) ← draw shoe s₁
  accepted (
    h.stake_units,
    left_hand (point a.instance_id == 1) a left h
        ∷ right_hand (point a.instance_id == 1) id index b right h
        ∷ [],
    s₂,
  )
split_cards shoe id index h s _ = refused Error.action_not_allowed

unfoldable pub play_split : List ℕ → ℤ → String → List Hand → Hand → State → Checked Played
unfolding split_cards
play_split shoe available new_id after h s = do
  refuse_if (not (is_pair h.cards) || h.split_aces) Error.action_not_allowed
  refuse_if (leb max_hands (length s.hands)) Error.max_hands_reached
  refuse_if (ltb_ℤ available (pos h.stake_units)) Error.insufficient_for_split
  refuse_if (str_eq new_id "" || any (λ (o : Hand). str_eq o.id new_id) s.hands)
      Error.action_not_allowed
  refuse_if (leb ((h.index + right_boundary after) / 2) h.index) Error.needs_review
  split_cards shoe new_id ((h.index + right_boundary after) / 2) h s h.cards

unfoldable pub play : List ℕ → Action → ℤ → List Hand → Hand → State → Checked Played
unfolding play_hit play_double play_split
play shoe a available after h s = elim a.type [
  | ActionType.hit ↦ play_hit shoe h s
  | ActionType.stand ↦ accepted (0, record h { status = HandStatus.stood } ∷ [], s)
  | ActionType.system_auto_stand ↦ accepted (0, record h { status = HandStatus.stood } ∷ [], s)
  | ActionType.double ↦ play_double shoe available h s
  | ActionType.split ↦ play_split shoe available a.new_hand_id after h s
  | ActionType.other_type _ ↦ refused Error.action_not_allowed
]

-- The checks before an action is played; the result is the active hand in its place.
abbrev pub is_player_action : ActionType → Bool
is_player_action ActionType.hit = true
is_player_action ActionType.stand = true
is_player_action ActionType.double = true
is_player_action ActionType.split = true
is_player_action _ = false

abbrev pub is_auto_stand : ActionType → Bool
is_auto_stand ActionType.system_auto_stand = true
is_auto_stand _ = false

abbrev pub may_act : State → Action → Time → Bool → Bool
may_act s a now system =
    if system
    then is_auto_stand a.type && not (ltb now s.auto_resolve_at)
    else is_player_action a.type

unfoldable pub check_action : Action → Time → Bool → State → Checked (List Hand × Hand × List Hand)
unfolding find_active
check_action a now system s =
    refuse_if (any (λ (r : ActionRecord). str_eq r.action.id a.id) s.actions) Error.duplicate_action
    >> refuse_if (str_eq a.id "" || now == 0 || ltb now s.last_player_action_at)
        Error.action_not_allowed
    >> refuse_if (not (a.expected_version == s.version)) Error.stale_version
    >> refuse_if (not (is_player_turn s.phase)) Error.hand_not_active
    >> elim (find_active s.active_hand_id s.hands) [
      | none ↦ refused Error.hand_not_active
      | some found ↦
          refuse_if (not (str_eq a.hand_id s.active_hand_id)) Error.hand_not_active
          >> refuse_if (not (may_act s a now system)) Error.action_not_allowed
          >> accepted found
    ]

-- The state with the action played and recorded, before `advance`.
unfoldable pub record_action : Action → Time → Bool → List Hand → List Hand → Played → State
record_action a now system before after (additional, played, s) = record s {
  hands = before ++ (played ++ after);
  total_stake_units = s.total_stake_units + additional;
  version = s.version + 1;
  actions =
      s.actions
      ++ record {
        action = a;
        sequence = length s.actions + 1;
        at = now;
        additional_stake_units = additional;
      }
        ∷ [];
  last_player_action_at = if system then s.last_player_action_at else now;
  auto_resolve_at = if system then s.auto_resolve_at else now + inactivity;
}

-- The dealer draws to 17. The shoe bounds the loop.
unfoldable pub dealer_draws : ℕ → List ℕ → State → Checked State
dealer_draws zero shoe s = refused Error.out_of_fuel
dealer_draws (suc fuel) shoe s = elim (leb 17 (value_of_cards s.dealer).best_total) [
  | true ↦ accepted s
  | false ↦
      draw shoe s >>= λ p. dealer_draws fuel shoe (record p.1 { dealer = p.1.dealer ++ p.0 ∷ [] })
]

-- The first active hand.
unfoldable pub next_active : List Hand → Option Hand
next_active [] = none
next_active (h ∷ hands) =
    let later = next_active hands in if is_active h.status then some h else later

abbrev pub all_bust : List Hand → Bool
all_bust = all (λ (h : Hand). ltb 21 h.value.best_total)

unfoldable pub advance : List ℕ → State → Checked State
unfolding next_active dealer_draws settle
advance shoe s = elim (next_active s.hands) [
  | some h ↦ accepted (record s { active_hand_id = h.id })
  | none ↦ elim (all_bust s.hands) [
    | true ↦ accepted (settle (record s { active_hand_id = ""; dealer_revealed = true }))
    | false ↦
        dealer_draws (suc (length shoe)) shoe
          (record s { active_hand_id = ""; dealer_revealed = true })
        >>= λ t. accepted (settle t)
  ]
]

unfoldable pub apply_action : List ℕ → Action → ℤ → Time → Bool → State → Checked (ℕ × State)
unfolding check_action play record_action advance
apply_action shoe a available now system s = check_action a now system s >>= λ (before, h, after).
    play shoe a available after h s >>= λ played.
    advance shoe (record_action a now system before after played) >>= λ t. accepted (played.0, t)
