-- ===== src/Blackjack/Round/Deal.antt =====
-- `draw`, `revalue`, `settle` and `New` of internal/games/blackjack/blackjack.go.
use momiao.Base.{
  ℕ, ◌+◌, ◌*◌, ◌/◌, ◌%◌, String, Bool, true, false, not, ◌&&◌, ◌||◌, List, [], ◌∷◌, ◌++◌, none,
  some, ltb, leb, ◌==◌, if◌then◌else◌, length, get_elem?, map,
}
use momiao.Base.Int.{ℤ, pos, negsuc, pos_part, ltb_ℤ, eqb_ℤ, sub_ℕ}
use momiao.Base.Sums.{sum_by}
use text.Mathlib.Text.{◌==◌ as str_eq}
use momiao.Blackjack.{
  Card, Value, Error, Checked, refused, accepted, ◌>>=◌, ◌>>◌, refuse_if, evaluate, shoe_hash,
}
use momiao.Blackjack.Round.Types.{
  Time, units_per_chip, max_int64, inactivity, Phase, HandStatus, Hand, State,
}

abbrev pub zero_value : Value
zero_value = record { hard_total = 0; best_total = 0; soft = false }

-- v, _ := Evaluate(cards)
unfoldable pub value_of_cards : List Card → Value
value_of_cards cards = elim (evaluate cards) [ accepted v ↦ v | refused e ↦ zero_value ]

unfoldable pub revalue : Hand → Hand
revalue h = record h { value = value_of_cards h.cards }

-- The card drawn, with the state after it.
unfoldable pub draw : List ℕ → State → Checked (Card × State)
draw shoe s = elim (get_elem? shoe s.shoe_index) [
  | none ↦ refused Error.needs_review
  | some v ↦ accepted (
    record { shoe_index = s.shoe_index; instance_id = v },
    record s {
      shoe_index = s.shoe_index + 1;
      dealt = s.dealt ++ record { shoe_index = s.shoe_index; instance_id = v } ∷ [];
    },
  )
]

-- The result and the payout of a hand against the dealer's value.
unfoldable pub outcome_of : Value → Bool → Hand → String × ℕ
outcome_of dealer dealer_natural h =
    if ltb 21 h.value.best_total
    then ("BUST", 0)
    else if dealer_natural && h.natural
    then ("PUSH", h.stake_units)
    else if dealer_natural
    then ("LOSS", 0)
    else if h.natural
    then ("NATURAL", h.stake_units / 2 * 5)
    else if ltb 21 dealer.best_total || ltb dealer.best_total h.value.best_total
    then ("NORMAL_WIN", h.stake_units * 2)
    else if h.value.best_total == dealer.best_total
    then ("PUSH", h.stake_units)
    else ("LOSS", 0)

unfoldable pub settle_hand : Value → Bool → Hand → Hand
settle_hand dealer dealer_natural h = record h {
  result = (outcome_of dealer dealer_natural h).0;
  payout_units = (outcome_of dealer dealer_natural h).1;
  net_change_units = sub_ℕ (outcome_of dealer dealer_natural h).1 h.stake_units;
}

unfoldable pub class_of : ℤ → String
class_of net =
    if ltb_ℤ net (pos 0) then "LOSS" else if eqb_ℤ net (pos 0) then "BREAK_EVEN" else "WIN"

abbrev pub has_natural : List Card → Bool
has_natural dealer = length dealer == 2 && (value_of_cards dealer).best_total == 21

unfoldable pub settle_hands : State → List Hand
settle_hands s = map (settle_hand (value_of_cards s.dealer) (has_natural s.dealer)) s.hands

unfoldable pub settle : State → State
settle s = record s {
  dealer_revealed = true;
  active_hand_id = "";
  phase = Phase.settled;
  hands = settle_hands s;
  total_payout_units = sum_by (λ (h : Hand). h.payout_units) (settle_hands s);
  net_change_units =
      sub_ℕ (sum_by (λ (h : Hand). h.payout_units) (settle_hands s)) s.total_stake_units;
  class =
      class_of (sub_ℕ (sum_by (λ (h : Hand). h.payout_units) (settle_hands s)) s.total_stake_units);
}

-- card, _ := s.draw(shoe)
unfoldable pub draw_card : List ℕ → State → Card × State
unfolding draw
draw_card shoe s = elim (draw shoe s) [
  | accepted p ↦ p
  | refused e ↦ (record { shoe_index = 0; instance_id = 0 }, s)
]

unfoldable pub first_hand : String → ℕ → Hand
first_hand id wager = record {
  id = id;
  index = 0;
  parent_id = "";
  cards = [];
  stake_units = wager;
  from_split = false;
  split_aces = false;
  natural = false;
  status = HandStatus.active;
  value = zero_value;
  result = "";
  payout_units = 0;
  net_change_units = pos 0;
}

unfoldable pub initial_state : String → ℕ → String → Time → State
unfolding first_hand
initial_state hash wager id now = record {
  initial_hand_id = id;
  created_at = now;
  initial_wager_units = wager;
  shoe_hash = hash;
  shoe_index = 0;
  dealt = [];
  dealer = [];
  dealer_revealed = false;
  hands = first_hand id wager ∷ [];
  active_hand_id = "";
  phase = Phase.player_turn;
  version = 1;
  actions = [];
  last_player_action_at = 0;
  auto_resolve_at = 0;
  total_stake_units = wager;
  total_payout_units = 0;
  fair_return_units = 0;
  net_change_units = pos 0;
  class = "";
}

-- The player's two cards and the dealer's two, dealt in turn.
unfoldable pub deal_four : List ℕ → Hand → State → State
unfolding draw_card
deal_four shoe h s =
    let (p₁, s₁) = draw_card shoe s in
    let (d₁, s₂) = draw_card shoe s₁ in
    let (p₂, s₃) = draw_card shoe s₂ in
    let (d₂, s₄) = draw_card shoe s₃ in
    record s₄ { hands = record h { cards = p₁ ∷ p₂ ∷ [] } ∷ []; dealer = d₁ ∷ d₂ ∷ [] }

-- The dealt hand with its value, and whether it is a natural.
unfoldable pub peek_hand : Hand → Hand
unfolding revalue
peek_hand h =
    let v = revalue h in
    let natural = (revalue h).value.best_total == 21 in
    record v {
      natural = natural;
      status = if natural then HandStatus.natural_complete else v.status;
    }

-- The dealer peeks: a natural of either side settles the round at once.
unfoldable pub open_round : Time → Hand → State → State
unfolding settle
open_round now h s =
    if (value_of_cards s.dealer).best_total == 21 || h.natural
    then settle (record s {
      hands = record h { status = if h.natural then h.status else HandStatus.stood } ∷ [];
    })
    else record s {
      hands = h ∷ [];
      active_hand_id = h.id;
      last_player_action_at = now;
      auto_resolve_at = now + inactivity;
    }

-- The hand that `deal_four` leaves: the source's `&s.Hands[0]`.
abbrev pub dealt_hand : State → Hand → Hand
dealt_hand s h = elim s.hands [ [] ↦ h | d ∷ _ ↦ d ]

abbrev pub is_wager : ℤ → Bool
is_wager (pos n) = leb (10 * units_per_chip) n && n % units_per_chip == 0
is_wager (negsuc n) = false

-- `New`; `digest` is the hexadecimal SHA-256 of a shoe.
unfoldable pub new : (List ℕ → String) → List ℕ → ℤ → String → Time → Checked State
unfolding deal_four peek_hand open_round initial_state shoe_hash
new digest shoe wager id now =
    refuse_if (not (is_wager wager)) Error.invalid_wager
    >> refuse_if (ltb (max_int64 / 16) (pos_part wager)) Error.integer_overflow
    >> refuse_if (str_eq id "" || now == 0) Error.action_not_allowed
    >> shoe_hash digest shoe
    >>= λ hash.
        let start = first_hand id (pos_part wager) in
        let dealt = deal_four shoe start (initial_state hash (pos_part wager) id now) in
        accepted (open_round now (peek_hand (dealt_hand dealt start)) dealt)
