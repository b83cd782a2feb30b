-- ===== src/Blackjack/Round/View.antt =====
-- `PublicView` of internal/games/blackjack/blackjack.go: what a player sees of a round.
use momiao.Base.{ℕ, ◌%◌, String, Bool, List, [], ◌∷◌, Option, none, some, map, if◌then◌else◌}
use momiao.Base.Int.{ℤ}
use momiao.Blackjack.{Card, Value}
use momiao.Blackjack.Round.Types.{Time, Phase, HandStatus, ActionType, Hand, State}
use momiao.Blackjack.Round.Deal.{value_of_cards}
use momiao.Blackjack.Round.Play.{legal_actions}

pub record PublicHand : Type 0 where
  pub id : String
  pub index : ℕ
  pub cards : List ℕ
  pub stake_units : ℕ
  pub status : HandStatus
  pub value : Value
  pub natural : Bool
  pub result : String
  pub payout_units : ℕ
  pub net_change_units : ℤ

pub record Projection : Type 0 where
  pub phase : Phase
  pub version : ℕ
  pub active_hand_id : String
  pub hands : List PublicHand
  pub dealer_cards : List ℕ
  pub dealer_revealed : Bool
  pub dealer_total : Option Value
  pub legal_actions : List ActionType
  pub last_player_action_at : Time
  pub auto_resolve_at : Time
  pub total_stake_units : ℕ
  pub total_payout_units : ℕ
  pub fair_return_units : ℕ
  pub net_change_units : ℤ
  pub class : String

-- Canonical codes 0..51, which forget the copy of the deck.
abbrev pub codes : List Card → List ℕ
codes cards = map (λ (c : Card). c.instance_id % 52) cards

unfoldable pub public_hand : Hand → PublicHand
public_hand h = record {
  id = h.id;
  index = h.index;
  cards = codes h.cards;
  stake_units = h.stake_units;
  status = h.status;
  value = h.value;
  natural = h.natural;
  result = h.result;
  payout_units = h.payout_units;
  net_change_units = h.net_change_units;
}

-- The dealer's cards, or the first alone before the dealer reveals them.
unfoldable pub shown_dealer : Bool → List Card → List ℕ
shown_dealer revealed [] = []
shown_dealer revealed (c ∷ cards) = (c.instance_id % 52) ∷ (if revealed then codes cards else [])

unfoldable pub public_view : State → ℤ → Projection
unfolding public_hand shown_dealer
public_view s available = record {
  phase = s.phase;
  version = s.version;
  active_hand_id = s.active_hand_id;
  hands = map public_hand s.hands;
  dealer_cards = shown_dealer s.dealer_revealed s.dealer;
  dealer_revealed = s.dealer_revealed;
  dealer_total = if s.dealer_revealed then some (value_of_cards s.dealer) else none;
  legal_actions = legal_actions s available;
  last_player_action_at = s.last_player_action_at;
  auto_resolve_at = s.auto_resolve_at;
  total_stake_units = s.total_stake_units;
  total_payout_units = s.total_payout_units;
  fair_return_units = s.fair_return_units;
  net_change_units = s.net_change_units;
  class = s.class;
}
