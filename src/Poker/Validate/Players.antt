-- ===== src/Poker/Validate/Players.antt =====
-- `validateConfig` and the checks of the players, cards and chip totals in `validate`, in
-- internal/poker/engine/engine.go.
use momiao.Base.{
  ℕ, ◌+◌, ◌-◌, ◌*◌, ◌/◌, Bool, true, false, not, ◌&&◌, String, Option, none, some, List, [], ◌∷◌,
  ◌++◌, ltb, leb, ◌==◌, if◌then◌else◌, length, get_elem?, any, all,
}
use momiao.Base.Int.{pos, negsuc, leb_ℤ}
use text.Mathlib.Text.{◌==◌ as str_eq}
use Prim.Native.String.{len}
use momiao.Poker.Types.{
  Card, units_per_chip, max_int64, max_int32, whole, Config, Participant, State,
}
use momiao.Poker.Rank.{duplicate_free}

abbrev pub big_blinds : List ℕ
big_blinds = 10 ∷ 20 ∷ 50 ∷ 100 ∷ 200 ∷ 1000 ∷ []

unfoldable pub valid_blinds : ℕ → ℕ → Bool
valid_blinds small big =
    any (λ bb. big == bb * units_per_chip && small == bb / 2 * units_per_chip) big_blinds

unfoldable pub valid_config : Config → Bool
unfolding valid_blinds duplicate_free
valid_config c =
    not (str_eq c.hand_id "")
    && leb (len c.hand_id) 128
    && not (str_eq c.evaluator_version "")
    && leb 1 c.button_seat
    && leb c.button_seat 9
    && (length c.deck == 52)
    && valid_blinds c.small_blind c.big_blind
    && all (λ card. ltb card 52) c.deck
    && duplicate_free c.deck

-- The checks of one player that look at no other.
unfoldable pub valid_player : ℕ → Participant → Bool
valid_player full_raise_sequence p =
    leb 1 p.seat_no
    && leb p.seat_no 9
    && not (str_eq p.player_id "")
    && whole p.stack
    && whole p.total_committed
    && whole p.street_committed
    && leb p.street_committed p.total_committed
    && ltb 0 p.initial_stack
    && whole p.initial_stack
    && leb p.consecutive_timeouts max_int32
    && leb_ℤ (negsuc 0) p.last_acted
    && leb_ℤ p.last_acted (pos full_raise_sequence)

-- The running sums of the loop over the players.
pub record Totals : Type 0 where
  pub total : ℕ
  pub initial : ℕ

-- No sum leaves the range of int64.
unfoldable pub sums_fit : Totals → Participant → Bool
sums_fit t p =
    leb p.stack (max_int64 - t.total)
    && leb p.total_committed (max_int64 - (t.total + p.stack))
    && leb p.initial_stack (max_int64 - t.initial)

unfoldable pub add_totals : Totals → Participant → Totals
add_totals t p = record {
  total = t.total + p.stack + p.total_committed;
  initial = t.initial + p.initial_stack;
}

-- `used` holds the cards seen so far, `ids` the player ids.
unfoldable pub fresh_cards : List Card → List Card → Bool
fresh_cards used [] = true
fresh_cards used (c ∷ cs) = ltb c 52 && not (any (λ d. d == c) used) && fresh_cards (c ∷ used) cs

-- The loop over the players, with the previous seat number, ids and totals; the totals at its end.
unfoldable pub check_players : ℕ → ℕ → List String → Totals → List Participant → Option Totals
unfolding valid_player sums_fit add_totals
check_players sequence previous ids t [] = some t
check_players sequence previous ids t (p ∷ ps) =
    let rest = check_players sequence p.seat_no (p.player_id ∷ ids) (add_totals t p) ps in
    if ltb previous p.seat_no
      && valid_player sequence p
      && not (any (λ id. str_eq id p.player_id) ids)
      && sums_fit t p
    then rest
    else none

unfoldable pub hole_cards : List Participant → List Card
hole_cards [] = []
hole_cards (p ∷ ps) = p.hole.0 ∷ p.hole.1 ∷ hole_cards ps

-- used: hole cards and board are distinct cards of the deck, as many as the cursor says.
unfoldable pub valid_cards_used : State → Bool
unfolding fresh_cards hole_cards
valid_cards_used s =
    fresh_cards [] (hole_cards s.players ++ s.board)
    && (s.deck_cursor == length (hole_cards s.players ++ s.board))
    && leb s.deck_cursor 23
    && leb 4 s.deck_cursor

abbrev pub deck_holds : List Card → ℕ → Card → Bool
deck_holds deck i c = elim (get_elem? deck i) [ none ↦ false | some d ↦ c == d ]

-- Two rounds of one card each.
unfoldable pub holes_from_deck : List Card → ℕ → ℕ → List Participant → Bool
holes_from_deck deck n i [] = true
holes_from_deck deck n i (p ∷ ps) =
    deck_holds deck i p.hole.0
    && deck_holds deck (n + i) p.hole.1
    && holes_from_deck deck n (i + 1) ps

unfoldable pub board_from_deck : List Card → ℕ → List Card → Bool
board_from_deck deck i [] = true
board_from_deck deck i (c ∷ cs) = deck_holds deck i c && board_from_deck deck (i + 1) cs

unfoldable pub cards_from_deck : State → Bool
unfolding holes_from_deck board_from_deck
cards_from_deck s =
    holes_from_deck s.config.deck (length s.players) 0 s.players
    && board_from_deck s.config.deck (2 * length s.players) s.board
