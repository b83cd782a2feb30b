-- ===== src/Poker/Validate/Hand.antt =====
-- The rest of `validate` in internal/poker/engine/engine.go: the streets, the actor, the event log,
-- the receipts and the settlement's sums.
use momiao.Base.{
  ℕ, ◌+◌, ◌*◌, ◌%◌, max, Bool, true, false, not, ◌&&◌, ◌||◌, String, Option, none, some, List, [],
  ◌∷◌, ltb, leb, ◌==◌, if◌then◌else◌, length, get_elem?, any, all,
}
use momiao.Base.Sums.{sum_by}
use text.Mathlib.Text.{◌==◌ as str_eq}
use momiao.Poker.Types.{
  snapshot_version, decision_window, units_per_chip, whole, whole_units, Street, Result, invalid,
  guard, Participant, Event, EventType, Visibility, Award, Pot, Return, Receipt, State,
}
use momiao.Poker.Table.{player, has_player, seats}
use momiao.Poker.Button.{valid_button_choice}
use momiao.Poker.Validate.Ledger.{running, account_of, Account, validate_accounting}
use momiao.Poker.Validate.Players.{
  valid_config, Totals, check_players, valid_cards_used, deck_holds, cards_from_deck,
}

unfoldable pub valid_header : State → Bool
valid_header s =
    (s.schema_version == snapshot_version)
    && leb 2 (length s.players)
    && leb (length s.players) 9
    && ltb 0 s.initial_total
    && whole s.initial_total
    && ltb 0 s.last_full_raise
    && whole s.last_full_raise
    && (s.version == length s.events)

unfoldable pub valid_seats : State → Bool
unfolding has_player
valid_seats s =
    has_player s s.config.button_seat
    && has_player s s.small_blind_seat
    && has_player s s.big_blind_seat
    && not (s.small_blind_seat == s.big_blind_seat)

abbrev pub totals_are : ℕ → Option Totals → Bool
totals_are n none = false
totals_are n (some t) = (t.total == n) && (t.initial == n)

-- Chip conservation over the table.
unfoldable pub valid_totals : State → Bool
unfolding check_players
valid_totals s =
    totals_are s.initial_total
      (check_players s.full_raise_sequence 0 [] (record { total = 0; initial = 0 }) s.players)

unfoldable pub board_count : Street → ℕ → Bool
board_count Street.preflop n = n == 0
board_count Street.flop n = n == 3
board_count Street.turn n = n == 4
board_count Street.river n = n == 5
board_count Street.settled n = n == 0 || n == 3 || n == 4 || n == 5

unfoldable pub highest_street : List Participant → ℕ
highest_street [] = 0
highest_street (p ∷ ps) = max p.street_committed (highest_street ps)

unfoldable pub expected_bet : State → ℕ
unfolding highest_street
expected_bet s = elim s.street [
  | Street.preflop ↦ max (highest_street s.players) s.config.big_blind
  | _ ↦ highest_street s.players
]

unfoldable pub valid_actor : State → Bool
unfolding player
valid_actor s = elim (player s.players s.actor) [
  | none ↦ false
  | some p ↦
      not p.folded
      && not (p.stack == 0)
      && p.pending
      && not (s.action_sequence == 0)
      && not (s.started_at == 0)
      && (s.deadline == s.started_at + decision_window)
]

unfoldable pub valid_closed : State → Bool
valid_closed s =
    (s.actor == 0)
    && (s.deadline == 0)
    && all (λ p. (p.total_committed == 0) && (p.street_committed == 0) && not p.pending) s.players

unfoldable pub valid_street : State → Bool
unfolding board_count expected_bet valid_actor valid_closed
valid_street s =
    board_count s.street (length s.board)
    && whole s.current_bet
    && (if running s then (s.current_bet == expected_bet s) && valid_actor s else valid_closed s)

abbrev pub is_dealt : Event → Bool
is_dealt e = elim e.type [ EventType.card_dealt ↦ true | _ ↦ false ]

abbrev pub is_private : Event → Bool
is_private e = elim e.visibility [ Visibility.private_card ↦ true | _ ↦ false ]

abbrev pub is_public : Event → Bool
is_public e = elim e.visibility [ Visibility.public_card ↦ true | _ ↦ false ]

abbrev pub seat_is : List ℕ → ℕ → ℕ → Bool
seat_is ss i seat = elim (get_elem? ss i) [ none ↦ false | some k ↦ seat == k ]

abbrev pub option_is : Option ℕ → ℕ → Bool
option_is none n = false
option_is (some m) n = m == n

-- The dealt-th dealing: the next card of the deck, to the players in turn, then to the board.
unfoldable pub valid_deal : State → ℕ → Event → Bool
unfolding seats
valid_deal s dealt e =
    option_is e.deck_index dealt
    && ltb dealt s.deck_cursor
    && (elim e.card [ none ↦ false | some c ↦ deck_holds s.config.deck dealt c ])
    && (if ltb dealt (2 * length s.players)
        then is_private e && seat_is (seats s.players) (dealt % length s.players) e.seat
        else is_public e && (e.seat == 0))

-- Consecutive numbers, whole amounts, and the dealings counted.
unfoldable pub check_events : State → ℕ → ℕ → List Event → Option ℕ
unfolding valid_deal
check_events s i dealt [] = some dealt
check_events s i dealt (e ∷ es) =
    let counted = check_events s (i + 1) (dealt + 1) es in
    let skipped = check_events s (i + 1) dealt es in
    if (e.sequence == i + 1)
      && (e.version == i + 1)
      && not (e.at == 0)
      && whole e.delta
      && whole e.to
    then (if is_dealt e then (if valid_deal s dealt e then counted else none) else skipped)
    else none

unfoldable pub valid_events : State → Bool
unfolding check_events
valid_events s = option_is (check_events s 0 0 s.events) s.deck_cursor

unfoldable pub valid_receipts : List Event → List String → List Receipt → Bool
valid_receipts events seen [] = true
valid_receipts events seen (r ∷ rest) =
    not (str_eq r.action.id "")
    && whole_units r.action.to
    && not (any (λ id. str_eq id r.action.id) seen)
    && ltb r.first_event r.last_event
    && leb r.last_event (length events)
    && (elim (get_elem? events r.first_event) [
      | none ↦ false
      | some e ↦ str_eq e.action_id r.action.id
    ])
    && valid_receipts events (r.action.id ∷ seen) rest

abbrev pub is_commit : Event → Bool
is_commit e = elim (account_of e.type) [ Account.pays ↦ true | _ ↦ false ]

unfoldable pub valid_award : State → Award → Bool
unfolding player
valid_award s a =
    whole a.amount
    && whole a.base
    && (a.odd == 0 || a.odd == units_per_chip)
    && (a.amount == a.base + a.odd)
    && (elim (player s.players a.seat) [ none ↦ false | some p ↦ not p.folded ])

unfoldable pub awards_sum : List Award → ℕ
awards_sum = sum_by (λ a. a.amount)

unfoldable pub valid_settled_pot : State → Pot → Bool
unfolding valid_award awards_sum
valid_settled_pot s pot =
    all (valid_award s) pot.awards
    && (awards_sum pot.awards == pot.amount)
    && ltb 0 pot.amount
    && whole pot.amount
    && whole pot.floor
    && whole pot.ceiling

unfoldable pub valid_return : State → Return → Bool
unfolding has_player
valid_return s r = ltb 0 r.amount && whole r.amount && has_player s r.seat

-- What was committed equals what was awarded and returned.
unfoldable pub valid_settlement : State → Bool
unfolding valid_settled_pot valid_return awards_sum account_of
valid_settlement s =
    all (valid_settled_pot s) s.pots
    && all (valid_return s) s.returns
    && (sum_by (λ e. if is_commit e then e.delta else 0) s.events
        == sum_by (λ pot. awards_sum pot.awards) s.pots + sum_by (λ r. r.amount) s.returns)

unfoldable pub valid_selection : State → Bool
unfolding valid_button_choice seats
valid_selection s = elim s.config.button_selection [
  | none ↦ true
  | some choice ↦ valid_button_choice choice (seats s.players)
]

unfoldable pub is_valid : State → Bool
is_valid s =
    valid_header s
    && valid_config s.config
    && valid_seats s
    && valid_totals s
    && valid_cards_used s
    && cards_from_deck s
    && valid_street s
    && valid_events s
    && valid_receipts s.events [] s.receipts
    && valid_selection s
    && (running s || valid_settlement s)
    && validate_accounting s

unfoldable pub validate : State → Result (Unit {0})
unfolding is_valid valid_header valid_config valid_seats valid_totals valid_cards_used
    cards_from_deck valid_street valid_events valid_receipts valid_selection valid_settlement
    validate_accounting
validate s = guard (is_valid s) invalid
