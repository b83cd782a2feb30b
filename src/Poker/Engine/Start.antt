-- ===== src/Poker/Engine/Start.antt =====
-- `New` and `Restore` of internal/poker/engine/engine.go.
use momiao.Base.{
  ℕ, zero, suc, ◌+◌, ◌-◌, min, Bool, true, false, not, ◌&&◌, String, Option, none, some, List, [],
  ◌∷◌, ◌++◌, ltb, leb, ◌==◌, if◌then◌else◌, length, any,
}
use momiao.Base.Int.{negsuc}
use momiao.Base.Sort.{sort_by}
use text.Mathlib.Text.{◌==◌ as str_eq}
use momiao.Poker.Types.{
  Time, Card, snapshot_version, max_int64, max_int32, whole, Street, Result, ok, err, invalid,
  ◌>>=◌, ◌>>◌, guard, Config, Seat, Participant, EventType, Visibility, State, Evaluator,
}
use momiao.Poker.Button.{valid_button_choice}
use momiao.Poker.Table.{
  player, update_player, has_player, seats, next_seat, commit, emit, event_of, deal,
}
use momiao.Poker.Progress.{progress, progress_fuel}
use momiao.Poker.Validate.{valid_config, validate}

unfoldable pub valid_entry : ℕ → List String → ℕ → Seat → Bool
valid_entry previous ids total seat =
    leb 1 seat.seat_no
    && leb seat.seat_no 9
    && ltb previous seat.seat_no
    && not (str_eq seat.player_id "")
    && not (any (λ id. str_eq id seat.player_id) ids)
    && ltb 0 seat.stack
    && whole seat.stack
    && leb seat.consecutive_timeouts max_int32
    && not seat.timeout_sit_out
    && leb seat.stack (max_int64 - total)

unfoldable pub participant : Seat → Participant
participant seat = record {
  seat_no = seat.seat_no;
  player_id = seat.player_id;
  stack = seat.stack;
  consecutive_timeouts = seat.consecutive_timeouts;
  timeout_sit_out = seat.timeout_sit_out;
  initial_stack = seat.stack;
  hole = (0, 0);
  street_committed = 0;
  total_committed = 0;
  folded = false;
  last_acted = negsuc 0;
  pending = true;
  disconnected_since = none;
  disconnect_sit_out = false;
}

-- The loop over the ordered seats, with the previous number, the ids and the total so far.
unfoldable pub seat_players :
    ℕ → List String → ℕ → List Participant → List Seat → Result (ℕ × List Participant)
unfolding valid_entry participant
seat_players previous ids total ps [] = ok (total, ps)
seat_players previous ids total ps (seat ∷ rest) = elim (valid_entry previous ids total seat) [
  | false ↦ err invalid
  | true ↦
      seat_players seat.seat_no (seat.player_id ∷ ids) (total + seat.stack)
        (ps ++ participant seat ∷ []) rest
]

unfoldable pub initial_state : Config → ℕ → List Participant → State
initial_state config total ps = record {
  schema_version = snapshot_version;
  config = config;
  players = ps;
  initial_total = total;
  street = Street.preflop;
  board = [];
  deck_cursor = 0;
  small_blind_seat = 0;
  big_blind_seat = 0;
  actor = 0;
  current_bet = 0;
  last_full_raise = config.big_blind;
  full_raise_sequence = 0;
  version = 0;
  action_sequence = 0;
  started_at = 0;
  deadline = 0;
  recovery_until = none;
  pots = [];
  returns = [];
  ranks = [];
  events = [];
  receipts = [];
}

unfoldable pub valid_start_button : Config → State → Bool
unfolding valid_button_choice has_player seats
valid_start_button config s = has_player s config.button_seat && (elim config.button_selection [
  | none ↦ true
  | some choice ↦
      valid_button_choice choice (seats s.players) && (choice.seat == config.button_seat)
])

-- The button posts the small blind when there are two players.
unfoldable pub small_blind_of : Config → List Participant → ℕ
unfolding next_seat
small_blind_of config ps =
    if length ps == 2 then config.button_seat else next_seat ps config.button_seat (λ p. true)

-- A blind is posted as far as the stack reaches.
unfoldable pub post_blind : ℕ → ℕ → EventType → Time → State → State
unfolding player commit update_player emit event_of
post_blind seat amount type now s = elim (player s.players seat) [
  | none ↦ s
  | some p ↦
      emit (event_of type seat (min p.stack amount) (p.street_committed + min p.stack amount)) now
        (record s { players = update_player seat (commit (min p.stack amount)) s.players })
]

unfoldable pub post_blinds : Time → State → State
unfolding post_blind small_blind_of next_seat
post_blinds now s =
    let small = small_blind_of s.config s.players in
    let big = next_seat s.players small (λ p. true) in
    let posted = post_blind big s.config.big_blind EventType.post_bb now (
      post_blind small s.config.small_blind EventType.post_sb now
        (record s { small_blind_seat = small; big_blind_seat = big })) in
    record posted { current_bet = s.config.big_blind }

abbrev pub set_hole : ℕ → Card → Participant → Participant
set_hole zero card p = record p { hole = (card, p.hole.1) }
set_hole (suc n) card p = record p { hole = (p.hole.0, card) }

-- One pass of hole cards, to the seats in order.
unfoldable pub deal_pass : ℕ → Time → List ℕ → State → Result State
unfolding deal update_player
deal_pass pass now [] s = ok s
deal_pass pass now (seat ∷ rest) s = do
  (card, s') ← deal seat Visibility.private_card now s
  deal_pass pass now rest
      (record s' { players = update_player seat (set_hole pass card) s'.players })

unfoldable pub deal_holes : Time → State → Result State
unfolding deal_pass seats
deal_holes now s = do s' ← deal_pass 0 now (seats s.players) s; deal_pass 1 now (seats s.players) s'

-- A checked table before its first event.
unfoldable pub seat_table : Config → List Seat → Time → Result State
unfolding valid_config seat_players sort_by initial_state valid_start_button
seat_table config entrants now = do
  guard (valid_config config) invalid
  guard (leb 2 (length entrants) && leb (length entrants) 9 && not (now == 0)) invalid
  (total, ps) ← seat_players 0 [] 0 [] (sort_by (λ s. s.seat_no) entrants)
  guard (valid_start_button config (initial_state config total ps)) invalid
  ok (initial_state config total ps)

unfoldable pub begin_hand : Evaluator → Time → State → Result State
unfolding emit event_of post_blinds deal_holes progress
begin_hand evaluate now s = do
  let posted = post_blinds now (emit (event_of EventType.hand_committed 0 0 0) now s)
  dealt ← deal_holes now posted
  progress progress_fuel evaluate posted.big_blind_seat now dealt

-- `New`: a nil evaluator is refused.
unfoldable pub new : Config → List Seat → Time → Option Evaluator → Result State
unfolding seat_table begin_hand validate
new config entrants now none = err invalid
new config entrants now (some evaluate) = do
  seated ← seat_table config entrants now
  s ← begin_hand evaluate now seated
  validate s
  ok s

-- `Restore`: the JSON decoder is a parameter; what it reads must pass `validate`.
unfoldable pub restore :
    {Bytes : Type 0} → (Bytes → Option State) → Bytes → Option Evaluator → Result State
unfolding validate
restore decode bytes none = err invalid
restore decode bytes (some evaluate) = elim (decode bytes) [
  | none ↦ err invalid
  | some s ↦ validate s >> ok s
]
