-- ===== src/Poker/Engine/Act.antt =====
-- `Apply`, `apply` and `Timeout` of internal/poker/engine/engine.go. An operation returns the state
-- after it, changed or not, with its result.
use momiao.Base.{
  ℕ, zero, suc, ◌+◌, ◌-◌, ◌/◌, ◌%◌, min, Bool, true, false, not, ◌&&◌, ◌||◌, String, Option, none,
  some, [], ◌∷◌, ◌++◌, map, ltb, leb, ◌==◌, if◌then◌else◌, length, any, find, take, drop,
}
use momiao.Base.Int.{pos, pos_part, eqb_ℤ}
use text.Mathlib.Text.{◌==◌ as str_eq, starts_with}
use Prim.Native.String.{len, ◌++◌ as append}
use momiao.Poker.Types.{
  Time, whole_units, ActionKind, kind_eq, Street, street_eq, Result, ok, err, invalid, illegal,
  stale, conflict, deadline, recovering, ◌>>=◌, ◌>>◌, guard, Participant, Action, Legal, EventType,
  Receipt, State, Evaluator, Outcome,
}
use momiao.Poker.Table.{player, update_player, commit, emit, event_of, legal, is_some}
use momiao.Poker.Progress.{progress, progress_fuel}
use momiao.Poker.Validate.{validate}

abbrev pub is_raise : ActionKind → Bool
is_raise ActionKind.raise = true
is_raise ActionKind.bet = true
is_raise _ = false

-- The checks before the legal actions are looked up, in the source's order.
unfoldable pub may_act : State → Action → Time → Bool → Result (Unit {0})
may_act s a now timeout = do
  guard (not (is_some s.recovery_until)) recovering
  guard (a.expected_version == s.version) stale
  guard
      (not (street_eq s.street Street.settled)
        && (s.actor == a.seat)
        && not (a.seat == 0)
        && not (now == 0)
        && leb s.started_at now)
      illegal
  guard (timeout || ltb now s.deadline) deadline

-- An allowed kind, with a whole target that is 0 unless the kind is a bet or a raise.
unfoldable pub well_formed : Legal → Action → Bool
well_formed l a =
    any (λ kind. kind_eq kind a.kind) l.actions
    && whole_units a.to
    && (is_raise a.kind || eqb_ℤ a.to (pos 0))

-- What the seat's commitment on this street becomes.
unfoldable pub target_of : Legal → Participant → Action → Result ℕ
target_of l p a = elim a.kind [
  | ActionKind.fold ↦ ok p.street_committed
  | ActionKind.check ↦ ok p.street_committed
  | ActionKind.call ↦ ok (p.street_committed + min l.to_call p.stack)
  | ActionKind.all_in ↦ ok (p.street_committed + p.stack)
  | ActionKind.bet ↦
      if leb l.minimum_bet (pos_part a.to) && leb (pos_part a.to) l.maximum_raise_to
      then ok (pos_part a.to)
      else err illegal
  | ActionKind.raise ↦
      if leb l.minimum_raise_to (pos_part a.to) && leb (pos_part a.to) l.maximum_raise_to
      then ok (pos_part a.to)
      else err illegal
]

-- The others who now owe chips.
unfoldable pub ask_again : ℕ → ℕ → Participant → Participant
ask_again seat target p = record p {
  pending =
      if not (p.seat_no == seat) && not p.folded && ltb 0 p.stack && ltb p.street_committed target
      then true
      else p.pending;
}

-- A target above the current bet raises it; a full increment starts a new raise sequence.
unfoldable pub raise_bet : ℕ → ℕ → State → State
unfolding ask_again
raise_bet seat target s =
    if ltb s.current_bet target
    then record s {
      full_raise_sequence =
          if leb s.last_full_raise (target - s.current_bet)
          then s.full_raise_sequence + 1
          else s.full_raise_sequence;
      last_full_raise =
          if leb s.last_full_raise (target - s.current_bet)
          then target - s.current_bet
          else s.last_full_raise;
      current_bet = target;
      players = map (ask_again seat target) s.players;
    }
    else s

unfoldable pub has_acted : ℕ → Bool → Participant → Participant
has_acted sequence timeout p = record p {
  pending = false;
  last_acted = pos sequence;
  consecutive_timeouts = if timeout then p.consecutive_timeouts + 1 else 0;
  timeout_sit_out =
      if timeout && leb 2 (p.consecutive_timeouts + 1) then true else p.timeout_sit_out;
}

unfoldable pub pay_in : ActionKind → ℕ → Participant → Participant
unfolding commit
pay_in kind delta p =
    commit delta (record p { folded = if kind_eq kind ActionKind.fold then true else p.folded })

abbrev pub action_type : ActionKind → Bool → EventType
action_type kind timeout = if timeout then EventType.auto_acted kind else EventType.acted kind

-- The copy of the state with the action carried out and recorded, before `progress`.
unfoldable pub perform : Action → Time → Bool → ℕ → ℕ → State → State
unfolding pay_in raise_bet has_acted update_player emit event_of
perform a now timeout delta target s =
    let paid = record s { players = update_player a.seat (pay_in a.kind delta) s.players } in
    let raised = raise_bet a.seat target paid in
    emit (record (event_of (action_type a.kind timeout) a.seat delta target) { action_id = a.id })
      now
      (record raised {
        players =
            update_player a.seat (has_acted raised.full_raise_sequence timeout) raised.players;
      })

abbrev pub add_receipt : Action → ℕ → State → State
add_receipt a start s = record s {
  receipts =
      s.receipts ++ record { action = a; first_event = start; last_event = length s.events } ∷ [];
}

-- The action of the player `p`, and what follows it. The difference to the target stops at 0,
-- where the source's could be negative on a hand that `validate` refuses.
unfoldable pub carry_out :
    Evaluator → State → Action → Time → Bool → Option Participant → Result State
unfolding target_of perform legal progress
carry_out evaluate s a now timeout none = err illegal
carry_out evaluate s a now timeout (some p) = target_of (legal s) p a >>= λ target.
    progress progress_fuel evaluate a.seat now
      (perform a now timeout (target - p.street_committed) target s)

-- The checks, the action and `progress`, on the copy of the state.
unfoldable pub move : Evaluator → State → Action → Time → Bool → Result State
unfolding may_act well_formed carry_out player legal
move evaluate s a now timeout = do
  may_act s a now timeout
  guard (well_formed (legal s) a) illegal
  carry_out evaluate s a now timeout (player s.players a.seat)

-- The next state, or the error that leaves the engine as it was.
unfoldable pub next_state : Evaluator → State → Action → Time → Bool → Result State
unfolding move validate
next_state evaluate s a now timeout = do
  moved ← move evaluate s a now timeout
  validate (add_receipt a (length s.events) moved)
  ok (add_receipt a (length s.events) moved)

unfoldable pub result : ℕ → State → Outcome
result start s = record {
  version = s.version;
  events = drop start s.events;
  duplicate = false;
  no_op = false;
}

abbrev pub no_change : State → Outcome
no_change s = record { version = s.version; events = []; duplicate = false; no_op = true }

-- `e.state = next.state` happens on success only.
unfoldable pub apply_as : Evaluator → State → Action → Time → Bool → State × Result Outcome
apply_as evaluate s a now timeout = elim (next_state evaluate s a now timeout) [
  | ok s' ↦ (s', ok (result (length s.events) s'))
  | err e ↦ (s, err e)
]

abbrev pub action_eq : Action → Action → Bool
action_eq a b =
    str_eq a.id b.id
    && a.seat == b.seat
    && a.expected_version == b.expected_version
    && kind_eq a.kind b.kind
    && eqb_ℤ a.to b.to

unfoldable pub replay : Receipt → Action → State → Result Outcome
replay r a s =
    if action_eq r.action a
    then ok (record {
      version = s.version;
      events = drop r.first_event (take r.last_event s.events);
      duplicate = true;
      no_op = false;
    })
    else err conflict

-- Not empty, at most 128 bytes, and not in the name space of timeouts.
unfoldable pub valid_id : String → Bool
valid_id id = not (str_eq id "") && leb (len id) 128 && not (starts_with id "timeout:")

-- `Apply`: an id that was seen is answered from its receipt.
unfoldable pub apply : Evaluator → State → Action → Time → State × Result Outcome
apply evaluate s a now = elim (find (λ r. str_eq r.action.id a.id) s.receipts) [
  | some r ↦ (s, replay r a s)
  | none ↦ elim (valid_id a.id) [
    | false ↦ (s, err invalid)
    | true ↦ apply_as evaluate s a now false
  ]
]

-- Decimal digits, as %d prints an unsigned number: 20 digits hold every uint64.
unfoldable pub digit : ℕ → String
digit zero = "0"
digit (suc zero) = "1"
digit (suc (suc zero)) = "2"
digit (suc (suc (suc zero))) = "3"
digit (suc (suc (suc (suc zero)))) = "4"
digit (suc (suc (suc (suc (suc zero))))) = "5"
digit (suc (suc (suc (suc (suc (suc zero)))))) = "6"
digit (suc (suc (suc (suc (suc (suc (suc zero))))))) = "7"
digit (suc (suc (suc (suc (suc (suc (suc (suc zero)))))))) = "8"
digit n = "9"

unfoldable pub decimal : ℕ → ℕ → String
unfolding digit
decimal zero n = ""
decimal (suc places) n =
    let more = append (decimal places (n / 10)) (digit (n % 10)) in
    if ltb n 10 then digit n else more

unfoldable pub timeout_action : ℕ → State → Action
unfolding decimal legal
timeout_action sequence s = record {
  id = append "timeout:" (append s.config.hand_id (append ":" (decimal 20 sequence)));
  seat = s.actor;
  expected_version = s.version;
  kind = if (legal s).to_call == 0 then ActionKind.check else ActionKind.fold;
  to = pos 0;
}

unfoldable pub timer_is_due : ℕ → Time → State → Bool
timer_is_due sequence now s =
    not (street_eq s.street Street.settled)
    && not (is_some s.recovery_until)
    && sequence == s.action_sequence
    && leb s.deadline now

-- `Timeout`: an old or early timer changes nothing; a due one checks, or folds to a bet.
unfoldable pub timeout : Evaluator → State → ℕ → Time → State × Result Outcome
timeout evaluate s sequence now = elim (timer_is_due sequence now s) [
  | false ↦ (s, ok (no_change s))
  | true ↦ apply_as evaluate s (timeout_action sequence s) now true
]
