-- ===== src/Poker/Engine/Presence.antt =====
-- `SetConnected`, `BeginRecovery` and `Resume` of internal/poker/engine/engine.go.
use momiao.Base.{ℕ, ◌+◌, Bool, true, false, not, ◌||◌, none, some, ltb, ◌==◌, if◌then◌else◌, length}
use momiao.Poker.Types.{
  Time, decision_window, Street, street_eq, Result, ok, err, invalid, Participant, EventType, State,
  Outcome,
}
use momiao.Poker.Table.{player, update_player, emit, event_of, set_actor, is_some}
use momiao.Poker.Engine.Act.{result, no_change}

-- Before the settlement a reconnect clears `disconnect_sit_out`; after it a disconnect sets it.
unfoldable pub reconnect : Bool → Participant → Participant
reconnect settled p = record p {
  disconnected_since = none;
  disconnect_sit_out = if settled then p.disconnect_sit_out else false;
}

unfoldable pub disconnect : Bool → Time → Participant → Participant
disconnect settled now p = record p {
  disconnected_since = some now;
  disconnect_sit_out = if settled then true else p.disconnect_sit_out;
}

unfoldable pub change_connection : ℕ → Bool → Time → State → State
unfolding reconnect disconnect update_player emit event_of
change_connection seat connected now s =
    let settled = street_eq s.street Street.settled in
    emit (event_of (if connected then EventType.reconnected else EventType.disconnected) seat 0 0)
      now
      (record s {
        players =
            update_player seat (if connected then reconnect settled else disconnect settled now)
              s.players;
      })

abbrev pub same_connection : Bool → Participant → Bool
same_connection true p = not (is_some p.disconnected_since)
same_connection false p = is_some p.disconnected_since

unfoldable pub set_connected : State → ℕ → Bool → Time → State × Result Outcome
unfolding player change_connection result
set_connected s seat connected now = elim (player s.players seat) [
  | none ↦ (s, err invalid)
  | some p ↦
      if now == 0
      then (s, err invalid)
      else if same_connection connected p
      then (s, ok (no_change s))
      else (
        change_connection seat connected now s,
        ok (result (length s.events) (change_connection seat connected now s)),
      )
]

unfoldable pub enter_recovery : Time → State → State
unfolding emit event_of
enter_recovery now s =
    emit (event_of EventType.recovering 0 0 0) now
      (record s { recovery_until = some (now + decision_window) })

unfoldable pub begin_recovery : State → Time → State × Result Outcome
unfolding enter_recovery result
begin_recovery s now =
    if now == 0
    then (s, err invalid)
    else if street_eq s.street Street.settled || is_some s.recovery_until
    then (s, ok (no_change s))
    else (enter_recovery now s, ok (result (length s.events) (enter_recovery now s)))

-- The grace is over: the actor's clock starts again.
unfoldable pub leave_recovery : Time → State → State
unfolding emit event_of set_actor
leave_recovery now s =
    let resumed =
      emit (event_of EventType.resumed 0 0 0) now (record s { recovery_until = none }) in
    set_actor resumed.actor now resumed

unfoldable pub resume : State → Time → State × Result Outcome
unfolding leave_recovery result
resume s now = elim s.recovery_until [
  | none ↦ (s, ok (no_change s))
  | some until ↦
      if ltb now until
      then (s, ok (no_change s))
      else (leave_recovery now s, ok (result (length s.events) (leave_recovery now s)))
]
