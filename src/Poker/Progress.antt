-- ===== src/Poker/Progress.antt =====
-- `progress` of internal/poker/engine/engine.go: after each action, the next actor, the next street
-- or the settlement. The source's loops take fuel here, one round for each of the hand's streets.
use momiao.Base.{
  ℕ, zero, suc, Bool, true, false, not, ◌&&◌, ◌||◌, Option, none, some, List, [], ◌∷◌, map, ltb,
  leb, ◌==◌, if◌then◌else◌, length, keep, any,
}
use momiao.Poker.Types.{
  Time, Street, street_eq, Result, ok, err, out_of_fuel, ◌>>=◌, Participant, EventType, State,
  Evaluator,
}
use momiao.Poker.Table.{emit, event_of, next_seat, set_actor}
use momiao.Poker.Street.{next_street}
use momiao.Poker.Settle.{live_count, settle}

-- Neither folded nor without chips.
abbrev pub can_act : Participant → Bool
can_act p = not p.folded && ltb 0 p.stack

unfoldable pub active_count : List Participant → ℕ
active_count ps = length (keep can_act ps)

-- `lone`: the last player in seat order who can act.
unfoldable pub last_active : Option Participant → List Participant → Option Participant
last_active found [] = found
last_active found (p ∷ ps) = last_active (if can_act p then some p else found) ps

unfoldable pub drop_pending : Participant → Participant
drop_pending p = record p { pending = if (p.stack == 0) || p.folded then false else p.pending }

unfoldable pub clear_pending : State → State
unfolding drop_pending
clear_pending s = record s { players = map drop_pending s.players }

unfoldable pub needs_call : State → Bool
unfolding last_active
needs_call s = elim (last_active none s.players) [
  | none ↦ false
  | some lone ↦
      any (λ p. not (p.seat_no == lone.seat_no) && ltb lone.street_committed p.street_committed)
        s.players
]

-- for s.Street != River { s.nextStreet(now) }
unfoldable pub run_out : ℕ → Time → State → Result State
unfolding next_street
run_out zero now s = err out_of_fuel
run_out (suc fuel) now s = elim (street_eq s.street Street.river) [
  | true ↦ ok s
  | false ↦ next_street now s >>= run_out fuel now
]

abbrev pub awaited : Participant → Bool
awaited p = p.pending && not p.folded && ltb 0 p.stack

-- What one round of the loop does: end the hand, hand over to an actor, or open a street.
pub data Turn : Type 0 where
  settles runs_out opens_street : Turn
  acts : ℕ → Turn

unfoldable pub turn_of : ℕ → State → Turn
unfolding live_count active_count needs_call next_seat
turn_of after s =
    if live_count s.players == 1
    then Turn.settles
    else if leb (active_count s.players) 1 && not (needs_call s)
    then Turn.runs_out
    else let next = next_seat s.players after awaited in
      if not (next == 0)
      then Turn.acts next
      else if street_eq s.street Street.river
      then Turn.settles
      else Turn.opens_street

-- One round of the loop; `continue` is the next one.
unfoldable pub take_turn : Evaluator → Time → (State → Result State) → Turn → State → Result State
unfolding run_out settle set_actor next_street emit event_of
take_turn evaluate now continue Turn.settles s = settle evaluate now s
take_turn evaluate now continue Turn.runs_out s =
    run_out 4 now (emit (event_of EventType.all_in_runout 0 0 0) now s) >>= settle evaluate now
take_turn evaluate now continue (Turn.acts next) s = ok (set_actor next now s)
take_turn evaluate now continue Turn.opens_street s = next_street now s >>= continue

unfoldable pub progress : ℕ → Evaluator → ℕ → Time → State → Result State
unfolding clear_pending turn_of take_turn
progress zero evaluate after now s = err out_of_fuel
progress (suc fuel) evaluate after now s =
    take_turn evaluate now (λ s'. progress fuel evaluate s.config.button_seat now s')
      (turn_of after (clear_pending s)) (clear_pending s)

abbrev pub progress_fuel : ℕ
progress_fuel = 5
