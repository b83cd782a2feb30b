-- ===== src/Poker/Table.antt =====
-- The small operations on a hand's state in internal/poker/engine/engine.go: players by seat, chips
-- committed, events, the actor, dealing, and the legal actions. A `*Participant` of the source is
-- the first player with its seat number.
use momiao.Base.{
  ℕ, ◌+◌, ◌-◌, Bool, true, false, not, ◌&&◌, ◌||◌, Option, none, some, List, [], ◌∷◌, ◌++◌, map,
  ltb, leb, ◌==◌, if◌then◌else◌, length, get_elem?, any, find,
}
use momiao.Base.Int.{pos, ltb_ℤ}
use momiao.Base.Sums.{sum_by}
use momiao.Poker.Types.{
  Time, Card, decision_window, max_whole_units, ActionKind, Street, street_eq, Result, ok, err,
  index_panic, Participant, Legal, Event, EventType, Visibility, State,
}

-- `player` returns a pointer: reads go by `player`, writes by `update_player`.
unfoldable pub player : List Participant → ℕ → Option Participant
player ps seat = find (λ p. p.seat_no == seat) ps

unfoldable pub update_player : ℕ → (Participant → Participant) → List Participant → List Participant
update_player seat f [] = []
update_player seat f (p ∷ ps) =
    let rest = update_player seat f ps in if p.seat_no == seat then f p ∷ ps else p ∷ rest

unfoldable pub has_player : State → ℕ → Bool
unfolding player
has_player s seat = elim (player s.players seat) [ none ↦ false | some _ ↦ true ]

unfoldable pub seats : List Participant → List ℕ
seats = map (λ p. p.seat_no)

-- The first eligible seat behind `after`, else the first eligible one, else 0.
unfoldable pub next_seat : List Participant → ℕ → (Participant → Bool) → ℕ
next_seat ps after eligible = elim (find (λ p. ltb after p.seat_no && eligible p) ps) [
  | some p ↦ p.seat_no
  | none ↦ elim (find eligible ps) [ some p ↦ p.seat_no | none ↦ 0 ]
]

unfoldable pub commit : ℕ → Participant → Participant
commit delta p = record p {
  stack = p.stack - delta;
  street_committed = p.street_committed + delta;
  total_committed = p.total_committed + delta;
  pending = if p.stack - delta == 0 then false else p.pending;
}

-- An event literal of the source: the fields that it leaves out are zero.
unfoldable pub event_of : EventType → ℕ → ℕ → ℕ → Event
event_of type seat delta to = record {
  sequence = 0;
  version = 0;
  type = type;
  street = Street.preflop;
  seat = seat;
  delta = delta;
  to = to;
  action_id = "";
  deck_index = none;
  card = none;
  visibility = Visibility.unset;
  at = 0;
}

unfoldable pub emit : Event → Time → State → State
emit event now s = record s {
  version = s.version + 1;
  events =
      s.events
      ++ record event {
        sequence = length s.events + 1;
        version = s.version + 1;
        street = s.street;
        at = now;
      }
        ∷ [];
}

unfoldable pub set_actor : ℕ → Time → State → State
unfolding emit event_of
set_actor seat now s = emit (event_of EventType.actor_changed seat 0 0) now (record s {
  actor = seat;
  action_sequence = s.action_sequence + 1;
  started_at = now;
  deadline = now + decision_window;
})

unfoldable pub deal_card : ℕ → Visibility → Time → Card → State → State
unfolding emit event_of
deal_card seat visibility now card s =
    emit
      (record (event_of EventType.card_dealt seat 0 0) {
        deck_index = some s.deck_cursor;
        card = some card;
        visibility = visibility;
      })
      now (record s { deck_cursor = s.deck_cursor + 1 })

-- The card under the cursor; the source panics past the end of the deck.
unfoldable pub deal : ℕ → Visibility → Time → State → Result (Card × State)
unfolding deal_card
deal seat visibility now s = elim (get_elem? s.config.deck s.deck_cursor) [
  | none ↦ err index_panic
  | some card ↦ ok (card, deal_card seat visibility now card s)
]

-- The source compares a with the integer max_whole_units - b, which may be negative.
unfoldable pub add_cap : ℕ → ℕ → ℕ
add_cap a b = if ltb max_whole_units (a + b) then max_whole_units else a + b

unfoldable pub current_pot : List Participant → ℕ
current_pot = sum_by (λ p. p.total_committed)

-- The early return of `legal`: nobody may act.
unfoldable pub legal_none : State → Legal
unfolding current_pot
legal_none s = record {
  actions = [];
  seat = s.actor;
  to_call = 0;
  minimum_bet = s.config.big_blind;
  minimum_raise_to = 0;
  maximum_raise_to = 0;
  current_pot = current_pot s.players;
  current_stack = 0;
  raise_rights = false;
}

unfoldable pub opponent_can_act : State → Participant → Bool
opponent_can_act s p =
    any (λ other. not (other.seat_no == p.seat_no) && not other.folded && ltb 0 other.stack)
      s.players

unfoldable pub raise_rights : State → Participant → Bool
unfolding opponent_can_act
raise_rights s p =
    ltb_ℤ p.last_acted (pos s.full_raise_sequence)
    && opponent_can_act s p
    && ltb s.current_bet (p.stack + p.street_committed)

unfoldable pub bet_or_raise : State → Participant → List ActionKind
unfolding raise_rights add_cap
bet_or_raise s p =
    let most = p.stack + p.street_committed in
    if raise_rights s p
    then (if s.current_bet == 0 && leb s.config.big_blind most
        then ActionKind.bet ∷ []
        else if ltb 0 s.current_bet && leb (add_cap s.current_bet s.last_full_raise) most
        then ActionKind.raise ∷ []
        else [])
    else []

unfoldable pub all_in_action : State → Participant → List ActionKind
unfolding raise_rights
all_in_action s p =
    if ltb 0 p.stack && (leb (p.stack + p.street_committed) s.current_bet || raise_rights s p)
    then ActionKind.all_in ∷ []
    else []

unfoldable pub legal_for : State → Participant → Legal
unfolding bet_or_raise all_in_action raise_rights add_cap legal_none
legal_for s p = record (legal_none s) {
  to_call = s.current_bet - p.street_committed;
  current_stack = p.stack;
  maximum_raise_to = p.stack + p.street_committed;
  minimum_raise_to = add_cap s.current_bet s.last_full_raise;
  raise_rights = raise_rights s p;
  actions =
      ActionKind.fold
      ∷ (if s.current_bet - p.street_committed == 0 then ActionKind.check else ActionKind.call)
      ∷ (bet_or_raise s p ++ all_in_action s p);
}

abbrev pub is_some {ℓ} : {A : Type ℓ} → Option A → Bool
is_some none = false
is_some (some _) = true

unfoldable pub legal : State → Legal
unfolding legal_for legal_none player
legal s = elim (player s.players s.actor) [
  | none ↦ legal_none s
  | some p ↦
      if street_eq s.street Street.settled || is_some s.recovery_until
      then legal_none s
      else legal_for s p
]
