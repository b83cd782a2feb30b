-- ===== src/Poker/Validate/Ledger.antt =====
-- `validateAccounting` of internal/poker/engine/engine.go: each stack against the event ledger, and
-- each pot against the players' commitments. A map[int]int64 is a function, 0 where nothing is set.
use momiao.Base.{
  ℕ, ◌+◌, ◌-◌, Bool, true, false, not, ◌&&◌, ◌||◌, Option, none, some, List, [], ◌∷◌, ltb, leb,
  ◌==◌, if◌then◌else◌, length, any, all, keep,
}
use momiao.Poker.Types.{
  ActionKind, Street, street_eq, Participant, Event, EventType, Award, Pot, Return, State,
}
use momiao.Poker.Table.{has_player, seats}
use momiao.Poker.Rank.{compare_ranks, above, same, below, valid_rank}
use momiao.Poker.Settle.{rank_vector}
use momiao.Poker.Button.{same_seats}

abbrev pub Ledger : Type 0
Ledger = ℕ → ℕ

abbrev pub empty_ledger : Ledger
empty_ledger seat = 0

abbrev pub add_to : ℕ → ℕ → Ledger → Ledger
add_to seat amount m k = if k == seat then m k + amount else m k

pub record Books : Type 0 where
  pub paid : Ledger
  pub returned : Ledger
  pub awarded : Ledger

abbrev pub empty_books : Books
empty_books = record { paid = empty_ledger; returned = empty_ledger; awarded = empty_ledger }

-- Which ledger an event belongs to. Automatic actions move no chips.
pub data Account : Type 0 where
  pays returns awards other : Account

unfoldable pub account_of : EventType → Account
account_of EventType.post_sb = Account.pays
account_of EventType.post_bb = Account.pays
account_of (EventType.acted ActionKind.call) = Account.pays
account_of (EventType.acted ActionKind.bet) = Account.pays
account_of (EventType.acted ActionKind.raise) = Account.pays
account_of (EventType.acted ActionKind.all_in) = Account.pays
account_of EventType.return_uncalled = Account.returns
account_of EventType.pot_award = Account.awards
account_of _ = Account.other

-- An entry must name a player, and no ledger may pass the initial total.
abbrev pub may_book : State → Event → Ledger → Bool
may_book s e m = has_player s e.seat && leb e.delta (s.initial_total - m e.seat)

unfoldable pub book_event : State → Event → Books → Option Books
unfolding account_of
book_event s e b = elim (account_of e.type) [
  | Account.pays ↦
      if may_book s e b.paid then some (record b { paid = add_to e.seat e.delta b.paid }) else none
  | Account.returns ↦
      if may_book s e b.returned
      then some (record b { returned = add_to e.seat e.delta b.returned })
      else none
  | Account.awards ↦
      if may_book s e b.awarded
      then some (record b { awarded = add_to e.seat e.delta b.awarded })
      else none
  | Account.other ↦ some b
]

unfoldable pub book_events : State → List Event → Books → Option Books
unfolding book_event
book_events s [] b = some b
book_events s (e ∷ es) b = elim (book_event s e b) [ none ↦ none | some b' ↦ book_events s es b' ]

abbrev pub running : State → Bool
running s = not (street_eq s.street Street.settled)

-- A stack is what the player brought, less what was paid, with what came back.
unfoldable pub stack_agrees : State → Books → Participant → Bool
stack_agrees s b p =
    let paid = b.paid p.seat_no in
    let returned = b.returned p.seat_no in
    let awarded = b.awarded p.seat_no in
    let want = p.initial_stack - paid + returned in
    leb paid p.initial_stack
    && leb returned paid
    && leb awarded (s.initial_total - want)
    && (p.stack == want + awarded)
    && (not (running s)
        || ((p.total_committed == paid - returned) && (returned == 0) && (awarded == 0)))

-- What a player put into the hand and did not get back.
abbrev pub net_paid : Books → Participant → ℕ
net_paid b p = b.paid p.seat_no - b.returned p.seat_no

unfoldable pub booked_amount : State → Books → Pot → ℕ → List Participant → Option ℕ
booked_amount s b pot amount [] = some amount
booked_amount s b pot amount (p ∷ ps) =
    let width = pot.ceiling - pot.floor in
    let skip = booked_amount s b pot amount ps in
    let add = booked_amount s b pot (amount + width) ps in
    if leb pot.ceiling (net_paid b p)
    then (if leb width (s.initial_total - amount) then add else none)
    else skip

unfoldable pub booked_eligible : Books → Pot → List Participant → List ℕ
unfolding seats
booked_eligible b pot ps = seats (keep (λ p. leb pot.ceiling (net_paid b p) && not p.folded) ps)

abbrev pub not_beaten : State → ℕ → ℕ → Bool
not_beaten s a seat = elim (compare_ranks (rank_vector s.ranks seat) (rank_vector s.ranks a)) [
  | above ↦ false
  | same ↦ true
  | below ↦ true
]

-- Each award goes once to an eligible seat that no eligible seat beats.
unfoldable pub check_awards : State → List ℕ → List ℕ → Ledger → List Award → Option Ledger
unfolding compare_ranks rank_vector
check_awards s eligible seen m [] = some m
check_awards s eligible seen m (a ∷ rest) =
    let next = check_awards s eligible (a.seat ∷ seen) (add_to a.seat a.amount m) rest in
    if any (λ seat. seat == a.seat) eligible
      && all (not_beaten s a.seat) eligible
      && not (any (λ seat. seat == a.seat) seen)
      && leb a.amount (s.initial_total - m a.seat)
    then next
    else none

abbrev pub amount_is : ℕ → Option ℕ → Bool
amount_is n none = false
amount_is n (some m) = m == n

unfoldable pub valid_pot : State → Books → ℕ → ℕ → Pot → Bool
unfolding booked_amount booked_eligible same_seats
valid_pot s b index previous pot =
    (pot.index == index)
    && (pot.floor == previous)
    && ltb pot.floor pot.ceiling
    && same_seats pot.eligible (booked_eligible b pot s.players)
    && ltb 0 (length (booked_eligible b pot s.players))
    && amount_is pot.amount (booked_amount s b pot 0 s.players)

unfoldable pub check_pots : State → Books → ℕ → ℕ → Ledger → List Pot → Option Ledger
unfolding valid_pot check_awards booked_eligible
check_pots s b index previous m [] = some m
check_pots s b index previous m (pot ∷ rest) = elim (valid_pot s b index previous pot) [
  | false ↦ none
  | true ↦ elim (check_awards s (booked_eligible b pot s.players) [] m pot.awards) [
    | none ↦ none
    | some m' ↦ check_pots s b (index + 1) pot.ceiling m' rest
  ]
]

unfoldable pub check_returns : State → Ledger → List Return → Option Ledger
check_returns s m [] = some m
check_returns s m (r ∷ rest) =
    let next = check_returns s (add_to r.seat r.amount m) rest in
    if leb r.amount (s.initial_total - m r.seat) then next else none

abbrev pub ledger_is : Ledger → List Participant → Option Ledger → Bool
ledger_is m ps none = false
ledger_is m ps (some n) = all (λ p. n p.seat_no == m p.seat_no) ps

unfoldable pub ends_settled : List Event → Bool
ends_settled [] = false
ends_settled (e ∷ []) = elim e.type [ EventType.system_settlement ↦ true | _ ↦ false ]
ends_settled (e ∷ f ∷ es) = ends_settled (f ∷ es)

unfoldable pub settled_books : State → Books → Bool
unfolding ends_settled valid_rank check_pots check_returns
settled_books s b =
    ends_settled s.events
    && all (λ r. valid_rank r.1 s.config.evaluator_version) s.ranks
    && ledger_is b.awarded s.players (check_pots s b 0 0 empty_ledger s.pots)
    && ledger_is b.returned s.players (check_returns s empty_ledger s.returns)

unfoldable pub validate_accounting : State → Bool
unfolding book_events stack_agrees settled_books
validate_accounting s = elim (book_events s s.events empty_books) [
  | none ↦ false
  | some b ↦
      all (stack_agrees s b) s.players
      && (if running s
          then (length s.pots == 0) && (length s.returns == 0) && (length s.ranks == 0)
          else settled_books s b)
]
