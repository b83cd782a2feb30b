-- ===== src/Poker/Tests/Sample.antt =====
-- A sample hand: three seats with 100 chips each, blinds of 5 and 10, the deck in order.
use momiao.Base.{ℕ, ◌*◌, Bool, true, false, none, some, List, [], ◌∷◌, ◌≡◌, refl, String}
use momiao.Base.Int.{pos}
use momiao.Poker.Types.{
  Card, units_per_chip, Config, Seat, State, Result, ok, err, Action, ActionKind,
}
use momiao.Poker.Rank.{evaluate, span, evaluator_version}
use momiao.Poker.Engine.{new, apply, apply_as, next_state, valid_id, result, initial_state}

unfoldable pub deck : List Card
unfolding span
deck = span 0 52

unfoldable pub config : Config
unfolding deck
config = record {
  hand_id = "hand-1";
  button_seat = 1;
  small_blind = 5 * units_per_chip;
  big_blind = 10 * units_per_chip;
  deck = deck;
  evaluator_version = evaluator_version;
  button_selection = none;
}

abbrev pub entrant : ℕ → String → Seat
entrant n id = record {
  seat_no = n;
  player_id = id;
  stack = 100 * units_per_chip;
  consecutive_timeouts = 0;
  timeout_sit_out = false;
}

abbrev pub entrants : List Seat
entrants = entrant 4 "carol" ∷ entrant 1 "alice" ∷ entrant 2 "bob" ∷ []

unfoldable pub value_of : Result State → State
unfolding initial_state
value_of (ok s) = s
value_of (err e) = initial_state config 0 []

abbrev pub is_ok : Result State → Bool
is_ok (ok s) = true
is_ok (err e) = false

pub value_of-eq : (r : Result State) → is_ok r ≡ true → r ≡ ok (value_of r)
unfolding value_of
value_of-eq (ok s) h = refl
value_of-eq (err e) h = cc

unfoldable pub started : State
unfolding new evaluate value_of config
started = value_of (new config entrants 1000 (some evaluate))

abbrev pub raise_to_30 : Action
raise_to_30 = record {
  id = "a1";
  seat = 1;
  expected_version = 10;
  kind = ActionKind.raise;
  to = pos (30 * units_per_chip);
}

-- Everybody goes all in: the hand runs out and is settled.
abbrev pub all_in : String → ℕ → ℕ → Action
all_in id seat version = record {
  id = id;
  seat = seat;
  expected_version = version;
  kind = ActionKind.all_in;
  to = pos 0;
}

abbrev pub fold_of : String → ℕ → ℕ → Action
fold_of id seat version = record {
  id = id;
  seat = seat;
  expected_version = version;
  kind = ActionKind.fold;
  to = pos 0;
}

unfoldable pub shoved : State
unfolding started apply apply_as next_state valid_id result
shoved = (apply evaluate started (all_in "a1" 1 started.version) 2000).0

unfoldable pub called : State
unfolding shoved
called = (apply evaluate shoved (all_in "b1" 2 shoved.version) 3000).0

unfoldable pub finished : State
unfolding called
finished = (apply evaluate called (fold_of "c1" 4 called.version) 4000).0
