-- ===== src/Lib.antt =====
-- The rules of momiao's games: the engine of one poker hand, the slot machine, the
-- dice, blackjack, and the devil roulette.
--
-- The parts are pure Go packages that the services call with everything they need. The games draw
-- their numbers from the fairness package; in the models a game takes its sampler as an argument,
-- which for the roulette can be the modelled one. Storage, wallets, HTTP, relays and the derivation
-- of random words lie outside them.
--
-- Poker models internal/poker/engine (engine.go, evaluate.go, rules.go):
--   Poker/Types        the records and enums, and the errors of an operation
--   Poker/Table        player, seats, nextSeat, commit, emit, setActor, deal, legal
--   Poker/Street       nextStreet
--   Poker/Rank         rank, compare, Evaluate (evaluate.go), compareRanks, validateRank
--   Poker/Button       SelectInitialButton, NextButton, ShortcutTargets (rules.go)
--   Poker/Settle       settle: the uncalled return, side pots, winners, awards, the cleared table
--   Poker/Progress     progress
--   Poker/Validate     validateConfig, validate, validateAccounting
--   Poker/Engine       New, Restore, Apply, apply, Timeout, SetConnected, BeginRecovery, Resume
-- The proofs stand in Poker/Chips (conservation of chips), Poker/Log (events and receipts),
-- Poker/Replay (repeated ids), Poker/Recovery (the grace after a restart), Poker/Validated and
-- Poker/Targets (what validation gives), Poker/Termination (loops and faults), Poker/Winners,
-- Poker/Rank/Laws, Poker/Rank/Choices, Poker/Rank/Maximal, Poker/Button/Ordered and Poker/Button/Clockwise.
-- `Apply` validates an action against the legal actions of a state, performs it on a copy, lets
-- `progress` hand over, deal or settle, validates the result and only then replaces the state.
--
-- Slot models internal/games/slot/slot.go: Slot/Types its data, Slot/Configs FrozenConfig,
-- FairConfig and FrequentConfig, Slot/Resolve validateWager, spin, resolve and evaluateLine; the
-- proofs stand in Slot/Runs, Slot/Line, Slot/Payout, Slot/Returns and Slot/Sampling.
--
-- Dice models internal/games/dice.go in Dice.antt, with its proofs in Dice/Odds and Dice/Roll.
--
-- Blackjack models internal/games/blackjack: Blackjack/Cards is cards.go, with its proofs in
-- Blackjack/Totals and Blackjack/Shoe. Blackjack/Round is blackjack.go:
--   Round/Types        the records and enums
--   Round/Deal         New, revalue, draw, settle
--   Round/Play         activeIndex, LegalActions, apply, advance
--   Round/Same         the comparison of states (reflect.DeepEqual on their clones)
--   Round/Recover      VerifyRecovery, Apply, AutoResolve
--   Round/View         PublicView
-- Its proofs stand in the other modules of Blackjack/Round: Rounds holds what a well-formed round
-- is; Draws, Plays, Found, Turns and Paced follow one action; Opening and Opened follow New; Equal,
-- Recovered, Replays and Replayed the recovery; Ended, Ends and Expiry the loops; Hidden the view.
--
-- Roulette models internal/roulette/devil.go, with ValidAction of types.go and shuffle of
-- fairness.go: Roulette/Types its data, Roulette/Load newDevil, reload and acquire, Roulette/Devil
-- actions and applyDevil, Roulette/View public. The proofs stand in Loads, Tables, Shots, Effects,
-- Offers and Moves of Roulette.
--
-- Fairness models UniformInt of internal/games/fairness/fairness.go, over a list of 32-bit words;
-- Roulette/Load reads its numbers from it in random_int.
--
-- How the models read the source:
--   * An operation takes a state and gives the new one with its result; a copy of the source is the
--     value, and a pointer to a participant is the first player with that seat number.
--   * int64 amounts that the source keeps from being negative are natural numbers, and those that
--     it does not are integers. The code's guards against overflow are written out. The engine's
--     sums are written without wrap-around: `validate` checks that their total fits an int64.
--   * The amount an action pays, its target less the street commitment, is a natural number that
--     stops at 0, where Go's could be negative on a hand that `validate` refuses.
--   * A Go map is an association list, or a function that is 0 where nothing is set. A time is a
--     number of nanoseconds since Go's zero time.
--   * The strings of enums are constructors. A player id and an action id stay texts.
--   * An index out of range and the division of a pot among no winners, which panic in Go, are errors
--     of their own in the poker engine; a missing player, whose nil pointer panics, is skipped. In the
--     slot machine the array sizes are those that `is_shaped` tests.
--   * `progress` has a fuel of 5 and its run-out one of 4: each round of either deals a street, and a
--     hand has four. `decimal`, for the id of a timeout, prints up to 20 digits, which is a uint64.
--   * The dealer's draws of a blackjack round have a fuel of one more than the shoe's entries, since
--     each draw takes one; `AutoResolve` has one more than the round's hands, since each of its turns
--     stands one.
--   * The devil roulette's source of numbers is a function of its state, which it returns. The lives
--     of a seat stop at 0 where medicine takes one, since a seat that acts has one. Its panics are an
--     error of their own. The texts of its events are left out.
--   * The SHA-256 of a shoe, as text, is an argument, and the callback of `AutoResolve` is one too.
--   * The hand evaluator, the samplers of random numbers and the check of a dice round are
--     arguments. The evaluator's hypothesis is that it does not panic; the samplers' is that they
--     answer below the bound they are given, where it is needed.
--
-- Not modelled: the JSON forms of snapshots, the redaction of views, the locks around an engine,
-- and the services, stores and transports of the repository.
pub mod Base
pub mod Poker
pub mod Slot
pub mod Dice
pub mod Blackjack
pub mod Fairness
pub mod Roulette
