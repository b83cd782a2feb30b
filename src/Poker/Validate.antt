-- ===== src/Poker/Validate.antt =====
-- `validate` and what it calls in internal/poker/engine/engine.go: the invariants that a state must
-- meet after each operation and when it is restored. Every refusal of the source is ErrInvalid, so
-- the conditions are a conjunction of tests.
mod Ledger
mod Players
mod Hand
unfoldable pub use Ledger.*
unfoldable pub use Players.*
unfoldable pub use Hand.*
