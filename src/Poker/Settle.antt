-- ===== src/Poker/Settle.antt =====
-- `settle` of internal/poker/engine/engine.go: the uncalled return, the side pots and their awards.
mod Pots
mod Finish
mod Paid
unfoldable pub use Pots.*
unfoldable pub use Finish.*
pub use Paid.{settle_level-paid}
