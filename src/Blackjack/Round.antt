-- ===== src/Blackjack/Round.antt =====
-- internal/games/blackjack/blackjack.go: one round against the dealer, as operations on its state.
-- Transactions, ids and the ledger are the callers'; a shoe is the list of its instances.
mod Types
unfoldable pub use Types.*
mod Deal
unfoldable pub use Deal.*
mod Play
unfoldable pub use Play.*
mod Same
unfoldable pub use Same.*
mod Recover
unfoldable pub use Recover.*
mod View
unfoldable pub use View.*
mod Draws
pub mod Plays
pub mod Rounds
mod Found
pub mod Turns
mod Opening
pub mod Opened
mod Equal
mod Paced
mod Ended
pub mod Recovered
mod Replays
pub mod Replayed
pub mod Ends
pub mod Expiry
pub mod Hidden
mod Tests
