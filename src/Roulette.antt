-- ===== src/Roulette.antt =====
-- internal/roulette: the rules of the devil roulette (devil.go) and the actions it takes (types.go).
mod Types
unfoldable pub use Types.*
mod Load
unfoldable pub use Load.*
mod Devil
unfoldable pub use Devil.*
mod View
unfoldable pub use View.*
mod Loads
pub mod Tables
mod Shots
mod Effects
mod Offers
pub mod Moves
mod Tests
