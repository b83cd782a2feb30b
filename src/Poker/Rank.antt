-- ===== src/Poker/Rank.antt =====
-- internal/poker/engine/evaluate.go: the best five of seven cards, and the comparison of ranks.
mod Vector
mod Best
mod Order
pub mod Laws
pub mod Choices
pub mod Maximal
unfoldable pub use Vector.*
unfoldable pub use Best.*
unfoldable pub use Order.*
