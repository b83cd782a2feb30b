-- ===== src/Blackjack.antt =====
-- internal/games/blackjack: the cards of a shoe (cards.go) and the round (blackjack.go).
mod Cards
unfoldable pub use Cards.*
pub mod Totals
pub mod Shoe
pub mod Round
mod Tests
