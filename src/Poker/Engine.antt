-- ===== src/Poker/Engine.antt =====
-- The exported operations of internal/poker/engine/engine.go.
mod Start
mod Act
mod Presence
unfoldable pub use Start.*
unfoldable pub use Act.*
unfoldable pub use Presence.*
