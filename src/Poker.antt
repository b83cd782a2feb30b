-- ===== src/Poker.antt =====
-- internal/poker/engine: the deterministic single-hand poker core.
pub mod Types
pub mod Table
pub mod Street
pub mod Button
pub mod Rank
pub mod Settle
pub mod Progress
pub mod Chips
pub mod Log
pub mod Replay
pub mod Recovery
pub mod Validated
pub mod Targets
pub mod Termination
pub mod Winners
pub mod Validate
pub mod Engine
mod Tests
