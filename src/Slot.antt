-- ===== src/Slot.antt =====
-- internal/games/slot/slot.go: the slot machine's rules. Seeds, wallets and storage are the
-- callers'; the sampler that draws a reel's stop is a parameter of `spin`.
pub mod Types
pub mod Configs
pub mod Resolve
pub mod Runs
pub mod Line
pub mod Payout
pub mod Returns
pub mod Sampling
mod Tests
