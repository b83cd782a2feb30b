-- ===== src/Poker/Tests.antt =====
-- Runs of the poker engine at concrete inputs, and the instances of its theorems.
mod Sample
mod Runs
mod ChipsExamples
mod HandExamples
mod ReplayExamples
mod PartExamples
mod RecoveryExamples
