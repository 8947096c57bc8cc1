-- ===== src/Program.antt =====
-- The on-chain program, programs/sol-trade-router/src.
pub mod Error
pub mod Calm
pub mod Ledger
pub mod State
pub mod Route
pub mod Admin
pub mod Prepare
pub mod Dispatch
