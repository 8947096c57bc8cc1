-- ===== src/Sdk/Quote.antt =====
-- crates/sdk/src/quote.rs: the local quotes, a module per market.
pub mod Amount
pub mod Curve
pub mod RaydiumAmm
pub mod Cpmm
pub mod PumpFun
pub mod PumpSwap
pub mod LaunchLab
pub mod Snapshot
