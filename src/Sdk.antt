-- ===== src/Sdk.antt =====
-- The SDK, crates/sdk/src: the parts that compute without a network.
pub mod Fallible
pub mod Keys
pub mod Constants
pub mod Ata
pub mod TransferFee
pub mod Quote
pub mod Legs
pub mod RouteIx
pub mod Admin
pub mod PumpFunV3
pub mod PoolGuard
