-- ===== src/Program/Route.antt =====
-- programs/sol-trade-router/src/instructions/route.rs
pub mod Layout
pub mod Checks
pub mod Input
pub mod Fee
pub mod Legs
pub mod Process
pub mod Amounts
pub mod Fits
pub mod Patch
pub mod Stages
pub mod Settlement
pub mod Intermediates
pub mod FeeMove
pub mod Guarantees
pub mod NoPanic
