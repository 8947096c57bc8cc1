-- ===== src/Tests.antt =====
-- Runs on concrete inputs, and the theorems at concrete inputs.
mod World
mod Checks
mod Route
mod Quotes
mod Curves
mod Config
mod Inverse
mod RouteIx
mod Legs
mod Admin
mod PumpFunV3
mod PoolGuard
