-- ===== src/Sdk/RouteIx.antt =====
-- crates/sdk/src/route_ix.rs: the layouts of dynamic legs, and the builders of route instructions.
pub mod Layout
pub mod Build
pub mod Agreement
pub mod Reads
pub mod Decode
pub mod Headers
pub mod RoundTrip
pub mod ThreeHop
pub mod Valid
pub mod ValidPools
pub mod ValidWhirlpool
pub mod ValidPump
pub mod ExactInput
