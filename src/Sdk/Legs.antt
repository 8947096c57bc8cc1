-- ===== src/Sdk/Legs.antt =====
-- crates/sdk/src/legs.rs: the leg, and the encoding of its amounts.
pub mod Checks
pub mod LaunchLab
pub mod Cpmm
pub mod RaydiumAmm
pub mod Meteora
pub mod Clmm
pub mod Whirlpool
pub mod PumpFun
pub mod PumpSwap
use sol_trade_router_sdk.Base.{ℕ, List, ◌++◌}
use sol_trade_router_sdk.Base.Bytes.{Bytes}
use sol_trade_router_sdk.Base.Words.{to_le_bytes}
use sol_trade_router_sdk.Sdk.Keys.{AccountMeta}

pub record Leg : Type 0 where
  pub program_id : Bytes
  pub accounts : List AccountMeta
  pub payload : Bytes

unfoldable pub encode_u64_triple : Bytes → ℕ → ℕ → ℕ → Bytes
encode_u64_triple disc a b c = disc ++ (to_le_bytes 8 a ++ (to_le_bytes 8 b ++ to_le_bytes 8 c))

unfoldable pub encode_u64_pair : Bytes → ℕ → ℕ → Bytes
encode_u64_pair disc a b = disc ++ (to_le_bytes 8 a ++ to_le_bytes 8 b)
