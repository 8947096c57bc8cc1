-- ===== src/Sdk/Ata.antt =====
-- crates/sdk/src/ata.rs: the associated token address. The cache of the source returns what was derived
-- before, so it changes no result.
use sol_trade_router_sdk.Base.{[], ◌∷◌}
use sol_trade_router_sdk.Base.Bytes.{Bytes}
use sol_trade_router_sdk.Sdk.Keys.{Derive}
use sol_trade_router_sdk.Sdk.Constants.{associated_token_program}

unfoldable pub ata : Derive → Bytes → Bytes → Bytes → Bytes
ata derive owner mint token_program =
    (derive (owner ∷ token_program ∷ mint ∷ []) associated_token_program).0
