-- ===== src/Sdk/Legs/LaunchLab.antt =====
-- crates/sdk/src/legs.rs: the LaunchLab legs.
use sol_trade_router_sdk.Base.{ℕ, true, false, List, [], ◌∷◌}
use sol_trade_router_sdk.Base.Bytes.{Bytes}
use sol_trade_router_sdk.Sdk.Keys.{AccountMeta, new, new_readonly}
use sol_trade_router_sdk.Sdk.Constants
use sol_trade_router_sdk.Sdk.Quote.LaunchLab.{LaunchLabPool}
use sol_trade_router_sdk.Sdk.Legs.{Leg, encode_u64_triple}

-- The accounts of both directions.
unfoldable pub launchlab_accounts : Bytes → LaunchLabPool → Bytes → Bytes → List AccountMeta
launchlab_accounts user pool user_base_ata user_quote_ata =
    new user true
    ∷ Constants.launchlab_authority_meta
    ∷ new_readonly pool.global_config false
    ∷ new_readonly pool.platform_config false
    ∷ new pool.pool_state false
    ∷ new user_base_ata false
    ∷ new user_quote_ata false
    ∷ new pool.base_vault false
    ∷ new pool.quote_vault false
    ∷ new_readonly pool.base_mint false
    ∷ new_readonly pool.quote_mint false
    ∷ new_readonly pool.base_token_program false
    ∷ new_readonly pool.quote_token_program false
    ∷ Constants.launchlab_event_authority_meta
    ∷ Constants.launchlab_program_meta
    ∷ Constants.system_program_meta
    ∷ new pool.platform_associated_account false
    ∷ new pool.creator_associated_account false
    ∷ []

unfoldable pub launchlab_buy_leg : Bytes → LaunchLabPool → ℕ → ℕ → Bytes → Bytes → Leg
launchlab_buy_leg user pool amount_in min_out user_base_ata user_quote_ata = record {
  program_id = Constants.launchlab_program;
  accounts = launchlab_accounts user pool user_base_ata user_quote_ata;
  payload = encode_u64_triple Constants.buy_exact_in_launchlab amount_in min_out 0;
}

unfoldable pub launchlab_sell_leg : Bytes → LaunchLabPool → ℕ → ℕ → Bytes → Bytes → Leg
launchlab_sell_leg user pool amount_in min_out user_base_ata user_quote_ata = record {
  program_id = Constants.launchlab_program;
  accounts = launchlab_accounts user pool user_base_ata user_quote_ata;
  payload = encode_u64_triple Constants.sell_exact_in_launchlab amount_in min_out 0;
}
