-- ===== src/Sdk/Legs/RaydiumAmm.antt =====
-- crates/sdk/src/legs.rs: the Raydium AMM V4 legs. `none` is an error.
use sol_trade_router_sdk.Base.{
  ℕ, true, false, not, ◌||◌, Option, none, some, [], ◌∷◌, ◌++◌, if◌then◌else◌,
}
use sol_trade_router_sdk.Base.Bytes.{Bytes, bytes_eq}
use sol_trade_router_sdk.Base.Words.{to_le_bytes}
use sol_trade_router_sdk.Sdk.Fallible.{◌>>=◌, ◌>>◌, bail_if}
use sol_trade_router_sdk.Sdk.Keys.{Derive, new, new_readonly}
use sol_trade_router_sdk.Sdk.Constants
use sol_trade_router_sdk.Sdk.Ata.{ata}
use sol_trade_router_sdk.Sdk.Quote.RaydiumAmm.{RaydiumAmmV4Pool}
use sol_trade_router_sdk.Sdk.Legs.{Leg}
use sol_trade_router_sdk.Sdk.Legs.Checks.{default_key}

unfoldable pub amm_output_mint : RaydiumAmmV4Pool → Bytes → Option Bytes
amm_output_mint pool input_mint =
    if bytes_eq input_mint pool.coin_mint
    then some pool.pc_mint
    else if bytes_eq input_mint pool.pc_mint
    then some pool.coin_mint
    else none

unfoldable pub amm_token_program : RaydiumAmmV4Pool → Bytes
amm_token_program pool =
    if bytes_eq pool.token_program default_key then Constants.token_program else pool.token_program

-- The checks and the accounts of both legs, around the data.
unfoldable pub amm_leg : Derive → Bytes → RaydiumAmmV4Pool → Bytes → Bytes → Option Leg
amm_leg derive user pool input_mint payload = do
  bail_if (bytes_eq pool.coin_mint default_key || bytes_eq pool.pc_mint default_key)
  output_mint ← amm_output_mint pool input_mint
  bail_if (not (bytes_eq (amm_token_program pool) Constants.token_program))
  some (record {
    program_id = Constants.raydium_amm_v4_program;
    accounts =
        new_readonly (amm_token_program pool) false
        ∷ new pool.amm false
        ∷ Constants.raydium_amm_v4_authority_meta
        ∷ new pool.token_coin false
        ∷ new pool.token_pc false
        ∷ new (ata derive user input_mint (amm_token_program pool)) false
        ∷ new (ata derive user output_mint (amm_token_program pool)) false
        ∷ new_readonly user true
        ∷ [];
    payload = payload;
  })

unfoldable pub raydium_amm_v4_swap_leg :
    Derive → Bytes → RaydiumAmmV4Pool → ℕ → ℕ → Bytes → Option Leg
raydium_amm_v4_swap_leg derive user pool amount_in min_out input_mint =
    amm_leg derive user pool input_mint (
      Constants.raydium_amm_v4_swap_base_in_v2 ∷ (to_le_bytes 8 amount_in ++ to_le_bytes 8 min_out))

unfoldable pub raydium_amm_v4_swap_exact_out_leg :
    Derive → Bytes → RaydiumAmmV4Pool → ℕ → ℕ → Bytes → Option Leg
raydium_amm_v4_swap_exact_out_leg derive user pool amount_out max_amount_in input_mint =
    amm_leg derive user pool input_mint (
      Constants.raydium_amm_v4_swap_base_out_v2
      ∷ (to_le_bytes 8 max_amount_in ++ to_le_bytes 8 amount_out))
