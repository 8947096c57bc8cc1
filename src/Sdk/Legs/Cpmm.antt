-- ===== src/Sdk/Legs/Cpmm.antt =====
-- crates/sdk/src/legs.rs: the Raydium CPMM legs. `none` is an error.
use sol_trade_router_sdk.Base.{ℕ, true, false, ◌&&◌, Option, none, some, [], ◌∷◌, if◌then◌else◌}
use sol_trade_router_sdk.Base.Bytes.{Bytes, bytes_eq}
use sol_trade_router_sdk.Sdk.Fallible.{◌>>=◌, ◌>>◌}
use sol_trade_router_sdk.Sdk.Keys.{new, new_readonly}
use sol_trade_router_sdk.Sdk.Constants
use sol_trade_router_sdk.Sdk.Quote.Cpmm.{CpmmPool}
use sol_trade_router_sdk.Sdk.Legs.{Leg, encode_u64_pair}
use sol_trade_router_sdk.Sdk.Legs.Checks.{require_mint_programs}

-- `(input_vault, output_vault, input_tp, output_tp)`
pub record CpmmDirection : Type 0 where
  pub input_vault : Bytes
  pub output_vault : Bytes
  pub input_tp : Bytes
  pub output_tp : Bytes

unfoldable pub cpmm_direction : CpmmPool → Bytes → Bytes → Option CpmmDirection
cpmm_direction pool input_mint output_mint =
    if bytes_eq input_mint pool.base_mint && bytes_eq output_mint pool.quote_mint
    then some (record {
      input_vault = pool.base_vault;
      output_vault = pool.quote_vault;
      input_tp = pool.base_token_program;
      output_tp = pool.quote_token_program;
    })
    else if bytes_eq input_mint pool.quote_mint && bytes_eq output_mint pool.base_mint
    then some (record {
      input_vault = pool.quote_vault;
      output_vault = pool.base_vault;
      input_tp = pool.quote_token_program;
      output_tp = pool.base_token_program;
    })
    else none

-- The checks and the accounts of both legs, around the data.
unfoldable pub cpmm_leg : Bytes → CpmmPool → Bytes → Bytes → Bytes → Bytes → Bytes → Option Leg
cpmm_leg user pool input_mint output_mint user_input_ata user_output_ata payload = do
  require_mint_programs
      ((pool.base_mint, pool.base_token_program) ∷ (pool.quote_mint, pool.quote_token_program) ∷ [])
  side ← cpmm_direction pool input_mint output_mint
  some (record {
    program_id = Constants.raydium_cpmm_program;
    accounts =
        new_readonly user true
        ∷ Constants.raydium_cpmm_authority_meta
        ∷ new_readonly pool.amm_config false
        ∷ new pool.pool_state false
        ∷ new user_input_ata false
        ∷ new user_output_ata false
        ∷ new side.input_vault false
        ∷ new side.output_vault false
        ∷ new_readonly side.input_tp false
        ∷ new_readonly side.output_tp false
        ∷ new_readonly input_mint false
        ∷ new_readonly output_mint false
        ∷ new pool.observation_state false
        ∷ [];
    payload = payload;
  })

unfoldable pub cpmm_swap_leg : Bytes → CpmmPool → ℕ → ℕ → Bytes → Bytes → Bytes → Bytes → Option Leg
cpmm_swap_leg user pool amount_in min_out input_mint output_mint user_input_ata user_output_ata =
    cpmm_leg user pool input_mint output_mint user_input_ata user_output_ata
      (encode_u64_pair Constants.cpmm_swap_base_in amount_in min_out)

unfoldable pub cpmm_swap_exact_out_leg :
    Bytes → CpmmPool → ℕ → ℕ → Bytes → Bytes → Bytes → Bytes → Option Leg
cpmm_swap_exact_out_leg user pool max_amount_in amount_out input_mint output_mint user_input_ata
      user_output_ata =
    cpmm_leg user pool input_mint output_mint user_input_ata user_output_ata
      (encode_u64_pair Constants.cpmm_swap_base_out max_amount_in amount_out)
