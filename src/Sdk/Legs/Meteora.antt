-- ===== src/Sdk/Legs/Meteora.antt =====
-- crates/sdk/src/legs.rs: the Meteora legs. `none` is an error. The bitmap address of a DLMM pair is
-- derived by sol_trade_sdk, an argument here.
use sol_trade_router_sdk.Base.{
  ℕ, Bool, true, false, not, ◌&&◌, Option, none, some, List, [], ◌∷◌, ◌++◌, map, length, ◌==◌,
  if◌then◌else◌,
}
use sol_trade_router_sdk.Base.Bytes.{Bytes, bytes_eq, zeros}
use sol_trade_router_sdk.Sdk.Fallible.{◌>>=◌, ◌>>◌, bail_if}
use sol_trade_router_sdk.Sdk.Keys.{AccountMeta, Derive, new, new_readonly}
use sol_trade_router_sdk.Sdk.Constants
use sol_trade_router_sdk.Sdk.Ata.{ata}
use sol_trade_router_sdk.Sdk.Quote.Snapshot.{MeteoraDammV2Pool, MeteoraDlmmPool}
use sol_trade_router_sdk.Sdk.Legs.{Leg, encode_u64_pair}
use sol_trade_router_sdk.Sdk.Legs.Checks.{
  require_mint_programs, require_array_addresses, ensure_leg_account_budget, default_key,
}

-- `(input_program, output_mint, output_program)`
pub record DammDirection : Type 0 where
  pub input_program : Bytes
  pub output_mint : Bytes
  pub output_program : Bytes

unfoldable pub damm_direction : MeteoraDammV2Pool → Bytes → Option DammDirection
damm_direction pool input_mint =
    if bytes_eq input_mint pool.token_a_mint
    then some (record {
      input_program = pool.token_a_program;
      output_mint = pool.token_b_mint;
      output_program = pool.token_b_program;
    })
    else if bytes_eq input_mint pool.token_b_mint
    then some (record {
      input_program = pool.token_b_program;
      output_mint = pool.token_a_mint;
      output_program = pool.token_a_program;
    })
    else none

-- A referral account, or the program as a placeholder.
unfoldable pub damm_referral : Option Bytes → AccountMeta
damm_referral none = Constants.meteora_damm_v2_program_meta
damm_referral (some referral) =
    if not (bytes_eq referral default_key)
      && not (bytes_eq referral Constants.meteora_damm_v2_program)
    then new referral false
    else Constants.meteora_damm_v2_program_meta

-- The seed is b"__event_authority".
unfoldable pub damm_event_authority : Derive → Bytes
damm_event_authority derive =
    (derive
      ((95 ∷ 95 ∷ 101 ∷ 118 ∷ 101 ∷ 110 ∷ 116 ∷ 95 ∷ 97 ∷ 117 ∷ 116 ∷ 104 ∷ 111 ∷ 114 ∷ 105 ∷ 116
          ∷ 121 ∷ [])
        ∷ [])
      Constants.meteora_damm_v2_program).0

unfoldable pub meteora_damm_v2_swap_leg :
    Derive → Bytes → MeteoraDammV2Pool → ℕ → ℕ → Bytes → Option Leg
meteora_damm_v2_swap_leg derive user pool amount_in min_out input_mint = do
  require_mint_programs
      ((pool.token_a_mint, pool.token_a_program) ∷ (pool.token_b_mint, pool.token_b_program) ∷ [])
  bail_if (pool.swap_mode == Constants.meteora_damm_v2_partial_fill)
  bail_if (
      not (pool.swap_mode == Constants.meteora_damm_v2_exact_in)
      && not (pool.swap_mode == Constants.meteora_damm_v2_exact_out))
  side ← damm_direction pool input_mint
  some (record {
    program_id = Constants.meteora_damm_v2_program;
    accounts =
        Constants.meteora_damm_v2_authority_meta
        ∷ new pool.pool false
        ∷ new (ata derive user input_mint side.input_program) false
        ∷ new (ata derive user side.output_mint side.output_program) false
        ∷ new pool.token_a_vault false
        ∷ new pool.token_b_vault false
        ∷ new_readonly pool.token_a_mint false
        ∷ new_readonly pool.token_b_mint false
        ∷ new_readonly user true
        ∷ new_readonly pool.token_a_program false
        ∷ new_readonly pool.token_b_program false
        ∷ damm_referral pool.referral_token_account
        ∷ new_readonly (damm_event_authority derive) false
        ∷ Constants.meteora_damm_v2_program_meta
        ∷ (if pool.include_rate_limiter_sysvar
            then Constants.sysvar_instructions_meta ∷ []
            else []);
    payload =
        encode_u64_pair Constants.meteora_damm_v2_swap2 amount_in min_out ++ (pool.swap_mode ∷ []);
  })

unfoldable pub dlmm_output_mint : MeteoraDlmmPool → Bytes → Option Bytes
dlmm_output_mint pool input_mint =
    if bytes_eq input_mint pool.token_x_mint
    then some pool.token_y_mint
    else if bytes_eq input_mint pool.token_y_mint
    then some pool.token_x_mint
    else none

unfoldable pub dlmm_program_of : MeteoraDlmmPool → Bytes → Bytes
dlmm_program_of pool mint =
    if bytes_eq mint pool.token_x_mint then pool.token_x_program else pool.token_y_program

unfoldable pub dlmm_bitmap_meta : Option Bytes → AccountMeta
dlmm_bitmap_meta none = new_readonly Constants.meteora_dlmm_program false
dlmm_bitmap_meta (some key) =
    if bytes_eq key Constants.meteora_dlmm_program then new_readonly key false else new key false

-- `pool.bitmap_extension.is_some_and(…)`
unfoldable pub dlmm_bad_bitmap : Bytes → Option Bytes → Bool
dlmm_bad_bitmap bitmap_pda none = false
dlmm_bad_bitmap bitmap_pda (some key) =
    not (bytes_eq key bitmap_pda) && not (bytes_eq key Constants.meteora_dlmm_program)

unfoldable pub dlmm_accounts : Derive → Bytes → MeteoraDlmmPool → Bytes → Bytes → List AccountMeta
dlmm_accounts derive user pool input_mint output_mint =
    new pool.lb_pair false
    ∷ dlmm_bitmap_meta pool.bitmap_extension
    ∷ new pool.reserve_x false
    ∷ new pool.reserve_y false
    ∷ new (ata derive user input_mint (dlmm_program_of pool input_mint)) false
    ∷ new (ata derive user output_mint (dlmm_program_of pool output_mint)) false
    ∷ new_readonly pool.token_x_mint false
    ∷ new_readonly pool.token_y_mint false
    ∷ new pool.oracle false
    ∷ new_readonly Constants.meteora_dlmm_program false
    ∷ new_readonly user true
    ∷ new_readonly pool.token_x_program false
    ∷ new_readonly pool.token_y_program false
    ∷ Constants.memo_program_meta
    ∷ Constants.meteora_dlmm_event_authority_meta
    ∷ Constants.meteora_dlmm_program_meta
    ∷ map (λ (key : Bytes). new key false) pool.bin_arrays

unfoldable pub meteora_dlmm_swap_leg :
    (Bytes → Bytes) → Derive → Bytes → MeteoraDlmmPool → ℕ → ℕ → Bytes → Option Leg
meteora_dlmm_swap_leg bitmap_extension_pda derive user pool amount_in min_out input_mint = do
  require_mint_programs
      ((pool.token_x_mint, pool.token_x_program) ∷ (pool.token_y_mint, pool.token_y_program) ∷ [])
  bail_if (length pool.bin_arrays == 0)
  require_array_addresses pool.bin_arrays
  bail_if (dlmm_bad_bitmap (bitmap_extension_pda pool.lb_pair) pool.bitmap_extension)
  output_mint ← dlmm_output_mint pool input_mint
  ensure_leg_account_budget (length (dlmm_accounts derive user pool input_mint output_mint))
  some (record {
    program_id = Constants.meteora_dlmm_program;
    accounts = dlmm_accounts derive user pool input_mint output_mint;
    payload = encode_u64_pair Constants.meteora_dlmm_swap2 amount_in min_out ++ zeros 4;
  })
