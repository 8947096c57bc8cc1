-- ===== src/Sdk/Legs/Clmm.antt =====
-- crates/sdk/src/legs.rs: the Raydium CLMM leg. `none` is an error.
use sol_trade_router_sdk.Base.{
  ℕ, ◌+◌, ◌-◌, Bool, true, false, not, Option, none, some, List, [], ◌∷◌, ◌++◌, map, length, ◌==◌,
  if◌then◌else◌,
}
use sol_trade_router_sdk.Base.Bytes.{Bytes, bytes_eq}
use sol_trade_router_sdk.Base.Words.{to_le_bytes}
use sol_trade_router_sdk.Sdk.Fallible.{◌>>=◌, ◌>>◌, bail_if}
use sol_trade_router_sdk.Sdk.Keys.{AccountMeta, Derive, new, new_readonly}
use sol_trade_router_sdk.Sdk.Constants
use sol_trade_router_sdk.Sdk.Ata.{ata}
use sol_trade_router_sdk.Sdk.Quote.Snapshot.{RaydiumClmmPool}
use sol_trade_router_sdk.Sdk.Legs.{Leg, encode_u64_pair}
use sol_trade_router_sdk.Sdk.Legs.Checks.{
  require_mint_programs, require_array_addresses, ensure_leg_account_budget,
}

-- The first seed is b"pool_tick_array_bitmap_extension".
unfoldable pub raydium_clmm_tick_array_bitmap_extension : Derive → Bytes → Bytes
raydium_clmm_tick_array_bitmap_extension derive pool_state =
    (derive
      ((112 ∷ 111 ∷ 111 ∷ 108 ∷ 95 ∷ 116 ∷ 105 ∷ 99 ∷ 107 ∷ 95 ∷ 97 ∷ 114 ∷ 114 ∷ 97 ∷ 121 ∷ 95 ∷ 98
          ∷ 105 ∷ 116 ∷ 109 ∷ 97 ∷ 112 ∷ 95 ∷ 101 ∷ 120 ∷ 116 ∷ 101 ∷ 110 ∷ 115 ∷ 105 ∷ 111 ∷ 110
          ∷ [])
        ∷ pool_state
        ∷ [])
      Constants.raydium_clmm_program).0

-- `is_some_and(|key| key != bitmap_pda)`
unfoldable pub clmm_bad_bitmap : Bytes → Option Bytes → Bool
clmm_bad_bitmap bitmap_pda none = false
clmm_bad_bitmap bitmap_pda (some key) = not (bytes_eq key bitmap_pda)

-- The loop that takes the bitmap extension out of the tick arrays.
unfoldable pub split_ticks : Bytes → Option Bytes → List Bytes → Option Bytes × List Bytes
split_ticks bitmap_pda bitmap [] = (bitmap, [])
split_ticks bitmap_pda bitmap (key ∷ keys) =
    let found = split_ticks bitmap_pda (some key) keys in
    let kept = split_ticks bitmap_pda bitmap keys in
    if bytes_eq key bitmap_pda then found else (kept.0, key ∷ kept.1)

-- `(output_mint, input_vault, output_vault, input_program, output_program)`
pub record ClmmDirection : Type 0 where
  pub output_mint : Bytes
  pub input_vault : Bytes
  pub output_vault : Bytes
  pub input_program : Bytes
  pub output_program : Bytes

unfoldable pub clmm_direction : RaydiumClmmPool → Bytes → Option ClmmDirection
clmm_direction pool input_mint =
    if bytes_eq input_mint pool.token_0_mint
    then some (record {
      output_mint = pool.token_1_mint;
      input_vault = pool.token_0_vault;
      output_vault = pool.token_1_vault;
      input_program = pool.token_0_program;
      output_program = pool.token_1_program;
    })
    else if bytes_eq input_mint pool.token_1_mint
    then some (record {
      output_mint = pool.token_0_mint;
      input_vault = pool.token_1_vault;
      output_vault = pool.token_0_vault;
      input_program = pool.token_1_program;
      output_program = pool.token_0_program;
    })
    else none

unfoldable pub clmm_sqrt_limit : Bool → ℕ
clmm_sqrt_limit true = Constants.min_sqrt_price_x64 + 1
clmm_sqrt_limit false = Constants.max_sqrt_price_x64 - 1

-- `if let Some(ext) = bitmap`
unfoldable pub bitmap_metas : Option Bytes → List AccountMeta
bitmap_metas none = []
bitmap_metas (some ext) = new ext false ∷ []

unfoldable pub clmm_accounts :
    Derive
    → Bytes
    → RaydiumClmmPool
    → Bytes
    → ClmmDirection
    → Option Bytes
    → List Bytes
    → List AccountMeta
clmm_accounts derive user pool input_mint side bitmap tick_arrays =
    new_readonly user true
    ∷ new_readonly pool.amm_config false
    ∷ new pool.pool_state false
    ∷ new (ata derive user input_mint side.input_program) false
    ∷ new (ata derive user side.output_mint side.output_program) false
    ∷ new side.input_vault false
    ∷ new side.output_vault false
    ∷ new pool.observation_state false
    ∷ Constants.token_program_meta
    ∷ Constants.token_2022_program_meta
    ∷ Constants.memo_program_meta
    ∷ new_readonly input_mint false
    ∷ new_readonly side.output_mint false
    ∷ (bitmap_metas bitmap ++ map (λ (key : Bytes). new key false) tick_arrays)

unfoldable pub raydium_clmm_swap_leg : Derive → Bytes → RaydiumClmmPool → ℕ → ℕ → Bytes → Option Leg
raydium_clmm_swap_leg derive user pool amount_in min_out input_mint = do
  require_mint_programs
      ((pool.token_0_mint, pool.token_0_program) ∷ (pool.token_1_mint, pool.token_1_program) ∷ [])
  bail_if (
      clmm_bad_bitmap (raydium_clmm_tick_array_bitmap_extension derive pool.pool_state)
        pool.tick_array_bitmap_extension)
  (bitmap, tick_arrays) ← some (
      split_ticks (raydium_clmm_tick_array_bitmap_extension derive pool.pool_state)
        pool.tick_array_bitmap_extension pool.tick_arrays)
  bail_if (length tick_arrays == 0)
  require_array_addresses tick_arrays
  side ← clmm_direction pool input_mint
  ensure_leg_account_budget
      (length (clmm_accounts derive user pool input_mint side bitmap tick_arrays))
  some (record {
    program_id = Constants.raydium_clmm_program;
    accounts = clmm_accounts derive user pool input_mint side bitmap tick_arrays;
    payload =
        encode_u64_pair Constants.clmm_swap_v2 amount_in min_out
        ++ (to_le_bytes 16 (clmm_sqrt_limit (bytes_eq input_mint pool.token_0_mint)) ++ (1 ∷ []));
  })
