-- ===== src/Sdk/Legs/Whirlpool.antt =====
-- crates/sdk/src/legs.rs: the Orca Whirlpool leg. `none` is an error.
use sol_trade_router_sdk.Base.{
  ℕ, ◌%◌, Bool, true, false, Option, none, some, List, [], ◌∷◌, ◌++◌, map, length, drop, ltb,
  if◌then◌else◌,
}
use sol_trade_router_sdk.Base.Bytes.{Bytes, bytes_eq}
use sol_trade_router_sdk.Base.Words.{to_le_bytes}
use sol_trade_router_sdk.Sdk.Fallible.{◌>>=◌, ◌>>◌, bail_if}
use sol_trade_router_sdk.Sdk.Keys.{AccountMeta, Derive, new, new_readonly}
use sol_trade_router_sdk.Sdk.Constants
use sol_trade_router_sdk.Sdk.Ata.{ata}
use sol_trade_router_sdk.Sdk.Quote.Snapshot.{WhirlpoolPool}
use sol_trade_router_sdk.Sdk.Legs.{Leg, encode_u64_pair}
use sol_trade_router_sdk.Sdk.Legs.Checks.{
  require_mint_programs, require_array_addresses, ensure_leg_account_budget,
}

unfoldable pub whirlpool_a_to_b : WhirlpoolPool → Bytes → Option Bool
whirlpool_a_to_b pool input_mint =
    if bytes_eq input_mint pool.mint_a
    then some true
    else if bytes_eq input_mint pool.mint_b
    then some false
    else none

unfoldable pub whirlpool_sqrt_limit : Bool → ℕ
whirlpool_sqrt_limit true = Constants.whirlpool_min_sqrt_price_x64
whirlpool_sqrt_limit false = Constants.whirlpool_max_sqrt_price_x64

-- `u8::from(a_to_b)`
unfoldable pub flag_byte : Bool → ℕ
flag_byte true = 1
flag_byte false = 0

-- `remaining_accounts_info`
unfoldable pub remaining_info : List Bytes → Bytes
remaining_info [] = 0 ∷ []
remaining_info (key ∷ keys) = 1 ∷ (to_le_bytes 4 1 ++ (6 ∷ (length (key ∷ keys) % 256) ∷ []))

-- The seed is b"oracle".
unfoldable pub whirlpool_oracle : Derive → Bytes → Bytes
whirlpool_oracle derive whirlpool =
    (derive ((111 ∷ 114 ∷ 97 ∷ 99 ∷ 108 ∷ 101 ∷ []) ∷ whirlpool ∷ [])
      Constants.orca_whirlpool_program).0

-- The accounts; the first three tick arrays stand before the oracle, the others behind it.
unfoldable pub whirlpool_accounts : Derive → Bytes → WhirlpoolPool → List Bytes → List AccountMeta
whirlpool_accounts derive user pool (tick0 ∷ tick1 ∷ tick2 ∷ supplemental) =
    new_readonly pool.token_program_a false
    ∷ new_readonly pool.token_program_b false
    ∷ Constants.memo_program_meta
    ∷ new_readonly user true
    ∷ new pool.whirlpool false
    ∷ new_readonly pool.mint_a false
    ∷ new_readonly pool.mint_b false
    ∷ new (ata derive user pool.mint_a pool.token_program_a) false
    ∷ new pool.vault_a false
    ∷ new (ata derive user pool.mint_b pool.token_program_b) false
    ∷ new pool.vault_b false
    ∷ new tick0 false
    ∷ new tick1 false
    ∷ new tick2 false
    ∷ new (whirlpool_oracle derive pool.whirlpool) false
    ∷ map (λ (key : Bytes). new key false) supplemental
whirlpool_accounts derive user pool _ = []

unfoldable pub whirlpool_swap_leg : Derive → Bytes → WhirlpoolPool → ℕ → ℕ → Bytes → Option Leg
whirlpool_swap_leg derive user pool amount_in min_out input_mint = do
  require_mint_programs
      ((pool.mint_a, pool.token_program_a) ∷ (pool.mint_b, pool.token_program_b) ∷ [])
  bail_if (ltb (length pool.tick_arrays) 3)
  bail_if (ltb 6 (length pool.tick_arrays))
  require_array_addresses pool.tick_arrays
  a_to_b ← whirlpool_a_to_b pool input_mint
  ensure_leg_account_budget (length (whirlpool_accounts derive user pool pool.tick_arrays))
  some (record {
    program_id = Constants.orca_whirlpool_program;
    accounts = whirlpool_accounts derive user pool pool.tick_arrays;
    payload =
        encode_u64_pair Constants.whirlpool_swap_v2 amount_in min_out
        ++ (to_le_bytes 16 (whirlpool_sqrt_limit a_to_b)
            ++ (1 ∷ flag_byte a_to_b ∷ remaining_info (drop 3 pool.tick_arrays)));
  })
