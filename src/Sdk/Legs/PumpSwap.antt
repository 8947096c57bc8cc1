-- ===== src/Sdk/Legs/PumpSwap.antt =====
-- crates/sdk/src/legs.rs: the PumpSwap legs. `none` is an error. `try_find_program_address` of
-- solana_sdk and the account checks of sol_trade_sdk, which `validate_accounts` of market.rs calls, are
-- arguments.
use sol_trade_router_sdk.Base.{
  ℕ, Bool, true, false, not, Option, some, List, [], ◌∷◌, ◌++◌, length, if◌then◌else◌,
}
use sol_trade_router_sdk.Base.Bytes.{Bytes, bytes_eq}
use sol_trade_router_sdk.Sdk.Fallible.{◌>>=◌, ◌>>◌, bail_if}
use sol_trade_router_sdk.Sdk.Keys.{AccountMeta, Derive, new, new_readonly}
use sol_trade_router_sdk.Sdk.Constants
use sol_trade_router_sdk.Sdk.Ata.{ata}
use sol_trade_router_sdk.Sdk.Quote.PumpSwap.{PumpSwapPool}
use sol_trade_router_sdk.Sdk.Legs.{Leg, encode_u64_pair}
use sol_trade_router_sdk.Sdk.Legs.Checks.{
  require_mint_programs, ensure_leg_account_budget, default_key,
}

-- The seeds and the program, to an address where there is one.
abbrev pub TryDerive : Type 0
TryDerive = List Bytes → Bytes → Option (Bytes × ℕ)

-- The nineteen accounts that every leg starts with.
unfoldable pub pumpswap_fixed : Derive → Bytes → PumpSwapPool → List AccountMeta
pumpswap_fixed derive user pool =
    new pool.pool false
    ∷ new user true
    ∷ Constants.pumpswap_global_meta
    ∷ new_readonly pool.base_mint false
    ∷ new_readonly pool.quote_mint false
    ∷ new (ata derive user pool.base_mint pool.base_token_program) false
    ∷ new (ata derive user pool.quote_mint pool.quote_token_program) false
    ∷ new pool.pool_base_token_account false
    ∷ new pool.pool_quote_token_account false
    ∷ new_readonly pool.protocol_fee_recipient false
    ∷ new (ata derive pool.protocol_fee_recipient pool.quote_mint pool.quote_token_program) false
    ∷ new_readonly pool.base_token_program false
    ∷ new_readonly pool.quote_token_program false
    ∷ Constants.system_program_meta
    ∷ Constants.associated_token_program_meta
    ∷ Constants.pumpswap_event_authority_meta
    ∷ Constants.pumpswap_program_meta
    ∷ new pool.coin_creator_vault_ata false
    ∷ new_readonly pool.coin_creator_vault_authority false
    ∷ []

unfoldable pub volume_metas : Bool → Bytes → List AccountMeta
volume_metas true accumulator =
    Constants.pumpswap_global_volume_accumulator_meta ∷ new accumulator false ∷ []
volume_metas false accumulator = []

unfoldable pub cashback_metas : Derive → PumpSwapPool → Bool → Bytes → List AccountMeta
cashback_metas derive pool is_buy accumulator =
    if pool.is_cashback_coin
    then new (ata derive accumulator pool.quote_mint pool.quote_token_program) false
      ∷ (if not is_buy then new accumulator false ∷ [] else [])
    else []

-- The first seed is b"pool-v2".
unfoldable pub pool_v2_metas : TryDerive → PumpSwapPool → Option (List AccountMeta)
pool_v2_metas try_derive pool =
    if not (bytes_eq pool.coin_creator default_key)
    then (do
      (pool_v2, _) ←
          try_derive ((112 ∷ 111 ∷ 111 ∷ 108 ∷ 45 ∷ 118 ∷ 50 ∷ []) ∷ pool.base_mint ∷ [])
            Constants.pumpswap_program
      some (new_readonly pool_v2 false ∷ []))
    else some []

-- The first seed of the accumulator is b"user_volume_accumulator".
unfoldable pub pumpswap_accounts :
    TryDerive
    → (PumpSwapPool → Bool)
    → Derive
    → Bytes
    → PumpSwapPool
    → Bool
    → Option (List AccountMeta)
pumpswap_accounts try_derive valid_accounts derive user pool is_buy = do
  require_mint_programs
      ((pool.base_mint, pool.base_token_program) ∷ (pool.quote_mint, pool.quote_token_program) ∷ [])
  bail_if (not (valid_accounts pool))
  (accumulator, _) ←
      try_derive
        ((117 ∷ 115 ∷ 101 ∷ 114 ∷ 95 ∷ 118 ∷ 111 ∷ 108 ∷ 117 ∷ 109 ∷ 101 ∷ 95 ∷ 97 ∷ 99 ∷ 99 ∷ 117
            ∷ 109 ∷ 117 ∷ 108 ∷ 97 ∷ 116 ∷ 111 ∷ 114 ∷ [])
          ∷ user
          ∷ [])
        Constants.pumpswap_program
  pool_v2 ← pool_v2_metas try_derive pool
  accounts ← some (
      pumpswap_fixed derive user pool
      ++ (volume_metas is_buy accumulator
          ++ (Constants.pumpswap_fee_config_meta
              ∷ Constants.pumpswap_fee_program_meta
              ∷ (cashback_metas derive pool is_buy accumulator
                  ++ (pool_v2
                      ++ (new_readonly pool.buyback_fee_recipient false
                          ∷ new
                              (ata derive pool.buyback_fee_recipient pool.quote_mint
                                pool.quote_token_program)
                              false
                          ∷ []))))))
  ensure_leg_account_budget (length accounts)
  some accounts

unfoldable pub pumpswap_buy_leg :
    TryDerive → (PumpSwapPool → Bool) → Derive → Bytes → PumpSwapPool → ℕ → ℕ → Option Leg
pumpswap_buy_leg try_derive valid_accounts derive user pool quote_in min_base_out = do
  accounts ← pumpswap_accounts try_derive valid_accounts derive user pool true
  some (record {
    program_id = Constants.pumpswap_program;
    accounts = accounts;
    payload =
        encode_u64_pair Constants.pumpswap_buy_exact_quote_in quote_in min_base_out ++ (1 ∷ []);
  })

unfoldable pub pumpswap_buy_exact_out_leg :
    TryDerive → (PumpSwapPool → Bool) → Derive → Bytes → PumpSwapPool → ℕ → ℕ → Option Leg
pumpswap_buy_exact_out_leg try_derive valid_accounts derive user pool base_amount_out max_quote_in =
    do
      accounts ← pumpswap_accounts try_derive valid_accounts derive user pool true
      some (record {
        program_id = Constants.pumpswap_program;
        accounts = accounts;
        payload = encode_u64_pair Constants.pumpswap_buy base_amount_out max_quote_in ++ (1 ∷ []);
      })

unfoldable pub pumpswap_sell_leg :
    TryDerive → (PumpSwapPool → Bool) → Derive → Bytes → PumpSwapPool → ℕ → ℕ → Option Leg
pumpswap_sell_leg try_derive valid_accounts derive user pool base_in min_quote_out = do
  accounts ← pumpswap_accounts try_derive valid_accounts derive user pool false
  some (record {
    program_id = Constants.pumpswap_program;
    accounts = accounts;
    payload = encode_u64_pair Constants.pumpswap_sell base_in min_quote_out;
  })
