-- ===== src/Sdk/Legs/PumpFun.antt =====
-- crates/sdk/src/legs.rs: the PumpFun legs of both versions.
use sol_trade_router_sdk.Base.{ℕ, Bool, true, false, List, [], ◌∷◌, ◌++◌, if◌then◌else◌}
use sol_trade_router_sdk.Base.Bytes.{Bytes, bytes_eq}
use sol_trade_router_sdk.Sdk.Keys.{AccountMeta, Derive, new, new_readonly}
use sol_trade_router_sdk.Sdk.Constants
use sol_trade_router_sdk.Sdk.Ata.{ata}
use sol_trade_router_sdk.Sdk.Quote.PumpFun.{PumpFunPool}
use sol_trade_router_sdk.Sdk.Legs.{Leg, encode_u64_pair}
use sol_trade_router_sdk.Sdk.Legs.Checks.{default_key}

-- The first seed is b"user_volume_accumulator".
unfoldable pub pumpfun_user_volume_accumulator : Derive → Bytes → Bytes
pumpfun_user_volume_accumulator derive user =
    (derive
      ((117 ∷ 115 ∷ 101 ∷ 114 ∷ 95 ∷ 118 ∷ 111 ∷ 108 ∷ 117 ∷ 109 ∷ 101 ∷ 95 ∷ 97 ∷ 99 ∷ 99 ∷ 117
          ∷ 109 ∷ 117 ∷ 108 ∷ 97 ∷ 116 ∷ 111 ∷ 114 ∷ [])
        ∷ user
        ∷ [])
      Constants.pumpfun_program).0

-- The first seed is b"bonding-curve-v2".
unfoldable pub pumpfun_bonding_curve_v2 : Derive → Bytes → Bytes
pumpfun_bonding_curve_v2 derive mint =
    (derive
      ((98 ∷ 111 ∷ 110 ∷ 100 ∷ 105 ∷ 110 ∷ 103 ∷ 45 ∷ 99 ∷ 117 ∷ 114 ∷ 118 ∷ 101 ∷ 45 ∷ 118 ∷ 50
          ∷ [])
        ∷ mint
        ∷ [])
      Constants.pumpfun_program).0

unfoldable pub track_volume_byte : PumpFunPool → ℕ
track_volume_byte pool = if pool.is_cashback_coin then 1 else 0

unfoldable pub leg_curve_v2 : Derive → PumpFunPool → Bytes
leg_curve_v2 derive pool =
    if bytes_eq pool.bonding_curve_v2 default_key
    then pumpfun_bonding_curve_v2 derive pool.mint
    else pool.bonding_curve_v2

unfoldable pub leg_buyback : PumpFunPool → Bytes
leg_buyback pool =
    if bytes_eq pool.buyback_fee_recipient default_key
    then Constants.pumpfun_buyback_fee_recipient
    else pool.buyback_fee_recipient

-- The byte behind the tracking of the volume is partial_fill: OptionBool(false).
unfoldable pub pumpfun_buy_leg : Derive → Bytes → PumpFunPool → ℕ → ℕ → Bytes → Leg
pumpfun_buy_leg derive user pool lamports_in min_tokens_out user_token_ata = record {
  program_id = Constants.pumpfun_program;
  accounts =
      new_readonly pool.global false
      ∷ new pool.fee_recipient false
      ∷ new_readonly pool.mint false
      ∷ new pool.bonding_curve false
      ∷ new pool.associated_bonding_curve false
      ∷ new user_token_ata false
      ∷ new user true
      ∷ Constants.system_program_meta
      ∷ new_readonly pool.mint_token_program false
      ∷ new pool.creator_vault false
      ∷ new_readonly pool.event_authority false
      ∷ Constants.pumpfun_program_meta
      ∷ new_readonly pool.global_volume_accumulator false
      ∷ new (pumpfun_user_volume_accumulator derive user) false
      ∷ new_readonly pool.fee_config false
      ∷ new_readonly pool.fee_program false
      ∷ new_readonly (leg_curve_v2 derive pool) false
      ∷ new (leg_buyback pool) false
      ∷ [];
  payload =
      encode_u64_pair Constants.pumpfun_buy_exact_sol_in lamports_in min_tokens_out
      ++ (track_volume_byte pool ∷ 0 ∷ []);
}

unfoldable pub pumpfun_sell_leg : Derive → Bytes → PumpFunPool → ℕ → ℕ → Bytes → Leg
pumpfun_sell_leg derive user pool token_in min_sol_out user_token_ata = record {
  program_id = Constants.pumpfun_program;
  accounts =
      new_readonly pool.global false
      ∷ new pool.fee_recipient false
      ∷ new_readonly pool.mint false
      ∷ new pool.bonding_curve false
      ∷ new pool.associated_bonding_curve false
      ∷ new user_token_ata false
      ∷ new user true
      ∷ Constants.system_program_meta
      ∷ new pool.creator_vault false
      ∷ new_readonly pool.mint_token_program false
      ∷ new_readonly pool.event_authority false
      ∷ Constants.pumpfun_program_meta
      ∷ new_readonly pool.fee_config false
      ∷ new_readonly pool.fee_program false
      ∷ ((if pool.is_cashback_coin
            then new (pumpfun_user_volume_accumulator derive user) false ∷ []
            else [])
          ++ (new_readonly (leg_curve_v2 derive pool) false ∷ new (leg_buyback pool) false ∷ []));
  payload = encode_u64_pair Constants.pumpfun_sell token_in min_sol_out;
}

-- The first seed is b"sharing-config".
unfoldable pub sharing_config : Derive → PumpFunPool → Bytes
sharing_config derive pool =
    (derive
      ((115 ∷ 104 ∷ 97 ∷ 114 ∷ 105 ∷ 110 ∷ 103 ∷ 45 ∷ 99 ∷ 111 ∷ 110 ∷ 102 ∷ 105 ∷ 103 ∷ [])
        ∷ pool.mint
        ∷ [])
      pool.fee_program).0

unfoldable pub pumpfun_v2_accounts : Derive → Bytes → PumpFunPool → Bool → List AccountMeta
pumpfun_v2_accounts derive user pool is_buy =
    let quote_ata : Bytes → Bytes =
      λ owner. ata derive owner pool.quote_mint pool.quote_token_program in
    let uva = pumpfun_user_volume_accumulator derive user in
    new_readonly pool.global false
    ∷ new_readonly pool.mint false
    ∷ new_readonly pool.quote_mint false
    ∷ new_readonly pool.mint_token_program false
    ∷ new_readonly pool.quote_token_program false
    ∷ Constants.associated_token_program_meta
    ∷ new pool.fee_recipient false
    ∷ new (quote_ata pool.fee_recipient) false
    ∷ new (leg_buyback pool) false
    ∷ new (quote_ata (leg_buyback pool)) false
    ∷ new pool.bonding_curve false
    ∷ new pool.associated_bonding_curve false
    ∷ new (quote_ata pool.bonding_curve) false
    ∷ new user true
    ∷ new (ata derive user pool.mint pool.mint_token_program) false
    ∷ new (quote_ata user) false
    ∷ new pool.creator_vault false
    ∷ new (quote_ata pool.creator_vault) false
    ∷ new_readonly (sharing_config derive pool) false
    ∷ ((if is_buy then new_readonly pool.global_volume_accumulator false ∷ [] else [])
        ++ (new uva false
            ∷ new (quote_ata uva) false
            ∷ new_readonly pool.fee_config false
            ∷ new_readonly pool.fee_program false
            ∷ Constants.system_program_meta
            ∷ new_readonly pool.event_authority false
            ∷ Constants.pumpfun_program_meta
            ∷ []))

-- The last byte is partial_fill: OptionBool(false).
unfoldable pub pumpfun_buy_v2_leg : Derive → Bytes → PumpFunPool → ℕ → ℕ → Leg
pumpfun_buy_v2_leg derive user pool quote_in min_tokens_out = record {
  program_id = Constants.pumpfun_program;
  accounts = pumpfun_v2_accounts derive user pool true;
  payload =
      encode_u64_pair Constants.pumpfun_buy_exact_quote_in_v2 quote_in min_tokens_out ++ (0 ∷ []);
}

unfoldable pub pumpfun_sell_v2_leg : Derive → Bytes → PumpFunPool → ℕ → ℕ → Leg
pumpfun_sell_v2_leg derive user pool token_in min_quote_out = record {
  program_id = Constants.pumpfun_program;
  accounts = pumpfun_v2_accounts derive user pool false;
  payload = encode_u64_pair Constants.pumpfun_sell_v2 token_in min_quote_out;
}
