-- ===== src/Sdk/PumpFunV3/Legs.antt =====
-- crates/sdk/src/pumpfun_v3.rs: the legs of a Pump V3 pool. `none` is an error.
use sol_trade_router_sdk.Base.{
  ℕ, true, false, ◌||◌, Option, some, List, [], ◌∷◌, ◌++◌, ◌==◌, if◌then◌else◌,
}
use sol_trade_router_sdk.Base.Bytes.{Bytes, bytes_eq}
use sol_trade_router_sdk.Sdk.Fallible.{◌>>=◌, ◌>>◌, bail_if}
use sol_trade_router_sdk.Sdk.Keys.{AccountMeta, Derive, new, new_readonly}
use sol_trade_router_sdk.Sdk.Constants
use sol_trade_router_sdk.Sdk.Ata.{ata}
use sol_trade_router_sdk.Sdk.Legs.{Leg, encode_u64_pair}
use sol_trade_router_sdk.Sdk.PumpFunV3.{PumpFunV3Pool, validate, buy_quote, buy_quote_for_tokens}

abbrev pub pumpfun_buy_exact_quote_in_v3 : Bytes
pumpfun_buy_exact_quote_in_v3 = 225 ∷ 247 ∷ 80 ∷ 30 ∷ 213 ∷ 179 ∷ 132 ∷ 136 ∷ []

abbrev pub pumpfun_buy_v3 : Bytes
pumpfun_buy_v3 = 7 ∷ 5 ∷ 29 ∷ 196 ∷ 245 ∷ 23 ∷ 101 ∷ 80 ∷ []

abbrev pub pumpfun_sell_v3 : Bytes
pumpfun_sell_v3 = 28 ∷ 146 ∷ 222 ∷ 119 ∷ 38 ∷ 196 ∷ 105 ∷ 213 ∷ []

unfoldable pub v3_buyback : Derive → PumpFunV3Pool → Bytes
v3_buyback derive pool =
    if bytes_eq pool.curve.quote_mint Constants.wsol_mint
    then pool.curve.buyback_fee_recipient
    else ata derive pool.curve.buyback_fee_recipient pool.curve.quote_mint
        pool.curve.quote_token_program

-- The first seed of the accumulator is b"user_volume_accumulator".
unfoldable pub v3_accounts : Derive → PumpFunV3Pool → Bytes → Option (List AccountMeta)
v3_accounts derive pool user = do
  validate derive pool
  some (
      new_readonly Constants.pumpfun_global false
      ∷ new_readonly pool.curve.mint false
      ∷ new_readonly pool.curve.quote_mint false
      ∷ new_readonly pool.curve.mint_token_program false
      ∷ new_readonly pool.curve.quote_token_program false
      ∷ new pool.curve.bonding_curve false
      ∷ new pool.curve.associated_bonding_curve false
      ∷ new
          (ata derive pool.curve.bonding_curve pool.curve.quote_mint pool.curve.quote_token_program)
          false
      ∷ new user true
      ∷ new (ata derive user pool.curve.mint pool.curve.mint_token_program) false
      ∷ new (ata derive user pool.curve.quote_mint pool.curve.quote_token_program) false
      ∷ new
          (derive
            ((117 ∷ 115 ∷ 101 ∷ 114 ∷ 95 ∷ 118 ∷ 111 ∷ 108 ∷ 117 ∷ 109 ∷ 101 ∷ 95 ∷ 97 ∷ 99 ∷ 99
                ∷ 117 ∷ 109 ∷ 117 ∷ 108 ∷ 97 ∷ 116 ∷ 111 ∷ 114 ∷ [])
              ∷ user
              ∷ [])
            Constants.pumpfun_program).0
          false
      ∷ new_readonly Constants.pumpfun_fee_config false
      ∷ new (v3_buyback derive pool) false
      ∷ new_readonly Constants.system_program false
      ∷ new_readonly Constants.pumpfun_event_authority false
      ∷ new_readonly Constants.pumpfun_program false
      ∷ [])

unfoldable pub buy_leg : Derive → PumpFunV3Pool → Bytes → ℕ → ℕ → Option Leg
buy_leg derive pool user budget minimum = do
  bail_if (budget == 0 || minimum == 0)
  _ ← buy_quote derive pool budget
  accounts ← v3_accounts derive pool user
  some (record {
    program_id = Constants.pumpfun_program;
    accounts = accounts;
    payload = encode_u64_pair pumpfun_buy_exact_quote_in_v3 budget minimum ++ (0 ∷ []);
  })

unfoldable pub buy_exact_out_leg : Derive → PumpFunV3Pool → Bytes → ℕ → ℕ → Option Leg
buy_exact_out_leg derive pool user amount maximum = do
  bail_if (amount == 0 || maximum == 0)
  _ ← buy_quote_for_tokens derive pool amount
  accounts ← v3_accounts derive pool user
  some (record {
    program_id = Constants.pumpfun_program;
    accounts = accounts;
    payload = encode_u64_pair pumpfun_buy_v3 amount maximum ++ (0 ∷ []);
  })

unfoldable pub sell_leg : Derive → PumpFunV3Pool → Bytes → ℕ → ℕ → Option Leg
sell_leg derive pool user amount minimum = do
  bail_if (amount == 0 || minimum == 0)
  accounts ← v3_accounts derive pool user
  some (record {
    program_id = Constants.pumpfun_program;
    accounts = accounts;
    payload = encode_u64_pair pumpfun_sell_v3 amount minimum;
  })
