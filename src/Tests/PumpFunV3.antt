-- ===== src/Tests/PumpFunV3.antt =====
-- A Pump V3 buy that goes through the graduation of its curve.
use sol_trade_router_sdk.Base.{◌<◌, ◌≡◌, refl, true, false, some, none, []}
use sol_trade_router_sdk.Base.Bytes.{bytes_eq}
use sol_trade_router_sdk.Base.Words.{IsU64, div_ceil}
use sol_trade_router_sdk.Sdk.Fallible.{◌>>=◌, bail_if}
use sol_trade_router_sdk.Sdk.Keys.{Derive}
use sol_trade_router_sdk.Sdk.Constants
use sol_trade_router_sdk.Sdk.Ata.{ata}
use sol_trade_router_sdk.Sdk.Quote.PumpFun.{PumpFunPool}
use sol_trade_router_sdk.Sdk.PumpFunV3.{
  PumpFunV3Pool, bonding_curve_of, validate, rates, fees, net_quote, positive, positive_u64,
  pool_to_be, graduation_leg, buy_through_graduation, buy_quote, cost_beyond, buy_quote_for_tokens,
}
use sol_trade_router_sdk.Sdk.PumpFunV3.Bounds.{Bought, buy_quote-Bought}
use sol_trade_router_sdk.Tests.World.{key}

-- Every derived address is `key 40`.
abbrev derive : Derive
derive seeds program = (key 40, 255)

abbrev pub curve : PumpFunPool
curve = record {
  mint = key 21;
  mint_token_program = Constants.token_program;
  quote_mint = key 22;
  quote_token_program = Constants.token_program;
  use_v2 = false;
  bonding_curve = key 40;
  associated_bonding_curve = key 40;
  creator_vault = [];
  fee_recipient = [];
  buyback_fee_recipient = key 12;
  global = [];
  event_authority = [];
  global_volume_accumulator = [];
  user_volume_accumulator = [];
  fee_config = [];
  fee_program = [];
  bonding_curve_v2 = [];
  protocol_fee_recipient = [];
  virtual_token_reserves = 1000;
  virtual_sol_reserves = 100;
  real_token_reserves = 50;
  protocol_fee_bps = 100;
  creator_fee_bps = 30;
  fee_rates_known = true;
  has_creator = false;
  is_cashback_coin = false;
}

abbrev pool : PumpFunV3Pool
pool = record {
  curve = curve;
  complete = false;
  supports_graduation = true;
  real_quote_reserves = 40;
  curve_base_token_balance = 200;
  pool_migration_fee = 15;
  mayhem_mode = false;
  depth = 0;
  needs_curve_extension = false;
  needs_volume_initialization = false;
}

v3_runs :
    (buy_quote derive pool 1000 ≡ some 193)
    × (buy_quote derive pool 5 ≡ some 29)
    × (buy_quote derive pool 0 ≡ none)
    × (buy_quote_for_tokens derive pool 193 ≡ some 957)
unfolding buy_quote buy_quote_for_tokens buy_through_graduation graduation_leg cost_beyond
    pool_to_be rates validate bonding_curve_of ata fees net_quote positive positive_u64 div_ceil
    bytes_eq bail_if ◌>>=◌
v3_runs = (refl, refl, refl, refl)

buy_quote-Bought_example : 0 < 193 × IsU64 193 × Bought pool 193
buy_quote-Bought_example = buy_quote-Bought derive pool 1000 193 v3_runs.0
