-- ===== src/Tests/Curves.antt =====
-- The SDK's bonding curves and snapshots: runs, and the theorems at concrete inputs.
use sol_trade_router_sdk.Base.{
  ℕ, ◌+◌, ◌*◌, ◌≤◌, ◌<◌, ◌≡◌, refl, true, false, none, some, [], ◌∷◌, arith,
}
use sol_trade_router_sdk.Base.Words.{IsU64, div_ceil}
use sol_trade_router_sdk.Base.Bytes.{Bytes, zeros, bytes_eq}
use sol_trade_router_sdk.Sdk.Fallible.{bail_if, ◌>>=◌}
use sol_trade_router_sdk.Sdk.TransferFee.{no_fee, calculate, calculate_inverse}
use sol_trade_router_sdk.Sdk.Quote.Amount.{compute_fee_bps, fee_ceil}
use sol_trade_router_sdk.Sdk.Quote.PumpFun.{
  PumpFunPool, pumpfun_rates, pumpfun_net, pumpfun_buy_token_out, pumpfun_sell_sol_out,
}
use sol_trade_router_sdk.Sdk.Quote.PumpFun.Laws.{
  pumpfun_net_covered, pumpfun_buy_bounds, pumpfun_sell_bounds,
}
use sol_trade_router_sdk.Sdk.Quote.PumpSwap.{
  PumpSwapPool, pos, add_signed, pumpswap_effective_quote, pumpswap_add_fees, pumpswap_net,
  pumpswap_buy_base_out, pumpswap_sell_quote_out,
}
use sol_trade_router_sdk.Sdk.Quote.PumpSwap.Laws.{pumpswap_sell_covered, pumpswap_buy_below}
use sol_trade_router_sdk.Sdk.Quote.LaunchLab.{
  LaunchLabPool, LaunchLabBuyQuote, launchlab_total_fee_rate, launchlab_clamp, graduation_input,
  pre_fee_amount, launchlab_buy_quote, launchlab_sell_quote_out,
}
use sol_trade_router_sdk.Sdk.Quote.LaunchLab.Laws.{
  launchlab_buy_quote-BuyWithin, launchlab_sell_within,
}
use sol_trade_router_sdk.Sdk.Quote.Snapshot.{
  MeteoraDammV2Pool, snapshot_expected_out, meteora_damm_v2_out,
}

-- the pool of the source's `pumpfun_fee_additive`
abbrev pump_pool : PumpFunPool
pump_pool = record {
  mint = [];
  mint_token_program = [];
  quote_mint = [];
  quote_token_program = [];
  use_v2 = false;
  bonding_curve = [];
  associated_bonding_curve = [];
  creator_vault = [];
  fee_recipient = [];
  buyback_fee_recipient = [];
  global = [];
  event_authority = [];
  global_volume_accumulator = [];
  user_volume_accumulator = [];
  fee_config = [];
  fee_program = [];
  bonding_curve_v2 = [];
  protocol_fee_recipient = [];
  virtual_token_reserves = 1000000000;
  virtual_sol_reserves = 30000000000;
  real_token_reserves = 800000000;
  protocol_fee_bps = 95;
  creator_fee_bps = 30;
  fee_rates_known = true;
  has_creator = true;
  is_cashback_coin = false;
}

pump_net_run : pumpfun_net 1000000 95 30 ≡ some 987654
unfolding pumpfun_net compute_fee_bps
pump_net_run = refl

pump_buy_run : pumpfun_buy_token_out pump_pool 1000000 ≡ some 32920
unfolding pumpfun_buy_token_out pumpfun_rates pumpfun_net compute_fee_bps bail_if ◌>>=◌
pump_buy_run = refl

pump_sell_run : pumpfun_sell_sol_out pump_pool 1000000 ≡ some 29595402
unfolding pumpfun_sell_sol_out pumpfun_rates compute_fee_bps bail_if ◌>>=◌
pump_sell_run = refl

pumpfun_net_covered_example :
    987654 + compute_fee_bps 987654 95 + compute_fee_bps 987654 30 ≤ 1000000
pumpfun_net_covered_example =
    pumpfun_net_covered 1000000 95 30 987654 (omega arith) (omega arith) (omega arith) pump_net_run

pumpfun_buy_bounds_example : (0 < 32920) × (32920 ≤ 800000000) × (32920 < 1000000000)
pumpfun_buy_bounds_example = pumpfun_buy_bounds pump_pool 1000000 32920 pump_buy_run

-- the pool of the source's `pumpswap_quotes_match_reference_integer_math`
abbrev swap_pool : PumpSwapPool
swap_pool = record {
  pool = [];
  base_mint = [];
  quote_mint = [];
  pool_base_token_account = [];
  pool_quote_token_account = [];
  base_token_program = [];
  quote_token_program = [];
  coin_creator_vault_ata = [];
  coin_creator_vault_authority = [];
  coin_creator = [];
  base_reserve = 800000000000000;
  quote_reserve = 100000000000;
  virtual_quote_reserves = pos 5000000000;
  quote_fee_reserves = some 0;
  lp_fee_bps = 20;
  protocol_fee_bps = 5;
  creator_fee_bps = 30;
  is_cashback_coin = false;
  protocol_fee_recipient = [];
  buyback_fee_recipient = [];
}

swap_buy_run : pumpswap_buy_base_out swap_pool 1500000000 ≡ some 11206836149304
unfolding pumpswap_buy_base_out pumpswap_net pumpswap_add_fees pumpswap_effective_quote add_signed
    compute_fee_bps bail_if ◌>>=◌
swap_buy_run = refl

swap_sell_run : pumpswap_sell_quote_out swap_pool 123456789000 ≡ some 16112095
unfolding pumpswap_sell_quote_out pumpswap_add_fees pumpswap_effective_quote add_signed
    compute_fee_bps bail_if ◌>>=◌
swap_sell_run = refl

pumpswap_buy_below_example : 11206836149304 < 800000000000000
pumpswap_buy_below_example =
    pumpswap_buy_below swap_pool 1500000000 11206836149304 (omega arith) (omega arith) swap_buy_run

pumpswap_sell_covered_example :
    (reserved : ℕ) × (swap_pool.quote_fee_reserves ≡ some reserved)
    × (16112095 + reserved ≤ 100000000000)
pumpswap_sell_covered_example = pumpswap_sell_covered swap_pool 123456789000 16112095 swap_sell_run

abbrev launch_pool : LaunchLabPool
launch_pool = record {
  base_mint = [];
  quote_mint = [];
  base_token_program = [];
  quote_token_program = [];
  pool_state = [];
  base_vault = [];
  quote_vault = [];
  platform_config = [];
  platform_associated_account = [];
  creator_associated_account = [];
  global_config = [];
  virtual_base = 1000000;
  virtual_quote = 30000;
  real_base = 790000;
  real_quote = 50000;
  total_base_sell = 800000;
  curve_type = 0;
  fee_rates_known = true;
  trade_fee_rate = 2500;
  platform_fee_rate = 10000;
  creator_fee_rate = 0;
  base_transfer_fee = no_fee;
  quote_transfer_fee = no_fee;
}

-- near graduation: the input is lowered
abbrev launch_quote : LaunchLabBuyQuote
launch_quote = record { amount_in = 4051; amount_out = 10000 }

launch_buy_run : launchlab_buy_quote launch_pool 9000 0 ≡ some launch_quote
unfolding launchlab_buy_quote launchlab_total_fee_rate launchlab_clamp graduation_input
    pre_fee_amount fee_ceil no_fee calculate calculate_inverse div_ceil bail_if ◌>>=◌
launch_buy_run = refl

launch_sell_run : launchlab_sell_quote_out launch_pool 1000 ≡ some 374
unfolding launchlab_sell_quote_out launchlab_total_fee_rate fee_ceil no_fee calculate div_ceil
    bail_if ◌>>=◌
launch_sell_run = refl

pumpfun_sell_bounds_example :
    (29595402 < 30000000000)
    × (29595402 * (1000000000 + 1000000) ≤ 1000000 * 30000000000)
    × IsU64 29595402
pumpfun_sell_bounds_example = pumpfun_sell_bounds pump_pool 1000000 29595402 pump_sell_run

launchlab_buy_quote-BuyWithin_example :
    (4051 ≤ 9000) × (0 < 800000 → 790000 + 10000 ≤ 800000) × (790000 + 10000 < 1000000)
launchlab_buy_quote-BuyWithin_example =
    launchlab_buy_quote-BuyWithin launch_pool 9000 0 launch_quote launch_buy_run

launchlab_sell_within_example :
    (374 ≤ 50000) × (1000 ≤ 790000 + calculate launch_pool.base_transfer_fee 1000)
launchlab_sell_within_example = launchlab_sell_within launch_pool 1000 374 launch_sell_run

abbrev mint_a : Bytes
mint_a = 1 ∷ zeros 31

abbrev damm_pool : MeteoraDammV2Pool
damm_pool = record {
  pool = [];
  token_a_vault = [];
  token_b_vault = [];
  token_a_mint = mint_a;
  token_b_mint = [];
  token_a_program = [];
  token_b_program = [];
  token_a_reserve = 1000000;
  token_b_reserve = 2000000;
  fee_bps = 0;
  quoted_amount_in = some 100000;
  quoted_input_mint = some mint_a;
  expected_out = some 199000;
  swap_mode = 0;
  referral_token_account = none;
  include_rate_limiter_sysvar = false;
}

damm_runs :
    (meteora_damm_v2_out damm_pool 100000 true ≡ some 199000)
    × (meteora_damm_v2_out damm_pool 100001 true ≡ none)
    × (meteora_damm_v2_out damm_pool 100000 false ≡ none)
unfolding meteora_damm_v2_out snapshot_expected_out bytes_eq bail_if ◌>>=◌
damm_runs = (refl, refl, refl)
