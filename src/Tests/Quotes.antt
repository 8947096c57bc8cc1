-- ===== src/Tests/Quotes.antt =====
-- The SDK's quotes: the numbers of the source's unit tests, and the theorems at concrete inputs.
use sol_trade_router_sdk.Base.{ℕ, ◌+◌, ◌-◌, ◌*◌, ◌≤◌, ◌<◌, ◌≡◌, max, refl, true, some, [], arith}
use sol_trade_router_sdk.Base.Words.{div_ceil}
use sol_trade_router_sdk.Program.Error.{ok}
use sol_trade_router_sdk.Program.Route.Checks.{checked_fee}
use sol_trade_router_sdk.Sdk.Fallible.{bail_if, ◌>>=◌}
use sol_trade_router_sdk.Sdk.TransferFee.{
  TokenTransferFee, FeeFits, no_fee, calculate, calculate_inverse,
}
use sol_trade_router_sdk.Sdk.TransferFee.Laws.{calculate_bounds, after_fee_mono, inverse_covers}
use sol_trade_router_sdk.Sdk.Quote.Amount.{
  clamp_slippage_bps, apply_slippage_min_out, fee_amount, compute_fee_bps, cpmm_trade_fee,
}
use sol_trade_router_sdk.Sdk.Quote.Amount.Laws.{
  slippage_bounds, fee_amount-checked_fee, compute_fee_bps-ceil,
}
use sol_trade_router_sdk.Sdk.Quote.RaydiumAmm.{
  RaydiumAmmV4Pool, amm_reserves, raydium_amm_v4_out, raydium_amm_v4_in_for_out,
}
use sol_trade_router_sdk.Sdk.Quote.RaydiumAmm.Laws.{
  AmmFits, amm_out_sound, amm_out_mono, exact_out_least,
}
use sol_trade_router_sdk.Sdk.Quote.Cpmm.{
  CpmmPool, creator_fee_on_input, cpmm_creator_rate, cpmm_sides, cpmm_curve, cpmm_swapped, cpmm_out,
}
use sol_trade_router_sdk.Sdk.Quote.Cpmm.Facts.{CpmmFits}
use sol_trade_router_sdk.Sdk.Quote.Cpmm.Laws.{cpmm_out_sound, cpmm_out_mono}

-- 3% up to 2 units
abbrev mint_fee : TokenTransferFee
mint_fee = record { basis_points = 300; maximum_fee = 2 }

mint_fee_fits : FeeFits mint_fee
mint_fee_fits = record { points_fit = omega arith; maximum_fits = omega arith }

transfer_fee_tests : (calculate mint_fee 1 ≡ 1) × (calculate mint_fee 100 ≡ 2)
unfolding calculate div_ceil
transfer_fee_tests = (refl, refl)

slippage_tests :
    (apply_slippage_min_out 1000000 10000 ≡ apply_slippage_min_out 1000000 9999)
    × (apply_slippage_min_out 1 500 ≡ 1)
    × (apply_slippage_min_out 0 500 ≡ 0)
unfolding apply_slippage_min_out clamp_slippage_bps
slippage_tests = (refl, refl, refl)

fee_tests : (fee_amount 1000000 100 ≡ 10000) × (fee_amount 999 100 ≡ 9) × (fee_amount 1 1 ≡ 0)
unfolding fee_amount
fee_tests = (refl, refl, refl)

calculate_bounds_example :
    (calculate mint_fee 100 ≤ 2) × (300 ≤ 10000 → calculate mint_fee 100 ≤ 100)
calculate_bounds_example = calculate_bounds mint_fee mint_fee_fits 100 (omega arith)

after_fee_mono_example : 50 - calculate mint_fee 50 ≤ 100 - calculate mint_fee 100
after_fee_mono_example =
    after_fee_mono mint_fee mint_fee_fits 50 100 (omega arith) (omega arith) (omega arith)

inverse_value : calculate_inverse mint_fee 40 ≡ 2
unfolding calculate_inverse div_ceil
inverse_value = refl

inverse_covers_example :
    40 + calculate mint_fee (40 + calculate_inverse mint_fee 40)
    ≤ 40 + calculate_inverse mint_fee 40
inverse_covers_example = inverse_covers mint_fee mint_fee_fits 40 (omega (arith, inverse_value))

slippage_bounds_example :
    (1 ≤ apply_slippage_min_out 1000 500)
    × (apply_slippage_min_out 1000 500 ≤ 1000)
    × (1000 * (10000 - clamp_slippage_bps 500) < (apply_slippage_min_out 1000 500 + 1) * 10000)
    × (apply_slippage_min_out 1000 500 * 10000
        ≤ max (1000 * (10000 - clamp_slippage_bps 500)) 10000)
slippage_bounds_example = slippage_bounds 1000 500 (omega arith) (omega arith)

fee_amount-checked_fee_example : checked_fee 999 100 ≡ ok (fee_amount 999 100)
fee_amount-checked_fee_example = fee_amount-checked_fee 999 100 (omega arith) (omega arith)

compute_fee_bps-ceil_example : compute_fee_bps 12345 95 ≡ div_ceil (12345 * 95) 10000
compute_fee_bps-ceil_example = compute_fee_bps-ceil 12345 95 (omega arith) (omega arith)

abbrev amm_pool : RaydiumAmmV4Pool
amm_pool = record {
  amm = [];
  coin_mint = [];
  pc_mint = [];
  token_coin = [];
  token_pc = [];
  token_program = [];
  amm_open_orders = [];
  amm_target_orders = [];
  serum_program = [];
  serum_market = [];
  serum_bids = [];
  serum_asks = [];
  serum_event_queue = [];
  serum_coin_vault_account = [];
  serum_pc_vault_account = [];
  serum_vault_signer = [];
  coin_reserve = 1000000;
  pc_reserve = 2000000;
  trade_fee_numerator = 25;
  swap_fee_numerator = 25;
  swap_fee_denominator = 10000;
}

amm_pool_fits : AmmFits amm_pool
amm_pool_fits = record {
  coin_fits = omega arith;
  pc_fits = omega arith;
  numerator_fits = omega arith;
  denominator_fits = omega arith;
}

amm_run : raydium_amm_v4_out amm_pool 1000 true ≡ some 1992
unfolding raydium_amm_v4_out amm_reserves bail_if ◌>>=◌ div_ceil
amm_run = refl

amm_larger_run : raydium_amm_v4_out amm_pool 5000 true ≡ some 9924
unfolding raydium_amm_v4_out amm_reserves bail_if ◌>>=◌ div_ceil
amm_larger_run = refl

amm_exact_run : raydium_amm_v4_in_for_out amm_pool 1992 true ≡ some 1000
unfolding raydium_amm_v4_in_for_out raydium_amm_v4_out amm_reserves bail_if ◌>>=◌ div_ceil
amm_exact_run = refl

amm_out_sound_example :
    (1992 < (amm_reserves amm_pool true).1)
    × ((amm_reserves amm_pool true).0 * (amm_reserves amm_pool true).1
        ≤ ((amm_reserves amm_pool true).0 + 1000) * ((amm_reserves amm_pool true).1 - 1992))
amm_out_sound_example = amm_out_sound amm_pool amm_pool_fits true 1000 1992 amm_run

amm_out_mono_example : 1992 ≤ 9924
amm_out_mono_example =
    amm_out_mono amm_pool amm_pool_fits true 1000 5000 1992 9924 (omega arith) amm_run
      amm_larger_run

exact_out_least_example :
    ((out : ℕ) × (raydium_amm_v4_out amm_pool 1000 true ≡ some out) × (1992 ≤ out))
    × ((smaller less : ℕ)
        → smaller < 1000
        → raydium_amm_v4_out amm_pool smaller true ≡ some less
        → less < 1992)
exact_out_least_example = exact_out_least amm_pool amm_pool_fits true 1992 1000 amm_exact_run

abbrev cpmm_pool : CpmmPool
cpmm_pool = record {
  pool_state = [];
  amm_config = [];
  observation_state = [];
  base_mint = [];
  quote_mint = [];
  base_vault = [];
  quote_vault = [];
  base_token_program = [];
  quote_token_program = [];
  base_reserve = 1000000;
  quote_reserve = 2000000;
  fee_rates_known = true;
  trade_fee_rate = 2500;
  creator_fee_rate = 500;
  creator_fee_on = 2;
  enable_creator_fee = true;
  base_transfer_fee = mint_fee;
  quote_transfer_fee = no_fee;
}

cpmm_pool_fits : CpmmFits cpmm_pool
unfolding no_fee
cpmm_pool_fits = record {
  base_fits = omega arith;
  quote_fits = omega arith;
  base_fee_fits = mint_fee_fits;
  quote_fee_fits = record { points_fit = omega arith; maximum_fits = omega arith };
}

cpmm_run : cpmm_out cpmm_pool 1000 true ≡ some 1987
unfolding cpmm_out creator_fee_on_input cpmm_creator_rate cpmm_sides cpmm_curve cpmm_swapped
    cpmm_trade_fee no_fee calculate bail_if ◌>>=◌ div_ceil
cpmm_run = refl

cpmm_larger_run : cpmm_out cpmm_pool 5000 true ≡ some 9915
unfolding cpmm_out creator_fee_on_input cpmm_creator_rate cpmm_sides cpmm_curve cpmm_swapped
    cpmm_trade_fee no_fee calculate bail_if ◌>>=◌ div_ceil
cpmm_larger_run = refl

cpmm_out_sound_example :
    (1987 < (cpmm_sides cpmm_pool true).output_reserve)
    × ((cpmm_sides cpmm_pool true).input_reserve * (cpmm_sides cpmm_pool true).output_reserve
        ≤ ((cpmm_sides cpmm_pool true).input_reserve + 1000)
          * ((cpmm_sides cpmm_pool true).output_reserve - 1987))
cpmm_out_sound_example = cpmm_out_sound cpmm_pool cpmm_pool_fits true 1000 1987 cpmm_run

cpmm_out_mono_example : 1987 ≤ 9915
cpmm_out_mono_example =
    cpmm_out_mono cpmm_pool cpmm_pool_fits true 1000 5000 1987 9915 (omega arith) (omega arith)
      cpmm_run cpmm_larger_run
