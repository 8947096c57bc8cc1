-- ===== src/Tests/Checks.antt =====
-- The theorems on the helpers of the route, at concrete inputs.
use sol_trade_router_sdk.Base.{ℕ, ◌+◌, ◌*◌, ◌/◌, ◌≤◌, ◌<◌, ◌≡◌, ◌↔◌, refl, true, false, ◌++◌, arith}
use sol_trade_router_sdk.Base.Bytes.{Bytes, bytes_eq, zeros}
use sol_trade_router_sdk.Base.Words.{max_u64}
use sol_trade_router_sdk.Program.Error.{
  ok, fail, RouterError, ◌>>=◌, reject_if, ok_or, index, and_then,
}
use sol_trade_router_sdk.Program.Route.Layout.{
  DynamicSecondLeg, dynamic_second_leg, is_launchlab_buy, is_cpmm_swap, raydium_cpmm_program_id,
  cpmm_swap_base_in,
}
use sol_trade_router_sdk.Program.Route.Checks.{
  checked_fee, validate_spend, received_quote, patch_second_leg_amount,
}
use sol_trade_router_sdk.Program.Route.Amounts.{
  SpendOk, checked_fee_exact, checked_fee_capped, validate_spend_iff, received_quote_iff,
}
use sol_trade_router_sdk.Program.Route.Fits.{Fits, dynamic_second_leg-Fits}
use sol_trade_router_sdk.Program.Route.Patch.{IsPatched, patch_second_leg_amount-IsPatched}

-- the numbers of the source's unit tests
spend_tests :
    (validate_spend 20000 10000 10000 100 false ≡ ok tt)
    × (validate_spend 20000 9999 10000 100 false ≡ fail RouterError.fee_source_mismatch)
    × (validate_spend 20000 19900 10000 100 true ≡ ok tt)
    × (validate_spend 20000 19901 10000 100 true ≡ fail RouterError.fee_source_mismatch)
unfolding validate_spend ok_or reject_if ◌>>=◌
spend_tests = (refl, refl, refl, refl)

received_tests :
    (received_quote 9000 9375 300 ≡ ok 375)
    × (received_quote 9000 9299 300 ≡ fail RouterError.slippage_exceeded)
    × (received_quote 9000 8999 1 ≡ fail RouterError.invalid_intermediate_account)
unfolding received_quote ok_or reject_if ◌>>=◌
received_tests = (refl, refl, refl)

checked_fee_exact_example :
    (10000 * 100 / 10000 ≤ max_u64 → checked_fee 10000 100 ≡ ok (10000 * 100 / 10000))
    × (max_u64 < 10000 * 100 / 10000 → checked_fee 10000 100 ≡ fail RouterError.arithmetic_overflow)
checked_fee_exact_example = checked_fee_exact 10000 100

checked_fee_capped_example : (fee : ℕ) × (checked_fee 10000 1000 ≡ ok fee) × (fee * 10 ≤ 10000)
checked_fee_capped_example = checked_fee_capped 10000 1000 (omega arith) (omega arith)

validate_spend_iff_example :
    (validate_spend 20000 19900 10000 100 true ≡ ok tt) ↔ SpendOk 20000 19900 10000 100 true
validate_spend_iff_example = validate_spend_iff 20000 19900 10000 100 true

received_quote_iff_example :
    (received_quote 9000 9375 300 ≡ ok 375) ↔ ((9375 ≡ 9000 + 375) × (300 ≤ 375))
received_quote_iff_example = received_quote_iff 9000 9375 300 375

abbrev swap_data : Bytes
swap_data = cpmm_swap_base_in ++ zeros 16

abbrev cpmm_layout : DynamicSecondLeg
cpmm_layout = record {
  input_account = 4;
  output_account = 5;
  signer = 0;
  amount_offset = 8;
  input_mint = 10;
  input_program = 8;
  output_mint = 11;
  output_program = 9;
  paired_mints = false;
}

swap_accepted : dynamic_second_leg raydium_cpmm_program_id swap_data ≡ ok cpmm_layout
unfolding dynamic_second_leg is_launchlab_buy is_cpmm_swap bytes_eq and_then index ◌>>=◌
swap_accepted = refl

dynamic_second_leg-Fits_example : Fits cpmm_layout swap_data
dynamic_second_leg-Fits_example =
    dynamic_second_leg-Fits raydium_cpmm_program_id swap_data cpmm_layout swap_accepted

patch_second_leg_amount-IsPatched_example :
    (out : Bytes) × (patch_second_leg_amount swap_data 375 8 ≡ ok out)
    × IsPatched swap_data 375 8 out
patch_second_leg_amount-IsPatched_example =
    patch_second_leg_amount-IsPatched swap_data 375 8 (omega arith) (omega arith) (omega arith)
