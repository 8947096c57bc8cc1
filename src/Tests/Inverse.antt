-- ===== src/Tests/Inverse.antt =====
-- The exact-out inverse of the CPMM quote: the numbers of the source's unit tests, and its theorem.
use sol_trade_router_sdk.Base.{ℕ, ◌<◌, ◌≡◌, ◌⊎◌, ◌^◌, ◌-◌, ◌*◌, refl, true, false, some, [], arith}
use sol_trade_router_sdk.Base.Words.{IsU64, div_ceil}
use sol_trade_router_sdk.Sdk.Fallible.{bail_if, ◌>>=◌}
use sol_trade_router_sdk.Sdk.TransferFee.{no_fee, calculate}
use sol_trade_router_sdk.Sdk.Quote.Amount.{cpmm_trade_fee}
use sol_trade_router_sdk.Sdk.Quote.Cpmm.{
  CpmmPool, creator_fee_on_input, cpmm_creator_rate, cpmm_sides, cpmm_curve, cpmm_swapped, cpmm_out,
}
use sol_trade_router_sdk.Sdk.Quote.Cpmm.Facts.{CpmmFits}
use sol_trade_router_sdk.Sdk.Quote.Cpmm.Search.{found, failed, highest_loop, grow_loop, lowest_loop}
use sol_trade_router_sdk.Sdk.Quote.Cpmm.Inverse.{search_from, cpmm_in_for_out}
use sol_trade_router_sdk.Sdk.Quote.Cpmm.InverseLaws.{Least, cpmm_in_for_out_decides}

-- a reserve that fills half of the token vault
abbrev pub large : CpmmPool
large = record {
  pool_state = [];
  amm_config = [];
  observation_state = [];
  base_mint = [];
  quote_mint = [];
  base_vault = [];
  quote_vault = [];
  base_token_program = [];
  quote_token_program = [];
  base_reserve = 2 ^ 63 - 1;
  quote_reserve = 1000000;
  fee_rates_known = true;
  trade_fee_rate = 0;
  creator_fee_rate = 0;
  creator_fee_on = 0;
  enable_creator_fee = false;
  base_transfer_fee = no_fee;
  quote_transfer_fee = no_fee;
}

inverse_runs :
    (cpmm_in_for_out large 400000 true ≡ found (div_ceil ((2 ^ 63 - 1) * 400000) 600000))
    × (cpmm_in_for_out large 600000 true ≡ failed)
    × (cpmm_in_for_out large 999999 true ≡ failed)
unfolding cpmm_in_for_out search_from highest_loop grow_loop lowest_loop cpmm_out
    creator_fee_on_input cpmm_creator_rate cpmm_sides cpmm_curve cpmm_swapped cpmm_trade_fee no_fee
    calculate bail_if ◌>>=◌ div_ceil
inverse_runs = (refl, refl, refl)

large_fits : CpmmFits large
unfolding no_fee
large_fits = record {
  base_fits = omega arith;
  quote_fits = omega arith;
  base_fee_fits = record { points_fit = omega arith; maximum_fits = omega arith };
  quote_fee_fits = record { points_fit = omega arith; maximum_fits = omega arith };
}

cpmm_in_for_out_decides_example :
    ((cpmm_in_for_out large 400000 true ≡ failed)
      × ((n out : ℕ) → IsU64 n → cpmm_out large n true ≡ some out → out < 400000))
    ⊎ ((amount_in : ℕ) × (cpmm_in_for_out large 400000 true ≡ found amount_in)
        × IsU64 amount_in
        × Least large large_fits true 400000 amount_in)
cpmm_in_for_out_decides_example = cpmm_in_for_out_decides large large_fits true 400000 (omega arith)
