-- ===== src/Sdk/Quote/Cpmm.antt =====
-- crates/sdk/src/quote.rs: Raydium CPMM, with its pool of crates/sdk/src/market.rs.
pub mod Facts
pub mod Laws
pub mod Search
pub mod Inverse
pub mod SearchLaws
pub mod InverseLaws
use sol_trade_router_sdk.Base.{
  ℕ, ◌+◌, ◌-◌, ◌*◌, ◌/◌, ◌%◌, ◌^◌, Bool, true, false, not, ltb, leb, ◌==◌, ◌||◌, if◌then◌else◌,
  Option, none, some,
}
use sol_trade_router_sdk.Base.Bytes.{Bytes}
use sol_trade_router_sdk.Base.Words.{max_u64, max_u128, saturate, checked_sub}
use sol_trade_router_sdk.Sdk.Fallible.{bail_if, ◌>>=◌, ◌>>◌}
use sol_trade_router_sdk.Sdk.TransferFee.{TokenTransferFee, calculate}
use sol_trade_router_sdk.Sdk.Quote.Amount.{fee_denom, cpmm_trade_fee}

pub record CpmmPool : Type 0 where
  pub pool_state : Bytes
  pub amm_config : Bytes
  pub observation_state : Bytes
  pub base_mint : Bytes
  pub quote_mint : Bytes
  pub base_vault : Bytes
  pub quote_vault : Bytes
  pub base_token_program : Bytes
  pub quote_token_program : Bytes
  pub base_reserve : ℕ
  pub quote_reserve : ℕ
  pub fee_rates_known : Bool
  pub trade_fee_rate : ℕ
  pub creator_fee_rate : ℕ
  pub creator_fee_on : ℕ
  pub enable_creator_fee : Bool
  pub base_transfer_fee : TokenTransferFee
  pub quote_transfer_fee : TokenTransferFee

unfoldable pub creator_fee_on_input : CpmmPool → Bool → Option Bool
creator_fee_on_input pool input_is_base =
    if not pool.enable_creator_fee || pool.creator_fee_rate == 0
    then some true
    else if pool.creator_fee_on == 0
    then some true
    else if pool.creator_fee_on == 1
    then some input_is_base
    else if pool.creator_fee_on == 2
    then some (not input_is_base)
    else none

unfoldable pub cpmm_creator_rate : CpmmPool → ℕ
cpmm_creator_rate pool = if pool.enable_creator_fee then pool.creator_fee_rate else 0

-- The four values that the direction selects.
pub record CpmmSides : Type 0 where
  pub input_reserve : ℕ
  pub output_reserve : ℕ
  pub in_fee : TokenTransferFee
  pub out_fee : TokenTransferFee

unfoldable pub cpmm_sides : CpmmPool → Bool → CpmmSides
cpmm_sides pool true = record {
  input_reserve = pool.base_reserve;
  output_reserve = pool.quote_reserve;
  in_fee = pool.base_transfer_fee;
  out_fee = pool.quote_transfer_fee;
}
cpmm_sides pool false = record {
  input_reserve = pool.quote_reserve;
  output_reserve = pool.base_reserve;
  in_fee = pool.quote_transfer_fee;
  out_fee = pool.base_transfer_fee;
}

-- `output_reserve * input_less / (input_reserve + input_less)`, as both branches write it
unfoldable pub cpmm_curve : ℕ → ℕ → ℕ → ℕ
cpmm_curve input_reserve output_reserve input_less =
    saturate max_u128 (output_reserve * input_less)
    / saturate max_u128 (input_reserve + input_less)
    % 2 ^ 64

-- The curve's output less the creator's fee, that is taken from the input or from the output.
unfoldable pub cpmm_swapped : CpmmPool → CpmmSides → ℕ → Bool → ℕ
cpmm_swapped pool sides actual_in true =
    let total_rate = saturate max_u64 (pool.trade_fee_rate + cpmm_creator_rate pool) in
    let total_fee = cpmm_trade_fee actual_in total_rate in
    cpmm_curve sides.input_reserve sides.output_reserve (actual_in - total_fee)
cpmm_swapped pool sides actual_in false =
    let trade_fee = cpmm_trade_fee actual_in pool.trade_fee_rate in
    let out_swapped = cpmm_curve sides.input_reserve sides.output_reserve (actual_in - trade_fee) in
    out_swapped - cpmm_trade_fee out_swapped (cpmm_creator_rate pool)

unfoldable pub cpmm_out : CpmmPool → ℕ → Bool → Option ℕ
cpmm_out pool amount_in input_is_base =
    let sides = cpmm_sides pool input_is_base in
    bail_if (not pool.fee_rates_known)
    >> bail_if (
        leb fee_denom (pool.trade_fee_rate + cpmm_creator_rate pool)
        || ltb 10000 pool.base_transfer_fee.basis_points
        || ltb 10000 pool.quote_transfer_fee.basis_points)
    >> bail_if (amount_in == 0)
    >> bail_if (sides.input_reserve == 0 || sides.output_reserve == 0)
    >> (checked_sub amount_in (calculate sides.in_fee amount_in) >>= λ actual_in.
        bail_if (ltb max_u64 (sides.input_reserve + actual_in))
        >> (creator_fee_on_input pool input_is_base >>= λ on_input.
            let output_swapped = cpmm_swapped pool sides actual_in on_input in
            some (output_swapped - calculate sides.out_fee output_swapped)))
