-- ===== src/Sdk/Quote/Amount.antt =====
-- crates/sdk/src/quote.rs: slippage, the router's fee and the rounding of the markets' fees.
pub mod Laws
use sol_trade_router_sdk.Base.{
  ℕ, ◌+◌, ◌-◌, ◌*◌, ◌/◌, ◌%◌, ◌^◌, min, max, ltb, ◌==◌, if◌then◌else◌, Option, none, some,
}
use sol_trade_router_sdk.Base.Words.{max_u64, max_u128, saturate, checked_to, div_ceil}
use sol_trade_router_sdk.Sdk.Fallible.{bail_if}

abbrev pub max_slippage_bps : ℕ
max_slippage_bps = 9999

abbrev pub fee_denom : ℕ
fee_denom = 1000000

unfoldable pub validate_router_fee_bps : ℕ → Option (Unit {0})
validate_router_fee_bps fee_bps = bail_if (ltb 1000 fee_bps)

unfoldable pub clamp_slippage_bps : ℕ → ℕ
clamp_slippage_bps slippage_bps = min slippage_bps max_slippage_bps

unfoldable pub apply_slippage_min_out : ℕ → ℕ → ℕ
apply_slippage_min_out amount slippage_bps =
    let slip = clamp_slippage_bps slippage_bps in
    let out = saturate max_u128 (amount * (10000 - slip)) / 10000 in
    let out_u64 = min out max_u64 in if amount == 0 then 0 else max out_u64 1

unfoldable pub fee_amount : ℕ → ℕ → ℕ
fee_amount amount fee_bps = min (saturate max_u128 (amount * fee_bps) / 10000) max_u64

unfoldable pub fee_ceil : ℕ → ℕ → ℕ
fee_ceil amount rate = div_ceil (saturate max_u128 (amount * rate)) fee_denom

-- A product that overflows is `u128::MAX`; the whole and the rest are rounded apart.
unfoldable pub compute_fee_bps : ℕ → ℕ → ℕ
compute_fee_bps amount fee_basis_points =
    elim (checked_to max_u128 (amount / 10000 * fee_basis_points)) [
      | none ↦ max_u128
      | some whole ↦ elim (checked_to max_u128 (amount % 10000 * fee_basis_points)) [
        | none ↦ max_u128
        | some rem ↦
            let rem_ceil = if rem % 10000 == 0 then rem / 10000 else rem / 10000 + 1 in
            saturate max_u128 (whole + rem_ceil)
      ]
    ]

-- The arguments are `u64`, so the sum before the division fits `u128`.
unfoldable pub cpmm_trade_fee : ℕ → ℕ → ℕ
cpmm_trade_fee amount fee_rate =
    let numerator = saturate max_u128 (amount * fee_rate) in
    (numerator + fee_denom - 1) / fee_denom % 2 ^ 64
