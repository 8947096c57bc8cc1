-- ===== src/Sdk/TransferFee.antt =====
-- crates/sdk/src/transfer_fee.rs: the Token-2022 transfer fee.
pub mod Laws
use sol_trade_router_sdk.Base.{ℕ, ◌+◌, ◌-◌, ◌*◌, ◌≤◌, min, Bool, ◌||◌, leb, ◌==◌, if◌then◌else◌}
use sol_trade_router_sdk.Base.Words.{IsU64, max_u128, saturate, div_ceil}

pub record TokenTransferFee : Type 0 where
  pub basis_points : ℕ
  pub maximum_fee : ℕ

unfoldable pub no_fee : TokenTransferFee
no_fee = record { basis_points = 0; maximum_fee = 0 }

unfoldable pub calculate : TokenTransferFee → ℕ → ℕ
calculate fee amount =
    if fee.basis_points == 0 || amount == 0 || fee.maximum_fee == 0
    then 0
    else let numerator = saturate max_u128 (amount * fee.basis_points) in
      min (div_ceil numerator 10000) fee.maximum_fee

-- The fee to add so that the recipient receives `post_fee_amount`.
unfoldable pub calculate_inverse : TokenTransferFee → ℕ → ℕ
calculate_inverse fee post_fee_amount =
    if fee.basis_points == 0 || post_fee_amount == 0 || fee.maximum_fee == 0
    then 0
    else if leb 10000 fee.basis_points
    then fee.maximum_fee
    else let numerator = saturate max_u128 (post_fee_amount * fee.basis_points) in
      min (div_ceil numerator (10000 - fee.basis_points)) fee.maximum_fee

-- The fields fit their Rust types, `u16` and `u64`.
pub record FeeFits (fee : TokenTransferFee) : Type 0 where
  pub points_fit : fee.basis_points ≤ 65535
  pub maximum_fits : IsU64 fee.maximum_fee
