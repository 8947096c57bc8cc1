-- ===== src/Sdk/Quote/PumpSwap.antt =====
-- crates/sdk/src/quote.rs: PumpSwap, with its pool of crates/sdk/src/market.rs.
pub mod Laws
use sol_trade_router_sdk.Base.{
  ℕ, ◌+◌, ◌-◌, ◌*◌, ◌/◌, ◌^◌, min, Bool, ltb, leb, ◌==◌, ◌||◌, if◌then◌else◌, Option, none, some,
}
use sol_trade_router_sdk.Base.Bytes.{Bytes}
use sol_trade_router_sdk.Base.Words.{max_u64, max_u128, saturate, checked_sub, checked_to}
use sol_trade_router_sdk.Sdk.Fallible.{bail_if, ◌>>=◌, ◌>>◌}
use sol_trade_router_sdk.Sdk.Quote.Amount.{compute_fee_bps}

-- `i128`: `pos n` is `n`, and `negsuc n` is `-(n + 1)`.
pub data ℤ : Type 0 where
  pos : ℕ → ℤ
  negsuc : ℕ → ℤ

pub record PumpSwapPool : Type 0 where
  pub pool : Bytes
  pub base_mint : Bytes
  pub quote_mint : Bytes
  pub pool_base_token_account : Bytes
  pub pool_quote_token_account : Bytes
  pub base_token_program : Bytes
  pub quote_token_program : Bytes
  pub coin_creator_vault_ata : Bytes
  pub coin_creator_vault_authority : Bytes
  pub coin_creator : Bytes
  pub base_reserve : ℕ
  pub quote_reserve : ℕ
  pub virtual_quote_reserves : ℤ
  pub quote_fee_reserves : Option ℕ
  pub lp_fee_bps : ℕ
  pub protocol_fee_bps : ℕ
  pub creator_fee_bps : ℕ
  pub is_cashback_coin : Bool
  pub protocol_fee_recipient : Bytes
  pub buyback_fee_recipient : Bytes

abbrev pub max_i128 : ℕ
max_i128 = 2 ^ 127 - 1

-- `(n as i128).checked_add(z)`, and `u64::try_from` of the sum: a negative sum has no `u64`.
unfoldable pub add_signed : ℕ → ℤ → Option ℕ
add_signed n (pos m) = checked_to max_i128 (n + m) >>= λ sum. checked_to max_u64 sum
add_signed n (negsuc m) = checked_sub n (m + 1) >>= λ sum. checked_to max_u64 sum

unfoldable pub pumpswap_effective_quote : PumpSwapPool → Option ℕ
pumpswap_effective_quote pool =
    add_signed pool.quote_reserve pool.virtual_quote_reserves >>= λ reserve.
    bail_if (reserve == 0) >> some reserve

-- `total.saturating_add(…)` of the three fees on an amount
unfoldable pub pumpswap_add_fees : PumpSwapPool → ℕ → ℕ → ℕ
pumpswap_add_fees pool start amount = saturate max_u128 (
    saturate max_u128 (
      saturate max_u128 (start + compute_fee_bps amount pool.lp_fee_bps)
      + compute_fee_bps amount pool.protocol_fee_bps)
    + compute_fee_bps amount pool.creator_fee_bps)

-- The input net of the three fees, before the one unit that the curve drops.
unfoldable pub pumpswap_net : PumpSwapPool → ℕ → Option ℕ
pumpswap_net pool quote_in =
    checked_to max_u64 (pool.lp_fee_bps + pool.protocol_fee_bps) >>= λ two_fees.
    checked_to max_u64 (two_fees + pool.creator_fee_bps) >>= λ total_fee_bps.
    checked_to max_u64 (10000 + total_fee_bps) >>= λ denominator.
    let effective_in = saturate max_u128 (quote_in * 10000) / denominator in
    let total_with_fees = pumpswap_add_fees pool effective_in effective_in in
    some (
      if ltb quote_in total_with_fees
      then effective_in - (total_with_fees - quote_in)
      else effective_in)

unfoldable pub pumpswap_buy_base_out : PumpSwapPool → ℕ → Option ℕ
pumpswap_buy_base_out pool quote_in =
    bail_if (quote_in == 0 || pool.base_reserve == 0 || pool.quote_reserve == 0)
    >> (pumpswap_net pool quote_in >>= λ effective_in. checked_sub effective_in 1 >>= λ curve_in.
        pumpswap_effective_quote pool >>= λ effective_quote.
        let out =
          saturate max_u128 (pool.base_reserve * curve_in)
          / saturate max_u128 (effective_quote + curve_in) in
        some (min out max_u64))

unfoldable pub pumpswap_sell_quote_out : PumpSwapPool → ℕ → Option ℕ
pumpswap_sell_quote_out pool base_in =
    bail_if (base_in == 0 || pool.base_reserve == 0 || pool.quote_reserve == 0)
    >> (pool.quote_fee_reserves >>= λ reserved.
        checked_sub pool.quote_reserve reserved >>= λ real_quote.
        pumpswap_effective_quote pool >>= λ effective_quote.
        let gross =
          saturate max_u128 (effective_quote * base_in)
          / saturate max_u128 (pool.base_reserve + base_in) in
        let fees = pumpswap_add_fees pool 0 gross in
        checked_sub gross fees >>= λ left. checked_to max_u64 left >>= λ out.
        bail_if (ltb real_quote (gross - compute_fee_bps gross pool.lp_fee_bps)) >> some out)
