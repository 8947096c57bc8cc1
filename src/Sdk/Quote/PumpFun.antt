-- ===== src/Sdk/Quote/PumpFun.antt =====
-- crates/sdk/src/quote.rs: the PumpFun bonding curve, with its pool of crates/sdk/src/market.rs.
pub mod Laws
use sol_trade_router_sdk.Base.{
  ℕ, ◌+◌, ◌-◌, ◌*◌, ◌/◌, min, Bool, not, ltb, leb, ◌==◌, ◌||◌, if◌then◌else◌, Option, none, some,
}
use sol_trade_router_sdk.Base.Bytes.{Bytes}
use sol_trade_router_sdk.Base.Words.{max_u64, checked_sub, checked_to}
use sol_trade_router_sdk.Sdk.Fallible.{bail_if, ◌>>=◌, ◌>>◌}
use sol_trade_router_sdk.Sdk.Quote.Amount.{compute_fee_bps}

pub record PumpFunPool : Type 0 where
  pub mint : Bytes
  pub mint_token_program : Bytes
  pub quote_mint : Bytes
  pub quote_token_program : Bytes
  pub use_v2 : Bool
  pub bonding_curve : Bytes
  pub associated_bonding_curve : Bytes
  pub creator_vault : Bytes
  pub fee_recipient : Bytes
  pub buyback_fee_recipient : Bytes
  pub global : Bytes
  pub event_authority : Bytes
  pub global_volume_accumulator : Bytes
  pub user_volume_accumulator : Bytes
  pub fee_config : Bytes
  pub fee_program : Bytes
  pub bonding_curve_v2 : Bytes
  pub protocol_fee_recipient : Bytes
  pub virtual_token_reserves : ℕ
  pub virtual_sol_reserves : ℕ
  pub real_token_reserves : ℕ
  pub protocol_fee_bps : ℕ
  pub creator_fee_bps : ℕ
  pub fee_rates_known : Bool
  pub has_creator : Bool
  pub is_cashback_coin : Bool

unfoldable pub pumpfun_total_fee_bps : Bool → ℕ
pumpfun_total_fee_bps has_creator = 95 + (if has_creator then 30 else 0)

unfoldable pub pumpfun_rates : PumpFunPool → Option (ℕ × ℕ)
pumpfun_rates pool =
    let protocol = pool.protocol_fee_bps in
    let creator = if pool.has_creator then pool.creator_fee_bps else 0 in
    bail_if (not pool.fee_rates_known)
    >> bail_if (leb 10000 (protocol + creator))
    >> some (protocol, creator)

-- The input net of both fees: the inverse of the total rate, corrected by what the split rounding
-- takes beyond the input.
unfoldable pub pumpfun_net : ℕ → ℕ → ℕ → Option ℕ
pumpfun_net quote_in protocol creator =
    let net = quote_in * 10000 / (10000 + protocol + creator) in
    let total = net + compute_fee_bps net protocol + compute_fee_bps net creator in
    if ltb quote_in total then checked_sub net (total - quote_in) else some net

unfoldable pub pumpfun_buy_token_out : PumpFunPool → ℕ → Option ℕ
pumpfun_buy_token_out pool quote_in = pumpfun_rates pool >>= λ rates.
    let (protocol, creator) = rates in
    bail_if (quote_in == 0 || pool.virtual_token_reserves == 0 || pool.virtual_sol_reserves == 0)
    >> (pumpfun_net quote_in protocol creator >>= λ net. checked_sub net 1 >>= λ curve_in.
        let quoted =
          curve_in * pool.virtual_token_reserves / (pool.virtual_sol_reserves + curve_in) in
        let tokens = min quoted pool.real_token_reserves in bail_if (tokens == 0) >> some tokens)

unfoldable pub pumpfun_sell_sol_out : PumpFunPool → ℕ → Option ℕ
pumpfun_sell_sol_out pool token_in = pumpfun_rates pool >>= λ rates.
    let (protocol, creator) = rates in
    let gross = token_in * pool.virtual_sol_reserves / (pool.virtual_token_reserves + token_in) in
    let fees = compute_fee_bps gross protocol + compute_fee_bps gross creator in
    bail_if (token_in == 0 || pool.virtual_token_reserves == 0 || pool.virtual_sol_reserves == 0)
    >> (checked_sub gross fees >>= λ out. checked_to max_u64 out)
