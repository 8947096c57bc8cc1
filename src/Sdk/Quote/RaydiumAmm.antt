-- ===== src/Sdk/Quote/RaydiumAmm.antt =====
-- crates/sdk/src/quote.rs: Raydium AMM V4, with its pool of crates/sdk/src/market.rs.
pub mod Laws
use sol_trade_router_sdk.Base.{
  ℕ, ◌+◌, ◌-◌, ◌*◌, ◌/◌, ◌%◌, ◌^◌, min, Bool, ltb, leb, ◌==◌, ◌||◌, if◌then◌else◌, Option, none,
  some,
}
use sol_trade_router_sdk.Base.Bytes.{Bytes}
use sol_trade_router_sdk.Base.Words.{max_u64, max_u128, saturate, checked_to, div_ceil}
use sol_trade_router_sdk.Sdk.Fallible.{bail_if, ◌>>=◌, ◌>>◌}

pub record RaydiumAmmV4Pool : Type 0 where
  pub amm : Bytes
  pub coin_mint : Bytes
  pub pc_mint : Bytes
  pub token_coin : Bytes
  pub token_pc : Bytes
  pub token_program : Bytes
  pub amm_open_orders : Bytes
  pub amm_target_orders : Bytes
  pub serum_program : Bytes
  pub serum_market : Bytes
  pub serum_bids : Bytes
  pub serum_asks : Bytes
  pub serum_event_queue : Bytes
  pub serum_coin_vault_account : Bytes
  pub serum_pc_vault_account : Bytes
  pub serum_vault_signer : Bytes
  pub coin_reserve : ℕ
  pub pc_reserve : ℕ
  pub trade_fee_numerator : ℕ
  pub swap_fee_numerator : ℕ
  pub swap_fee_denominator : ℕ

-- `(input_reserve, output_reserve)`, the same match in both functions
unfoldable pub amm_reserves : RaydiumAmmV4Pool → Bool → ℕ × ℕ
amm_reserves pool input_is_coin =
    if input_is_coin
    then (pool.coin_reserve, pool.pc_reserve)
    else (pool.pc_reserve, pool.coin_reserve)

unfoldable pub raydium_amm_v4_out : RaydiumAmmV4Pool → ℕ → Bool → Option ℕ
raydium_amm_v4_out pool amount_in input_is_coin =
    let (input_reserve, output_reserve) = amm_reserves pool input_is_coin in
    let fee_num = pool.swap_fee_numerator in
    let fee_den = pool.swap_fee_denominator in
    bail_if (amount_in == 0)
    >> bail_if (input_reserve == 0 || output_reserve == 0)
    >> bail_if (fee_den == 0 || leb fee_den fee_num)
    >> bail_if (ltb max_u64 (input_reserve + amount_in))
    >> (let trade_fee = div_ceil (amount_in * fee_num) fee_den % 2 ^ 64 in
        let net_in = amount_in - trade_fee in
        let swapped =
          saturate max_u128 (output_reserve * net_in)
          / saturate max_u128 (input_reserve + net_in) in
        some (min swapped max_u64))

unfoldable pub raydium_amm_v4_in_for_out : RaydiumAmmV4Pool → ℕ → Bool → Option ℕ
raydium_amm_v4_in_for_out pool amount_out input_is_coin =
    let (input_reserve, output_reserve) = amm_reserves pool input_is_coin in
    let trade_num = pool.swap_fee_numerator in
    let fee_den = pool.swap_fee_denominator in
    bail_if (amount_out == 0)
    >> bail_if (input_reserve == 0 || output_reserve == 0)
    >> bail_if (leb output_reserve amount_out)
    >> bail_if (fee_den == 0 || leb fee_den trade_num)
    >> (checked_to max_u64
          (div_ceil (saturate max_u128 (amount_out * input_reserve)) (output_reserve - amount_out))
        >>= λ net_in.
            checked_to max_u64 (div_ceil (net_in * fee_den) (fee_den - trade_num)) >>= λ amount_in.
            raydium_amm_v4_out pool amount_in input_is_coin >>= λ reached.
            bail_if (ltb reached amount_out) >> some amount_in)
