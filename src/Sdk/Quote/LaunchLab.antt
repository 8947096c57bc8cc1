-- ===== src/Sdk/Quote/LaunchLab.antt =====
-- crates/sdk/src/quote.rs: the LaunchLab curve, with its pool of crates/sdk/src/market.rs.
pub mod Laws
use sol_trade_router_sdk.Base.{
  ℕ, ◌+◌, ◌-◌, ◌*◌, ◌/◌, min, Bool, not, ltb, leb, ◌==◌, ◌||◌, if◌then◌else◌, Option, none, some,
}
use sol_trade_router_sdk.Base.Bytes.{Bytes}
use sol_trade_router_sdk.Base.Words.{max_u64, max_u128, saturate, checked_sub, checked_to, div_ceil}
use sol_trade_router_sdk.Sdk.Fallible.{bail_if, ◌>>=◌, ◌>>◌}
use sol_trade_router_sdk.Sdk.TransferFee.{TokenTransferFee, calculate, calculate_inverse}
use sol_trade_router_sdk.Sdk.Quote.Amount.{fee_denom, fee_ceil}

pub record LaunchLabPool : Type 0 where
  pub base_mint : Bytes
  pub quote_mint : Bytes
  pub base_token_program : Bytes
  pub quote_token_program : Bytes
  pub pool_state : Bytes
  pub base_vault : Bytes
  pub quote_vault : Bytes
  pub platform_config : Bytes
  pub platform_associated_account : Bytes
  pub creator_associated_account : Bytes
  pub global_config : Bytes
  pub virtual_base : ℕ
  pub virtual_quote : ℕ
  pub real_base : ℕ
  pub real_quote : ℕ
  pub total_base_sell : ℕ
  pub curve_type : ℕ
  pub fee_rates_known : Bool
  pub trade_fee_rate : ℕ
  pub platform_fee_rate : ℕ
  pub creator_fee_rate : ℕ
  pub base_transfer_fee : TokenTransferFee
  pub quote_transfer_fee : TokenTransferFee

pub record LaunchLabBuyQuote : Type 0 where
  pub amount_in : ℕ
  pub amount_out : ℕ

-- The four rates are `u64`, so their sum fits `u128` without saturation.
unfoldable pub launchlab_total_fee_rate : LaunchLabPool → ℕ → Option ℕ
launchlab_total_fee_rate pool share_fee_rate =
    let rate =
      pool.trade_fee_rate + pool.platform_fee_rate + pool.creator_fee_rate + share_fee_rate in
    bail_if (not pool.fee_rates_known) >> bail_if (ltb fee_denom rate) >> some rate

unfoldable pub pre_fee_amount : ℕ → ℕ → Option ℕ
pre_fee_amount post_fee fee_rate = checked_sub fee_denom fee_rate >>= λ denom.
    bail_if (denom == 0) >> some (div_ceil (saturate max_u128 (post_fee * fee_denom)) denom)

-- The input of a buy that takes the rest of the sale.
unfoldable pub graduation_input : LaunchLabPool → ℕ → ℕ → ℕ → ℕ → ℕ → Option ℕ
graduation_input pool amount_in total_fee_rate input_reserve output_reserve remaining =
    checked_sub output_reserve remaining >>= λ output_after.
    bail_if (output_after == 0)
    >> (checked_to max_u128 (input_reserve * remaining) >>= λ product.
        pre_fee_amount (div_ceil product output_after) total_fee_rate >>= λ wide.
        checked_to max_u64 wide >>= λ required_vault.
        checked_to max_u64
          (required_vault + calculate_inverse pool.quote_transfer_fee required_vault)
        >>= λ actual. some (min actual amount_in))

-- `(actual_in, gross_out)`
unfoldable pub launchlab_clamp : LaunchLabPool → ℕ → ℕ → ℕ → ℕ → ℕ → Option (ℕ × ℕ)
launchlab_clamp pool amount_in total_fee_rate input_reserve output_reserve quoted_output =
    if pool.total_base_sell == 0
    then some (amount_in, quoted_output)
    else checked_sub pool.total_base_sell pool.real_base >>= λ remaining.
        if leb quoted_output remaining
        then some (amount_in, quoted_output)
        else graduation_input pool amount_in total_fee_rate input_reserve output_reserve remaining
          >>= λ actual_in. some (actual_in, remaining)

unfoldable pub launchlab_buy_quote : LaunchLabPool → ℕ → ℕ → Option LaunchLabBuyQuote
launchlab_buy_quote pool amount_in share_fee_rate =
    bail_if (amount_in == 0)
    >> bail_if (not (pool.curve_type == 0))
    >> (launchlab_total_fee_rate pool share_fee_rate >>= λ total_fee_rate.
        checked_sub amount_in (calculate pool.quote_transfer_fee amount_in) >>= λ vault_input.
        checked_sub vault_input (fee_ceil vault_input total_fee_rate) >>= λ curve_input.
        checked_to max_u128 (pool.virtual_quote + pool.real_quote) >>= λ input_reserve.
        checked_sub pool.virtual_base pool.real_base >>= λ output_reserve.
        bail_if (input_reserve == 0 || output_reserve == 0)
        >> (checked_to max_u128 (input_reserve + curve_input) >>= λ denominator.
            checked_to max_u128 (curve_input * output_reserve) >>= λ product.
            launchlab_clamp pool amount_in total_fee_rate input_reserve output_reserve
              (product / denominator)
            >>= λ clamped.
                let (actual_in, wide_out) = clamped in
                checked_to max_u64 wide_out >>= λ gross_out.
                let received = gross_out - calculate pool.base_transfer_fee gross_out in
                some (record { amount_in = actual_in; amount_out = received })))

unfoldable pub launchlab_buy_base_out : LaunchLabPool → ℕ → Option ℕ
launchlab_buy_base_out pool quote_in =
    launchlab_buy_quote pool quote_in 0 >>= λ quote. some quote.amount_out

unfoldable pub launchlab_sell_quote_out : LaunchLabPool → ℕ → Option ℕ
launchlab_sell_quote_out pool base_in =
    bail_if (base_in == 0)
    >> bail_if (not (pool.curve_type == 0))
    >> (checked_sub base_in (calculate pool.base_transfer_fee base_in) >>= λ curve_input.
        bail_if (ltb pool.real_base curve_input)
        >> (checked_sub pool.virtual_base pool.real_base >>= λ input_reserve.
            checked_to max_u128 (pool.virtual_quote + pool.real_quote) >>= λ output_reserve.
            bail_if (input_reserve == 0)
            >> (checked_to max_u128 (input_reserve + curve_input) >>= λ denominator.
                checked_to max_u128 (curve_input * output_reserve) >>= λ product.
                let gross = product / denominator in
                bail_if (ltb pool.real_quote gross)
                >> (launchlab_total_fee_rate pool 0 >>= λ total_fee_rate.
                    checked_sub gross (fee_ceil gross total_fee_rate) >>= λ wide.
                    checked_to max_u64 wide >>= λ vault_out.
                    some (vault_out - calculate pool.quote_transfer_fee vault_out)))))
