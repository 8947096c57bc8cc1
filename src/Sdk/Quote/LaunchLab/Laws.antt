-- ===== src/Sdk/Quote/LaunchLab/Laws.antt =====
-- quote.rs, LaunchLab: a buy stays within the input and the sale, a sale within the real reserves.
use sol_trade_router_sdk.Base.{
  ℕ, ◌+◌, ◌-◌, ◌*◌, ◌/◌, ◌≤◌, ◌<◌, ◌≡◌, false, ◌==◌, ◌||◌, ==→pos, ==→eq, leb, ltb, leb→lt, leb→le,
  ltb→le, Bool-cases, inl, inr, or_split, arith, ap, ap₂, ◌∙◌, some,
}
use sol_trade_router_sdk.Base.Words.{
  max_u64, max_u128, checked_sub, checked_sub-eq-some, checked_to, checked_to-eq-some,
}
use sol_trade_router_sdk.Sdk.Fallible.{bind-eq-some, bailed-eq-some, some-injective}
use sol_trade_router_sdk.Sdk.TransferFee.{calculate}
use sol_trade_router_sdk.Sdk.Quote.Curve.{curve_below}
use sol_trade_router_sdk.Sdk.Quote.Amount.{fee_ceil}
use sol_trade_router_sdk.Sdk.Quote.LaunchLab.{
  LaunchLabPool, LaunchLabBuyQuote, graduation_input, launchlab_clamp, launchlab_buy_quote,
  launchlab_sell_quote_out,
}

curve_output_below :
    (a b curve_input product denominator : ℕ)
    → (a == 0 || b == 0) ≡ false
    → checked_to max_u128 (a + curve_input) ≡ some denominator
    → checked_to max_u128 (curve_input * b) ≡ some product
    → product / denominator < b
curve_output_below a b curve_input product denominator reserves denominator_is product_is =
    let (a_some, b_some) = or_split (a == 0) (b == 0) reserves in
    let (_, bottom) = checked_to-eq-some max_u128 (a + curve_input) denominator_is in
    let (_, top) = checked_to-eq-some max_u128 (curve_input * b) product_is in
    let turned : b * curve_input ≡ curve_input * b = grind arith in
    let same = ap₂ (λ (x y : ℕ). x / y) (turned ∙ top) bottom in
    omega (arith, same, curve_below a b curve_input (==→pos a a_some) (==→pos b b_some))

module _ (pool : LaunchLabPool) where
  graduation_input_le :
      (amount_in rate a b remaining actual : ℕ)
      → graduation_input pool amount_in rate a b remaining ≡ some actual
      → actual ≤ amount_in
  unfolding graduation_input
  graduation_input_le amount_in rate a b remaining actual h =
      let (after, after_is, h1) = bind-eq-some _ _ h in
      let (left, h2) = bailed-eq-some _ _ h1 in
      let (product, product_is, h3) = bind-eq-some _ _ h2 in
      let (wide, wide_is, h4) = bind-eq-some _ _ h3 in
      let (vault, vault_is, h5) = bind-eq-some _ _ h4 in
      let (gross, gross_is, h6) = bind-eq-some _ _ h5 in omega (arith, some-injective h6)

  -- The clamp takes from the input and from the output, and leaves no more than the rest of the sale.
  abbrev Clamped : ℕ → ℕ → ℕ × ℕ → Type 0
  Clamped amount_in quoted_output clamped =
      (clamped.0 ≤ amount_in)
      × (clamped.1 ≤ quoted_output)
      × (0 < pool.total_base_sell → pool.real_base + clamped.1 ≤ pool.total_base_sell)

  clamp-Clamped :
      (amount_in rate a b quoted_output : ℕ) (clamped : ℕ × ℕ)
      → launchlab_clamp pool amount_in rate a b quoted_output ≡ some clamped
      → Clamped amount_in quoted_output clamped
  unfolding launchlab_clamp
  clamp-Clamped amount_in rate a b quoted_output clamped h =
      elim (Bool-cases (pool.total_base_sell == 0)) [
        | inl e ↦
            let is = some-injective (rw e at h) in
            (
              omega (arith, ap (λ (t : ℕ × ℕ). t.0) is),
              omega (arith, ap (λ (t : ℕ × ℕ). t.1) is),
              λ capped. absurd (omega (arith, ==→eq _ _ e, capped)),
            )
        | inr e ↦
            let (remaining, remaining_is, h1) = bind-eq-some _ _ (rw e at h) in
            let (sold, rest) =
              checked_sub-eq-some pool.total_base_sell pool.real_base remaining_is in
            elim (Bool-cases (leb quoted_output remaining)) [
              | inl small ↦
                  let is = some-injective (rw small at h1) in
                  let fits = leb→le _ _ small in
                  (
                    omega (arith, ap (λ (t : ℕ × ℕ). t.0) is),
                    omega (arith, ap (λ (t : ℕ × ℕ). t.1) is),
                    λ capped. omega (arith, ap (λ (t : ℕ × ℕ). t.1) is, fits, sold, rest),
                  )
              | inr large ↦
                  let (actual, actual_is, h2) = bind-eq-some _ _ (rw large at h1) in
                  let is = some-injective h2 in
                  let over = leb→lt _ _ large in
                  let low = graduation_input_le amount_in rate a b remaining actual actual_is in
                  (
                    omega (arith, ap (λ (t : ℕ × ℕ). t.0) is, low),
                    omega (arith, ap (λ (t : ℕ × ℕ). t.1) is, over),
                    λ capped. omega (arith, ap (λ (t : ℕ × ℕ). t.1) is, sold, rest),
                  )
            ]
      ]

  abbrev BuyWithin : ℕ → LaunchLabBuyQuote → Type 0
  BuyWithin amount_in quote =
      (quote.amount_in ≤ amount_in)
      × (0 < pool.total_base_sell → pool.real_base + quote.amount_out ≤ pool.total_base_sell)
      × (pool.real_base + quote.amount_out < pool.virtual_base)

  bought :
      (amount_in : ℕ) (quote : LaunchLabBuyQuote) (clamped : ℕ × ℕ) (gross quoted_output b : ℕ)
      → Clamped amount_in quoted_output clamped
      → record {
        amount_in = clamped.0;
        amount_out = gross - calculate pool.base_transfer_fee gross;
      }
        ≡ quote
      → checked_to max_u64 clamped.1 ≡ some gross
      → checked_sub pool.virtual_base pool.real_base ≡ some b
      → quoted_output < b
      → BuyWithin amount_in quote
  bought amount_in quote clamped gross quoted_output b clamp is gross_is b_is below =
      let (in_le, out_le, capped) = clamp in
      let paid = ap (λ (t : LaunchLabBuyQuote). t.amount_in) is in
      let out_is = ap (λ (t : LaunchLabBuyQuote). t.amount_out) is in
      let (_, gross_value) = checked_to-eq-some max_u64 clamped.1 gross_is in
      let (sold, b_value) = checked_sub-eq-some pool.virtual_base pool.real_base b_is in
      (
        omega (arith, paid, in_le),
        λ sale. omega (arith, out_is, gross_value, capped sale),
        omega (arith, out_is, gross_value, out_le, below, sold, b_value),
      )

  -- A LaunchLab buy that is quoted spends at most the input, takes at most what is left of a
  -- capped sale, and less than the curve's base reserve.
  pub launchlab_buy_quote-BuyWithin :
      (amount_in share_fee_rate : ℕ) (quote : LaunchLabBuyQuote)
      → launchlab_buy_quote pool amount_in share_fee_rate ≡ some quote
      → BuyWithin amount_in quote
  unfolding launchlab_buy_quote
  launchlab_buy_quote-BuyWithin amount_in share_fee_rate quote h =
      let (given, h1) = bailed-eq-some _ _ h in
      let (curve_type, h2) = bailed-eq-some _ _ h1 in
      let (rate, rate_is, h3) = bind-eq-some _ _ h2 in
      let (vault, vault_is, h4) = bind-eq-some _ _ h3 in
      let (curve_input, input_is, h5) = bind-eq-some _ _ h4 in
      let (a, a_is, h6) = bind-eq-some _ _ h5 in
      let (b, b_is, h7) = bind-eq-some _ _ h6 in
      let (reserves, h8) = bailed-eq-some _ _ h7 in
      let (denominator, denominator_is, h9) = bind-eq-some _ _ h8 in
      let (product, product_is, h10) = bind-eq-some _ _ h9 in
      let (clamped, clamped_is, h11) = bind-eq-some _ _ h10 in
      let (gross, gross_is, h12) = bind-eq-some _ _ h11 in
      let clamp = clamp-Clamped amount_in rate a b (product / denominator) clamped clamped_is in
      let below =
        curve_output_below a b curve_input product denominator reserves denominator_is product_is in
      bought amount_in quote clamped gross (product / denominator) b clamp (some-injective h12)
        gross_is b_is below

  sold_within :
      (base_in credited gross fee left vault transfer out : ℕ)
      → checked_sub base_in (calculate pool.base_transfer_fee base_in) ≡ some credited
      → ltb pool.real_base credited ≡ false
      → ltb pool.real_quote gross ≡ false
      → checked_sub gross fee ≡ some left
      → checked_to max_u64 left ≡ some vault
      → vault - transfer ≡ out
      → (out ≤ pool.real_quote)
        × (base_in ≤ pool.real_base + calculate pool.base_transfer_fee base_in)
  sold_within base_in credited gross fee left vault transfer out credited_is sold backed left_is
        vault_is is =
      let (_, base_value) = checked_sub-eq-some base_in _ credited_is in
      let (_, left_value) = checked_sub-eq-some gross fee left_is in
      let (_, vault_value) = checked_to-eq-some max_u64 left vault_is in
      (
        omega (arith, is, left_value, vault_value, ltb→le _ _ backed),
        omega (arith, base_value, ltb→le _ _ sold),
      )

  -- A LaunchLab sale that is quoted pays at most the real quote reserve, for a credited base of at
  -- most what was sold.
  pub launchlab_sell_within :
      (base_in out : ℕ)
      → launchlab_sell_quote_out pool base_in ≡ some out
      → (out ≤ pool.real_quote)
        × (base_in ≤ pool.real_base + calculate pool.base_transfer_fee base_in)
  unfolding launchlab_sell_quote_out
  launchlab_sell_within base_in out h =
      let (given, h1) = bailed-eq-some _ _ h in
      let (curve_type, h2) = bailed-eq-some _ _ h1 in
      let (credited, credited_is, h3) = bind-eq-some _ _ h2 in
      let (sold, h4) = bailed-eq-some _ _ h3 in
      let (a, a_is, h5) = bind-eq-some _ _ h4 in
      let (b, b_is, h6) = bind-eq-some _ _ h5 in
      let (reserves, h7) = bailed-eq-some _ _ h6 in
      let (denominator, denominator_is, h8) = bind-eq-some _ _ h7 in
      let (product, product_is, h9) = bind-eq-some _ _ h8 in
      let (backed, h10) = bailed-eq-some _ _ h9 in
      let (rate, rate_is, h11) = bind-eq-some _ _ h10 in
      let (left, left_is, h12) = bind-eq-some _ _ h11 in
      let (vault, vault_is, h13) = bind-eq-some _ _ h12 in
      sold_within base_in credited (product / denominator) (fee_ceil (product / denominator) rate)
        left vault (calculate pool.quote_transfer_fee vault) out credited_is sold backed left_is
        vault_is (some-injective h13)
