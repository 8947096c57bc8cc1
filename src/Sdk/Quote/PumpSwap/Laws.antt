-- ===== src/Sdk/Quote/PumpSwap/Laws.antt =====
-- quote.rs, PumpSwap: the quotes stay within the reserves that can pay them.
use sol_trade_router_sdk.Base.{
  ℕ, ◌+◌, ◌-◌, ◌*◌, ◌/◌, ◌≤◌, ◌<◌, ◌≡◌, min, Bool, true, false, ==→pos, ltb, all_positive, ltb→le,
  if◌then◌else◌, arith, ap, ap₂, some,
}
use sol_trade_router_sdk.Base.Words.{
  IsU64, max_u64, max_u128, saturate, checked_sub, checked_sub-eq-some, checked_to-eq-some,
}
use sol_trade_router_sdk.Base.Arith.{div-le, mul_u64_fits, saturate_exact}
use sol_trade_router_sdk.Sdk.Fallible.{bind-eq-some, bailed-eq-some, some-injective}
use sol_trade_router_sdk.Sdk.Quote.Curve.{curve_below}
use sol_trade_router_sdk.Sdk.Quote.Amount.{compute_fee_bps}
use sol_trade_router_sdk.Sdk.Quote.PumpSwap.{
  PumpSwapPool, add_signed, ℤ, pos, negsuc, pumpswap_effective_quote, pumpswap_add_fees,
  pumpswap_net, pumpswap_buy_base_out, pumpswap_sell_quote_out,
}

compute_fee_bps_le : (amount points : ℕ) → compute_fee_bps amount points ≤ max_u128
unfolding compute_fee_bps
compute_fee_bps_le amount points = ground arith

lp_fee_le :
    (pool : PumpSwapPool) (start amount : ℕ)
    → compute_fee_bps amount pool.lp_fee_bps ≤ pumpswap_add_fees pool start amount
unfolding pumpswap_add_fees
lp_fee_le pool start amount = let top = compute_fee_bps_le amount pool.lp_fee_bps in ground arith

covered_by :
    (pool : PumpSwapPool) (gross left real_quote : ℕ)
    → checked_sub gross (pumpswap_add_fees pool 0 gross) ≡ some left
    → ltb real_quote (gross - compute_fee_bps gross pool.lp_fee_bps) ≡ false
    → left ≤ real_quote
covered_by pool gross left real_quote h within =
    let (fits, is) = checked_sub-eq-some gross (pumpswap_add_fees pool 0 gross) h in
    let fee = lp_fee_le pool 0 gross in omega (arith, is, fee, ltb→le _ _ within)

-- A PumpSwap sale that is quoted knows the reserved fees, and its output with them is no more than
-- the balance of the quote vault.
pub pumpswap_sell_covered :
    (pool : PumpSwapPool) (base_in out : ℕ)
    → pumpswap_sell_quote_out pool base_in ≡ some out
    → (reserved : ℕ) × (pool.quote_fee_reserves ≡ some reserved)
      × (out + reserved ≤ pool.quote_reserve)
unfolding pumpswap_sell_quote_out
pumpswap_sell_covered pool base_in out h =
    let (reserves, h1) = bailed-eq-some _ _ h in
    let (reserved, reserved_is, h2) = bind-eq-some _ _ h1 in
    let (real_quote, real_is, h3) = bind-eq-some _ _ h2 in
    let (effective, effective_is, h4) = bind-eq-some _ _ h3 in
    let (left, left_is, h5) = bind-eq-some _ _ h4 in
    let (paid, paid_is, h6) = bind-eq-some _ _ h5 in
    let (real, h7) = bailed-eq-some _ _ h6 in
    let (held, real_value) = checked_sub-eq-some _ _ real_is in
    let (small, same) = checked_to-eq-some _ _ paid_is in
    let last = some-injective h7 in
    let within = covered_by pool _ left real_quote left_is real in
    (reserved, reserved_is, omega (arith, same, last, real_value, held, within))

add_signed_fits : (n : ℕ) (z : ℤ) (sum : ℕ) → add_signed n z ≡ some sum → sum ≤ max_u64
unfolding add_signed
add_signed_fits n (pos m) sum h =
    let (wide, wide_is, h1) = bind-eq-some _ _ h in
    let (fits, is) = checked_to-eq-some _ _ h1 in omega (arith, fits, is)
add_signed_fits n (negsuc m) sum h =
    let (wide, wide_is, h1) = bind-eq-some _ _ h in
    let (fits, is) = checked_to-eq-some _ _ h1 in omega (arith, fits, is)

effective_bounds :
    (pool : PumpSwapPool) (reserve : ℕ)
    → pumpswap_effective_quote pool ≡ some reserve
    → (0 < reserve) × (reserve ≤ max_u64)
unfolding pumpswap_effective_quote
effective_bounds pool reserve h =
    let (sum, sum_is, h1) = bind-eq-some _ _ h in
    let (positive, h2) = bailed-eq-some _ _ h1 in
    let is = some-injective h2 in
    (
      omega (arith, ==→pos sum positive, is),
      omega (arith, add_signed_fits pool.quote_reserve pool.virtual_quote_reserves sum sum_is, is),
    )

pumpswap_net_le :
    (pool : PumpSwapPool) (quote_in net : ℕ)
    → IsU64 quote_in
    → pumpswap_net pool quote_in ≡ some net
    → net ≤ quote_in
unfolding pumpswap_net
pumpswap_net_le pool quote_in net small h =
    let (two, two_is, h1) = bind-eq-some _ _ h in
    let (three, three_is, h2) = bind-eq-some _ _ h1 in
    let (denominator, whole_is, h3) = bind-eq-some _ _ h2 in
    let (_, whole) = checked_to-eq-some _ _ whole_is in
    let exact = saturate_exact max_u128 (quote_in * 10000) (omega arith) in
    let wide : quote_in * 10000 < (quote_in + 1) * denominator =
      wider quote_in denominator (omega (arith, whole)) in
    let most = div-le (quote_in * 10000) denominator quote_in (omega (arith, whole)) wide in
    let first = saturate max_u128 (quote_in * 10000) / denominator in
    let total = pumpswap_add_fees pool first first in
    omega (
      arith,
      below_first first (total - quote_in) (ltb quote_in total) (some-injective h3),
      ap (λ (t : ℕ). t / denominator) exact,
      most,
    )
  where
    wider : (q d : ℕ) → 10000 ≤ d → q * 10000 < (q + 1) * d
    wider q d low = grind arith

    below_first :
        (first excess : ℕ) (b : Bool) → (if b then first - excess else first) ≡ net → net ≤ first
    below_first first excess true is = omega (arith, is)
    below_first first excess false is = omega (arith, is)

curve_out_below :
    (base effective curve_in out : ℕ)
    → 0 < base
    → 0 < effective
    → IsU64 base
    → effective ≤ max_u64
    → curve_in ≤ max_u64
    → min (saturate max_u128 (base * curve_in) / saturate max_u128 (effective + curve_in)) max_u64
      ≡ out
    → out < base
curve_out_below base effective curve_in out base_pos positive base_fits fits small is =
    let top =
      saturate_exact max_u128 (base * curve_in)
        (mul_u64_fits base curve_in base_fits (omega arith)) in
    let bottom = saturate_exact max_u128 (effective + curve_in) (omega arith) in
    let same = ap₂ (λ (a b : ℕ). a / b) top bottom in
    omega (arith, is, same, curve_below effective base curve_in positive base_pos)

-- For a base reserve and an input that fit u64, a PumpSwap buy that is quoted gives less than the
-- base reserve, whatever the sign of the virtual reserve.
pub pumpswap_buy_below :
    (pool : PumpSwapPool) (quote_in out : ℕ)
    → IsU64 pool.base_reserve
    → IsU64 quote_in
    → pumpswap_buy_base_out pool quote_in ≡ some out
    → out < pool.base_reserve
unfolding pumpswap_buy_base_out
pumpswap_buy_below pool quote_in out base_fits small h =
    let (reserves, h1) = bailed-eq-some _ _ h in
    let (net, net_is, h2) = bind-eq-some _ _ h1 in
    let (curve_in, curve_is, h3) = bind-eq-some _ _ h2 in
    let (effective, effective_is, h4) = bind-eq-some _ _ h3 in
    let (_, base, _) = all_positive quote_in pool.base_reserve pool.quote_reserve reserves in
    let (_, less) = checked_sub-eq-some net 1 curve_is in
    let net_le = pumpswap_net_le pool quote_in net small net_is in
    let (positive, fits) = effective_bounds pool effective effective_is in
    curve_out_below pool.base_reserve effective curve_in out base positive base_fits fits
      (omega (arith, less, net_le)) (some-injective h4)
