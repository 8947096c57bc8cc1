-- ===== src/Sdk/Quote/PumpFun/Laws.antt =====
-- quote.rs, PumpFun: a buy's input covers its fees, and neither side is quoted more than the curve.
use sol_trade_router_sdk.Base.{
  ℕ, ◌+◌, ◌-◌, ◌*◌, ◌/◌, ◌≤◌, ◌<◌, ◌≡◌, ==→pos, all_positive, ltb, if◌then◌else◌, arith, ap, some,
}
use sol_trade_router_sdk.Base.Words.{IsU64, checked_sub, checked_sub-eq-some, checked_to-eq-some}
use sol_trade_router_sdk.Base.Arith.{div-le, div-mul-le, div_ceil_mono, mul_mono}
use sol_trade_router_sdk.Sdk.Fallible.{bind-eq-some, bailed-eq-some, some-injective}
use sol_trade_router_sdk.Sdk.Quote.Curve.{curve, curve_below}
use sol_trade_router_sdk.Sdk.Quote.Amount.{compute_fee_bps}
use sol_trade_router_sdk.Sdk.Quote.Amount.Laws.{compute_fee_bps-ceil}
use sol_trade_router_sdk.Sdk.Quote.PumpFun.{
  PumpFunPool, pumpfun_net, pumpfun_buy_token_out, pumpfun_sell_sol_out,
}

compute_fee_bps_mono :
    (a b points : ℕ)
    → a ≤ b
    → IsU64 b
    → IsU64 points
    → compute_fee_bps a points ≤ compute_fee_bps b points
compute_fee_bps_mono a b points le small rate = omega (
  arith,
  compute_fee_bps-ceil a points (omega arith) rate,
  compute_fee_bps-ceil b points small rate,
  div_ceil_mono (a * points) (b * points) 10000 (omega arith)
      (mul_mono a b points points le (omega arith)),
)

-- The correction takes the excess of the total away, if there is any.
corrected :
    (gross quote_in total net : ℕ)
    → (if ltb quote_in total then checked_sub gross (total - quote_in) else some gross) ≡ some net
    → net + (total - quote_in) ≡ gross
corrected gross quote_in total net h = ground arith

-- For u64 values, the net input of a PumpFun buy and the protocol's and the creator's fee on it,
-- each rounded up, do not exceed what the buyer pays.
pub pumpfun_net_covered :
    (quote_in protocol creator net : ℕ)
    → IsU64 quote_in
    → IsU64 protocol
    → IsU64 creator
    → pumpfun_net quote_in protocol creator ≡ some net
    → net + compute_fee_bps net protocol + compute_fee_bps net creator ≤ quote_in
unfolding pumpfun_net
pumpfun_net_covered quote_in protocol creator net small low_protocol low_creator h =
    let gross = quote_in * 10000 / (10000 + protocol + creator) in
    let most : gross ≤ quote_in =
      div-le (quote_in * 10000) (10000 + protocol + creator) quote_in (omega arith)
        (whole quote_in protocol creator) in
    let total = gross + compute_fee_bps gross protocol + compute_fee_bps gross creator in
    let is = corrected gross quote_in total net h in
    let first =
      compute_fee_bps_mono net gross protocol (omega (arith, is)) (omega arith) low_protocol in
    let second =
      compute_fee_bps_mono net gross creator (omega (arith, is)) (omega arith) low_creator in
    omega (arith, first, second, is)
  where
    whole : (q p c : ℕ) → q * 10000 < (q + 1) * (10000 + p + c)
    whole q p c = grind arith

-- A PumpFun buy that is quoted gives something, no more than the real token reserve and less than
-- the virtual one.
pub pumpfun_buy_bounds :
    (pool : PumpFunPool) (quote_in tokens : ℕ)
    → pumpfun_buy_token_out pool quote_in ≡ some tokens
    → (0 < tokens) × (tokens ≤ pool.real_token_reserves) × (tokens < pool.virtual_token_reserves)
unfolding pumpfun_buy_token_out
pumpfun_buy_bounds pool quote_in tokens h =
    let (rates, rates_is, h1) = bind-eq-some _ _ h in
    let (reserves, h2) = bailed-eq-some _ _ h1 in
    let (net, net_is, h3) = bind-eq-some _ _ h2 in
    let (curve_in, curve_is, h4) = bind-eq-some _ _ h3 in
    let (given, h5) = bailed-eq-some _ _ h4 in
    let (paid, token, sol) =
      all_positive quote_in pool.virtual_token_reserves pool.virtual_sol_reserves reserves in
    let turned : curve_in * pool.virtual_token_reserves ≡ pool.virtual_token_reserves * curve_in =
      grind arith in
    let below =
      curve_below pool.virtual_sol_reserves pool.virtual_token_reserves curve_in sol token in
    let same : curve_in * pool.virtual_token_reserves / (pool.virtual_sol_reserves + curve_in)
        ≡ curve pool.virtual_sol_reserves pool.virtual_token_reserves curve_in =
      ap (λ (t : ℕ). t / (pool.virtual_sol_reserves + curve_in)) turned in
    let is = some-injective h5 in
    (omega (arith, ==→pos _ given, is), omega (arith, is), omega (arith, is, below, same))

-- A PumpFun sale that is quoted pays a u64 amount that is less than the virtual reserve and at
-- most the curve's output.
pub pumpfun_sell_bounds :
    (pool : PumpFunPool) (token_in out : ℕ)
    → pumpfun_sell_sol_out pool token_in ≡ some out
    → (out < pool.virtual_sol_reserves)
      × (out * (pool.virtual_token_reserves + token_in) ≤ token_in * pool.virtual_sol_reserves)
      × IsU64 out
unfolding pumpfun_sell_sol_out
pumpfun_sell_bounds pool token_in out h =
    let (rates, rates_is, h1) = bind-eq-some _ _ h in
    let (reserves, h2) = bailed-eq-some _ _ h1 in
    let (rest, rest_is, h3) = bind-eq-some _ _ h2 in
    let (covered, is) = checked_sub-eq-some _ _ rest_is in
    let (fits, same) = checked_to-eq-some _ _ h3 in
    let (paid, token, sol) =
      all_positive token_in pool.virtual_token_reserves pool.virtual_sol_reserves reserves in
    let gross = token_in * pool.virtual_sol_reserves / (pool.virtual_token_reserves + token_in) in
    let turned : token_in * pool.virtual_sol_reserves ≡ pool.virtual_sol_reserves * token_in =
      grind arith in
    let below =
      curve_below pool.virtual_token_reserves pool.virtual_sol_reserves token_in token sol in
    let on_curve : gross ≡ curve pool.virtual_token_reserves pool.virtual_sol_reserves token_in =
      ap (λ (t : ℕ). t / (pool.virtual_token_reserves + token_in)) turned in
    let less : out ≤ gross = omega (arith, is, same) in
    let scaled =
      mul_mono out gross (pool.virtual_token_reserves + token_in)
        (pool.virtual_token_reserves + token_in) less (omega arith) in
    let paid_out =
      div-mul-le (token_in * pool.virtual_sol_reserves) (pool.virtual_token_reserves + token_in) in
    (
      omega (arith, less, below, on_curve),
      omega (arith, scaled, paid_out),
      omega (arith, fits, same),
    )
