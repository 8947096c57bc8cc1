-- ===== src/Sdk/PumpFunV3/Bounds.antt =====
-- crates/sdk/src/pumpfun_v3.rs: what a Pump V3 buy can bring in.
use sol_trade_router_sdk.Base.{
  ℕ, ◌+◌, ◌-◌, ◌*◌, ◌/◌, ◌≤◌, ◌<◌, ◌≡◌, ◌⊎◌, inl, inr, refl, ap, ◌∙◌, Bool, true, false, Option,
  some, ltb, leb, leb→le, ==→pos, not-eq-false, if◌then◌else◌, arith,
}
use sol_trade_router_sdk.Base.Words.{IsU64, checked_sub-eq-some, checked_to-eq-some}
use sol_trade_router_sdk.Sdk.Fallible.{bind-eq-some, bailed-eq-some, some-injective}
use sol_trade_router_sdk.Sdk.Keys.{Derive}
use sol_trade_router_sdk.Sdk.Quote.Curve.{curve, curve_below}
use sol_trade_router_sdk.Sdk.PumpFunV3.{
  PumpFunV3Pool, positive, positive_u64, fees, wrap_u128, graduation_leg, buy_through_graduation,
  buy_quote,
}

positive_u64-eq-some :
    (value : ℕ) {n : ℕ} → positive_u64 value ≡ some n → (n ≡ value) × 0 < n × IsU64 n
unfolding positive_u64
positive_u64-eq-some value h =
    let (m, fits, h1) = bind-eq-some _ _ h in
    let (nonzero, h2) = bailed-eq-some _ _ h1 in
    let (small, same) = checked_to-eq-some _ _ fits in
    let is = some-injective h2 in
    let above = ==→pos m nonzero in
    (omega (arith, same, is), omega (arith, above, is), omega (arith, small, same, is))

positive-eq-some : (value : Option ℕ) {n : ℕ} → positive value ≡ some n → (value ≡ some n) × 0 < n
unfolding positive
positive-eq-some value h =
    let (m, fits, h1) = bind-eq-some _ _ h in
    let (nonzero, h2) = bailed-eq-some _ _ h1 in
    let is = some-injective h2 in
    let above = ==→pos m nonzero in (fits ∙ ap (λ (k : ℕ). some k) is, omega (arith, above, is))

-- What the pool to be gives is less than its base.
below_base :
    (pool_base pool_quote leg_in : ℕ)
    → 0 < pool_base
    → 0 < pool_quote
    → leg_in * pool_base / (pool_quote + leg_in) < pool_base
below_base pool_base pool_quote leg_in hb hq =
    let turned : leg_in * pool_base ≡ pool_base * leg_in = grind arith in
    let on_curve : leg_in * pool_base / (pool_quote + leg_in) ≡ curve pool_quote pool_base leg_in =
      ap (λ (t : ℕ). t / (pool_quote + leg_in)) turned in
    omega (arith, on_curve, curve_below pool_quote pool_base leg_in hq hb)

graduation_leg_below :
    (pool : PumpFunV3Pool) (protocol creator curve_net left : ℕ) {out : ℕ}
    → graduation_leg pool protocol creator curve_net left ≡ some out
    → 0 < out × IsU64 out × out < pool.curve_base_token_balance
unfolding graduation_leg
graduation_leg_below pool protocol creator curve_net left h =
    let (pool_base, base_is, h1) = bind-eq-some _ _ h in
    let (raised, _, h2) = bind-eq-some _ _ h1 in
    let (pool_quote, quote_is, h3) = bind-eq-some _ _ h2 in
    let (net, _, h4) = bind-eq-some _ _ h3 in
    let (leg_in, _, h5) = bind-eq-some _ _ h4 in
    let (base_found, base_positive) = positive-eq-some _ base_is in
    let (_, quote_positive) = positive-eq-some _ quote_is in
    let (within, base_same) = checked_sub-eq-some _ _ base_found in
    let (is, above, wide) = positive_u64-eq-some _ h5 in
    let below = below_base pool_base pool_quote leg_in base_positive quote_positive in
    (above, wide, omega (arith, within, base_same, is, below))

-- A buy stays on the curve, or goes through a graduation that is supported.
abbrev pub Bought : PumpFunV3Pool → ℕ → Type 0
Bought pool out =
    (out ≤ pool.curve.real_token_reserves)
    ⊎ ((pool.supports_graduation ≡ true)
        × (pool.mayhem_mode ≡ false)
        × (out < pool.curve_base_token_balance))

either_way :
    (pool : PumpFunV3Pool) (value : ℕ) (further : Option ℕ) (on_curve : Bool) {out : ℕ}
    → (if on_curve then positive_u64 value else further) ≡ some out
    → (on_curve ≡ true → value ≤ pool.curve.real_token_reserves)
    → (further ≡ some out → 0 < out × IsU64 out × Bought pool out)
    → 0 < out × IsU64 out × Bought pool out
either_way pool value further true h short long =
    let (is, above, wide) = positive_u64-eq-some value h in
    (above, wide, inl (omega (arith, is, short refl)))
either_way pool value further false h short long = long h

through_graduation :
    (pool : PumpFunV3Pool) (protocol creator budget : ℕ) {out : ℕ}
    → buy_through_graduation pool protocol creator budget ≡ some out
    → 0 < out × IsU64 out × Bought pool out
unfolding buy_through_graduation
through_graduation pool protocol creator budget h =
    let (supported, h1) = bailed-eq-some _ _ h in
    let (fair, h2) = bailed-eq-some _ _ h1 in
    let (after, _, h3) = bind-eq-some _ _ h2 in
    let curve_net = pool.curve.real_token_reserves * pool.curve.virtual_sol_reserves / after + 1 in
    let left = budget - wrap_u128 (curve_net + fees curve_net protocol creator) in
    either_way pool pool.curve.real_token_reserves
      (graduation_leg pool protocol creator curve_net left)
      (ltb (left * 10000 / (10000 + protocol + creator)) 2) h3 (λ _. omega arith)
      (λ e.
        let (above, wide, below) = graduation_leg_below pool protocol creator curve_net left e in
        (above, wide, inr (not-eq-false pool.supports_graduation supported, fair, below)))

-- A Pump V3 buy that is quoted gives a positive u64 amount that is at most what is left on the
-- curve, or, only where the pool supports graduation and is not in mayhem mode, less than the
-- curve's whole base balance.
pub buy_quote-Bought :
    (derive : Derive) (pool : PumpFunV3Pool) (budget out : ℕ)
    → buy_quote derive pool budget ≡ some out
    → 0 < out × IsU64 out × Bought pool out
unfolding buy_quote
buy_quote-Bought derive pool budget out h =
    let ((protocol, creator), _, h1) = bind-eq-some _ _ h in
    let (net, _, h2) = bind-eq-some _ _ h1 in
    let (_, h3) = bailed-eq-some _ _ h2 in
    let (input, _, h4) = bind-eq-some _ _ h3 in
    let tokens =
      input * pool.curve.virtual_token_reserves / (pool.curve.virtual_sol_reserves + input) in
    either_way pool tokens _ (leb tokens pool.curve.real_token_reserves) h4
      (leb→le tokens pool.curve.real_token_reserves)
      (through_graduation pool protocol creator budget)
