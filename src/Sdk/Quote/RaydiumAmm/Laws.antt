-- ===== src/Sdk/Quote/RaydiumAmm/Laws.antt =====
-- quote.rs, Raydium AMM V4: the output is what the pool can pay, and the exact-out input is the least.
use sol_trade_router_sdk.Base.{
  ℕ, ◌+◌, ◌-◌, ◌*◌, ◌/◌, ◌%◌, ◌≤◌, ◌<◌, ◌≡◌, ◌↔◌, ◌^◌, min, Bool, Bool-cases, inl, inr, ==→pos, leb,
  leb→le, leb→lt, ltb→le, or_split, arith, ap, ◌∙◌, sym, some,
}
use sol_trade_router_sdk.Base.Words.{
  IsU64, max_u64, max_u128, saturate, checked_to-eq-some, div_ceil,
}
use sol_trade_router_sdk.Base.Arith.{div_ceil_share, mul_mono, mul_u64_fits, saturate_exact}
use sol_trade_router_sdk.Sdk.Fallible.{bind-eq-some, bailed-eq-some, some-injective}
use sol_trade_router_sdk.Sdk.Quote.Curve.{
  curve, net, curve_le, curve_below, curve_product, curve_mono, curve_reaches, net_mono,
  net_reaches,
}
use sol_trade_router_sdk.Sdk.Quote.RaydiumAmm.{
  RaydiumAmmV4Pool, amm_reserves, raydium_amm_v4_out, raydium_amm_v4_in_for_out,
}

-- The fields fit `u64`.
pub record AmmFits (pool : RaydiumAmmV4Pool) : Type 0 where
  pub coin_fits : IsU64 pool.coin_reserve
  pub pc_fits : IsU64 pool.pc_reserve
  pub numerator_fits : IsU64 pool.swap_fee_numerator
  pub denominator_fits : IsU64 pool.swap_fee_denominator

-- What a quote that is given says of its input.
record Quoted (pool : RaydiumAmmV4Pool) (amount_in : ℕ) (c : Bool) (out : ℕ) : Type 0 where
  positive : 0 < amount_in
  in_positive : 0 < (amm_reserves pool c).0
  out_positive : 0 < (amm_reserves pool c).1
  rate_below : pool.swap_fee_numerator < pool.swap_fee_denominator
  room : (amm_reserves pool c).0 + amount_in ≤ max_u64
  value :
      out
      ≡ curve
          (amm_reserves pool c).0
          (amm_reserves pool c).1
          (net pool.swap_fee_numerator pool.swap_fee_denominator amount_in)

module _ (pool : RaydiumAmmV4Pool) (fits : AmmFits pool) (c : Bool) where
  reserves_fit : IsU64 (amm_reserves pool c).0 × IsU64 (amm_reserves pool c).1
  unfolding amm_reserves
  reserves_fit = elim (Bool-cases c) [
    | inl e ↦ rw e (fits.coin_fits, fits.pc_fits)
    | inr e ↦ rw e (fits.pc_fits, fits.coin_fits)
  ]

  out_value :
      (a b num den amount : ℕ)
      → 0 < a
      → IsU64 b
      → IsU64 num
      → num < den
      → a + amount ≤ max_u64
      → min
          (saturate max_u128 (b * (amount - div_ceil (amount * num) den % 2 ^ 64))
            / saturate max_u128 (a + (amount - div_ceil (amount * num) den % 2 ^ 64)))
          max_u64
        ≡ curve a b (net num den amount)
  out_value a b num den amount pos b_fits num_fits low room =
      let share = div_ceil_share amount num den (omega arith) (omega arith) in
      let whole : div_ceil (amount * num) den % 2 ^ 64 ≡ div_ceil (amount * num) den =
        omega (arith, share) in
      let n = net num den amount in
      let top = saturate_exact max_u128 (b * n) (mul_u64_fits b n b_fits (omega arith)) in
      let bottom = saturate_exact max_u128 (a + n) (omega arith) in
      let paid = curve_le a b n pos in rw whole (rw top (rw bottom (omega (arith, paid))))

  quoted :
      (amount_in out : ℕ)
      → raydium_amm_v4_out pool amount_in c ≡ some out
      → Quoted pool amount_in c out
  unfolding raydium_amm_v4_out
  quoted amount_in out h =
      let (positive, h1) = bailed-eq-some _ _ h in
      let (reserves, h2) = bailed-eq-some _ _ h1 in
      let (rate, h3) = bailed-eq-some _ _ h2 in
      let (room, h4) = bailed-eq-some _ _ h3 in
      let (a_some, b_some) = or_split _ _ reserves in
      let (den_some, below) = or_split _ _ rate in
      let (a_fits, b_fits) = reserves_fit in
      let a_pos = ==→pos _ a_some in
      let low = leb→lt _ _ below in
      let roomy = ltb→le _ _ room in
      record {
        positive = ==→pos _ positive;
        in_positive = a_pos;
        out_positive = ==→pos _ b_some;
        rate_below = low;
        room = roomy;
        value =
            sym (some-injective h4)
            ∙ out_value (amm_reserves pool c).0 (amm_reserves pool c).1 pool.swap_fee_numerator
                pool.swap_fee_denominator amount_in a_pos b_fits fits.numerator_fits low roomy;
      }

  -- For a Raydium AMM V4 pool whose fields fit u64, an output that is quoted is less than the
  -- output reserve, and with the whole input credited the product of the reserves does not fall.
  pub amm_out_sound :
      (amount_in out : ℕ)
      → raydium_amm_v4_out pool amount_in c ≡ some out
      → (out < (amm_reserves pool c).1)
        × ((amm_reserves pool c).0 * (amm_reserves pool c).1
            ≤ ((amm_reserves pool c).0 + amount_in) * ((amm_reserves pool c).1 - out))
  amm_out_sound amount_in out h =
      let q = quoted amount_in out h in
      let a = (amm_reserves pool c).0 in
      let b = (amm_reserves pool c).1 in
      let n = net pool.swap_fee_numerator pool.swap_fee_denominator amount_in in
      let product = curve_product a b n q.in_positive in
      let more =
        mul_mono (a + n) (a + amount_in) (b - curve a b n) (b - curve a b n) (omega arith)
          (omega arith) in
      rw q.value (curve_below a b n q.in_positive q.out_positive, omega (arith, product, more))

  -- For a Raydium AMM V4 pool whose fields fit u64, of two inputs that are quoted the larger is
  -- never quoted a smaller output.
  pub amm_out_mono :
      (x y out_x out_y : ℕ)
      → x ≤ y
      → raydium_amm_v4_out pool x c ≡ some out_x
      → raydium_amm_v4_out pool y c ≡ some out_y
      → out_x ≤ out_y
  amm_out_mono x y out_x out_y le hx hy =
      let p = quoted x out_x hx in
      let q = quoted y out_y hy in
      let rate = q.rate_below in
      let nets =
        net_mono pool.swap_fee_numerator pool.swap_fee_denominator x y (omega (arith, rate))
          (omega (arith, rate)) le in
      omega (
        arith,
        p.value,
        q.value,
        curve_mono (amm_reserves pool c).0 (amm_reserves pool c).1 _ _ q.in_positive nets,
      )

  -- What a quote that is given reaches, told from the two roundings of the exact-out function.
  reaches :
      (want amount_in out : ℕ)
      → want < (amm_reserves pool c).1
      → raydium_amm_v4_out pool amount_in c ≡ some out
      → (want ≤ out) ↔ (
          div_ceil
            (div_ceil (want * (amm_reserves pool c).0) ((amm_reserves pool c).1 - want)
              * pool.swap_fee_denominator)
            (pool.swap_fee_denominator - pool.swap_fee_numerator)
          ≤ amount_in)
  reaches want amount_in out below h =
      let q = quoted amount_in out h in
      let a = (amm_reserves pool c).0 in
      let b = (amm_reserves pool c).1 in
      let n = net pool.swap_fee_numerator pool.swap_fee_denominator amount_in in
      let (on_curve, off_curve) = curve_reaches a b want n q.in_positive below in
      let (on_net, off_net) =
        net_reaches pool.swap_fee_numerator pool.swap_fee_denominator
          (div_ceil (want * a) (b - want)) amount_in q.rate_below in
      (
        λ reached. on_net (on_curve (omega (arith, reached, q.value))),
        λ enough. omega (arith, off_curve (off_net enough), q.value),
      )

  exact_input : ℕ → ℕ
  exact_input want =
      div_ceil
        (div_ceil (want * (amm_reserves pool c).0) ((amm_reserves pool c).1 - want)
          * pool.swap_fee_denominator)
        (pool.swap_fee_denominator - pool.swap_fee_numerator)

  exact_out_value :
      (want amount_in : ℕ)
      → raydium_amm_v4_in_for_out pool want c ≡ some amount_in
      → (want < (amm_reserves pool c).1)
        × (exact_input want ≡ amount_in)
        × ((out : ℕ) × (raydium_amm_v4_out pool amount_in c ≡ some out) × (want ≤ out))
  unfolding raydium_amm_v4_in_for_out exact_input
  exact_out_value want amount_in h =
      let (wanted, h1) = bailed-eq-some _ _ h in
      let (reserves, h2) = bailed-eq-some _ _ h1 in
      let (guard, h3) = bailed-eq-some _ _ h2 in
      let (rate, h4) = bailed-eq-some _ _ h3 in
      let (net_in, net_is, h5) = bind-eq-some _ _ h4 in
      let (gross, gross_is, h6) = bind-eq-some _ _ h5 in
      let (out, out_is, h7) = bind-eq-some _ _ h6 in
      let (enough, h8) = bailed-eq-some _ _ h7 in
      let same = some-injective h8 in
      let below = leb→lt _ _ guard in
      let (a_fits, b_fits) = reserves_fit in
      let a = (amm_reserves pool c).0 in
      let b = (amm_reserves pool c).1 in
      let exact =
        saturate_exact max_u128 (want * a) (mul_u64_fits want a (omega (arith, b_fits)) a_fits) in
      let (net_fits, net_eq) = checked_to-eq-some _ _ net_is in
      let (gross_fits, gross_eq) = checked_to-eq-some _ _ gross_is in
      let net_value : div_ceil (want * a) (b - want) ≡ net_in =
        ap (λ (t : ℕ). div_ceil t (b - want)) (sym exact) ∙ net_eq in
      (
        below,
        ap
              (λ (t : ℕ).
                div_ceil (t * pool.swap_fee_denominator)
                  (pool.swap_fee_denominator - pool.swap_fee_numerator))
              net_value
            ∙ gross_eq
            ∙ same,
        (out, ap (λ (t : ℕ). raydium_amm_v4_out pool t c) (sym same) ∙ out_is, ltb→le _ _ enough),
      )

  -- For a Raydium AMM V4 pool whose fields fit u64, an exact-out input that is given reaches the
  -- wanted output, and no smaller input that is quoted does.
  pub exact_out_least :
      (want amount_in : ℕ)
      → raydium_amm_v4_in_for_out pool want c ≡ some amount_in
      → ((out : ℕ) × (raydium_amm_v4_out pool amount_in c ≡ some out) × (want ≤ out))
        × ((smaller less : ℕ)
            → smaller < amount_in
            → raydium_amm_v4_out pool smaller c ≡ some less
            → less < want)
  unfolding exact_input
  exact_out_least want amount_in h =
      let (below, is, paid) = exact_out_value want amount_in h in
      (
        paid,
        λ smaller less short quote.
            let (needs, _) = reaches want smaller less below quote in
            elim (Bool-cases (leb want less)) [
              | inl e ↦ absurd (omega (arith, is, needs (leb→le _ _ e)))
              | inr e ↦ leb→lt _ _ e
            ],
      )
