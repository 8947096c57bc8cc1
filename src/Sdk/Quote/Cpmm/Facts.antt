-- ===== src/Sdk/Quote/Cpmm/Facts.antt =====
-- quote.rs, Raydium CPMM: what the checks of a quote establish, and the quote without saturation and
-- truncation.
use sol_trade_router_sdk.Base.{
  ℕ, ◌+◌, ◌-◌, ◌*◌, ◌≤◌, ◌<◌, ◌≡◌, Bool, true, false, not, ◌==◌, ◌||◌, ==→pos, leb, ltb, leb→lt,
  ltb→le, ne→==, le→ltb, or_split, arith, refl, ap, ◌∙◌, some,
}
use sol_trade_router_sdk.Base.Words.{IsU64, max_u64, max_u128, checked_sub-eq-some}
use sol_trade_router_sdk.Base.Arith.{mul_mono, mul_u64_fits, saturate_exact}
use sol_trade_router_sdk.Sdk.Fallible.{bail_if, ◌>>=◌, bind-eq-some, bailed-eq-some, some-injective}
use sol_trade_router_sdk.Sdk.TransferFee.{FeeFits, calculate}
use sol_trade_router_sdk.Sdk.Quote.Amount.{fee_denom, cpmm_trade_fee}
use sol_trade_router_sdk.Sdk.Quote.Amount.Laws.{cpmm_trade_fee-ceil}
use sol_trade_router_sdk.Sdk.Quote.Curve.{
  curve, net, curve_le, curve_below, curve_product, curve_mono, net_mono,
}
use sol_trade_router_sdk.Sdk.Quote.Cpmm.{
  CpmmPool, CpmmSides, creator_fee_on_input, cpmm_creator_rate, cpmm_sides, cpmm_curve,
  cpmm_swapped, cpmm_out,
}

-- The fields fit their Rust types.
pub record CpmmFits (pool : CpmmPool) : Type 0 where
  pub base_fits : IsU64 pool.base_reserve
  pub quote_fits : IsU64 pool.quote_reserve
  pub base_fee_fits : FeeFits pool.base_transfer_fee
  pub quote_fee_fits : FeeFits pool.quote_transfer_fee

-- The checks on the pool that a quote passes, told of the chosen sides.
pub record SidesOk (pool : CpmmPool) (sides : CpmmSides) : Type 0 where
  pub in_fits : IsU64 sides.input_reserve
  pub out_fits : IsU64 sides.output_reserve
  pub in_fee_fits : FeeFits sides.in_fee
  pub out_fee_fits : FeeFits sides.out_fee
  pub in_rate : sides.in_fee.basis_points ≤ 10000
  pub out_rate : sides.out_fee.basis_points ≤ 10000
  pub in_positive : 0 < sides.input_reserve
  pub out_positive : 0 < sides.output_reserve
  pub rate_below : pool.trade_fee_rate + cpmm_creator_rate pool < 1000000

cpmm_curve_exact : (a b n : ℕ) → 0 < a → IsU64 b → a + n ≤ max_u64 → cpmm_curve a b n ≡ curve a b n
unfolding cpmm_curve
cpmm_curve_exact a b n pos b_fits room =
    let top = saturate_exact max_u128 (b * n) (mul_u64_fits b n b_fits (omega arith)) in
    let bottom = saturate_exact max_u128 (a + n) (omega arith) in
    let paid = curve_le a b n pos in rw top (rw bottom (omega (arith, paid)))

module _ (pool : CpmmPool) (sides : CpmmSides) (fine : SidesOk pool sides) where
  abbrev on_curve : ℕ → ℕ → ℕ
  on_curve rate actual_in =
      curve sides.input_reserve sides.output_reserve (net rate 1000000 actual_in)

  -- Without saturation and truncation.
  pub swapped_value : ℕ → Bool → ℕ
  swapped_value actual_in true = on_curve (pool.trade_fee_rate + cpmm_creator_rate pool) actual_in
  swapped_value actual_in false =
      net (cpmm_creator_rate pool) 1000000 (on_curve pool.trade_fee_rate actual_in)

  after_trade_fee :
      (rate actual_in : ℕ)
      → rate ≤ 1000000
      → sides.input_reserve + actual_in ≤ max_u64
      → cpmm_curve sides.input_reserve sides.output_reserve
          (actual_in - cpmm_trade_fee actual_in rate)
        ≡ on_curve rate actual_in
  after_trade_fee rate actual_in low room =
      rw (cpmm_trade_fee-ceil actual_in rate (omega arith) low) (
        cpmm_curve_exact sides.input_reserve sides.output_reserve (net rate 1000000 actual_in)
          fine.in_positive fine.out_fits (omega arith))

  on_curve_below : (rate actual_in : ℕ) → on_curve rate actual_in < sides.output_reserve
  on_curve_below rate actual_in =
      curve_below sides.input_reserve sides.output_reserve (net rate 1000000 actual_in)
        fine.in_positive fine.out_positive

  pub swapped_exact :
      (actual_in : ℕ) (on_input : Bool)
      → sides.input_reserve + actual_in ≤ max_u64
      → cpmm_swapped pool sides actual_in on_input ≡ swapped_value actual_in on_input
  unfolding cpmm_swapped swapped_value
  swapped_exact actual_in true room =
      let rate = fine.rate_below in
      rw
        (saturate_exact max_u64 (pool.trade_fee_rate + cpmm_creator_rate pool)
          (omega (arith, rate)))
        (after_trade_fee (pool.trade_fee_rate + cpmm_creator_rate pool) actual_in
          (omega (arith, rate)) room)
  swapped_exact actual_in false room =
      let rate = fine.rate_below in
      let small = fine.out_fits in
      let below = on_curve_below pool.trade_fee_rate actual_in in
      rw (after_trade_fee pool.trade_fee_rate actual_in (omega (arith, rate)) room) (
        rw
          (cpmm_trade_fee-ceil (on_curve pool.trade_fee_rate actual_in) (cpmm_creator_rate pool)
            (omega (arith, small, below)) (omega (arith, rate)))
          refl)

  pub swapped_value_mono :
      (x y : ℕ) (on_input : Bool) → x ≤ y → swapped_value x on_input ≤ swapped_value y on_input
  unfolding swapped_value
  swapped_value_mono x y true le =
      let rate = fine.rate_below in
      curve_mono sides.input_reserve sides.output_reserve _ _ fine.in_positive (
        net_mono (pool.trade_fee_rate + cpmm_creator_rate pool) 1000000 x y (omega arith)
          (omega (arith, rate)) le)
  swapped_value_mono x y false le =
      let rate = fine.rate_below in
      net_mono (cpmm_creator_rate pool) 1000000 _ _ (omega arith) (omega (arith, rate)) (
        curve_mono sides.input_reserve sides.output_reserve _ _ fine.in_positive
          (net_mono pool.trade_fee_rate 1000000 x y (omega arith) (omega (arith, rate)) le))

  -- What the pool keeps when it pays no more than the curve.
  kept :
      (rate actual_in out : ℕ)
      → out ≤ on_curve rate actual_in
      → (out < sides.output_reserve)
        × (sides.input_reserve * sides.output_reserve
            ≤ (sides.input_reserve + actual_in) * (sides.output_reserve - out))
  kept rate actual_in out low =
      let below = on_curve_below rate actual_in in
      let product =
        curve_product sides.input_reserve sides.output_reserve (net rate 1000000 actual_in)
          fine.in_positive in
      let more =
        mul_mono (sides.input_reserve + net rate 1000000 actual_in)
          (sides.input_reserve + actual_in) (sides.output_reserve - on_curve rate actual_in)
          (sides.output_reserve - out) (omega arith) (omega arith) in
      (omega (arith, below), omega (arith, product, more))

  pub swapped_value_sound :
      (actual_in : ℕ) (on_input : Bool)
      → (swapped_value actual_in on_input < sides.output_reserve)
        × (sides.input_reserve * sides.output_reserve
            ≤ (sides.input_reserve + actual_in)
              * (sides.output_reserve - swapped_value actual_in on_input))
  unfolding swapped_value
  swapped_value_sound actual_in true =
      kept (pool.trade_fee_rate + cpmm_creator_rate pool) actual_in _ (omega arith)
  swapped_value_sound actual_in false = kept pool.trade_fee_rate actual_in _ (omega arith)

-- No fee raises the output above the curve's, and no fee raises the input.
module _ (pool : CpmmPool) (sides : CpmmSides) (fine : SidesOk pool sides) where
  pub swapped_value_le :
      (actual_in : ℕ) (on_input : Bool)
      → (net_in : ℕ) × (net_in ≤ actual_in)
        × (swapped_value pool sides fine actual_in on_input
            ≤ curve sides.input_reserve sides.output_reserve net_in)
  unfolding swapped_value
  swapped_value_le actual_in true = (
    net (pool.trade_fee_rate + cpmm_creator_rate pool) 1000000 actual_in,
    omega arith,
    omega arith,
  )
  swapped_value_le actual_in false =
      (net pool.trade_fee_rate 1000000 actual_in, omega arith, omega arith)

-- The checks of a quote that do not look at its input.
record Checked (pool : CpmmPool) (base : Bool) : Type 0 where
  known : not pool.fee_rates_known ≡ false
  rates :
      (leb fee_denom (pool.trade_fee_rate + cpmm_creator_rate pool)
        || ltb 10000 pool.base_transfer_fee.basis_points
        || ltb 10000 pool.quote_transfer_fee.basis_points)
      ≡ false
  reserves :
      ((cpmm_sides pool base).input_reserve == 0 || (cpmm_sides pool base).output_reserve == 0)
      ≡ false
  on_input : Bool
  side : creator_fee_on_input pool base ≡ some on_input

module _ (pool : CpmmPool) (base : Bool) where
  checked : (n n_out : ℕ) → cpmm_out pool n base ≡ some n_out → Checked pool base
  unfolding cpmm_out
  checked n n_out h =
      let (known, h1) = bailed-eq-some _ _ h in
      let (rates, h2) = bailed-eq-some _ _ h1 in
      let (given, h3) = bailed-eq-some _ _ h2 in
      let (reserves, h4) = bailed-eq-some _ _ h3 in
      let (actual_in, credited, h5) = bind-eq-some _ _ h4 in
      let (fits, h6) = bailed-eq-some _ _ h5 in
      let (on_input, side, h7) = bind-eq-some _ _ h6 in
      record { known = known; rates = rates; reserves = reserves; on_input = on_input; side = side }

  pub quoted_positive : (n n_out : ℕ) → cpmm_out pool n base ≡ some n_out → 0 < n
  unfolding cpmm_out
  quoted_positive n n_out h =
      let (known, h1) = bailed-eq-some _ _ h in
      let (rates, h2) = bailed-eq-some _ _ h1 in
      let (given, h3) = bailed-eq-some _ _ h2 in ==→pos n given

  -- The same pool quotes every other input whose credit fits.
  pub other_quoted :
      (n n_out m : ℕ)
      → cpmm_out pool n base ≡ some n_out
      → 1 ≤ m
      → calculate (cpmm_sides pool base).in_fee m ≤ m
      → (cpmm_sides pool base).input_reserve + (m - calculate (cpmm_sides pool base).in_fee m)
        ≤ max_u64
      → (m_out : ℕ) × (cpmm_out pool m base ≡ some m_out)
  unfolding cpmm_out bail_if ◌>>=◌
  other_quoted n n_out m h pos covered room =
      let ok = checked n n_out h in
      let sides = cpmm_sides pool base in
      let swapped = cpmm_swapped pool sides (m - calculate sides.in_fee m) ok.on_input in
      (
        swapped - calculate sides.out_fee swapped,
        rw
            (
              ok.known,
              ok.rates,
              ne→== m 0 (λ e. absurd (omega (arith, e, pos))),
              ok.reserves,
              le→ltb m _ covered,
              le→ltb max_u64 _ room,
              ok.side,
            )
            refl,
      )

-- What a quote that is given says of its input: the credited amount, the side that bears the
-- creator's fee, and the output.
pub record Quoted (pool : CpmmPool) (amount_in : ℕ) (base : Bool) (out : ℕ) : Type 0 where
  pub fine : SidesOk pool (cpmm_sides pool base)
  pub on_input : Bool
  pub side : creator_fee_on_input pool base ≡ some on_input
  pub room :
      (cpmm_sides pool base).input_reserve
        + (amount_in - calculate (cpmm_sides pool base).in_fee amount_in)
      ≤ max_u64
  pub covered : calculate (cpmm_sides pool base).in_fee amount_in ≤ amount_in
  pub value :
      cpmm_swapped pool
          (cpmm_sides pool base)
          (amount_in - calculate (cpmm_sides pool base).in_fee amount_in)
          on_input
        - calculate (cpmm_sides pool base).out_fee (
            cpmm_swapped pool
              (cpmm_sides pool base)
              (amount_in - calculate (cpmm_sides pool base).in_fee amount_in)
              on_input)
      ≡ out

module _ (pool : CpmmPool) (fits : CpmmFits pool) (base : Bool) where
  sides_ok :
      (leb fee_denom (pool.trade_fee_rate + cpmm_creator_rate pool)
          || ltb 10000 pool.base_transfer_fee.basis_points
          || ltb 10000 pool.quote_transfer_fee.basis_points)
        ≡ false
      → ((cpmm_sides pool base).input_reserve == 0 || (cpmm_sides pool base).output_reserve == 0)
        ≡ false
      → SidesOk pool (cpmm_sides pool base)
  unfolding cpmm_sides
  sides_ok rates reserves =
      let (in_some, out_some) = or_split _ _ reserves in
      let (earlier, quote_rate) = or_split _ _ rates in
      let (below, base_rate) = or_split _ _ earlier in
      oriented base (leb→lt _ _ below) (ltb→le _ _ base_rate) (ltb→le _ _ quote_rate)
        (==→pos _ in_some) (==→pos _ out_some)
    where
      oriented :
          (base : Bool)
          → pool.trade_fee_rate + cpmm_creator_rate pool < 1000000
          → pool.base_transfer_fee.basis_points ≤ 10000
          → pool.quote_transfer_fee.basis_points ≤ 10000
          → 0 < (cpmm_sides pool base).input_reserve
          → 0 < (cpmm_sides pool base).output_reserve
          → SidesOk pool (cpmm_sides pool base)
      oriented true below base_rate quote_rate in_pos out_pos = record {
        in_fits = fits.base_fits;
        out_fits = fits.quote_fits;
        in_fee_fits = fits.base_fee_fits;
        out_fee_fits = fits.quote_fee_fits;
        in_rate = base_rate;
        out_rate = quote_rate;
        in_positive = in_pos;
        out_positive = out_pos;
        rate_below = below;
      }
      oriented false below base_rate quote_rate in_pos out_pos = record {
        in_fits = fits.quote_fits;
        out_fits = fits.base_fits;
        in_fee_fits = fits.quote_fee_fits;
        out_fee_fits = fits.base_fee_fits;
        in_rate = quote_rate;
        out_rate = base_rate;
        in_positive = in_pos;
        out_positive = out_pos;
        rate_below = below;
      }

  pub quoted :
      (amount_in out : ℕ) → cpmm_out pool amount_in base ≡ some out → Quoted pool amount_in base out
  unfolding cpmm_out
  quoted amount_in out h =
      let (known, h1) = bailed-eq-some _ _ h in
      let (rates, h2) = bailed-eq-some _ _ h1 in
      let (given, h3) = bailed-eq-some _ _ h2 in
      let (reserves, h4) = bailed-eq-some _ _ h3 in
      let (actual_in, credited, h5) = bind-eq-some _ _ h4 in
      let (room, h6) = bailed-eq-some _ _ h5 in
      let (on_input, side, h7) = bind-eq-some _ _ h6 in
      let (covered, actual_is) = checked_sub-eq-some _ _ credited in
      let sides = cpmm_sides pool base in
      record {
        fine = sides_ok rates reserves;
        on_input = on_input;
        side = side;
        room = omega (arith, ltb→le _ _ room, actual_is);
        covered = covered;
        value =
            ap
              (λ (t : ℕ).
                cpmm_swapped pool sides t on_input
                - calculate sides.out_fee (cpmm_swapped pool sides t on_input))
              actual_is
            ∙ some-injective h7;
      }
