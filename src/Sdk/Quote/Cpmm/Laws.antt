-- ===== src/Sdk/Quote/Cpmm/Laws.antt =====
-- quote.rs, Raydium CPMM: the pool can pay the output, and the output grows with the input.
use sol_trade_router_sdk.Base.{ℕ, ◌+◌, ◌-◌, ◌*◌, ◌≤◌, ◌<◌, ◌≡◌, Bool, arith, ap, ◌∙◌, sym, some}
use sol_trade_router_sdk.Base.Words.{IsU64}
use sol_trade_router_sdk.Base.Arith.{mul_mono}
use sol_trade_router_sdk.Sdk.Fallible.{some-injective}
use sol_trade_router_sdk.Sdk.TransferFee.{calculate}
use sol_trade_router_sdk.Sdk.TransferFee.Laws.{after_fee_mono}
use sol_trade_router_sdk.Sdk.Quote.Cpmm.{CpmmPool, cpmm_sides, cpmm_swapped, cpmm_out}
use sol_trade_router_sdk.Sdk.Quote.Cpmm.Facts.{
  CpmmFits, swapped_value, swapped_exact, swapped_value_mono, swapped_value_sound, quoted,
}

module _ (pool : CpmmPool) (fits : CpmmFits pool) (base : Bool) where
  -- For a CPMM pool whose fields fit their types, an output that is quoted is less than the output
  -- reserve, and with the whole input credited the product of the reserves does not fall.
  pub cpmm_out_sound :
      (amount_in out : ℕ)
      → cpmm_out pool amount_in base ≡ some out
      → (out < (cpmm_sides pool base).output_reserve)
        × ((cpmm_sides pool base).input_reserve * (cpmm_sides pool base).output_reserve
            ≤ ((cpmm_sides pool base).input_reserve + amount_in)
              * ((cpmm_sides pool base).output_reserve - out))
  cpmm_out_sound amount_in out h =
      let q = quoted pool fits base amount_in out h in
      let sides = cpmm_sides pool base in
      let actual_in = amount_in - calculate sides.in_fee amount_in in
      let (below, product) = swapped_value_sound pool sides q.fine actual_in q.on_input in
      let exact = swapped_exact pool sides q.fine actual_in q.on_input q.room in
      let more =
        mul_mono (sides.input_reserve + actual_in) (sides.input_reserve + amount_in)
          (sides.output_reserve - swapped_value pool sides q.fine actual_in q.on_input)
          (sides.output_reserve - out) (omega arith) (omega (arith, q.value, exact)) in
      (omega (arith, below, exact, q.value), omega (arith, product, more))

  -- For a CPMM pool whose fields fit their types, of two u64 inputs that are quoted the larger is
  -- never quoted a smaller output, whichever side bears the creator's fee and with the mints'
  -- transfer fees.
  pub cpmm_out_mono :
      (x y out_x out_y : ℕ)
      → x ≤ y
      → IsU64 y
      → cpmm_out pool x base ≡ some out_x
      → cpmm_out pool y base ≡ some out_y
      → out_x ≤ out_y
  cpmm_out_mono x y out_x out_y le small hx hy =
      let p = quoted pool fits base x out_x hx in
      let q = quoted pool fits base y out_y hy in
      let sides = cpmm_sides pool base in
      let fine = q.fine in
      let credited = after_fee_mono sides.in_fee fine.in_fee_fits x y le small fine.in_rate in
      let same = some-injective (sym p.side ∙ q.side) in
      let exact_x =
        swapped_exact pool sides fine (x - calculate sides.in_fee x) q.on_input p.room in
      let exact_y =
        swapped_exact pool sides fine (y - calculate sides.in_fee y) q.on_input q.room in
      let grown = swapped_value_mono pool sides fine _ _ q.on_input credited in
      let (below, _) =
        swapped_value_sound pool sides fine (y - calculate sides.in_fee y) q.on_input in
      let out_fits = fine.out_fits in
      let swapped_x = cpmm_swapped pool sides (x - calculate sides.in_fee x) q.on_input in
      let swapped_y = cpmm_swapped pool sides (y - calculate sides.in_fee y) q.on_input in
      let value_x : swapped_x - calculate sides.out_fee swapped_x ≡ out_x =
        ap
          (λ (t : Bool).
            cpmm_swapped pool sides (x - calculate sides.in_fee x) t
            - calculate sides.out_fee (cpmm_swapped pool sides (x - calculate sides.in_fee x) t))
          (sym same)
        ∙ p.value in
      let received =
        after_fee_mono sides.out_fee fine.out_fee_fits swapped_x swapped_y
          (omega (arith, exact_x, exact_y, grown)) (omega (arith, below, exact_y, out_fits))
          fine.out_rate in
      omega (arith, value_x, q.value, received)
