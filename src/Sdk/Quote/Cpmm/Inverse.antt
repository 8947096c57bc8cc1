-- ===== src/Sdk/Quote/Cpmm/Inverse.antt =====
-- crates/sdk/src/quote.rs: `cpmm_in_for_out`, the exact-out inverse of the CPMM quote. The vault
-- capacity and the bounds are `u64`, so 65 rounds of each loop are enough.
use sol_trade_router_sdk.Base.{ℕ, ◌+◌, ◌-◌, ◌*◌, min, max, Bool, ltb, leb, ◌==◌, if◌then◌else◌}
use sol_trade_router_sdk.Base.Words.{max_u64, max_u128, saturate, checked_to, div_ceil}
use sol_trade_router_sdk.Sdk.TransferFee.{calculate}
use sol_trade_router_sdk.Sdk.Quote.Cpmm.{CpmmPool, CpmmSides, cpmm_sides, cpmm_out}
use sol_trade_router_sdk.Sdk.Quote.Cpmm.Search.{
  Search, found, failed, stuck, on_quote, highest_loop, grow_loop, lowest_loop,
}

abbrev pub on_found : Search → (ℕ → Search) → Search
on_found (found n) rest = rest n
on_found failed rest = failed
on_found stuck rest = stuck

-- The search from the net estimate, once the largest input is known to reach the output.
unfoldable pub search_from : CpmmPool → CpmmSides → ℕ → Bool → ℕ → Search
search_from pool sides amount_out input_is_base max_input =
    on_quote
      (checked_to max_u64 (
        div_ceil (saturate max_u128 (amount_out * sides.input_reserve))
          (sides.output_reserve - amount_out)))
      (λ naive.
        let lo = max naive 1 in
        let hi = min (saturate max_u64 (saturate max_u64 (lo * 2) + 10000)) max_input in
        on_found (grow_loop 65 (λ n. cpmm_out pool n input_is_base) amount_out max_input hi)
          (λ top. lowest_loop 65 (λ n. cpmm_out pool n input_is_base) amount_out lo top))

unfoldable pub cpmm_in_for_out : CpmmPool → ℕ → Bool → Search
cpmm_in_for_out pool amount_out input_is_base =
    let sides = cpmm_sides pool input_is_base in
    if amount_out == 0
    then found 0
    else if leb sides.output_reserve amount_out
    then failed
    else on_quote (cpmm_out pool 1 input_is_base) (λ _.
      let capacity = max_u64 - sides.input_reserve in
      on_found (highest_loop 65 (λ mid. mid - calculate sides.in_fee mid) capacity 0 max_u64)
        (λ max_input.
          if max_input == 0
          then failed
          else on_quote (cpmm_out pool max_input input_is_base) (λ top_out.
            if ltb top_out amount_out
            then failed
            else search_from pool sides amount_out input_is_base max_input)))
