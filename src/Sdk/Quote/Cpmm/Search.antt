-- ===== src/Sdk/Quote/Cpmm/Search.antt =====
-- quote.rs: the three loops of `cpmm_in_for_out`, over the quote or the credited amount that they
-- search. `found` is a result, `failed` an error, and `stuck` means that the fuel ran out.
use sol_trade_router_sdk.Base.{
  ℕ, zero, suc, ◌+◌, ◌-◌, ◌*◌, ◌/◌, ◌%◌, min, max, ltb, leb, if◌then◌else◌, Option, none, some,
}
use sol_trade_router_sdk.Base.Words.{max_u64, saturate}

pub data Search : Type 0 where
  found : ℕ → Search
  failed : Search
  stuck : Search

-- The largest gross input whose credit fits the capacity.
unfoldable pub highest_loop : ℕ → (ℕ → ℕ) → ℕ → ℕ → ℕ → Search
highest_loop zero credit capacity lo hi = stuck
highest_loop (suc fuel) credit capacity lo hi =
    let distance = hi - lo in
    let mid = lo + distance / 2 + distance % 2 in
    let raised = highest_loop fuel credit capacity mid hi in
    let lowered = highest_loop fuel credit capacity lo (mid - 1) in
    if ltb lo hi then (if leb (credit mid) capacity then raised else lowered) else found lo

-- `quote(n)?` in a search
abbrev pub on_quote : Option ℕ → (ℕ → Search) → Search
on_quote none rest = failed
on_quote (some out) rest = rest out

-- The upper bound is doubled until its quote reaches the wanted output.
unfoldable pub grow_loop : ℕ → (ℕ → Option ℕ) → ℕ → ℕ → ℕ → Search
grow_loop zero quote want top hi = stuck
grow_loop (suc fuel) quote want top hi = on_quote (quote hi) (λ out.
    let next = min (max (saturate max_u64 (hi * 2)) (saturate max_u64 (hi + 1))) top in
    let grown = grow_loop fuel quote want top next in if ltb out want then grown else found hi)

-- The least input whose quote reaches the wanted output.
unfoldable pub lowest_loop : ℕ → (ℕ → Option ℕ) → ℕ → ℕ → ℕ → Search
lowest_loop zero quote want lo hi = stuck
lowest_loop (suc fuel) quote want lo hi =
    let mid = lo + (hi - lo) / 2 in
    let searched = on_quote (quote mid) (λ out.
      let reached = lowest_loop fuel quote want lo mid in
      let short = lowest_loop fuel quote want (mid + 1) hi in
      if leb want out then reached else short) in
    if ltb lo hi then searched else found lo
