-- ===== src/Sdk/Quote/Amount/Laws.antt =====
-- quote.rs: what slippage leaves, the fee that the program charges, and the market fees rounded up.
use sol_trade_router_sdk.Base.{
  ℕ, ◌+◌, ◌-◌, ◌*◌, ◌/◌, ◌%◌, ◌≤◌, ◌<◌, ◌≡◌, min, max, ◌==◌, Bool-cases, inl, inr, ==→eq, le→leb,
  if◌then◌else◌, arith, refl, ap, ◌∙◌,
}
use sol_trade_router_sdk.Base.Words.{IsU64, max_u64, max_u128, div_ceil}
use sol_trade_router_sdk.Base.Arith.{
  div-mul-le, div-le, lt-div-mul, div_ceil_least, mul_mono, mul_u64_fits, saturate_exact,
  div_ceil_floor, div_ceil_split, div_ceil_share,
}
use sol_trade_router_sdk.Program.Error.{ok}
use sol_trade_router_sdk.Program.Route.Checks.{checked_fee}
use sol_trade_router_sdk.Program.Route.Amounts.{checked_fee_exact}
use sol_trade_router_sdk.Sdk.Quote.Amount.{
  clamp_slippage_bps, apply_slippage_min_out, fee_amount, fee_ceil, compute_fee_bps, cpmm_trade_fee,
}

-- The floor of what the clamped tolerance leaves.
abbrev kept : ℕ → ℕ → ℕ
kept amount slippage_bps = amount * (10000 - min slippage_bps 9999) / 10000

kept_le : (amount slippage_bps : ℕ) → kept amount slippage_bps ≤ amount
kept_le amount slippage_bps =
    div-le (amount * (10000 - min slippage_bps 9999)) 10000 amount (omega arith) (
      omega (
        arith,
        mul_mono amount amount (10000 - min slippage_bps 9999) 10000 (omega arith) (omega arith),
      ))

min_out_formula :
    (amount slippage_bps : ℕ)
    → IsU64 amount
    → apply_slippage_min_out amount slippage_bps
      ≡ (if amount == 0 then 0 else max (kept amount slippage_bps) 1)
unfolding apply_slippage_min_out clamp_slippage_bps
min_out_formula amount slippage_bps small =
    let exact =
      saturate_exact max_u128 (amount * (10000 - min slippage_bps 9999))
        (mul_u64_fits amount (10000 - min slippage_bps 9999) small (omega arith)) in
    let fits : min (kept amount slippage_bps) max_u64 ≡ kept amount slippage_bps =
      omega (arith, kept_le amount slippage_bps) in
    rw exact (rw fits refl)

-- For a positive u64 amount the minimum output is at least one and at most the amount, short of
-- the share that the clamped tolerance leaves by less than one unit, and above that share only
-- where it is one.
pub slippage_bounds :
    (amount slippage_bps : ℕ)
    → IsU64 amount
    → 0 < amount
    → (1 ≤ apply_slippage_min_out amount slippage_bps)
      × (apply_slippage_min_out amount slippage_bps ≤ amount)
      × (amount * (10000 - clamp_slippage_bps slippage_bps)
          < (apply_slippage_min_out amount slippage_bps + 1) * 10000)
      × (apply_slippage_min_out amount slippage_bps * 10000
          ≤ max (amount * (10000 - clamp_slippage_bps slippage_bps)) 10000)
unfolding clamp_slippage_bps
slippage_bounds amount slippage_bps small pos =
    let is = min_out_formula amount slippage_bps small in
    let low = kept_le amount slippage_bps in
    let near = lt-div-mul (amount * (10000 - min slippage_bps 9999)) 10000 (omega arith) in
    let share = div-mul-le (amount * (10000 - min slippage_bps 9999)) 10000 in
    elim (Bool-cases (amount == 0)) [
      | inl e ↦ absurd (omega (arith, ==→eq amount 0 e))
      | inr e ↦
          let value : apply_slippage_min_out amount slippage_bps
              ≡ max (kept amount slippage_bps) 1 =
            is ∙ rw e refl in
          (
            omega (arith, value),
            omega (arith, value, low),
            omega (arith, value, near),
            omega (arith, value, share),
          )
    ]

-- For a u64 amount and a rate of at most 10,000 bps, the fee that the SDK expects is the fee that
-- the program computes.
pub fee_amount-checked_fee :
    (amount fee_bps : ℕ)
    → IsU64 amount
    → fee_bps ≤ 10000
    → checked_fee amount fee_bps ≡ ok (fee_amount amount fee_bps)
unfolding fee_amount
fee_amount-checked_fee amount fee_bps small low =
    let exact =
      saturate_exact max_u128 (amount * fee_bps)
        (mul_u64_fits amount fee_bps small (omega arith)) in
    let most : amount * fee_bps / 10000 ≤ amount =
      div-le (amount * fee_bps) 10000 amount (omega arith)
        (omega (arith, mul_mono amount amount fee_bps 10000 (omega arith) low)) in
    let fits : min (amount * fee_bps / 10000) max_u64 ≡ amount * fee_bps / 10000 =
      omega (arith, most) in
    (checked_fee_exact amount fee_bps).0 (omega (arith, most)) ∙ rw exact (rw fits refl)

distributed : (q r a p : ℕ) → a ≡ q * 10000 + r → a * p ≡ q * p * 10000 + r * p
distributed q r a p is =
    let opened : (q * 10000 + r) * p ≡ q * p * 10000 + r * p = grind arith in
    ap (λ (t : ℕ). t * p) is ∙ opened

share_parts : (a p : ℕ) → a * p ≡ a / 10000 * p * 10000 + a % 10000 * p
share_parts a p =
    let parted : a ≡ a / 10000 * 10000 + a % 10000 = omega arith in
    distributed (a / 10000) (a % 10000) a p parted

rounded_fits :
    (whole rest total : ℕ)
    → total ≡ whole * 10000 + rest
    → div_ceil (whole * 10000 + rest) 10000 ≡ whole + div_ceil rest 10000
    → div_ceil total 10000 ≤ total
    → total ≤ max_u128
    → whole + div_ceil rest 10000 ≤ max_u128
rounded_fits whole rest total is joined most fits =
    omega (arith, joined, ap (λ (t : ℕ). div_ceil t 10000) is)

-- For a u64 amount and rate, the fee that is rounded up apart on the whole and the rest is the
-- rounded-up share of the whole amount.
pub compute_fee_bps-ceil :
    (amount points : ℕ)
    → IsU64 amount
    → IsU64 points
    → compute_fee_bps amount points ≡ div_ceil (amount * points) 10000
unfolding compute_fee_bps div_ceil
compute_fee_bps-ceil amount points small rate =
    let product = mul_u64_fits amount points small rate in
    let parts : amount * points ≡ amount / 10000 * points * 10000 + amount % 10000 * points =
      share_parts amount points in
    let joined =
      div_ceil_split (amount / 10000 * points) (amount % 10000 * points) 10000 (omega arith) in
    let most =
      div_ceil_least (amount * points) 10000 (amount * points) (omega arith) (omega arith) in
    let whole_fits = le→leb (amount / 10000 * points) max_u128 (omega arith) in
    let rem_fits = le→leb (amount % 10000 * points) max_u128 (omega arith) in
    rw (whole_fits, compute_fee_bps)
      (rw rem_fits (
        rw parts (
          rw joined (
            saturate_exact max_u128
              (amount / 10000 * points + div_ceil (amount % 10000 * points) 10000)
              (rounded_fits _ _ _ parts joined most product)))))

-- The market's fee is the rounded-up share, at a rate of at most 100%.
pub cpmm_trade_fee-ceil :
    (amount rate : ℕ)
    → IsU64 amount
    → rate ≤ 1000000
    → cpmm_trade_fee amount rate ≡ div_ceil (amount * rate) 1000000
unfolding cpmm_trade_fee
cpmm_trade_fee-ceil amount rate small low =
    let exact =
      saturate_exact max_u128 (amount * rate) (mul_u64_fits amount rate small (omega arith)) in
    rw exact (
      omega (
        arith,
        div_ceil_floor (amount * rate) 1000000 (omega arith),
        div_ceil_share amount rate 1000000 (omega arith) low,
      ))

pub fee_ceil_exact :
    (amount rate : ℕ)
    → amount * rate ≤ max_u128
    → fee_ceil amount rate ≡ div_ceil (amount * rate) 1000000
unfolding fee_ceil
fee_ceil_exact amount rate fits = rw (saturate_exact max_u128 (amount * rate) fits) refl
