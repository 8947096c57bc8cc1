-- ===== src/Sdk/TransferFee/Laws.antt =====
-- transfer_fee.rs: bounds, monotonicity, and that the inverse covers the fee.
use sol_trade_router_sdk.Base.{
  ℕ, ◌+◌, ◌-◌, ◌*◌, ◌≤◌, ◌<◌, ◌≡◌, min, true, ◌||◌, ◌==◌, Bool-cases, inl, inr, ==→eq, leb, leb→le,
  leb→lt, arith, refl, ap, sym,
}
use sol_trade_router_sdk.Base.Words.{IsU64, max_u128, div_ceil}
use sol_trade_router_sdk.Base.Arith.{
  div_ceil_covers, div_ceil_least, div_ceil_mono, difference_mul, mul_mono, mul_u64_fits,
  saturate_exact,
}
use sol_trade_router_sdk.Sdk.TransferFee.{TokenTransferFee, FeeFits, calculate, calculate_inverse}

-- The plain formula, that no saturation and no early return changes.
abbrev fee_formula : TokenTransferFee → ℕ → ℕ
fee_formula fee amount = min (div_ceil (amount * fee.basis_points) 10000) fee.maximum_fee

div_ceil-zero : (d : ℕ) → 0 < d → div_ceil 0 d ≡ 0
div_ceil-zero d pos = omega (arith, div_ceil_least 0 d 0 pos (omega arith))

points-IsU64 : (fee : TokenTransferFee) → FeeFits fee → IsU64 fee.basis_points
points-IsU64 fee fits = omega arith

-- Where the code returns 0 early, so does the formula.
early_zero :
    (b m x d : ℕ) → 0 < d → (b == 0 || x == 0 || m == 0) ≡ true → min (div_ceil (x * b) d) m ≡ 0
early_zero b m x d pos h = elim (Bool-cases (b == 0)) [
  | inl e ↦
      let z : x * b ≤ 0 * d = omega (arith, ap (λ (t : ℕ). x * t) (==→eq b 0 e)) in
      omega (arith, div_ceil_least (x * b) d 0 pos z)
  | inr other ↦ elim (Bool-cases (x == 0)) [
    | inl e ↦
        let z : x * b ≤ 0 * d = omega (arith, ap (λ (t : ℕ). t * b) (==→eq x 0 e)) in
        omega (arith, div_ceil_least (x * b) d 0 pos z)
    | inr more ↦ ground arith
  ]
]

calculate-formula :
    (fee : TokenTransferFee) (amount : ℕ)
    → FeeFits fee
    → IsU64 amount
    → calculate fee amount ≡ fee_formula fee amount
unfolding calculate
calculate-formula fee amount fits small =
    rw
      (saturate_exact max_u128 (amount * fee.basis_points)
        (mul_u64_fits amount fee.basis_points small (points-IsU64 fee fits)))
      (elim (Bool-cases (fee.basis_points == 0 || amount == 0 || fee.maximum_fee == 0)) [
        | inl e ↦
            rw e (sym (early_zero fee.basis_points fee.maximum_fee amount 10000 (omega arith) e))
        | inr e ↦ rw e
      ])

covered_at :
    (p b k : ℕ)
    → k ≡ div_ceil (p * b) (10000 - b)
    → p * b ≤ div_ceil (p * b) (10000 - b) * (10000 - b)
    → p * b ≤ k * (10000 - b)
covered_at p b k is covered = rw is covered

-- With `k` the rounded-up share to add, `p + k` bears a fee of at most `k`.
inverse_step :
    (p b m : ℕ)
    → b < 10000
    → (k : ℕ) (is : k ≡ div_ceil (p * b) (10000 - b))
    → min (div_ceil ((p + min k m) * b) 10000) m ≤ min k m
inverse_step p b m low k is = elim (Bool-cases (leb m k)) [
  | inl e ↦ omega (arith, leb→le m k e)
  | inr e ↦
      let covered = div_ceil_covers (p * b) (10000 - b) (omega arith) in
      let split : k * (10000 - b) + k * b ≡ k * 10000 = grind arith in
      let more : (p + k) * b ≡ p * b + k * b = grind arith in
      let small : min k m ≡ k = omega (arith, leb→lt m k e) in
      rw small (
        omega (
          arith,
          div_ceil_least ((p + k) * b) 10000 k (omega arith)
              (omega (arith, more, split, covered_at p b k is covered)),
        ))
]

module _ (fee : TokenTransferFee) (fits : FeeFits fee) where
  -- For a fee whose fields fit their types, the transfer fee of a u64 amount never passes its
  -- maximum, and at a rate of at most 100% never passes the amount.
  pub calculate_bounds :
      (amount : ℕ)
      → IsU64 amount
      → (calculate fee amount ≤ fee.maximum_fee)
        × (fee.basis_points ≤ 10000 → calculate fee amount ≤ amount)
  calculate_bounds amount small =
      let e = calculate-formula fee amount fits small in
      (
        omega (arith, e),
        λ low.
            let most : amount * fee.basis_points ≤ amount * 10000 =
              mul_mono amount amount _ _ (omega arith) low in
            omega (
              arith,
              e,
              div_ceil_least (amount * fee.basis_points) 10000 amount (omega arith) most,
            ),
      )

  pub calculate_mono : (a b : ℕ) → a ≤ b → IsU64 b → calculate fee a ≤ calculate fee b
  calculate_mono a b le small = omega (
    arith,
    calculate-formula fee a fits (omega arith),
    calculate-formula fee b fits small,
    div_ceil_mono (a * fee.basis_points) (b * fee.basis_points) 10000 (omega arith)
        (mul_mono a b fee.basis_points fee.basis_points le (omega arith)),
  )

  -- For a fee whose fields fit their types, at a rate of at most 100%, of two u64 amounts the
  -- larger leaves no less behind its fee.
  pub after_fee_mono :
      (a b : ℕ)
      → a ≤ b
      → IsU64 b
      → fee.basis_points ≤ 10000
      → a - calculate fee a ≤ b - calculate fee b
  after_fee_mono a b le small low =
      let ea = calculate-formula fee a fits (omega arith) in
      let eb = calculate-formula fee b fits small in
      let covered = div_ceil_covers (a * fee.basis_points) 10000 (omega arith) in
      let step = mul_mono (b - a) (b - a) _ _ (omega arith) low in
      let split = difference_mul a b fee.basis_points le in
      let least =
        div_ceil_least (b * fee.basis_points) 10000
          (div_ceil (a * fee.basis_points) 10000 + (b - a)) (omega arith)
          (omega (arith, covered, step, split)) in
      omega (arith, ea, eb, least)

  -- For a fee whose fields fit their types, where the amount with its inverse fee fits u64, the
  -- transfer fee on that sum is no more than the inverse fee, so the recipient receives at least
  -- the amount.
  pub inverse_covers :
      (post : ℕ)
      → IsU64 (post + calculate_inverse fee post)
      → post + calculate fee (post + calculate_inverse fee post) ≤ post + calculate_inverse fee post
  unfolding calculate_inverse
  inverse_covers post small =
      let is = calculate-formula fee (post + calculate_inverse fee post) fits small in
      elim (Bool-cases (fee.basis_points == 0 || post == 0 || fee.maximum_fee == 0)) [
        | inl e ↦
            let none_left =
              early_zero fee.basis_points fee.maximum_fee post 10000 (omega arith) e in
            let alone : post + 0 ≡ post = omega arith in
            rw is (rw e (rw alone (rw none_left (omega arith))))
        | inr e ↦ elim (Bool-cases (leb 10000 fee.basis_points)) [
          | inl high ↦ rw is (rw e (rw high (omega arith)))
          | inr low ↦
              let points = leb→lt 10000 fee.basis_points low in
              let exact =
                saturate_exact max_u128 (post * fee.basis_points)
                  (mul_u64_fits post fee.basis_points (omega arith) (points-IsU64 fee fits)) in
              rw is (
                rw e (
                  rw low (
                    rw exact (
                      omega (
                        arith,
                        inverse_step post fee.basis_points fee.maximum_fee points
                            (div_ceil (post * fee.basis_points) (10000 - fee.basis_points)) refl,
                      )))))
        ]
      ]
