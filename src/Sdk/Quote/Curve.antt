-- ===== src/Sdk/Quote/Curve.antt =====
-- The constant-product curve and the input fee that quote.rs computes inline in each market: the
-- facts that the quotes of Raydium AMM V4 and CPMM share.
use sol_trade_router_sdk.Base.{ℕ, ◌+◌, ◌-◌, ◌*◌, ◌/◌, ◌≤◌, ◌<◌, ◌≡◌, ◌↔◌, arith, ap, ◌∙◌}
use sol_trade_router_sdk.Base.Words.{div_ceil}
use sol_trade_router_sdk.Base.Arith.{
  div-le, le-div, div-mul-le, div_ceil_covers, div_ceil_least, div_ceil_share, mul_mono,
  difference_mul, le_of_mul,
}

-- The output for a net input `n` at the reserves `a` (input) and `b` (output).
abbrev pub curve : ℕ → ℕ → ℕ → ℕ
curve a b n = b * n / (a + n)

-- The input that a fee of `rate / whole`, rounded up, leaves.
abbrev pub net : ℕ → ℕ → ℕ → ℕ
net rate whole amount = amount - div_ceil (amount * rate) whole

module _ (a b : ℕ) where
  curve_pays : (n : ℕ) → curve a b n * (a + n) ≤ b * n
  curve_pays n = div-mul-le (b * n) (a + n)

  pub curve_le : (n : ℕ) → 0 < a → curve a b n ≤ b
  curve_le n pos =
      let opened : (b + 1) * (a + n) ≡ b * a + b * n + a + n = grind arith in
      div-le (b * n) (a + n) b (omega arith) (omega (arith, opened))

  -- The output reserve is never paid out whole.
  pub curve_below : (n : ℕ) → 0 < a → 0 < b → curve a b n < b
  curve_below n pos some_left =
      let opened : (b - 1 + 1) * (a + n) ≡ b * a + b * n =
        joined_factor b (a + n) some_left ∙ grind arith in
      let product : 1 ≤ b * a = mul_mono 1 b 1 a some_left pos in
      omega (arith, div-le (b * n) (a + n) (b - 1) (omega arith) (omega (arith, opened, product)))
    where
      joined_factor : (b c : ℕ) → 0 < b → (b - 1 + 1) * c ≡ b * c
      joined_factor b c h = let same : b - 1 + 1 ≡ b = omega arith in ap (λ (t : ℕ). t * c) same

  -- The product of the reserves does not fall.
  pub curve_product : (n : ℕ) → 0 < a → a * b ≤ (a + n) * (b - curve a b n)
  curve_product n pos =
      let apart = difference_mul (curve a b n) b (a + n) (curve_le n pos) in
      let opened : b * (a + n) ≡ a * b + b * n = grind arith in
      let turned : (a + n) * (b - curve a b n) ≡ (b - curve a b n) * (a + n) = grind arith in
      omega (arith, apart, opened, turned, curve_pays n)

  pub curve_mono : (n m : ℕ) → 0 < a → n ≤ m → curve a b n ≤ curve a b m
  curve_mono n m pos le =
      let paid = grown (curve a b n) n m le (curve_le n pos) (curve_pays n) in
      le-div (b * m) (a + m) (curve a b n) (omega arith) paid
    where
      grown : (q n m : ℕ) → n ≤ m → q ≤ b → q * (a + n) ≤ b * n → q * (a + m) ≤ b * m
      grown q n m le low pays =
          let more : q * (m - n) ≤ b * (m - n) = mul_mono q b (m - n) (m - n) low (omega arith) in
          let left : q * (a + m) ≡ q * a + m * q = grind arith in
          let before : q * (a + n) ≡ q * a + n * q = grind arith in
          let right : b * m ≡ m * b = grind arith in
          let was : b * n ≡ n * b = grind arith in
          let over : q * (m - n) ≡ (m - n) * q = grind arith in
          let under : b * (m - n) ≡ (m - n) * b = grind arith in
          let apart_q = difference_mul n m q le in
          let apart_b = difference_mul n m b le in
          omega (arith, more, left, before, right, was, over, under, apart_q, apart_b, pays)

  -- The least net input for a wanted output, as the exact-out functions compute it.
  pub curve_reaches :
      (want n : ℕ) → 0 < a → want < b → (want ≤ curve a b n) ↔ (div_ceil (want * a) (b - want) ≤ n)
  curve_reaches want n pos below = (
    λ reached.
        let paid : want * (a + n) ≤ curve a b n * (a + n) =
          mul_mono want (curve a b n) (a + n) (a + n) reached (omega arith) in
        div_ceil_least (want * a) (b - want) n (omega arith)
          (omega (arith, paid, curve_pays n, left, right)),
    λ enough.
        let covered = div_ceil_covers (want * a) (b - want) (omega arith) in
        let step =
          mul_mono (div_ceil (want * a) (b - want)) n (b - want) (b - want) enough (omega arith) in
        le-div (b * n) (a + n) want (omega arith) (omega (arith, covered, step, left, right)),
  )
    where
      left : want * (a + n) ≡ want * a + want * n
      left = grind arith

      right : b * n ≡ want * n + n * (b - want)
      right = difference_mul want b n (omega arith) ∙ grind arith

module _ (rate whole : ℕ) where
  pub net_fee_le : (amount : ℕ) → 0 < whole → rate ≤ whole → div_ceil (amount * rate) whole ≤ amount
  net_fee_le amount pos low = div_ceil_share amount rate whole pos low

  -- The least gross input for a wanted net input.
  pub net_reaches :
      (n gross : ℕ)
      → rate < whole
      → (n ≤ net rate whole gross) ↔ (div_ceil (n * whole) (whole - rate) ≤ gross)
  net_reaches n gross low = (
    λ reached.
        let fee = div_ceil (gross * rate) whole in
        let covered = div_ceil_covers (gross * rate) whole (omega arith) in
        let paid = mul_mono n (gross - fee) whole whole reached (omega arith) in
        let apart = difference_mul fee gross whole share in
        div_ceil_least (n * whole) (whole - rate) gross (omega arith)
          (omega (arith, covered, paid, apart, split)),
    λ enough.
        let covered = div_ceil_covers (n * whole) (whole - rate) (omega arith) in
        let step =
          mul_mono (div_ceil (n * whole) (whole - rate)) gross (whole - rate) (whole - rate) enough
            (omega arith) in
        let below = le_of_mul n gross whole (omega arith) (omega (arith, covered, step, split)) in
        let apart = difference_mul n gross whole below in
        omega (
          arith,
          below,
          div_ceil_least (gross * rate) whole (gross - n) (omega arith)
              (omega (arith, covered, step, apart, split)),
        ),
  )
    where
      share : div_ceil (gross * rate) whole ≤ gross
      share = net_fee_le gross (omega arith) (omega arith)

      split : gross * whole ≡ gross * rate + gross * (whole - rate)
      split = grind arith

  pub net_mono : (x y : ℕ) → 0 < whole → rate ≤ whole → x ≤ y → net rate whole x ≤ net rate whole y
  net_mono x y pos low le =
      let covered = div_ceil_covers (x * rate) whole pos in
      let step = mul_mono (y - x) (y - x) rate whole (omega arith) low in
      let parts = difference_mul x y rate le in
      let joined : (div_ceil (x * rate) whole + (y - x)) * whole
          ≡ div_ceil (x * rate) whole * whole + (y - x) * whole =
        grind arith in
      let least =
        div_ceil_least (y * rate) whole (div_ceil (x * rate) whole + (y - x)) pos
          (omega (arith, covered, step, parts, joined)) in
      omega (arith, least)
