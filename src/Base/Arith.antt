-- ===== src/Base/Arith.antt =====
-- Rounding up and down, and products of machine words.
use Prim.Native.Nat.{ℕ, ◌+◌, ◌-◌, ◌*◌, ◌/◌, ◌%◌, ◌≤◌, ◌<◌}
use mathlib.Core.Path.{◌≡◌}
use mathlib.Core.Logic.{inl, inr}
use native.Mathlib.Nat.{div-add-mod, mod-lt}
use native.Mathlib.Omega.{arith}
use sol_trade_router_sdk.Base.Tests.{◌==◌, Bool-cases, ==→eq, ==→ne}
use sol_trade_router_sdk.Base.Words.{IsU64, max_u64, max_u128, saturate, div_ceil}

-- A multiple of the divisor covers the quotient: `a < (k + 1) * d` bounds `a / d` by `k`.
pub div-le : (a d k : ℕ) → 0 < d → a < (k + 1) * d → a / d ≤ k
div-le a d k pos h = grind (arith, div-add-mod a d)

pub le-div : (a d k : ℕ) → 0 < d → k * d ≤ a → k ≤ a / d
le-div a d k pos h = grind (arith, div-add-mod a d, mod-lt)

pub div-mul-le : (a d : ℕ) → a / d * d ≤ a
div-mul-le a d = grind (arith, div-add-mod a d)

pub lt-div-mul : (a d : ℕ) → 0 < d → a < a / d * d + d
lt-div-mul a d pos = grind (arith, div-add-mod a d, mod-lt)

pub div_mono : (a b d : ℕ) → 0 < d → a ≤ b → a / d ≤ b / d
div_mono a b d pos h = le-div b d (a / d) pos (omega (arith, div-mul-le a d))

pub mul_mono : (a b c d : ℕ) → a ≤ b → c ≤ d → a * c ≤ b * d
mul_mono a b c d h k = grind arith

-- Rounding up is the least number of divisors that covers the dividend.
pub div_ceil_covers : (a d : ℕ) → 0 < d → a ≤ div_ceil a d * d
unfolding div_ceil
div_ceil_covers a d pos = elim (Bool-cases (a % d == 0)) [
  | inl e ↦ rw e (omega (arith, div-add-mod a d, ==→eq (a % d) 0 e))
  | inr e ↦ rw e (omega (arith, lt-div-mul a d pos))
]

pub div_ceil_least : (a d k : ℕ) → 0 < d → a ≤ k * d → div_ceil a d ≤ k
unfolding div_ceil
div_ceil_least a d k pos h = elim (Bool-cases (a % d == 0)) [
  | inl e ↦ rw e (div-le a d k pos (omega (arith, h)))
  | inr e ↦ rw e (
      grind
        (arith, div-add-mod a d, ==→ne (a % d) 0 e, λ (le : k ≤ a / d). mul_mono k (a / d) d d le))
]

pub div_ceil_mono : (a b d : ℕ) → 0 < d → a ≤ b → div_ceil a d ≤ div_ceil b d
div_ceil_mono a b d pos h =
    div_ceil_least a d (div_ceil b d) pos (omega (arith, div_ceil_covers b d pos))

-- The product of two `u64` values fits `u128`.
pub mul_u64_fits : (a b : ℕ) → IsU64 a → IsU64 b → a * b ≤ max_u128
mul_u64_fits a b h k = omega (arith, mul_mono a max_u64 b max_u64 (omega arith) (omega arith))

pub saturate_exact : (top v : ℕ) → v ≤ top → saturate top v ≡ v
saturate_exact top v h = ground arith

-- Rounding up by adding the divisor less one.
pub div_ceil_floor : (a d : ℕ) → 0 < d → (a + d - 1) / d ≡ div_ceil a d
div_ceil_floor a d pos =
    let covered = div_ceil_covers a d pos in
    let next : (div_ceil a d + 1) * d ≡ div_ceil a d * d + d = grind arith in
    omega (
      arith,
      div-le (a + d - 1) d (div_ceil a d) pos (omega (arith, covered, next)),
      div_ceil_least a d ((a + d - 1) / d) pos (omega (arith, lt-div-mul (a + d - 1) d pos)),
    )

-- The larger factor, parted at the smaller.
pub difference_mul : (a b p : ℕ) → a ≤ b → b * p ≡ a * p + (b - a) * p
difference_mul a b p le = grind arith

pub le_of_mul : (a b d : ℕ) → 0 < d → a * d ≤ b * d → a ≤ b
le_of_mul a b d pos h = grind arith

-- Rounding up a multiple of the divisor and a rest.
pub div_ceil_split : (q r d : ℕ) → 0 < d → div_ceil (q * d + r) d ≡ q + div_ceil r d
div_ceil_split q r d pos =
    let up = div_ceil (q * d + r) d in
    let joined : (q + div_ceil r d) * d ≡ q * d + div_ceil r d * d = grind arith in
    let covered = div_ceil_covers (q * d + r) d pos in
    let over : q ≤ up = le_of_mul q up d pos (omega (arith, covered)) in
    let apart = difference_mul q up d over in
    omega (
      arith,
      div_ceil_least (q * d + r) d (q + div_ceil r d) pos
          (omega (arith, joined, div_ceil_covers r d pos)),
      div_ceil_least r d (up - q) pos (omega (arith, covered, apart)),
    )

-- A share of at most the whole, rounded up, is at most the amount.
pub div_ceil_share : (amount rate d : ℕ) → 0 < d → rate ≤ d → div_ceil (amount * rate) d ≤ amount
div_ceil_share amount rate d pos low =
    div_ceil_least (amount * rate) d amount pos (mul_mono amount amount rate d (omega arith) low)
