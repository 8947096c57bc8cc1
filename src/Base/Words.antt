-- ===== src/Base/Words.antt =====
-- Machine words: little-endian bytes (`to_le_bytes`, `from_le_bytes`), widths, and the checked and
-- saturating operations of Rust's unsigned integers.
use Prim.Native.Nat.{ℕ, zero, suc, ◌+◌, ◌-◌, ◌*◌, ◌/◌, ◌%◌, ◌^◌, ◌<◌, ◌≤◌}
use mathlib.Core.Path.{◌≡◌, refl, ap}
use mathlib.Core.Option.{Option, none, some}
use mathlib.Core.List.{[], ◌∷◌}
use native.Mathlib.Nat.{pow-suc}
use native.Mathlib.Omega.{arith}
use sol_trade_router_sdk.Base.Tests.{ltb, leb, ◌==◌, if◌then◌else◌}
use sol_trade_router_sdk.Base.Lists.{length}
use sol_trade_router_sdk.Base.Bytes.{Bytes}

abbrev pub max_u16 : ℕ
max_u16 = 2 ^ 16 - 1

abbrev pub max_u64 : ℕ
max_u64 = 2 ^ 64 - 1

abbrev pub max_u128 : ℕ
max_u128 = 2 ^ 128 - 1

abbrev pub IsU16 : ℕ → Type 0
IsU16 n = n < 2 ^ 16

abbrev pub IsU64 : ℕ → Type 0
IsU64 n = n < 2 ^ 64

-- The low `n` bytes of `v`, the lowest first.
unfoldable pub to_le_bytes : ℕ → ℕ → Bytes
to_le_bytes zero v = []
to_le_bytes (suc n) v = (v % 256) ∷ to_le_bytes n (v / 256)

unfoldable pub from_le_bytes : Bytes → ℕ
from_le_bytes [] = 0
from_le_bytes (b ∷ bs) = b + 256 * from_le_bytes bs

pub length-to_le_bytes : (n v : ℕ) → length (to_le_bytes n v) ≡ n
unfolding to_le_bytes
length-to_le_bytes zero v = refl
length-to_le_bytes (suc n) v = ap suc (length-to_le_bytes n (v / 256))

pub from_le_bytes-to_le_bytes : (n v : ℕ) → v < 256 ^ n → from_le_bytes (to_le_bytes n v) ≡ v
unfolding to_le_bytes from_le_bytes
from_le_bytes-to_le_bytes zero v h = omega arith
from_le_bytes-to_le_bytes (suc n) v h =
    omega
      (arith, pow-suc 256 n, from_le_bytes-to_le_bytes n (v / 256) (omega (arith, pow-suc 256 n)))

-- `checked_sub`
abbrev pub checked_sub : ℕ → ℕ → Option ℕ
checked_sub a b = if ltb a b then none else some (a - b)

-- `checked_add`, `checked_mul` and `try_from` at the largest value `top` of the width.
abbrev pub checked_to : ℕ → ℕ → Option ℕ
checked_to top v = if leb v top then some v else none

pub checked_sub-eq-some : (a b : ℕ) {r : ℕ} → checked_sub a b ≡ some r → (b ≤ a) × (a - b ≡ r)
checked_sub-eq-some a b h = ground arith

pub checked_to-eq-some : (top v : ℕ) {r : ℕ} → checked_to top v ≡ some r → (v ≤ top) × (v ≡ r)
checked_to-eq-some top v h = ground arith

pub checked_to_fits : (top v : ℕ) → v ≤ top → checked_to top v ≡ some v
checked_to_fits top v h = ground arith

-- `saturating_add`, `saturating_mul`, at the largest value `top` of the width.
abbrev pub saturate : ℕ → ℕ → ℕ
saturate top v = if leb v top then v else top

-- `div_ceil`, for a divisor that is not 0
unfoldable pub div_ceil : ℕ → ℕ → ℕ
div_ceil a d = if a % d == 0 then a / d else a / d + 1
