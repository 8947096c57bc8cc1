-- ===== src/Base/Bytes.antt =====
-- Byte strings as lists of numbers: comparison, ranges (`data.get(i..j)`) and writes into a range
-- (`dst[i..i + n].copy_from_slice(src)`).
use Prim.Native.Nat.{ℕ, zero, suc, ◌+◌, ◌-◌, ◌≤◌}
use mathlib.Core.Path.{◌≡◌, refl, sym, ap, ◌∙◌}
use mathlib.Core.Logic.{◌≢◌}
use mathlib.Core.Bool.{Bool, true, false, ◌&&◌}
use mathlib.Core.Option.{Option, none, some}
use mathlib.Core.List.{List, [], ◌∷◌, ◌++◌}
use native.Mathlib.Omega.{arith}
use sol_trade_router_sdk.Base.Tests.{leb, ◌==◌, if◌then◌else◌}
use sol_trade_router_sdk.Base.Lists.{
  length, take, drop, replicate, length-take, length-drop, length-append, take-append_eq,
  drop-append_eq, append_assoc,
}

abbrev pub Bytes : Type 0
Bytes = List ℕ

unfoldable pub bytes_eq : Bytes → Bytes → Bool
bytes_eq [] [] = true
bytes_eq [] (y ∷ ys) = false
bytes_eq (x ∷ xs) [] = false
bytes_eq (x ∷ xs) (y ∷ ys) = x == y && bytes_eq xs ys

pub bytes_eq→eq : (xs ys : Bytes) → bytes_eq xs ys ≡ true → xs ≡ ys
unfolding bytes_eq
bytes_eq→eq [] [] h = refl
bytes_eq→eq [] (y ∷ ys) h = cc
bytes_eq→eq (x ∷ xs) [] h = cc
bytes_eq→eq (x ∷ xs) (y ∷ ys) h = ground (arith, bytes_eq→eq xs ys)

pub bytes_eq_refl : (xs : Bytes) → bytes_eq xs xs ≡ true
unfolding bytes_eq
bytes_eq_refl [] = refl
bytes_eq_refl (x ∷ xs) = ground (arith, bytes_eq_refl xs)

pub eq→bytes_eq : (xs ys : Bytes) → xs ≡ ys → bytes_eq xs ys ≡ true
eq→bytes_eq xs ys h = ap (λ t. bytes_eq xs t) (sym h) ∙ bytes_eq_refl xs

pub ne→bytes_eq : (xs ys : Bytes) → xs ≢ ys → bytes_eq xs ys ≡ false
ne→bytes_eq xs ys h = ground (arith, bytes_eq→eq xs ys)

pub bytes_eq→ne : (xs ys : Bytes) → bytes_eq xs ys ≡ false → xs ≢ ys
bytes_eq→ne xs ys h e = cc (eq→bytes_eq xs ys e)

-- `&data[i..i + n]`, read inside the bounds.
abbrev pub slice : Bytes → ℕ → ℕ → Bytes
slice d i n = take n (drop i d)

-- `data.get(i..j)`
abbrev pub get_range : Bytes → ℕ → ℕ → Option Bytes
get_range d i j = if leb i j && leb j (length d) then some (slice d i (j - i)) else none

-- `dst[i..i + src.len()].copy_from_slice(src)`, inside the bounds.
unfoldable pub write_at : Bytes → ℕ → Bytes → Bytes
write_at d i src = take i d ++ (src ++ drop (i + length src) d)

pub length-slice : (d : Bytes) (i n : ℕ) → i + n ≤ length d → length (slice d i n) ≡ n
length-slice d i n h = omega (arith, length-take n (drop i d), length-drop i d)

pub length-write_at :
    (d : Bytes) (i : ℕ) (src : Bytes)
    → i + length src ≤ length d
    → length (write_at d i src) ≡ length d
unfolding write_at
length-write_at d i src h = omega (
  arith,
  length-append (take i d) (src ++ drop (i + length src) d),
  length-append src (drop (i + length src) d),
  length-take i d,
  length-drop (i + length src) d,
)

-- What was written is read back.
pub slice-write_at :
    (d : Bytes) (i : ℕ) (src : Bytes) → i ≤ length d → slice (write_at d i src) i (length src) ≡ src
unfolding write_at
slice-write_at d i src h =
    rw
      (drop-append_eq i (take i d) (src ++ drop (i + length src) d)
        (omega (arith, length-take i d)))
      (take-append_eq (length src) src (drop (i + length src) d) refl)

-- The bytes before the range stay.
pub take-write_at :
    (d : Bytes) (i : ℕ) (src : Bytes) → i ≤ length d → take i (write_at d i src) ≡ take i d
unfolding write_at
take-write_at d i src h =
    take-append_eq i (take i d) (src ++ drop (i + length src) d) (omega (arith, length-take i d))

-- The bytes after the range stay.
pub drop-write_at :
    (d : Bytes) (i : ℕ) (src : Bytes)
    → i ≤ length d
    → drop (i + length src) (write_at d i src) ≡ drop (i + length src) d
unfolding write_at
drop-write_at d i src h = rw (← append_assoc (take i d) src (drop (i + length src) d)) (
    drop-append_eq (i + length src) (take i d ++ src) (drop (i + length src) d)
      (omega (arith, length-append (take i d) src, length-take i d)))

abbrev pub zeros : ℕ → Bytes
zeros n = replicate n 0

pub take-append_le : (n : ℕ) (xs ys : Bytes) → n ≤ length xs → take n (xs ++ ys) ≡ take n xs
take-append_le zero xs ys h = refl
take-append_le (suc n) [] ys h = absurd (omega arith)
take-append_le (suc n) (x ∷ xs) ys h = ap (λ t. x ∷ t) (take-append_le n xs ys (omega arith))

pub drop-append_le : (n : ℕ) (xs ys : Bytes) → n ≤ length xs → drop n (xs ++ ys) ≡ drop n xs ++ ys
drop-append_le zero xs ys h = refl
drop-append_le (suc n) [] ys h = absurd (omega arith)
drop-append_le (suc n) (x ∷ xs) ys h = drop-append_le n xs ys (omega arith)

-- A write inside a prefix leaves the rest of the buffer.
pub write_at-append :
    (d t : Bytes) (i : ℕ) (src : Bytes)
    → i + length src ≤ length d
    → write_at (d ++ t) i src ≡ write_at d i src ++ t
unfolding write_at
write_at-append d t i src h =
    rw
      (
        take-append_le i d t (omega arith),
        drop-append_le (i + length src) d t h,
        append_assoc (take i d) (src ++ drop (i + length src) d) t,
        append_assoc src (drop (i + length src) d) t,
      )
      refl

-- Copying a string into the start of a scratch buffer, writing inside it, and taking the string's
-- length back is a write into the string.
pub write_in_scratch :
    (scratch d : Bytes) (i : ℕ) (src : Bytes)
    → i + length src ≤ length d
    → take (length d) (write_at (write_at scratch 0 d) i src) ≡ write_at d i src
write_in_scratch scratch d i src h =
    let e : write_at scratch 0 d ≡ d ++ drop (length d) scratch =
      unfold write_at in ap (λ (k : ℕ). d ++ drop k scratch) (zero_add (length d)) in
    rw (e, write_at-append d (drop (length d) scratch) i src h)
      (take-append_eq (length d) (write_at d i src) (drop (length d) scratch)
        (sym (length-write_at d i src h)))
  where
    zero_add : (n : ℕ) → 0 + n ≡ n
    zero_add n = omega arith
