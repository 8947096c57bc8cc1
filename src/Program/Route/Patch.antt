-- ===== src/Program/Route/Patch.antt =====
-- route.rs, `patch_second_leg_amount`: only the amount field of the leg's data changes.
use sol_trade_router_sdk.Base.{
  ℕ, ◌+◌, ◌-◌, ◌≤◌, ◌≡◌, refl, true, length, take, drop, leb, arith, le→leb,
}
use sol_trade_router_sdk.Base.Bytes.{
  Bytes, write_at, zeros, length-write_at, slice-write_at, take-write_at, drop-write_at,
  write_in_scratch,
}
use sol_trade_router_sdk.Base.Words.{
  IsU64, to_le_bytes, length-to_le_bytes, from_le_bytes-to_le_bytes,
}
use sol_trade_router_sdk.Program.Error.{ok, ok_or, ◌>>=◌}
use sol_trade_router_sdk.Program.Route.Layout.{max_dynamic_leg_data}
use sol_trade_router_sdk.Program.Route.Checks.{patch_second_leg_amount, read_u64}

-- Within the buffer and the data, the patch is a write of eight bytes into the data.
pub patch_lem :
    (d : Bytes) (amount offset : ℕ)
    → offset + 8 ≤ length d
    → length d ≤ max_dynamic_leg_data
    → patch_second_leg_amount d amount offset ≡ ok (write_at d offset (to_le_bytes 8 amount))
unfolding patch_second_leg_amount
patch_lem d amount offset inside short =
    let fits : offset + length (to_le_bytes 8 amount) ≤ length d =
      omega (arith, length-to_le_bytes 8 amount, inside) in
    let ends : offset + 8 ≤ max_dynamic_leg_data = omega arith in
    rw
      (
        le→leb (length d) max_dynamic_leg_data short,
        le→leb (offset + 8) max_dynamic_leg_data ends,
        write_in_scratch (zeros max_dynamic_leg_data) d offset (to_le_bytes 8 amount) fits,
      )
      refl

-- What is read back from the bytes that a write of a `u64` left.
pub read_u64-write_at :
    (d : Bytes) (offset amount : ℕ)
    → offset + 8 ≤ length d
    → IsU64 amount
    → read_u64 (write_at d offset (to_le_bytes 8 amount)) offset ≡ ok amount
unfolding read_u64 ok_or ◌>>=◌
read_u64-write_at d offset amount inside fits =
    let w = write_at d offset (to_le_bytes 8 amount) in
    let n : length (to_le_bytes 8 amount) ≡ 8 = length-to_le_bytes 8 amount in
    let kept : length w ≡ length d =
      length-write_at d offset (to_le_bytes 8 amount) (omega (arith, n)) in
    let eight : offset + 8 - offset ≡ length (to_le_bytes 8 amount) = omega (arith, n) in
    let first : leb offset (offset + 8) ≡ true = le→leb _ _ (omega arith) in
    let last : leb (offset + 8) (length w) ≡ true = le→leb _ _ (omega arith) in
    rw
      (
        first,
        last,
        eight,
        slice-write_at d offset (to_le_bytes 8 amount) (omega arith),
        from_le_bytes-to_le_bytes 8 amount fits,
      )
      refl

-- What a patched leg is: as long as the data, with `amount` at the offset, and with the bytes before
-- and behind the amount unchanged.
pub record IsPatched (d : Bytes) (amount offset : ℕ) (out : Bytes) : Type 0 where
  pub same_length : length out ≡ length d
  pub amount_read : read_u64 out offset ≡ ok amount
  pub before_kept : take offset out ≡ take offset d
  pub behind_kept : drop (offset + 8) out ≡ drop (offset + 8) d

-- For a u64 amount whose field lies inside data of at most 49 bytes, patching returns data of the
-- same length, with the amount in the field and the bytes before and behind the field unchanged.
pub patch_second_leg_amount-IsPatched :
    (d : Bytes) (amount offset : ℕ)
    → IsU64 amount
    → offset + 8 ≤ length d
    → length d ≤ max_dynamic_leg_data
    → (out : Bytes) × (patch_second_leg_amount d amount offset ≡ ok out)
      × IsPatched d amount offset out
patch_second_leg_amount-IsPatched d amount offset fits inside short =
    let src = to_le_bytes 8 amount in
    let n : length src ≡ 8 = length-to_le_bytes 8 amount in
    let eight : offset + 8 ≡ offset + length src = omega arith in
    (
      write_at d offset src,
      patch_lem d amount offset inside short,
      record {
        same_length = length-write_at d offset src (omega arith);
        amount_read = read_u64-write_at d offset amount inside fits;
        before_kept = take-write_at d offset src (omega arith);
        behind_kept = rw eight (drop-write_at d offset src (omega arith));
      },
    )
