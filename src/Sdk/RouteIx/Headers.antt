-- ===== src/Sdk/RouteIx/Headers.antt =====
-- crates/sdk/src/route_ix.rs against programs/sol-trade-router/src/instructions/route.rs: what
-- `parse_header` finds in the headers that the builders wrote.
use sol_trade_router_sdk.Base.{
  ℕ, ◌≤◌, ◌<◌, ◌≡◌, refl, ◌∙◌, [], ◌∷◌, ◌++◌, length, ltb, ◌==◌, ne→==, le→ltb, le→leb,
  append_assoc, length-append, arith, false, bit_and, not,
}
use sol_trade_router_sdk.Base.Bytes.{Bytes}
use sol_trade_router_sdk.Base.Words.{IsU64, to_le_bytes, length-to_le_bytes}
use sol_trade_router_sdk.Program.Error.{ok, index, reject_if, ◌>>=◌}
use sol_trade_router_sdk.Program.Route.Input.{parse_header}
use sol_trade_router_sdk.Sdk.RouteIx.Build.{header_bytes}
use sol_trade_router_sdk.Sdk.RouteIx.Reads.{
  Holds, Holds-length, skip, get_range-Holds, get_elem-Holds, read_u64-Holds,
}

-- The fields of a header in their places, and what follows them.
pub record Laid (d : Bytes) (amount_in min_amount_out fee_asset legs : ℕ) (mint rest : Bytes)
    : Type 0 where
  pub amount : Holds d 0 (
      to_le_bytes 8 amount_in
      ++ (to_le_bytes 8 min_amount_out ++ (fee_asset ∷ legs ∷ (mint ++ rest))))
  pub minimum : Holds d 8 (to_le_bytes 8 min_amount_out ++ (fee_asset ∷ legs ∷ (mint ++ rest)))
  pub asset : Holds d 16 (fee_asset ∷ legs ∷ (mint ++ rest))
  pub count : Holds d 17 (legs ∷ (mint ++ rest))
  pub output : Holds d 18 (mint ++ rest)
  pub further : Holds d 50 rest

-- The fields of a header, one after the other.
header_fields :
    (amount_in min_amount_out fee_asset legs : ℕ) (mint rest : Bytes)
    → header_bytes amount_in min_amount_out fee_asset legs mint ++ rest
      ≡ to_le_bytes 8 amount_in
        ++ (to_le_bytes 8 min_amount_out ++ (fee_asset ∷ legs ∷ (mint ++ rest)))
unfolding header_bytes
header_fields amount_in min_amount_out fee_asset legs mint rest =
    rw
      (
        append_assoc (to_le_bytes 8 amount_in)
            (to_le_bytes 8 min_amount_out ++ (fee_asset ∷ legs ∷ mint)) rest,
        append_assoc (to_le_bytes 8 min_amount_out) (fee_asset ∷ legs ∷ mint) rest,
      )
      refl

pub header_bytes-Laid :
    {d : Bytes} (amount_in min_amount_out fee_asset legs : ℕ) (mint rest : Bytes)
    → d ≡ header_bytes amount_in min_amount_out fee_asset legs mint ++ rest
    → length mint ≡ 32
    → Laid d amount_in min_amount_out fee_asset legs mint rest
header_bytes-Laid {d = d} amount_in min_amount_out fee_asset legs mint rest e h =
    let at0 : Holds d 0 (
        to_le_bytes 8 amount_in
        ++ (to_le_bytes 8 min_amount_out ++ (fee_asset ∷ legs ∷ (mint ++ rest)))) =
      ([], e ∙ header_fields amount_in min_amount_out fee_asset legs mint rest, refl) in
    let at8 : Holds d 8 (to_le_bytes 8 min_amount_out ++ (fee_asset ∷ legs ∷ (mint ++ rest))) =
      skip 8 (to_le_bytes 8 amount_in) _ at0 (omega (arith, length-to_le_bytes 8 amount_in)) in
    let at16 : Holds d 16 (fee_asset ∷ legs ∷ (mint ++ rest)) =
      skip 16 (to_le_bytes 8 min_amount_out) _ at8
        (omega (arith, length-to_le_bytes 8 min_amount_out)) in
    let at17 : Holds d 17 (legs ∷ (mint ++ rest)) = skip 17 (fee_asset ∷ []) _ at16 (omega arith) in
    let at18 : Holds d 18 (mint ++ rest) = skip 18 (legs ∷ []) _ at17 (omega arith) in
    record {
      amount = at0;
      minimum = at8;
      asset = at16;
      count = at17;
      output = at18;
      further = skip 50 mint rest at18 (omega (arith, h));
    }

-- The header of a dynamic route of two legs.
pub parse_header-dynamic :
    {d : Bytes} (a m i : ℕ) (mint rest : Bytes)
    → Laid d a m 1 2 mint (to_le_bytes 8 i ++ rest)
    → length mint ≡ 32
    → IsU64 a × IsU64 m × IsU64 i
    → 0 < a × 0 < i × 0 < m
    → parse_header d 1
      ≡ ok (record {
        amount_in = a;
        min_amount_out = m;
        num_legs = 2;
        expected_output_mint = mint;
        intermediate_min_out = i;
        second_intermediate_min_out = 0;
        exact_out = false;
        fee_asset = 1;
      })
unfolding parse_header index reject_if ◌>>=◌
parse_header-dynamic {d = d} a m i mint rest laid size (wa, wm, wi) (pa, pi, pm) =
    let long : ltb (length d) 58 ≡ false = le→ltb (length d) 58 (
      omega (
        arith,
        Holds-length _ laid.further,
        length-append (to_le_bytes 8 i) rest,
        length-to_le_bytes 8 i,
      )) in
    let ea = read_u64-Holds a _ laid.amount wa in
    let em = read_u64-Holds m _ laid.minimum wm in
    let ef = get_elem-Holds 1 _ laid.asset in
    let en = get_elem-Holds 2 _ laid.count in
    let eo = get_range-Holds 50 mint _ laid.output (omega (arith, size)) in
    let ei = read_u64-Holds i rest laid.further wi in
    let za = ne→== a 0 (omega (arith, pa)) in
    let zm = ne→== m 0 (omega (arith, pm)) in
    let zi = ne→== i 0 (omega (arith, pi)) in rw (long, ea, em, ef, en, eo, ei, za, zm, zi) refl

-- The header of a dynamic route of three legs.
pub parse_header-three_hop :
    {d : Bytes} (a m i j : ℕ) (mint rest : Bytes)
    → Laid d a m 1 3 mint (to_le_bytes 8 i ++ (to_le_bytes 8 j ++ rest))
    → length mint ≡ 32
    → IsU64 a × IsU64 m × IsU64 i × IsU64 j
    → 0 < a × 0 < i × 0 < j × 0 < m
    → parse_header d 2
      ≡ ok (record {
        amount_in = a;
        min_amount_out = m;
        num_legs = 3;
        expected_output_mint = mint;
        intermediate_min_out = i;
        second_intermediate_min_out = j;
        exact_out = false;
        fee_asset = 1;
      })
unfolding parse_header index reject_if ◌>>=◌
parse_header-three_hop {d = d} a m i j mint rest laid size (wa, wm, wi, wj) (pa, pi, pj, pm) =
    let at58 : Holds d 58 (to_le_bytes 8 j ++ rest) =
      skip 58 (to_le_bytes 8 i) _ laid.further (omega (arith, length-to_le_bytes 8 i)) in
    let long : ltb (length d) 66 ≡ false = le→ltb (length d) 66 (
      omega (
        arith,
        Holds-length _ at58,
        length-append (to_le_bytes 8 j) rest,
        length-to_le_bytes 8 j,
      )) in
    let ea = read_u64-Holds a _ laid.amount wa in
    let em = read_u64-Holds m _ laid.minimum wm in
    let ef = get_elem-Holds 1 _ laid.asset in
    let en = get_elem-Holds 3 _ laid.count in
    let eo = get_range-Holds 50 mint _ laid.output (omega (arith, size)) in
    let ei = read_u64-Holds i _ laid.further wi in
    let ej = read_u64-Holds j rest at58 wj in
    let za = ne→== a 0 (omega (arith, pa)) in
    let zm = ne→== m 0 (omega (arith, pm)) in
    let zi = ne→== i 0 (omega (arith, pi)) in
    let zj = ne→== j 0 (omega (arith, pj)) in
    rw (long, ea, em, ef, en, eo, ei, ej, za, zm, zi, zj) refl

-- The header of a route of fixed inputs, of one to four legs.
pub parse_header-fixed :
    {d : Bytes} (a m fee n : ℕ) (mint rest : Bytes)
    → Laid d a m fee n mint rest
    → length mint ≡ 32
    → IsU64 a × IsU64 m
    → 0 < a
    → 0 < n
    → n ≤ 4
    → parse_header d 0
      ≡ ok (record {
        amount_in = a;
        min_amount_out = m;
        num_legs = n;
        expected_output_mint = mint;
        intermediate_min_out = 0;
        second_intermediate_min_out = 0;
        exact_out = not (bit_and fee 0x80 == 0);
        fee_asset = bit_and fee 0x01;
      })
unfolding parse_header index reject_if ◌>>=◌
parse_header-fixed {d = d} a m fee n mint rest laid size (wa, wm) pa pn few =
    let long : ltb (length d) 50 ≡ false =
      le→ltb (length d) 50 (omega (arith, Holds-length rest laid.further)) in
    let ea = read_u64-Holds a _ laid.amount wa in
    let em = read_u64-Holds m _ laid.minimum wm in
    let ef = get_elem-Holds fee _ laid.asset in
    let en = get_elem-Holds n _ laid.count in
    let eo = get_range-Holds 50 mint _ laid.output (omega (arith, size)) in
    let za = ne→== a 0 (omega (arith, pa)) in
    let low = le→leb 1 n (omega (arith, pn)) in
    let high = le→leb n 4 few in rw (long, ea, em, ef, en, eo, za, low, high) refl
