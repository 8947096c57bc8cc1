-- ===== src/Sdk/RouteIx/Reads.antt =====
-- programs/sol-trade-router/src/instructions/route.rs: what its readers find in instruction data whose
-- content from an offset on is known.
use sol_trade_router_sdk.Base.{
  ℕ, ◌+◌, ◌-◌, ◌≡◌, refl, sym, ap, ◌∙◌, some, [], ◌∷◌, ◌++◌, length, take, drop, get_elem?, leb,
  le→leb, length-append, append_assoc, drop-append_eq, take-append_eq, arith, true,
}
use sol_trade_router_sdk.Base.Bytes.{Bytes, get_range}
use sol_trade_router_sdk.Base.Words.{
  IsU64, IsU16, to_le_bytes, length-to_le_bytes, from_le_bytes-to_le_bytes,
}
use sol_trade_router_sdk.Program.Error.{ok, ok_or, ◌>>=◌}
use sol_trade_router_sdk.Program.Route.Checks.{read_u16, read_u64}

-- The data ends in `xs`, which starts at the offset.
abbrev pub Holds : Bytes → ℕ → Bytes → Type 0
Holds d i xs = (front : Bytes) × (d ≡ front ++ xs) × (length front ≡ i)

pub Holds-all : (d : Bytes) → Holds d 0 d
Holds-all d = ([], refl, refl)

pub Holds-end : {d : Bytes} {i : ℕ} → Holds d i [] → i ≡ length d
Holds-end (front, e, l) = rw e (omega (arith, length-append front []))

pub Holds-length : {d : Bytes} {i : ℕ} (xs : Bytes) → Holds d i xs → length d ≡ i + length xs
Holds-length xs (front, e, l) = rw e (omega (arith, length-append front xs))

pub skip :
    {d : Bytes} {i : ℕ} (j : ℕ) (x rest : Bytes)
    → Holds d i (x ++ rest)
    → j ≡ i + length x
    → Holds d j rest
skip j x rest (front, e, l) h =
    (front ++ x, e ∙ sym (append_assoc front x rest), omega (arith, length-append front x))

pub get_range-Holds :
    {d : Bytes} {i : ℕ} (j : ℕ) (x rest : Bytes)
    → Holds d i (x ++ rest)
    → j ≡ i + length x
    → get_range d i j ≡ some x
get_range-Holds {d = d} {i = i} j x rest (front, e, l) h =
    let long : length d ≡ i + length (x ++ rest) = Holds-length (x ++ rest) (front, e, l) in
    let parts : length (x ++ rest) ≡ length x + length rest = length-append x rest in
    let start : leb i j ≡ true = le→leb i j (omega arith) in
    let end : leb j (length d) ≡ true = le→leb j (length d) (omega arith) in
    let dropped : drop i d ≡ x ++ rest =
      ap (drop i) e ∙ drop-append_eq i front (x ++ rest) (omega arith) in
    let taken : take (j - i) (x ++ rest) ≡ x = take-append_eq (j - i) x rest (omega arith) in
    rw (start, end, dropped, taken) refl

pub get_elem-Holds :
    {d : Bytes} {i : ℕ} (b : ℕ) (rest : Bytes) → Holds d i (b ∷ rest) → get_elem? d i ≡ some b
get_elem-Holds {i = i} b rest (front, e, l) = rw (e, sym l) (at front)
  where
    at : (xs : Bytes) → get_elem? (xs ++ (b ∷ rest)) (length xs) ≡ some b
    at [] = refl
    at (x ∷ xs) = at xs

pub read_u64-Holds :
    {d : Bytes} {i : ℕ} (v : ℕ) (rest : Bytes)
    → Holds d i (to_le_bytes 8 v ++ rest)
    → IsU64 v
    → read_u64 d i ≡ ok v
unfolding read_u64 ok_or ◌>>=◌
read_u64-Holds {i = i} v rest h wide =
    rw (get_range-Holds (i + 8) (to_le_bytes 8 v) rest h (omega (arith, length-to_le_bytes 8 v)))
      (ap ok (from_le_bytes-to_le_bytes 8 v wide))

pub read_u16-Holds :
    {d : Bytes} {i : ℕ} (v : ℕ) (rest : Bytes)
    → Holds d i (to_le_bytes 2 v ++ rest)
    → IsU16 v
    → read_u16 d i ≡ ok v
unfolding read_u16 ok_or ◌>>=◌
read_u16-Holds {i = i} v rest h wide =
    rw (get_range-Holds (i + 2) (to_le_bytes 2 v) rest h (omega (arith, length-to_le_bytes 2 v)))
      (ap ok (from_le_bytes-to_le_bytes 2 v wide))
