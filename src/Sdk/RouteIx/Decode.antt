-- ===== src/Sdk/RouteIx/Decode.antt =====
-- crates/sdk/src/route_ix.rs against programs/sol-trade-router/src/instructions/route.rs: what the
-- program's parsers find in the legs that the builders wrote.
use sol_trade_router_sdk.Base.{
  ℕ, ◌+◌, ◌%◌, ◌≤◌, ◌<◌, ◌≡◌, refl, sym, subst, List, [], ◌∷◌, ◌++◌, length, ltb, ◌==◌, ne→==,
  le→ltb, append_assoc, length-append, arith, false,
}
use sol_trade_router_sdk.Base.Bytes.{Bytes}
use sol_trade_router_sdk.Base.Words.{max_u16, to_le_bytes, length-to_le_bytes}
use sol_trade_router_sdk.Program.Error.{ok, ok_or, reject_if, ◌>>=◌}
use sol_trade_router_sdk.Program.Route.Legs
use sol_trade_router_sdk.Program.Route.Legs.{parse_leg}
use sol_trade_router_sdk.Program.Route.Input.{Header, parse_header}
use sol_trade_router_sdk.Sdk.Legs.{Leg}
use sol_trade_router_sdk.Sdk.RouteIx.Build.{leg_bytes, legs_bytes}
use sol_trade_router_sdk.Sdk.RouteIx.Reads.{
  Holds, Holds-end, skip, get_range-Holds, get_elem-Holds, read_u16-Holds,
}

-- A leg that the program's loop takes: a 32-byte program, 1 to 64 accounts, and data that a u16 counts.
pub record Sendable (leg : Leg) : Type 0 where
  pub address : length leg.program_id ≡ 32
  pub some_account : 0 < length leg.accounts
  pub few_accounts : length leg.accounts ≤ 64
  pub short : length leg.payload ≤ max_u16

-- The leg as the program reads it.
abbrev pub received : Leg → Legs.Leg
received leg = record {
  program_id = leg.program_id;
  num_accounts = length leg.accounts;
  payload = leg.payload;
}

length-leg_bytes :
    (leg : Leg) → length leg.program_id ≡ 32 → length (leg_bytes leg) ≡ 35 + length leg.payload
unfolding leg_bytes
length-leg_bytes leg h = omega (
  arith,
  length-append leg.program_id
      (length leg.accounts % 256 ∷ (to_le_bytes 2 (length leg.payload % 65536) ++ leg.payload)),
  length-append (to_le_bytes 2 (length leg.payload % 65536)) leg.payload,
  length-to_le_bytes 2 (length leg.payload % 65536),
)

-- The bytes of a leg, field by field.
leg_fields :
    (leg : Leg) (rest : Bytes)
    → Sendable leg
    → leg_bytes leg ++ rest
      ≡ leg.program_id
        ++ (length leg.accounts ∷ (to_le_bytes 2 (length leg.payload) ++ (leg.payload ++ rest)))
unfolding leg_bytes
leg_fields leg rest fits =
    let one_byte : length leg.accounts % 256 ≡ length leg.accounts =
      omega (arith, fits.few_accounts) in
    let two_bytes : length leg.payload % 65536 ≡ length leg.payload = omega (arith, fits.short) in
    rw
      (
        one_byte,
        two_bytes,
        append_assoc leg.program_id
            (length leg.accounts ∷ (to_le_bytes 2 (length leg.payload) ++ leg.payload)) rest,
        append_assoc (to_le_bytes 2 (length leg.payload)) leg.payload rest,
      )
      refl

pub parse_leg-leg_bytes :
    {d : Bytes} {cursor : ℕ} (leg : Leg) (rest : Bytes)
    → Sendable leg
    → Holds d cursor (leg_bytes leg ++ rest)
    → parse_leg d cursor ≡ ok (received leg, cursor + 35 + length leg.payload)
unfolding parse_leg ok_or reject_if ◌>>=◌
parse_leg-leg_bytes {d = d} {cursor = cursor} leg rest fits whole =
    let n = length leg.accounts in
    let size = to_le_bytes 2 (length leg.payload) in
    let at0 : Holds d cursor (leg.program_id ++ (n ∷ (size ++ (leg.payload ++ rest)))) =
      subst (Holds d cursor) (leg_fields leg rest fits) whole in
    let at32 : Holds d (cursor + 32) (n ∷ (size ++ (leg.payload ++ rest))) =
      skip (cursor + 32) leg.program_id _ at0 (omega (arith, fits.address)) in
    let at33 : Holds d (cursor + 33) (size ++ (leg.payload ++ rest)) =
      skip (cursor + 33) (n ∷ []) _ at32 (omega arith) in
    let at35 : Holds d (cursor + 35) (leg.payload ++ rest) =
      skip (cursor + 35) size _ at33 (omega (arith, length-to_le_bytes 2 (length leg.payload))) in
    let e0 = get_range-Holds (cursor + 32) leg.program_id _ at0 (omega (arith, fits.address)) in
    let e32 = get_elem-Holds n _ at32 in
    let e33 = read_u16-Holds (length leg.payload) _ at33 (omega (arith, fits.short)) in
    let e35 = get_range-Holds (cursor + 35 + length leg.payload) leg.payload rest at35 refl in
    let some_account : (n == 0) ≡ false = ne→== n 0 (omega (arith, fits.some_account)) in
    let few : ltb 64 n ≡ false = le→ltb 64 n fits.few_accounts in
    rw (e0, e32, e33, some_account, few, e35) refl

-- The program's parser, from a cursor on, reads these legs one after the other and stops at `end`.
pub data Decodes (d : Bytes) (end : ℕ) : ℕ → List Leg → Type 0 where
  done : Decodes d end end []
  next :
      (cursor after : ℕ) (leg : Leg) (legs : List Leg)
      → parse_leg d cursor ≡ ok (received leg, after)
      → Decodes d end after legs
      → Decodes d end cursor (leg ∷ legs)

pub data AllSendable : List Leg → Type 0 where
  none_left : AllSendable []
  and_more :
      (leg : Leg) (legs : List Leg) → Sendable leg → AllSendable legs → AllSendable (leg ∷ legs)

pub legs_bytes-Decodes :
    {d : Bytes} (legs : List Leg) (cursor : ℕ)
    → AllSendable legs
    → Holds d cursor (legs_bytes legs)
    → Decodes d (length d) cursor legs
unfolding legs_bytes
legs_bytes-Decodes {d = d} [] cursor fits h =
    subst (λ (c : ℕ). Decodes d (length d) c []) (sym (Holds-end h)) done
legs_bytes-Decodes (leg ∷ legs) cursor (and_more _ _ fits more) h =
    next cursor (cursor + 35 + length leg.payload) leg legs (parse_leg-leg_bytes leg _ fits h) (
      legs_bytes-Decodes legs (cursor + 35 + length leg.payload) more (
        skip (cursor + 35 + length leg.payload) (leg_bytes leg) _ h
          (omega (arith, length-leg_bytes leg fits.address))))

-- The program finds, behind the tag, this header and then these legs up to the end of the data.
abbrev pub Received : ℕ → ℕ → ℕ → Header → List Leg → Bytes → Type 0
Received tag intermediates start header legs payload =
    (d : Bytes) × (payload ≡ tag ∷ d)
    × (parse_header d intermediates ≡ ok header)
    × Decodes d (length d) start legs
