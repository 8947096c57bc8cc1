-- ===== src/Sdk/RouteIx/RoundTrip.antt =====
-- crates/sdk/src/route_ix.rs against programs/sol-trade-router/src/instructions/route.rs: the data that a
-- builder wrote, through the program's parsers.
use sol_trade_router_sdk.Base.{
  ℕ, ◌≤◌, ◌<◌, ◌≡◌, refl, sym, subst, ap, [], ◌∷◌, ◌++◌, length, ltb, ◌==◌, Bool, true, false, ◌||◌,
  or_split, ltb→le, all_positive, arith, some, none-ne-some, Option,
}
use sol_trade_router_sdk.Base.Bytes.{Bytes}
use sol_trade_router_sdk.Base.Words.{IsU64, max_u16, to_le_bytes, length-to_le_bytes}
use sol_trade_router_sdk.Program.Error.{Result}
use sol_trade_router_sdk.Program.Route.Layout.{DynamicSecondLeg}
use sol_trade_router_sdk.Program.Dispatch.{tag_route_dynamic}
use sol_trade_router_sdk.Sdk.Fallible.{bind-eq-some, bail_if, bailed-eq-some, some-injective}
use sol_trade_router_sdk.Sdk.Keys.{BuiltInstruction, Derive}
use sol_trade_router_sdk.Sdk.Legs.{Leg}
use sol_trade_router_sdk.Sdk.RouteIx.Layout.{DynamicLegLayout, validate_dynamic_leg}
use sol_trade_router_sdk.Sdk.RouteIx.Build.{
  RouteAccounts, build_dynamic_route_instruction, dynamic_instruction, legs_bytes, header_bytes,
}
use sol_trade_router_sdk.Sdk.RouteIx.Agreement.{
  Agrees, refused, accepted, dynamic_leg_layout-Agrees,
}
use sol_trade_router_sdk.Sdk.RouteIx.Reads.{skip}
use sol_trade_router_sdk.Sdk.RouteIx.Decode.{
  Sendable, AllSendable, none_left, and_more, Received, legs_bytes-Decodes,
}
use sol_trade_router_sdk.Sdk.RouteIx.Headers.{header_bytes-Laid, parse_header-dynamic}

minimum_positive :
    {d : Bytes} {s : Option DynamicLegLayout} {p : Result DynamicSecondLeg}
    → Agrees d s p
    → (layout : DynamicLegLayout) → s ≡ some layout
    → 0 < layout.minimum_accounts
minimum_positive refused layout h = absurd (none-ne-some layout h)
minimum_positive (accepted sdk p i o s a hi ho hs ha range) layout h =
    subst (λ (l : DynamicLegLayout). 0 < l.minimum_accounts) (some-injective h) (omega (arith, hs))

refused_if : (b : Bool) → bail_if b ≡ some tt → b ≡ false
unfolding bail_if
refused_if true h = cc
refused_if false h = refl

at_least :
    (m n : ℕ) (b c d e f g i : Bool) → (ltb m n || b || c || d || e || f || g || i) ≡ false → n ≤ m
at_least m n b c d e f g i h =
    let (h1, _) = or_split _ _ h in
    let (h2, _) = or_split _ _ h1 in
    let (h3, _) = or_split _ _ h2 in
    let (h4, _) = or_split _ _ h3 in
    let (h5, _) = or_split _ _ h4 in
    let (h6, _) = or_split _ _ h5 in let (h7, _) = or_split _ _ h6 in ltb→le m n h7

counted : (m n : ℕ) → (m == 0 || ltb 64 m || ltb 64 n) ≡ false → 0 < m × m ≤ 64 × n ≤ 64
counted m n h = ground arith

sized : (m n : ℕ) → (ltb max_u16 m || ltb max_u16 n) ≡ false → m ≤ max_u16 × n ≤ max_u16
sized m n h = ground arith

-- A leg that passed the check has accounts.
pub validate_dynamic_leg_nonempty :
    (leg : Leg) (payer input output : Bytes) (zero_amount launchlab : Bool)
    → validate_dynamic_leg leg payer input output zero_amount launchlab ≡ some tt
    → 0 < length leg.accounts
unfolding validate_dynamic_leg
validate_dynamic_leg_nonempty leg payer input output zero_amount launchlab h =
    let (_, h1) = bailed-eq-some _ _ h in
    let (layout, found, h2) = bind-eq-some _ _ h1 in
    let large =
      at_least (length leg.accounts) layout.minimum_accounts _ _ _ _ _ _ _ (refused_if _ h2) in
    omega (
      arith,
      large,
      minimum_positive (dynamic_leg_layout-Agrees leg.program_id leg.payload) layout found,
    )

-- What a built dynamic route promises of its legs and amounts.
pub built_dynamic :
    (derive : Derive) (program_id : Bytes) (accounts : RouteAccounts) (intermediate : Bytes)
    (amount_in intermediate_min_out min_amount_out : ℕ) (mint : Bytes) (first second : Leg)
    {ix : BuiltInstruction}
    → build_dynamic_route_instruction derive program_id accounts intermediate amount_in
        intermediate_min_out min_amount_out mint first second
      ≡ some ix
    → length first.program_id ≡ 32
    → length second.program_id ≡ 32
    → (0 < amount_in × 0 < intermediate_min_out × 0 < min_amount_out)
      × AllSendable (first ∷ second ∷ [])
      × (dynamic_instruction derive program_id accounts intermediate amount_in intermediate_min_out
            min_amount_out mint first second
          ≡ ix)
unfolding build_dynamic_route_instruction
built_dynamic derive program_id accounts intermediate amount_in intermediate_min_out min_amount_out
      mint first second h w1 w2 =
    let (positive, h1) = bailed-eq-some _ _ h in
    let (_, h2) = bailed-eq-some _ _ h1 in
    let (_, h3) = bailed-eq-some _ _ h2 in
    let (_, h4) = bailed-eq-some _ _ h3 in
    let (counts, h5) = bailed-eq-some _ _ h4 in
    let (_, valid, h6) = bind-eq-some _ _ h5 in
    let (sizes, h7) = bailed-eq-some _ _ h6 in
    let (one, few1, few2) = counted (length first.accounts) (length second.accounts) counts in
    let (short1, short2) = sized (length first.payload) (length second.payload) sizes in
    let fits1 : Sendable first = record {
      address = w1;
      some_account = one;
      few_accounts = few1;
      short = short1;
    } in
    let fits2 : Sendable second = record {
      address = w2;
      some_account = validate_dynamic_leg_nonempty second _ _ _ _ _ valid;
      few_accounts = few2;
      short = short2;
    } in
    (
      all_positive amount_in intermediate_min_out min_amount_out positive,
      and_more first _ fits1 (and_more second _ fits2 none_left),
      some-injective h7,
    )

-- The data behind the tag of a dynamic route.
abbrev dynamic_data : ℕ → ℕ → ℕ → Bytes → Leg → Leg → Bytes
dynamic_data amount_in intermediate_min_out min_amount_out mint first second =
    header_bytes amount_in min_amount_out 1 2 mint
    ++ (to_le_bytes 8 intermediate_min_out ++ legs_bytes (first ∷ second ∷ []))

-- A dynamic two-leg route that the SDK built, for u64 amounts, a 32-byte mint and legs of 32-byte
-- programs, has the data of the program's dynamic tag: the program parses behind it the header
-- with the given amounts, and then exactly the two legs, with their programs, account counts and
-- data, up to the end.
pub build_dynamic_route_instruction-Decodes :
    (derive : Derive) (program_id : Bytes) (accounts : RouteAccounts) (intermediate : Bytes)
    (amount_in intermediate_min_out min_amount_out : ℕ) (mint : Bytes) (first second : Leg)
    (ix : BuiltInstruction)
    → build_dynamic_route_instruction derive program_id accounts intermediate amount_in
        intermediate_min_out min_amount_out mint first second
      ≡ some ix
    → IsU64 amount_in × IsU64 min_amount_out × IsU64 intermediate_min_out
    → length mint ≡ 32
    → length first.program_id ≡ 32
    → length second.program_id ≡ 32
    → Received tag_route_dynamic 1 58
        (record {
          amount_in = amount_in;
          min_amount_out = min_amount_out;
          num_legs = 2;
          expected_output_mint = mint;
          intermediate_min_out = intermediate_min_out;
          second_intermediate_min_out = 0;
          exact_out = false;
          fee_asset = 1;
        })
        (first ∷ second ∷ [])
        ix.payload
unfolding dynamic_instruction
build_dynamic_route_instruction-Decodes derive program_id accounts intermediate amount_in
      intermediate_min_out min_amount_out mint first second ix h wide w0 w1 w2 =
    let (positive, fits, e) =
      built_dynamic derive program_id accounts intermediate amount_in intermediate_min_out
        min_amount_out mint first second h w1 w2 in
    let laid =
      header_bytes-Laid amount_in min_amount_out 1 2 mint
        (to_le_bytes 8 intermediate_min_out ++ legs_bytes (first ∷ second ∷ [])) refl w0 in
    (
      dynamic_data amount_in intermediate_min_out min_amount_out mint first second,
      ap (λ (i : BuiltInstruction). i.payload) (sym e),
      parse_header-dynamic amount_in min_amount_out intermediate_min_out mint
          (legs_bytes (first ∷ second ∷ [])) laid w0 wide positive,
      legs_bytes-Decodes (first ∷ second ∷ []) 58 fits (
          skip 58 (to_le_bytes 8 intermediate_min_out) _ laid.further
            (omega (arith, length-to_le_bytes 8 intermediate_min_out))),
    )
