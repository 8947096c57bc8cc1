-- ===== src/Sdk/RouteIx/ThreeHop.antt =====
-- crates/sdk/src/route_ix.rs against programs/sol-trade-router/src/instructions/route.rs: the data of a
-- route of fixed inputs and of a dynamic three-hop route, through the program's parsers.
use sol_trade_router_sdk.Base.{
  ℕ, zero, suc, ◌≤◌, ◌<◌, ◌≡◌, refl, sym, ◌∙◌, ap, ap₂, List, [], ◌∷◌, ◌++◌, length, ltb, ◌==◌,
  Bool, true, false, ◌||◌, not, bit_and, or_split, arith, some, ◌%◌,
}
use sol_trade_router_sdk.Base.Bytes.{Bytes}
use sol_trade_router_sdk.Base.Words.{IsU64, max_u16, to_le_bytes, length-to_le_bytes}
use sol_trade_router_sdk.Program.Error.{ok}
use sol_trade_router_sdk.Program.Dispatch.{tag_route, tag_route_dynamic_three}
use sol_trade_router_sdk.Sdk.Fallible.{bind-eq-some, bailed-eq-some, some-injective}
use sol_trade_router_sdk.Sdk.Keys.{BuiltInstruction, Derive}
use sol_trade_router_sdk.Sdk.Legs.{Leg}
use sol_trade_router_sdk.Sdk.RouteIx.Build.{
  RouteAccounts, build_three_hop_route_instruction, dynamic_three_hop, three_hop_instruction,
  bad_leg, build_route_instruction_ex, fee_asset_byte, legs_bytes, header_bytes,
}
use sol_trade_router_sdk.Sdk.RouteIx.Reads.{skip}
use sol_trade_router_sdk.Sdk.RouteIx.Decode.{
  Sendable, AllSendable, none_left, and_more, Received, legs_bytes-Decodes,
}
use sol_trade_router_sdk.Sdk.RouteIx.Headers.{
  header_bytes-Laid, parse_header-three_hop, parse_header-fixed,
}

four_positive :
    (a b c e : ℕ) → (a == 0 || b == 0 || c == 0 || e == 0) ≡ false → 0 < a × 0 < b × 0 < c × 0 < e
four_positive a b c e h = ground arith

Sendable-leg : (leg : Leg) → bad_leg leg ≡ false → length leg.program_id ≡ 32 → Sendable leg
unfolding bad_leg
Sendable-leg leg h w =
    let (one, few, short) = bounds (length leg.accounts) (length leg.payload) h in
    record { address = w; some_account = one; few_accounts = few; short = short }
  where
    bounds :
        (m n : ℕ)
        → (m == 0 || ltb 64 m || n == 0 || ltb max_u16 n) ≡ false
        → 0 < m × m ≤ 64 × n ≤ max_u16
    bounds m n h = ground arith

three_bad :
    (a b c : Leg)
    → (bad_leg a || (bad_leg b || (bad_leg c || false))) ≡ false
    → bad_leg a ≡ false × bad_leg b ≡ false × bad_leg c ≡ false
three_bad a b c h =
    let (first, h1) = or_split (bad_leg a) _ h in
    let (second, h2) = or_split (bad_leg b) _ h1 in
    let (third, _) = or_split (bad_leg c) false h2 in (first, second, third)

built_three_hop :
    (derive : Derive) (program_id : Bytes) (accounts : RouteAccounts) (first second : Bytes)
    (amount_in first_min second_min min_amount_out : ℕ) (mint : Bytes) (leg0 leg1 leg2 : Leg)
    {ix : BuiltInstruction}
    → dynamic_three_hop derive program_id accounts first second amount_in first_min second_min
        min_amount_out mint leg0 leg1 leg2
      ≡ some ix
    → length leg0.program_id ≡ 32 × length leg1.program_id ≡ 32 × length leg2.program_id ≡ 32
    → (0 < amount_in × 0 < first_min × 0 < second_min × 0 < min_amount_out)
      × AllSendable (leg0 ∷ leg1 ∷ leg2 ∷ [])
      × (three_hop_instruction derive program_id accounts first second amount_in first_min
            second_min min_amount_out mint
            (leg0 ∷ leg1 ∷ leg2 ∷ [])
          ≡ ix)
unfolding dynamic_three_hop
built_three_hop derive program_id accounts first second amount_in first_min second_min
      min_amount_out mint leg0 leg1 leg2 h (w0, w1, w2) =
    let (positive, h1) = bailed-eq-some _ _ h in
    let (_, h2) = bailed-eq-some _ _ h1 in
    let (_, h3) = bailed-eq-some _ _ h2 in
    let (bad, h4) = bailed-eq-some _ _ h3 in
    let (_, h5) = bailed-eq-some _ _ h4 in
    let (_, _, h6) = bind-eq-some _ _ h5 in
    let (_, _, h7) = bind-eq-some _ _ h6 in
    let (b0, b1, b2) = three_bad leg0 leg1 leg2 bad in
    (
      four_positive amount_in first_min second_min min_amount_out positive,
      and_more leg0 _ (Sendable-leg leg0 b0 w0) (
          and_more leg1 _ (Sendable-leg leg1 b1 w1)
            (and_more leg2 _ (Sendable-leg leg2 b2 w2) none_left)),
      some-injective h7,
    )

-- A dynamic three-hop route that the SDK built, for u64 amounts, a 32-byte mint and legs of
-- 32-byte programs, has the data of the program's three-hop tag: the program parses behind it the
-- header with both intermediate minima, and then exactly the three legs up to the end.
pub build_three_hop_route_instruction-Decodes :
    (derive : Derive) (program_id : Bytes) (accounts : RouteAccounts) (first second : Bytes)
    (amount_in first_min second_min min_amount_out : ℕ) (mint : Bytes) (leg0 leg1 leg2 : Leg)
    (ix : BuiltInstruction)
    → build_three_hop_route_instruction derive program_id accounts first second amount_in first_min
        second_min min_amount_out mint
        (leg0 ∷ leg1 ∷ leg2 ∷ [])
        true
      ≡ some ix
    → IsU64 amount_in × IsU64 min_amount_out × IsU64 first_min × IsU64 second_min
    → length mint ≡ 32
    → length leg0.program_id ≡ 32 × length leg1.program_id ≡ 32 × length leg2.program_id ≡ 32
    → Received tag_route_dynamic_three 2 66
        (record {
          amount_in = amount_in;
          min_amount_out = min_amount_out;
          num_legs = 3;
          expected_output_mint = mint;
          intermediate_min_out = first_min;
          second_intermediate_min_out = second_min;
          exact_out = false;
          fee_asset = 1;
        })
        (leg0 ∷ leg1 ∷ leg2 ∷ [])
        ix.payload
unfolding build_three_hop_route_instruction three_hop_instruction
build_three_hop_route_instruction-Decodes derive program_id accounts first second amount_in
      first_min second_min min_amount_out mint leg0 leg1 leg2 ix h wide w0 ws =
    let (positive, fits, e) =
      built_three_hop derive program_id accounts first second amount_in first_min second_min
        min_amount_out mint leg0 leg1 leg2 h ws in
    let rest = legs_bytes (leg0 ∷ leg1 ∷ leg2 ∷ []) in
    let laid =
      header_bytes-Laid amount_in min_amount_out 1 3 mint
        (to_le_bytes 8 first_min ++ (to_le_bytes 8 second_min ++ rest)) refl w0 in
    let at58 =
      skip 58 (to_le_bytes 8 first_min) _ laid.further
        (omega (arith, length-to_le_bytes 8 first_min)) in
    (
      header_bytes amount_in min_amount_out 1 3 mint
          ++ (to_le_bytes 8 first_min ++ (to_le_bytes 8 second_min ++ rest)),
      ap (λ (i : BuiltInstruction). i.payload) (sym e),
      parse_header-three_hop amount_in min_amount_out first_min second_min mint rest laid w0 wide
          positive,
      legs_bytes-Decodes (leg0 ∷ leg1 ∷ leg2 ∷ []) 66 fits (
          skip 66 (to_le_bytes 8 second_min) _ at58
            (omega (arith, length-to_le_bytes 8 second_min))),
    )

-- The program's two tests on the byte of the fee asset give back what the builder put in.
fee_asset_byte_read :
    (fee_asset : ℕ) (exact_out : Bool)
    → fee_asset < 2
    → (not (bit_and (fee_asset_byte fee_asset exact_out) 0x80 == 0) ≡ exact_out)
      × (bit_and (fee_asset_byte fee_asset exact_out) 0x01 ≡ fee_asset)
unfolding fee_asset_byte
fee_asset_byte_read zero true h = (refl, refl)
fee_asset_byte_read zero false h = (refl, refl)
fee_asset_byte_read (suc zero) true h = (refl, refl)
fee_asset_byte_read (suc zero) false h = (refl, refl)
fee_asset_byte_read (suc (suc n)) exact_out h = absurd (omega arith)

-- For a positive u64 input, a u64 minimum, a fee asset that is SOL or token, a 32-byte mint and
-- one to four legs that each have a 32-byte program, 1 to 64 accounts and at most 65,535 bytes of
-- data, the program parses the data of the built route into the same amounts, fee asset and exact-
-- out flag, and then exactly these legs up to the end.
pub build_route_instruction_ex-Decodes :
    (derive : Derive) (program_id : Bytes) (accounts : RouteAccounts)
    (amount_in min_amount_out fee_asset : ℕ) (exact_out : Bool) (mint : Bytes) (legs : List Leg)
    → IsU64 amount_in × IsU64 min_amount_out
    → 0 < amount_in
    → fee_asset < 2
    → length mint ≡ 32
    → 0 < length legs
    → length legs ≤ 4
    → AllSendable legs
    → Received tag_route 0 50
        (record {
          amount_in = amount_in;
          min_amount_out = min_amount_out;
          num_legs = length legs;
          expected_output_mint = mint;
          intermediate_min_out = 0;
          second_intermediate_min_out = 0;
          exact_out = exact_out;
          fee_asset = fee_asset;
        })
        legs
        (build_route_instruction_ex derive program_id accounts amount_in min_amount_out fee_asset
          exact_out mint legs).payload
unfolding build_route_instruction_ex
build_route_instruction_ex-Decodes derive program_id accounts amount_in min_amount_out fee_asset
      exact_out mint legs wide positive asset w0 some_leg few fits =
    let (exact, fee) = fee_asset_byte_read fee_asset exact_out asset in
    let byte = fee_asset_byte fee_asset exact_out in
    let count : length legs % 256 ≡ length legs = omega arith in
    let laid =
      header_bytes-Laid amount_in min_amount_out byte (length legs) mint (legs_bytes legs) refl
        w0 in
    let parsed =
      parse_header-fixed amount_in min_amount_out byte (length legs) mint (legs_bytes legs) laid w0
        wide positive some_leg few in
    (
      header_bytes amount_in min_amount_out byte (length legs) mint ++ legs_bytes legs,
      rw count refl,
      parsed
          ∙ ap₂
              (λ (exactly : Bool) (asset_of : ℕ). ok (record {
                amount_in = amount_in;
                min_amount_out = min_amount_out;
                num_legs = length legs;
                expected_output_mint = mint;
                intermediate_min_out = 0;
                second_intermediate_min_out = 0;
                exact_out = exactly;
                fee_asset = asset_of;
              }))
              exact fee,
      legs_bytes-Decodes legs 50 fits laid.further,
    )
