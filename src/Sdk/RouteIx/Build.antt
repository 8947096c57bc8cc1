-- ===== src/Sdk/RouteIx/Build.antt =====
-- crates/sdk/src/route_ix.rs: the builders of the `Route` instructions, and their helpers.
-- `find_program_address` is the argument `derive`; `none` is an error. A conversion to u8 or u16 keeps
-- the low bits.
use sol_trade_router_sdk.Base.{
  ℕ, ◌%◌, Bool, true, false, not, ◌&&◌, ◌||◌, bit_and, bit_or, Option, none, some, List, [], ◌∷◌,
  ◌++◌, length, any, ltb, ◌==◌, if◌then◌else◌,
}
use sol_trade_router_sdk.Base.Bytes.{Bytes, bytes_eq}
use sol_trade_router_sdk.Base.Words.{to_le_bytes, max_u16}
use sol_trade_router_sdk.Sdk.Fallible.{◌>>◌, bail_if}
use sol_trade_router_sdk.Sdk.Keys.{
  AccountMeta, BuiltInstruction, Derive, new, new_readonly, config_pda,
}
use sol_trade_router_sdk.Sdk.Constants
use sol_trade_router_sdk.Sdk.Legs.{Leg}
use sol_trade_router_sdk.Sdk.RouteIx.Layout.{validate_dynamic_leg}

abbrev pub sdk_tag_route : ℕ
sdk_tag_route = 2

abbrev pub sdk_tag_route_dynamic : ℕ
sdk_tag_route_dynamic = 5

abbrev pub sdk_tag_route_dynamic_three : ℕ
sdk_tag_route_dynamic_three = 6

abbrev pub fee_asset_sol : ℕ
fee_asset_sol = 0

abbrev pub fee_asset_token : ℕ
fee_asset_token = 1

abbrev pub fee_asset_exact_out : ℕ
fee_asset_exact_out = 0x80

pub record RouteAccounts : Type 0 where
  pub payer : Bytes
  pub fee_destination : Bytes
  pub fee_source : Bytes
  pub output_token_account : Bytes
  pub fee_program : Bytes
  pub fee_mint : Bytes

-- What one turn of `for leg in legs` appends to the data, and all turns.
unfoldable pub leg_bytes : Leg → Bytes
leg_bytes leg =
    leg.program_id
    ++ (length leg.accounts % 256 ∷ (to_le_bytes 2 (length leg.payload % 65536) ++ leg.payload))

unfoldable pub legs_bytes : List Leg → Bytes
legs_bytes [] = []
legs_bytes (leg ∷ legs) = leg_bytes leg ++ legs_bytes legs

-- What the same loop appends to the metas.
unfoldable pub legs_metas : List Leg → List AccountMeta
legs_metas [] = []
legs_metas (leg ∷ legs) = leg.accounts ++ legs_metas legs

-- The second loop: each program once. `seen` holds at most `slots` programs, in the order in which they
-- were met; a program that finds no slot is appended and not remembered.
unfoldable pub remember : ℕ → List Bytes → Bytes → List Bytes
remember slots seen program = if ltb (length seen) slots then seen ++ (program ∷ []) else seen

unfoldable pub program_metas : ℕ → List Bytes → List Leg → List AccountMeta
program_metas slots seen [] = []
program_metas slots seen (leg ∷ legs) =
    let skipped = program_metas slots seen legs in
    let pushed = program_metas slots (remember slots seen leg.program_id) legs in
    if any (λ (p : Bytes). bytes_eq p leg.program_id) seen
    then skipped
    else new_readonly leg.program_id false ∷ pushed

unfoldable pub append_fee_mint : List AccountMeta → RouteAccounts → List AccountMeta
append_fee_mint metas accounts =
    if bytes_eq accounts.fee_program Constants.token_2022_program
      && not (any (λ (meta : AccountMeta). bytes_eq meta.pubkey accounts.fee_mint) metas)
    then metas ++ (new_readonly accounts.fee_mint false ∷ [])
    else metas

-- The six metas that every route starts with.
unfoldable pub fixed_metas : Derive → Bytes → RouteAccounts → List AccountMeta
fixed_metas derive program_id accounts =
    new accounts.payer true
    ∷ new_readonly (config_pda derive program_id).0 false
    ∷ new accounts.fee_destination false
    ∷ new accounts.fee_source false
    ∷ new accounts.output_token_account false
    ∷ new_readonly accounts.fee_program false
    ∷ []

-- The data of a route behind the tag, up to the output mint.
unfoldable pub header_bytes : ℕ → ℕ → ℕ → ℕ → Bytes → Bytes
header_bytes amount_in min_amount_out fee_asset legs expected_output_mint =
    to_le_bytes 8 amount_in
    ++ (to_le_bytes 8 min_amount_out ++ (fee_asset ∷ legs ∷ expected_output_mint))

unfoldable pub fee_asset_byte : ℕ → Bool → ℕ
fee_asset_byte fee_asset true = bit_or (bit_and fee_asset 0x01) fee_asset_exact_out
fee_asset_byte fee_asset false = bit_and fee_asset 0x01

unfoldable pub build_route_instruction_ex :
    Derive → Bytes → RouteAccounts → ℕ → ℕ → ℕ → Bool → Bytes → List Leg → BuiltInstruction
build_route_instruction_ex derive program_id accounts amount_in min_amount_out fee_asset exact_out
      expected_output_mint legs =
    record {
      program_id = program_id;
      accounts =
          append_fee_mint
            (fixed_metas derive program_id accounts ++ (legs_metas legs ++ program_metas 4 [] legs))
            accounts;
      payload =
          sdk_tag_route
          ∷ (header_bytes amount_in min_amount_out (fee_asset_byte fee_asset exact_out)
                (length legs % 256) expected_output_mint
              ++ legs_bytes legs);
    }

unfoldable pub build_route_instruction :
    Derive → Bytes → RouteAccounts → ℕ → ℕ → ℕ → Bytes → List Leg → BuiltInstruction
build_route_instruction derive program_id accounts amount_in min_amount_out fee_asset
      expected_output_mint legs =
    build_route_instruction_ex derive program_id accounts amount_in min_amount_out fee_asset false
      expected_output_mint legs

-- `leg.accounts.iter().any(|meta| meta.pubkey == key && meta.is_writable)`
unfoldable pub writes_key : Leg → Bytes → Bool
writes_key leg key =
    any (λ (meta : AccountMeta). bytes_eq meta.pubkey key && meta.is_writable) leg.accounts

-- The instruction of a dynamic route, behind its checks.
unfoldable pub dynamic_instruction :
    Derive → Bytes → RouteAccounts → Bytes → ℕ → ℕ → ℕ → Bytes → Leg → Leg → BuiltInstruction
dynamic_instruction derive program_id accounts intermediate amount_in intermediate_min_out
      min_amount_out expected_output_mint first_leg second_leg =
    record {
      program_id = program_id;
      accounts =
          append_fee_mint
            (fixed_metas derive program_id accounts
              ++ (new intermediate false
                  ∷ (legs_metas (first_leg ∷ second_leg ∷ [])
                      ++ (new_readonly first_leg.program_id false
                          ∷ (if not (bytes_eq second_leg.program_id first_leg.program_id)
                              then new_readonly second_leg.program_id false ∷ []
                              else [])))))
            accounts;
      payload =
          sdk_tag_route_dynamic
          ∷ (header_bytes amount_in min_amount_out fee_asset_token 2 expected_output_mint
              ++ (to_le_bytes 8 intermediate_min_out ++ legs_bytes (first_leg ∷ second_leg ∷ [])));
    }

unfoldable pub build_dynamic_route_instruction :
    Derive → Bytes → RouteAccounts → Bytes → ℕ → ℕ → ℕ → Bytes → Leg → Leg → Option BuiltInstruction
build_dynamic_route_instruction derive program_id accounts intermediate amount_in
      intermediate_min_out min_amount_out expected_output_mint first_leg second_leg =
    do
      bail_if (amount_in == 0 || intermediate_min_out == 0 || min_amount_out == 0)
      bail_if (bytes_eq expected_output_mint Constants.system_program)
      bail_if (
          bytes_eq intermediate accounts.fee_source
          || bytes_eq intermediate accounts.output_token_account)
      bail_if (not (writes_key first_leg intermediate))
      bail_if (
          length first_leg.accounts == 0
          || ltb 64 (length first_leg.accounts)
          || ltb 64 (length second_leg.accounts))
      validate_dynamic_leg second_leg accounts.payer intermediate accounts.output_token_account
          false true
      bail_if (ltb max_u16 (length first_leg.payload) || ltb max_u16 (length second_leg.payload))
      some (
          dynamic_instruction derive program_id accounts intermediate amount_in intermediate_min_out
            min_amount_out expected_output_mint first_leg second_leg)

-- A leg of a three-hop route that the router's loop would refuse.
unfoldable pub bad_leg : Leg → Bool
bad_leg leg =
    length leg.accounts == 0
    || ltb 64 (length leg.accounts)
    || length leg.payload == 0
    || ltb max_u16 (length leg.payload)

-- The instruction of a dynamic three-hop route, behind its checks.
unfoldable pub three_hop_instruction :
    Derive
    → Bytes
    → RouteAccounts
    → Bytes
    → Bytes
    → ℕ
    → ℕ
    → ℕ
    → ℕ
    → Bytes
    → List Leg
    → BuiltInstruction
three_hop_instruction derive program_id accounts first_intermediate second_intermediate amount_in
      first_min_out second_min_out min_amount_out expected_output_mint legs =
    record {
      program_id = program_id;
      accounts =
          append_fee_mint
            (fixed_metas derive program_id accounts
              ++ (new first_intermediate false
                  ∷ new second_intermediate false
                  ∷ (legs_metas legs ++ program_metas 3 [] legs)))
            accounts;
      payload =
          sdk_tag_route_dynamic_three
          ∷ (header_bytes amount_in min_amount_out fee_asset_token 3 expected_output_mint
              ++ (to_le_bytes 8 first_min_out
                  ++ (to_le_bytes 8 second_min_out ++ legs_bytes legs)));
    }

-- The checks of a dynamic three-hop route and its instruction.
unfoldable pub dynamic_three_hop :
    Derive
    → Bytes
    → RouteAccounts
    → Bytes
    → Bytes
    → ℕ
    → ℕ
    → ℕ
    → ℕ
    → Bytes
    → Leg
    → Leg
    → Leg
    → Option BuiltInstruction
dynamic_three_hop derive program_id accounts first_intermediate second_intermediate amount_in
      first_min_out second_min_out min_amount_out expected_output_mint leg0 leg1 leg2 =
    do
      bail_if (amount_in == 0 || first_min_out == 0 || second_min_out == 0 || min_amount_out == 0)
      bail_if (bytes_eq expected_output_mint Constants.system_program)
      bail_if (
          bytes_eq first_intermediate second_intermediate
          || bytes_eq first_intermediate accounts.fee_source
          || bytes_eq first_intermediate accounts.output_token_account
          || bytes_eq second_intermediate accounts.fee_source
          || bytes_eq second_intermediate accounts.output_token_account)
      bail_if (any bad_leg (leg0 ∷ leg1 ∷ leg2 ∷ []))
      bail_if (not (writes_key leg0 first_intermediate) || writes_key leg0 second_intermediate)
      validate_dynamic_leg leg1 accounts.payer first_intermediate second_intermediate true false
      validate_dynamic_leg leg2 accounts.payer second_intermediate accounts.output_token_account
          true true
      some (
          three_hop_instruction derive program_id accounts first_intermediate second_intermediate
            amount_in first_min_out second_min_out min_amount_out expected_output_mint
            (leg0 ∷ leg1 ∷ leg2 ∷ []))

-- With `spend_actual_output` false it is the route of fixed inputs.
unfoldable pub build_three_hop_route_instruction :
    Derive
    → Bytes
    → RouteAccounts
    → Bytes
    → Bytes
    → ℕ
    → ℕ
    → ℕ
    → ℕ
    → Bytes
    → List Leg
    → Bool
    → Option BuiltInstruction
build_three_hop_route_instruction derive program_id accounts first_intermediate second_intermediate
      amount_in first_min_out second_min_out min_amount_out expected_output_mint
      (leg0 ∷ leg1 ∷ leg2 ∷ []) false =
    some (
      build_route_instruction_ex derive program_id accounts amount_in min_amount_out fee_asset_token
        false expected_output_mint (leg0 ∷ leg1 ∷ leg2 ∷ []))
build_three_hop_route_instruction derive program_id accounts first_intermediate second_intermediate
      amount_in first_min_out second_min_out min_amount_out expected_output_mint
      (leg0 ∷ leg1 ∷ leg2 ∷ []) true =
    dynamic_three_hop derive program_id accounts first_intermediate second_intermediate amount_in
      first_min_out second_min_out min_amount_out expected_output_mint leg0 leg1 leg2
build_three_hop_route_instruction derive program_id accounts first_intermediate second_intermediate
      amount_in first_min_out second_min_out min_amount_out expected_output_mint _ _ =
    none

unfoldable pub token_fee_program : Bytes → Bytes
token_fee_program token_program =
    if bytes_eq token_program Constants.token_2022_program
    then Constants.token_2022_program
    else Constants.token_program

abbrev pub sol_fee_program : Bytes
sol_fee_program = Constants.system_program

abbrev pub spl_fee_program : Bytes
spl_fee_program = Constants.token_program
