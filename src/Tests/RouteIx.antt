-- ===== src/Tests/RouteIx.antt =====
-- Runs and instances of the SDK's route instructions.
use sol_trade_router_sdk.Base.{◌≡◌, refl, true, false, some, [], ◌∷◌, ◌++◌, arith, length}
use sol_trade_router_sdk.Base.Bytes.{Bytes, bytes_eq, zeros}
use sol_trade_router_sdk.Program.Route.Layout.{dynamic_second_leg}
use sol_trade_router_sdk.Sdk.Fallible.{◌>>=◌, bail_if}
use sol_trade_router_sdk.Sdk.Keys.{BuiltInstruction, Derive, new, new_readonly, config_pda}
use sol_trade_router_sdk.Sdk.Constants
use sol_trade_router_sdk.Sdk.Legs.{Leg}
use sol_trade_router_sdk.Sdk.RouteIx.Layout.{dynamic_leg_layout, validate_dynamic_leg}
use sol_trade_router_sdk.Sdk.RouteIx.Build.{
  RouteAccounts, build_dynamic_route_instruction, build_three_hop_route_instruction,
  build_route_instruction_ex, dynamic_instruction, dynamic_three_hop, three_hop_instruction,
  writes_key, bad_leg, fixed_metas, append_fee_mint, program_metas, remember, legs_metas,
}
use sol_trade_router_sdk.Sdk.RouteIx.Agreement.{Agrees, dynamic_leg_layout-Agrees}
use sol_trade_router_sdk.Sdk.RouteIx.Decode.{Sendable, none_left, and_more, Received}
use sol_trade_router_sdk.Sdk.RouteIx.RoundTrip.{build_dynamic_route_instruction-Decodes}
use sol_trade_router_sdk.Sdk.RouteIx.ThreeHop.{
  build_three_hop_route_instruction-Decodes, build_route_instruction_ex-Decodes,
}
use sol_trade_router_sdk.Tests.World.{key}

-- Every derived address is `key 40`, with the bump 255.
abbrev derive : Derive
derive seeds program = (key 40, 255)

abbrev accounts : RouteAccounts
accounts = record {
  payer = key 1;
  fee_destination = key 4;
  fee_source = key 5;
  output_token_account = key 6;
  fee_program = Constants.token_2022_program;
  fee_mint = key 21;
}

-- A leg of some pool that writes the first intermediate account.
abbrev first_leg : Leg
first_leg = record {
  program_id = key 30;
  accounts = new_readonly (key 1) true ∷ new (key 7) false ∷ [];
  payload = 9 ∷ 8 ∷ 7 ∷ [];
}

-- A Raydium CPMM swap of what came in, from one account to another.
abbrev cpmm_leg_between : Bytes → Bytes → Leg
cpmm_leg_between input output = record {
  program_id = Constants.raydium_cpmm_program;
  accounts =
      new_readonly (key 1) true
      ∷ Constants.raydium_cpmm_authority_meta
      ∷ new_readonly (key 50) false
      ∷ new (key 51) false
      ∷ new input false
      ∷ new output false
      ∷ new (key 52) false
      ∷ new (key 53) false
      ∷ Constants.token_program_meta
      ∷ Constants.token_program_meta
      ∷ new_readonly (key 23) false
      ∷ new_readonly (key 22) false
      ∷ [];
  payload = Constants.cpmm_swap_base_in ++ (zeros 8 ++ (1 ∷ zeros 7));
}

abbrev dynamic_ix : BuiltInstruction
dynamic_ix =
    dynamic_instruction derive Constants.program_id accounts (key 7) 1000 1 2 (key 22) first_leg
      (cpmm_leg_between (key 7) (key 6))

dynamic_builds :
    build_dynamic_route_instruction derive Constants.program_id accounts
      (key 7)
      1000
      1
      2
      (key 22)
      first_leg
      (cpmm_leg_between (key 7) (key 6))
    ≡ some dynamic_ix
unfolding build_dynamic_route_instruction validate_dynamic_leg dynamic_leg_layout writes_key
    bytes_eq bail_if ◌>>=◌
dynamic_builds = refl

build_dynamic_route_instruction-Decodes_example :
    Received 5 1 58
      (record {
        amount_in = 1000;
        min_amount_out = 2;
        num_legs = 2;
        expected_output_mint = key 22;
        intermediate_min_out = 1;
        second_intermediate_min_out = 0;
        exact_out = false;
        fee_asset = 1;
      })
      (first_leg ∷ cpmm_leg_between (key 7) (key 6) ∷ [])
      dynamic_ix.payload
build_dynamic_route_instruction-Decodes_example =
    build_dynamic_route_instruction-Decodes derive Constants.program_id accounts (key 7) 1000 1 2
      (key 22) first_leg (cpmm_leg_between (key 7) (key 6)) dynamic_ix dynamic_builds
      (omega arith, omega arith, omega arith) refl refl refl

abbrev three_hop_ix : BuiltInstruction
three_hop_ix =
    three_hop_instruction derive Constants.program_id accounts (key 7) (key 8) 1000 1 3 2 (key 22)
      (first_leg ∷ cpmm_leg_between (key 7) (key 8) ∷ cpmm_leg_between (key 8) (key 6) ∷ [])

three_hop_builds :
    build_three_hop_route_instruction derive Constants.program_id accounts
      (key 7)
      (key 8)
      1000
      1
      3
      2
      (key 22)
      (first_leg ∷ cpmm_leg_between (key 7) (key 8) ∷ cpmm_leg_between (key 8) (key 6) ∷ [])
      true
    ≡ some three_hop_ix
unfolding build_three_hop_route_instruction dynamic_three_hop validate_dynamic_leg
    dynamic_leg_layout bad_leg writes_key bytes_eq bail_if ◌>>=◌
three_hop_builds = refl

build_three_hop_route_instruction-Decodes_example :
    Received 6 2 66
      (record {
        amount_in = 1000;
        min_amount_out = 2;
        num_legs = 3;
        expected_output_mint = key 22;
        intermediate_min_out = 1;
        second_intermediate_min_out = 3;
        exact_out = false;
        fee_asset = 1;
      })
      (first_leg ∷ cpmm_leg_between (key 7) (key 8) ∷ cpmm_leg_between (key 8) (key 6) ∷ [])
      three_hop_ix.payload
build_three_hop_route_instruction-Decodes_example =
    build_three_hop_route_instruction-Decodes derive Constants.program_id accounts (key 7) (key 8)
      1000 1 3 2 (key 22) first_leg (cpmm_leg_between (key 7) (key 8))
      (cpmm_leg_between (key 8) (key 6)) three_hop_ix three_hop_builds
      (omega arith, omega arith, omega arith, omega arith) refl (refl, refl, refl)

first_leg-Sendable : Sendable first_leg
first_leg-Sendable = record {
  address = refl;
  some_account = omega arith;
  few_accounts = omega arith;
  short = omega arith;
}

build_route_instruction_ex-Decodes_example :
    Received 2 0 50
      (record {
        amount_in = 1000;
        min_amount_out = 2;
        num_legs = 1;
        expected_output_mint = key 22;
        intermediate_min_out = 0;
        second_intermediate_min_out = 0;
        exact_out = true;
        fee_asset = 1;
      })
      (first_leg ∷ [])
      (build_route_instruction_ex derive Constants.program_id accounts 1000 2 1 true
        (key 22)
        (first_leg ∷ [])).payload
build_route_instruction_ex-Decodes_example =
    build_route_instruction_ex-Decodes derive Constants.program_id accounts 1000 2 1 true (key 22)
      (first_leg ∷ []) (omega arith, omega arith) (omega arith) (omega arith) refl (omega arith)
      (omega arith) (and_more first_leg [] first_leg-Sendable none_left)

dynamic_leg_layout-Agrees_example :
    Agrees
      (cpmm_leg_between (key 7) (key 6)).payload
      (dynamic_leg_layout Constants.raydium_cpmm_program (cpmm_leg_between (key 7) (key 6)).payload)
      (dynamic_second_leg Constants.raydium_cpmm_program (cpmm_leg_between (key 7) (key 6)).payload)
dynamic_leg_layout-Agrees_example =
    dynamic_leg_layout-Agrees Constants.raydium_cpmm_program
      (cpmm_leg_between (key 7) (key 6)).payload

-- The fixed route names the fee mint once, and each program once.
metas_named_once :
    length
      (build_route_instruction_ex derive Constants.program_id accounts 1000 2 1 true
        (key 22)
        (first_leg ∷ first_leg ∷ [])).accounts
    ≡ 12
unfolding build_route_instruction_ex fixed_metas append_fee_mint program_metas remember legs_metas
    config_pda bytes_eq
metas_named_once = refl
