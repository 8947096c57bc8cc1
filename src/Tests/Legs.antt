-- ===== src/Tests/Legs.antt =====
-- A leg of a builder, through both checks of a dynamic leg.
use sol_trade_router_sdk.Base.{◌≡◌, refl, true, some, none, [], ◌∷◌, ◌++◌, ◌==◌}
use sol_trade_router_sdk.Base.Bytes.{Bytes, bytes_eq}
use sol_trade_router_sdk.Base.Words.{to_le_bytes}
use sol_trade_router_sdk.Program.Route.Layout.{DynamicSecondLeg}
use sol_trade_router_sdk.Sdk.Fallible.{◌>>=◌, bail_if}
use sol_trade_router_sdk.Sdk.Keys.{Derive}
use sol_trade_router_sdk.Sdk.Constants
use sol_trade_router_sdk.Sdk.Ata.{ata}
use sol_trade_router_sdk.Sdk.Legs.{Leg, encode_u64_pair}
use sol_trade_router_sdk.Sdk.Legs.Checks.{
  require_mint_programs, require_token_programs, require_array_addresses, ensure_leg_account_budget,
}
use sol_trade_router_sdk.Sdk.Legs.Meteora.{
  meteora_dlmm_swap_leg, dlmm_output_mint, dlmm_program_of, dlmm_accounts, dlmm_bad_bitmap,
}
use sol_trade_router_sdk.Sdk.Quote.Snapshot.{MeteoraDlmmPool}
use sol_trade_router_sdk.Sdk.RouteIx.Layout.{validate_dynamic_leg}
use sol_trade_router_sdk.Sdk.RouteIx.ExactInput.{dlmm, ReadsAs, ExactInput-accepted}
use sol_trade_router_sdk.Tests.World.{key}

abbrev derive : Derive
derive seeds program = (key 40, 255)

abbrev bitmap_pda : Bytes → Bytes
bitmap_pda pair = key 41

-- A DLMM pair of the mints `key 21` and `key 22`, with two bin arrays.
abbrev pair : MeteoraDlmmPool
pair = record {
  lb_pair = key 60;
  bitmap_extension = some (key 41);
  reserve_x = key 61;
  reserve_y = key 62;
  token_x_mint = key 21;
  token_y_mint = key 22;
  token_x_program = Constants.token_program;
  token_y_program = Constants.token_2022_program;
  oracle = key 63;
  bin_arrays = key 64 ∷ key 65 ∷ [];
  quoted_amount_in = none;
  quoted_input_mint = none;
  expected_out = none;
  fee_bps = 0;
}

abbrev dlmm_leg : Leg
dlmm_leg = record {
  program_id = Constants.meteora_dlmm_program;
  accounts = dlmm_accounts derive (key 1) pair (key 21) (key 22);
  payload =
      Constants.meteora_dlmm_swap2
      ++ (232 ∷ 3 ∷ 0 ∷ 0 ∷ 0 ∷ 0 ∷ 0 ∷ 0 ∷ 5 ∷ 0 ∷ 0 ∷ 0 ∷ 0 ∷ 0 ∷ 0 ∷ 0 ∷ 0 ∷ 0 ∷ 0 ∷ 0 ∷ []);
}

dlmm_builds : meteora_dlmm_swap_leg bitmap_pda derive (key 1) pair 1000 5 (key 21) ≡ some dlmm_leg
unfolding meteora_dlmm_swap_leg require_mint_programs require_token_programs require_array_addresses
    ensure_leg_account_budget dlmm_accounts dlmm_bad_bitmap dlmm_output_mint encode_u64_pair
    bytes_eq to_le_bytes bail_if ◌>>=◌
dlmm_builds = refl

dlmm_output : dlmm_output_mint pair (key 21) ≡ some (key 22)
unfolding dlmm_output_mint bytes_eq
dlmm_output = refl

ExactInput-accepted_example :
    (validate_dynamic_leg dlmm_leg
        (key 1)
        (ata derive (key 1) (key 21) (dlmm_program_of pair (key 21)))
        (ata derive (key 1) (key 22) (dlmm_program_of pair (key 22)))
        (1000 == 0)
        true
      ≡ some tt)
    × ((layout : DynamicSecondLeg) × ReadsAs dlmm_leg
          (key 1)
          (ata derive (key 1) (key 21) (dlmm_program_of pair (key 21)))
          (ata derive (key 1) (key 22) (dlmm_program_of pair (key 22)))
          1000
          layout)
ExactInput-accepted_example =
    ExactInput-accepted derive (key 1) dlmm_leg 1000
      (ata derive (key 1) (key 21) (dlmm_program_of pair (key 21)))
      (ata derive (key 1) (key 22) (dlmm_program_of pair (key 22)))
      (dlmm bitmap_pda pair 1000 5 (key 21) (key 22) dlmm_leg dlmm_builds dlmm_output)
