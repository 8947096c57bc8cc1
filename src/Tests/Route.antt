-- ===== src/Tests/Route.antt =====
-- Runs of the route, and its theorems at them.
use sol_trade_router_sdk.Base.{◌≡◌, refl, true, false, List, [], ◌∷◌, ◌++◌}
use sol_trade_router_sdk.Base.Bytes.{Bytes, bytes_eq, zeros, write_at}
use sol_trade_router_sdk.Base.Words.{to_le_bytes, from_le_bytes}
use sol_trade_router_sdk.Program.Error.{ok, ◌>>=◌, reject_if, ok_or, index, or_else, and_then}
use sol_trade_router_sdk.Program.Ledger.{AccountView, Ledger, call}
use sol_trade_router_sdk.Program.State.{
  read, at_start, decode, is_initialized, token_program_id, token_mint, token_owner, token_amount,
  is_token_program,
}
use sol_trade_router_sdk.Program.Route.Layout.{
  raydium_cpmm_program_id, cpmm_swap_base_in, dynamic_second_leg, is_launchlab_buy, is_cpmm_swap,
}
use sol_trade_router_sdk.Program.Route.Checks.{
  read_u16, read_u64, checked_fee, validate_output, output_balance, validate_spend, received_quote,
  patch_second_leg_amount, validate_dynamic_accounts, lacks, mismatch, pool_mismatch, has_address,
}
use sol_trade_router_sdk.Program.Route.Input.{
  parse_header, split_first, split_first_if, split_accounts, check_config, check_source,
  source_balance,
}
use sol_trade_router_sdk.Program.Route.Fee.{pay_fee, pay_token_fee, transfer_token_fee}
use sol_trade_router_sdk.Program.Route.Legs.{
  intermediate_before, parse_leg, leg_accounts, invoke_data, first_data, dynamic_data, quote_after,
  run_leg, run_legs,
}
use sol_trade_router_sdk.Program.Route.Process.{
  prepare, snapshot, check_spent, settle, process_inner,
}
use sol_trade_router_sdk.Program.Route.Guarantees.{
  RouteAuthorised, FeeIntegrity, OutputFloor, IntermediatesRestored, route_authorised,
  fee_integrity, output_floor, intermediates_restored,
}
use sol_trade_router_sdk.Tests.World.{key, user, program_id, world, view, runtime}

abbrev fixed : List AccountView
fixed =
    view user true true
    ∷ view (key 11) false false
    ∷ view (key 4) false true
    ∷ view (key 5) false true
    ∷ view (key 6) false true
    ∷ view token_program_id false false
    ∷ []

-- input 1000, minimum 50, token fee, one leg, output mint `key 22`
abbrev route_data : Bytes
route_data =
    232
    ∷ 3
    ∷ (zeros 6 ++ (50 ∷ (zeros 7 ++ (1 ∷ 1 ∷ (key 22 ++ (key 10 ++ (1 ∷ 1 ∷ 0 ∷ 7 ∷ [])))))))

abbrev route_accounts : List AccountView
route_accounts = fixed ++ view (key 30) false true ∷ []

route_runs :
    process_inner runtime program_id route_accounts route_data 0 (world 5000 0 100 7)
    ≡ ok (world 4000 10 160 7)
unfolding process_inner prepare parse_header read_u64 read_u16 split_accounts split_first
    split_first_if check_config read at_start decode is_initialized validate_output checked_fee
    check_source source_balance token_mint token_owner token_amount is_token_program pay_fee
    pay_token_fee transfer_token_fee snapshot output_balance intermediate_before run_legs run_leg
    parse_leg leg_accounts invoke_data quote_after settle check_spent validate_spend ◌>>=◌ reject_if
    ok_or index or_else and_then call bytes_eq to_le_bytes from_le_bytes
route_runs = refl

-- Two legs: `key 9` brings in 50 intermediate tokens (41 is the minimum), and a Raydium CPMM swap
-- spends them. Input 1000, minimum 60.
abbrev swap_data : Bytes
swap_data = cpmm_swap_base_in ++ zeros 16

abbrev dynamic_route_data : Bytes
dynamic_route_data =
    232
    ∷ 3
    ∷ (zeros 6
        ++ (60
            ∷ (zeros 7
                ++ (1
                    ∷ 2
                    ∷ (key 22
                        ++ (41
                            ∷ (zeros 7
                                ++ (key 9
                                    ++ (1
                                        ∷ 1
                                        ∷ 0
                                        ∷ 7
                                        ∷ (raydium_cpmm_program_id
                                            ++ (12 ∷ 24 ∷ 0 ∷ swap_data)))))))))))

abbrev swap_accounts : List AccountView
swap_accounts =
    view user true true
    ∷ view (key 31) false false
    ∷ view (key 32) false false
    ∷ view (key 33) false true
    ∷ view (key 7) false true
    ∷ view (key 6) false true
    ∷ view (key 34) false true
    ∷ view (key 35) false true
    ∷ view token_program_id false false
    ∷ view token_program_id false false
    ∷ view (key 23) false false
    ∷ view (key 22) false false
    ∷ []

abbrev dynamic_accounts : List AccountView
dynamic_accounts = fixed ++ view (key 7) false true ∷ view (key 7) false true ∷ swap_accounts

dynamic_route_runs :
    process_inner runtime program_id dynamic_accounts dynamic_route_data 1 (world 5000 0 100 7)
    ≡ ok (world 4000 10 160 7)
unfolding process_inner prepare parse_header read_u64 read_u16 split_accounts split_first
    split_first_if check_config read at_start decode is_initialized validate_output checked_fee
    check_source source_balance token_mint token_owner token_amount is_token_program pay_fee
    pay_token_fee transfer_token_fee snapshot output_balance intermediate_before run_legs run_leg
    parse_leg leg_accounts invoke_data first_data dynamic_data dynamic_second_leg is_launchlab_buy
    is_cpmm_swap validate_dynamic_accounts lacks mismatch pool_mismatch has_address
    patch_second_leg_amount write_at received_quote quote_after settle check_spent validate_spend
    ◌>>=◌ reject_if ok_or index or_else and_then call bytes_eq to_le_bytes from_le_bytes
dynamic_route_runs = refl

abbrev start : Ledger
start = world 5000 0 100 7

abbrev behind : Ledger
behind = world 4000 10 160 7

route_authorised_example : RouteAuthorised runtime program_id dynamic_accounts 1 start
route_authorised_example =
    route_authorised runtime program_id dynamic_accounts dynamic_route_data 1 start behind
      dynamic_route_runs

fee_integrity_example : FeeIntegrity runtime program_id route_accounts route_data 0 start behind
fee_integrity_example =
    fee_integrity runtime program_id route_accounts route_data 0 start behind route_runs

output_floor_example :
    OutputFloor runtime program_id dynamic_accounts dynamic_route_data 1 start behind
output_floor_example =
    output_floor runtime program_id dynamic_accounts dynamic_route_data 1 start behind
      dynamic_route_runs

intermediates_restored_example :
    IntermediatesRestored runtime program_id dynamic_accounts dynamic_route_data 1 start behind
intermediates_restored_example =
    intermediates_restored runtime program_id dynamic_accounts dynamic_route_data 1 start behind
      dynamic_route_runs
