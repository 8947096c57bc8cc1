-- ===== src/Program/Dispatch.antt =====
-- programs/sol-trade-router/src/lib.rs: the instruction tags and `process_instruction`.
use sol_trade_router_sdk.Base.{ℕ, List, [], ◌∷◌, ◌==◌, if◌then◌else◌}
use sol_trade_router_sdk.Base.Bytes.{Bytes}
use sol_trade_router_sdk.Program.Error.{Result, fail, RouterError}
use sol_trade_router_sdk.Program.Ledger.{AccountView, Ledger, Runtime}
use sol_trade_router_sdk.Program.Admin.{initialize, update_config}
use sol_trade_router_sdk.Program.Prepare.{prepare_pumpfun}
use sol_trade_router_sdk.Program.Route.Process.{process, process_dynamic, process_dynamic_three}

abbrev pub tag_initialize : ℕ
tag_initialize = 0

abbrev pub tag_update_config : ℕ
tag_update_config = 1

abbrev pub tag_route : ℕ
tag_route = 2

abbrev pub tag_prepare_pumpfun : ℕ
tag_prepare_pumpfun = 7

abbrev pub tag_route_dynamic : ℕ
tag_route_dynamic = 5

abbrev pub tag_route_dynamic_three : ℕ
tag_route_dynamic_three = 6

unfoldable pub dispatch : Runtime → Bytes → List AccountView → ℕ → Bytes → Ledger → Result Ledger
dispatch rt program_id accounts disc d l =
    if disc == tag_initialize
    then initialize rt program_id accounts d l
    else if disc == tag_update_config
    then update_config rt program_id accounts d l
    else if disc == tag_prepare_pumpfun
    then prepare_pumpfun rt accounts d l
    else if disc == tag_route
    then process rt program_id accounts d l
    else if disc == tag_route_dynamic
    then process_dynamic rt program_id accounts d l
    else if disc == tag_route_dynamic_three
    then process_dynamic_three rt program_id accounts d l
    else fail RouterError.unknown_instruction

unfoldable pub process_instruction :
    Runtime → Bytes → List AccountView → Bytes → Ledger → Result Ledger
process_instruction rt program_id accounts [] l = fail RouterError.invalid_instruction_data
process_instruction rt program_id accounts (disc ∷ d) l = dispatch rt program_id accounts disc d l
