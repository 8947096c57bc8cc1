-- ===== src/Program/Route/Process.antt =====
-- route.rs, `process_inner`, composed of its stages, and its three entry points.
use sol_trade_router_sdk.Base.{
  ℕ, ◌+◌, ◌-◌, ◌*◌, Bool, not, ◌&&◌, Option, none, some, List, length, ltb, ◌==◌,
}
use sol_trade_router_sdk.Base.Bytes.{Bytes}
use sol_trade_router_sdk.Program.Error.{
  Result, ok, RouterError, from_router, reject_if, ◌>>=◌, ◌>>◌,
}
use sol_trade_router_sdk.Program.Ledger.{AccountView, Ledger, Runtime}
use sol_trade_router_sdk.Program.State.{RouterConfig, token_amount}
use sol_trade_router_sdk.Program.Route.Checks.{
  checked_fee, validate_output, output_balance, validate_spend,
}
use sol_trade_router_sdk.Program.Route.Input.{
  Header, Accounts, parse_header, split_accounts, check_config, check_source, source_balance,
  is_dynamic, route_header_len,
}
use sol_trade_router_sdk.Program.Route.Fee.{pay_fee}
use sol_trade_router_sdk.Program.Route.Legs.{Route, LoopState, intermediate_before, run_legs}

-- What is known before the fee is taken.
pub record Setup : Type 0 where
  pub header : Header
  pub accounts : Accounts
  pub config : RouterConfig
  pub native_sol_out : Bool
  pub fee : ℕ
  pub source_before : ℕ

unfoldable pub prepare : Runtime → Bytes → List AccountView → Bytes → ℕ → Ledger → Result Setup
prepare rt program_id accounts d n l = do
  h ← parse_header d n
  a ← split_accounts accounts n
  cfg ← check_config rt program_id a.user a.config l
  native_sol_out ← validate_output l a.user a.user_output h.expected_output_mint (is_dynamic n)
  fee ← checked_fee h.amount_in cfg.fee_bps
  source_before ← check_source l a.user a.fee_source h.fee_asset
  ok (record {
    header = h;
    accounts = a;
    config = cfg;
    native_sol_out = native_sol_out;
    fee = fee;
    source_before = source_before;
  })

-- `token_amount(intermediate)? != before`, where there is an intermediate account
unfoldable pub check_spent : Option AccountView → ℕ → Ledger → Result (Unit {0})
check_spent none before l = ok tt
check_spent (some intermediate) before l = do
  after ← token_amount l intermediate
  reject_if (not (after == before)) (from_router RouterError.intermediate_not_spent)

-- Balances snapshot after the fee, then the legs.
pub record Snapshot : Type 0 where
  pub output_before : ℕ
  pub quote_before : ℕ
  pub second_before : ℕ

unfoldable pub snapshot : Setup → Ledger → Result Snapshot
snapshot s l = do
  let a = s.accounts
  output_before ← output_balance l a.user_output s.native_sol_out
  quote_before ← intermediate_before a a.intermediate none l
  second_before ← intermediate_before a a.second_intermediate a.intermediate l
  ok (record {
    output_before = output_before;
    quote_before = quote_before;
    second_before = second_before;
  })

abbrev pub start : ℕ → Ledger → LoopState
start n l = record {
  cursor = route_header_len + 8 * n;
  remaining_offset = 0;
  quote_received = 0;
  ledger = l;
}

-- The checks behind the last leg.
unfoldable pub settle : Setup → Snapshot → Bytes → ℕ → LoopState → Result Ledger
settle s b d n e = do
  let a = s.accounts
  reject_if (is_dynamic n && not (e.cursor == length d))
      (from_router RouterError.invalid_instruction_data)
  check_spent a.intermediate b.quote_before e.ledger
  check_spent a.second_intermediate b.second_before e.ledger
  source_after ← source_balance e.ledger a.fee_source s.header.fee_asset
  validate_spend s.source_before source_after s.header.amount_in s.fee s.header.exact_out
  output_after ← output_balance e.ledger a.user_output s.native_sol_out
  reject_if (ltb (output_after - b.output_before) s.header.min_amount_out)
      (from_router RouterError.slippage_exceeded)
  ok e.ledger

abbrev pub route_of : Runtime → Setup → Snapshot → Bytes → ℕ → Route
route_of rt s b d n = record {
  runtime = rt;
  payload = d;
  accounts = s.accounts;
  header = s.header;
  intermediates = n;
  quote_before = b.quote_before;
  second_before = b.second_before;
}

unfoldable pub process_inner :
    Runtime → Bytes → List AccountView → Bytes → ℕ → Ledger → Result Ledger
process_inner rt program_id accounts d n l = do
  s ← prepare rt program_id accounts d n l
  paid ← pay_fee rt s.config s.accounts s.header.fee_asset s.fee l
  b ← snapshot s paid
  e ← run_legs (route_of rt s b d n) s.header.num_legs 0 (start n paid)
  settle s b d n e

unfoldable pub process : Runtime → Bytes → List AccountView → Bytes → Ledger → Result Ledger
process rt program_id accounts d l = process_inner rt program_id accounts d 0 l

unfoldable pub process_dynamic : Runtime → Bytes → List AccountView → Bytes → Ledger → Result Ledger
process_dynamic rt program_id accounts d l = process_inner rt program_id accounts d 1 l

unfoldable pub process_dynamic_three :
    Runtime → Bytes → List AccountView → Bytes → Ledger → Result Ledger
process_dynamic_three rt program_id accounts d l = process_inner rt program_id accounts d 2 l
