-- ===== src/Program/Route/Legs.antt =====
-- route.rs, `process_inner`: the intermediate accounts and the loop over the legs.
-- The cursor and the account offset never pass the data and the accounts, so `usize` does not wrap.
use sol_trade_router_sdk.Base.{
  ℕ, zero, suc, ◌+◌, ◌-◌, Bool, true, false, not, ◌&&◌, ◌||◌, Option, none, some, List, map, length,
  take, drop, leb, any, get_elem?, ltb, ◌==◌, if◌then◌else◌,
}
use sol_trade_router_sdk.Base.Bytes.{Bytes, bytes_eq, get_range, zeros}
use sol_trade_router_sdk.Base.Words.{checked_to, max_u64}
use sol_trade_router_sdk.Program.Error.{
  Result, ok, panic, RouterError, from_router, reject_if, ok_or, index, or_else, ◌>>=◌, ◌>>◌,
}
use sol_trade_router_sdk.Program.Ledger.{
  AccountView, Ledger, Runtime, InstructionAccount, owner, call,
}
use sol_trade_router_sdk.Program.State.{is_token_program, token_owner, token_amount}
use sol_trade_router_sdk.Program.Route.Layout.{launchlab_program_id, dynamic_second_leg}
use sol_trade_router_sdk.Program.Route.Checks.{
  read_u16, validate_dynamic_accounts, patch_second_leg_amount, received_quote,
}
use sol_trade_router_sdk.Program.Route.Input.{
  Header, Accounts, is_dynamic, is_three_hop, max_leg_accounts,
}

abbrev same_address : AccountView → Option AccountView → Bool
same_address v none = false
same_address v (some w) = bytes_eq v.address w.address

-- The balance of an intermediate account before the legs run, or 0 where the route has none.
-- `first` is the other intermediate account that it must differ from.
unfoldable pub intermediate_before :
    Accounts → Option AccountView → Option AccountView → Ledger → Result ℕ
intermediate_before a none first l = ok 0
intermediate_before a (some intermediate) first l = do
  invalid ← or_else (ok (not intermediate.is_writable)) (
      or_else (ok (not (is_token_program (owner l intermediate)))) (
        or_else (do holder ← token_owner l intermediate; ok (not (bytes_eq holder a.user.address)))
          (ok (
            bytes_eq intermediate.address a.fee_source.address
            || bytes_eq intermediate.address a.user_output.address
            || same_address intermediate first))))
  reject_if invalid (from_router RouterError.invalid_intermediate_account)
  token_amount l intermediate

pub record Leg : Type 0 where
  pub program_id : Bytes
  pub num_accounts : ℕ
  pub payload : Bytes

-- One leg of the instruction data at the cursor, and the cursor behind it.
unfoldable pub parse_leg : Bytes → ℕ → Result (Leg × ℕ)
parse_leg d cursor = do
  program_id ← ok_or (get_range d cursor (cursor + 32)) (from_router RouterError.invalid_leg)
  num_accounts ← ok_or (get_elem? d (cursor + 32)) (from_router RouterError.invalid_leg)
  data_len ← read_u16 d (cursor + 33)
  reject_if (num_accounts == 0 || ltb max_leg_accounts num_accounts)
      (from_router RouterError.invalid_leg)
  payload ←
      ok_or (get_range d (cursor + 35) (cursor + 35 + data_len))
        (from_router RouterError.invalid_leg)
  ok (
    record { program_id = program_id; num_accounts = num_accounts; payload = payload },
    cursor + 35 + data_len,
  )

-- The accounts of a leg, `&remaining[offset..end]`, and the offset behind them. A range out of bounds
-- panics.
unfoldable pub leg_accounts : List AccountView → ℕ → ℕ → Result (List AccountView × ℕ)
leg_accounts remaining offset num_accounts = do
  end ←
      ok_or (checked_to max_u64 (offset + num_accounts))
        (from_router RouterError.arithmetic_overflow)
  reject_if (ltb (length remaining) end) (from_router RouterError.insufficient_accounts)
  accounts ←
      (if leb offset end && leb end (length remaining)
        then ok (take (end - offset) (drop offset remaining))
        else panic)
  ok (accounts, end)

abbrev writes : List AccountView → AccountView → Bool
writes accounts v =
    any (λ (acc : AccountView). bytes_eq acc.address v.address && acc.is_writable) accounts

abbrev writes_opt : List AccountView → Option AccountView → Bool
writes_opt accounts none = false
writes_opt accounts (some v) = writes accounts v

-- A following leg of a dynamic route: its input amount is replaced by what the leg before brought in.
unfoldable pub dynamic_data :
    Accounts
    → Leg
    → List AccountView
    → Option AccountView
    → Option AccountView
    → Bool
    → Bool
    → ℕ
    → Ledger
    → Result Bytes
dynamic_data a leg accounts input_acc output_acc refuse_launchlab zero_amount quote_received l = do
  input ← ok_or input_acc (from_router RouterError.invalid_intermediate_account)
  output ← ok_or output_acc (from_router RouterError.invalid_intermediate_account)
  reject_if (refuse_launchlab && bytes_eq leg.program_id launchlab_program_id)
      (from_router RouterError.invalid_dynamic_leg)
  layout ← dynamic_second_leg leg.program_id leg.payload
  preset ←
      (if zero_amount
        then (do
          amount ← index (get_range leg.payload layout.amount_offset (layout.amount_offset + 8))
          ok (not (bytes_eq amount (zeros 8))))
        else ok false)
  reject_if preset (from_router RouterError.invalid_dynamic_leg)
  validate_dynamic_accounts layout accounts l a.user input output
  patch_second_leg_amount leg.payload quote_received layout.amount_offset

-- The first leg of a dynamic route must write the intermediate account, and not the second one.
unfoldable pub first_data : Accounts → Leg → List AccountView → ℕ → Result Bytes
first_data a leg accounts n = do
  intermediate ← ok_or a.intermediate (from_router RouterError.invalid_intermediate_account)
  reject_if
      (not (writes accounts intermediate)
        || (is_three_hop n && writes_opt accounts a.second_intermediate))
      (from_router RouterError.invalid_intermediate_account)
  ok leg.payload

unfoldable pub invoke_data :
    Accounts → Header → ℕ → ℕ → Leg → List AccountView → ℕ → Ledger → Result Bytes
invoke_data a h n leg_index leg accounts quote_received l =
    if is_three_hop n && leg_index == 1
    then dynamic_data a leg accounts a.intermediate a.second_intermediate true true quote_received l
    else if is_dynamic n && leg_index == h.num_legs - 1
    then dynamic_data a leg accounts
        (if is_three_hop n then a.second_intermediate else a.intermediate) (some a.user_output)
        false (is_three_hop n) quote_received l
    else if is_dynamic n && leg_index == 0
    then first_data a leg accounts n
    else ok leg.payload

abbrev pub leg_meta : AccountView → InstructionAccount
leg_meta v = record { address = v.address; is_writable = v.is_writable; is_signer = v.is_signer }

-- What the leg that ran brought into the intermediate account that the next leg spends.
unfoldable pub quote_after : Accounts → Header → ℕ → ℕ → ℕ → ℕ → ℕ → Ledger → Result ℕ
quote_after a h n leg_index quote_before second_before quote_received l =
    if is_dynamic n && leg_index == 0
    then (do
      intermediate ← ok_or a.intermediate (from_router RouterError.invalid_intermediate_account)
      after ← token_amount l intermediate
      received_quote quote_before after h.intermediate_min_out)
    else if is_three_hop n && leg_index == 1
    then (do
      second ← ok_or a.second_intermediate (from_router RouterError.invalid_intermediate_account)
      after ← token_amount l second
      received_quote second_before after h.second_intermediate_min_out)
    else ok quote_received

pub record LoopState : Type 0 where
  pub cursor : ℕ
  pub remaining_offset : ℕ
  pub quote_received : ℕ
  pub ledger : Ledger

-- What the loop reads and does not change.
pub record Route : Type 0 where
  pub runtime : Runtime
  pub payload : Bytes
  pub accounts : Accounts
  pub header : Header
  pub intermediates : ℕ
  pub quote_before : ℕ
  pub second_before : ℕ

-- The loop's body at `leg_index`.
unfoldable pub run_leg : Route → ℕ → LoopState → Result LoopState
run_leg r leg_index s = do
  (leg, cursor) ← parse_leg r.payload s.cursor
  (accounts, offset) ← leg_accounts r.accounts.remaining s.remaining_offset leg.num_accounts
  payload ←
      invoke_data r.accounts r.header r.intermediates leg_index leg accounts s.quote_received
        s.ledger
  ledger ← call (
      r.runtime.invoke
        (record {
          program_id = leg.program_id;
          accounts = map leg_meta accounts;
          payload = payload;
        })
        accounts s.ledger)
  quote_received ←
      quote_after r.accounts r.header r.intermediates leg_index r.quote_before r.second_before
        s.quote_received ledger
  ok (record {
    cursor = cursor;
    remaining_offset = offset;
    quote_received = quote_received;
    ledger = ledger;
  })

-- `for leg_index in 0..num_legs`, with `left` legs still to run.
unfoldable pub run_legs : Route → ℕ → ℕ → LoopState → Result LoopState
run_legs r zero leg_index s = ok s
run_legs r (suc left) leg_index s = do
  s' ← run_leg r leg_index s
  run_legs r left (leg_index + 1) s'
