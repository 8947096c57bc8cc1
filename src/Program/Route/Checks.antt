-- ===== src/Program/Route/Checks.antt =====
-- route.rs: the helpers of the route, each with its errors and its panics.
use sol_trade_router_sdk.Base.{
  ℕ, ◌+◌, ◌*◌, ◌/◌, Bool, false, not, ◌&&◌, ◌||◌, List, [], ◌∷◌, length, take, any, get_elem?, ltb,
  leb, ◌==◌, if◌then◌else◌,
}
use sol_trade_router_sdk.Base.Bytes.{Bytes, bytes_eq, get_range, write_at, zeros}
use sol_trade_router_sdk.Base.Words.{to_le_bytes, from_le_bytes, checked_sub, checked_to, max_u64}
use sol_trade_router_sdk.Program.Error.{
  Result, ok, panic, RouterError, from_router, reject_if, ok_or, index, or_else, and_then, ◌>>=◌,
  ◌>>◌,
}
use sol_trade_router_sdk.Program.Ledger.{AccountView, Ledger, owner, lamports}
use sol_trade_router_sdk.Program.State.{
  system_program_id, is_token_program, token_mint, token_owner, token_amount,
}
use sol_trade_router_sdk.Program.Route.Layout.{DynamicSecondLeg, no_account, max_dynamic_leg_data}

-- `leg_accounts[i].address() == a`
unfoldable pub has_address : List AccountView → ℕ → Bytes → Result Bool
has_address accounts i a = do v ← index (get_elem? accounts i); ok (bytes_eq v.address a)

-- `i != NO_ACCOUNT && leg_accounts[i].address() != a`
unfoldable pub mismatch : List AccountView → ℕ → Bytes → Result Bool
mismatch accounts i a = do
  if i == no_account then ok false else do same ← has_address accounts i a; ok (not same)

-- `leg_accounts[i].address() != a || !leg_accounts[i].…()`
unfoldable pub lacks : List AccountView → ℕ → Bytes → (AccountView → Bool) → Result Bool
lacks accounts i a flag = do
  v ← index (get_elem? accounts i)
  ok (not (bytes_eq v.address a) || not (flag v))

-- `i != NO_ACCOUNT && i >= leg_accounts.len()`
abbrev pub out_of_range : List AccountView → ℕ → Bool
out_of_range accounts i = not (i == no_account) && leb (length accounts) i

abbrev pub required : DynamicSecondLeg → List ℕ
required layout =
    layout.input_account ∷ layout.output_account ∷ layout.signer ∷ layout.input_mint
    ∷ layout.input_program ∷ layout.output_mint ∷ layout.output_program ∷ []

unfoldable pub pool_mismatch :
    DynamicSecondLeg
    → List AccountView
    → Ledger
    → AccountView
    → AccountView
    → Bytes
    → Bytes
    → Result Bool
pool_mismatch layout accounts l input output input_mint output_mint =
    if layout.paired_mints
    then (do
      forward ← and_then (has_address accounts layout.input_mint input_mint) (
          and_then (has_address accounts layout.output_mint output_mint) (
            and_then (has_address accounts layout.input_program (owner l input))
              (has_address accounts layout.output_program (owner l output))))
      reverse ← and_then (has_address accounts layout.output_mint input_mint) (
          and_then (has_address accounts layout.input_mint output_mint) (
            and_then (has_address accounts layout.output_program (owner l input))
              (has_address accounts layout.input_program (owner l output))))
      ok (not forward && not reverse))
    else or_else (mismatch accounts layout.input_mint input_mint) (
        or_else (mismatch accounts layout.output_mint output_mint) (
          or_else (mismatch accounts layout.input_program (owner l input))
            (mismatch accounts layout.output_program (owner l output))))

unfoldable pub validate_dynamic_accounts :
    DynamicSecondLeg
    → List AccountView
    → Ledger
    → AccountView
    → AccountView
    → AccountView
    → Result (Unit {0})
validate_dynamic_accounts layout accounts l user input output = do
  wrong ← or_else (ok (any (out_of_range accounts) (required layout))) (
      or_else (lacks accounts layout.signer user.address (λ v. v.is_signer)) (
        or_else (lacks accounts layout.input_account input.address (λ v. v.is_writable))
          (lacks accounts layout.output_account output.address (λ v. v.is_writable))))
  reject_if wrong (from_router RouterError.invalid_dynamic_leg)
  input_mint ← token_mint l input
  output_mint ← token_mint l output
  other_pool ← pool_mismatch layout accounts l input output input_mint output_mint
  reject_if other_pool (from_router RouterError.invalid_dynamic_leg)

unfoldable pub received_quote : ℕ → ℕ → ℕ → Result ℕ
received_quote before after minimum = do
  received ← ok_or (checked_sub after before) (from_router RouterError.invalid_intermediate_account)
  reject_if (ltb received minimum) (from_router RouterError.slippage_exceeded)
  ok received

-- The scratch buffer holds 49 bytes: copying in more, or past its end, panics.
unfoldable pub patch_second_leg_amount : Bytes → ℕ → ℕ → Result Bytes
patch_second_leg_amount d amount offset =
    if leb (length d) max_dynamic_leg_data && leb (offset + 8) max_dynamic_leg_data
    then ok (
        take (length d)
          (write_at (write_at (zeros max_dynamic_leg_data) 0 d) offset (to_le_bytes 8 amount)))
    else panic

unfoldable pub read_u16 : Bytes → ℕ → Result ℕ
read_u16 d offset = do
  bytes ← ok_or (get_range d offset (offset + 2)) (from_router RouterError.invalid_instruction_data)
  ok (from_le_bytes bytes)

unfoldable pub read_u64 : Bytes → ℕ → Result ℕ
read_u64 d offset = do
  bytes ← ok_or (get_range d offset (offset + 8)) (from_router RouterError.invalid_instruction_data)
  ok (from_le_bytes bytes)

-- The product of a `u64` and a `u16` fits `u128`.
unfoldable pub checked_fee : ℕ → ℕ → Result ℕ
checked_fee amount_in fee_bps =
    if fee_bps == 0
    then ok 0
    else ok_or (checked_to max_u64 (amount_in * fee_bps / 10000))
        (from_router RouterError.arithmetic_overflow)

unfoldable pub validate_output : Ledger → AccountView → AccountView → Bytes → Bool → Result Bool
validate_output l user output expected_mint dynamic =
    let native_sol = bytes_eq expected_mint system_program_id in
    if native_sol
    then (do
      reject_if (dynamic || not (bytes_eq output.address user.address))
          (from_router RouterError.invalid_output_account)
      ok native_sol)
    else do
      reject_if (not (is_token_program (owner l output)))
          (from_router RouterError.invalid_output_account)
      mint ← token_mint l output
      reject_if (not (bytes_eq mint expected_mint)) (from_router RouterError.invalid_output_mint)
      foreign ←
          and_then (ok dynamic)
            (do holder ← token_owner l output; ok (not (bytes_eq holder user.address)))
      reject_if foreign (from_router RouterError.invalid_output_account)
      ok native_sol

unfoldable pub output_balance : Ledger → AccountView → Bool → Result ℕ
output_balance l output native_sol =
    if native_sol then ok (lamports l output) else token_amount l output

unfoldable pub validate_spend : ℕ → ℕ → ℕ → ℕ → Bool → Result (Unit {0})
validate_spend before after amount_in fee exact_out = do
  spent ← ok_or (checked_sub before after) (from_router RouterError.fee_source_mismatch)
  reject_if
      ((exact_out && (ltb amount_in spent || ltb spent fee))
        || (not exact_out && not (spent == amount_in)))
      (from_router RouterError.fee_source_mismatch)
