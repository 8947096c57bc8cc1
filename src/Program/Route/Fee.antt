-- ===== src/Program/Route/Fee.antt =====
-- route.rs, `process_inner`: the platform fee, taken by a CPI before the legs run.
use sol_trade_router_sdk.Base.{
  ℕ, Bool, true, false, not, ◌&&◌, Option, none, some, [], ◌∷◌, ◌++◌, length, find, get_elem?, ltb,
  ◌==◌, if◌then◌else◌,
}
use sol_trade_router_sdk.Base.Bytes.{Bytes, bytes_eq}
use sol_trade_router_sdk.Base.Words.{to_le_bytes}
use sol_trade_router_sdk.Program.Error.{
  Result, ok, fail, RouterError, from_router, reject_if, index, or_else, ◌>>=◌, ◌>>◌,
}
use sol_trade_router_sdk.Program.Ledger.{
  AccountView, Ledger, Runtime, InstructionAccount, owner, contents, call,
}
use sol_trade_router_sdk.Program.State.{
  RouterConfig, system_program_id, token_program_id, token_2022_program_id, is_token_program,
  token_mint, token_owner,
}
use sol_trade_router_sdk.Program.Route.Input.{Accounts}

abbrev meta : Bytes → Bool → Bool → InstructionAccount
meta address is_writable is_signer = record {
  address = address;
  is_writable = is_writable;
  is_signer = is_signer;
}

unfoldable pub pay_sol_fee : Runtime → RouterConfig → Accounts → ℕ → Ledger → Result Ledger
pay_sol_fee rt cfg a fee l = do
  reject_if (not (bytes_eq a.fee_program.address system_program_id))
      (from_router RouterError.invalid_program_id)
  reject_if (not (bytes_eq a.fee_destination.address cfg.fee_recipient))
      (from_router RouterError.invalid_fee_asset)
  reject_if (not (bytes_eq a.fee_source.address a.user.address))
      (from_router RouterError.invalid_fee_asset)
  call (rt.system_transfer a.fee_source a.fee_destination fee l)

-- SPL Token `TransferChecked`, with the mint among the remaining accounts
unfoldable pub pay_checked : Runtime → Accounts → AccountView → ℕ → Ledger → Result Ledger
pay_checked rt a mint fee l = do
  reject_if (not (bytes_eq (owner l mint) a.fee_program.address))
      (from_router RouterError.invalid_fee_asset)
  let mint_data = contents l mint
  not_a_mint ←
      or_else (ok (ltb (length mint_data) 82))
        (do initialized ← index (get_elem? mint_data 45); ok (not (initialized == 1)))
  reject_if not_a_mint (from_router RouterError.invalid_fee_asset)
  decimals ← index (get_elem? mint_data 44)
  call (
      rt.invoke
        (record {
          program_id = a.fee_program.address;
          accounts =
              meta a.fee_source.address true false
              ∷ meta mint.address false false
              ∷ meta a.fee_destination.address true false
              ∷ meta a.user.address false true
              ∷ [];
          payload = 12 ∷ (to_le_bytes 8 fee ++ decimals ∷ []);
        })
        (a.fee_source ∷ mint ∷ a.fee_destination ∷ a.user ∷ []) l)

-- `mint.filter(|_| fee_program == TOKEN_2022)`
abbrev pub checked_mint : Accounts → Bytes → Option AccountView
checked_mint a mint_address =
    let found = find (λ (acc : AccountView). bytes_eq acc.address mint_address) a.remaining in
    if bytes_eq a.fee_program.address token_2022_program_id then found else none

unfoldable pub transfer_token_fee :
    Runtime → Accounts → Option AccountView → ℕ → Ledger → Result Ledger
transfer_token_fee rt a (some mint) fee l = pay_checked rt a mint fee l
transfer_token_fee rt a none fee l =
    call (rt.token_transfer a.fee_source a.fee_destination a.user fee a.fee_program.address l)

unfoldable pub pay_token_fee : Runtime → RouterConfig → Accounts → ℕ → Ledger → Result Ledger
pay_token_fee rt cfg a fee l = do
  let fp = a.fee_program.address
  reject_if (not (bytes_eq fp token_program_id) && not (bytes_eq fp token_2022_program_id))
      (from_router RouterError.invalid_program_id)
  reject_if (not (bytes_eq fp (owner l a.fee_source))) (from_router RouterError.invalid_program_id)
  reject_if (not (is_token_program (owner l a.fee_destination)))
      (from_router RouterError.invalid_fee_asset)
  reject_if (not (bytes_eq (owner l a.fee_destination) (owner l a.fee_source)))
      (from_router RouterError.invalid_fee_asset)
  holder ← token_owner l a.fee_destination
  reject_if (not (bytes_eq holder cfg.fee_recipient)) (from_router RouterError.invalid_fee_asset)
  destination_mint ← token_mint l a.fee_destination
  source_mint ← token_mint l a.fee_source
  reject_if (not (bytes_eq destination_mint source_mint))
      (from_router RouterError.invalid_fee_asset)
  mint_address ← token_mint l a.fee_source
  transfer_token_fee rt a (checked_mint a mint_address) fee l

unfoldable pub pay_fee : Runtime → RouterConfig → Accounts → ℕ → ℕ → Ledger → Result Ledger
pay_fee rt cfg a fee_asset fee l =
    if ltb 0 fee
    then (if fee_asset == 0
        then pay_sol_fee rt cfg a fee l
        else if fee_asset == 1
        then pay_token_fee rt cfg a fee l
        else fail RouterError.invalid_fee_asset)
    else ok l
