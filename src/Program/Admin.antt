-- ===== src/Program/Admin.antt =====
-- programs/sol-trade-router/src/instructions/initialize.rs and update_config.rs
use sol_trade_router_sdk.Base.{
  ℕ, Bool, true, false, not, ◌&&◌, ◌||◌, Option, none, some, List, [], ◌∷◌, length, get_elem?, ltb,
  leb, ◌==◌, if◌then◌else◌,
}
use sol_trade_router_sdk.Base.Bytes.{Bytes, bytes_eq}
use sol_trade_router_sdk.Base.Words.{from_le_bytes}
use sol_trade_router_sdk.Program.Error.{
  Result, ok, err, panic, RouterError, missing_required_signature, from_router, reject_if, ok_or,
  index, ◌>>=◌, ◌>>◌,
}
use sol_trade_router_sdk.Program.Ledger.{AccountView, Ledger, Runtime, owner, contents, call}
use sol_trade_router_sdk.Program.State.{
  config_seed, config_len, config_pda, max_fee_bps, read, write_new, update,
}
use sol_trade_router_sdk.Program.Route.Input.{split_first}

-- `u16::from_le_bytes([data[0], data[1]])`
unfoldable pub fee_bps_of : Bytes → Result ℕ
fee_bps_of d = do
  low ← index (get_elem? d 0)
  high ← index (get_elem? d 1)
  ok (from_le_bytes (low ∷ high ∷ []))

-- `RouterConfig::read(config).is_ok()`
unfoldable pub is_ok {ℓ} : {A : Type ℓ} → Result A → Bool
is_ok (ok a) = true
is_ok (err e) = false
is_ok panic = false

unfoldable pub initialize : Runtime → Bytes → List AccountView → Bytes → Ledger → Result Ledger
initialize rt program_id accounts d l = do
  reject_if (ltb (length d) 3) (from_router RouterError.invalid_instruction_data)
  fee_bps ← fee_bps_of d
  bump ← index (get_elem? d 2)
  reject_if (ltb max_fee_bps fee_bps) (from_router RouterError.invalid_fee_bps)
  (payer, rest1) ← split_first accounts
  (config, rest2) ← split_first rest1
  (fee_recipient, rest) ← split_first rest2
  reject_if (not payer.is_signer) missing_required_signature
  let (expected, expected_bump) = config_pda rt program_id
  reject_if (not (bump == expected_bump) || not (bytes_eq config.address expected))
      (from_router RouterError.invalid_config)
  reject_if (leb config_len (length (contents l config)) && is_ok (read l config))
      (from_router RouterError.already_initialized)
  created ←
      call (rt.create_account config config_len program_id payer (config_seed ∷ (bump ∷ []) ∷ []) l)
  write_new config payer.address fee_recipient.address fee_bps bump created

unfoldable pub new_recipient : ℕ → List AccountView → Result (Option Bytes)
new_recipient update_recipient rest =
    if update_recipient == 1
    then (do
      recipient ← ok_or (get_elem? rest 0) (from_router RouterError.insufficient_accounts)
      ok (some recipient.address))
    else ok none

unfoldable pub update_config : Runtime → Bytes → List AccountView → Bytes → Ledger → Result Ledger
update_config rt program_id accounts d l = do
  reject_if (ltb (length d) 4) (from_router RouterError.invalid_instruction_data)
  fee_bps ← fee_bps_of d
  paused ← index (get_elem? d 2)
  update_recipient ← index (get_elem? d 3)
  reject_if (ltb max_fee_bps fee_bps) (from_router RouterError.invalid_fee_bps)
  reject_if (ltb 1 paused) (from_router RouterError.invalid_instruction_data)
  (authority, rest1) ← split_first accounts
  (config, rest) ← split_first rest1
  reject_if (not authority.is_signer) missing_required_signature
  let (expected, _) = config_pda rt program_id
  reject_if (not (bytes_eq config.address expected) || not (bytes_eq (owner l config) program_id))
      (from_router RouterError.invalid_config)
  cfg ← read l config
  reject_if (not (bytes_eq authority.address cfg.authority)) (from_router RouterError.unauthorized)
  recipient ← new_recipient update_recipient rest
  update config recipient (some fee_bps) (some (paused == 1)) l
