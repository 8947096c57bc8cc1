-- ===== src/Program/Prepare.antt =====
-- programs/sol-trade-router/src/instructions/prepare_pumpfun.rs
use sol_trade_router_sdk.Base.{◌-◌, not, ◌||◌, List, [], ◌∷◌, length, ltb, ◌==◌, if◌then◌else◌}
use sol_trade_router_sdk.Base.Bytes.{Bytes, bytes_eq, get_range}
use sol_trade_router_sdk.Program.Error.{
  Result, ok, fail, RouterError, missing_required_signature, invalid_account_data, from_router,
  reject_if, index, or_else, ◌>>=◌, ◌>>◌,
}
use sol_trade_router_sdk.Program.Ledger.{
  AccountView, Ledger, Runtime, owner, lamports, contents, call,
}
use sol_trade_router_sdk.Program.State.{system_program_id}

-- 6EF8rrecthR5Dkzon8Nwu78hRvfCKubJ14M5uBEwF6P
abbrev pub pump : Bytes
pump =
    1 ∷ 86 ∷ 224 ∷ 246 ∷ 147 ∷ 102 ∷ 90 ∷ 207 ∷ 68 ∷ 219 ∷ 21 ∷ 104 ∷ 191 ∷ 23 ∷ 91 ∷ 170 ∷ 81 ∷ 137
    ∷ 203 ∷ 151 ∷ 245 ∷ 210 ∷ 255 ∷ 59 ∷ 101 ∷ 93 ∷ 43 ∷ 182 ∷ 253 ∷ 109 ∷ 24 ∷ 176 ∷ []

abbrev pub curve_discriminator : Bytes
curve_discriminator = 23 ∷ 183 ∷ 248 ∷ 55 ∷ 96 ∷ 216 ∷ 172 ∷ 96 ∷ []

-- b"creator-vault"
abbrev pub creator_vault_seed : Bytes
creator_vault_seed = 99 ∷ 114 ∷ 101 ∷ 97 ∷ 116 ∷ 111 ∷ 114 ∷ 45 ∷ 118 ∷ 97 ∷ 117 ∷ 108 ∷ 116 ∷ []

abbrev pub creator_vault : Runtime → Bytes → Bytes
creator_vault rt creator = (rt.find_program_address (creator_vault_seed ∷ creator ∷ []) pump).0

unfoldable pub top_up : Runtime → AccountView → AccountView → Ledger → Result Ledger
top_up rt payer vault l = do
  minimum ← call (rt.minimum_balance 0)
  let needed = minimum - lamports l vault
  if ltb 0 needed then call (rt.system_transfer payer vault needed l) else ok l

unfoldable pub prepare_vault :
    Runtime → AccountView → AccountView → AccountView → AccountView → Ledger → Result Ledger
prepare_vault rt payer curve vault system l = do
  reject_if (not payer.is_signer) missing_required_signature
  reject_if (not payer.is_writable || not vault.is_writable) invalid_account_data
  reject_if (not (bytes_eq system.address system_program_id) || not (bytes_eq (owner l curve) pump))
      (from_router RouterError.invalid_program_id)
  let curve_data = contents l curve
  not_a_curve ←
      or_else (ok (ltb (length curve_data) 81))
        (do tag ← index (get_range curve_data 0 8); ok (not (bytes_eq tag curve_discriminator)))
  reject_if not_a_curve invalid_account_data
  creator ← index (get_range curve_data 49 81)
  reject_if
      (not (bytes_eq vault.address (creator_vault rt creator))
        || not (bytes_eq (owner l vault) system_program_id)
        || not (length (contents l vault) == 0))
      invalid_account_data
  top_up rt payer vault l

-- Exactly four accounts.
unfoldable pub prepare_accounts : Runtime → List AccountView → Ledger → Result Ledger
prepare_accounts rt (payer ∷ curve ∷ vault ∷ system ∷ []) l =
    prepare_vault rt payer curve vault system l
prepare_accounts rt _ l = fail RouterError.insufficient_accounts

unfoldable pub prepare_pumpfun : Runtime → List AccountView → Bytes → Ledger → Result Ledger
prepare_pumpfun rt accounts d l = do
  reject_if (not (length d == 0)) (from_router RouterError.invalid_instruction_data)
  prepare_accounts rt accounts l
