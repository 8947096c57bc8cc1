-- ===== src/Sdk/Keys.antt =====
-- crates/sdk/src/lib.rs: the address of the config; and the account metas and instructions of
-- solana_sdk. `find_program_address` is solana_sdk's, an argument of what derives an address.
use sol_trade_router_sdk.Base.{ℕ, Bool, true, false, List, [], ◌∷◌}
use sol_trade_router_sdk.Base.Bytes.{Bytes}

pub record AccountMeta : Type 0 where
  pub pubkey : Bytes
  pub is_signer : Bool
  pub is_writable : Bool

-- `AccountMeta::new`, `AccountMeta::new_readonly`
abbrev pub new : Bytes → Bool → AccountMeta
new key signer = record { pubkey = key; is_signer = signer; is_writable = true }

abbrev pub new_readonly : Bytes → Bool → AccountMeta
new_readonly key signer = record { pubkey = key; is_signer = signer; is_writable = false }

pub record BuiltInstruction : Type 0 where
  pub program_id : Bytes
  pub accounts : List AccountMeta
  pub payload : Bytes

-- The seeds and the program, to the address and the bump.
abbrev pub Derive : Type 0
Derive = List Bytes → Bytes → Bytes × ℕ

-- The one seed is b"config".
unfoldable pub config_pda : Derive → Bytes → Bytes × ℕ
config_pda derive program_id = derive ((99 ∷ 111 ∷ 110 ∷ 102 ∷ 105 ∷ 103 ∷ []) ∷ []) program_id
