-- ===== src/Sdk/Admin.antt =====
-- crates/sdk/src/admin.rs: the instructions that initialize and update the config.
use sol_trade_router_sdk.Base.{ℕ, Bool, true, false, Option, none, some, List, [], ◌∷◌, ◌++◌}
use sol_trade_router_sdk.Base.Bytes.{Bytes}
use sol_trade_router_sdk.Base.Words.{to_le_bytes}
use sol_trade_router_sdk.Sdk.Keys.{
  AccountMeta, BuiltInstruction, Derive, new, new_readonly, config_pda,
}
use sol_trade_router_sdk.Sdk.Constants
pub mod Decode

abbrev pub sdk_tag_initialize : ℕ
sdk_tag_initialize = 0

abbrev pub sdk_tag_update_config : ℕ
sdk_tag_update_config = 1

unfoldable pub initialize_config : Derive → Bytes → Bytes → Bytes → ℕ → BuiltInstruction
initialize_config derive program_id authority fee_recipient fee_bps = record {
  program_id = program_id;
  accounts =
      new authority true
      ∷ new (config_pda derive program_id).0 false
      ∷ new_readonly fee_recipient false
      ∷ new_readonly Constants.system_program false
      ∷ [];
  payload = sdk_tag_initialize ∷ (to_le_bytes 2 fee_bps ++ ((config_pda derive program_id).1 ∷ []));
}

-- `u8::from(bool)`
unfoldable pub byte_of : Bool → ℕ
byte_of true = 1
byte_of false = 0

unfoldable pub has_recipient : Option Bytes → Bool
has_recipient none = false
has_recipient (some r) = true

unfoldable pub recipient_metas : Option Bytes → List AccountMeta
recipient_metas none = []
recipient_metas (some r) = new_readonly r false ∷ []

unfoldable pub update_config_instruction :
    Derive → Bytes → Bytes → ℕ → Bool → Option Bytes → BuiltInstruction
update_config_instruction derive program_id authority fee_bps paused new_fee_recipient = record {
  program_id = program_id;
  accounts =
      new_readonly authority true
      ∷ new (config_pda derive program_id).0 false
      ∷ recipient_metas new_fee_recipient;
  payload =
      sdk_tag_update_config
      ∷ (to_le_bytes 2 fee_bps
          ++ (byte_of paused ∷ byte_of (has_recipient new_fee_recipient) ∷ []));
}
