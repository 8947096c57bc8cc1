-- ===== src/Sdk/Admin/Decode.antt =====
-- crates/sdk/src/admin.rs against programs/sol-trade-router: the program on the instructions of the admin.
use sol_trade_router_sdk.Base.{
  ℕ, ◌≤◌, ◌<◌, ◌^◌, ◌≡◌, refl, sym, ap, Bool, true, false, Option, some, none, [], ◌∷◌, ◌++◌, map,
  ltb, ◌==◌, le→ltb, arith,
}
use sol_trade_router_sdk.Base.Bytes.{Bytes, bytes_eq_refl, eq→bytes_eq}
use sol_trade_router_sdk.Base.Words.{to_le_bytes, from_le_bytes, from_le_bytes-to_le_bytes}
use sol_trade_router_sdk.Program.Error.{ok, index, reject_if, ok_or, ◌>>=◌}
use sol_trade_router_sdk.Program.Ledger.{AccountView, Ledger, Runtime, owner}
use sol_trade_router_sdk.Program.State
use sol_trade_router_sdk.Program.State.{
  RouterConfig, read, update, write_new, max_fee_bps, config_len, config_seed,
}
use sol_trade_router_sdk.Program.Admin.{fee_bps_of, update_config, new_recipient}
use sol_trade_router_sdk.Program.Dispatch.{process_instruction, dispatch}
use sol_trade_router_sdk.Program.Route.Input.{split_first}
use sol_trade_router_sdk.Sdk.Keys
use sol_trade_router_sdk.Sdk.Keys.{AccountMeta}
use sol_trade_router_sdk.Sdk.Admin.{
  update_config_instruction, recipient_metas, has_recipient, byte_of,
}

-- The view of an account that the runtime hands to the program for a meta.
abbrev pub meta_view : AccountMeta → AccountView
meta_view meta = record {
  address = meta.pubkey;
  is_signer = meta.is_signer;
  is_writable = meta.is_writable;
}

fee_bps_of_encoded :
    (fee_bps : ℕ) (rest : Bytes)
    → fee_bps ≤ max_fee_bps
    → fee_bps_of (to_le_bytes 2 fee_bps ++ rest) ≡ ok fee_bps
unfolding fee_bps_of to_le_bytes index ◌>>=◌
fee_bps_of_encoded fee_bps rest h = ap ok (value fee_bps (omega arith))
  where
    value : (n : ℕ) → n < 256 ^ 2 → from_le_bytes (to_le_bytes 2 n) ≡ n
    value n small = from_le_bytes-to_le_bytes 2 n small

-- The config account, as the instructions name it.
abbrev pub config_view : Runtime → Bytes → AccountView
config_view rt program_id =
    meta_view (Keys.new (Keys.config_pda rt.find_program_address program_id).0 false)

at_most_one : (paused : Bool) → ltb 1 (byte_of paused) ≡ false
unfolding byte_of
at_most_one true = refl
at_most_one false = refl

byte_read : (paused : Bool) → (byte_of paused == 1) ≡ paused
unfolding byte_of
byte_read true = refl
byte_read false = refl

recipient_read :
    (recipient : Option Bytes)
    → new_recipient (byte_of (has_recipient recipient)) (map meta_view (recipient_metas recipient))
      ≡ ok recipient
unfolding new_recipient byte_of has_recipient recipient_metas ok_or ◌>>=◌
recipient_read none = refl
recipient_read (some r) = refl

-- Handed the accounts and the data of the SDK's update instruction, where the config belongs to
-- the program, is read with the given authority, and the rate is at most 1,000 bps, the program
-- updates the config with exactly the given recipient or none, rate and pause.
pub update_config_instruction_runs :
    (rt : Runtime) (program_id authority : Bytes) (fee_bps : ℕ) (paused : Bool)
    (recipient : Option Bytes) (l : Ledger) (cfg : RouterConfig)
    → fee_bps ≤ max_fee_bps
    → owner l (config_view rt program_id) ≡ program_id
    → read l (config_view rt program_id) ≡ ok cfg
    → cfg.authority ≡ authority
    → process_instruction rt program_id
        (map meta_view
          (update_config_instruction rt.find_program_address program_id authority fee_bps paused
            recipient).accounts)
        (update_config_instruction rt.find_program_address program_id authority fee_bps paused
          recipient).payload
        l
      ≡ update (config_view rt program_id) recipient (some fee_bps) (some paused) l
unfolding process_instruction dispatch update_config_instruction update_config to_le_bytes
    split_first index reject_if ◌>>=◌ Keys.config_pda State.config_pda
update_config_instruction_runs rt program_id authority fee_bps paused recipient l cfg small owned
      found same =
    rw
      (
        fee_bps_of_encoded fee_bps (byte_of paused ∷ byte_of (has_recipient recipient) ∷ []) small,
        le→ltb max_fee_bps fee_bps small,
        at_most_one paused,
        bytes_eq_refl (config_view rt program_id).address,
        eq→bytes_eq _ _ owned,
        found,
        eq→bytes_eq _ _ (sym same),
        recipient_read recipient,
        byte_read paused,
      )
      refl
