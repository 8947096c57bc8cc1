-- ===== src/Tests/Admin.antt =====
-- The admin's update instruction, run by the program.
use sol_trade_router_sdk.Base.{◌≡◌, refl, true, some, map, arith}
use sol_trade_router_sdk.Base.Bytes.{bytes_eq, zeros}
use sol_trade_router_sdk.Base.Words.{to_le_bytes, from_le_bytes}
use sol_trade_router_sdk.Program.Error.{ok, reject_if, ◌>>=◌}
use sol_trade_router_sdk.Program.Dispatch.{process_instruction}
use sol_trade_router_sdk.Program.Ledger.{Ledger, owner}
use sol_trade_router_sdk.Program.State.{
  RouterConfig, read, update, at_start, decode, is_initialized, config_discriminator,
}
use sol_trade_router_sdk.Sdk.Keys.{config_pda}
use sol_trade_router_sdk.Sdk.Admin.{update_config_instruction}
use sol_trade_router_sdk.Sdk.Admin.Decode.{meta_view, config_view, update_config_instruction_runs}
use sol_trade_router_sdk.Tests.World.{key, program_id, world, runtime}

abbrev ledger : Ledger
ledger = world 5000 0 100 7

abbrev stored : RouterConfig
stored = record {
  discriminator = config_discriminator;
  authority = key 2;
  fee_recipient = key 12;
  fee_bps = 100;
  bump = 255;
  paused = 0;
  padding = zeros 4;
}

config_owned : owner ledger (config_view runtime program_id) ≡ program_id
unfolding config_pda bytes_eq to_le_bytes
config_owned = refl

config_found : read ledger (config_view runtime program_id) ≡ ok stored
unfolding config_pda bytes_eq to_le_bytes from_le_bytes read at_start decode is_initialized
    reject_if ◌>>=◌
config_found = refl

update_config_instruction_runs_example :
    process_instruction runtime program_id
      (map meta_view
        (update_config_instruction runtime.find_program_address program_id
          (key 2)
          250
          true
          (some (key 13))).accounts)
      (update_config_instruction runtime.find_program_address program_id
        (key 2)
        250
        true
        (some (key 13))).payload
      ledger
    ≡ update (config_view runtime program_id) (some (key 13)) (some 250) (some true) ledger
update_config_instruction_runs_example =
    update_config_instruction_runs runtime program_id (key 2) 250 true (some (key 13)) ledger stored
      (omega arith) config_owned config_found refl
