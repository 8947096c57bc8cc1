-- ===== src/Tests/World.antt =====
-- A concrete runtime and ledger for runs of the on-chain program. The runtime's calls set the balances
-- of four token accounts: the fee source, the fee destination, the output and an intermediate account.
use sol_trade_router_sdk.Base.{ℕ, Bool, some, [], ◌∷◌, ◌++◌, replicate, if◌then◌else◌}
use sol_trade_router_sdk.Base.Bytes.{Bytes, bytes_eq, zeros}
use sol_trade_router_sdk.Base.Words.{to_le_bytes}
use sol_trade_router_sdk.Program.Ledger.{Account, AccountView, Ledger, Runtime, done}
use sol_trade_router_sdk.Program.State.{config_discriminator, token_program_id, system_program_id}

abbrev pub key : ℕ → Bytes
key n = replicate 32 n

abbrev pub user : Bytes
user = key 1

abbrev pub program_id : Bytes
program_id = key 3

abbrev pub token_data : Bytes → Bytes → ℕ → Bytes
unfolding to_le_bytes
token_data mint holder amount = mint ++ (holder ++ to_le_bytes 8 amount)

abbrev pub token_account : Bytes → Bytes → ℕ → Account
unfolding to_le_bytes
token_account mint holder amount = record {
  owner = token_program_id;
  lamports = 5;
  contents = token_data mint holder amount;
}

-- fee rate 100 bps, bump 255, not paused; authority and fee recipient are `key 2` and `key 12`
abbrev pub config_data : Bytes
config_data = config_discriminator ++ (key 2 ++ (key 12 ++ (100 ∷ 0 ∷ 255 ∷ 0 ∷ zeros 4)))

abbrev pub config_account : Account
config_account = record { owner = program_id; lamports = 9; contents = config_data }

abbrev pub wallet : Account
wallet = record { owner = system_program_id; lamports = 1000000; contents = [] }

-- Mints: source `key 21`, output `key 22`, intermediate `key 23`.
abbrev pub world : ℕ → ℕ → ℕ → ℕ → Ledger
unfolding bytes_eq to_le_bytes
world source destination output intermediate a =
    if bytes_eq a (key 11)
    then config_account
    else if bytes_eq a (key 4)
    then token_account (key 21) (key 12) destination
    else if bytes_eq a (key 5)
    then token_account (key 21) user source
    else if bytes_eq a (key 6)
    then token_account (key 22) user output
    else if bytes_eq a (key 7)
    then token_account (key 23) user intermediate
    else wallet

abbrev pub view : Bytes → Bool → Bool → AccountView
view address signer writable = record {
  address = address;
  is_signer = signer;
  is_writable = writable;
}

-- The fee is 10 of 1000. A leg of the program `key 9` turns the rest into 50 intermediate tokens; a leg
-- of any other program ends with 60 new output tokens and the intermediate account as it was.
abbrev pub runtime : Runtime
unfolding bytes_eq to_le_bytes
runtime = record {
  find_program_address = λ _ _. (key 11, 255);
  create_program_address = λ _ _. some (key 11);
  minimum_balance = λ _. done 890880;
  system_transfer = λ _ _ _ l. done l;
  create_account = λ _ _ _ _ _ l. done l;
  token_transfer = λ _ _ _ _ _ _. done (world 4990 10 100 7);
  invoke = λ ix _ _.
      done (if bytes_eq ix.program_id (key 9) then world 4000 10 100 57 else world 4000 10 160 7);
}
