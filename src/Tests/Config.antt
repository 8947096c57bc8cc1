-- ===== src/Tests/Config.antt =====
-- The config account and the fee payment, at concrete inputs.
use sol_trade_router_sdk.Base.{
  ℕ, ◌≤◌, ◌≡◌, ◌⊎◌, refl, Bool, true, false, none, some, [], ◌∷◌, ◌++◌, if◌then◌else◌, arith, ltb,
  ltb→lt, ◌&&◌, and_split,
}
use sol_trade_router_sdk.Base.Bytes.{Bytes, bytes_eq, zeros}
use sol_trade_router_sdk.Base.Words.{to_le_bytes, from_le_bytes}
use sol_trade_router_sdk.Program.Error.{
  ok, fail, RouterError, ◌>>=◌, reject_if, ok_or, index, and_then, or_else,
}
use sol_trade_router_sdk.Program.Ledger.{AccountView, Ledger, Runtime, done, call, contents}
use sol_trade_router_sdk.Program.State.{
  RouterConfig, config_discriminator, max_fee_bps, at_start, decode, is_initialized, read,
  with_config, write_new, update, is_token_program, token_mint, token_owner, token_program_id,
  token_2022_program_id,
}
use sol_trade_router_sdk.Program.State.RoundTrip.{write_new-read}
use sol_trade_router_sdk.Program.State.Update.{AreBytes, UpdateRead, update-UpdateRead}
use sol_trade_router_sdk.Program.Route.Input.{Accounts}
use sol_trade_router_sdk.Program.Route.Fee.{pay_fee, pay_token_fee, pay_checked, transfer_token_fee}
use sol_trade_router_sdk.Program.Route.FeeMove.{SolFee, TokenFee, pay_fee_moves}
use sol_trade_router_sdk.Tests.World.{
  key, user, program_id, world, view, runtime, wallet, token_account,
}

-- An account of 80 zero bytes at `key 50`, and the ledger with a new config in it.
abbrev fresh : Ledger
fresh a = record { owner = program_id; lamports = 9; contents = zeros 80 }

abbrev config_view : AccountView
config_view = view (key 50) false true

abbrev new_config : RouterConfig
new_config = record {
  discriminator = config_discriminator;
  authority = key 2;
  fee_recipient = key 12;
  fee_bps = 100;
  bump = 255;
  paused = 0;
  padding = zeros 4;
}

written :
    write_new config_view (key 2) (key 12) 100 255 fresh
    ≡ ok (with_config fresh config_view new_config)
unfolding write_new at_start is_initialized decode from_le_bytes bytes_eq reject_if ◌>>=◌
written = refl

write_new-read_example :
    (100 ≤ max_fee_bps)
    × (read (with_config fresh config_view new_config) config_view ≡ ok new_config)
    × ((other recipient : Bytes) (fee again : ℕ)
        → fee ≤ max_fee_bps
        → write_new config_view other recipient fee again (with_config fresh config_view new_config)
          ≡ fail RouterError.already_initialized)
write_new-read_example =
    write_new-read fresh (with_config fresh config_view new_config) config_view (key 2) (key 12) 100
      255 refl refl (omega arith) written

abbrev all_small : Bytes → Bool
all_small [] = true
all_small (b ∷ bs) = ltb b 256 && all_small bs

small-AreBytes : (d : Bytes) → all_small d ≡ true → AreBytes d
small-AreBytes [] h = tt
small-AreBytes (b ∷ bs) h =
    let (small, rest) = and_split (ltb b 256) (all_small bs) h in
    (ltb→lt b 256 small, small-AreBytes bs rest)

abbrev old_world : Ledger
old_world = world 5000 0 100 7

abbrev live_config : AccountView
live_config = view (key 11) false true

abbrev raised : RouterConfig
raised = record {
  discriminator = config_discriminator;
  authority = key 2;
  fee_recipient = key 13;
  fee_bps = 250;
  bump = 255;
  paused = 1;
  padding = zeros 4;
}

updated_run :
    update live_config (some (key 13)) (some 250) (some true) old_world
    ≡ ok (with_config old_world live_config raised)
unfolding update at_start is_initialized decode to_le_bytes from_le_bytes bytes_eq reject_if ◌>>=◌
updated_run = refl

config_bytes : AreBytes (contents old_world live_config)
unfolding bytes_eq to_le_bytes
config_bytes = small-AreBytes (contents old_world live_config) refl

update-UpdateRead_example :
    UpdateRead
      (some (key 13))
      250
      true
      live_config
      old_world
      (with_config old_world live_config raised)
update-UpdateRead_example =
    update-UpdateRead old_world (with_config old_world live_config raised) live_config
      (some (key 13)) 250 true config_bytes refl updated_run

abbrev accounts : Accounts
accounts = record {
  user = view user true true;
  config = live_config;
  fee_destination = view (key 4) false true;
  fee_source = view (key 5) false true;
  user_output = view (key 6) false true;
  fee_program = view token_program_id false false;
  intermediate = none;
  second_intermediate = none;
  remaining = [];
}

-- The fee source and its recipient's account under Token-2022, and their mint with six decimals.
abbrev extended : ℕ → ℕ → Ledger
unfolding bytes_eq to_le_bytes
extended source destination a =
    if bytes_eq a (key 4)
    then record (token_account (key 21) (key 12) destination) { owner = token_2022_program_id }
    else if bytes_eq a (key 5)
    then record (token_account (key 21) user source) { owner = token_2022_program_id }
    else if bytes_eq a (key 21)
    then record {
      owner = token_2022_program_id;
      lamports = 5;
      contents = zeros 44 ++ (6 ∷ 1 ∷ zeros 36);
    }
    else wallet

abbrev checked_runtime : Runtime
checked_runtime = record runtime { invoke = λ _ _ _. done (extended 4990 10) }

abbrev checked_accounts : Accounts
checked_accounts = record accounts {
  fee_program = view token_2022_program_id false false;
  remaining = view (key 20) false false ∷ view (key 21) false false ∷ [];
}

fee_paid :
    pay_fee checked_runtime new_config checked_accounts 1 10 (extended 5000 0)
    ≡ ok (extended 4990 10)
unfolding pay_fee pay_token_fee transfer_token_fee pay_checked is_token_program token_mint
    token_owner call ◌>>=◌ reject_if ok_or index or_else and_then bytes_eq to_le_bytes
fee_paid = refl

pay_fee_moves_example :
    (◌≡◌ {A = ℕ} 10 0 × (extended 4990 10 ≡ extended 5000 0))
    ⊎ (◌≡◌ {A = ℕ} 1 0
        × SolFee checked_runtime new_config checked_accounts 10
            (extended 5000 0)
            (extended 4990 10))
    ⊎ (◌≡◌ {A = ℕ} 1 1
        × TokenFee checked_runtime new_config checked_accounts 10
            (extended 5000 0)
            (extended 4990 10))
pay_fee_moves_example =
    pay_fee_moves checked_runtime new_config checked_accounts 10 (extended 5000 0)
      (extended 4990 10) 1 fee_paid
