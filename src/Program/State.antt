-- ===== src/Program/State.antt =====
-- programs/sol-trade-router/src/state.rs: the config account and the readers of token accounts.
-- `RouterConfig` is `repr(C)`: 8 + 32 + 32 + 2 + 1 + 1 + 4 = 80 bytes with no padding between fields.
pub mod Fields
pub mod RoundTrip
pub mod Update
use sol_trade_router_sdk.Base.{
  ℕ, Bool, true, false, not, ◌||◌, Option, none, some, [], ◌∷◌, ◌++◌, length, ltb, leb,
  if◌then◌else◌,
}
use sol_trade_router_sdk.Base.Bytes.{Bytes, bytes_eq, slice, get_range, write_at, zeros}
use sol_trade_router_sdk.Base.Words.{to_le_bytes, from_le_bytes}
use sol_trade_router_sdk.Program.Error.{
  Result, ok, panic, RouterError, invalid_account_data, from_router, reject_if, index, ◌>>=◌, ◌>>◌,
}
use sol_trade_router_sdk.Program.Ledger.{AccountView, Ledger, Runtime, contents, put}

-- b"config"
abbrev pub config_seed : Bytes
config_seed = 99 ∷ 111 ∷ 110 ∷ 102 ∷ 105 ∷ 103 ∷ []

abbrev pub max_fee_bps : ℕ
max_fee_bps = 1000

-- b"ROUTCFG1"
abbrev pub config_discriminator : Bytes
config_discriminator = 82 ∷ 79 ∷ 85 ∷ 84 ∷ 67 ∷ 70 ∷ 71 ∷ 49 ∷ []

abbrev pub system_program_id : Bytes
system_program_id = zeros 32

abbrev pub token_program_id : Bytes
token_program_id =
    6 ∷ 221 ∷ 246 ∷ 225 ∷ 215 ∷ 101 ∷ 161 ∷ 147 ∷ 217 ∷ 203 ∷ 225 ∷ 70 ∷ 206 ∷ 235 ∷ 121 ∷ 172 ∷ 28
    ∷ 180 ∷ 133 ∷ 237 ∷ 95 ∷ 91 ∷ 55 ∷ 145 ∷ 58 ∷ 140 ∷ 245 ∷ 133 ∷ 126 ∷ 255 ∷ 0 ∷ 169 ∷ []

abbrev pub token_2022_program_id : Bytes
token_2022_program_id =
    6 ∷ 221 ∷ 246 ∷ 225 ∷ 238 ∷ 117 ∷ 143 ∷ 222 ∷ 24 ∷ 66 ∷ 93 ∷ 188 ∷ 228 ∷ 108 ∷ 205 ∷ 218 ∷ 182
    ∷ 26 ∷ 252 ∷ 77 ∷ 131 ∷ 185 ∷ 13 ∷ 39 ∷ 254 ∷ 189 ∷ 249 ∷ 40 ∷ 216 ∷ 161 ∷ 139 ∷ 252 ∷ []

pub record RouterConfig : Type 0 where
  pub discriminator : Bytes
  pub authority : Bytes
  pub fee_recipient : Bytes
  pub fee_bps : ℕ
  pub bump : ℕ
  pub paused : ℕ
  pub padding : Bytes

abbrev pub config_len : ℕ
config_len = 80

-- The bytes that the `repr(C)` record occupies, and the record at the start of a buffer.
unfoldable pub encode : RouterConfig → Bytes
encode c =
    c.discriminator
    ++ (c.authority
        ++ (c.fee_recipient
            ++ (to_le_bytes 2 c.fee_bps
                ++ (to_le_bytes 1 c.bump ++ (to_le_bytes 1 c.paused ++ c.padding)))))

unfoldable pub decode : Bytes → RouterConfig
decode d = record {
  discriminator = slice d 0 8;
  authority = slice d 8 32;
  fee_recipient = slice d 40 32;
  fee_bps = from_le_bytes (slice d 72 2);
  bump = from_le_bytes (slice d 74 1);
  paused = from_le_bytes (slice d 75 1);
  padding = slice d 76 4;
}

unfoldable pub is_initialized : RouterConfig → Bool
is_initialized c = bytes_eq c.discriminator config_discriminator

-- `*(data.as_ptr() as *const RouterConfig)`: a read of bytes that the buffer does not have is
-- undefined behaviour, and counts as a panic.
unfoldable pub at_start : Bytes → Result RouterConfig
at_start d = if leb config_len (length d) then ok (decode d) else panic

unfoldable pub read : Ledger → AccountView → Result RouterConfig
read l account = do
  let contents = contents l account
  reject_if (ltb (length contents) config_len) (from_router RouterError.invalid_config)
  cfg ← at_start contents
  reject_if (not (is_initialized cfg)) (from_router RouterError.not_initialized)
  ok cfg

-- The account with the record written over the start of its data.
unfoldable pub with_config : Ledger → AccountView → RouterConfig → Ledger
with_config l account cfg =
    put l account.address
      (record (l account.address) { contents = write_at (contents l account) 0 (encode cfg) })

unfoldable pub write_new : AccountView → Bytes → Bytes → ℕ → ℕ → Ledger → Result Ledger
write_new account authority fee_recipient fee_bps bump l = do
  reject_if (ltb max_fee_bps fee_bps) (from_router RouterError.invalid_fee_bps)
  let contents = contents l account
  reject_if (ltb (length contents) config_len) (from_router RouterError.invalid_config)
  existing ← at_start contents
  reject_if (is_initialized existing) (from_router RouterError.already_initialized)
  ok (
      with_config l account (record {
        discriminator = config_discriminator;
        authority = authority;
        fee_recipient = fee_recipient;
        fee_bps = fee_bps;
        bump = bump;
        paused = 0;
        padding = zeros 4;
      }))

-- `u8::from(b)`
abbrev pub from_bool : Bool → ℕ
from_bool true = 1
from_bool false = 0

abbrev pub set_recipient : Option Bytes → RouterConfig → RouterConfig
set_recipient none c = c
set_recipient (some recipient) c = record c { fee_recipient = recipient }

abbrev pub set_fee_bps : Option ℕ → RouterConfig → RouterConfig
set_fee_bps none c = c
set_fee_bps (some bps) c = record c { fee_bps = bps }

abbrev pub set_paused : Option Bool → RouterConfig → RouterConfig
set_paused none c = c
set_paused (some p) c = record c { paused = from_bool p }

abbrev pub over_max : Option ℕ → Bool
over_max none = false
over_max (some bps) = ltb max_fee_bps bps

unfoldable pub update : AccountView → Option Bytes → Option ℕ → Option Bool → Ledger → Result Ledger
update account fee_recipient fee_bps paused l = do
  reject_if (over_max fee_bps) (from_router RouterError.invalid_fee_bps)
  let contents = contents l account
  reject_if (ltb (length contents) config_len) (from_router RouterError.invalid_config)
  cfg ← at_start contents
  reject_if (not (is_initialized cfg)) (from_router RouterError.not_initialized)
  ok (
      with_config l account
        (set_paused paused (set_fee_bps fee_bps (set_recipient fee_recipient cfg))))

unfoldable pub config_pda : Runtime → Bytes → Bytes × ℕ
config_pda rt program_id = rt.find_program_address (config_seed ∷ []) program_id

unfoldable pub is_token_program : Bytes → Bool
is_token_program owner = bytes_eq owner token_program_id || bytes_eq owner token_2022_program_id

unfoldable pub token_mint : Ledger → AccountView → Result Bytes
token_mint l account = do
  let contents = contents l account
  reject_if (ltb (length contents) 32) invalid_account_data
  index (get_range contents 0 32)

unfoldable pub token_owner : Ledger → AccountView → Result Bytes
token_owner l account = do
  let contents = contents l account
  reject_if (ltb (length contents) 64) invalid_account_data
  index (get_range contents 32 64)

unfoldable pub token_amount : Ledger → AccountView → Result ℕ
token_amount l account = do
  let contents = contents l account
  reject_if (ltb (length contents) 72) invalid_account_data
  amount ← index (get_range contents 64 72)
  ok (from_le_bytes amount)
