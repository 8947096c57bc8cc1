-- ===== src/Program/Route/Input.antt =====
-- route.rs, `process_inner`: the header of the instruction data, the split of the accounts, the
-- checks of the signer and the config, and the balance of the fee source before anything is spent.
-- `dynamic_intermediates` is 0, 1 or 2.
use sol_trade_router_sdk.Base.{
  ℕ, ◌+◌, ◌*◌, Bool, true, false, not, ◌&&◌, ◌||◌, bit_and, Option, none, some, List, [], ◌∷◌,
  length, get_elem?, ltb, leb, ◌==◌, if◌then◌else◌,
}
use sol_trade_router_sdk.Base.Bytes.{Bytes, bytes_eq, get_range}
use sol_trade_router_sdk.Program.Error.{
  Result, ok, fail, RouterError, missing_required_signature, from_router, reject_if, ok_or, index,
  ◌>>=◌, ◌>>◌,
}
use sol_trade_router_sdk.Program.Ledger.{AccountView, Ledger, Runtime, owner, lamports}
use sol_trade_router_sdk.Program.State.{
  RouterConfig, config_seed, read, is_token_program, token_owner, token_amount,
}
use sol_trade_router_sdk.Program.Route.Checks.{read_u64}

abbrev pub max_legs : ℕ
max_legs = 4

abbrev pub max_leg_accounts : ℕ
max_leg_accounts = 64

abbrev pub route_header_len : ℕ
route_header_len = 50

abbrev pub is_dynamic : ℕ → Bool
is_dynamic n = not (n == 0)

abbrev pub is_three_hop : ℕ → Bool
is_three_hop n = n == 2

pub record Header : Type 0 where
  pub amount_in : ℕ
  pub min_amount_out : ℕ
  pub num_legs : ℕ
  pub expected_output_mint : Bytes
  pub intermediate_min_out : ℕ
  pub second_intermediate_min_out : ℕ
  pub exact_out : Bool
  pub fee_asset : ℕ

unfoldable pub parse_header : Bytes → ℕ → Result Header
parse_header d n = do
  reject_if (ltb (length d) (route_header_len + 8 * n))
      (from_router RouterError.invalid_instruction_data)
  amount_in ← read_u64 d 0
  min_amount_out ← read_u64 d 8
  fee_asset ← index (get_elem? d 16)
  num_legs ← index (get_elem? d 17)
  expected_output_mint ← index (get_range d 18 route_header_len)
  intermediate_min_out ← (if is_dynamic n then read_u64 d route_header_len else ok 0)
  second_intermediate_min_out ← (if is_three_hop n then read_u64 d (route_header_len + 8) else ok 0)
  reject_if (amount_in == 0) (from_router RouterError.invalid_instruction_data)
  reject_if (not (leb 1 num_legs && leb num_legs max_legs)) (from_router RouterError.too_many_legs)
  reject_if
      (is_dynamic n
        && (not (num_legs == n + 1)
            || not (fee_asset == 1)
            || intermediate_min_out == 0
            || (is_three_hop n && second_intermediate_min_out == 0)
            || min_amount_out == 0))
      (from_router RouterError.invalid_instruction_data)
  ok (record {
    amount_in = amount_in;
    min_amount_out = min_amount_out;
    num_legs = num_legs;
    expected_output_mint = expected_output_mint;
    intermediate_min_out = intermediate_min_out;
    second_intermediate_min_out = second_intermediate_min_out;
    exact_out = not (bit_and fee_asset 0x80 == 0);
    fee_asset = bit_and fee_asset 0x01;
  })

pub record Accounts : Type 0 where
  pub user : AccountView
  pub config : AccountView
  pub fee_destination : AccountView
  pub fee_source : AccountView
  pub user_output : AccountView
  pub fee_program : AccountView
  pub intermediate : Option AccountView
  pub second_intermediate : Option AccountView
  pub remaining : List AccountView

-- `split_first_mut().ok_or(InsufficientAccounts)`
unfoldable pub split_first : List AccountView → Result (AccountView × List AccountView)
split_first [] = fail RouterError.insufficient_accounts
split_first (a ∷ rest) = ok (a, rest)

-- `if wanted { Some(split_first) } else { None }`
unfoldable pub split_first_if :
    Bool → List AccountView → Result (Option AccountView × List AccountView)
split_first_if true accounts = do (a, rest) ← split_first accounts; ok (some a, rest)
split_first_if false accounts = ok (none, accounts)

unfoldable pub split_accounts : List AccountView → ℕ → Result Accounts
split_accounts accounts n = do
  (user, rest1) ← split_first accounts
  (config, rest2) ← split_first rest1
  (fee_destination, rest3) ← split_first rest2
  (fee_source, rest4) ← split_first rest3
  (user_output, rest5) ← split_first rest4
  (fee_program, rest6) ← split_first rest5
  (intermediate, rest7) ← split_first_if (is_dynamic n) rest6
  (second_intermediate, remaining) ← split_first_if (is_three_hop n) rest7
  ok (record {
    user = user;
    config = config;
    fee_destination = fee_destination;
    fee_source = fee_source;
    user_output = user_output;
    fee_program = fee_program;
    intermediate = intermediate;
    second_intermediate = second_intermediate;
    remaining = remaining;
  })

-- The signature, and the config: owned by this program, at the address that its own bump gives, and
-- not paused.
unfoldable pub check_config :
    Runtime → Bytes → AccountView → AccountView → Ledger → Result RouterConfig
check_config rt program_id user config l = do
  reject_if (not user.is_signer) missing_required_signature
  reject_if (not (bytes_eq (owner l config) program_id)) (from_router RouterError.invalid_config)
  cfg ← read l config
  expected ←
      ok_or (rt.create_program_address (config_seed ∷ (cfg.bump ∷ []) ∷ []) program_id)
        (from_router RouterError.invalid_config)
  reject_if (not (bytes_eq config.address expected)) (from_router RouterError.invalid_config)
  reject_if (not (cfg.paused == 0)) (from_router RouterError.paused)
  ok cfg

-- `fee_source` in the asset that the fee is taken in
unfoldable pub source_balance : Ledger → AccountView → ℕ → Result ℕ
source_balance l fee_source fee_asset =
    if fee_asset == 0
    then ok (lamports l fee_source)
    else if fee_asset == 1
    then token_amount l fee_source
    else fail RouterError.invalid_fee_asset

unfoldable pub check_source : Ledger → AccountView → AccountView → ℕ → Result ℕ
check_source l user fee_source fee_asset =
    if fee_asset == 0
    then (do
      reject_if (not (bytes_eq fee_source.address user.address))
          (from_router RouterError.invalid_fee_asset)
      ok (lamports l fee_source))
    else if fee_asset == 1
    then (do
      reject_if (not (is_token_program (owner l fee_source)))
          (from_router RouterError.invalid_fee_asset)
      holder ← token_owner l fee_source
      reject_if (not (bytes_eq holder user.address)) (from_router RouterError.invalid_fee_asset)
      token_amount l fee_source)
    else fail RouterError.invalid_fee_asset
