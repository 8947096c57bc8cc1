-- ===== src/Sdk/PumpFunV3.antt =====
-- crates/sdk/src/pumpfun_v3.rs: the checks of a Pump V3 pool and its quotes. `none` is an error.
-- `find_program_address` is the argument `derive`. Reserves and amounts are u64 and rates below 10,000,
-- so the plain u128 products fit, but for the fee on a curve amount, which is written with its wrap.
pub mod Legs
pub mod Bounds
use sol_trade_router_sdk.Base.{
  ℕ, ◌+◌, ◌-◌, ◌*◌, ◌/◌, ◌%◌, ◌^◌, min, Bool, true, false, not, ◌&&◌, ◌||◌, Option, none, some, [],
  ◌∷◌, any, ltb, leb, ◌==◌, if◌then◌else◌,
}
use sol_trade_router_sdk.Base.Bytes.{Bytes, bytes_eq}
use sol_trade_router_sdk.Base.Words.{max_u64, checked_sub, checked_to, div_ceil}
use sol_trade_router_sdk.Sdk.Fallible.{◌>>=◌, ◌>>◌, bail_if}
use sol_trade_router_sdk.Sdk.Keys.{Derive}
use sol_trade_router_sdk.Sdk.Constants
use sol_trade_router_sdk.Sdk.Ata.{ata}
use sol_trade_router_sdk.Sdk.Legs.Checks.{default_key}
use sol_trade_router_sdk.Sdk.Quote.PumpFun.{PumpFunPool, pumpfun_sell_sol_out}

pub record PumpFunV3Pool : Type 0 where
  pub curve : PumpFunPool
  pub complete : Bool
  pub supports_graduation : Bool
  pub real_quote_reserves : ℕ
  pub curve_base_token_balance : ℕ
  pub pool_migration_fee : ℕ
  pub mayhem_mode : Bool
  pub depth : ℕ
  pub needs_curve_extension : Bool
  pub needs_volume_initialization : Bool

-- The first seed is b"bonding-curve".
unfoldable pub bonding_curve_of : Derive → Bytes → Bytes
bonding_curve_of derive mint =
    (derive
      ((98 ∷ 111 ∷ 110 ∷ 100 ∷ 105 ∷ 110 ∷ 103 ∷ 45 ∷ 99 ∷ 117 ∷ 114 ∷ 118 ∷ 101 ∷ []) ∷ mint ∷ [])
      Constants.pumpfun_program).0

abbrev unsupported_program : Bytes → Bool
unsupported_program program =
    not (bytes_eq program Constants.token_program)
    && not (bytes_eq program Constants.token_2022_program)

unfoldable pub validate : Derive → PumpFunV3Pool → Option (Unit {0})
validate derive pool = do
  bail_if pool.complete
  bail_if pool.curve.is_cashback_coin
  bail_if (not pool.curve.fee_rates_known)
  bail_if (
      any unsupported_program (pool.curve.mint_token_program ∷ pool.curve.quote_token_program ∷ []))
  bail_if (
      bytes_eq pool.curve.quote_mint Constants.wsol_mint
      && not (bytes_eq pool.curve.quote_token_program Constants.token_program))
  bail_if (bytes_eq pool.curve.mint default_key || bytes_eq pool.curve.quote_mint pool.curve.mint)
  bail_if (
      not (bytes_eq pool.curve.bonding_curve (bonding_curve_of derive pool.curve.mint))
      || not (
          bytes_eq pool.curve.associated_bonding_curve (
            ata derive (bonding_curve_of derive pool.curve.mint) pool.curve.mint
              pool.curve.mint_token_program)))
  bail_if (bytes_eq pool.curve.buyback_fee_recipient default_key)

unfoldable pub rates : Derive → PumpFunV3Pool → Option (ℕ × ℕ)
rates derive pool =
    let protocol = pool.curve.protocol_fee_bps in
    let creator = if pool.curve.has_creator then pool.curve.creator_fee_bps else 0 in
    validate derive pool >> bail_if (leb 10000 (protocol + creator)) >> some (protocol, creator)

-- u128 without overflow checks
abbrev pub wrap_u128 : ℕ → ℕ
wrap_u128 n = n % 2 ^ 128

unfoldable pub fees : ℕ → ℕ → ℕ → ℕ
fees amount protocol creator =
    div_ceil (wrap_u128 (amount * protocol)) 10000 + div_ceil (wrap_u128 (amount * creator)) 10000

unfoldable pub net_quote : ℕ → ℕ → ℕ → Option ℕ
net_quote budget protocol creator =
    let net = budget * 10000 / (10000 + protocol + creator) in
    checked_sub net (net + fees net protocol creator - budget)

unfoldable pub positive_u64 : ℕ → Option ℕ
positive_u64 value = checked_to max_u64 value >>= λ n. bail_if (n == 0) >> some n

-- `.filter(|v| *v > 0).ok_or_else(…)`
unfoldable pub positive : Option ℕ → Option ℕ
positive value = value >>= λ n. bail_if (n == 0) >> some n

-- `checked_sub(migration fee)` for a pool of SOL, the amount itself for others
unfoldable pub pool_to_be : PumpFunV3Pool → ℕ → Option ℕ
pool_to_be pool raised =
    if bytes_eq pool.curve.quote_mint Constants.wsol_mint
    then checked_sub raised pool.pool_migration_fee
    else some raised

-- What is bought from the pool to be, beyond what is left on the curve.
unfoldable pub graduation_leg : PumpFunV3Pool → ℕ → ℕ → ℕ → ℕ → Option ℕ
graduation_leg pool protocol creator curve_net left = do
  pool_base ← positive (checked_sub pool.curve_base_token_balance pool.curve.real_token_reserves)
  raised ← checked_to max_u64 (pool.real_quote_reserves + curve_net)
  pool_quote ← positive (pool_to_be pool raised)
  net ← net_quote left protocol creator
  leg_in ← checked_sub net 1
  positive_u64 (pool.curve.real_token_reserves + leg_in * pool_base / (pool_quote + leg_in))

-- The quote where the budget buys more than is left on the curve.
unfoldable pub buy_through_graduation : PumpFunV3Pool → ℕ → ℕ → ℕ → Option ℕ
buy_through_graduation pool protocol creator budget = do
  bail_if (not pool.supports_graduation)
  bail_if pool.mayhem_mode
  after ← positive (checked_sub pool.curve.virtual_token_reserves pool.curve.real_token_reserves)
  let curve_net = pool.curve.real_token_reserves * pool.curve.virtual_sol_reserves / after + 1
  let cost = wrap_u128 (curve_net + fees curve_net protocol creator)
  let left = budget - cost
  let through = graduation_leg pool protocol creator curve_net left
  if ltb (left * 10000 / (10000 + protocol + creator)) 2
      then positive_u64 pool.curve.real_token_reserves
      else through

unfoldable pub buy_quote : Derive → PumpFunV3Pool → ℕ → Option ℕ
buy_quote derive pool budget = do
  (protocol, creator) ← rates derive pool
  net ← net_quote budget protocol creator
  bail_if (pool.curve.virtual_token_reserves == 0 || pool.curve.virtual_sol_reserves == 0)
  input ← positive (checked_sub net 1)
  let tokens = input * pool.curve.virtual_token_reserves / (pool.curve.virtual_sol_reserves + input)
  let through = buy_through_graduation pool protocol creator budget
  if leb tokens pool.curve.real_token_reserves then positive_u64 tokens else through

-- The cost of what lies beyond the curve, on top of the curve's total.
unfoldable pub cost_beyond : PumpFunV3Pool → ℕ → ℕ → ℕ → ℕ → ℕ → Option ℕ
cost_beyond pool protocol creator amount net curve_total = do
  bail_if (not pool.supports_graduation)
  let past = amount - pool.curve.real_token_reserves
  base ← checked_sub pool.curve_base_token_balance pool.curve.real_token_reserves
  bail_if (leb base past)
  quote ← pool_to_be pool (pool.real_quote_reserves + net)
  bail_if (quote == 0 || ltb max_u64 quote)
  let leg_net = div_ceil (quote * past) (base - past)
  positive_u64 (wrap_u128 (wrap_u128 (curve_total + leg_net) + fees leg_net protocol creator))

unfoldable pub buy_quote_for_tokens : Derive → PumpFunV3Pool → ℕ → Option ℕ
buy_quote_for_tokens derive pool amount = do
  (protocol, creator) ← rates derive pool
  bail_if (amount == 0)
  bail_if (pool.mayhem_mode && ltb pool.curve.real_token_reserves amount)
  bail_if (pool.curve.virtual_sol_reserves == 0)
  let curve_tokens = min amount pool.curve.real_token_reserves
  after ← positive (checked_sub pool.curve.virtual_token_reserves curve_tokens)
  let net = curve_tokens * pool.curve.virtual_sol_reserves / after + 1
  let curve_total = wrap_u128 (net + fees net protocol creator)
  let beyond = cost_beyond pool protocol creator amount net curve_total
  if leb amount pool.curve.real_token_reserves then positive_u64 curve_total else beyond

unfoldable pub sell_quote : Derive → PumpFunV3Pool → ℕ → Option ℕ
sell_quote derive pool amount = validate derive pool >> pumpfun_sell_sol_out pool.curve amount
