-- ===== src/Sdk/PoolGuard.antt =====
-- crates/sdk/src/pool_guard.rs, with the markets of crates/sdk/src/market.rs. `none` is an error; the
-- derivations of solana_sdk are arguments. A set of keys is a list.
pub mod Strict
use sol_trade_router_sdk.Base.{
  ℕ, Bool, true, false, not, ◌&&◌, ◌||◌, Option, none, some, List, [], ◌∷◌, ◌++◌, any,
  if◌then◌else◌,
}
use sol_trade_router_sdk.Base.Bytes.{Bytes, bytes_eq, zeros}
use sol_trade_router_sdk.Sdk.Fallible.{◌>>=◌, ◌>>◌, bail_if}
use sol_trade_router_sdk.Sdk.Keys.{Derive}
use sol_trade_router_sdk.Sdk.Constants
use sol_trade_router_sdk.Sdk.Legs.Checks.{default_key}
use sol_trade_router_sdk.Sdk.Legs.PumpSwap.{TryDerive}
use sol_trade_router_sdk.Sdk.Quote.LaunchLab.{LaunchLabPool}
use sol_trade_router_sdk.Sdk.Quote.Cpmm.{CpmmPool}
use sol_trade_router_sdk.Sdk.Quote.PumpFun.{PumpFunPool}
use sol_trade_router_sdk.Sdk.Quote.PumpSwap.{PumpSwapPool}
use sol_trade_router_sdk.Sdk.Quote.RaydiumAmm.{RaydiumAmmV4Pool}
use sol_trade_router_sdk.Sdk.Quote.Snapshot.{
  MeteoraDammV2Pool, RaydiumClmmPool, WhirlpoolPool, MeteoraDlmmPool,
}

pub data Market : Type 0 where
  launch_lab_inner : LaunchLabPool → Market
  cpmm_outer : CpmmPool → Market
  pump_fun_inner : PumpFunPool → Market
  pump_swap_outer : PumpSwapPool → Market
  raydium_amm_v4 : RaydiumAmmV4Pool → Market
  meteora_damm_v2 : MeteoraDammV2Pool → Market
  raydium_clmm : RaydiumClmmPool → Market
  whirlpool : WhirlpoolPool → Market
  meteora_dlmm : MeteoraDlmmPool → Market

pub data BridgePool : Type 0 where
  cpmm : CpmmPool → BridgePool
  amm_v4 : RaydiumAmmV4Pool → BridgePool

pub record RoutedMarket : Type 0 where
  pub market : Market
  pub bridge : Option BridgePool

pub record PoolGuardPolicy : Type 0 where
  pub enabled : Bool
  pub stonk_platform_only : Bool
  pub trusted_pools : List Bytes
  pub require_trusted_for_amm : Bool

abbrev pub default_policy : PoolGuardPolicy
default_policy = record {
  enabled = true;
  stonk_platform_only = false;
  trusted_pools = [];
  require_trusted_for_amm = false;
}

abbrev pub disabled : PoolGuardPolicy
disabled = record {
  enabled = false;
  stonk_platform_only = false;
  trusted_pools = [];
  require_trusted_for_amm = false;
}

abbrev pub stonk_strict : PoolGuardPolicy
stonk_strict = record {
  enabled = true;
  stonk_platform_only = true;
  trusted_pools = [];
  require_trusted_for_amm = true;
}

unfoldable pub trust : PoolGuardPolicy → Bytes → PoolGuardPolicy
trust policy pool = record {
  enabled = policy.enabled;
  stonk_platform_only = policy.stonk_platform_only;
  trusted_pools = pool ∷ policy.trusted_pools;
  require_trusted_for_amm = policy.require_trusted_for_amm;
}

unfoldable pub with_trusted_pools : PoolGuardPolicy → List Bytes → PoolGuardPolicy
with_trusted_pools policy pools = record {
  enabled = policy.enabled;
  stonk_platform_only = policy.stonk_platform_only;
  trusted_pools = pools ++ policy.trusted_pools;
  require_trusted_for_amm = policy.require_trusted_for_amm;
}

unfoldable pub is_trusted : PoolGuardPolicy → Bytes → Bool
is_trusted policy pool = any (λ (key : Bytes). bytes_eq key pool) policy.trusted_pools

unfoldable pub is_stonkfun_platform : Bytes → Bool
is_stonkfun_platform platform_config =
    bytes_eq platform_config Constants.stonkfun_standard_platform_config
    || bytes_eq platform_config Constants.stonkfun_reward_platform_config

-- `.map(|(k, _)| k)`
unfoldable pub key_of : Option (Bytes × ℕ) → Option Bytes
key_of none = none
key_of (some (key, bump)) = some key

-- The first seed is b"pool".
unfoldable pub launchlab_pool_pda : TryDerive → Bytes → Bytes → Option Bytes
launchlab_pool_pda try_derive base_mint quote_mint = key_of (
    try_derive ((112 ∷ 111 ∷ 111 ∷ 108 ∷ []) ∷ base_mint ∷ quote_mint ∷ [])
      Constants.launchlab_program)

-- The first seed is b"pool_vault".
unfoldable pub launchlab_vault_pda : TryDerive → Bytes → Bytes → Option Bytes
launchlab_vault_pda try_derive pool_state mint = key_of (
    try_derive
      ((112 ∷ 111 ∷ 111 ∷ 108 ∷ 95 ∷ 118 ∷ 97 ∷ 117 ∷ 108 ∷ 116 ∷ []) ∷ pool_state ∷ mint ∷ [])
      Constants.launchlab_program)

-- The first seed is b"bonding-curve".
unfoldable pub pumpfun_bonding_curve_pda : TryDerive → Bytes → Option Bytes
pumpfun_bonding_curve_pda try_derive mint = key_of (
    try_derive
      ((98 ∷ 111 ∷ 110 ∷ 100 ∷ 105 ∷ 110 ∷ 103 ∷ 45 ∷ 99 ∷ 117 ∷ 114 ∷ 118 ∷ 101 ∷ []) ∷ mint ∷ [])
      Constants.pumpfun_program)

-- The first seed is b"pool-authority".
unfoldable pub pump_pool_authority_pda : Derive → Bytes → Bytes
pump_pool_authority_pda derive mint =
    (derive
      ((112 ∷ 111 ∷ 111 ∷ 108 ∷ 45 ∷ 97 ∷ 117 ∷ 116 ∷ 104 ∷ 111 ∷ 114 ∷ 105 ∷ 116 ∷ 121 ∷ [])
        ∷ mint
        ∷ [])
      Constants.pumpfun_program).0

-- The first seed is b"pool", the second the index 0 as a u16.
unfoldable pub pumpswap_canonical_pool_pda : Derive → Bytes → Bytes
pumpswap_canonical_pool_pda derive mint =
    (derive
      ((112 ∷ 111 ∷ 111 ∷ 108 ∷ [])
        ∷ zeros 2
        ∷ pump_pool_authority_pda derive mint
        ∷ mint
        ∷ Constants.wsol_mint
        ∷ [])
      Constants.pumpswap_program).0

-- The first seed is b"pool_vault".
unfoldable pub cpmm_vault_pda : TryDerive → Bytes → Bytes → Option Bytes
cpmm_vault_pda try_derive pool_state mint = key_of (
    try_derive
      ((112 ∷ 111 ∷ 111 ∷ 108 ∷ 95 ∷ 118 ∷ 97 ∷ 117 ∷ 108 ∷ 116 ∷ []) ∷ pool_state ∷ mint ∷ [])
      Constants.raydium_cpmm_program)

-- The first seed is b"observation".
unfoldable pub cpmm_observation_pda : TryDerive → Bytes → Option Bytes
cpmm_observation_pda try_derive pool_state = key_of (
    try_derive
      ((111 ∷ 98 ∷ 115 ∷ 101 ∷ 114 ∷ 118 ∷ 97 ∷ 116 ∷ 105 ∷ 111 ∷ 110 ∷ []) ∷ pool_state ∷ [])
      Constants.raydium_cpmm_program)

-- The first seed is b"pool".
unfoldable pub cpmm_pool_pda : TryDerive → Bytes → Bytes → Bytes → Option Bytes
cpmm_pool_pda try_derive amm_config mint_a mint_b = key_of (
    try_derive ((112 ∷ 111 ∷ 111 ∷ 108 ∷ []) ∷ amm_config ∷ mint_a ∷ mint_b ∷ [])
      Constants.raydium_cpmm_program)

unfoldable pub require_trusted_or : PoolGuardPolicy → Bytes → Option (Unit {0})
require_trusted_or policy pool =
    if is_trusted policy pool then some tt else bail_if policy.require_trusted_for_amm

-- `if let Some(v) = expected { if given != default && given != v { return reject(…) } }`
unfoldable pub check_unless_unset : Option Bytes → Bytes → Option (Unit {0})
check_unless_unset none given = some tt
check_unless_unset (some v) given =
    bail_if (not (bytes_eq given default_key) && not (bytes_eq given v))

-- The checks of a LaunchLab pool that is not trusted.
unfoldable pub check_launchlab : TryDerive → LaunchLabPool → PoolGuardPolicy → Option (Unit {0})
check_launchlab try_derive pool policy = do
  bail_if (policy.stonk_platform_only && not (is_stonkfun_platform pool.platform_config))
  expected ← launchlab_pool_pda try_derive pool.base_mint pool.quote_mint
  bail_if (not (bytes_eq pool.pool_state expected))
  check_unless_unset (launchlab_vault_pda try_derive pool.pool_state pool.base_mint) pool.base_vault
  check_unless_unset (launchlab_vault_pda try_derive pool.pool_state pool.quote_mint)
      pool.quote_vault

-- The two early returns of the guards, and what stands behind them.
unfoldable pub unless_waved : PoolGuardPolicy → Bytes → Option (Unit {0}) → Option (Unit {0})
unless_waved policy pool checks =
    if not policy.enabled then some tt else if is_trusted policy pool then some tt else checks

unfoldable pub assert_launchlab_ok : TryDerive → LaunchLabPool → PoolGuardPolicy → Option (Unit {0})
assert_launchlab_ok try_derive pool policy =
    unless_waved policy pool.pool_state (check_launchlab try_derive pool policy)

unfoldable pub check_pumpfun : TryDerive → PumpFunPool → Option (Unit {0})
check_pumpfun try_derive pool = do
  expected ← pumpfun_bonding_curve_pda try_derive pool.mint
  bail_if (not (bytes_eq pool.bonding_curve expected))

unfoldable pub assert_pumpfun_ok : TryDerive → PumpFunPool → PoolGuardPolicy → Option (Unit {0})
assert_pumpfun_ok try_derive pool policy =
    unless_waved policy pool.bonding_curve (check_pumpfun try_derive pool)

unfoldable pub check_pumpswap : Derive → PumpSwapPool → PoolGuardPolicy → Option (Unit {0})
check_pumpswap derive pool policy =
    if bytes_eq pool.quote_mint Constants.wsol_mint
    then bail_if (not (bytes_eq pool.pool (pumpswap_canonical_pool_pda derive pool.base_mint)))
    else require_trusted_or policy pool.pool

unfoldable pub assert_pumpswap_ok : Derive → PumpSwapPool → PoolGuardPolicy → Option (Unit {0})
assert_pumpswap_ok derive pool policy =
    unless_waved policy pool.pool (check_pumpswap derive pool policy)

-- `a == Some(key)`
unfoldable pub is_key : Option Bytes → Bytes → Bool
is_key none key = false
is_key (some found) key = bytes_eq found key

unfoldable pub check_cpmm : TryDerive → CpmmPool → PoolGuardPolicy → Option (Unit {0})
check_cpmm try_derive pool policy = do
  require_trusted_or policy pool.pool_state
  bail_if (
      not (bytes_eq pool.amm_config default_key)
      && not (
          is_key (cpmm_pool_pda try_derive pool.amm_config pool.base_mint pool.quote_mint)
            pool.pool_state
          || is_key (cpmm_pool_pda try_derive pool.amm_config pool.quote_mint pool.base_mint)
              pool.pool_state))
  check_unless_unset (cpmm_vault_pda try_derive pool.pool_state pool.base_mint) pool.base_vault
  check_unless_unset (cpmm_vault_pda try_derive pool.pool_state pool.quote_mint) pool.quote_vault
  check_unless_unset (cpmm_observation_pda try_derive pool.pool_state) pool.observation_state

unfoldable pub assert_cpmm_ok : TryDerive → CpmmPool → PoolGuardPolicy → Option (Unit {0})
assert_cpmm_ok try_derive pool policy =
    unless_waved policy pool.pool_state (check_cpmm try_derive pool policy)

unfoldable pub assert_amm_listed : PoolGuardPolicy → Bytes → Option (Unit {0})
assert_amm_listed policy pool =
    if not policy.enabled then some tt else require_trusted_or policy pool

unfoldable pub assert_market_ok : TryDerive → Derive → Market → PoolGuardPolicy → Option (Unit {0})
assert_market_ok try_derive derive (launch_lab_inner p) policy =
    assert_launchlab_ok try_derive p policy
assert_market_ok try_derive derive (pump_fun_inner p) policy = assert_pumpfun_ok try_derive p policy
assert_market_ok try_derive derive (pump_swap_outer p) policy = assert_pumpswap_ok derive p policy
assert_market_ok try_derive derive (cpmm_outer p) policy = assert_cpmm_ok try_derive p policy
assert_market_ok try_derive derive (raydium_amm_v4 p) policy = assert_amm_listed policy p.amm
assert_market_ok try_derive derive (meteora_damm_v2 p) policy = assert_amm_listed policy p.pool
assert_market_ok try_derive derive (raydium_clmm p) policy = assert_amm_listed policy p.pool_state
assert_market_ok try_derive derive (whirlpool p) policy = assert_amm_listed policy p.whirlpool
assert_market_ok try_derive derive (meteora_dlmm p) policy = assert_amm_listed policy p.lb_pair

unfoldable pub assert_bridge_ok :
    TryDerive → Option BridgePool → PoolGuardPolicy → Option (Unit {0})
assert_bridge_ok try_derive none policy = some tt
assert_bridge_ok try_derive (some (cpmm p)) policy = assert_cpmm_ok try_derive p policy
assert_bridge_ok try_derive (some (amm_v4 p)) policy = assert_amm_listed policy p.amm

unfoldable pub assert_routed_market_ok :
    TryDerive → Derive → RoutedMarket → PoolGuardPolicy → Option (Unit {0})
assert_routed_market_ok try_derive derive routed policy =
    assert_market_ok try_derive derive routed.market policy
    >> assert_bridge_ok try_derive routed.bridge policy
