-- ===== src/Tests/PoolGuard.antt =====
-- A strict guard on a curve at its derived address, bridged by a trusted pool.
use sol_trade_router_sdk.Base.{◌≡◌, refl, true, some, none, [], ◌∷◌}
use sol_trade_router_sdk.Base.Bytes.{bytes_eq}
use sol_trade_router_sdk.Sdk.Fallible.{◌>>=◌, bail_if}
use sol_trade_router_sdk.Sdk.Keys.{Derive}
use sol_trade_router_sdk.Sdk.Legs.PumpSwap.{TryDerive}
use sol_trade_router_sdk.Sdk.PoolGuard.{
  pump_fun_inner, cpmm, RoutedMarket, PoolGuardPolicy, stonk_strict, trust, is_trusted, key_of,
  pumpfun_bonding_curve_pda, require_trusted_or, unless_waved, check_pumpfun, check_cpmm,
  assert_pumpfun_ok, assert_cpmm_ok, assert_market_ok, assert_bridge_ok, assert_routed_market_ok,
}
use sol_trade_router_sdk.Sdk.PoolGuard.Strict.{Genuine, BridgeListed, strict_guard_sound}
use sol_trade_router_sdk.Tests.World.{key}
use sol_trade_router_sdk.Tests.Inverse.{large}
use sol_trade_router_sdk.Tests.PumpFunV3.{curve}

abbrev derive : Derive
derive seeds program = (key 41, 255)

abbrev try_derive : TryDerive
try_derive seeds program = some (key 40, 255)

-- stonk_strict, with the bridge's pool trusted
abbrev policy : PoolGuardPolicy
policy = record {
  enabled = true;
  stonk_platform_only = true;
  trusted_pools = large.pool_state ∷ [];
  require_trusted_for_amm = true;
}

abbrev routed : RoutedMarket
routed = record { market = pump_fun_inner curve; bridge = some (cpmm large) }

policy_trusts : trust stonk_strict large.pool_state ≡ policy
unfolding trust
policy_trusts = refl

guard_runs :
    (assert_routed_market_ok try_derive derive routed policy ≡ some tt)
    × (assert_routed_market_ok try_derive derive routed stonk_strict ≡ none)
unfolding assert_routed_market_ok assert_market_ok assert_bridge_ok assert_pumpfun_ok assert_cpmm_ok
    unless_waved check_pumpfun check_cpmm require_trusted_or is_trusted pumpfun_bonding_curve_pda
    key_of bytes_eq bail_if ◌>>=◌
guard_runs = (refl, refl)

strict_guard_sound_example :
    Genuine try_derive derive policy (pump_fun_inner curve)
    × BridgeListed policy (some (cpmm large))
strict_guard_sound_example =
    strict_guard_sound try_derive derive policy refl refl routed guard_runs.0
