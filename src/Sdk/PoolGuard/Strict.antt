-- ===== src/Sdk/PoolGuard/Strict.antt =====
-- crates/sdk/src/pool_guard.rs: what passes a guard that requires the AMM pools to be trusted.
use sol_trade_router_sdk.Base.{
  ◌≡◌, ◌⊎◌, refl, sym, ap, ◌∙◌, Bool, true, false, not, Option, none, some, not-eq-false, inl, inr,
  if◌then◌else◌,
}
use sol_trade_router_sdk.Base.Bytes.{Bytes, bytes_eq, bytes_eq→eq}
use sol_trade_router_sdk.Sdk.Fallible.{bail_if, bind-eq-some, bailed-eq-some}
use sol_trade_router_sdk.Sdk.Keys.{Derive}
use sol_trade_router_sdk.Sdk.Constants
use sol_trade_router_sdk.Sdk.Legs.PumpSwap.{TryDerive}
use sol_trade_router_sdk.Sdk.Quote.LaunchLab.{LaunchLabPool}
use sol_trade_router_sdk.Sdk.Quote.Cpmm.{CpmmPool}
use sol_trade_router_sdk.Sdk.Quote.PumpFun.{PumpFunPool}
use sol_trade_router_sdk.Sdk.Quote.PumpSwap.{PumpSwapPool}
use sol_trade_router_sdk.Sdk.PoolGuard.{
  Market, launch_lab_inner, cpmm_outer, pump_fun_inner, pump_swap_outer, raydium_amm_v4,
  meteora_damm_v2, raydium_clmm, whirlpool, meteora_dlmm, BridgePool, cpmm, amm_v4, RoutedMarket,
  PoolGuardPolicy, is_trusted, launchlab_pool_pda, pumpfun_bonding_curve_pda,
  pumpswap_canonical_pool_pda, require_trusted_or, unless_waved, check_launchlab, check_pumpfun,
  check_pumpswap, check_cpmm, assert_launchlab_ok, assert_pumpfun_ok, assert_pumpswap_ok,
  assert_cpmm_ok, assert_amm_listed, assert_market_ok, assert_bridge_ok, assert_routed_market_ok,
}

abbrev pub pool_address : Market → Bytes
pool_address (launch_lab_inner p) = p.pool_state
pool_address (pump_fun_inner p) = p.bonding_curve
pool_address (pump_swap_outer p) = p.pool
pool_address (cpmm_outer p) = p.pool_state
pool_address (raydium_amm_v4 p) = p.amm
pool_address (meteora_damm_v2 p) = p.pool
pool_address (raydium_clmm p) = p.pool_state
pool_address (whirlpool p) = p.whirlpool
pool_address (meteora_dlmm p) = p.lb_pair

abbrev pub bridge_address : BridgePool → Bytes
bridge_address (cpmm p) = p.pool_state
bridge_address (amm_v4 p) = p.amm

-- A market whose pool is trusted, or lies at the one address that its mints give.
pub data Genuine (try_derive : TryDerive) (derive : Derive) (policy : PoolGuardPolicy)
    : Market → Type 0 where
  listed :
      (market : Market)
      → is_trusted policy (pool_address market) ≡ true
      → Genuine try_derive derive policy market
  launchlab_address :
      (p : LaunchLabPool)
      → launchlab_pool_pda try_derive p.base_mint p.quote_mint ≡ some p.pool_state
      → Genuine try_derive derive policy (launch_lab_inner p)
  curve_address :
      (p : PumpFunPool)
      → pumpfun_bonding_curve_pda try_derive p.mint ≡ some p.bonding_curve
      → Genuine try_derive derive policy (pump_fun_inner p)
  graduated_address :
      (p : PumpSwapPool)
      → p.quote_mint ≡ Constants.wsol_mint
      → p.pool ≡ pumpswap_canonical_pool_pda derive p.base_mint
      → Genuine try_derive derive policy (pump_swap_outer p)

-- No bridge, or a trusted one.
pub data BridgeListed (policy : PoolGuardPolicy) : Option BridgePool → Type 0 where
  no_bridge : BridgeListed policy none
  bridge_listed :
      (bridge : BridgePool)
      → is_trusted policy (bridge_address bridge) ≡ true
      → BridgeListed policy (some bridge)

passed : (b : Bool) → bail_if b ≡ some tt → b ≡ false
unfolding bail_if
passed true h = cc
passed false h = refl

either_passed :
    (trusted : Bool) (checks : Option (Unit {0}))
    → (if trusted then some tt else checks) ≡ some tt
    → (trusted ≡ true) ⊎ (checks ≡ some tt)
either_passed true checks h = inl refl
either_passed false checks h = inr h

enabled_passed :
    (enabled : Bool) (further : Option (Unit {0}))
    → enabled ≡ true
    → (if not enabled then some tt else further) ≡ some tt
    → further ≡ some tt
enabled_passed true further on h = h
enabled_passed false further on h = cc

must_be_trusted :
    (policy : PoolGuardPolicy) (pool : Bytes)
    → policy.require_trusted_for_amm ≡ true
    → require_trusted_or policy pool ≡ some tt
    → is_trusted policy pool ≡ true
unfolding require_trusted_or
must_be_trusted policy pool strict h =
    elim (either_passed (is_trusted policy pool) (bail_if policy.require_trusted_for_amm) h) [
      | inl found ↦ found
      | inr lax ↦ cc (passed policy.require_trusted_for_amm lax)
    ]

module _ (try_derive : TryDerive) (derive : Derive) (policy : PoolGuardPolicy)
    (on : policy.enabled ≡ true) (strict : policy.require_trusted_for_amm ≡ true) where
  waved :
      (market : Market) (checks : Option (Unit {0}))
      → unless_waved policy (pool_address market) checks ≡ some tt
      → (checks ≡ some tt → Genuine try_derive derive policy market)
      → Genuine try_derive derive policy market
  unfolding unless_waved
  waved market checks h checked =
      elim (either_passed (is_trusted policy (pool_address market)) checks
        (enabled_passed policy.enabled _ on h)) [
          | inl found ↦ listed market found
          | inr further ↦ checked further
        ]

  only_listed :
      (market : Market)
      → assert_amm_listed policy (pool_address market) ≡ some tt
      → Genuine try_derive derive policy market
  unfolding assert_amm_listed
  only_listed market h =
      listed market
        (must_be_trusted policy (pool_address market) strict (enabled_passed policy.enabled _ on h))

  launchlab-Genuine :
      (p : LaunchLabPool)
      → check_launchlab try_derive p policy ≡ some tt
      → Genuine try_derive derive policy (launch_lab_inner p)
  unfolding check_launchlab
  launchlab-Genuine p h =
      let (_, h1) = bailed-eq-some _ _ h in
      let (expected, found, h2) = bind-eq-some _ _ h1 in
      let (same, _) = bailed-eq-some _ _ h2 in
      launchlab_address p (
        found
        ∙ ap (λ (k : Bytes). some k)
            (sym (bytes_eq→eq p.pool_state expected (not-eq-false _ same))))

  pumpfun-Genuine :
      (p : PumpFunPool)
      → check_pumpfun try_derive p ≡ some tt
      → Genuine try_derive derive policy (pump_fun_inner p)
  unfolding check_pumpfun
  pumpfun-Genuine p h =
      let (expected, found, h1) = bind-eq-some _ _ h in
      curve_address p (
        found
        ∙ ap (λ (k : Bytes). some k)
            (sym (bytes_eq→eq p.bonding_curve expected (not-eq-false _ (passed _ h1)))))

  pumpswap-Genuine :
      (p : PumpSwapPool) (is_wsol : Bool)
      → bytes_eq p.quote_mint Constants.wsol_mint ≡ is_wsol
      → (if is_wsol
          then bail_if (not (bytes_eq p.pool (pumpswap_canonical_pool_pda derive p.base_mint)))
          else require_trusted_or policy p.pool)
        ≡ some tt
      → Genuine try_derive derive policy (pump_swap_outer p)
  pumpswap-Genuine p true wsol h =
      graduated_address p (bytes_eq→eq p.quote_mint Constants.wsol_mint wsol) (
        bytes_eq→eq p.pool (pumpswap_canonical_pool_pda derive p.base_mint)
          (not-eq-false _ (passed _ h)))
  pumpswap-Genuine p false wsol h =
      listed (pump_swap_outer p) (must_be_trusted policy p.pool strict h)

  cpmm_trusted :
      (p : CpmmPool)
      → assert_cpmm_ok try_derive p policy ≡ some tt
      → is_trusted policy p.pool_state ≡ true
  unfolding assert_cpmm_ok unless_waved check_cpmm
  cpmm_trusted p h =
      elim (either_passed (is_trusted policy p.pool_state) (check_cpmm try_derive p policy)
        (enabled_passed policy.enabled _ on h)) [
          | inl found ↦ found
          | inr further ↦
              let (_, trusted, _) = bind-eq-some _ _ further in
              must_be_trusted policy p.pool_state strict trusted
        ]

  market-Genuine :
      (market : Market)
      → assert_market_ok try_derive derive market policy ≡ some tt
      → Genuine try_derive derive policy market
  unfolding assert_market_ok assert_launchlab_ok assert_pumpfun_ok assert_pumpswap_ok check_pumpswap
  market-Genuine (launch_lab_inner p) h = waved (launch_lab_inner p) _ h (launchlab-Genuine p)
  market-Genuine (pump_fun_inner p) h = waved (pump_fun_inner p) _ h (pumpfun-Genuine p)
  market-Genuine (pump_swap_outer p) h =
      waved (pump_swap_outer p) (check_pumpswap derive p policy) h
        (pumpswap-Genuine p (bytes_eq p.quote_mint Constants.wsol_mint) refl)
  market-Genuine (cpmm_outer p) h = listed (cpmm_outer p) (cpmm_trusted p h)
  market-Genuine (raydium_amm_v4 p) h = only_listed (raydium_amm_v4 p) h
  market-Genuine (meteora_damm_v2 p) h = only_listed (meteora_damm_v2 p) h
  market-Genuine (raydium_clmm p) h = only_listed (raydium_clmm p) h
  market-Genuine (whirlpool p) h = only_listed (whirlpool p) h
  market-Genuine (meteora_dlmm p) h = only_listed (meteora_dlmm p) h

  bridge_passes :
      (bridge : Option BridgePool)
      → assert_bridge_ok try_derive bridge policy ≡ some tt
      → BridgeListed policy bridge
  unfolding assert_bridge_ok assert_amm_listed
  bridge_passes none h = no_bridge
  bridge_passes (some (cpmm p)) h = bridge_listed (cpmm p) (cpmm_trusted p h)
  bridge_passes (some (amm_v4 p)) h =
      bridge_listed (amm_v4 p)
        (must_be_trusted policy p.amm strict (enabled_passed policy.enabled _ on h))

  -- Under an enabled policy that requires AMM pools to be trusted, a routed market that passes the
  -- guard has a pool that is trusted, or that lies at the address derived for it: a LaunchLab pool
  -- from its two mints, a PumpFun curve from its mint, a PumpSwap pool of WSOL from its base mint;
  -- and its bridge, if any, is trusted.
  pub strict_guard_sound :
      (routed : RoutedMarket)
      → assert_routed_market_ok try_derive derive routed policy ≡ some tt
      → Genuine try_derive derive policy routed.market × BridgeListed policy routed.bridge
  unfolding assert_routed_market_ok
  strict_guard_sound routed h =
      let (_, market_ok, bridge_ok) = bind-eq-some _ _ h in
      (market-Genuine routed.market market_ok, bridge_passes routed.bridge bridge_ok)
