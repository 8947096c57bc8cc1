-- ===== src/Sdk/RouteIx/ValidPump.antt =====
-- crates/sdk/src/legs.rs and crates/sdk/src/route_ix.rs: the exact-input PumpSwap legs, before the check
-- of a dynamic leg.
use sol_trade_router_sdk.Base.{
  ℕ, ◌≡◌, refl, sym, ap, ◌∙◌, Bool, if◌then◌else◌, true, false, List, [], ◌∷◌, ◌++◌, subst, arith,
  some,
}
use sol_trade_router_sdk.Base.Bytes.{Bytes, bytes_eq}
use sol_trade_router_sdk.Base.Words.{to_le_bytes}
use sol_trade_router_sdk.Sdk.Fallible.{bind-eq-some, bailed-eq-some, some-injective}
use sol_trade_router_sdk.Sdk.Keys.{AccountMeta, Derive}
use sol_trade_router_sdk.Sdk.Constants
use sol_trade_router_sdk.Sdk.Ata.{ata}
use sol_trade_router_sdk.Sdk.Legs.{Leg, encode_u64_pair}
use sol_trade_router_sdk.Sdk.Legs.PumpSwap.{
  TryDerive, pumpswap_fixed, pumpswap_accounts, pumpswap_buy_leg, pumpswap_sell_leg,
}
use sol_trade_router_sdk.Sdk.Quote.PumpSwap.{PumpSwapPool}
use sol_trade_router_sdk.Sdk.RouteIx.Layout.{layout_of, dynamic_leg_layout}
use sol_trade_router_sdk.Sdk.RouteIx.Valid.{Placed}

-- The user's account of the base mint or of the quote mint.
abbrev pub pumpswap_owner : Derive → Bytes → PumpSwapPool → Bool → Bytes
pumpswap_owner derive user pool is_base =
    if is_base
    then ata derive user pool.base_mint pool.base_token_program
    else ata derive user pool.quote_mint pool.quote_token_program

starts_fixed :
    (try_derive : TryDerive) (valid_accounts : PumpSwapPool → Bool) (derive : Derive) (user : Bytes)
    (pool : PumpSwapPool) (is_buy : Bool) {accounts : List AccountMeta}
    → pumpswap_accounts try_derive valid_accounts derive user pool is_buy ≡ some accounts
    → (rest : List AccountMeta) × (accounts ≡ pumpswap_fixed derive user pool ++ rest)
unfolding pumpswap_accounts
starts_fixed try_derive valid_accounts derive user pool is_buy h =
    let (_, _, h1) = bind-eq-some _ _ h in
    let (_, h2) = bailed-eq-some _ _ h1 in
    let (_, _, h3) = bind-eq-some _ _ h2 in
    let (_, _, h4) = bind-eq-some _ _ h3 in
    let (list, same, h5) = bind-eq-some _ _ h4 in
    let (_, _, h6) = bind-eq-some _ _ h5 in (_, sym (some-injective h6) ∙ sym (some-injective same))

pub pumpswap_buy-Placed :
    (try_derive : TryDerive) (valid_accounts : PumpSwapPool → Bool) (derive : Derive) (user : Bytes)
    (pool : PumpSwapPool) (quote_in min_base_out : ℕ) {leg : Leg}
    → pumpswap_buy_leg try_derive valid_accounts derive user pool quote_in min_base_out ≡ some leg
    → Placed leg user
        (pumpswap_owner derive user pool false)
        (pumpswap_owner derive user pool true)
        quote_in
        (layout_of 6 5 1 8 13)
unfolding pumpswap_buy_leg dynamic_leg_layout bytes_eq to_le_bytes encode_u64_pair pumpswap_fixed
pumpswap_buy-Placed try_derive valid_accounts derive user pool quote_in min_base_out h =
    let (accounts, made, h1) = bind-eq-some _ _ h in
    let (rest, starts) = starts_fixed try_derive valid_accounts derive user pool _ made in
    subst
      (λ (l : Leg).
        Placed l user (pumpswap_owner derive user pool false) (pumpswap_owner derive user pool true)
          quote_in (layout_of 6 5 1 8 13))
      (ap
          (λ (metas : List AccountMeta). record {
            program_id = Constants.pumpswap_program;
            accounts = metas;
            payload =
                encode_u64_pair Constants.pumpswap_buy_exact_quote_in quote_in min_base_out
                ++ (1 ∷ []);
          })
          (sym starts)
        ∙ some-injective h1)
      (record {
        known = refl;
        enough = omega arith;
        signer = refl;
        signs = refl;
        spends = refl;
        writes_input = refl;
        receives = refl;
        writes_output = refl;
        amount_bytes = refl;
      })

pub pumpswap_sell-Placed :
    (try_derive : TryDerive) (valid_accounts : PumpSwapPool → Bool) (derive : Derive) (user : Bytes)
    (pool : PumpSwapPool) (base_in min_quote_out : ℕ) {leg : Leg}
    → pumpswap_sell_leg try_derive valid_accounts derive user pool base_in min_quote_out ≡ some leg
    → Placed leg user
        (pumpswap_owner derive user pool true)
        (pumpswap_owner derive user pool false)
        base_in
        (layout_of 5 6 1 8 13)
unfolding pumpswap_sell_leg dynamic_leg_layout bytes_eq to_le_bytes encode_u64_pair pumpswap_fixed
pumpswap_sell-Placed try_derive valid_accounts derive user pool base_in min_quote_out h =
    let (accounts, made, h1) = bind-eq-some _ _ h in
    let (rest, starts) = starts_fixed try_derive valid_accounts derive user pool _ made in
    subst
      (λ (l : Leg).
        Placed l user (pumpswap_owner derive user pool true) (pumpswap_owner derive user pool false)
          base_in (layout_of 5 6 1 8 13))
      (ap
          (λ (metas : List AccountMeta). record {
            program_id = Constants.pumpswap_program;
            accounts = metas;
            payload = encode_u64_pair Constants.pumpswap_sell base_in min_quote_out;
          })
          (sym starts)
        ∙ some-injective h1)
      (record {
        known = refl;
        enough = omega arith;
        signer = refl;
        signs = refl;
        spends = refl;
        writes_input = refl;
        receives = refl;
        writes_output = refl;
        amount_bytes = refl;
      })
