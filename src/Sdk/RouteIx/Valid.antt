-- ===== src/Sdk/RouteIx/Valid.antt =====
-- crates/sdk/src/legs.rs and crates/sdk/src/route_ix.rs: the exact-input legs of the builders, before the
-- check of a dynamic leg.
use sol_trade_router_sdk.Base.{
  ℕ, zero, suc, ◌≤◌, ◌≡◌, refl, sym, ap, ◌∙◌, true, false, not, ◌&&◌, some, length, le→ltb, ne→==,
  subst, ◌==◌, arith,
}
use sol_trade_router_sdk.Base.Bytes.{Bytes, bytes_eq, bytes_eq_refl, slice, zeros}
use sol_trade_router_sdk.Base.Words.{to_le_bytes}
use sol_trade_router_sdk.Sdk.Fallible.{◌>>=◌, bail_if, bind-eq-some, bailed-eq-some, some-injective}
use sol_trade_router_sdk.Sdk.Keys.{Derive}
use sol_trade_router_sdk.Sdk.Ata.{ata}
use sol_trade_router_sdk.Sdk.Legs.{Leg, encode_u64_pair, encode_u64_triple}
use sol_trade_router_sdk.Sdk.Legs.LaunchLab.{launchlab_buy_leg, launchlab_accounts}
use sol_trade_router_sdk.Sdk.Legs.Cpmm.{cpmm_swap_leg, cpmm_leg}
use sol_trade_router_sdk.Sdk.Legs.RaydiumAmm.{
  raydium_amm_v4_swap_leg, amm_leg, amm_output_mint, amm_token_program,
}
use sol_trade_router_sdk.Sdk.Quote.LaunchLab.{LaunchLabPool}
use sol_trade_router_sdk.Sdk.Quote.Cpmm.{CpmmPool}
use sol_trade_router_sdk.Sdk.Quote.RaydiumAmm.{RaydiumAmmV4Pool}
use sol_trade_router_sdk.Sdk.RouteIx.Layout.{
  DynamicLegLayout, layout_of, account_at, dynamic_leg_layout, validate_dynamic_leg,
}

-- A leg with a layout: the user signs, both user accounts are writable, and the amount stands in its place.
pub record Placed (leg : Leg) (user input output : Bytes) (amount : ℕ) (layout : DynamicLegLayout)
    : Type 0 where
  pub known : dynamic_leg_layout leg.program_id leg.payload ≡ some layout
  pub enough : layout.minimum_accounts ≤ length leg.accounts
  pub signer : (account_at leg layout.signer).pubkey ≡ user
  pub signs : (account_at leg layout.signer).is_signer ≡ true
  pub spends : (account_at leg layout.input_account).pubkey ≡ input
  pub writes_input : (account_at leg layout.input_account).is_writable ≡ true
  pub receives : (account_at leg layout.output_account).pubkey ≡ output
  pub writes_output : (account_at leg layout.output_account).is_writable ≡ true
  pub amount_bytes : slice leg.payload layout.amount_offset 8 ≡ to_le_bytes 8 amount

zero_bytes : (a : ℕ) → ((a == 0) && not (bytes_eq (to_le_bytes 8 a) (zeros 8))) ≡ false
unfolding to_le_bytes bytes_eq
zero_bytes zero = refl
zero_bytes (suc a) = rw (ne→== (suc a) 0 (omega arith)) refl

pub Placed-valid :
    {leg : Leg} {user input output : Bytes} {amount : ℕ} {layout : DynamicLegLayout}
    → Placed leg user input output amount layout
    → validate_dynamic_leg leg user input output (amount == 0) true ≡ some tt
unfolding validate_dynamic_leg ◌>>=◌ bail_if
Placed-valid {leg = leg} {user = user} {input = input} {output = output} {amount = amount}
      {layout = layout} p =
    rw
      (
        p.known,
        le→ltb (length leg.accounts) layout.minimum_accounts p.enough,
        p.signer,
        p.signs,
        p.spends,
        p.writes_input,
        p.receives,
        p.writes_output,
        p.amount_bytes,
        bytes_eq_refl user,
        bytes_eq_refl input,
        bytes_eq_refl output,
        zero_bytes amount,
      )
      refl

pub launchlab-Placed :
    (user : Bytes) (pool : LaunchLabPool) (amount_in min_out : ℕ) (base_ata quote_ata : Bytes)
    → Placed
        (launchlab_buy_leg user pool amount_in min_out base_ata quote_ata)
        user
        quote_ata
        base_ata
        amount_in
        (layout_of 6 5 0 8 13)
unfolding launchlab_buy_leg launchlab_accounts dynamic_leg_layout bytes_eq to_le_bytes
    encode_u64_triple
launchlab-Placed user pool amount_in min_out base_ata quote_ata = record {
  known = refl;
  enough = omega arith;
  signer = refl;
  signs = refl;
  spends = refl;
  writes_input = refl;
  receives = refl;
  writes_output = refl;
  amount_bytes = refl;
}

pub cpmm-Placed :
    (user : Bytes) (pool : CpmmPool) (amount_in min_out : ℕ)
    (input_mint output_mint input_ata output_ata : Bytes) {leg : Leg}
    → cpmm_swap_leg user pool amount_in min_out input_mint output_mint input_ata output_ata
      ≡ some leg
    → Placed leg user input_ata output_ata amount_in (layout_of 4 5 0 8 12)
unfolding cpmm_swap_leg cpmm_leg dynamic_leg_layout bytes_eq to_le_bytes encode_u64_pair
cpmm-Placed user pool amount_in min_out input_mint output_mint input_ata output_ata h =
    let (_, _, h1) = bind-eq-some _ _ h in
    let (side, _, h2) = bind-eq-some _ _ h1 in
    subst (λ (l : Leg). Placed l user input_ata output_ata amount_in (layout_of 4 5 0 8 12))
      (some-injective h2)
      (record {
        known = refl;
        enough = omega arith;
        signer = refl;
        signs = refl;
        spends = refl;
        writes_input = refl;
        receives = refl;
        writes_output = refl;
        amount_bytes = refl;
      })

pub amm-Placed :
    (derive : Derive) (user : Bytes) (pool : RaydiumAmmV4Pool) (amount_in min_out : ℕ)
    (input_mint output_mint : Bytes) {leg : Leg}
    → raydium_amm_v4_swap_leg derive user pool amount_in min_out input_mint ≡ some leg
    → amm_output_mint pool input_mint ≡ some output_mint
    → Placed leg user
        (ata derive user input_mint (amm_token_program pool))
        (ata derive user output_mint (amm_token_program pool))
        amount_in
        (layout_of 5 6 7 1 8)
unfolding raydium_amm_v4_swap_leg amm_leg dynamic_leg_layout bytes_eq to_le_bytes
amm-Placed derive user pool amount_in min_out input_mint output_mint h e =
    let (_, h1) = bailed-eq-some _ _ h in
    let (mint, found, h2) = bind-eq-some _ _ h1 in
    let (_, h3) = bailed-eq-some _ _ h2 in
    let same : mint ≡ output_mint = some-injective (sym found ∙ e) in
    subst
      (λ (l : Leg).
        Placed l user (ata derive user input_mint (amm_token_program pool))
          (ata derive user output_mint (amm_token_program pool)) amount_in (layout_of 5 6 7 1 8))
      (some-injective h3)
      (record {
        known = refl;
        enough = omega arith;
        signer = refl;
        signs = refl;
        spends = refl;
        writes_input = refl;
        receives = ap (λ (m : Bytes). ata derive user m (amm_token_program pool)) same;
        writes_output = refl;
        amount_bytes = refl;
      })
