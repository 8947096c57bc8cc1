-- ===== src/Sdk/RouteIx/ValidPools.antt =====
-- crates/sdk/src/legs.rs and crates/sdk/src/route_ix.rs: the exact-input legs of the pools that quote from
-- snapshots, before the check of a dynamic leg.
use sol_trade_router_sdk.Base.{ℕ, ◌≡◌, refl, sym, ◌∙◌, some, subst, arith}
use sol_trade_router_sdk.Base.Bytes.{Bytes, bytes_eq}
use sol_trade_router_sdk.Base.Words.{to_le_bytes}
use sol_trade_router_sdk.Sdk.Fallible.{bind-eq-some, bailed-eq-some, some-injective}
use sol_trade_router_sdk.Sdk.Keys.{Derive}
use sol_trade_router_sdk.Sdk.Constants
use sol_trade_router_sdk.Sdk.Ata.{ata}
use sol_trade_router_sdk.Sdk.Legs.{Leg, encode_u64_pair}
use sol_trade_router_sdk.Sdk.Legs.Meteora.{
  DammDirection, meteora_damm_v2_swap_leg, damm_direction, meteora_dlmm_swap_leg, dlmm_accounts,
  dlmm_output_mint, dlmm_program_of,
}
use sol_trade_router_sdk.Sdk.Legs.Clmm.{
  ClmmDirection, raydium_clmm_swap_leg, clmm_accounts, clmm_direction,
}
use sol_trade_router_sdk.Sdk.Quote.Snapshot.{MeteoraDammV2Pool, RaydiumClmmPool, MeteoraDlmmPool}
use sol_trade_router_sdk.Sdk.RouteIx.Layout.{layout_of, dynamic_leg_layout}
use sol_trade_router_sdk.Sdk.RouteIx.Valid.{Placed}

pub damm-Placed :
    (derive : Derive) (user : Bytes) (pool : MeteoraDammV2Pool) (amount_in min_out : ℕ)
    (input_mint : Bytes) (side : DammDirection) {leg : Leg}
    → meteora_damm_v2_swap_leg derive user pool amount_in min_out input_mint ≡ some leg
    → damm_direction pool input_mint ≡ some side
    → pool.swap_mode ≡ Constants.meteora_damm_v2_exact_in
    → Placed leg user
        (ata derive user input_mint side.input_program)
        (ata derive user side.output_mint side.output_program)
        amount_in
        (layout_of 2 3 8 8 11)
unfolding meteora_damm_v2_swap_leg dynamic_leg_layout bytes_eq to_le_bytes encode_u64_pair
damm-Placed derive user pool amount_in min_out input_mint side {leg} h e exact =
    let (_, _, h1) = bind-eq-some _ _ h in
    let (_, h2) = bailed-eq-some _ _ h1 in
    let (_, h3) = bailed-eq-some _ _ h2 in
    let (found_side, found, h4) = bind-eq-some _ _ h3 in
    let same : found_side ≡ side = some-injective (sym found ∙ e) in
    subst
      (λ (s : DammDirection).
        Placed leg user (ata derive user input_mint s.input_program)
          (ata derive user s.output_mint s.output_program) amount_in (layout_of 2 3 8 8 11))
      same
      (subst
        (λ (l : Leg).
          Placed l user (ata derive user input_mint found_side.input_program)
            (ata derive user found_side.output_mint found_side.output_program) amount_in
            (layout_of 2 3 8 8 11))
        (some-injective h4)
        (record {
          known = rw exact refl;
          enough = omega arith;
          signer = refl;
          signs = refl;
          spends = refl;
          writes_input = refl;
          receives = refl;
          writes_output = refl;
          amount_bytes = refl;
        }))

pub dlmm-Placed :
    (bitmap_extension_pda : Bytes → Bytes) (derive : Derive) (user : Bytes) (pool : MeteoraDlmmPool)
    (amount_in min_out : ℕ) (input_mint output_mint : Bytes) {leg : Leg}
    → meteora_dlmm_swap_leg bitmap_extension_pda derive user pool amount_in min_out input_mint
      ≡ some leg
    → dlmm_output_mint pool input_mint ≡ some output_mint
    → Placed leg user
        (ata derive user input_mint (dlmm_program_of pool input_mint))
        (ata derive user output_mint (dlmm_program_of pool output_mint))
        amount_in
        (layout_of 4 5 10 8 13)
unfolding meteora_dlmm_swap_leg dlmm_accounts dynamic_leg_layout bytes_eq to_le_bytes
    encode_u64_pair
dlmm-Placed bitmap_extension_pda derive user pool amount_in min_out input_mint output_mint {leg} h
      e =
    let (_, _, h1) = bind-eq-some _ _ h in
    let (_, h2) = bailed-eq-some _ _ h1 in
    let (_, _, h3) = bind-eq-some _ _ h2 in
    let (_, h4) = bailed-eq-some _ _ h3 in
    let (mint, found, h5) = bind-eq-some _ _ h4 in
    let (_, _, h6) = bind-eq-some _ _ h5 in
    let same : mint ≡ output_mint = some-injective (sym found ∙ e) in
    subst
      (λ (m : Bytes).
        Placed leg user (ata derive user input_mint (dlmm_program_of pool input_mint))
          (ata derive user m (dlmm_program_of pool m)) amount_in (layout_of 4 5 10 8 13))
      same
      (subst
        (λ (l : Leg).
          Placed l user (ata derive user input_mint (dlmm_program_of pool input_mint))
            (ata derive user mint (dlmm_program_of pool mint)) amount_in (layout_of 4 5 10 8 13))
        (some-injective h6)
        (record {
          known = refl;
          enough = omega arith;
          signer = refl;
          signs = refl;
          spends = refl;
          writes_input = refl;
          receives = refl;
          writes_output = refl;
          amount_bytes = refl;
        }))

pub clmm-Placed :
    (derive : Derive) (user : Bytes) (pool : RaydiumClmmPool) (amount_in min_out : ℕ)
    (input_mint : Bytes) (side : ClmmDirection) {leg : Leg}
    → raydium_clmm_swap_leg derive user pool amount_in min_out input_mint ≡ some leg
    → clmm_direction pool input_mint ≡ some side
    → Placed leg user
        (ata derive user input_mint side.input_program)
        (ata derive user side.output_mint side.output_program)
        amount_in
        (layout_of 3 4 0 8 13)
unfolding raydium_clmm_swap_leg clmm_accounts dynamic_leg_layout bytes_eq to_le_bytes
    encode_u64_pair
clmm-Placed derive user pool amount_in min_out input_mint side {leg} h e =
    let (_, _, h1) = bind-eq-some _ _ h in
    let (_, h2) = bailed-eq-some _ _ h1 in
    let (_, _, h3) = bind-eq-some _ _ h2 in
    let (_, h4) = bailed-eq-some _ _ h3 in
    let (_, _, h5) = bind-eq-some _ _ h4 in
    let (found_side, found, h6) = bind-eq-some _ _ h5 in
    let (_, _, h7) = bind-eq-some _ _ h6 in
    let same : found_side ≡ side = some-injective (sym found ∙ e) in
    subst
      (λ (s : ClmmDirection).
        Placed leg user (ata derive user input_mint s.input_program)
          (ata derive user s.output_mint s.output_program) amount_in (layout_of 3 4 0 8 13))
      same
      (subst
        (λ (l : Leg).
          Placed l user (ata derive user input_mint found_side.input_program)
            (ata derive user found_side.output_mint found_side.output_program) amount_in
            (layout_of 3 4 0 8 13))
        (some-injective h7)
        (record {
          known = refl;
          enough = omega arith;
          signer = refl;
          signs = refl;
          spends = refl;
          writes_input = refl;
          receives = refl;
          writes_output = refl;
          amount_bytes = refl;
        }))
