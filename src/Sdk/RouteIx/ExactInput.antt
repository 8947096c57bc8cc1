-- ===== src/Sdk/RouteIx/ExactInput.antt =====
-- crates/sdk/src/legs.rs against programs/sol-trade-router/src/instructions/route.rs: every exact-input
-- leg of the builders, before both checks of a dynamic leg.
use sol_trade_router_sdk.Base.{
  ℕ, ◌≡◌, refl, sym, ap, subst, ◌∙◌, Bool, true, false, not, Option, some, none-ne-some, ◌==◌,
}
use sol_trade_router_sdk.Base.Bytes.{Bytes, slice}
use sol_trade_router_sdk.Base.Words.{to_le_bytes}
use sol_trade_router_sdk.Program.Error.{Result, ok}
use sol_trade_router_sdk.Program.Route.Layout.{DynamicSecondLeg, dynamic_second_leg}
use sol_trade_router_sdk.Sdk.Fallible.{some-injective}
use sol_trade_router_sdk.Sdk.Keys.{Derive}
use sol_trade_router_sdk.Sdk.Constants
use sol_trade_router_sdk.Sdk.Ata.{ata}
use sol_trade_router_sdk.Sdk.Legs.{Leg}
use sol_trade_router_sdk.Sdk.Legs.LaunchLab.{launchlab_buy_leg}
use sol_trade_router_sdk.Sdk.Legs.Cpmm.{cpmm_swap_leg}
use sol_trade_router_sdk.Sdk.Legs.RaydiumAmm.{
  raydium_amm_v4_swap_leg, amm_output_mint, amm_token_program,
}
use sol_trade_router_sdk.Sdk.Legs.Meteora.{
  DammDirection, meteora_damm_v2_swap_leg, damm_direction, meteora_dlmm_swap_leg, dlmm_output_mint,
  dlmm_program_of,
}
use sol_trade_router_sdk.Sdk.Legs.Clmm.{ClmmDirection, raydium_clmm_swap_leg, clmm_direction}
use sol_trade_router_sdk.Sdk.Legs.Whirlpool.{whirlpool_swap_leg, whirlpool_a_to_b}
use sol_trade_router_sdk.Sdk.Quote.LaunchLab.{LaunchLabPool}
use sol_trade_router_sdk.Sdk.Quote.Cpmm.{CpmmPool}
use sol_trade_router_sdk.Sdk.Quote.RaydiumAmm.{RaydiumAmmV4Pool}
use sol_trade_router_sdk.Sdk.Quote.Snapshot.{
  MeteoraDammV2Pool, RaydiumClmmPool, WhirlpoolPool, MeteoraDlmmPool,
}
use sol_trade_router_sdk.Sdk.RouteIx.Layout.{DynamicLegLayout, account_at, validate_dynamic_leg}
use sol_trade_router_sdk.Sdk.RouteIx.Agreement.{
  Agrees, refused, accepted, dynamic_leg_layout-Agrees,
}
use sol_trade_router_sdk.Sdk.RouteIx.Valid.{
  Placed, Placed-valid, launchlab-Placed, cpmm-Placed, amm-Placed,
}
use sol_trade_router_sdk.Sdk.Legs.PumpSwap.{TryDerive, pumpswap_buy_leg, pumpswap_sell_leg}
use sol_trade_router_sdk.Sdk.Quote.PumpSwap.{PumpSwapPool}
use sol_trade_router_sdk.Sdk.RouteIx.ValidWhirlpool.{whirlpool_owner, whirlpool-Placed}
use sol_trade_router_sdk.Sdk.RouteIx.ValidPump.{
  pumpswap_owner, pumpswap_buy-Placed, pumpswap_sell-Placed,
}
use sol_trade_router_sdk.Sdk.RouteIx.ValidPools.{damm-Placed, dlmm-Placed, clmm-Placed}

-- A leg that an exact-input builder made for a user: with the amount, and the user's accounts of the mint
-- that is spent and of the one that is bought.
pub data ExactInput (derive : Derive) (user : Bytes) : Leg → ℕ → Bytes → Bytes → Type 0 where
  launchlab :
      (pool : LaunchLabPool) (amount min_out : ℕ) (base_ata quote_ata : Bytes)
      → ExactInput derive user
          (launchlab_buy_leg user pool amount min_out base_ata quote_ata)
          amount
          quote_ata
          base_ata
  cpmm :
      (pool : CpmmPool) (amount min_out : ℕ) (input_mint output_mint input_ata output_ata : Bytes)
      (leg : Leg)
      → cpmm_swap_leg user pool amount min_out input_mint output_mint input_ata output_ata
        ≡ some leg
      → ExactInput derive user leg amount input_ata output_ata
  amm_v4 :
      (pool : RaydiumAmmV4Pool) (amount min_out : ℕ) (input_mint output_mint : Bytes) (leg : Leg)
      → raydium_amm_v4_swap_leg derive user pool amount min_out input_mint ≡ some leg
      → amm_output_mint pool input_mint ≡ some output_mint
      → ExactInput derive user leg amount
          (ata derive user input_mint (amm_token_program pool))
          (ata derive user output_mint (amm_token_program pool))
  damm_v2 :
      (pool : MeteoraDammV2Pool) (amount min_out : ℕ) (input_mint : Bytes) (side : DammDirection)
      (leg : Leg)
      → meteora_damm_v2_swap_leg derive user pool amount min_out input_mint ≡ some leg
      → damm_direction pool input_mint ≡ some side
      → pool.swap_mode ≡ Constants.meteora_damm_v2_exact_in
      → ExactInput derive user leg amount
          (ata derive user input_mint side.input_program)
          (ata derive user side.output_mint side.output_program)
  dlmm :
      (bitmap_pda : Bytes → Bytes) (pool : MeteoraDlmmPool) (amount min_out : ℕ)
      (input_mint output_mint : Bytes) (leg : Leg)
      → meteora_dlmm_swap_leg bitmap_pda derive user pool amount min_out input_mint ≡ some leg
      → dlmm_output_mint pool input_mint ≡ some output_mint
      → ExactInput derive user leg amount
          (ata derive user input_mint (dlmm_program_of pool input_mint))
          (ata derive user output_mint (dlmm_program_of pool output_mint))
  clmm :
      (pool : RaydiumClmmPool) (amount min_out : ℕ) (input_mint : Bytes) (side : ClmmDirection)
      (leg : Leg)
      → raydium_clmm_swap_leg derive user pool amount min_out input_mint ≡ some leg
      → clmm_direction pool input_mint ≡ some side
      → ExactInput derive user leg amount
          (ata derive user input_mint side.input_program)
          (ata derive user side.output_mint side.output_program)
  whirlpool :
      (pool : WhirlpoolPool) (amount min_out : ℕ) (input_mint : Bytes) (a_to_b : Bool) (leg : Leg)
      → whirlpool_swap_leg derive user pool amount min_out input_mint ≡ some leg
      → whirlpool_a_to_b pool input_mint ≡ some a_to_b
      → ExactInput derive user leg amount
          (whirlpool_owner derive user pool a_to_b)
          (whirlpool_owner derive user pool (not a_to_b))
  pumpswap_buy :
      (try_derive : TryDerive) (valid_accounts : PumpSwapPool → Bool) (pool : PumpSwapPool)
      (amount min_out : ℕ) (leg : Leg)
      → pumpswap_buy_leg try_derive valid_accounts derive user pool amount min_out ≡ some leg
      → ExactInput derive user leg amount
          (pumpswap_owner derive user pool false)
          (pumpswap_owner derive user pool true)
  pumpswap_sell :
      (try_derive : TryDerive) (valid_accounts : PumpSwapPool → Bool) (pool : PumpSwapPool)
      (amount min_out : ℕ) (leg : Leg)
      → pumpswap_sell_leg try_derive valid_accounts derive user pool amount min_out ≡ some leg
      → ExactInput derive user leg amount
          (pumpswap_owner derive user pool true)
          (pumpswap_owner derive user pool false)

abbrev PlacedSomehow : Leg → Bytes → Bytes → Bytes → ℕ → Type 0
PlacedSomehow leg user input output amount =
    (layout : DynamicLegLayout) × Placed leg user input output amount layout

placed :
    {derive : Derive} {user : Bytes} {leg : Leg} {amount : ℕ} {input output : Bytes}
    → ExactInput derive user leg amount input output
    → PlacedSomehow leg user input output amount
placed {user = user} (launchlab pool a m b q) = (_, launchlab-Placed user pool a m b q)
placed {user = user} (cpmm pool a m i o ia oa leg h) = (_, cpmm-Placed user pool a m i o ia oa h)
placed {derive = derive} {user = user} (amm_v4 pool a m i o leg h e) =
    (_, amm-Placed derive user pool a m i o h e)
placed {derive = derive} {user = user} (damm_v2 pool a m i side leg h e exact) =
    (_, damm-Placed derive user pool a m i side h e exact)
placed {derive = derive} {user = user} (dlmm pda pool a m i o leg h e) =
    (_, dlmm-Placed pda derive user pool a m i o h e)
placed {derive = derive} {user = user} (clmm pool a m i side leg h e) =
    (_, clmm-Placed derive user pool a m i side h e)
placed {derive = derive} {user = user} (whirlpool pool a m i a_to_b leg h e) =
    (_, whirlpool-Placed derive user pool a m i a_to_b h e)
placed {derive = derive} {user = user} (pumpswap_buy try_derive valid pool a m leg h) =
    (_, pumpswap_buy-Placed try_derive valid derive user pool a m h)
placed {derive = derive} {user = user} (pumpswap_sell try_derive valid pool a m leg h) =
    (_, pumpswap_sell-Placed try_derive valid derive user pool a m h)

-- What the program's layout of a leg finds in it.
pub record ReadsAs (leg : Leg) (user input output : Bytes) (amount : ℕ) (layout : DynamicSecondLeg)
    : Type 0 where
  pub accepts : dynamic_second_leg leg.program_id leg.payload ≡ ok layout
  pub amount_read : slice leg.payload layout.amount_offset 8 ≡ to_le_bytes 8 amount
  pub signer_is : (account_at leg layout.signer).pubkey ≡ user
  pub input_is : (account_at leg layout.input_account).pubkey ≡ input
  pub output_is : (account_at leg layout.output_account).pubkey ≡ output

reads_as :
    {leg : Leg} {user input output : Bytes} {amount : ℕ} {found : Option DynamicLegLayout}
    {program : Result DynamicSecondLeg} (layout : DynamicLegLayout)
    → Agrees leg.payload found program
    → found ≡ some layout
    → dynamic_second_leg leg.program_id leg.payload ≡ program
    → Placed leg user input output amount layout
    → (read : DynamicSecondLeg) × ReadsAs leg user input output amount read
reads_as layout refused e same p = absurd (none-ne-some layout e)
reads_as {leg = leg} {user = user} {input = input} {output = output} {amount = amount} layout
      (accepted sdk program i o s a hi ho hs ha range) e same p =
    let is : layout ≡ sdk = sym (some-injective e) in
    let amount_at = ap (λ (l : DynamicLegLayout). l.amount_offset) is ∙ a in
    let signer_at = ap (λ (l : DynamicLegLayout). l.signer) is ∙ s in
    let input_at = ap (λ (l : DynamicLegLayout). l.input_account) is ∙ i in
    let output_at = ap (λ (l : DynamicLegLayout). l.output_account) is ∙ o in
    (
      program,
      record {
        accepts = same;
        amount_read =
            subst (λ (k : ℕ). slice leg.payload k 8 ≡ to_le_bytes 8 amount) amount_at
              p.amount_bytes;
        signer_is = subst (λ (k : ℕ). (account_at leg k).pubkey ≡ user) signer_at p.signer;
        input_is = subst (λ (k : ℕ). (account_at leg k).pubkey ≡ input) input_at p.spends;
        output_is = subst (λ (k : ℕ). (account_at leg k).pubkey ≡ output) output_at p.receives;
      },
    )

-- Every leg that the exact-input builders of LaunchLab, Raydium CPMM, AMM V4 and CLMM, Meteora
-- DAMM V2 (in its exact-in mode) and DLMM, Orca Whirlpool and PumpSwap give for a user passes the
-- SDK's check of a dynamic leg at the user's two accounts, also in its zero-amount form if the
-- amount is zero; and the program accepts its data with a layout whose signer, input, output and
-- amount are the user, these accounts and the given amount.
pub ExactInput-accepted :
    (derive : Derive) (user : Bytes) (leg : Leg) (amount : ℕ) (input output : Bytes)
    → ExactInput derive user leg amount input output
    → (validate_dynamic_leg leg user input output (amount == 0) true ≡ some tt)
      × ((layout : DynamicSecondLeg) × ReadsAs leg user input output amount layout)
ExactInput-accepted derive user leg amount input output made =
    let (layout, p) = placed made in
    (
      Placed-valid p,
      reads_as layout (dynamic_leg_layout-Agrees leg.program_id leg.payload) p.known refl p,
    )
