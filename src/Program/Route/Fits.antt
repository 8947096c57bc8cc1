-- ===== src/Program/Route/Fits.antt =====
-- route.rs: a leg that `dynamic_second_leg` accepts fits the scratch buffer, holds its amount field,
-- and names accounts that the bounds test in `validate_dynamic_accounts` covers.
use sol_trade_router_sdk.Base.{◌+◌, ◌≤◌, ◌≡◌, sym, ◌∙◌, true, length, arith}
use sol_trade_router_sdk.Base.Bytes.{Bytes}
use sol_trade_router_sdk.Program.Error.{ok}
use sol_trade_router_sdk.Program.Route.Layout.{
  DynamicSecondLeg, max_dynamic_leg_data, dynamic_second_leg,
}
use sol_trade_router_sdk.Program.Route.Layout.Total.{
  whirlpool_remaining, accepts_launchlab_buy, accepts_cpmm_swap, accepts_pumpswap_buy,
  accepts_pumpswap_sell, accepts_amm_v4_swap, accepts_clmm_swap, accepts_dlmm_swap,
  accepts_damm_v2_swap, accepts_whirlpool_swap, second_leg,
}
use sol_trade_router_sdk.Program.Route.Layout.InBounds.{dynamic_second_leg-total}

-- The length of the data that each condition accepts.
module _ (p d : Bytes) where
  launchlab_len : accepts_launchlab_buy p d ≡ true → length d ≡ 32
  unfolding accepts_launchlab_buy
  launchlab_len h = ground arith

  cpmm_len : accepts_cpmm_swap p d ≡ true → length d ≡ 24
  unfolding accepts_cpmm_swap
  cpmm_len h = ground arith

  pumpswap_buy_len : accepts_pumpswap_buy p d ≡ true → length d ≡ 25
  unfolding accepts_pumpswap_buy
  pumpswap_buy_len h = ground arith

  pumpswap_sell_len : accepts_pumpswap_sell p d ≡ true → length d ≡ 24
  unfolding accepts_pumpswap_sell
  pumpswap_sell_len h = ground arith

  amm_v4_len : accepts_amm_v4_swap p d ≡ true → length d ≡ 17
  unfolding accepts_amm_v4_swap
  amm_v4_len h = ground arith

  clmm_len : accepts_clmm_swap p d ≡ true → length d ≡ 41
  unfolding accepts_clmm_swap
  clmm_len h = ground arith

  dlmm_len : accepts_dlmm_swap p d ≡ true → length d ≡ 28
  unfolding accepts_dlmm_swap
  dlmm_len h = ground arith

  damm_v2_len : accepts_damm_v2_swap p d ≡ true → length d ≡ 25
  unfolding accepts_damm_v2_swap
  damm_v2_len h = ground arith

  whirlpool_len : accepts_whirlpool_swap p d ≡ true → (43 ≤ length d) × (length d ≤ 49)
  unfolding accepts_whirlpool_swap whirlpool_remaining
  whirlpool_len h = ground arith

-- The amount lies inside the data, the data inside the scratch buffer, and the three accounts that
-- are always read have indices.
pub record Fits (layout : DynamicSecondLeg) (d : Bytes) : Type 0 where
  pub amount_inside : layout.amount_offset + 8 ≤ length d
  pub data_short : length d ≤ max_dynamic_leg_data
  pub input_named : layout.input_account ≤ 9
  pub output_named : layout.output_account ≤ 9
  pub signer_named : layout.signer ≤ 10
  pub mints_named :
      layout.paired_mints ≡ true
      → (layout.input_mint ≤ 12)
        × (layout.output_mint ≤ 12)
        × (layout.input_program ≤ 12)
        × (layout.output_program ≤ 12)

second_leg-Fits :
    (p d : Bytes) (layout : DynamicSecondLeg) → second_leg p d ≡ ok layout → Fits layout d
unfolding second_leg
second_leg-Fits p d layout h = ground (
  arith,
  launchlab_len p d,
  cpmm_len p d,
  pumpswap_buy_len p d,
  pumpswap_sell_len p d,
  amm_v4_len p d,
  clmm_len p d,
  dlmm_len p d,
  damm_v2_len p d,
  whirlpool_len p d,
)

-- A leg that the dynamic switch accepts has at most 49 bytes of data, holds its amount field
-- inside them, and has a layout whose signer, input and output indices, and mint and program
-- indices where mints are paired, are small enough for the bounds test to cover them.
pub dynamic_second_leg-Fits :
    (p d : Bytes) (layout : DynamicSecondLeg) → dynamic_second_leg p d ≡ ok layout → Fits layout d
dynamic_second_leg-Fits p d layout h =
    second_leg-Fits p d layout (sym (dynamic_second_leg-total p d) ∙ h)
