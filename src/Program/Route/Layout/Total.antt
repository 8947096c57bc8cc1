-- ===== src/Program/Route/Layout/Total.antt =====
-- route.rs: the switch of the dynamic legs with total reads in place of its indexing, for the proofs.
use sol_trade_router_sdk.Base.{
  ℕ, Bool, true, false, ◌&&◌, ◌||◌, [], ◌∷◌, length, get_or, leb, ◌==◌, if◌then◌else◌,
}
use sol_trade_router_sdk.Base.Bytes.{Bytes, bytes_eq, slice, zeros}
use sol_trade_router_sdk.Program.Error.{Result, ok, fail, RouterError}
use sol_trade_router_sdk.Program.Route.Layout.{
  DynamicSecondLeg, layout, whirlpool_layout, no_account, clmm_swap_v2, cpmm_swap_base_in,
  launchlab_buy_exact_in, launchlab_program_id, meteora_damm_v2_program_id, meteora_dlmm_program_id,
  meteora_dlmm_swap2, orca_whirlpool_program_id, pumpswap_buy_exact_quote_in, pumpswap_program_id,
  pumpswap_sell, raydium_amm_v4_program_id, raydium_clmm_program_id, raydium_cpmm_program_id,
}

-- `data[i]`, zero out of bounds
abbrev pub byte : Bytes → ℕ → ℕ
byte d i = get_or d i 0

-- The first bytes, fewer where the data is shorter.
abbrev pub has_tag : Bytes → Bytes → Bool
has_tag d tag = bytes_eq (slice d 0 8) tag

unfoldable pub whirlpool_remaining : Bytes → Bool
whirlpool_remaining d =
    (length d == 43 && byte d 42 == 0)
    || (length d == 49
        && bytes_eq (slice d 42 6) (1 ∷ 1 ∷ 0 ∷ 0 ∷ 0 ∷ 6 ∷ [])
        && (leb 1 (byte d 48) && leb (byte d 48) 3))

unfoldable pub accepts_launchlab_buy : Bytes → Bytes → Bool
accepts_launchlab_buy program d =
    bytes_eq program launchlab_program_id
    && length d == 32
    && has_tag d launchlab_buy_exact_in
    && bytes_eq (slice d 24 8) (zeros 8)

unfoldable pub accepts_cpmm_swap : Bytes → Bytes → Bool
accepts_cpmm_swap program d =
    bytes_eq program raydium_cpmm_program_id && length d == 24 && has_tag d cpmm_swap_base_in

unfoldable pub accepts_pumpswap_buy : Bytes → Bytes → Bool
accepts_pumpswap_buy program d =
    bytes_eq program pumpswap_program_id
    && length d == 25
    && has_tag d pumpswap_buy_exact_quote_in
    && leb (byte d 24) 1

unfoldable pub accepts_pumpswap_sell : Bytes → Bytes → Bool
accepts_pumpswap_sell program d =
    bytes_eq program pumpswap_program_id && length d == 24 && has_tag d pumpswap_sell

unfoldable pub accepts_amm_v4_swap : Bytes → Bytes → Bool
accepts_amm_v4_swap program d =
    bytes_eq program raydium_amm_v4_program_id && length d == 17 && byte d 0 == 16

unfoldable pub accepts_clmm_swap : Bytes → Bytes → Bool
accepts_clmm_swap program d =
    bytes_eq program raydium_clmm_program_id
    && length d == 41
    && has_tag d clmm_swap_v2
    && byte d 40 == 1

unfoldable pub accepts_dlmm_swap : Bytes → Bytes → Bool
accepts_dlmm_swap program d =
    bytes_eq program meteora_dlmm_program_id
    && length d == 28
    && has_tag d meteora_dlmm_swap2
    && bytes_eq (slice d 24 4) (zeros 4)

unfoldable pub accepts_damm_v2_swap : Bytes → Bytes → Bool
accepts_damm_v2_swap program d =
    bytes_eq program meteora_damm_v2_program_id
    && length d == 25
    && has_tag d meteora_dlmm_swap2
    && byte d 24 == 0

unfoldable pub accepts_whirlpool_swap : Bytes → Bytes → Bool
accepts_whirlpool_swap program d =
    bytes_eq program orca_whirlpool_program_id
    && whirlpool_remaining d
    && has_tag d clmm_swap_v2
    && byte d 40 == 1
    && leb (byte d 41) 1

unfoldable pub second_leg : Bytes → Bytes → Result DynamicSecondLeg
second_leg program d =
    if accepts_launchlab_buy program d
    then ok (layout 6 5 0 8 10 12 9 11 false)
    else if accepts_cpmm_swap program d
    then ok (layout 4 5 0 8 10 8 11 9 false)
    else if accepts_pumpswap_buy program d
    then ok (layout 6 5 1 8 4 12 3 11 false)
    else if accepts_pumpswap_sell program d
    then ok (layout 5 6 1 8 3 11 4 12 false)
    else if accepts_amm_v4_swap program d
    then ok (layout 5 6 7 1 no_account 0 no_account 0 false)
    else if accepts_clmm_swap program d
    then ok (layout 3 4 0 8 11 no_account 12 no_account false)
    else if accepts_dlmm_swap program d
    then ok (layout 4 5 10 8 6 11 7 12 true)
    else if accepts_damm_v2_swap program d
    then ok (layout 2 3 8 8 6 9 7 10 true)
    else if accepts_whirlpool_swap program d
    then ok (whirlpool_layout (byte d 41 == 1))
    else fail RouterError.invalid_dynamic_leg
