-- ===== src/Sdk/RouteIx/Layout.antt =====
-- crates/sdk/src/route_ix.rs: the layouts of the exact-input swaps that a dynamic leg may be, and the
-- check of such a leg. An indexing stands behind a test that keeps it in bounds; `none` is an error.
use sol_trade_router_sdk.Base.{
  ℕ, ◌+◌, Bool, false, not, ◌&&◌, ◌||◌, Option, none, some, [], ◌∷◌, length, get_or, ltb, leb, ◌==◌,
  if◌then◌else◌,
}
use sol_trade_router_sdk.Base.Bytes.{Bytes, bytes_eq, slice, zeros}
use sol_trade_router_sdk.Sdk.Fallible.{◌>>=◌, ◌>>◌, bail_if}
use sol_trade_router_sdk.Sdk.Keys.{AccountMeta, new_readonly}
use sol_trade_router_sdk.Sdk.Constants
use sol_trade_router_sdk.Sdk.Legs.{Leg}

pub record DynamicLegLayout : Type 0 where
  pub input_account : ℕ
  pub output_account : ℕ
  pub signer : ℕ
  pub amount_offset : ℕ
  pub minimum_accounts : ℕ

abbrev data_at : Bytes → ℕ → ℕ
data_at d i = get_or d i 0

unfoldable pub whirlpool_dynamic_accounts : Bytes → Option ℕ
whirlpool_dynamic_accounts d =
    if length d == 43 && data_at d 42 == 0
    then some 15
    else if length d == 49
        && bytes_eq (slice d 42 6) (1 ∷ 1 ∷ 0 ∷ 0 ∷ 0 ∷ 6 ∷ [])
        && (leb 1 (data_at d 48) && leb (data_at d 48) 3)
    then some (15 + data_at d 48)
    else none

-- The tuple of the source.
abbrev pub layout_of : ℕ → ℕ → ℕ → ℕ → ℕ → DynamicLegLayout
layout_of input output signer offset minimum = record {
  input_account = input;
  output_account = output;
  signer = signer;
  amount_offset = offset;
  minimum_accounts = minimum;
}

-- The chain's last arm: `whirlpool_dynamic_accounts(d)` is some number there.
unfoldable pub whirlpool_leg_layout : Bytes → Bytes → Option ℕ → Option DynamicLegLayout
whirlpool_leg_layout program d none = none
whirlpool_leg_layout program d (some accounts) =
    if bytes_eq program Constants.orca_whirlpool_program
      && bytes_eq (slice d 0 8) Constants.whirlpool_swap_v2
      && data_at d 40 == 1
      && leb (data_at d 41) 1
    then (if data_at d 41 == 1
        then some (layout_of 7 9 3 8 accounts)
        else some (layout_of 9 7 3 8 accounts))
    else none

unfoldable pub dynamic_leg_layout : Bytes → Bytes → Option DynamicLegLayout
dynamic_leg_layout program d =
    if bytes_eq program Constants.launchlab_program
      && length d == 32
      && bytes_eq (slice d 0 8) Constants.buy_exact_in_launchlab
      && bytes_eq (slice d 24 8) (zeros 8)
    then some (layout_of 6 5 0 8 13)
    else if bytes_eq program Constants.raydium_cpmm_program
        && length d == 24
        && bytes_eq (slice d 0 8) Constants.cpmm_swap_base_in
    then some (layout_of 4 5 0 8 12)
    else if bytes_eq program Constants.pumpswap_program
        && length d == 25
        && bytes_eq (slice d 0 8) Constants.pumpswap_buy_exact_quote_in
        && leb (data_at d 24) 1
    then some (layout_of 6 5 1 8 13)
    else if bytes_eq program Constants.pumpswap_program
        && length d == 24
        && bytes_eq (slice d 0 8) Constants.pumpswap_sell
    then some (layout_of 5 6 1 8 13)
    else if bytes_eq program Constants.raydium_amm_v4_program
        && length d == 17
        && data_at d 0 == Constants.raydium_amm_v4_swap_base_in_v2
    then some (layout_of 5 6 7 1 8)
    else if bytes_eq program Constants.raydium_clmm_program
        && length d == 41
        && bytes_eq (slice d 0 8) Constants.clmm_swap_v2
        && data_at d 40 == 1
    then some (layout_of 3 4 0 8 13)
    else if bytes_eq program Constants.meteora_dlmm_program
        && length d == 28
        && bytes_eq (slice d 0 8) Constants.meteora_dlmm_swap2
        && bytes_eq (slice d 24 4) (zeros 4)
    then some (layout_of 4 5 10 8 13)
    else if bytes_eq program Constants.meteora_damm_v2_program
        && length d == 25
        && bytes_eq (slice d 0 8) Constants.meteora_damm_v2_swap2
        && data_at d 24 == Constants.meteora_damm_v2_exact_in
    then some (layout_of 2 3 8 8 11)
    else whirlpool_leg_layout program d (whirlpool_dynamic_accounts d)

-- `leg.accounts[i]`, in bounds; the default is never read.
abbrev pub account_at : Leg → ℕ → AccountMeta
account_at leg i = get_or leg.accounts i (new_readonly [] false)

unfoldable pub validate_dynamic_leg : Leg → Bytes → Bytes → Bytes → Bool → Bool → Option (Unit {0})
validate_dynamic_leg leg payer input output require_zero_amount allow_launchlab = do
  bail_if (not allow_launchlab && bytes_eq leg.program_id Constants.launchlab_program)
  layout ← dynamic_leg_layout leg.program_id leg.payload
  bail_if (
      ltb (length leg.accounts) layout.minimum_accounts
      || not (bytes_eq (account_at leg layout.signer).pubkey payer)
      || not (account_at leg layout.signer).is_signer
      || not (bytes_eq (account_at leg layout.input_account).pubkey input)
      || not (account_at leg layout.input_account).is_writable
      || not (bytes_eq (account_at leg layout.output_account).pubkey output)
      || not (account_at leg layout.output_account).is_writable
      || (require_zero_amount
          && not (bytes_eq (slice leg.payload layout.amount_offset 8) (zeros 8))))
