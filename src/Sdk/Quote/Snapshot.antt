-- ===== src/Sdk/Quote/Snapshot.antt =====
-- crates/sdk/src/quote.rs: the markets that are quoted from a snapshot, with their pools of
-- crates/sdk/src/market.rs. The market's name in the error message is left out.
use sol_trade_router_sdk.Base.{
  ℕ, ◌≡◌, ◌↔◌, Bool, not, ◌==◌, ==→eq, ==→ne, not-eq-false, Bool-cases, inl, inr, if◌then◌else◌,
  Option, none, some, List, none-ne-some, arith, ap, ◌∙◌,
}
use sol_trade_router_sdk.Base.Bytes.{Bytes, bytes_eq, bytes_eq→eq, bytes_eq_refl}
use sol_trade_router_sdk.Sdk.Fallible.{
  bail_if, ◌>>=◌, ◌>>◌, bind-eq-some, bailed-eq-some, some-injective,
}

pub record MeteoraDammV2Pool : Type 0 where
  pub pool : Bytes
  pub token_a_vault : Bytes
  pub token_b_vault : Bytes
  pub token_a_mint : Bytes
  pub token_b_mint : Bytes
  pub token_a_program : Bytes
  pub token_b_program : Bytes
  pub token_a_reserve : ℕ
  pub token_b_reserve : ℕ
  pub fee_bps : ℕ
  pub quoted_amount_in : Option ℕ
  pub quoted_input_mint : Option Bytes
  pub expected_out : Option ℕ
  pub swap_mode : ℕ
  pub referral_token_account : Option Bytes
  pub include_rate_limiter_sysvar : Bool

pub record RaydiumClmmPool : Type 0 where
  pub amm_config : Bytes
  pub pool_state : Bytes
  pub observation_state : Bytes
  pub token_0_mint : Bytes
  pub token_1_mint : Bytes
  pub token_0_vault : Bytes
  pub token_1_vault : Bytes
  pub token_0_program : Bytes
  pub token_1_program : Bytes
  pub tick_arrays : List Bytes
  pub tick_array_bitmap_extension : Option Bytes
  pub quoted_amount_in : Option ℕ
  pub quoted_input_mint : Option Bytes
  pub expected_out : Option ℕ
  pub fee_bps : ℕ

pub record WhirlpoolPool : Type 0 where
  pub whirlpool : Bytes
  pub mint_a : Bytes
  pub mint_b : Bytes
  pub vault_a : Bytes
  pub vault_b : Bytes
  pub token_program_a : Bytes
  pub token_program_b : Bytes
  pub tick_arrays : List Bytes
  pub quoted_amount_in : Option ℕ
  pub quoted_input_mint : Option Bytes
  pub expected_out : Option ℕ
  pub fee_bps : ℕ

pub record MeteoraDlmmPool : Type 0 where
  pub lb_pair : Bytes
  pub bitmap_extension : Option Bytes
  pub reserve_x : Bytes
  pub reserve_y : Bytes
  pub token_x_mint : Bytes
  pub token_y_mint : Bytes
  pub token_x_program : Bytes
  pub token_y_program : Bytes
  pub oracle : Bytes
  pub bin_arrays : List Bytes
  pub quoted_amount_in : Option ℕ
  pub quoted_input_mint : Option Bytes
  pub expected_out : Option ℕ
  pub fee_bps : ℕ

unfoldable pub snapshot_expected_out : Option ℕ → Option ℕ → ℕ → Option ℕ
snapshot_expected_out expected_out quoted_amount_in amount_in = expected_out >>= λ expected.
    quoted_amount_in >>= λ qin. if qin == amount_in then some expected else none

unfoldable pub meteora_damm_v2_out : MeteoraDammV2Pool → ℕ → Bool → Option ℕ
meteora_damm_v2_out pool amount_in input_is_a =
    let input = if input_is_a then pool.token_a_mint else pool.token_b_mint in
    pool.quoted_input_mint >>= λ mint.
    bail_if (not (bytes_eq mint input))
    >> snapshot_expected_out pool.expected_out pool.quoted_amount_in amount_in

unfoldable pub raydium_clmm_out : RaydiumClmmPool → ℕ → Option ℕ
raydium_clmm_out pool amount_in =
    snapshot_expected_out pool.expected_out pool.quoted_amount_in amount_in

unfoldable pub whirlpool_out : WhirlpoolPool → ℕ → Option ℕ
whirlpool_out pool amount_in =
    snapshot_expected_out pool.expected_out pool.quoted_amount_in amount_in

unfoldable pub meteora_dlmm_out : MeteoraDlmmPool → ℕ → Option ℕ
meteora_dlmm_out pool amount_in =
    snapshot_expected_out pool.expected_out pool.quoted_amount_in amount_in

-- A snapshot is quoted exactly for the amount that it was taken for.
snapshot_iff :
    (expected_out quoted_amount_in : Option ℕ) (amount_in out : ℕ)
    → (snapshot_expected_out expected_out quoted_amount_in amount_in ≡ some out)
      ↔ ((expected_out ≡ some out) × (quoted_amount_in ≡ some amount_in))
unfolding snapshot_expected_out ◌>>=◌
snapshot_iff none quoted amount_in out = ground arith
snapshot_iff (some expected) none amount_in out = ground arith
snapshot_iff (some expected) (some qin) amount_in out = elim (Bool-cases (qin == amount_in)) [
  | inl e ↦ (λ h. (rw e at h, ap some (==→eq qin amount_in e)), λ h. rw e h.0)
  | inr e ↦ (
    λ h. absurd (none-ne-some out (rw e at h)),
    λ h. absurd (==→ne qin amount_in e (some-injective h.1)),
  )
]

bound :
    (input : Bytes) {rest : Option ℕ} {r : Option ℕ}
    → rest ≡ r
    → (some input >>= λ mint. bail_if (not (bytes_eq mint input)) >> rest) ≡ r
unfolding ◌>>=◌ bail_if
bound input h = rw (bytes_eq_refl input) h

-- A Meteora DAMM V2 output is quoted exactly where the snapshot holds it for this amount and for
-- the input mint of this direction.
pub meteora_damm_v2_iff :
    (pool : MeteoraDammV2Pool) (amount_in : ℕ) (input_is_a : Bool) (out : ℕ)
    → (meteora_damm_v2_out pool amount_in input_is_a ≡ some out) ↔ (
        (pool.expected_out ≡ some out)
        × (pool.quoted_amount_in ≡ some amount_in)
        × (pool.quoted_input_mint
            ≡ some (if input_is_a then pool.token_a_mint else pool.token_b_mint)))
unfolding meteora_damm_v2_out
meteora_damm_v2_iff pool amount_in input_is_a out =
    let input = if input_is_a then pool.token_a_mint else pool.token_b_mint in
    let (to, from) = snapshot_iff pool.expected_out pool.quoted_amount_in amount_in out in
    (
      λ h.
          let (mint, mint_is, h1) = bind-eq-some _ _ h in
          let (same, h2) = bailed-eq-some _ _ h1 in
          let (expected, amount) = to h2 in
          (expected, amount, mint_is ∙ ap some (bytes_eq→eq mint input (not-eq-false _ same))),
      λ h. let (expected, amount, mint) = h in rw mint (bound input (from (expected, amount))),
    )
