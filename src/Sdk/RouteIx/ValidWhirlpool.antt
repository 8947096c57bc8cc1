-- ===== src/Sdk/RouteIx/ValidWhirlpool.antt =====
-- crates/sdk/src/legs.rs and crates/sdk/src/route_ix.rs: the Orca Whirlpool leg, with up to three
-- supplemental tick arrays, before the check of a dynamic leg.
use sol_trade_router_sdk.Base.{
  ℕ, suc, ◌+◌, ◌-◌, ◌≤◌, ◌≡◌, refl, sym, ap, ◌∙◌, Bool, true, false, not, some, List, [], ◌∷◌, ◌++◌,
  length, map, drop, ltb→le, subst, arith, if◌then◌else◌,
}
use sol_trade_router_sdk.Base.Bytes.{Bytes, bytes_eq}
use sol_trade_router_sdk.Base.Words.{to_le_bytes}
use sol_trade_router_sdk.Sdk.Fallible.{bind-eq-some, bailed-eq-some, some-injective}
use sol_trade_router_sdk.Sdk.Keys.{Derive, new}
use sol_trade_router_sdk.Sdk.Constants
use sol_trade_router_sdk.Sdk.Ata.{ata}
use sol_trade_router_sdk.Sdk.Legs.{Leg, encode_u64_pair}
use sol_trade_router_sdk.Sdk.Legs.Whirlpool.{
  whirlpool_swap_leg, whirlpool_accounts, whirlpool_a_to_b, remaining_info, flag_byte,
  whirlpool_sqrt_limit,
}
use sol_trade_router_sdk.Sdk.Quote.Snapshot.{WhirlpoolPool}
use sol_trade_router_sdk.Sdk.RouteIx.Layout.{
  DynamicLegLayout, layout_of, dynamic_leg_layout, whirlpool_leg_layout, whirlpool_dynamic_accounts,
}
use sol_trade_router_sdk.Sdk.RouteIx.Valid.{Placed}

abbrev whirlpool_layout_of : Bool → ℕ → DynamicLegLayout
whirlpool_layout_of a_to_b n =
    if a_to_b then layout_of 7 9 3 8 (15 + n) else layout_of 9 7 3 8 (15 + n)

abbrev whirlpool_payload : ℕ → ℕ → Bool → List Bytes → Bytes
whirlpool_payload amount_in min_out a_to_b ticks =
    encode_u64_pair Constants.whirlpool_swap_v2 amount_in min_out
    ++ (to_le_bytes 16 (whirlpool_sqrt_limit a_to_b)
        ++ (1 ∷ flag_byte a_to_b ∷ remaining_info (drop 3 ticks)))

whirlpool_known :
    (amount_in min_out : ℕ) (a_to_b : Bool) (t0 t1 t2 : Bytes) (rest : List Bytes)
    → length rest ≤ 3
    → dynamic_leg_layout Constants.orca_whirlpool_program
        (whirlpool_payload amount_in min_out a_to_b (t0 ∷ t1 ∷ t2 ∷ rest))
      ≡ some (whirlpool_layout_of a_to_b (length rest))
unfolding dynamic_leg_layout whirlpool_leg_layout whirlpool_dynamic_accounts bytes_eq to_le_bytes
    encode_u64_pair remaining_info flag_byte
whirlpool_known a m true t0 t1 t2 [] h = refl
whirlpool_known a m false t0 t1 t2 [] h = refl
whirlpool_known a m true t0 t1 t2 (x ∷ []) h = refl
whirlpool_known a m false t0 t1 t2 (x ∷ []) h = refl
whirlpool_known a m true t0 t1 t2 (x ∷ y ∷ []) h = refl
whirlpool_known a m false t0 t1 t2 (x ∷ y ∷ []) h = refl
whirlpool_known a m true t0 t1 t2 (x ∷ y ∷ z ∷ []) h = refl
whirlpool_known a m false t0 t1 t2 (x ∷ y ∷ z ∷ []) h = refl
whirlpool_known a m a_to_b t0 t1 t2 (x ∷ y ∷ z ∷ w ∷ rest) h = absurd (omega arith)

-- The user's account of the mint that is spent, and of the one that is bought.
abbrev pub whirlpool_owner : Derive → Bytes → WhirlpoolPool → Bool → Bytes
whirlpool_owner derive user pool is_a =
    if is_a
    then ata derive user pool.mint_a pool.token_program_a
    else ata derive user pool.mint_b pool.token_program_b

length-metas :
    (keys : List Bytes) → length (map (λ (key : Bytes). new key false) keys) ≡ length keys
length-metas [] = refl
length-metas (key ∷ keys) = ap suc (length-metas keys)

abbrev whirlpool_leg : Derive → Bytes → WhirlpoolPool → ℕ → ℕ → Bool → List Bytes → Leg
whirlpool_leg derive user pool amount_in min_out a_to_b ticks = record {
  program_id = Constants.orca_whirlpool_program;
  accounts = whirlpool_accounts derive user pool ticks;
  payload = whirlpool_payload amount_in min_out a_to_b ticks;
}

whirlpool_arranged :
    (derive : Derive) (user : Bytes) (pool : WhirlpoolPool) (amount_in min_out : ℕ) (a_to_b : Bool)
    (t0 t1 t2 : Bytes) (rest : List Bytes)
    → length rest ≤ 3
    → Placed
        (whirlpool_leg derive user pool amount_in min_out a_to_b (t0 ∷ t1 ∷ t2 ∷ rest))
        user
        (whirlpool_owner derive user pool a_to_b)
        (whirlpool_owner derive user pool (not a_to_b))
        amount_in
        (whirlpool_layout_of a_to_b (length rest))
unfolding whirlpool_accounts to_le_bytes encode_u64_pair
whirlpool_arranged derive user pool amount_in min_out true t0 t1 t2 rest few = record {
  known = whirlpool_known amount_in min_out true t0 t1 t2 rest few;
  enough = omega (arith, length-metas rest);
  signer = refl;
  signs = refl;
  spends = refl;
  writes_input = refl;
  receives = refl;
  writes_output = refl;
  amount_bytes = refl;
}
whirlpool_arranged derive user pool amount_in min_out false t0 t1 t2 rest few = record {
  known = whirlpool_known amount_in min_out false t0 t1 t2 rest few;
  enough = omega (arith, length-metas rest);
  signer = refl;
  signs = refl;
  spends = refl;
  writes_input = refl;
  receives = refl;
  writes_output = refl;
  amount_bytes = refl;
}

whirlpool_built :
    (derive : Derive) (user : Bytes) (pool : WhirlpoolPool) (amount_in min_out : ℕ) (a_to_b : Bool)
    (ticks : List Bytes)
    → 3 ≤ length ticks
    → length ticks ≤ 6
    → Placed
        (whirlpool_leg derive user pool amount_in min_out a_to_b ticks)
        user
        (whirlpool_owner derive user pool a_to_b)
        (whirlpool_owner derive user pool (not a_to_b))
        amount_in
        (whirlpool_layout_of a_to_b (length ticks - 3))
whirlpool_built derive user pool amount_in min_out a_to_b [] low high = absurd (omega arith)
whirlpool_built derive user pool amount_in min_out a_to_b (t0 ∷ []) low high = absurd (omega arith)
whirlpool_built derive user pool amount_in min_out a_to_b (t0 ∷ t1 ∷ []) low high =
    absurd (omega arith)
whirlpool_built derive user pool amount_in min_out a_to_b (t0 ∷ t1 ∷ t2 ∷ rest) low high =
    let count : length rest ≡ length (t0 ∷ t1 ∷ t2 ∷ rest) - 3 = omega arith in
    subst
      (λ (n : ℕ).
        Placed (whirlpool_leg derive user pool amount_in min_out a_to_b (t0 ∷ t1 ∷ t2 ∷ rest)) user
          (whirlpool_owner derive user pool a_to_b) (whirlpool_owner derive user pool (not a_to_b))
          amount_in (whirlpool_layout_of a_to_b n))
      count
      (whirlpool_arranged derive user pool amount_in min_out a_to_b t0 t1 t2 rest (omega arith))

pub whirlpool-Placed :
    (derive : Derive) (user : Bytes) (pool : WhirlpoolPool) (amount_in min_out : ℕ)
    (input_mint : Bytes) (a_to_b : Bool) {leg : Leg}
    → whirlpool_swap_leg derive user pool amount_in min_out input_mint ≡ some leg
    → whirlpool_a_to_b pool input_mint ≡ some a_to_b
    → Placed leg user
        (whirlpool_owner derive user pool a_to_b)
        (whirlpool_owner derive user pool (not a_to_b))
        amount_in
        (whirlpool_layout_of a_to_b (length pool.tick_arrays - 3))
unfolding whirlpool_swap_leg
whirlpool-Placed derive user pool amount_in min_out input_mint a_to_b {leg} h e =
    let (_, _, h1) = bind-eq-some _ _ h in
    let (low, h2) = bailed-eq-some _ _ h1 in
    let (high, h3) = bailed-eq-some _ _ h2 in
    let (_, _, h4) = bind-eq-some _ _ h3 in
    let (found_flag, found, h5) = bind-eq-some _ _ h4 in
    let (_, _, h6) = bind-eq-some _ _ h5 in
    let same : found_flag ≡ a_to_b = some-injective (sym found ∙ e) in
    let built : whirlpool_leg derive user pool amount_in min_out a_to_b pool.tick_arrays ≡ leg =
      ap (λ (b : Bool). whirlpool_leg derive user pool amount_in min_out b pool.tick_arrays)
        (sym same)
      ∙ some-injective h6 in
    subst
      (λ (l : Leg).
        Placed l user (whirlpool_owner derive user pool a_to_b)
          (whirlpool_owner derive user pool (not a_to_b)) amount_in
          (whirlpool_layout_of a_to_b (length pool.tick_arrays - 3)))
      built
      (whirlpool_built derive user pool amount_in min_out a_to_b pool.tick_arrays
        (ltb→le (length pool.tick_arrays) 3 low) (ltb→le 6 (length pool.tick_arrays) high))
