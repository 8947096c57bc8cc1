-- ===== src/Sdk/Quote/Cpmm/InverseLaws.antt =====
-- quote.rs: `cpmm_in_for_out` finds the least input, whenever there is one.
use sol_trade_router_sdk.Base.{
  ℕ, ◌+◌, ◌-◌, ◌*◌, ◌≤◌, ◌<◌, ◌≡◌, min, max, Bool, false, ltb, leb, ◌==◌, ne→==, ==→pos, le→ltb,
  ltb→le, leb→le, leb→lt, lt→leb, Bool-cases, Option-cases, inl, inr, ◌⊎◌, Option, some, arith,
  refl, sym, ◌∙◌,
}
use sol_trade_router_sdk.Base.Words.{
  IsU64, max_u64, max_u128, saturate, checked_to, checked_to_fits, div_ceil,
}
use sol_trade_router_sdk.Base.Arith.{div_ceil_covers, mul_mono, mul_u64_fits, saturate_exact}
use sol_trade_router_sdk.Sdk.TransferFee.{calculate}
use sol_trade_router_sdk.Sdk.TransferFee.Laws.{calculate_bounds, after_fee_mono}
use sol_trade_router_sdk.Sdk.Quote.Curve.{curve_reaches}
use sol_trade_router_sdk.Sdk.Quote.Cpmm.{CpmmPool, CpmmSides, cpmm_sides, cpmm_out}
use sol_trade_router_sdk.Sdk.Quote.Cpmm.Facts.{
  CpmmFits, SidesOk, swapped_exact, swapped_value_le, other_quoted, quoted, quoted_positive,
}
use sol_trade_router_sdk.Sdk.Quote.Cpmm.Laws.{cpmm_out_sound, cpmm_out_mono}
use sol_trade_router_sdk.Sdk.Quote.Cpmm.Search.{found, failed, highest_loop}
use sol_trade_router_sdk.Sdk.Quote.Cpmm.SearchLaws.{
  Reaches, ShortBelow, highest_loop-Highest, grow_loop-Reaches, lowest_loop-Reaches,
}
use sol_trade_router_sdk.Sdk.Quote.Cpmm.Inverse.{search_from, cpmm_in_for_out}

positive_factor : (a b : ℕ) → 1 ≤ a * b → 1 ≤ a
positive_factor a b h = grind arith

first_bounds :
    (lo top : ℕ)
    → lo ≤ top
    → top ≤ max_u64
    → (lo ≤ min (saturate max_u64 (saturate max_u64 (lo * 2) + 10000)) top)
      × (min (saturate max_u64 (saturate max_u64 (lo * 2) + 10000)) top ≤ top)
first_bounds lo top le small = (ground arith, ground arith)

module _ (pool : CpmmPool) (fits : CpmmFits pool) (base : Bool) where
  abbrev quote : ℕ → Option ℕ
  quote n = cpmm_out pool n base

  abbrev sides : CpmmSides
  sides = cpmm_sides pool base

  abbrev credit : ℕ → ℕ
  credit n = n - calculate sides.in_fee n

  -- The estimate that the search starts from.
  abbrev naive : ℕ → ℕ
  naive want = div_ceil (want * sides.input_reserve) (sides.output_reserve - want)

  -- No input below the estimate reaches the output.
  naive_le :
      (want n out : ℕ)
      → want < sides.output_reserve
      → quote n ≡ some out
      → want ≤ out
      → naive want ≤ n
  naive_le want n out below h enough =
      let q = quoted pool fits base n out h in
      let exact = swapped_exact pool sides q.fine (credit n) q.on_input q.room in
      let (net_in, net_le, on_curve) = swapped_value_le pool sides q.fine (credit n) q.on_input in
      let fine = q.fine in
      let (needs, _) =
        curve_reaches sides.input_reserve sides.output_reserve want net_in fine.in_positive below in
      let reached = needs (omega (arith, enough, q.value, exact, on_curve)) in
      omega (arith, reached, net_le)

  below_naive :
      (want : ℕ)
      → want < sides.output_reserve
      → 1 ≤ naive want
      → ShortBelow quote want (max (naive want) 1)
  below_naive want below start_pos smaller other under h = elim (Bool-cases (leb want other)) [
    | inl enough ↦ absurd (
        omega
          (arith, naive_le want smaller other below h (leb→le want other enough), under, start_pos))
    | inr less ↦ leb→lt want other less
  ]

  -- What one quote that is given says of the pool.
  module _ (given given_out : ℕ) (h : quote given ≡ some given_out) where
    fine : SidesOk pool sides
    fine = (quoted pool fits base given given_out h).fine

    credit_mono : (x y : ℕ) → x ≤ y → y ≤ max_u64 → credit x ≤ credit y
    credit_mono x y le small =
        let ok = fine in after_fee_mono sides.in_fee ok.in_fee_fits x y le (omega arith) ok.in_rate

    fee_covered : (n : ℕ) → n ≤ max_u64 → calculate sides.in_fee n ≤ n
    fee_covered n small =
        let ok = fine in (calculate_bounds sides.in_fee ok.in_fee_fits n (omega arith)).1 ok.in_rate

    -- Up to an input whose credit fits the vault every input is quoted.
    total_below :
        (top : ℕ)
        → top ≤ max_u64
        → sides.input_reserve + credit top ≤ max_u64
        → (n : ℕ) → 1 ≤ n
        → n ≤ top
        → (out : ℕ) × (quote n ≡ some out)
    total_below top small room n pos le =
        other_quoted pool base given given_out n h pos (fee_covered n (omega arith))
          (omega (arith, credit_mono n top le small, room))

    -- The search ends at the least input.
    search_from-Least :
        (want top : ℕ)
        → 0 < want
        → want < sides.output_reserve
        → 1 ≤ top
        → top ≤ max_u64
        → sides.input_reserve + credit top ≤ max_u64
        → Reaches quote want top
        → (r : ℕ) × (search_from pool sides want base top ≡ found r)
          × Reaches quote want r
          × ShortBelow quote want r
    unfolding search_from
    search_from-Least want top wanted below pos small room reached =
        let ok = fine in
        let (out, is, enough) = reached in
        let a = sides.input_reserve in
        let b = sides.output_reserve in
        let start_le = naive_le want top out below is enough in
        let covered = div_ceil_covers (want * a) (b - want) (omega arith) in
        let product = mul_mono 1 want 1 a wanted ok.in_positive in
        let start_pos = positive_factor (naive want) (b - want) (omega (arith, covered, product)) in
        let exact =
          saturate_exact max_u128 (want * a)
            (mul_u64_fits want a (omega (arith, ok.out_fits)) ok.in_fits) in
        let start_fits : checked_to max_u64 (div_ceil (saturate max_u128 (want * a)) (b - want))
            ≡ some (naive want) =
          rw exact (checked_to_fits max_u64 (naive want) (omega (arith, start_le))) in
        let lo = max (naive want) 1 in
        let hi = min (saturate max_u64 (saturate max_u64 (lo * 2) + 10000)) top in
        let (lo_hi, hi_top) = first_bounds lo top (omega (arith, start_le)) small in
        let total = total_below top small room in
        let (grown, grown_is, hi_grown, grown_top, grown_reached) =
          grow_loop-Reaches quote want top total small 64 hi (omega (arith, lo_hi)) hi_top
            (omega (arith, lo_hi, small)) reached in
        let (r, r_is, r_reached, r_short) =
          lowest_loop-Reaches quote want top total small
            (λ x y out_x out_y le below.
              cpmm_out_mono pool fits base x y out_x out_y le (omega arith))
            64 lo grown (omega arith) (omega (arith, lo_hi, hi_grown)) grown_top
            (omega (arith, small, grown_top)) (below_naive want below start_pos) grown_reached in
        (r, rw (start_fits, grown_is) r_is, r_reached, r_short)

    -- The largest input whose credit fits the vault.
    abbrev HighestInput : ℕ → Type 0
    HighestInput top =
        (top ≤ max_u64)
        × (sides.input_reserve + credit top ≤ max_u64)
        × ((n : ℕ) → n ≤ max_u64 → sides.input_reserve + credit n ≤ max_u64 → n ≤ top)

    highest_input :
        (top : ℕ) × (highest_loop 65 credit (max_u64 - sides.input_reserve) 0 max_u64 ≡ found top)
        × HighestInput top
    highest_input =
        let ok = fine in
        let a = sides.input_reserve in
        let a_fits = ok.in_fits in
        let (top, is, (small, fits_top, above)) =
          highest_loop-Highest credit (max_u64 - a) credit_mono 64 0 max_u64 (omega arith)
            (omega arith) (omega arith) (omega arith) (λ n past le. absurd (omega arith)) in
        (
          top,
          is,
          (
            small,
            omega (arith, fits_top, a_fits),
            λ n n_small room. elim (Bool-cases (leb n top)) [
              | inl le ↦ leb→le n top le
              | inr past ↦ absurd (omega (arith, above n (leb→lt n top past) n_small, room, a_fits))
            ],
          ),
        )

  -- What the inverse promises: an input that reaches the output, and no smaller one that does.
  abbrev pub Least : ℕ → ℕ → Type 0
  Least want amount_in = Reaches quote want amount_in × ShortBelow quote want amount_in

  -- Where some u64 input reaches the output, the inverse is given and is the least such input.
  pub cpmm_in_for_out-Least :
      (want given given_out : ℕ)
      → 0 < want
      → IsU64 given
      → quote given ≡ some given_out
      → want ≤ given_out
      → (amount_in : ℕ) × (cpmm_in_for_out pool want base ≡ found amount_in) × Least want amount_in
  unfolding cpmm_in_for_out
  cpmm_in_for_out-Least want given given_out wanted given_fits h enough =
      let q = quoted pool fits base given given_out h in
      let (below, _) = cpmm_out_sound pool fits base given given_out h in
      let (top, top_is, (small, room, highest)) = highest_input given given_out h in
      let given_le = highest given (omega arith) q.room in
      let given_pos = quoted_positive pool base given given_out h in
      let (one_out, one_is) =
        total_below given given_out h top small room 1 (omega arith)
          (omega (arith, given_le, given_pos)) in
      let (top_out, top_out_is) =
        total_below given given_out h top small room top (omega (arith, given_le, given_pos))
          (omega arith) in
      let more =
        cpmm_out_mono pool fits base given top given_out top_out given_le (omega (arith, small)) h
          top_out_is in
      let (r, r_is, r_reached, r_short) =
        search_from-Least given given_out h want top wanted (omega (arith, below, enough))
          (omega (arith, given_le, given_pos)) small room
          (top_out, top_out_is, omega (arith, more, enough)) in
      (
        r,
        rw
            (
              ne→== want 0 (λ e. absurd (omega (arith, e, wanted))),
              lt→leb sides.output_reserve want (omega (arith, below, enough)),
              one_is,
              top_is,
              ne→== top 0 (λ e. absurd (omega (arith, e, given_le, given_pos))),
              top_out_is,
              le→ltb top_out want (omega (arith, more, enough)),
            )
            r_is,
        (r_reached, r_short),
      )

  -- The least input is at most any other that reaches the output.
  Least-IsU64 :
      (want n out r : ℕ) → IsU64 n → quote n ≡ some out → want ≤ out → Least want r → IsU64 r
  Least-IsU64 want n out r small h enough (reached, short) = elim (Bool-cases (leb r n)) [
    | inl le ↦ omega (arith, leb→le r n le, small)
    | inr past ↦ absurd (omega (arith, short n out (leb→lt r n past) h, enough))
  ]

  fails_or_reaches :
      (want : ℕ)
      → 0 < want
      → (cpmm_in_for_out pool want base ≡ failed)
        ⊎ ((n n_out : ℕ) × (IsU64 n × (quote n ≡ some n_out) × (want ≤ n_out)))
  unfolding cpmm_in_for_out
  fails_or_reaches want wanted =
      let some_wanted : want == 0 ≡ false = ne→== want 0 (λ e. absurd (omega (arith, e, wanted))) in
      elim (Bool-cases (leb sides.output_reserve want)) [
        | inl beyond ↦ inl (rw (some_wanted, beyond) refl)
        | inr below ↦ elim (Option-cases (quote 1)) [
          | inl unquoted ↦ inl (rw (some_wanted, below, unquoted) refl)
          | inr (one_out, one_is) ↦
              let (top, top_is, (small, room, highest)) = highest_input 1 one_out one_is in
              elim (Bool-cases (top == 0)) [
                | inl nothing ↦ inl (rw (some_wanted, below, one_is, top_is, nothing) refl)
                | inr something ↦
                    let top_pos = ==→pos top something in
                    let (top_out, top_out_is) =
                      total_below 1 one_out one_is top small room top (omega (arith, top_pos))
                        (omega arith) in
                    elim (Bool-cases (ltb top_out want)) [
                      | inl less ↦ inl (
                          rw (some_wanted, below, one_is, top_is, something, top_out_is, less) refl)
                      | inr enough ↦ inr (
                        top,
                        top_out,
                        (omega (arith, small), top_out_is, ltb→le top_out want enough),
                      )
                    ]
              ]
        ]
      ]

  -- A failure means that no input reaches the output.
  Failed : ℕ → Type 0
  Failed want = cpmm_in_for_out pool want base ≡ failed

  no_input :
      (want : ℕ) → 0 < want → Failed want → (n out : ℕ) → IsU64 n → quote n ≡ some out → out < want
  unfolding Failed
  no_input want wanted fails n out small h = elim (Bool-cases (leb want out)) [
    | inr less ↦ leb→lt want out less
    | inl enough ↦
        let (r, r_is, _) =
          cpmm_in_for_out-Least want n out wanted small h (leb→le want out enough) in
        cc (sym r_is ∙ fails)
  ]

  -- For a CPMM pool whose fields fit their types and a positive output, the inverse ends within
  -- its fuel: either it fails, and then no u64 input is quoted as much, or it returns a u64 input
  -- that is quoted at least the output, of which no smaller quoted input gives as much.
  pub cpmm_in_for_out_decides :
      (want : ℕ)
      → 0 < want
      → ((cpmm_in_for_out pool want base ≡ failed)
          × ((n out : ℕ) → IsU64 n → quote n ≡ some out → out < want))
        ⊎ ((amount_in : ℕ) × (cpmm_in_for_out pool want base ≡ found amount_in)
            × IsU64 amount_in
            × Least want amount_in)
  unfolding Failed
  cpmm_in_for_out_decides want wanted = elim (fails_or_reaches want wanted) [
    | inl fails ↦ inl (fails, no_input want wanted fails)
    | inr (n, n_out, (small, h, enough)) ↦
        let (r, r_is, least) = cpmm_in_for_out-Least want n n_out wanted small h enough in
        inr (r, r_is, Least-IsU64 want n n_out r small h enough least, least)
  ]
