-- ===== src/Sdk/Quote/Cpmm/SearchLaws.antt =====
-- quote.rs: each loop of `cpmm_in_for_out` ends within its fuel, at the bound that it searches for.
use sol_trade_router_sdk.Base.{
  ℕ, zero, suc, ◌+◌, ◌-◌, ◌*◌, ◌/◌, ◌%◌, ◌^◌, ◌≤◌, ◌<◌, ◌≡◌, min, max, ltb, leb, leb→le, leb→lt,
  ltb→lt, ltb→le, le→ltb, Bool-cases, inl, inr, Option, some, arith, refl, ap, ◌∙◌, subst, ◌⊎◌,
}
use native.Mathlib.Nat.{pow-suc}
use sol_trade_router_sdk.Base.Words.{max_u64, saturate}
use sol_trade_router_sdk.Base.Arith.{mul_mono}
use sol_trade_router_sdk.Sdk.Quote.Cpmm.Search.{found, highest_loop, grow_loop, lowest_loop}

module _ (credit : ℕ → ℕ) (capacity : ℕ)
    (mono : (x y : ℕ) → x ≤ y → y ≤ max_u64 → credit x ≤ credit y) where
  -- The bound up to which the credit fits.
  abbrev pub Highest : ℕ → Type 0
  Highest r =
      (r ≤ max_u64) × (credit r ≤ capacity) × ((n : ℕ) → r < n → n ≤ max_u64 → capacity < credit n)

  pub highest_loop-Highest :
      (fuel lo hi : ℕ)
      → lo ≤ hi
      → hi ≤ max_u64
      → hi - lo < 2 ^ fuel
      → credit lo ≤ capacity
      → ((n : ℕ) → hi < n → n ≤ max_u64 → capacity < credit n)
      → (r : ℕ) × (highest_loop (suc fuel) credit capacity lo hi ≡ found r) × Highest r
  unfolding highest_loop
  highest_loop-Highest zero lo hi ordered small near fits above =
      let same : lo ≡ hi = omega (arith, near) in
      (
        lo,
        rw (le→ltb lo hi (omega arith)) refl,
        (omega arith, fits, λ n past top. above n (omega arith) top),
      )
  highest_loop-Highest (suc fuel) lo hi ordered small near fits above =
      elim (Bool-cases (ltb lo hi)) [
        | inr done ↦ (
          lo,
          rw done refl,
          (omega arith, fits, λ n past top. above n (omega (arith, ltb→le lo hi done)) top),
        )
        | inl more ↦
            let distance = hi - lo in
            let mid = lo + distance / 2 + distance % 2 in
            let apart = ltb→lt lo hi more in
            let half = pow-suc 2 fuel in
            elim (Bool-cases (leb (credit mid) capacity)) [
              | inl low ↦
                  rw (more, low)
                    (highest_loop-Highest fuel mid hi (omega arith) small
                      (omega (arith, half, near)) (leb→le _ _ low) above)
              | inr high ↦
                  rw (more, high)
                    (highest_loop-Highest fuel lo (mid - 1) (omega (arith, apart)) (omega arith)
                      (omega (arith, half, near, apart)) fits
                      (λ n past top.
                        omega
                          (arith, leb→lt _ _ high, mono mid n (omega (arith, apart, past)) top)))
            ]
      ]

next_bounds :
    (hi top : ℕ)
    → 1 ≤ hi
    → hi ≤ top
    → top ≤ max_u64
    → (hi ≤ min (max (saturate max_u64 (hi * 2)) (saturate max_u64 (hi + 1))) top)
      × (min (max (saturate max_u64 (hi * 2)) (saturate max_u64 (hi + 1))) top ≤ top)
      × ((hi * 2 ≤ min (max (saturate max_u64 (hi * 2)) (saturate max_u64 (hi + 1))) top)
          ⊎ (min (max (saturate max_u64 (hi * 2)) (saturate max_u64 (hi + 1))) top ≡ top))
next_bounds hi top pos inside small = elim (Bool-cases (leb (hi * 2) top)) [
  | inl low ↦ let fits = leb→le _ _ low in (ground arith, ground arith, inl (ground arith))
  | inr high ↦ let past = leb→lt _ _ high in (ground arith, ground arith, inr (ground arith))
]

doubled : (hi next p : ℕ) → hi * 2 ≤ next → hi * (p * 2) ≤ next * p
doubled hi next p h =
    let turned : hi * (p * 2) ≡ hi * 2 * p = grind arith in
    omega (arith, turned, mul_mono (hi * 2) next p p h (omega arith))

power_pos : (k : ℕ) → 1 ≤ 2 ^ k
power_pos zero = omega arith
power_pos (suc k) = omega (arith, power_pos k, pow-suc 2 k)

scaled : (top p : ℕ) → 1 ≤ p → top ≤ top * p
scaled top p h = grind arith

next_wide :
    (hi next top fuel : ℕ)
    → (hi * 2 ≤ next) ⊎ (next ≡ top)
    → top ≤ hi * 2 ^ suc fuel
    → top ≤ next * 2 ^ fuel
next_wide hi next top fuel (inl twice) wide =
    let turned : hi * 2 ^ suc fuel ≡ hi * (2 ^ fuel * 2) =
      ap (λ (t : ℕ). hi * t) (pow-suc 2 fuel) in
    omega (arith, wide, turned, doubled hi next (2 ^ fuel) twice)
next_wide hi next top fuel (inr full) wide = rw full (scaled top (2 ^ fuel) (power_pos fuel))

-- What an input reaches, and that no smaller one that is quoted does.
module _ (quote : ℕ → Option ℕ) (want : ℕ) where
  abbrev pub Reaches : ℕ → Type 0
  Reaches n = (out : ℕ) × (quote n ≡ some out) × (want ≤ out)

  abbrev pub ShortBelow : ℕ → Type 0
  ShortBelow n = (smaller out : ℕ) → smaller < n → quote smaller ≡ some out → out < want

  module _ (top : ℕ) (total : (n : ℕ) → 1 ≤ n → n ≤ top → (out : ℕ) × (quote n ≡ some out))
      (small : top ≤ max_u64) where
    -- Each round at least doubles the bound, until it is the top.
    pub grow_loop-Reaches :
        (fuel hi : ℕ)
        → 1 ≤ hi
        → hi ≤ top
        → top ≤ hi * 2 ^ fuel
        → Reaches top
        → (r : ℕ) × (grow_loop (suc fuel) quote want top hi ≡ found r)
          × (hi ≤ r)
          × (r ≤ top)
          × Reaches r
    unfolding grow_loop
    grow_loop-Reaches zero hi pos inside wide (out, is, enough) =
        let same : hi ≡ top = omega (arith, wide) in
        let here : quote hi ≡ some out = ap quote same ∙ is in
        (hi, rw (here, le→ltb out want enough) refl, omega arith, inside, (out, here, enough))
    grow_loop-Reaches (suc fuel) hi pos inside wide reached =
        let (out, is) = total hi pos inside in
        elim (Bool-cases (ltb out want)) [
          | inr enough ↦
              (hi, rw (is, enough) refl, omega arith, inside, (out, is, ltb→le out want enough))
          | inl less ↦
              let next = min (max (saturate max_u64 (hi * 2)) (saturate max_u64 (hi + 1))) top in
              let (up, down, twice) = next_bounds hi top pos inside small in
              let (r, r_is, above, below, r_reached) =
                grow_loop-Reaches fuel next (omega (arith, up)) down
                  (next_wide hi next top fuel twice wide) reached in
              (r, rw (is, less) r_is, omega (arith, up, above), below, r_reached)
        ]

    module _
        (mono : (x y out_x out_y : ℕ)
          → x ≤ y
          → y ≤ top
          → quote x ≡ some out_x
          → quote y ≡ some out_y
          → out_x ≤ out_y) where
      pub lowest_loop-Reaches :
          (fuel lo hi : ℕ)
          → 1 ≤ lo
          → lo ≤ hi
          → hi ≤ top
          → hi - lo < 2 ^ fuel
          → ShortBelow lo
          → Reaches hi
          → (r : ℕ) × (lowest_loop (suc fuel) quote want lo hi ≡ found r) × Reaches r × ShortBelow r
      unfolding lowest_loop
      lowest_loop-Reaches zero lo hi pos ordered inside near short reached =
          let same : hi ≡ lo = omega (arith, near) in
          (lo, rw (le→ltb lo hi (omega (arith, same))) refl, subst Reaches same reached, short)
      lowest_loop-Reaches (suc fuel) lo hi pos ordered inside near short reached =
          elim (Bool-cases (ltb lo hi)) [
            | inr done ↦
                let same : hi ≡ lo = omega (arith, ltb→le lo hi done) in
                (lo, rw done refl, subst Reaches same reached, short)
            | inl more ↦
                let mid = lo + (hi - lo) / 2 in
                let apart = ltb→lt lo hi more in
                let half = pow-suc 2 fuel in
                let (out, is) = total mid (omega arith) (omega (arith, apart)) in
                elim (Bool-cases (leb want out)) [
                  | inl enough ↦
                      let (r, r_is, r_reached, r_short) =
                        lowest_loop-Reaches fuel lo mid pos (omega arith) (omega (arith, apart))
                          (omega (arith, half, near)) short (out, is, leb→le want out enough) in
                      (r, rw (more, is, enough) r_is, r_reached, r_short)
                  | inr less ↦
                      let below = leb→lt want out less in
                      let (r, r_is, r_reached, r_short) =
                        lowest_loop-Reaches fuel (mid + 1) hi (omega arith) (omega (arith, apart))
                          inside (omega (arith, half, near, apart))
                          (λ smaller other under quoted. omega (
                            arith,
                            below,
                            mono smaller mid other out (omega (arith, under)) (omega (arith, apart))
                                quoted is,
                          ))
                          reached in
                      (r, rw (more, is, less) r_is, r_reached, r_short)
                ]
          ]
