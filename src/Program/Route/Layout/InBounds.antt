-- ===== src/Program/Route/Layout/InBounds.antt =====
-- route.rs: the switch of the dynamic legs indexes within bounds, since the length test in each
-- condition stands before what it reads; so it is the switch with total reads.
use sol_trade_router_sdk.Base.{
  ℕ, suc, zero, ◌-◌, ◌≤◌, ◌<◌, ◌≡◌, refl, Bool, true, false, ◌&&◌, ◌||◌, [], ◌∷◌, length, get_elem?,
  ◌==◌, if◌then◌else◌, ==→eq, le→leb, arith,
}
use sol_trade_router_sdk.Base.Bytes.{Bytes, bytes_eq, slice, get_range}
use sol_trade_router_sdk.Program.Error.{Result, ok, index, or_else, and_then, ◌>>=◌}
use sol_trade_router_sdk.Program.Route.Layout.{
  whirlpool_layout, reads, branch, starts_with, valid_whirlpool_remaining_accounts,
  is_launchlab_buy, is_cpmm_swap, is_pumpswap_buy, is_pumpswap_sell, is_amm_v4_swap, is_clmm_swap,
  is_dlmm_swap, is_damm_v2_swap, is_whirlpool_swap, dynamic_second_leg, clmm_swap_v2,
  orca_whirlpool_program_id,
}
use sol_trade_router_sdk.Program.Route.Layout.Total.{
  byte, has_tag, whirlpool_remaining, accepts_launchlab_buy, accepts_cpmm_swap,
  accepts_pumpswap_buy, accepts_pumpswap_sell, accepts_amm_v4_swap, accepts_clmm_swap,
  accepts_dlmm_swap, accepts_damm_v2_swap, accepts_whirlpool_swap, second_leg,
}

-- A read in bounds is the total read.
reads-get_range :
    (d : Bytes) (i j : ℕ) (p : Bytes → Bool)
    → i ≤ j
    → j ≤ length d
    → reads (get_range d i j) p ≡ ok (p (slice d i (j - i)))
unfolding index ◌>>=◌
reads-get_range d i j p h k = rw (le→leb i j h, le→leb j (length d) k) refl

index-get_elem? : (d : Bytes) (i : ℕ) → i < length d → index (get_elem? d i) ≡ ok (byte d i)
unfolding index
index-get_elem? [] i h = absurd (omega arith)
index-get_elem? (x ∷ d) zero h = refl
index-get_elem? (x ∷ d) (suc i) h = index-get_elem? d i (omega arith)

reads-get_elem? :
    (d : Bytes) (i : ℕ) (p : ℕ → Bool) → i < length d → reads (get_elem? d i) p ≡ ok (p (byte d i))
unfolding ◌>>=◌
reads-get_elem? d i p h = rw (index-get_elem? d i h) refl

and_then-ok :
    (m n : Result Bool) (a b : Bool) → m ≡ ok a → (a ≡ true → n ≡ ok b) → and_then m n ≡ ok (a && b)
unfolding and_then
and_then-ok m n true b left right = rw left (right refl)
and_then-ok m n false b left right = rw left refl

or_else-ok : (m n : Result Bool) (a b : Bool) → m ≡ ok a → n ≡ ok b → or_else m n ≡ ok (a || b)
unfolding or_else
or_else-ok m n true b left right = rw left refl
or_else-ok m n false b left right = rw left right

branch-ok {ℓ} :
    {A : Type ℓ} (test : Result Bool) (b : Bool) (m m' n n' : Result A)
    → test ≡ ok b
    → (b ≡ true → m ≡ m')
    → n ≡ n'
    → branch test m n ≡ (if b then m' else n')
unfolding ◌>>=◌
branch-ok test true m m' n n' is here further = rw is (here refl)
branch-ok test false m m' n n' is here further = rw is further

-- A program and a length are tested before the rest of the condition.
len_of_two : (m n : ℕ) (a : Bool) → (a && m == n) ≡ true → m ≡ n
len_of_two m n a h = ground arith

len_of_three : (m n : ℕ) (a b : Bool) → (a && m == n && b) ≡ true → m ≡ n
len_of_three m n a b h = ground arith

one_read :
    (d : Bytes) (a : Bool) (n : ℕ) (m : Result Bool) (b : Bool)
    → (length d ≡ n → m ≡ ok b)
    → and_then (ok (a && length d == n)) m ≡ ok (a && length d == n && b)
one_read d a n m b rest =
    and_then-ok _ _ (a && length d == n) b refl λ e. rest (len_of_two (length d) n a e)

two_reads :
    (d : Bytes) (a : Bool) (n : ℕ) (m m' : Result Bool) (b b' : Bool)
    → (length d ≡ n → m ≡ ok b)
    → (length d ≡ n → m' ≡ ok b')
    → and_then (and_then (ok (a && length d == n)) m) m' ≡ ok (a && length d == n && b && b')
two_reads d a n m m' b b' first second =
    and_then-ok _ _ (a && length d == n && b) b' (one_read d a n m b first)
      λ e. second (len_of_three (length d) n a b e)

starts_with-ok : (d tag : Bytes) → 8 ≤ length d → starts_with d tag ≡ ok (has_tag d tag)
starts_with-ok d tag h = reads-get_range d 0 8 (λ x. bytes_eq x tag) (omega arith) h

module _ (p d : Bytes) where
  is_launchlab_buy-total : is_launchlab_buy p d ≡ ok (accepts_launchlab_buy p d)
  unfolding is_launchlab_buy accepts_launchlab_buy
  is_launchlab_buy-total =
      two_reads d _ 32 _ _ _ _ (λ is. starts_with-ok d _ (omega (arith, is)))
        (λ is. reads-get_range d 24 32 _ (omega arith) (omega (arith, is)))

  is_cpmm_swap-total : is_cpmm_swap p d ≡ ok (accepts_cpmm_swap p d)
  unfolding is_cpmm_swap accepts_cpmm_swap
  is_cpmm_swap-total = one_read d _ 24 _ _ λ is. starts_with-ok d _ (omega (arith, is))

  is_pumpswap_buy-total : is_pumpswap_buy p d ≡ ok (accepts_pumpswap_buy p d)
  unfolding is_pumpswap_buy accepts_pumpswap_buy
  is_pumpswap_buy-total =
      two_reads d _ 25 _ _ _ _ (λ is. starts_with-ok d _ (omega (arith, is)))
        (λ is. reads-get_elem? d 24 _ (omega (arith, is)))

  is_pumpswap_sell-total : is_pumpswap_sell p d ≡ ok (accepts_pumpswap_sell p d)
  unfolding is_pumpswap_sell accepts_pumpswap_sell
  is_pumpswap_sell-total = one_read d _ 24 _ _ λ is. starts_with-ok d _ (omega (arith, is))

  is_amm_v4_swap-total : is_amm_v4_swap p d ≡ ok (accepts_amm_v4_swap p d)
  unfolding is_amm_v4_swap accepts_amm_v4_swap
  is_amm_v4_swap-total = one_read d _ 17 _ _ λ is. reads-get_elem? d 0 _ (omega (arith, is))

  is_clmm_swap-total : is_clmm_swap p d ≡ ok (accepts_clmm_swap p d)
  unfolding is_clmm_swap accepts_clmm_swap
  is_clmm_swap-total =
      two_reads d _ 41 _ _ _ _ (λ is. starts_with-ok d _ (omega (arith, is)))
        (λ is. reads-get_elem? d 40 _ (omega (arith, is)))

  is_dlmm_swap-total : is_dlmm_swap p d ≡ ok (accepts_dlmm_swap p d)
  unfolding is_dlmm_swap accepts_dlmm_swap
  is_dlmm_swap-total =
      two_reads d _ 28 _ _ _ _ (λ is. starts_with-ok d _ (omega (arith, is)))
        (λ is. reads-get_range d 24 28 _ (omega arith) (omega (arith, is)))

  is_damm_v2_swap-total : is_damm_v2_swap p d ≡ ok (accepts_damm_v2_swap p d)
  unfolding is_damm_v2_swap accepts_damm_v2_swap
  is_damm_v2_swap-total =
      two_reads d _ 25 _ _ _ _ (λ is. starts_with-ok d _ (omega (arith, is)))
        (λ is. reads-get_elem? d 24 _ (omega (arith, is)))

  remaining-total : valid_whirlpool_remaining_accounts d ≡ ok (whirlpool_remaining d)
  unfolding valid_whirlpool_remaining_accounts whirlpool_remaining
  remaining-total =
      or_else-ok _ _ _ _
        (and_then-ok _ _ _ _ refl λ e. reads-get_elem? d 42 _ (omega (arith, ==→eq _ _ e)))
        (two_reads d true 49 _ _ _ _
          (λ is. reads-get_range d 42 48 _ (omega arith) (omega (arith, is)))
          (λ is. reads-get_elem? d 48 _ (omega (arith, is))))

  whirlpool_long : (x t b : Bool) → (x && whirlpool_remaining d && t && b) ≡ true → 43 ≤ length d
  unfolding whirlpool_remaining
  whirlpool_long x t b h = ground arith

  is_whirlpool_swap-total : is_whirlpool_swap p d ≡ ok (accepts_whirlpool_swap p d)
  unfolding is_whirlpool_swap accepts_whirlpool_swap
  is_whirlpool_swap-total =
      let x = bytes_eq p orca_whirlpool_program_id in
      let t = has_tag d clmm_swap_v2 in
      let b = byte d 40 == 1 in
      let tagged =
        and_then-ok _ _ (x && whirlpool_remaining d) t
          (and_then-ok _ _ x (whirlpool_remaining d) refl λ _. remaining-total)
          λ e. starts_with-ok d _ (omega (arith, whirlpool_long x true true (ground arith))) in
      let fixed =
        and_then-ok _ _ (x && whirlpool_remaining d && t) b tagged
          λ e. reads-get_elem? d 40 _ (omega (arith, whirlpool_long x t true (ground arith))) in
      and_then-ok _ _ (x && whirlpool_remaining d && t && b) _ fixed
        λ e. reads-get_elem? d 41 _ (omega (arith, whirlpool_long x t b e))

  whirlpool_swap_long : accepts_whirlpool_swap p d ≡ true → 43 ≤ length d
  unfolding accepts_whirlpool_swap whirlpool_remaining
  whirlpool_swap_long h = ground arith

  direction :
      43 ≤ length d
      → (index (get_elem? d 41) >>= λ a. ok (whirlpool_layout (a == 1)))
        ≡ ok (whirlpool_layout (byte d 41 == 1))
  unfolding ◌>>=◌
  direction long = rw (index-get_elem? d 41 (omega (arith, long))) refl

  -- The switch of the program is the total one.
  pub dynamic_second_leg-total : dynamic_second_leg p d ≡ second_leg p d
  unfolding dynamic_second_leg second_leg
  dynamic_second_leg-total =
      branch-ok _ _ _ _ _ _ is_launchlab_buy-total (λ _. refl)
        (branch-ok _ _ _ _ _ _ is_cpmm_swap-total (λ _. refl)
          (branch-ok _ _ _ _ _ _ is_pumpswap_buy-total (λ _. refl)
            (branch-ok _ _ _ _ _ _ is_pumpswap_sell-total (λ _. refl)
              (branch-ok _ _ _ _ _ _ is_amm_v4_swap-total (λ _. refl)
                (branch-ok _ _ _ _ _ _ is_clmm_swap-total (λ _. refl)
                  (branch-ok _ _ _ _ _ _ is_dlmm_swap-total (λ _. refl)
                    (branch-ok _ _ _ _ _ _ is_damm_v2_swap-total (λ _. refl)
                      (branch-ok _ _ _ _ _ _ is_whirlpool_swap-total
                        (λ h. direction (whirlpool_swap_long h)) refl))))))))
