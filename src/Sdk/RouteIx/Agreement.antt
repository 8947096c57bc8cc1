-- ===== src/Sdk/RouteIx/Agreement.antt =====
-- crates/sdk/src/route_ix.rs and programs/sol-trade-router/src/instructions/route.rs: the SDK's layouts
-- of dynamic legs against the program's.
use sol_trade_router_sdk.Base.{
  ℕ, ◌+◌, ◌≤◌, ◌<◌, ◌==◌, ◌≡◌, refl, Bool, true, false, Option, none, some, List, [], ◌∷◌, length,
  any, arith, leb, ◌&&◌, ◌||◌, if◌then◌else◌,
}
use sol_trade_router_sdk.Base.Bytes.{Bytes, bytes_eq, slice}
use sol_trade_router_sdk.Program.Error.{Result, ok, fail, RouterError}
use sol_trade_router_sdk.Program.Route.Layout.{
  DynamicSecondLeg, dynamic_second_leg, layout, whirlpool_layout, no_account,
  orca_whirlpool_program_id, clmm_swap_v2,
}
use sol_trade_router_sdk.Program.Route.Layout.Total.{
  byte, has_tag, whirlpool_remaining, accepts_launchlab_buy, accepts_cpmm_swap,
  accepts_pumpswap_buy, accepts_pumpswap_sell, accepts_amm_v4_swap, accepts_clmm_swap,
  accepts_dlmm_swap, accepts_damm_v2_swap, accepts_whirlpool_swap, second_leg,
}
use sol_trade_router_sdk.Program.Route.Layout.InBounds.{dynamic_second_leg-total}
use sol_trade_router_sdk.Program.Route.Checks.{out_of_range, required}
use sol_trade_router_sdk.Program.Ledger.{AccountView}
use sol_trade_router_sdk.Sdk.RouteIx.Layout.{
  DynamicLegLayout, layout_of, dynamic_leg_layout, whirlpool_leg_layout, whirlpool_dynamic_accounts,
}

-- Among so many accounts, the program's check finds every index of the layout in range.
abbrev pub InRange : ℕ → DynamicSecondLeg → Type 0
InRange n layout =
    (accounts : List AccountView)
    → n ≤ length accounts
    → any (out_of_range accounts) (required layout) ≡ false

-- The two sides refuse the data, or accept it with one layout; the accounts that the layout names are
-- among those that the SDK asks for, and the amount lies in the data.
pub data Agrees (d : Bytes) : Option DynamicLegLayout → Result DynamicSecondLeg → Type 0 where
  refused : Agrees d none (fail RouterError.invalid_dynamic_leg)
  accepted :
      (sdk : DynamicLegLayout) (program : DynamicSecondLeg)
      → sdk.input_account ≡ program.input_account
      → sdk.output_account ≡ program.output_account
      → sdk.signer ≡ program.signer
      → sdk.amount_offset ≡ program.amount_offset
      → program.input_account < sdk.minimum_accounts
      → program.output_account < sdk.minimum_accounts
      → program.signer < sdk.minimum_accounts
      → program.amount_offset + 8 ≤ length d
      → InRange sdk.minimum_accounts program
      → Agrees d (some sdk) (ok program)

-- One arm of the two chains, under one condition.
agree_arm :
    (d : Bytes) (c : Bool) (s s' : Option DynamicLegLayout) (p p' : Result DynamicSecondLeg)
    → (c ≡ true → Agrees d s p)
    → Agrees d s' p'
    → Agrees d (if c then s else s') (if c then p else p')
agree_arm d true s s' p p' here further = here refl
agree_arm d false s s' p p' here further = further

-- An index that is in range among so many accounts, or that names no account.
Named : ℕ → ℕ → Type 0
Named n i = (accounts : List AccountView) → n ≤ length accounts → out_of_range accounts i ≡ false

below : {n i : ℕ} → i < n → Named n i
unfolding Named
below h accounts enough = ground arith

absent : (n : ℕ) → Named n no_account
unfolding Named
absent n accounts enough = refl

-- Two layouts that name the same accounts, each below the number that the SDK asks for.
same_layout :
    {d : Bytes} (i o s a n im ip om op : ℕ) (paired : Bool)
    → i < n
    → o < n
    → s < n
    → a + 8 ≤ length d
    → Named n im
    → Named n ip
    → Named n om
    → Named n op
    → Agrees d (some (layout_of i o s a n)) (ok (layout i o s a im ip om op paired))
unfolding Named
same_layout i o s a n im ip om op paired hi ho hs ha nim nip nom nop =
    accepted _ _ refl refl refl refl hi ho hs ha (λ accounts enough.
      rw
        (
          below hi accounts enough,
          below ho accounts enough,
          below hs accounts enough,
          nim accounts enough,
          nip accounts enough,
          nom accounts enough,
          nop accounts enough,
        )
        refl)

-- The length that a condition of the chain tests is long enough for what is read.
length_of_three : (n m k : ℕ) (a c : Bool) → (a && m == n && c) ≡ true → k ≤ n → k ≤ m
length_of_three n m k a c h le = ground arith

length_of_four : (n m k : ℕ) (a c b : Bool) → (a && m == n && c && b) ≡ true → k ≤ n → k ≤ m
length_of_four n m k a c b h le = ground arith

whirlpool_arm :
    (d : Bytes) (n : ℕ) (x t f g a : Bool)
    → 9 < n
    → 16 ≤ length d
    → Agrees d
        (if x && t && f && g
          then (if a then some (layout_of 7 9 3 8 n) else some (layout_of 9 7 3 8 n))
          else none)
        (if x && true && t && f && g
          then ok (whirlpool_layout a)
          else fail RouterError.invalid_dynamic_leg)
whirlpool_arm d n false t f g a hn hd = refused
whirlpool_arm d n true false f g a hn hd = refused
whirlpool_arm d n true true false g a hn hd = refused
whirlpool_arm d n true true true false a hn hd = refused
whirlpool_arm d n true true true true true hn hd =
    same_layout 7 9 3 8 n 5 0 6 1 false (omega arith) hn (omega arith) hd (below (omega arith))
      (below (omega arith)) (below (omega arith)) (below (omega arith))
whirlpool_arm d n true true true true false hn hd =
    same_layout 9 7 3 8 n 6 1 5 0 false hn (omega arith) (omega arith) hd (below (omega arith))
      (below (omega arith)) (below (omega arith)) (below (omega arith))

whirlpool_none :
    {d : Bytes} (x t f g : Bool) (p : Result DynamicSecondLeg)
    → Agrees d none (if x && false && t && f && g then p else fail RouterError.invalid_dynamic_leg)
whirlpool_none false t f g p = refused
whirlpool_none true t f g p = refused

whirlpool_any :
    (program d : Bytes) (c43 c49 : Bool) (k : ℕ)
    → (c43 ≡ true → 16 ≤ length d)
    → (c49 ≡ true → 16 ≤ length d)
    → Agrees d
        (whirlpool_leg_layout program d
          (if c43 then some 15 else if c49 then some (15 + k) else none))
        (if bytes_eq program orca_whirlpool_program_id
            && (c43 || c49)
            && has_tag d clmm_swap_v2
            && byte d 40 == 1
            && leb (byte d 41) 1
          then ok (whirlpool_layout (byte d 41 == 1))
          else fail RouterError.invalid_dynamic_leg)
unfolding whirlpool_leg_layout
whirlpool_any program d true c49 k h43 h49 =
    whirlpool_arm d 15 (bytes_eq program orca_whirlpool_program_id) (has_tag d clmm_swap_v2)
      (byte d 40 == 1) (leb (byte d 41) 1) (byte d 41 == 1) (omega arith) (h43 refl)
whirlpool_any program d false true k h43 h49 =
    whirlpool_arm d (15 + k) (bytes_eq program orca_whirlpool_program_id) (has_tag d clmm_swap_v2)
      (byte d 40 == 1) (leb (byte d 41) 1) (byte d 41 == 1) (omega arith) (h49 refl)
whirlpool_any program d false false k h43 h49 =
    whirlpool_none (bytes_eq program orca_whirlpool_program_id) (has_tag d clmm_swap_v2)
      (byte d 40 == 1) (leb (byte d 41) 1) _

whirlpool_leg_layout-Agrees :
    (program d : Bytes)
    → Agrees d (whirlpool_leg_layout program d (whirlpool_dynamic_accounts d)) (
        if accepts_whirlpool_swap program d
        then ok (whirlpool_layout (byte d 41 == 1))
        else fail RouterError.invalid_dynamic_leg)
unfolding whirlpool_dynamic_accounts accepts_whirlpool_swap whirlpool_remaining
whirlpool_leg_layout-Agrees program d =
    whirlpool_any program d (length d == 43 && byte d 42 == 0)
      (length d == 49
        && bytes_eq (slice d 42 6) (1 ∷ 1 ∷ 0 ∷ 0 ∷ 0 ∷ 6 ∷ [])
        && (leb 1 (byte d 48) && leb (byte d 48) 3))
      (byte d 48) (λ e. length_43 (length d) _ e) (λ e. length_49 (length d) _ _ e)
  where
    length_43 : (m : ℕ) (b : Bool) → (m == 43 && b) ≡ true → 16 ≤ m
    length_43 m b h = ground arith

    length_49 : (m : ℕ) (b c : Bool) → (m == 49 && b && c) ≡ true → 16 ≤ m
    length_49 m b c h = ground arith

second_leg-Agrees :
    (program d : Bytes) → Agrees d (dynamic_leg_layout program d) (second_leg program d)
unfolding dynamic_leg_layout second_leg accepts_launchlab_buy accepts_cpmm_swap accepts_pumpswap_buy
    accepts_pumpswap_sell accepts_amm_v4_swap accepts_clmm_swap accepts_dlmm_swap
    accepts_damm_v2_swap
second_leg-Agrees program d =
    agree_arm d (accepts_launchlab_buy program d) _ _ _ _
      (λ e.
        same_layout 6 5 0 8 13 10 12 9 11 false (omega arith) (omega arith) (omega arith)
          (length_of_four 32 _ _ _ _ _ e (omega arith)) (below (omega arith)) (below (omega arith))
          (below (omega arith)) (below (omega arith)))
      (agree_arm d (accepts_cpmm_swap program d) _ _ _ _
        (λ e.
          same_layout 4 5 0 8 12 10 8 11 9 false (omega arith) (omega arith) (omega arith)
            (length_of_three 24 _ _ _ _ e (omega arith)) (below (omega arith)) (below (omega arith))
            (below (omega arith)) (below (omega arith)))
        (agree_arm d (accepts_pumpswap_buy program d) _ _ _ _
          (λ e.
            same_layout 6 5 1 8 13 4 12 3 11 false (omega arith) (omega arith) (omega arith)
              (length_of_four 25 _ _ _ _ _ e (omega arith)) (below (omega arith))
              (below (omega arith)) (below (omega arith)) (below (omega arith)))
          (agree_arm d (accepts_pumpswap_sell program d) _ _ _ _
            (λ e.
              same_layout 5 6 1 8 13 3 11 4 12 false (omega arith) (omega arith) (omega arith)
                (length_of_three 24 _ _ _ _ e (omega arith)) (below (omega arith))
                (below (omega arith)) (below (omega arith)) (below (omega arith)))
            (agree_arm d (accepts_amm_v4_swap program d) _ _ _ _
              (λ e.
                same_layout 5 6 7 1 8 no_account 0 no_account 0 false (omega arith) (omega arith)
                  (omega arith) (length_of_three 17 _ _ _ _ e (omega arith)) (absent _)
                  (below (omega arith)) (absent _) (below (omega arith)))
              (agree_arm d (accepts_clmm_swap program d) _ _ _ _
                (λ e.
                  same_layout 3 4 0 8 13 11 no_account 12 no_account false (omega arith)
                    (omega arith) (omega arith) (length_of_four 41 _ _ _ _ _ e (omega arith))
                    (below (omega arith)) (absent _) (below (omega arith)) (absent _))
                (agree_arm d (accepts_dlmm_swap program d) _ _ _ _
                  (λ e.
                    same_layout 4 5 10 8 13 6 11 7 12 true (omega arith) (omega arith) (omega arith)
                      (length_of_four 28 _ _ _ _ _ e (omega arith)) (below (omega arith))
                      (below (omega arith)) (below (omega arith)) (below (omega arith)))
                  (agree_arm d (accepts_damm_v2_swap program d) _ _ _ _
                    (λ e.
                      same_layout 2 3 8 8 11 6 9 7 10 true (omega arith) (omega arith) (omega arith)
                        (length_of_four 25 _ _ _ _ _ e (omega arith)) (below (omega arith))
                        (below (omega arith)) (below (omega arith)) (below (omega arith)))
                    (whirlpool_leg_layout-Agrees program d))))))))

-- For every program and all data the SDK and the program agree on a dynamic leg: both refuse it,
-- or both accept it with one input, output and signer index and one amount offset; the amount lies
-- in the data, and among the accounts that the SDK asks for, every index that the program reads is
-- in range.
pub dynamic_leg_layout-Agrees :
    (program d : Bytes) → Agrees d (dynamic_leg_layout program d) (dynamic_second_leg program d)
dynamic_leg_layout-Agrees program d =
    rw (dynamic_second_leg-total program d) (second_leg-Agrees program d)
