-- ===== src/Program/Route/Layout.antt =====
-- route.rs: the DEX programs, and the layouts of the exact-input swaps that a dynamic leg may be.
-- An index out of bounds panics, and a condition is evaluated from the left and no further than it
-- decides.
pub mod Total
pub mod InBounds
use sol_trade_router_sdk.Base.{
  ℕ, ◌^◌, ◌-◌, Bool, true, false, ◌&&◌, Option, [], ◌∷◌, length, get_elem?, leb, ◌==◌,
  if◌then◌else◌,
}
use sol_trade_router_sdk.Base.Bytes.{Bytes, bytes_eq, get_range, zeros}
use sol_trade_router_sdk.Program.Error.{
  Result, ok, fail, RouterError, index, or_else, and_then, ◌>>=◌,
}

abbrev pub launchlab_program_id : Bytes
launchlab_program_id =
    5 ∷ 4 ∷ 59 ∷ 149 ∷ 77 ∷ 202 ∷ 38 ∷ 225 ∷ 239 ∷ 145 ∷ 181 ∷ 44 ∷ 79 ∷ 143 ∷ 137 ∷ 175 ∷ 138 ∷ 111
    ∷ 90 ∷ 200 ∷ 198 ∷ 33 ∷ 86 ∷ 241 ∷ 113 ∷ 207 ∷ 15 ∷ 33 ∷ 172 ∷ 81 ∷ 201 ∷ 34 ∷ []

abbrev pub raydium_cpmm_program_id : Bytes
raydium_cpmm_program_id =
    169 ∷ 42 ∷ 90 ∷ 139 ∷ 79 ∷ 41 ∷ 89 ∷ 82 ∷ 132 ∷ 37 ∷ 80 ∷ 170 ∷ 147 ∷ 253 ∷ 91 ∷ 149 ∷ 181 ∷ 172
    ∷ 230 ∷ 168 ∷ 235 ∷ 146 ∷ 12 ∷ 147 ∷ 148 ∷ 46 ∷ 67 ∷ 105 ∷ 12 ∷ 32 ∷ 236 ∷ 115 ∷ []

abbrev pub meteora_dlmm_program_id : Bytes
meteora_dlmm_program_id =
    4 ∷ 233 ∷ 225 ∷ 47 ∷ 188 ∷ 132 ∷ 232 ∷ 38 ∷ 201 ∷ 50 ∷ 204 ∷ 233 ∷ 226 ∷ 100 ∷ 12 ∷ 206 ∷ 21
    ∷ 89 ∷ 12 ∷ 28 ∷ 98 ∷ 115 ∷ 176 ∷ 146 ∷ 87 ∷ 8 ∷ 186 ∷ 59 ∷ 133 ∷ 32 ∷ 176 ∷ 188 ∷ []

abbrev pub raydium_amm_v4_program_id : Bytes
raydium_amm_v4_program_id =
    75 ∷ 217 ∷ 73 ∷ 196 ∷ 54 ∷ 2 ∷ 195 ∷ 63 ∷ 32 ∷ 119 ∷ 144 ∷ 237 ∷ 22 ∷ 163 ∷ 82 ∷ 76 ∷ 161 ∷ 185
    ∷ 151 ∷ 92 ∷ 241 ∷ 33 ∷ 162 ∷ 169 ∷ 12 ∷ 255 ∷ 236 ∷ 125 ∷ 248 ∷ 182 ∷ 138 ∷ 205 ∷ []

abbrev pub raydium_clmm_program_id : Bytes
raydium_clmm_program_id =
    165 ∷ 213 ∷ 202 ∷ 158 ∷ 4 ∷ 207 ∷ 93 ∷ 181 ∷ 144 ∷ 183 ∷ 20 ∷ 186 ∷ 47 ∷ 227 ∷ 44 ∷ 177 ∷ 89
    ∷ 19 ∷ 63 ∷ 193 ∷ 193 ∷ 146 ∷ 183 ∷ 34 ∷ 87 ∷ 253 ∷ 7 ∷ 211 ∷ 156 ∷ 176 ∷ 64 ∷ 30 ∷ []

abbrev pub meteora_damm_v2_program_id : Bytes
meteora_damm_v2_program_id =
    9 ∷ 45 ∷ 33 ∷ 53 ∷ 101 ∷ 122 ∷ 21 ∷ 156 ∷ 43 ∷ 135 ∷ 212 ∷ 182 ∷ 106 ∷ 112 ∷ 219 ∷ 142 ∷ 151
    ∷ 82 ∷ 56 ∷ 159 ∷ 247 ∷ 106 ∷ 175 ∷ 32 ∷ 108 ∷ 237 ∷ 6 ∷ 58 ∷ 56 ∷ 249 ∷ 90 ∷ 237 ∷ []

abbrev pub orca_whirlpool_program_id : Bytes
orca_whirlpool_program_id =
    14 ∷ 3 ∷ 104 ∷ 95 ∷ 142 ∷ 144 ∷ 144 ∷ 83 ∷ 228 ∷ 88 ∷ 18 ∷ 28 ∷ 102 ∷ 245 ∷ 167 ∷ 106 ∷ 237
    ∷ 199 ∷ 112 ∷ 106 ∷ 161 ∷ 28 ∷ 130 ∷ 248 ∷ 170 ∷ 149 ∷ 42 ∷ 143 ∷ 43 ∷ 120 ∷ 121 ∷ 169 ∷ []

abbrev pub pumpswap_program_id : Bytes
pumpswap_program_id =
    12 ∷ 20 ∷ 222 ∷ 252 ∷ 130 ∷ 94 ∷ 198 ∷ 118 ∷ 148 ∷ 37 ∷ 8 ∷ 24 ∷ 187 ∷ 101 ∷ 64 ∷ 101 ∷ 244 ∷ 41
    ∷ 141 ∷ 49 ∷ 86 ∷ 213 ∷ 113 ∷ 180 ∷ 212 ∷ 248 ∷ 9 ∷ 12 ∷ 24 ∷ 233 ∷ 168 ∷ 99 ∷ []

abbrev pub launchlab_buy_exact_in : Bytes
launchlab_buy_exact_in = 250 ∷ 234 ∷ 13 ∷ 123 ∷ 213 ∷ 156 ∷ 19 ∷ 236 ∷ []

abbrev pub cpmm_swap_base_in : Bytes
cpmm_swap_base_in = 143 ∷ 190 ∷ 90 ∷ 218 ∷ 196 ∷ 30 ∷ 51 ∷ 222 ∷ []

abbrev pub pumpswap_sell : Bytes
pumpswap_sell = 51 ∷ 230 ∷ 133 ∷ 164 ∷ 1 ∷ 127 ∷ 131 ∷ 173 ∷ []

abbrev pub pumpswap_buy_exact_quote_in : Bytes
pumpswap_buy_exact_quote_in = 198 ∷ 46 ∷ 21 ∷ 82 ∷ 180 ∷ 217 ∷ 232 ∷ 112 ∷ []

abbrev pub meteora_dlmm_swap2 : Bytes
meteora_dlmm_swap2 = 65 ∷ 75 ∷ 63 ∷ 76 ∷ 235 ∷ 91 ∷ 91 ∷ 136 ∷ []

abbrev pub clmm_swap_v2 : Bytes
clmm_swap_v2 = 43 ∷ 4 ∷ 237 ∷ 11 ∷ 26 ∷ 201 ∷ 30 ∷ 98 ∷ []

-- usize::MAX
abbrev pub no_account : ℕ
no_account = 2 ^ 64 - 1

abbrev pub max_dynamic_leg_data : ℕ
max_dynamic_leg_data = 49

pub record DynamicSecondLeg : Type 0 where
  pub input_account : ℕ
  pub output_account : ℕ
  pub signer : ℕ
  pub amount_offset : ℕ
  pub input_mint : ℕ
  pub input_program : ℕ
  pub output_mint : ℕ
  pub output_program : ℕ
  pub paired_mints : Bool

-- A test of what an index expression reads.
abbrev pub reads {ℓ} : {A : Type ℓ} → Option A → (A → Bool) → Result Bool
reads read accepts = do value ← index read; ok (accepts value)

-- `data[..8] == tag`
abbrev pub starts_with : Bytes → Bytes → Result Bool
starts_with d tag = reads (get_range d 0 8) (λ (x : Bytes). bytes_eq x tag)

unfoldable pub valid_whirlpool_remaining_accounts : Bytes → Result Bool
valid_whirlpool_remaining_accounts d =
    or_else (and_then (ok (length d == 43)) (reads (get_elem? d 42) λ (b : ℕ). b == 0)) (
      and_then
        (and_then (ok (length d == 49))
          (reads (get_range d 42 48) λ (x : Bytes). bytes_eq x (1 ∷ 1 ∷ 0 ∷ 0 ∷ 0 ∷ 6 ∷ [])))
        (reads (get_elem? d 48) λ (b : ℕ). leb 1 b && leb b 3))

-- The conditions of the `if`/`else if` chain, in its order.
unfoldable pub is_launchlab_buy : Bytes → Bytes → Result Bool
is_launchlab_buy program d =
    and_then
      (and_then (ok (bytes_eq program launchlab_program_id && length d == 32))
        (starts_with d launchlab_buy_exact_in))
      (reads (get_range d 24 32) λ (x : Bytes). bytes_eq x (zeros 8))

unfoldable pub is_cpmm_swap : Bytes → Bytes → Result Bool
is_cpmm_swap program d =
    and_then (ok (bytes_eq program raydium_cpmm_program_id && length d == 24))
      (starts_with d cpmm_swap_base_in)

unfoldable pub is_pumpswap_buy : Bytes → Bytes → Result Bool
is_pumpswap_buy program d =
    and_then
      (and_then (ok (bytes_eq program pumpswap_program_id && length d == 25))
        (starts_with d pumpswap_buy_exact_quote_in))
      (reads (get_elem? d 24) λ (b : ℕ). leb b 1)

unfoldable pub is_pumpswap_sell : Bytes → Bytes → Result Bool
is_pumpswap_sell program d =
    and_then (ok (bytes_eq program pumpswap_program_id && length d == 24))
      (starts_with d pumpswap_sell)

unfoldable pub is_amm_v4_swap : Bytes → Bytes → Result Bool
is_amm_v4_swap program d =
    and_then (ok (bytes_eq program raydium_amm_v4_program_id && length d == 17))
      (reads (get_elem? d 0) λ (b : ℕ). b == 16)

unfoldable pub is_clmm_swap : Bytes → Bytes → Result Bool
is_clmm_swap program d =
    and_then
      (and_then (ok (bytes_eq program raydium_clmm_program_id && length d == 41))
        (starts_with d clmm_swap_v2))
      (reads (get_elem? d 40) λ (b : ℕ). b == 1)

unfoldable pub is_dlmm_swap : Bytes → Bytes → Result Bool
is_dlmm_swap program d =
    and_then
      (and_then (ok (bytes_eq program meteora_dlmm_program_id && length d == 28))
        (starts_with d meteora_dlmm_swap2))
      (reads (get_range d 24 28) λ (x : Bytes). bytes_eq x (zeros 4))

unfoldable pub is_damm_v2_swap : Bytes → Bytes → Result Bool
is_damm_v2_swap program d =
    and_then
      (and_then (ok (bytes_eq program meteora_damm_v2_program_id && length d == 25))
        (starts_with d meteora_dlmm_swap2))
      (reads (get_elem? d 24) λ (b : ℕ). b == 0)

unfoldable pub is_whirlpool_swap : Bytes → Bytes → Result Bool
is_whirlpool_swap program d =
    and_then
      (and_then
        (and_then
          (and_then (ok (bytes_eq program orca_whirlpool_program_id))
            (valid_whirlpool_remaining_accounts d))
          (starts_with d clmm_swap_v2))
        (reads (get_elem? d 40) λ (b : ℕ). b == 1))
      (reads (get_elem? d 41) λ (b : ℕ). leb b 1)

-- The layouts. Arguments: input, output, signer, amount offset, input mint and program, output mint
-- and program, paired mints.
abbrev pub layout : ℕ → ℕ → ℕ → ℕ → ℕ → ℕ → ℕ → ℕ → Bool → DynamicSecondLeg
layout i o s a im ip om op p = record {
  input_account = i;
  output_account = o;
  signer = s;
  amount_offset = a;
  input_mint = im;
  input_program = ip;
  output_mint = om;
  output_program = op;
  paired_mints = p;
}

abbrev pub whirlpool_layout : Bool → DynamicSecondLeg
whirlpool_layout a_to_b =
    layout (if a_to_b then 7 else 9) (if a_to_b then 9 else 7) 3 8 (if a_to_b then 5 else 6)
      (if a_to_b then 0 else 1) (if a_to_b then 6 else 5) (if a_to_b then 1 else 0) false

-- `if test { … } else { … }`, where evaluating the test may panic.
abbrev pub branch {ℓ} : {A : Type ℓ} → Result Bool → Result A → Result A → Result A
branch test m n = do holds ← test; if holds then m else n

unfoldable pub dynamic_second_leg : Bytes → Bytes → Result DynamicSecondLeg
dynamic_second_leg program d =
    branch (is_launchlab_buy program d) (ok (layout 6 5 0 8 10 12 9 11 false)) (
      branch (is_cpmm_swap program d) (ok (layout 4 5 0 8 10 8 11 9 false)) (
        branch (is_pumpswap_buy program d) (ok (layout 6 5 1 8 4 12 3 11 false)) (
          branch (is_pumpswap_sell program d) (ok (layout 5 6 1 8 3 11 4 12 false)) (
            branch (is_amm_v4_swap program d) (ok (layout 5 6 7 1 no_account 0 no_account 0 false))
              (branch (is_clmm_swap program d)
                (ok (layout 3 4 0 8 11 no_account 12 no_account false))
                (branch (is_dlmm_swap program d) (ok (layout 4 5 10 8 6 11 7 12 true)) (
                  branch (is_damm_v2_swap program d) (ok (layout 2 3 8 8 6 9 7 10 true)) (
                    branch (is_whirlpool_swap program d)
                      (do a_to_b ← index (get_elem? d 41); ok (whirlpool_layout (a_to_b == 1)))
                      (fail RouterError.invalid_dynamic_leg)))))))))
