-- ===== src/Sdk/Legs/Checks.antt =====
-- crates/sdk/src/legs.rs: the checks that the leg builders share. `none` is an error.
use sol_trade_router_sdk.Base.{ℕ, not, ◌&&◌, ◌||◌, Option, some, List, [], ◌∷◌, any, ltb, ◌==◌}
use sol_trade_router_sdk.Base.Bytes.{Bytes, bytes_eq, zeros}
use sol_trade_router_sdk.Sdk.Fallible.{◌>>◌, bail_if}
use sol_trade_router_sdk.Sdk.Constants

abbrev pub leg_account_limit : ℕ
leg_account_limit = 64

-- `Pubkey::default()`
abbrev pub default_key : Bytes
default_key = zeros 32

unfoldable pub ensure_leg_account_budget : ℕ → Option (Unit {0})
ensure_leg_account_budget n = bail_if (n == 0 || ltb leg_account_limit n)

unfoldable pub require_token_programs : List Bytes → Option (Unit {0})
require_token_programs programs = bail_if (
    any
      (λ (program : Bytes).
        not (bytes_eq program Constants.token_program)
        && not (bytes_eq program Constants.token_2022_program))
      programs)

-- Pairs of a mint and its token program.
unfoldable pub require_mint_programs : List (Bytes × Bytes) → Option (Unit {0})
require_mint_programs [] = some tt
require_mint_programs ((mint, program) ∷ mints) = do
  require_token_programs (program ∷ [])
  bail_if (bytes_eq mint Constants.wsol_mint && not (bytes_eq program Constants.token_program))
  require_mint_programs mints

unfoldable pub require_array_addresses : List Bytes → Option (Unit {0})
require_array_addresses addresses =
    bail_if (any (λ (key : Bytes). bytes_eq key default_key) addresses)
