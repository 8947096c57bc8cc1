-- ===== src/Program/Error.antt =====
-- programs/sol-trade-router/src/error.rs, and the outcome of a call: a value, a `ProgramError`, or
-- a Rust panic (an index out of bounds).
use sol_trade_router_sdk.Base.{arith, ℕ, ◌≡◌, refl, Bool, true, false, Option, none, some}

pub data RouterError : Type 0 where
  invalid_instruction_data unknown_instruction unauthorized already_initialized not_initialized
        invalid_config paused invalid_fee_bps invalid_fee_asset slippage_exceeded too_many_legs
        invalid_leg insufficient_accounts arithmetic_overflow invalid_program_id fee_source_mismatch
        invalid_output_account invalid_output_mint invalid_intermediate_account invalid_dynamic_leg
        intermediate_not_spent :
      RouterError

-- `e as u32`
abbrev pub code : RouterError → ℕ
code RouterError.invalid_instruction_data = 1
code RouterError.unknown_instruction = 2
code RouterError.unauthorized = 3
code RouterError.already_initialized = 4
code RouterError.not_initialized = 5
code RouterError.invalid_config = 6
code RouterError.paused = 7
code RouterError.invalid_fee_bps = 8
code RouterError.invalid_fee_asset = 9
code RouterError.slippage_exceeded = 10
code RouterError.too_many_legs = 11
code RouterError.invalid_leg = 12
code RouterError.insufficient_accounts = 13
code RouterError.arithmetic_overflow = 14
code RouterError.invalid_program_id = 15
code RouterError.fee_source_mismatch = 16
code RouterError.invalid_output_account = 17
code RouterError.invalid_output_mint = 18
code RouterError.invalid_intermediate_account = 21
code RouterError.invalid_dynamic_leg = 19
code RouterError.intermediate_not_spent = 20

-- pinocchio's error type: `other` stands for the variants that the program does not name.
pub data ProgramError : Type 0 where
  custom : ℕ → ProgramError
  missing_required_signature invalid_account_data : ProgramError
  other : ℕ → ProgramError

-- `impl From<RouterError> for ProgramError`
abbrev pub from_router : RouterError → ProgramError
from_router e = custom (code e)

pub data Result {ℓ} (A : Type ℓ) : Type ℓ where
  ok : A → Result A
  err : ProgramError → Result A
  panic : Result A

-- `Err(RouterError::….into())`
abbrev pub fail {ℓ} : {A : Type ℓ} → RouterError → Result A
fail e = err (from_router e)

-- The `?` operator: the rest runs on the value of an `ok`.
module _ {ℓ κ} {A : Type ℓ} {B : Type κ} where
  infixl 5 ◌>>=◌
  unfoldable pub ◌>>=◌ : Result A → (A → Result B) → Result B
  panic >>= rest = panic
  err e >>= rest = err e
  ok value >>= rest = rest value

  -- Inversion: a sequence that ends well had a first part that did, and its rest ran on that value.
  pub bind-eq-ok :
      (first : Result A) (rest : A → Result B) {b : B}
      → (first >>= rest) ≡ ok b
      → (value : A) × (first ≡ ok value) × (rest value ≡ ok b)
  unfolding ◌>>=◌
  bind-eq-ok panic rest h = cc
  bind-eq-ok (err e) rest h = cc
  bind-eq-ok (ok value) rest h = (value, refl, h)

infixl 5 ◌>>◌
abbrev pub ◌>>◌ {ℓ} : {B : Type ℓ} → Result (Unit {0}) → Result B → Result B
check >> rest = check >>= λ _. rest

-- `if b { return Err(e) }`
unfoldable pub reject_if : Bool → ProgramError → Result (Unit {0})
reject_if true e = err e
reject_if false e = ok tt

-- `.ok_or(e)?`
unfoldable pub ok_or {ℓ} : {A : Type ℓ} → Option A → ProgramError → Result A
ok_or (some a) e = ok a
ok_or none e = err e

-- A Rust index expression: out of bounds it panics.
unfoldable pub index {ℓ} : {A : Type ℓ} → Option A → Result A
index (some a) = ok a
index none = panic

-- `a || b` and `a && b`, where evaluating a side may fail.
unfoldable pub or_else : Result Bool → Result Bool → Result Bool
or_else (ok true) n = ok true
or_else (ok false) n = n
or_else (err e) n = err e
or_else panic n = panic

unfoldable pub and_then : Result Bool → Result Bool → Result Bool
and_then (ok true) n = n
and_then (ok false) n = ok false
and_then (err e) n = err e
and_then panic n = panic

pub reject_if-eq-ok :
    (b : Bool) (e : ProgramError) {u : Unit {0}} → reject_if b e ≡ ok u → b ≡ false
unfolding reject_if
reject_if-eq-ok true e h = cc
reject_if-eq-ok false e h = refl

pub guarded-eq-ok {ℓ} :
    {B : Type ℓ} (b : Bool) (e : ProgramError) (m : Result B) {r : B}
    → (reject_if b e >> m) ≡ ok r
    → (b ≡ false) × (m ≡ ok r)
unfolding ◌>>=◌ reject_if
guarded-eq-ok true e m h = cc
guarded-eq-ok false e m h = (refl, h)

pub ok_or-eq-ok {ℓ} :
    {A : Type ℓ} (o : Option A) (e : ProgramError) {a : A} → ok_or o e ≡ ok a → o ≡ some a
unfolding ok_or
ok_or-eq-ok (some a) e h = ground arith
ok_or-eq-ok none e h = cc

pub index-eq-ok {ℓ} : {A : Type ℓ} (o : Option A) {a : A} → index o ≡ ok a → o ≡ some a
unfolding index
index-eq-ok (some a) h = ground arith
index-eq-ok none h = cc

pub or_else-eq-false :
    (m n : Result Bool) → or_else m n ≡ ok false → (m ≡ ok false) × (n ≡ ok false)
unfolding or_else
or_else-eq-false (ok true) n h = cc
or_else-eq-false (ok false) n h = (refl, h)
or_else-eq-false (err e) n h = cc
or_else-eq-false panic n h = cc

pub and_then-eq-true : (m n : Result Bool) → and_then m n ≡ ok true → (m ≡ ok true) × (n ≡ ok true)
unfolding and_then
and_then-eq-true (ok true) n h = (refl, h)
and_then-eq-true (ok false) n h = cc
and_then-eq-true (err e) n h = cc
and_then-eq-true panic n h = cc

pub ok-injective {ℓ} : {A : Type ℓ} {a b : A} → ok a ≡ ok b → a ≡ b
ok-injective h = cc
