-- ===== src/Program/Calm.antt =====
-- Computations that do not panic, one rule for each way to build a `Result`.
use sol_trade_router_sdk.Base.{
  ℕ, zero, suc, ◌≤◌, ◌<◌, ◌≡◌, ◌≢◌, refl, Bool, true, false, Option, none, some, List, [], ◌∷◌,
  length, get_elem?, le→leb, if◌then◌else◌, arith,
}
use sol_trade_router_sdk.Base.Bytes.{Bytes, get_range}
use sol_trade_router_sdk.Program.Error.{
  Result, ok, err, panic, ProgramError, ◌>>=◌, reject_if, ok_or, index, or_else, and_then,
}
use sol_trade_router_sdk.Program.Ledger.{Cpi, done, failed, call}

pub record Calm {ℓ} {A : Type ℓ} (r : Result A) : Type ℓ where
  pub no_panic : r ≢ panic

module _ {ℓ} {A : Type ℓ} where
  pub Calm-ok : (a : A) → Calm (ok a)
  Calm-ok a = record { no_panic = λ e. cc }

  pub Calm-err : (e : ProgramError) → Calm {A = A} (err e)
  Calm-err e = record { no_panic = λ p. cc }

  pub Calm-ok_or : (o : Option A) (e : ProgramError) → Calm (ok_or o e)
  unfolding ok_or
  Calm-ok_or (some a) e = Calm-ok a
  Calm-ok_or none e = Calm-err e

  pub Calm-call : (c : Cpi A) → Calm (call c)
  unfolding call
  Calm-call (done a) = Calm-ok a
  Calm-call (failed e) = Calm-err e

  pub Calm-if :
      (b : Bool) (m n : Result A)
      → (b ≡ true → Calm m)
      → (b ≡ false → Calm n)
      → Calm (if b then m else n)
  Calm-if true m n km kn = km refl
  Calm-if false m n km kn = kn refl

  pub Calm-get_elem? : (xs : List A) (i : ℕ) → i < length xs → Calm (index (get_elem? xs i))
  unfolding index
  Calm-get_elem? [] i h = absurd (omega arith)
  Calm-get_elem? (x ∷ xs) zero h = Calm-ok x
  Calm-get_elem? (x ∷ xs) (suc i) h = Calm-get_elem? xs i (omega arith)

pub Calm-get_range : (d : Bytes) (i j : ℕ) → i ≤ j → j ≤ length d → Calm (index (get_range d i j))
unfolding index
Calm-get_range d i j h k = rw (le→leb i j h, le→leb j (length d) k) (Calm-ok _)

pub Calm-reject : (b : Bool) (e : ProgramError) → Calm (reject_if b e)
unfolding reject_if
Calm-reject true e = Calm-err e
Calm-reject false e = Calm-ok tt

pub Calm-or_else : (m n : Result Bool) → Calm m → (m ≡ ok false → Calm n) → Calm (or_else m n)
unfolding or_else
Calm-or_else (ok true) n km kn = Calm-ok true
Calm-or_else (ok false) n km kn = kn refl
Calm-or_else (err e) n km kn = Calm-err e
Calm-or_else panic n km kn = km

pub Calm-and_then : (m n : Result Bool) → Calm m → (m ≡ ok true → Calm n) → Calm (and_then m n)
unfolding and_then
Calm-and_then (ok true) n km kn = kn refl
Calm-and_then (ok false) n km kn = Calm-ok false
Calm-and_then (err e) n km kn = Calm-err e
Calm-and_then panic n km kn = km

module _ {ℓ κ} {A : Type ℓ} {B : Type κ} where
  -- The rest of the sequence may use what the first part returned.
  pub Calm-bind :
      (m : Result A) (f : A → Result B)
      → Calm m
      → ((a : A) → m ≡ ok a → Calm (f a))
      → Calm (m >>= f)
  unfolding ◌>>=◌
  Calm-bind (ok a) f km kf = kf a refl
  Calm-bind (err e) f km kf = Calm-err e
  Calm-bind panic f km kf = absurd (km.no_panic refl)

pub ruleset calm_rules = (
  Calm-ok, Calm-err, Calm-ok_or, Calm-call, Calm-if, Calm-reject, Calm-or_else, Calm-and_then,
  Calm-bind,
)
