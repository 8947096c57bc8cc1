-- ===== src/Sdk/Fallible.antt =====
-- `anyhow::Result`: `none` is an error. Its message, which no code reads, is not modelled.
use sol_trade_router_sdk.Base.{◌≡◌, refl, ap, Bool, true, false, Option, none, some}

module _ {ℓ κ} {A : Type ℓ} {B : Type κ} where
  infixr 5 ◌>>=◌
  unfoldable pub ◌>>=◌ : Option A → (A → Option B) → Option B
  none >>= rest = none
  some value >>= rest = rest value

  pub bind-eq-some :
      (first : Option A) (rest : A → Option B) {b : B}
      → (first >>= rest) ≡ some b
      → (value : A) × (first ≡ some value) × (rest value ≡ some b)
  unfolding ◌>>=◌
  bind-eq-some none rest h = cc
  bind-eq-some (some value) rest h = (value, refl, h)

pub some-injective {ℓ} : {A : Type ℓ} {x y : A} → some x ≡ some y → x ≡ y
some-injective {x = x} h = ap (λ o. elim o [ none ↦ x | some value ↦ value ]) h

infixr 5 ◌>>◌
abbrev pub ◌>>◌ {ℓ} : {B : Type ℓ} → Option (Unit {0}) → Option B → Option B
check >> rest = check >>= λ _. rest

-- `if b { return Err(…) }`
unfoldable pub bail_if : Bool → Option (Unit {0})
bail_if true = none
bail_if false = some tt

pub bailed-eq-some {ℓ} :
    {B : Type ℓ} (b : Bool) (rest : Option B) {r : B}
    → (bail_if b >> rest) ≡ some r
    → (b ≡ false) × (rest ≡ some r)
unfolding ◌>>=◌ bail_if
bailed-eq-some true rest h = cc
bailed-eq-some false rest h = (refl, h)
