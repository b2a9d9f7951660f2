-- ===== src/Prelude/Result.antt =====
-- A Go function that returns a value and an error: `ok` where the error is nil.
use mathlib.Core.Path.{◌≡◌, refl}

pub data Result {ℓ κ} (E : Type ℓ) (A : Type κ) : Type (ℓ ⊔ κ) where
  ok : A → Result E A
  err : E → Result E A

infixl 5 ◌>>=◌
-- `if err != nil { return …, err }` between two steps
abbrev pub ◌>>=◌ {ℓ κ μ} :
    {E : Type ℓ} {A : Type κ} {B : Type μ} → Result E A → (A → Result E B) → Result E B
ok a >>= step = step a
err e >>= step = err e

module _ {ℓ κ} {E : Type ℓ} {A : Type κ} where
  pub ok-injective : (a b : A) → ◌≡◌ {A = Result E A} (ok a) (ok b) → a ≡ b
  ok-injective a b h = cc

  -- A chain that succeeded had a first step that did.
  pub bind-ok {μ} :
      {B : Type μ} (first : Result E A) (step : A → Result E B) {out : B}
      → (first >>= step) ≡ ok out
      → (a : A) × (first ≡ ok a) × (step a ≡ ok out)
  bind-ok (err e) step h = cc
  bind-ok (ok a) step h = (a, refl, h)
