-- ===== src/Base/Results.antt =====
-- Fallible code: a result with a value or an error, and the bind that the `?` operator is.
use mathlib.Core.Path.{◌≡◌, refl}

pub data Result {ℓ κ} (A : Type ℓ) (E : Type κ) : Type (ℓ ⊔ κ) where
  ok : A → Result A E
  err : E → Result A E

infixl 5 ◌>>=◌
abbrev pub ◌>>=◌ {ℓ κ μ} :
    {A : Type ℓ} {B : Type κ} {E : Type μ} → Result A E → (A → Result B E) → Result B E
ok a >>= f = f a
err e >>= f = err e

-- `Result::map_err`, which a `?` between error types also is.
abbrev pub map_err {ℓ κ μ} :
    {A : Type ℓ} {E : Type κ} {F : Type μ} → (E → F) → Result A E → Result A F
map_err f (ok a) = ok a
map_err f (err e) = err (f e)

module _ {ℓ κ μ} {A : Type ℓ} {B : Type κ} {E : Type μ} where
  -- A chain that succeeds succeeded at each step.
  pub >>=-eq-ok :
      (m : Result A E) (f : A → Result B E) (b : B)
      → (m >>= f) ≡ ok b
      → (a : A) × (m ≡ ok a) × (f a ≡ ok b)
  >>=-eq-ok (ok a) f b h = (a, refl, h)
  >>=-eq-ok (err e) f b h = cc

module _ {ℓ κ μ} {A : Type ℓ} {E : Type κ} {F : Type μ} where
  pub map_err-eq-ok : (f : E → F) (r : Result A E) (a : A) → map_err f r ≡ ok a → r ≡ ok a
  map_err-eq-ok f (ok x) a h = cc
  map_err-eq-ok f (err e) a h = cc
