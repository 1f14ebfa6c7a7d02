-- ===== src/Common/Outcomes.antt =====
-- Calls that may throw. A call returns the state in which it leaves the object, also when it throws.

use mathlib.Core.Path.{◌≡◌, refl}
use native.Mathlib.Omega.{arith}

-- The exception classes of the sources; `undefined` is a read or a dereference that the language
-- leaves undefined.
pub data Error : Type 0 where
  logic_error invalid_argument out_of_range overflow_error runtime_error undefined : Error

pub data Result {ℓ} (A : Type ℓ) : Type ℓ where
  ok : A → Result A
  throws : Error → Result A

infixl 5 ◌>>=◌
abbrev pub ◌>>=◌ {ℓ κ} : {A : Type ℓ} {B : Type κ} → Result A → (A → Result B) → Result B
ok a >>= f = f a
throws e >>= f = throws e

module _ {ℓ κ} {A : Type ℓ} {B : Type κ} where
  -- Steps that succeed one after the other: the first one's result, and what the second makes of it.
  pub ok_bind :
      (r : Result A) (f : A → Result B) {y : B}
      → (r >>= f) ≡ ok y
      → (x : A) × (r ≡ ok x) × (f x ≡ ok y)
  ok_bind (ok x) f e = (x, refl, e)
  ok_bind (throws _) f e = absurd (ground (arith, e))
