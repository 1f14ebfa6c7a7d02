-- ===== src/Common/Calls.antt =====
-- Methods that change an object and may throw: a call takes the object and returns it as the call
-- leaves it, also when it throws, beside the result.
use mathlib.Core.Bool.{Bool, true, false}
use mathlib.Core.Path.{◌≡◌, ap}
use skip_cell.Common.Outcomes.{Error, Result, ok, throws}

abbrev pub Call {ℓ κ} : Type ℓ → Type κ → Type (ℓ ⊔ κ)
Call S A = S → S × Result A

infixl 5 ◌>>=◌ ◌>>◌
abbrev pub ◌>>=◌ {ℓ κ μ} :
    {S : Type ℓ} {A : Type κ} {B : Type μ} → Call S A → (A → Call S B) → Call S B
◌>>=◌ m f s = let (t, r) = m s in elim r [ ok a ↦ f a t | throws e ↦ (t, throws e) ]

abbrev pub ◌>>◌ {ℓ κ} : {S : Type ℓ} {B : Type κ} → Call S (Unit {0}) → Call S B → Call S B
m >> k = m >>= λ _. k

abbrev pub pure {ℓ κ} : {S : Type ℓ} {A : Type κ} → A → Call S A
pure a s = (s, ok a)

abbrev pub raise {ℓ κ} : {S : Type ℓ} {A : Type κ} → Error → Call S A
raise e s = (s, throws e)

abbrev pub get {ℓ κ} : {S : Type ℓ} {A : Type κ} → (S → A) → Call S A
get f s = (s, ok (f s))

abbrev pub modify {ℓ} : {S : Type ℓ} → (S → S) → Call S (Unit {0})
modify f s = (f s, ok tt)

-- A result that does not depend on the object.
abbrev pub lift {ℓ κ} : {S : Type ℓ} {A : Type κ} → Result A → Call S A
lift r s = (s, r)

abbrev pub when {ℓ} : {S : Type ℓ} → Bool → Call S (Unit {0}) → Call S (Unit {0})
when true m s = m s
when false m s = (s, ok tt)

-- A call that returns hands its result and its object to what follows; one that throws ends there.
module _ {ℓ κ μ} {S : Type ℓ} {A : Type κ} {B : Type μ} (m : Call S A) (f : A → Call S B) where
  abbrev followed : S × Result A → S × Result B
  followed (u, ok a) = f a u
  followed (u, throws e) = (u, throws e)

  pub bind_ok : {s t : S} {a : A} → m s ≡ (t, ok a) → (m >>= f) s ≡ f a t
  bind_ok e = ap followed e

  pub bind_throws : {s t : S} {x : Error} → m s ≡ (t, throws x) → (m >>= f) s ≡ (t, throws x)
  bind_throws e = ap followed e
