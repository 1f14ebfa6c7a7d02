-- ===== src/Common/Lists.antt =====
-- Lists measured, indexed and counted by native numbers, under the library's names.
use Prim.Native.Nat.{ℕ, zero, suc, ◌+◌, ◌<◌}
use mathlib.Core.Bool.{Bool, true, false}
use mathlib.Core.Path.{◌≡◌, refl, ap}
use mathlib.Core.List.{List, [], ◌∷◌, ◌++◌, reverse, reverse-cons}
use mathlib.Core.Option.{Option, none, some}
use native.Mathlib.Omega.{arith}
use skip_cell.Common.Tests.{◌==◌, ltb, if◌then◌else◌}

module _ {ℓ} {A : Type ℓ} where
  abbrev pub length : List A → ℕ
  length [] = 0
  length (x ∷ xs) = suc (length xs)

  abbrev pub get_elem? : List A → ℕ → Option A
  get_elem? [] i = none
  get_elem? (x ∷ xs) zero = some x
  get_elem? (x ∷ xs) (suc i) = get_elem? xs i

  -- A write out of bounds changes nothing.
  abbrev pub set : List A → ℕ → A → List A
  set [] i v = []
  set (x ∷ xs) zero v = v ∷ xs
  set (x ∷ xs) (suc i) v = x ∷ set xs i v

  abbrev pub replicate : ℕ → A → List A
  replicate zero a = []
  replicate (suc n) a = a ∷ replicate n a

  pub length-append : (xs ys : List A) → length (xs ++ ys) ≡ length xs + length ys
  length-append [] ys = omega arith
  length-append (x ∷ xs) ys = omega (arith, length-append xs ys)

-- A number as 0 or 1.
abbrev pub one_if : Bool → ℕ
one_if true = 1
one_if false = 0

-- How often a number stands in a list.
unfoldable pub count : ℕ → List ℕ → ℕ
count a [] = 0
count a (x ∷ xs) = one_if (a == x) + count a xs

-- `std::find` of a value.
unfoldable pub contains : ℕ → List ℕ → Bool
contains a [] = false
contains a (x ∷ xs) = if a == x then true else contains a xs

-- Erases the first occurrence.
unfoldable pub remove : ℕ → List ℕ → List ℕ
remove a [] = []
remove a (x ∷ xs) = if a == x then xs else x ∷ remove a xs

pub count-cons : (a x : ℕ) (xs : List ℕ) → count a (x ∷ xs) ≡ one_if (a == x) + count a xs
unfolding count
count-cons a x xs = refl

pub count-nil : (a : ℕ) → count a [] ≡ 0
unfolding count
count-nil a = refl

pub count-append : (a : ℕ) (xs ys : List ℕ) → count a (xs ++ ys) ≡ count a xs + count a ys
unfolding count
count-append a [] ys = omega arith
count-append a (x ∷ xs) ys = omega (arith, count-append a xs ys)

-- Erasing one occurrence of a number that is there lowers its count, and no other.
pub count-remove :
    (a b : ℕ) (xs : List ℕ) → 0 < count b xs → count a (remove b xs) + one_if (a == b) ≡ count a xs
unfolding count remove
count-remove a b [] h = absurd (omega arith)
count-remove a b (x ∷ xs) h = ground (arith, count-remove a b xs)

pub contains_iff_count : (a : ℕ) (xs : List ℕ) → contains a xs ≡ ltb 0 (count a xs)
unfolding count contains
contains_iff_count a [] = refl
contains_iff_count a (x ∷ xs) = ground (arith, contains_iff_count a xs)

-- The numbers from 0 on, in the order of a loop that pushes them at the back: the head is the back.
unfoldable pub indices : ℕ → List ℕ
indices zero = []
indices (suc n) = n ∷ indices n

pub length-indices : (n : ℕ) → length (indices n) ≡ n
unfolding indices
length-indices zero = refl
length-indices (suc n) = ap suc (length-indices n)

pub count-indices : (a n : ℕ) → count a (indices n) ≡ one_if (ltb a n)
unfolding count indices
count-indices a zero = ground arith
count-indices a (suc n) = ground (arith, count-indices a n)

pub count-reverse : (a : ℕ) (xs : List ℕ) → count a (reverse xs) ≡ count a xs
unfolding count
count-reverse a [] = refl
count-reverse a (x ∷ xs) =
    rw (reverse-cons x xs, count-append a (reverse xs) (x ∷ [])) (omega (arith, count-reverse a xs))

-- Erasing the last occurrence.
pub count-remove_last :
    (a b : ℕ) (xs : List ℕ)
    → 0 < count b xs
    → count a (reverse (remove b (reverse xs))) + one_if (a == b) ≡ count a xs
count-remove_last a b xs h = omega (
  arith,
  count-reverse a (remove b (reverse xs)),
  count-remove a b (reverse xs) (rw (count-reverse b xs) h),
  count-reverse a xs,
)

pub count-snoc : (a b : ℕ) (xs : List ℕ) → count a (xs ++ b ∷ []) ≡ count a xs + one_if (a == b)
unfolding count
count-snoc a b xs = omega (arith, count-append a xs (b ∷ []))
