-- ===== src/Common/Sets.antt =====
-- Sorting, dropping repeated neighbors, and the strictly ascending lists that this makes of numbers.
use Prim.Native.Nat.{ℕ, zero, suc, ◌+◌, ◌≤◌, ◌<◌}
use mathlib.Core.Path.{◌≡◌, refl, ap, ◌∙◌}
use mathlib.Core.Logic.{inl, inr}
use mathlib.Core.Bool.{Bool, true, false, ◌&&◌}
use mathlib.Core.Option.{some}
use mathlib.Core.List.{List, [], ◌∷◌, ◌++◌}
use native.Mathlib.Omega.{arith}
use skip_cell.Common.Tests.{◌==◌, ltb, leb, if◌then◌else◌, ==_iff, Bool-cases}
use skip_cell.Common.Lists.{length, get_elem?, set, one_if, count}

-- `std::sort` of numbers.
unfoldable pub insert : ℕ → List ℕ → List ℕ
insert x [] = x ∷ []
insert x (y ∷ ys) = if leb x y then x ∷ y ∷ ys else y ∷ insert x ys

unfoldable pub sort : List ℕ → List ℕ
unfolding insert
sort [] = []
sort (x ∷ xs) = insert x (sort xs)

-- `operator==` of vectors.
unfoldable pub same_list : List ℕ → List ℕ → Bool
same_list [] [] = true
same_list (x ∷ xs) (y ∷ ys) = x == y && same_list xs ys
same_list [] (y ∷ ys) = false
same_list (x ∷ xs) [] = false

-- `std::unique` with the erasure of what it leaves behind: of equal neighbors one stays.
unfoldable pub unique : List ℕ → List ℕ
unique [] = []
unique (x ∷ []) = x ∷ []
unique (x ∷ y ∷ ys) = let rest = unique (y ∷ ys) in if x == y then rest else x ∷ rest

unfoldable pub sort_unique : List ℕ → List ℕ
unfolding sort unique
sort_unique xs = unique (sort xs)

-- Each number is above the one before it, and the first at least a bound.
abbrev pub IsStrict : ℕ → List ℕ → Type 0
IsStrict b [] = Unit {0}
IsStrict b (x ∷ xs) = (b ≤ x) × IsStrict (suc x) xs

-- Each number is at least the one before it.
abbrev IsWeak : ℕ → List ℕ → Type 0
IsWeak b [] = Unit {0}
IsWeak b (x ∷ xs) = (b ≤ x) × IsWeak x xs

insert-IsWeak : (b x : ℕ) (ys : List ℕ) → b ≤ x → IsWeak b ys → IsWeak b (insert x ys)
unfolding insert
insert-IsWeak b x [] h w = (h, tt)
insert-IsWeak b x (y ∷ ys) h (hy, w) = elim (Bool-cases (leb x y)) [
  | inl before ↦ rw before (h, (ground arith, w))
  | inr after ↦ rw after (hy, insert-IsWeak y x ys (ground arith) w)
]

sort-IsWeak : (xs : List ℕ) → IsWeak 0 (sort xs)
unfolding sort
sort-IsWeak [] = tt
sort-IsWeak (x ∷ xs) = insert-IsWeak 0 x (sort xs) (omega arith) (sort-IsWeak xs)

unique-IsStrict : (b : ℕ) (xs : List ℕ) → IsWeak b xs → IsStrict b (unique xs)
unfolding unique
unique-IsStrict b [] w = tt
unique-IsStrict b (x ∷ []) w = (w.0, tt)
unique-IsStrict b (x ∷ y ∷ ys) (h, (hy, w)) = elim (Bool-cases (x == y)) [
  | inl same ↦ rw same (unique-IsStrict b (y ∷ ys) (omega (arith, h, hy), w))
  | inr other ↦
      let above : suc x ≤ y = ground arith in
      rw other (h, unique-IsStrict (suc x) (y ∷ ys) (above, w))
]

pub sort_unique-IsStrict : (xs : List ℕ) → IsStrict 0 (sort_unique xs)
unfolding sort_unique
sort_unique-IsStrict xs = unique-IsStrict 0 (sort xs) (sort-IsWeak xs)

count-insert : (a x : ℕ) (ys : List ℕ) → count a (insert x ys) ≡ one_if (a == x) + count a ys
unfolding count insert
count-insert a x [] = refl
count-insert a x (y ∷ ys) = ground (arith, count-insert a x ys)

count-sort : (a : ℕ) (xs : List ℕ) → count a (sort xs) ≡ count a xs
unfolding count sort
count-sort a [] = refl
count-sort a (x ∷ xs) = count-insert a x (sort xs) ∙ omega (arith, count-sort a xs)

present-unique : (a : ℕ) (xs : List ℕ) → ltb 0 (count a (unique xs)) ≡ ltb 0 (count a xs)
unfolding count unique
present-unique a [] = refl
present-unique a (x ∷ []) = refl
present-unique a (x ∷ y ∷ ys) = ground (arith, present-unique a (y ∷ ys))

-- What is there stays there.
pub present-sort_unique :
    (a : ℕ) (xs : List ℕ) → ltb 0 (count a (sort_unique xs)) ≡ ltb 0 (count a xs)
unfolding sort_unique
present-sort_unique a xs = present-unique a (sort xs) ∙ ap (ltb 0) (count-sort a xs)

pub count_below : (a b : ℕ) (xs : List ℕ) → IsStrict b xs → a < b → count a xs ≡ 0
unfolding count
count_below a b [] s h = refl
count_below a b (x ∷ xs) (hx, s) h = ground (arith, count_below a (suc x) xs s, hx, h)

-- An ascending list names nothing twice.
pub count_strict : (a b : ℕ) (xs : List ℕ) → IsStrict b xs → count a xs ≤ 1
unfolding count
count_strict a b [] s = omega arith
count_strict a b (x ∷ xs) (hx, s) = elim (Bool-cases (a == x)) [
  | inl same ↦
      let e : a ≡ x = (==_iff a x).0 same in
      rw same (omega (arith, count_below a (suc x) xs s (omega (arith, e))))
  | inr other ↦ rw other (omega (arith, count_strict a (suc x) xs s))
]

-- With nothing twice `unique` has nothing to drop.
unique_id : (xs : List ℕ) → ((a : ℕ) → count a xs ≤ 1) → unique xs ≡ xs
unfolding unique count
unique_id [] single = refl
unique_id (x ∷ []) single = refl
unique_id (x ∷ y ∷ ys) single = elim (Bool-cases (x == y)) [
  | inl same ↦ absurd (ground (arith, single x, same))
  | inr other ↦ rw other (ap (λ zs. x ∷ zs) (unique_id (y ∷ ys) (λ a. omega (arith, single a))))
]

-- A measure summed over a list of numbers.
unfoldable pub total : (ℕ → ℕ) → List ℕ → ℕ
total f [] = 0
total f (x ∷ xs) = f x + total f xs

total-append : (f : ℕ → ℕ) (xs ys : List ℕ) → total f (xs ++ ys) ≡ total f xs + total f ys
unfolding total
total-append f [] ys = omega arith
total-append f (x ∷ xs) ys = omega (arith, total-append f xs ys)

total-insert : (f : ℕ → ℕ) (x : ℕ) (ys : List ℕ) → total f (insert x ys) ≡ f x + total f ys
unfolding total insert
total-insert f x [] = refl
total-insert f x (y ∷ ys) = ground (arith, total-insert f x ys)

total-sort : (f : ℕ → ℕ) (xs : List ℕ) → total f (sort xs) ≡ total f xs
unfolding total sort
total-sort f [] = refl
total-sort f (x ∷ xs) = total-insert f x (sort xs) ∙ omega (arith, total-sort f xs)

-- Two lists that name nothing twice together: the measure of what they name is the sum.
pub total-sort_unique :
    (f : ℕ → ℕ) (xs ys : List ℕ)
    → ((a : ℕ) → count a (xs ++ ys) ≤ 1)
    → total f (sort_unique (xs ++ ys)) ≡ total f xs + total f ys
unfolding sort_unique
total-sort_unique f xs ys single =
    ap (total f)
      (unique_id (sort (xs ++ ys)) (λ a. omega (arith, single a, count-sort a (xs ++ ys))))
    ∙ total-sort f (xs ++ ys)
    ∙ total-append f xs ys

pub same_list-eq : (xs ys : List ℕ) → same_list xs ys ≡ true → xs ≡ ys
unfolding same_list
same_list-eq [] [] h = refl
same_list-eq (x ∷ xs) (y ∷ ys) h = ground (arith, same_list-eq xs ys, h)
same_list-eq [] (y ∷ ys) h = cc
same_list-eq (x ∷ xs) [] h = cc

pub same_list_refl : (xs : List ℕ) → same_list xs xs ≡ true
unfolding same_list
same_list_refl [] = refl
same_list_refl (x ∷ xs) = ground (arith, same_list_refl xs)

module _ {ℓ} {A : Type ℓ} where
  pub get_elem?-set :
      (xs : List A) (i j : ℕ) (v : A)
      → i < length xs
      → get_elem? (set xs i v) j ≡ (if i == j then some v else get_elem? xs j)
  get_elem?-set [] i j v h = absurd (omega arith)
  get_elem?-set (x ∷ xs) zero zero v h = refl
  get_elem?-set (x ∷ xs) zero (suc j) v h = ground arith
  get_elem?-set (x ∷ xs) (suc i) zero v h = ground arith
  get_elem?-set (x ∷ xs) (suc i) (suc j) v h = get_elem?-set xs i j v (omega arith) ∙ ground arith

  pub length-set : (xs : List A) (i : ℕ) (v : A) → length (set xs i v) ≡ length xs
  length-set [] i v = refl
  length-set (x ∷ xs) zero v = refl
  length-set (x ∷ xs) (suc i) v = ap suc (length-set xs i v)

  pub get_elem?-some : (xs : List A) (i : ℕ) → i < length xs → (x : A) × (get_elem? xs i ≡ some x)
  get_elem?-some [] i h = absurd (omega arith)
  get_elem?-some (x ∷ xs) zero h = (x, refl)
  get_elem?-some (x ∷ xs) (suc i) h = get_elem?-some xs i (omega arith)

  pub lt_of_get_elem? : (xs : List A) (i : ℕ) {x : A} → get_elem? xs i ≡ some x → i < length xs
  lt_of_get_elem? [] i e = absurd (ground (arith, e))
  lt_of_get_elem? (x ∷ xs) zero e = omega arith
  lt_of_get_elem? (x ∷ xs) (suc i) e = omega (arith, lt_of_get_elem? xs i e)
