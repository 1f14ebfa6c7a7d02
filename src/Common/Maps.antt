-- ===== src/Common/Maps.antt =====
-- Dictionaries with numbers for keys, as association lists, and updates of families.
use Prim.Native.Nat.{ℕ, ◌+◌, ◌≤◌}
use mathlib.Core.Bool.{Bool}
use mathlib.Core.Logic.{◌≢◌}
use mathlib.Core.Path.{◌≡◌, refl}
use mathlib.Core.List.{List, [], ◌∷◌}
use mathlib.Core.Option.{Option, none, some}
use native.Mathlib.Omega.{arith}
use skip_cell.Common.Tests.{◌==◌, if◌then◌else◌}
use skip_cell.Common.Lists.{length, one_if}

-- A family with one entry written anew: memory, or an array behind its bounds.
abbrev pub update {ℓ} : {A : Type ℓ} → (ℕ → A) → ℕ → A → ℕ → A
update f i a j = if i == j then a else f j

module _ {ℓ} {V : Type ℓ} where
  unfoldable pub lookup : ℕ → List (ℕ × V) → Option V
  lookup k [] = none
  lookup k ((j, v) ∷ m) = if j == k then some v else lookup k m

  unfoldable pub erase : ℕ → List (ℕ × V) → List (ℕ × V)
  erase k [] = []
  erase k ((j, v) ∷ m) = if j == k then m else (j, v) ∷ erase k m

  -- Writes the value of a key that is there; any other key changes nothing.
  unfoldable pub assign : ℕ → V → List (ℕ × V) → List (ℕ × V)
  assign k w [] = []
  assign k w ((j, v) ∷ m) = if j == k then (k, w) ∷ m else (j, v) ∷ assign k w m

  -- `unordered_map::emplace`: a key that is there keeps its value.
  unfoldable pub emplace : ℕ → V → List (ℕ × V) → List (ℕ × V)
  emplace k v m = elim (lookup k m) [ none ↦ (k, v) ∷ m | some _ ↦ m ]

  -- How many entries have the key.
  unfoldable pub key_count : ℕ → List (ℕ × V) → ℕ
  key_count k [] = 0
  key_count k ((j, v) ∷ m) = one_if (j == k) + key_count k m

  -- How many entries have a value that passes the test.
  unfoldable pub tally : (V → Bool) → List (ℕ × V) → ℕ
  tally p [] = 0
  tally p ((j, v) ∷ m) = one_if (p v) + tally p m

  pub lookup-emplace :
      (k j : ℕ) (v : V) (m : List (ℕ × V))
      → lookup k m ≡ none
      → lookup j (emplace k v m) ≡ (if k == j then some v else lookup j m)
  unfolding lookup emplace
  lookup-emplace k j v m h = ground arith

  pub lookup-erase_ne : (k j : ℕ) (m : List (ℕ × V)) → j ≢ k → lookup j (erase k m) ≡ lookup j m
  unfolding lookup erase
  lookup-erase_ne k j [] h = refl
  lookup-erase_ne k j ((i, v) ∷ m) h = ground (arith, lookup-erase_ne k j m h)

  pub lookup-assign :
      (k j : ℕ) (w v : V) (m : List (ℕ × V))
      → lookup k m ≡ some v
      → lookup j (assign k w m) ≡ (if k == j then some w else lookup j m)
  unfolding lookup assign
  lookup-assign k j w v [] h = ground arith
  lookup-assign k j w v ((i, u) ∷ m) h = ground (arith, lookup-assign k j w v m)

  pub key_count_of_none : (k : ℕ) (m : List (ℕ × V)) → lookup k m ≡ none → key_count k m ≡ 0
  unfolding lookup key_count
  key_count_of_none k [] h = refl
  key_count_of_none k ((j, v) ∷ m) h = ground (arith, key_count_of_none k m)

  pub none_of_key_count : (k : ℕ) (m : List (ℕ × V)) → key_count k m ≡ 0 → lookup k m ≡ none
  unfolding lookup key_count
  none_of_key_count k [] h = refl
  none_of_key_count k ((j, v) ∷ m) h = ground (arith, none_of_key_count k m)

  pub emplace_new :
      (k : ℕ) (v : V) (m : List (ℕ × V)) → lookup k m ≡ none → emplace k v m ≡ (k, v) ∷ m
  unfolding emplace
  emplace_new k v m h = ground arith

  pub tally-cons :
      (p : V → Bool) (k : ℕ) (v : V) (m : List (ℕ × V))
      → tally p ((k, v) ∷ m) ≡ one_if (p v) + tally p m
  unfolding tally
  tally-cons p k v m = refl

  pub key_count-cons :
      (j k : ℕ) (v : V) (m : List (ℕ × V))
      → key_count j ((k, v) ∷ m) ≡ one_if (k == j) + key_count j m
  unfolding key_count
  key_count-cons j k v m = refl

  pub tally-le-length : (p : V → Bool) (m : List (ℕ × V)) → tally p m ≤ length m
  unfolding tally
  tally-le-length p [] = omega arith
  tally-le-length p ((k, v) ∷ m) = ground (arith, tally-le-length p m)

  module _ (k : ℕ) (v : V) where
    pub tally-erase :
        (p : V → Bool) (m : List (ℕ × V))
        → lookup k m ≡ some v
        → tally p (erase k m) + one_if (p v) ≡ tally p m
    unfolding lookup tally erase
    tally-erase p [] h = ground arith
    tally-erase p ((j, u) ∷ m) h = ground (arith, tally-erase p m)

    pub key_count-erase :
        (j : ℕ) (m : List (ℕ × V))
        → lookup k m ≡ some v
        → key_count j (erase k m) + one_if (k == j) ≡ key_count j m
    unfolding lookup key_count erase
    key_count-erase j [] h = ground arith
    key_count-erase j ((i, u) ∷ m) h = ground (arith, key_count-erase j m)

    pub length-erase : (m : List (ℕ × V)) → lookup k m ≡ some v → length (erase k m) + 1 ≡ length m
    unfolding lookup erase
    length-erase [] h = ground arith
    length-erase ((i, u) ∷ m) h = ground (arith, length-erase m)

    pub tally-assign :
        (p : V → Bool) (w : V) (m : List (ℕ × V))
        → lookup k m ≡ some v
        → tally p (assign k w m) + one_if (p v) ≡ tally p m + one_if (p w)
    unfolding lookup tally assign
    tally-assign p w [] h = ground arith
    tally-assign p w ((j, u) ∷ m) h = ground (arith, tally-assign p w m)

  pub key_count-assign :
      (k j : ℕ) (w : V) (m : List (ℕ × V)) → key_count j (assign k w m) ≡ key_count j m
  unfolding key_count assign
  key_count-assign k j w [] = refl
  key_count-assign k j w ((i, u) ∷ m) = ground (arith, key_count-assign k j w m)

  pub length-assign : (k : ℕ) (w : V) (m : List (ℕ × V)) → length (assign k w m) ≡ length m
  unfolding assign
  length-assign k w [] = refl
  length-assign k w ((i, u) ∷ m) = ground (arith, length-assign k w m)
