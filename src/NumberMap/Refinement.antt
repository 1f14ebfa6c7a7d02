-- ===== src/NumberMap/Refinement.antt =====
-- The map as a partial function from keys to values.
use skip_cell.Common.{
  ℕ, ◌+◌, ◌-◌, ◌≤◌, ◌<◌, ◌≡◌, refl, sym, ap, ◌∙◌, Bool, true, false, inl, inr, Bool-cases, List, [],
  ◌∷◌, Option, none, some, ltb, leb, ◌==◌, if◌then◌else◌, one_if, length, arith,
}
use mathlib.Core.Path.{fun_ext}
use skip_cell.Common.Sets.{get_elem?-set, length-set}
use skip_cell.NumberMap.Bits.{Bitset}
use skip_cell.NumberMap.Tally.{
  tally_below, tally_below-ext, tally_below_more, tally_below-put, length-resize, get_elem?-resize,
}
use skip_cell.NumberMap.{
  NumberMap, new, grown, written, set_value, erase, contains_key, try_get, clear,
}

module _ {B V : Type 0} ⦃b : Bitset B⦄ where
  open b use {
    bits, test, resized, put, cleared, bits-cleared, bits-none, bits-resized, bits-put, test-kept,
    test-new, test-put,
  }

  -- The vector is as long as the bitset, and the size counts the bits.
  pub record IsValid (m : NumberMap B V) : Type 0 where
    pub measured : length m.values_vector ≡ bits m.values_bitset
    pub counted : m.size ≡ tally_below (test m.values_bitset) (bits m.values_bitset)

  grown-IsValid :
      (fresh : V) (key : ℕ) (m : NumberMap B V)
      → IsValid m
      → IsValid (grown fresh key m)
        × (key < bits (grown fresh key m).values_bitset)
        × ((j : ℕ) → try_get j (grown fresh key m) ≡ try_get j m)
  unfolding try_get
  grown-IsValid fresh key m v = elim (Bool-cases (leb (bits m.values_bitset) key)) [
    | inr inside ↦ rw inside (v, ground (arith, inside), λ j. refl)
    | inl outside ↦
        let n = bits m.values_bitset in
        let old = test m.values_bitset in
        let now = test (resized m.values_bitset (key + 1)) in
        let wide : bits (resized m.values_bitset (key + 1)) ≡ key + 1 =
          bits-resized m.values_bitset (key + 1) in
        let beyond : n ≤ key = ground (arith, outside) in
        let same : (i : ℕ) → i < n → now i ≡ old i =
          λ i h. test-kept m.values_bitset (key + 1) i h (omega (arith, beyond, h)) in
        let fresh_bits : (i : ℕ) → n ≤ i → i < key + 1 → now i ≡ false =
          λ i h k. test-new m.values_bitset (key + 1) i h k in
        let total_of : tally_below now (key + 1) ≡ tally_below old n =
          ap (tally_below now) (omega (arith, beyond))
          ∙ tally_below_more now n (key + 1 - n)
              (λ i h k. fresh_bits i h (omega (arith, k, beyond)))
          ∙ tally_below-ext now old n same in
        rw outside (
          record {
            measured = length-resize fresh (key + 1) m.values_vector ∙ sym wide;
            counted = v.counted ∙ sym total_of ∙ ap (tally_below now) (sym wide);
          },
          omega (arith, wide),
          λ j. ground (
            arith,
            wide,
            same j,
            fresh_bits j,
            get_elem?-resize fresh (key + 1) m.values_vector j,
            v.measured,
            beyond,
          ),
        )
  ]

  -- A bit written anew.
  bits_written :
      (m : NumberMap B V) (key : ℕ) (v : Bool)
      → key < bits m.values_bitset
      → tally_below (test (put m.values_bitset key v)) (bits (put m.values_bitset key v))
          + one_if (test m.values_bitset key)
        ≡ tally_below (test m.values_bitset) (bits m.values_bitset) + one_if v
  bits_written m key v inside =
      let n = bits m.values_bitset in
      let p = test m.values_bitset in
      let now = test (put m.values_bitset key v) in
      let moved : tally_below now n ≡ tally_below (λ j. if key == j then v else p j) n =
        tally_below-ext now (λ j. if key == j then v else p j) n
          (λ i h. test-put m.values_bitset key i v inside h) in
      let wide : tally_below now (bits (put m.values_bitset key v)) ≡ tally_below now n =
        ap (tally_below now) (bits-put m.values_bitset key v) in
      omega (arith, wide, moved, tally_below-put p key n v inside)

  written-get :
      (key : ℕ) (value : V) (m : NumberMap B V) (j : ℕ)
      → length m.values_vector ≡ bits m.values_bitset
      → key < bits m.values_bitset
      → try_get j (written key value m) ≡ (if key == j then some value else try_get j m)
  unfolding try_get
  written-get key value m j measured inside = ground (
    arith,
    test-put m.values_bitset key j true inside,
    bits-put m.values_bitset key true,
    get_elem?-set m.values_vector key j value (omega (arith, measured, inside)),
    inside,
  )

  -- A key is written, and every other key keeps its value.
  pub set_value-IsValid :
      (fresh : V) (key : ℕ) (value : V) (m : NumberMap B V)
      → IsValid m
      → IsValid (set_value fresh key value m)
        × ((j : ℕ)
            → try_get j (set_value fresh key value m)
              ≡ (if key == j then some value else try_get j m))
  unfolding set_value
  set_value-IsValid fresh key value m v =
      let g = grown fresh key m in
      let (w, inside, same) = grown-IsValid fresh key m v in
      let counts = bits_written g key true inside in
      (
        record {
          measured =
              length-set g.values_vector key value
              ∙ w.measured
              ∙ sym (bits-put g.values_bitset key true);
          counted = ground (arith, counts, w.counted);
        },
        λ j.
            written-get key value g j (omega (arith, w.measured)) inside
            ∙ ap (λ o. if key == j then some value else o) (same j),
      )

  pub erase-IsValid :
      (key : ℕ) (m : NumberMap B V)
      → IsValid m
      → IsValid (erase key m)
        × ((j : ℕ) → try_get j (erase key m) ≡ (if key == j then none else try_get j m))
  unfolding erase try_get
  erase-IsValid key m v = elim (Bool-cases (ltb key (bits m.values_bitset))) [
    | inr outside ↦ rw outside (v, λ j. ground (arith, outside))
    | inl inside ↦
        let here : key < bits m.values_bitset = ground (arith, inside) in
        let counts = bits_written m key false here in
        rw inside (
          record {
            measured = v.measured ∙ sym (bits-put m.values_bitset key false);
            counted = ground (arith, counts, v.counted);
          },
          λ j. ground (
            arith,
            test-put m.values_bitset key j false here,
            bits-put m.values_bitset key false,
          ),
        )
  ]

  pub clear-IsValid :
      (m : NumberMap B V) → IsValid (clear m) × ((j : ℕ) → try_get j (clear m) ≡ none)
  unfolding clear try_get tally_below
  clear-IsValid m = (
    record {
      measured = sym (bits-cleared m.values_bitset);
      counted =
          sym (ap (tally_below (test (cleared m.values_bitset))) (bits-cleared m.values_bitset));
    },
    λ j. ground (arith, bits-cleared m.values_bitset),
  )

-- A call that changes the map.
pub data Op (V : Type 0) : Type 0 where
  sets : ℕ → V → Op V
  erases : ℕ → Op V
  clears : Op V

-- What the call means for a partial function.
abbrev pub meant : {V : Type 0} → Op V → (ℕ → Option V) → ℕ → Option V
meant (sets key value) f j = if key == j then some value else f j
meant (erases key) f j = if key == j then none else f j
meant clears f j = none

abbrev pub meant_all : {V : Type 0} → List (Op V) → (ℕ → Option V) → ℕ → Option V
meant_all [] f = f
meant_all (op ∷ ops) f = meant_all ops (meant op f)

module _ {B V : Type 0} ⦃b : Bitset B⦄ where
  unfoldable pub step : V → Op V → NumberMap B V → NumberMap B V
  step fresh (sets key value) m = set_value fresh key value m
  step fresh (erases key) m = erase key m
  step fresh clears m = clear m

  unfoldable pub run : V → List (Op V) → NumberMap B V → NumberMap B V
  unfolding step
  run fresh [] m = m
  run fresh (op ∷ ops) m = run fresh ops (step fresh op m)

  step-meant :
      (fresh : V) (op : Op V) (m : NumberMap B V)
      → IsValid m
      → IsValid (step fresh op m)
        × ((j : ℕ) → try_get j (step fresh op m) ≡ meant op (λ k. try_get k m) j)
  unfolding step
  step-meant fresh (sets key value) m v = set_value-IsValid fresh key value m v
  step-meant fresh (erases key) m v = erase-IsValid key m v
  step-meant fresh clears m v = clear-IsValid m

  run-meant :
      (fresh : V) (ops : List (Op V)) (m : NumberMap B V)
      → IsValid m
      → IsValid (run fresh ops m)
        × ((j : ℕ) → try_get j (run fresh ops m) ≡ meant_all ops (λ k. try_get k m) j)
  unfolding run
  run-meant fresh [] m v = (v, λ j. refl)
  run-meant fresh (op ∷ ops) m v =
      let (w, now) = step-meant fresh op m v in
      let (u, later) = run-meant fresh ops (step fresh op m) w in
      (u, λ j. later j ∙ ap (λ f. meant_all ops f j) (fun_ext now))

module _ (B V : Type 0) ⦃b : Bitset B⦄ where
  open b use {bits, test, bits-none, no_bits}

  new-IsValid : IsValid (new {B = B} {V = V})
  unfolding new tally_below
  new-IsValid = record {
    measured = sym bits-none;
    counted = sym (ap (tally_below (test no_bits)) bits-none);
  }

  new-empty : (j : ℕ) → try_get j (new {B = B} {V = V}) ≡ none
  unfolding try_get new
  new-empty j = ground (arith, bits-none)

module _ (B : Type 0) {V : Type 0} ⦃b : Bitset B⦄ where
  open b use {bits, test}

  -- After any calls of set, erase and clear on a new map, over any bitset that behaves as documented,
  -- try_get gives for each key what the calls mean for a partial function that starts out empty, and
  -- the size is the number of keys that the bitset has.
  pub try_get-run :
      (fresh : V) (ops : List (Op V))
      → let m : NumberMap B V = run fresh ops new in
        ((j : ℕ) → try_get j m ≡ meant_all ops (λ _. none) j)
        × (m.size ≡ tally_below (λ k. contains_key k m) (bits m.values_bitset))
  unfolding contains_key
  try_get-run fresh ops =
      let m : NumberMap B V = run fresh ops new in
      let (v, e) = run-meant fresh ops (new {B = B} {V = V}) (new-IsValid B V) in
      (
        λ j. e j ∙ ap (λ f. meant_all ops f j) (fun_ext (new-empty B V)),
        v.counted
            ∙ tally_below-ext (test m.values_bitset) (λ k. contains_key k m) (bits m.values_bitset)
                (λ i h. ground (arith, h)),
      )
