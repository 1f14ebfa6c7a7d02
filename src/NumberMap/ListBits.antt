-- ===== src/NumberMap/ListBits.antt =====
-- A list of bits behaves as the bitset is documented to.
use skip_cell.Common.{
  ℕ, zero, suc, ◌+◌, ◌-◌, ◌≤◌, ◌<◌, ◌≡◌, refl, ap, ◌∙◌, Bool, false, List, [], ◌∷◌, Option, none,
  some, ◌==◌, if◌then◌else◌, length, get_elem?, set, arith, inl, inr, Bool-cases,
}
use skip_cell.Common.Sets.{get_elem?-set, length-set}
use skip_cell.NumberMap.Bits.{Bitset, scan}
use skip_cell.NumberMap.{resize}
use skip_cell.NumberMap.Tally.{length-resize, get_elem?-resize}

unfoldable pub or_false : Option Bool → Bool
or_false none = false
or_false (some b) = b

unfoldable pub at : List Bool → ℕ → Bool
unfolding or_false
at s i = or_false (get_elem? s i)

pub at-resize : (s : List Bool) (n i : ℕ) → i < length s → i < n → at (resize false n s) i ≡ at s i
unfolding at
at-resize s n i h k = ap or_false (get_elem?-resize false n s i h k)

pub at-beyond : (s : List Bool) (n i : ℕ) → length s ≤ i → i < n → at (resize false n s) i ≡ false
unfolding at or_false resize
at-beyond s zero i h k = refl
at-beyond [] (suc n) zero h k = refl
at-beyond [] (suc n) (suc i) h k = at-beyond [] n i (omega arith) (omega (arith, k))
at-beyond (b ∷ s) (suc n) zero h k = absurd (omega (arith, h))
at-beyond (b ∷ s) (suc n) (suc i) h k = at-beyond s n i (omega (arith, h)) (omega (arith, k))

pub at-set :
    (s : List Bool) (i j : ℕ) (v : Bool)
    → i < length s
    → at (set s i v) j ≡ (if i == j then v else at s j)
unfolding at or_false
at-set s i j v h =
    ap or_false (get_elem?-set s i j v h)
    ∙ elim (Bool-cases (i == j)) [ inl e ↦ rw e refl | inr e ↦ rw e refl ]

instance unfoldable pub list_bitset : Bitset (List Bool)
list_bitset = record {
  bits = length;
  test = at;
  resized = λ s n. resize false n s;
  put = λ s i v. set s i v;
  no_bits = [];
  cleared = λ s. [];
  find_first = λ s. scan (at s) 0 (length s);
  find_next = λ s i. scan (at s) (i + 1) (length s - (i + 1));
  bits-none = refl;
  bits-cleared = λ s. refl;
  bits-resized = λ s n. length-resize false n s;
  bits-put = λ s i v. length-set s i v;
  test-kept = at-resize;
  test-new = at-beyond;
  test-put = λ s i j v h k. at-set s i j v h;
  find_first-scan = λ s. refl;
  find_next-scan = λ s i. refl;
}
