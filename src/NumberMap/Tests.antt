-- ===== src/NumberMap/Tests.antt =====
-- Runs of the map over a list of bits.
use skip_cell.Common.{some, ℕ, ◌≡◌, refl, Bool, true, false, List, [], ◌∷◌, none, length}
use skip_cell.NumberMap.ListBits.{list_bitset, at, or_false}
use skip_cell.NumberMap.{NumberMap, new, try_get, contains_key}
use skip_cell.NumberMap.Refinement.{Op, sets, erases, run, meant_all, try_get-run, IsValid}
use skip_cell.NumberMap.Tally.{tally_below}
use skip_cell.NumberMap.Enumeration.{all_keys, passing, all_keys-passing}

abbrev calls : List (Op ℕ)
calls = sets 2 20 ∷ sets 0 10 ∷ sets 2 21 ∷ sets 4 40 ∷ erases 0 ∷ []

try_get-run_example :
    let m : NumberMap (List Bool) ℕ = run 0 calls new in
    ((j : ℕ) → try_get j m ≡ meant_all calls (λ _. none) j)
    × (m.size ≡ tally_below (λ k. contains_key k m) (length m.values_bitset))
unfolding run list_bitset
try_get-run_example = try_get-run (List Bool) 0 calls

abbrev two_keys : NumberMap (List Bool) ℕ
two_keys = record {
  size = 2;
  values_vector = 10 ∷ 0 ∷ 20 ∷ [];
  values_bitset = true ∷ false ∷ true ∷ [];
}

two_keys-IsValid : IsValid two_keys
unfolding tally_below at or_false list_bitset
two_keys-IsValid = record { measured = refl; counted = refl }

all_keys-passing_example : all_keys two_keys ≡ some (passing (at two_keys.values_bitset) 0 3)
unfolding at list_bitset
all_keys-passing_example = all_keys-passing two_keys two_keys-IsValid

two_keys_met : passing (at two_keys.values_bitset) 0 3 ≡ 0 ∷ 2 ∷ []
unfolding passing at or_false
two_keys_met = refl
