-- ===== src/NumberSet.antt =====
-- include/common/natural_number_set.h and src/common/natural_number_set.cc: a set of natural numbers as a
-- vector beside a bitset. The vector is a list that begins with its back.
pub mod Agreement
mod Tests
use skip_cell.Common.{
  ℕ, ◌+◌, Bool, true, false, ◌&&◌, List, [], ◌∷◌, ltb, leb, if◌then◌else◌, length, Result, ok,
  throws, runtime_error, undefined,
}
use skip_cell.NumberMap.Bits.{Bitset}

pub record NumberSet (B : Type 0) : Type 0 where
  pub values_vector : List ℕ
  pub values_bitset : B

module _ {B : Type 0} ⦃b : Bitset B⦄ where
  open b use {bits, test, resized, put, cleared, no_bits}

  unfoldable pub empty_set : NumberSet B
  empty_set = record { values_vector = []; values_bitset = no_bits }

  abbrev pub with_room : ℕ → B → B
  with_room id s = if leb (bits s) id then resized s (id + 1) else s

  unfoldable pub insert_id : ℕ → NumberSet B → NumberSet B
  insert_id id s = record {
    values_vector = id ∷ s.values_vector;
    values_bitset = put (with_room id s.values_bitset) id true;
  }

  unfoldable pub pop_any : NumberSet B → Result (ℕ × NumberSet B)
  pop_any s = elim s.values_vector [
    | [] ↦ throws runtime_error
    | id ∷ rest ↦
        ok (id, record { values_vector = rest; values_bitset = put s.values_bitset id false })
  ]

  unfoldable pub clear_set : NumberSet B → NumberSet B
  clear_set s = record { values_vector = []; values_bitset = cleared s.values_bitset }

  -- A test behind the end of the bitset is left undefined by it.
  unfoldable pub is_in_set : ℕ → NumberSet B → Result Bool
  is_in_set id s =
      if ltb id (bits s.values_bitset) then ok (test s.values_bitset id) else throws undefined
