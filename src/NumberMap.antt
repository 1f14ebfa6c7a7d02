-- ===== src/NumberMap.antt =====
-- include/common/natural_number_map.h and src/common/natural_number_map.cc: a map from natural
-- numbers as a vector of values beside a bitset that says which are there. The bitset is a library's,
-- `boost::dynamic_bitset`: a parameter with the behaviour that its documentation states.
pub mod Bits
pub mod Tally
pub mod Refinement
pub mod Enumeration
pub mod ListBits
mod Tests
use skip_cell.Common.{
  ℕ, zero, suc, ◌+◌, ◌-◌, ◌<◌, Bool, true, false, not, ◌&&◌, List, [], ◌∷◌, ◌++◌, Option, none,
  some, ltb, leb, ◌==◌, if◌then◌else◌, length, get_elem?, set, Result, ok, throws, runtime_error,
  undefined,
}
use skip_cell.NumberMap.Bits.{Bitset}

-- `std::vector::resize`, with the value of a fresh element.
unfoldable pub resize {ℓ} : {V : Type ℓ} → V → ℕ → List V → List V
resize fresh zero xs = []
resize fresh (suc n) [] = fresh ∷ resize fresh n []
resize fresh (suc n) (x ∷ xs) = x ∷ resize fresh n xs

pub record NumberMap (B V : Type 0) : Type 0 where
  pub size : ℕ
  pub values_vector : List V
  pub values_bitset : B

-- `position_t`; a key that is not there is `npos`.
pub record Position : Type 0 where
  pub key : Option ℕ
  pub keys_already_enumerated : ℕ

module _ {B V : Type 0} ⦃b : Bitset B⦄ where
  open b use {
    bits, test, resized, put, cleared, no_bits, find_first as first_bit, find_next as next_bit,
  }

  pub new : NumberMap B V
  new = record { size = 0; values_vector = []; values_bitset = no_bits }

  -- The growth of the map for a key.
  abbrev pub grown : V → ℕ → NumberMap B V → NumberMap B V
  grown fresh key m =
      if leb (bits m.values_bitset) key
      then record m {
        values_bitset = resized m.values_bitset (key + 1);
        values_vector = resize fresh (key + 1) m.values_vector;
      }
      else m

  abbrev written : ℕ → V → NumberMap B V → NumberMap B V
  written key value m = record {
    size = if test m.values_bitset key then m.size else m.size + 1;
    values_vector = set m.values_vector key value;
    values_bitset = put m.values_bitset key true;
  }

  unfoldable pub set_value : V → ℕ → V → NumberMap B V → NumberMap B V
  unfolding resize
  set_value fresh key value m = written key value (grown fresh key m)

  unfoldable pub erase : ℕ → NumberMap B V → NumberMap B V
  erase key m =
      if ltb key (bits m.values_bitset)
      then record m {
        values_bitset = put m.values_bitset key false;
        size = if test m.values_bitset key then m.size - 1 else m.size;
      }
      else m

  unfoldable pub contains_key : ℕ → NumberMap B V → Bool
  contains_key key m = ltb key (bits m.values_bitset) && test m.values_bitset key

  -- The value, if `try_get` returns true.
  unfoldable pub try_get : ℕ → NumberMap B V → Option V
  unfolding contains_key
  try_get key m = if not (contains_key key m) then none else get_elem? m.values_vector key

  unfoldable pub clear : NumberMap B V → NumberMap B V
  clear m = record { size = 0; values_vector = []; values_bitset = cleared m.values_bitset }

  unfoldable pub find_first : NumberMap B V → Position
  find_first m = record {
    key = if ltb 0 m.size then first_bit m.values_bitset else none;
    keys_already_enumerated = 0;
  }

  -- The next position after that of a key.
  unfoldable pub find_next : NumberMap B V → ℕ → ℕ → Position
  find_next m key enumerated = record {
    key = if ltb enumerated m.size then next_bit m.values_bitset key else none;
    keys_already_enumerated = enumerated + 1;
  }
