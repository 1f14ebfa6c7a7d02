-- ===== src/Delta.antt =====
-- src/delta_store.cc: the buffer of inserted vectors, its file and the replay of that.
-- A file is its bytes; a float is the 32-bit word that holds it. The files open and the writes succeed.
-- The index is a state with an insertion.
pub mod Codec
pub mod Replay
mod Tests
use skip_cell.Common.{
  ℕ, zero, suc, ◌+◌, ◌*◌, ◌/◌, ◌%◌, Bool, true, false, List, [], ◌∷◌, ◌++◌, Option, none, some, leb,
  ◌==◌, if◌then◌else◌, length,
}
use skip_cell.Common.Bytes.{encode, decode, read_exact}

-- A record; its operation is an insertion always.
pub record Record : Type 0 where
  pub label : ℕ
  pub vec : List ℕ

pub record Store : Type 0 where
  pub dim : ℕ
  pub max_buffer : ℕ
  pub records : List Record

pub new : ℕ → ℕ → Store
new dim max_buffer = record { dim = dim; max_buffer = max_buffer; records = [] }

-- The first `n` of the floats that a pointer leads to.
unfoldable pub first : ℕ → List ℕ → List ℕ
first zero xs = []
first (suc n) [] = []
first (suc n) (x ∷ xs) = x ∷ first n xs

unfoldable pub add : List ℕ → ℕ → Store → Store
unfolding first
add vec label s = record s {
  records = s.records ++ (record { label = label; vec = first s.dim vec }) ∷ [];
}

unfoldable pub is_full : Store → Bool
is_full s = leb s.max_buffer (length s.records)

unfoldable pub encode_vec : List ℕ → List ℕ
encode_vec [] = []
encode_vec (w ∷ words) = encode 4 w ++ encode_vec words

unfoldable pub encode_record : Record → List ℕ
encode_record r = 1 ∷ encode 8 r.label ++ encode_vec r.vec

unfoldable pub encode_all : List Record → List ℕ
encode_all [] = []
encode_all (r ∷ records) = encode_record r ++ encode_all records

-- The records go behind what the file has. They stay in the buffer.
unfoldable pub flush_to_file : Store → List ℕ → List ℕ
flush_to_file s file = file ++ encode_all s.records

-- `in.read` fails if the file has fewer bytes.
abbrev pub after_word : List ℕ → Option (List ℕ × List ℕ) → Option (List ℕ × List ℕ)
after_word word none = none
after_word word (some (words, rest)) = some (decode word ∷ words, rest)

-- `n` floats, read together.
unfoldable pub read_vec : ℕ → List ℕ → Option (List ℕ × List ℕ)
read_vec zero bytes = some ([], bytes)
read_vec (suc n) bytes = elim (read_exact 4 bytes) [
  | none ↦ none
  | some (word, rest) ↦ after_word word (read_vec n rest)
]

abbrev pub with_vec : ℕ → List ℕ → Option (List ℕ × List ℕ) → Option (ℕ × Record × List ℕ)
with_vec op label none = none
with_vec op label (some (vec, rest)) = some (op, record { label = decode label; vec = vec }, rest)

abbrev pub with_label : ℕ → ℕ → Option (List ℕ × List ℕ) → Option (ℕ × Record × List ℕ)
with_label dim op none = none
with_label dim op (some (label, rest)) = with_vec op label (read_vec dim rest)

-- The three reads of a round: operation, label and vector.
unfoldable pub read_record : ℕ → List ℕ → Option (ℕ × Record × List ℕ)
read_record dim [] = none
read_record dim (op ∷ bytes) = with_label dim op (read_exact 8 bytes)

module _ {ℓ} {Index : Type ℓ} (insert : Record → Index → Index) where
  -- `apply_and_clear`: the index after the insertions.
  unfoldable pub apply_all : List Record → Index → Index
  apply_all [] index = index
  apply_all (r ∷ records) index = apply_all records (insert r index)

  unfoldable pub apply_and_clear : Store → Index → Store × Index
  apply_and_clear s index = (record s { records = [] }, apply_all s.records index)

  -- The loop of `replay_file`, a round for each unit of fuel. A record that is cut off ends it.
  unfoldable pub replay_each : ℕ → ℕ → List ℕ → Index → Index
  replay_each zero dim bytes index = index
  replay_each (suc fuel) dim bytes index = elim (read_record dim bytes) [
    | none ↦ index
    | some (op, r, rest) ↦ replay_each fuel dim rest (if op == 1 then insert r index else index)
  ]

  -- A file that is not there is not replayed.
  unfoldable pub replay_file : ℕ → Option (List ℕ) → Index → Index
  replay_file dim none index = index
  replay_file dim (some bytes) index = replay_each (length bytes) dim bytes index
