-- ===== src/Adjacency/Records.antt =====
-- One neighbor list: the record that is written for it, and the check of a record.
use skip_cell.Common.{
  ℕ, zero, suc, ◌+◌, ◌-◌, ◌%◌, ◌^◌, Bool, true, false, ◌&&◌, ◌||◌, List, [], ◌∷◌, ◌++◌, map, ltb,
  leb, ◌==◌, if◌then◌else◌, length, replicate, set, Result, ok, ◌>>=◌,
}
unfoldable pub use skip_cell.Common.Sets.{insert, sort, same_list}
use skip_cell.Common.Bytes.{read_little, take, drop}
use skip_cell.Adjacency.Topology.{Topology, raw_offset, raw_neighbor, demand_that}
use skip_cell.Adjacency.Groups.{encode_groups, read_groups}
use skip_cell.Adjacency.Packed.{
  bit_width, packed_bytes, packed_permutation, byte_of, read_packed_permutation,
}

-- `std::sort` of pairs of a target and its position.
abbrev pub pair_leb : ℕ × ℕ → ℕ × ℕ → Bool
pair_leb (x, i) (y, j) = ltb x y || (x == y && leb i j)

unfoldable pub insert_pair : ℕ × ℕ → List (ℕ × ℕ) → List (ℕ × ℕ)
insert_pair p [] = p ∷ []
insert_pair p (q ∷ qs) = if pair_leb p q then p ∷ q ∷ qs else q ∷ insert_pair p qs

unfoldable pub sort_pairs : List (ℕ × ℕ) → List (ℕ × ℕ)
unfolding insert_pair
sort_pairs [] = []
sort_pairs (p ∷ ps) = insert_pair p (sort_pairs ps)

-- The targets of a node with their positions; each has to be a point.
unfoldable pub targets : ℕ → ℕ → Topology → ℕ → Result (List (ℕ × ℕ))
targets zero position t begin = ok []
targets (suc n) position t begin = do
  target ← raw_neighbor t (begin + position)
  _ ← demand_that (ltb target t.point_count)
  rest ← targets n (position + 1) t begin
  ok ((target, position % 256) ∷ rest)

abbrev pub permutation_bits : ℕ → ℕ
permutation_bits degree = if leb degree 1 then 0 else bit_width (degree - 1)

abbrev pub target_of : ℕ × ℕ → ℕ
target_of (x, i) = x

abbrev pub position_of : ℕ × ℕ → ℕ
position_of (x, i) = i

-- The bytes of the permutation, which come first if the order of the neighbors is to be kept.
abbrev pub order_bytes : Bool → List (ℕ × ℕ) → List ℕ
order_bytes true ordered =
    packed_permutation (map position_of ordered) (permutation_bits (length ordered))
order_bytes false ordered = []

unfoldable pub record_bytes : Bool → List (ℕ × ℕ) → List ℕ
record_bytes preserve ordered =
    length ordered % 256
    ∷ (order_bytes preserve ordered ++ encode_groups 0 0 (map target_of ordered))

abbrev pub permutation_size : Bool → ℕ → ℕ
permutation_size preserve degree =
    if preserve then packed_bytes degree (permutation_bits degree) else 0

-- The record of a node.
unfoldable pub node_record : Topology → Bool → ℕ → Result (List ℕ × ℕ)
unfolding targets record_bytes sort_pairs
node_record t preserve node = do
  begin ← raw_offset t node
  end ← raw_offset t (node + 1)
  pairs ← targets ((end + 2 ^ 64 - begin) % 2 ^ 64) 0 t begin
  ok (record_bytes preserve (sort_pairs pairs), permutation_size preserve (length pairs))

-- The neighbors of a node from an edge on.
unfoldable pub neighbors : ℕ → Topology → ℕ → Result (List ℕ)
neighbors zero t edge = ok []
neighbors (suc n) t edge = do x ← raw_neighbor t edge; xs ← neighbors n t (edge + 1); ok (x ∷ xs)

-- The loop that puts the sorted numbers at their old positions, each of which has to be free.
unfoldable pub restore : ℕ → List ℕ → ℕ → List ℕ → List ℕ → List ℕ → Result (List ℕ)
restore index [] bits permutation seen restored = ok restored
restore index (x ∷ sorted) bits permutation seen restored = do
  let position = read_packed_permutation permutation index bits
  _ ← demand_that (ltb position (length restored) && byte_of position seen == 0)
  restore (index + 1) sorted bits permutation (set seen position 1) (set restored position x)

-- What is read has to agree with the topology: as it stands there, or sorted.
abbrev pub check_replay : Bool → List ℕ → List ℕ → List ℕ → Result (Unit {0})
check_replay true permutation sorted expected = do
  let degree = length sorted
  restored ←
      restore 0 sorted (permutation_bits degree) permutation (replicate degree 0)
        (replicate degree 0)
  demand_that (same_list restored expected)
check_replay false permutation sorted expected = demand_that (same_list sorted (sort expected))

-- The check of the record of a node, which gives the size of its permutation.
unfoldable pub verify_record : Topology → Bool → ℕ → List ℕ → Result ℕ
unfolding sort neighbors same_list restore
verify_record t preserve node bytes = do
  (degree, behind) ← read_little 1 bytes
  begin ← raw_offset t node
  end ← raw_offset t (node + 1)
  _ ← demand_that (degree == (end + 2 ^ 64 - begin) % 2 ^ 64)
  let size = permutation_size preserve degree
  _ ← demand_that (leb size (length behind))
  (sorted, left) ← read_groups degree degree 0 0 (drop size behind)
  _ ← demand_that (length left == 0)
  expected ← neighbors ((end + 2 ^ 64 - begin) % 2 ^ 64) t begin
  _ ← check_replay preserve (take size behind) sorted expected
  ok size
