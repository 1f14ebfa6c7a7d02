-- ===== src/Adjacency/Topology.antt =====
-- `parse_raw_topology`: the header of a topology file and the checks on its offsets.
use skip_cell.Common.{
  ℕ, zero, suc, ◌+◌, ◌-◌, ◌*◌, ◌/◌, ◌%◌, ◌^◌, Bool, not, ◌&&◌, ◌||◌, List, [], ◌∷◌, ltb, leb, ◌==◌,
  if◌then◌else◌, length, Result, ok, throws, runtime_error, ◌>>=◌,
}
use skip_cell.Common.Bytes.{read_little, read_fields, subspan, drop, checksum_bytes}

-- `checked_add` and `checked_multiply` of 64-bit numbers.
unfoldable pub checked_add : ℕ → ℕ → Result ℕ
checked_add left right =
    if ltb (2 ^ 64 - 1 - left) right then throws runtime_error else ok (left + right)

unfoldable pub checked_multiply : ℕ → ℕ → Result ℕ
checked_multiply left right =
    if not (left == 0) && ltb ((2 ^ 64 - 1) / left) right
    then throws runtime_error
    else ok (left * right)

pub record Topology : Type 0 where
  pub file : List ℕ
  pub point_count : ℕ
  pub edge_count : ℕ
  pub maximum_degree : ℕ
  pub offsets_offset : ℕ
  pub offsets_bytes : ℕ
  pub offsets_checksum : ℕ
  pub adjacency_offset : ℕ
  pub adjacency_bytes : ℕ
  pub adjacency_checksum : ℕ

abbrev pub first_of : Result (ℕ × List ℕ) → Result ℕ
first_of (ok (x, rest)) = ok x
first_of (throws e) = throws e

unfoldable pub raw_offset : Topology → ℕ → Result ℕ
raw_offset t node = first_of (read_little 8 (drop (t.offsets_offset + node * 8) t.file))

unfoldable pub raw_neighbor : Topology → ℕ → Result ℕ
raw_neighbor t edge = first_of (read_little 4 (drop (t.adjacency_offset + edge * 4) t.file))

-- The widths of the fields of the header, from its magic to its last checksum.
abbrev pub raw_widths : List ℕ
raw_widths =
    8 ∷ 4 ∷ 4 ∷ 4 ∷ 4 ∷ 8 ∷ 8 ∷ 4 ∷ 4 ∷ 4 ∷ 8 ∷ 8 ∷ 8 ∷ 8 ∷ 8 ∷ 8 ∷ 8 ∷ 8 ∷ 8 ∷ 8 ∷ 8 ∷ 8 ∷ 8 ∷ []

-- A field by its place.
unfoldable pub field : ℕ → List ℕ → ℕ
field i [] = 0
field zero (x ∷ xs) = x
field (suc i) (x ∷ xs) = field i xs

abbrev pub topology_magic : ℕ
topology_magic = 0x31504F544F494C50

abbrev pub little_endian_marker : ℕ
little_endian_marker = 0x01020304

abbrev pub io_vector_page_size : ℕ
io_vector_page_size = 4096

-- Magic, version, byte order, header size and page size.
abbrev pub known_format : List ℕ → List ℕ → Bool
known_format file fields =
    let version = field 1 fields in
    let header_bytes = field 3 fields in
    field 0 fields == topology_magic
    && not (ltb version 4 || ltb 6 version)
    && field 2 fields == little_endian_marker
    && not (version == 4 && not (header_bytes == 256))
    && not (leb 5 version && not (header_bytes == 320))
    && leb header_bytes (length file)
    && field 4 fields == io_vector_page_size

abbrev pub topology_of : List ℕ → List ℕ → Topology
topology_of file fields = record {
  file = file;
  point_count = field 5 fields;
  edge_count = field 10 fields;
  maximum_degree = field 7 fields;
  offsets_offset = field 17 fields;
  offsets_bytes = field 18 fields;
  offsets_checksum = field 19 fields;
  adjacency_offset = field 20 fields;
  adjacency_bytes = field 21 fields;
  adjacency_checksum = field 22 fields;
}

-- Counts, encoding, and the two sections one behind the other within the file.
abbrev pub compatible : List ℕ → Topology → ℕ → ℕ → Bool
compatible fields t expected_offsets expected_adjacency =
    not (t.point_count == 0)
    && not (t.maximum_degree == 0)
    && field 8 fields == 0
    && t.offsets_offset == field 3 fields
    && t.offsets_bytes == expected_offsets
    && t.adjacency_offset == (t.offsets_offset + t.offsets_bytes) % 2 ^ 64
    && t.adjacency_bytes == expected_adjacency
    && leb t.adjacency_offset (length t.file)
    && leb t.adjacency_bytes (length t.file - t.adjacency_offset)

abbrev pub sections_checked : Topology → Bool
sections_checked t =
    checksum_bytes (subspan t.offsets_offset t.offsets_bytes t.file) == t.offsets_checksum
    && checksum_bytes (subspan t.adjacency_offset t.adjacency_bytes t.file) == t.adjacency_checksum

abbrev pub demand_that : Bool → Result (Unit {0})
demand_that condition = if condition then ok tt else throws runtime_error

-- The loop over the nodes: offsets that grow by the maximum degree at most.
unfoldable pub check_degrees : ℕ → Topology → ℕ → ℕ → Result (Unit {0})
check_degrees zero t node previous = ok tt
check_degrees (suc n) t node previous = do
  next ← raw_offset t (node + 1)
  _ ← demand_that (leb previous next && leb (next - previous) t.maximum_degree)
  check_degrees n t (node + 1) next

-- The checks behind the header.
unfoldable pub check_topology : List ℕ → Topology → Result Topology
unfolding checked_add checked_multiply check_degrees
check_topology fields t = do
  offset_count ← checked_add t.point_count 1
  expected_offsets ← checked_multiply offset_count 8
  expected_adjacency ← checked_multiply t.edge_count 4
  _ ← demand_that (compatible fields t expected_offsets expected_adjacency)
  _ ← demand_that (sections_checked t)
  first ← raw_offset t 0
  last ← raw_offset t t.point_count
  _ ← demand_that (first == 0 && last == t.edge_count)
  _ ← check_degrees t.point_count t 0 0
  ok t

abbrev pub parse_fields : List ℕ → Result (List ℕ × List ℕ) → Result Topology
parse_fields file (throws e) = throws e
parse_fields file (ok (fields, rest)) =
    if known_format file fields
    then check_topology fields (topology_of file fields)
    else throws runtime_error

unfoldable pub parse_raw_topology : List ℕ → Result Topology
unfolding check_topology
parse_raw_topology file =
    if ltb (length file) 256
    then throws runtime_error
    else parse_fields file (read_fields raw_widths file)
