-- ===== src/Adjacency/Artifact.antt =====
-- The statistics file: its header, the loop that builds it, and its verification. The paths, the
-- temporary file and its renaming are left out: the file system gives back what was written.
use skip_cell.Common.{
  ℕ, zero, suc, ◌+◌, ◌-◌, ◌*◌, ◌%◌, ◌^◌, Bool, not, ◌&&◌, List, [], ◌∷◌, ◌++◌, ltb, leb, ◌==◌,
  if◌then◌else◌, length, replicate, Result, ok, throws, runtime_error, ◌>>=◌,
}
use skip_cell.Common.Bits.{bit_and, bit_or}
use skip_cell.Common.Bytes.{
  encode, encode_fields, read_little, read_fields, subspan, drop, checksum_bytes,
}
use skip_cell.Adjacency.Topology.{
  Topology, little_endian_marker, field, checked_add, checked_multiply, demand_that,
  parse_raw_topology,
}
use skip_cell.Adjacency.Records.{node_record, verify_record}

pub record Header : Type 0 where
  pub flags : ℕ
  pub point_count : ℕ
  pub edge_count : ℕ
  pub maximum_degree : ℕ
  pub source_topology_bytes : ℕ
  pub source_topology_checksum : ℕ
  pub raw_adjacency_bytes : ℕ
  pub source_adjacency_checksum : ℕ
  pub offsets_offset : ℕ
  pub offsets_bytes : ℕ
  pub offsets_checksum : ℕ
  pub payload_offset : ℕ
  pub payload_bytes : ℕ
  pub payload_checksum : ℕ
  pub permutation_bytes : ℕ

abbrev pub statistics_magic : ℕ
statistics_magic = 0x5441545356474C50

abbrev pub statistics_header_bytes : ℕ
statistics_header_bytes = 192

-- `k_statistics_only_flag | k_sorted_adjacency_flag` and `k_preserves_neighbor_order_flag`.
abbrev pub required_flags : ℕ
required_flags = 3

abbrev pub order_flag : ℕ
order_flag = 4

-- The fields of the header with their widths.
abbrev pub header_fields : Header → List (ℕ × ℕ)
header_fields h =
    (8, statistics_magic)
    ∷ (4, 1)
    ∷ (4, little_endian_marker)
    ∷ (4, statistics_header_bytes)
    ∷ (4, 1)
    ∷ (4, h.flags)
    ∷ (4, 0)
    ∷ (8, h.point_count)
    ∷ (8, h.edge_count)
    ∷ (4, h.maximum_degree)
    ∷ (4, 0)
    ∷ (8, h.source_topology_bytes)
    ∷ (8, h.source_topology_checksum)
    ∷ (8, h.raw_adjacency_bytes)
    ∷ (8, h.source_adjacency_checksum)
    ∷ (8, h.offsets_offset)
    ∷ (8, h.offsets_bytes)
    ∷ (8, h.offsets_checksum)
    ∷ (8, h.payload_offset)
    ∷ (8, h.payload_bytes)
    ∷ (8, h.payload_checksum)
    ∷ (8, h.permutation_bytes)
    ∷ []

-- Zeros fill the header up to its size.
unfoldable pub serialize_statistics_header : Header → List ℕ
serialize_statistics_header h = encode_fields (header_fields h) ++ replicate 48 0

abbrev pub header_widths : List ℕ
header_widths =
    8 ∷ 4 ∷ 4 ∷ 4 ∷ 4 ∷ 4 ∷ 4 ∷ 8 ∷ 8 ∷ 4 ∷ 4 ∷ 8 ∷ 8 ∷ 8 ∷ 8 ∷ 8 ∷ 8 ∷ 8 ∷ 8 ∷ 8 ∷ 8 ∷ 8 ∷ []

abbrev pub header_of : List ℕ → Header
header_of fields = record {
  flags = field 5 fields;
  point_count = field 7 fields;
  edge_count = field 8 fields;
  maximum_degree = field 9 fields;
  source_topology_bytes = field 11 fields;
  source_topology_checksum = field 12 fields;
  raw_adjacency_bytes = field 13 fields;
  source_adjacency_checksum = field 14 fields;
  offsets_offset = field 15 fields;
  offsets_bytes = field 16 fields;
  offsets_checksum = field 17 fields;
  payload_offset = field 18 fields;
  payload_bytes = field 19 fields;
  payload_checksum = field 20 fields;
  permutation_bytes = field 21 fields;
}

-- Magic, version, byte order, header size and codec.
abbrev pub known_statistics : List ℕ → Bool
known_statistics fields =
    field 0 fields == statistics_magic
    && field 1 fields == 1
    && field 2 fields == little_endian_marker
    && field 3 fields == statistics_header_bytes
    && field 4 fields == 1

abbrev pub parse_statistics : Result (List ℕ × List ℕ) → Result Header
parse_statistics (throws e) = throws e
parse_statistics (ok (fields, rest)) =
    if known_statistics fields then ok (header_of fields) else throws runtime_error

unfoldable pub parse_statistics_header : List ℕ → Result Header
parse_statistics_header file =
    if ltb (length file) statistics_header_bytes
    then throws runtime_error
    else parse_statistics (read_fields header_widths file)

unfoldable pub serialize_offsets : List ℕ → List ℕ
serialize_offsets [] = []
serialize_offsets (x ∷ xs) = encode 8 x ++ serialize_offsets xs

-- The loop over the nodes: the offsets of the records from one position of the payload on, with the
-- one behind the last, the records themselves, and the bytes that the permutations take.
unfoldable pub build_nodes : ℕ → ℕ → ℕ → Topology → Bool → Result (List ℕ × List ℕ × ℕ)
build_nodes zero node position t preserve = ok (position ∷ [], [], 0)
build_nodes (suc n) node position t preserve = do
  (bytes, permutation) ← node_record t preserve node
  (offsets, payload, total) ← build_nodes n (node + 1) (position + length bytes) t preserve
  ok (position ∷ offsets, bytes ++ payload, permutation + total)

abbrev pub flags_for : Bool → ℕ
flags_for preserve = if preserve then bit_or required_flags order_flag else required_flags

-- The header of what was built; adding the payload's offset up may overflow.
abbrev pub filled_header : List ℕ → Topology → Bool → List ℕ → List ℕ → ℕ → ℕ → Header
filled_header raw_file t preserve offset_bytes payload total payload_offset = record {
  flags = flags_for preserve;
  point_count = t.point_count;
  edge_count = t.edge_count;
  maximum_degree = t.maximum_degree;
  source_topology_bytes = length raw_file;
  source_topology_checksum = checksum_bytes raw_file;
  raw_adjacency_bytes = t.adjacency_bytes;
  source_adjacency_checksum = t.adjacency_checksum;
  offsets_offset = statistics_header_bytes;
  offsets_bytes = length offset_bytes;
  offsets_checksum = checksum_bytes offset_bytes;
  payload_offset = payload_offset;
  payload_bytes = length payload;
  payload_checksum = checksum_bytes payload;
  permutation_bytes = total;
}

abbrev pub header_for : List ℕ → Topology → Bool → List ℕ → List ℕ → ℕ → Result Header
header_for raw_file t preserve offset_bytes payload total = do
  payload_offset ← checked_add statistics_header_bytes (length offset_bytes)
  ok (filled_header raw_file t preserve offset_bytes payload total payload_offset)

-- The bytes that are written.
unfoldable pub artifact : List ℕ → Bool → Result (List ℕ)
unfolding build_nodes serialize_offsets serialize_statistics_header
artifact raw_file preserve = do
  t ← parse_raw_topology raw_file
  _ ← demand_that (leb t.maximum_degree 255)
  (offsets, payload, total) ← build_nodes t.point_count 0 0 t preserve
  h ← header_for raw_file t preserve (serialize_offsets offsets) payload total
  ok (serialize_statistics_header h ++ (serialize_offsets offsets ++ payload))

-- Does the header belong to this topology, and do the sections fill the file?
abbrev pub matches : List ℕ → List ℕ → Topology → Header → ℕ → Bool
matches raw_file file t h expected_offsets =
    bit_and h.flags required_flags == required_flags
    && bit_and h.flags (2 ^ 32 - 1 - bit_or required_flags order_flag) == 0
    && h.point_count == t.point_count
    && h.edge_count == t.edge_count
    && h.maximum_degree == t.maximum_degree
    && h.source_topology_bytes == length raw_file
    && h.source_topology_checksum == checksum_bytes raw_file
    && h.raw_adjacency_bytes == t.adjacency_bytes
    && h.source_adjacency_checksum == t.adjacency_checksum
    && h.offsets_offset == statistics_header_bytes
    && h.offsets_bytes == expected_offsets
    && h.payload_offset == (h.offsets_offset + h.offsets_bytes) % 2 ^ 64
    && leb h.payload_offset (length file)
    && leb h.payload_bytes (length file - h.payload_offset)
    && (h.payload_offset + h.payload_bytes) % 2 ^ 64 == length file

-- The loop over the records: each begins where the one before ended. The end of the last one, and the
-- bytes of all permutations.
unfoldable pub verify_nodes : ℕ → ℕ → ℕ → ℕ → Topology → Bool → List ℕ → List ℕ → Result (ℕ × ℕ)
verify_nodes zero node previous counted t preserve section payload = ok (previous, counted)
verify_nodes (suc n) node previous counted t preserve section payload = do
  (begin, rest) ← read_little 8 (drop (node * 8) section)
  (end, _) ← read_little 8 rest
  _ ← demand_that (begin == previous && leb begin end && leb end (length payload))
  size ← verify_record t preserve node (subspan begin (end - begin) payload)
  verify_nodes n (node + 1) end (counted + size) t preserve section payload

pub record Statistics : Type 0 where
  pub point_count : ℕ
  pub edge_count : ℕ
  pub maximum_degree : ℕ
  pub raw_adjacency_bytes : ℕ
  pub offsets_bytes : ℕ
  pub payload_bytes : ℕ
  pub permutation_bytes : ℕ
  pub artifact_bytes : ℕ
  pub adjacency_bytes : ℕ
  pub artifact_checksum : ℕ
  pub preserves_neighbor_order : Bool

abbrev pub make_result : Header → ℕ → ℕ → Statistics
make_result h artifact_bytes artifact_checksum = record {
  point_count = h.point_count;
  edge_count = h.edge_count;
  maximum_degree = h.maximum_degree;
  raw_adjacency_bytes = h.raw_adjacency_bytes;
  offsets_bytes = h.offsets_bytes;
  payload_bytes = h.payload_bytes;
  permutation_bytes = h.permutation_bytes;
  artifact_bytes = artifact_bytes;
  adjacency_bytes = (h.offsets_bytes + h.payload_bytes) % 2 ^ 64;
  artifact_checksum = artifact_checksum;
  preserves_neighbor_order = not (bit_and h.flags order_flag == 0);
}

-- The checks on the sections and the records.
unfoldable pub verify_sections : List ℕ → Topology → Header → Result Statistics
unfolding verify_nodes
verify_sections file t h = do
  let section = subspan h.offsets_offset h.offsets_bytes file
  let payload = subspan h.payload_offset h.payload_bytes file
  _ ←
      demand_that (
        checksum_bytes section == h.offsets_checksum
        && checksum_bytes payload == h.payload_checksum)
  let preserve = not (bit_and h.flags order_flag == 0)
  (end, counted) ← verify_nodes h.point_count 0 0 0 t preserve section payload
  (last, _) ← read_little 8 (drop (h.point_count * 8) section)
  _ ←
      demand_that
        (last == length payload && end == length payload && counted == h.permutation_bytes)
  ok (make_result h (length file) (checksum_bytes file))

unfoldable pub verify : List ℕ → List ℕ → Result Statistics
unfolding verify_sections
verify raw_file file = do
  t ← parse_raw_topology raw_file
  h ← parse_statistics_header file
  offset_count ← checked_add h.point_count 1
  expected_offsets ← checked_multiply offset_count 8
  _ ← demand_that (matches raw_file file t h expected_offsets)
  verify_sections file t h

-- What is built is verified before it gets its name.
unfoldable pub build : List ℕ → Bool → Result Statistics
unfolding artifact verify
build raw_file preserve = do bytes ← artifact raw_file preserve; verify raw_file bytes
