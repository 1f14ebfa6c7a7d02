-- ===== src/Adjacency/Tests.antt =====
-- A topology file of two points, and the statistics file for it.
use skip_cell.Common.{
  ℕ, ◌^◌, ◌<◌, ◌≡◌, refl, false, List, [], ◌∷◌, ◌++◌, length, replicate, Result, ok, throws, arith,
}
use skip_cell.Common.Bits.{shift}
use skip_cell.Common.Bytes.{
  AllBytes, all_bytes, all_bytes-AllBytes, AllFit, checksum_bytes, encode_fields, Fits, encode,
  hash_bytes, read_fields, read_little, read_exact, decode, take, drop,
}
use skip_cell.Adjacency.Topology.{
  topology_magic, little_endian_marker, parse_raw_topology, field, raw_offset, raw_neighbor,
  Topology,
}
use skip_cell.Adjacency.Groups.{
  byte_width, deltas, tag_from, delta_bytes, encode_group, encode_groups, read_groups,
}
use skip_cell.Adjacency.Records.{
  insert_pair, sort_pairs, targets, record_bytes, node_record, verify_record,
}
use skip_cell.Adjacency.Artifact.{
  Header, header_fields, serialize_statistics_header, parse_statistics_header, artifact, verify,
  build, Statistics,
}
use skip_cell.Adjacency.Deltas.{IsAscending, read_groups-encode}
use skip_cell.Adjacency.Header.{parse-serialize}
use skip_cell.Adjacency.Replay.{verify_record-node_record}
use skip_cell.Adjacency.Acceptance.{build-artifact}

abbrev offsets_of_two : List ℕ
offsets_of_two = encode 8 0 ++ (encode 8 2 ++ encode 8 3)

abbrev edges_of_two : List ℕ
edges_of_two = encode 4 1 ++ (encode 4 0 ++ encode 4 0)

abbrev two_points : List ℕ
two_points =
    encode_fields (
      (8, topology_magic)
      ∷ (4, 4)
      ∷ (4, little_endian_marker)
      ∷ (4, 256)
      ∷ (4, 4096)
      ∷ (8, 2)
      ∷ (8, 0)
      ∷ (4, 2)
      ∷ (4, 0)
      ∷ (4, 0)
      ∷ (8, 3)
      ∷ (8, 0)
      ∷ (8, 0)
      ∷ (8, 0)
      ∷ (8, 0)
      ∷ (8, 0)
      ∷ (8, 0)
      ∷ (8, 256)
      ∷ (8, 24)
      ∷ (8, checksum_bytes offsets_of_two)
      ∷ (8, 280)
      ∷ (8, 12)
      ∷ (8, checksum_bytes edges_of_two)
      ∷ [])
    ++ (replicate 100 0 ++ (offsets_of_two ++ edges_of_two))

abbrev bytes_or_none : Result (List ℕ) → List ℕ
bytes_or_none (ok xs) = xs
bytes_or_none (throws e) = []

abbrev built_file : List ℕ
built_file = bytes_or_none (artifact two_points false)

two_points-AllBytes : AllBytes two_points
unfolding all_bytes hash_bytes encode encode_fields checksum_bytes
two_points-AllBytes = all_bytes-AllBytes two_points refl

built_file_lem : artifact two_points false ≡ ok built_file
unfolding artifact parse_raw_topology encode_fields encode read_fields read_little read_exact field
    decode checksum_bytes take drop raw_offset node_record raw_neighbor
built_file_lem = refl

built_file_small : length built_file < 2 ^ 64
unfolding artifact parse_raw_topology encode_fields encode read_fields read_little read_exact field
    decode checksum_bytes take drop raw_offset node_record raw_neighbor encode_groups encode_group
    byte_width
built_file_small = omega arith

build-artifact_example :
    (r : Statistics) × (build two_points false ≡ ok r)
    × (verify two_points built_file ≡ ok r)
    × (r.artifact_bytes ≡ length built_file)
    × (r.artifact_checksum ≡ checksum_bytes built_file)
    × (r.permutation_bytes ≡ 0)
    × (r.preserves_neighbor_order ≡ false)
unfolding encode encode_fields
build-artifact_example =
    build-artifact two_points two_points-AllBytes (omega arith) built_file_lem built_file_small

abbrev two_point_topology : Topology
two_point_topology = record {
  file = two_points;
  point_count = 2;
  edge_count = 3;
  maximum_degree = 2;
  offsets_offset = 256;
  offsets_bytes = 24;
  offsets_checksum = checksum_bytes offsets_of_two;
  adjacency_offset = 280;
  adjacency_bytes = 12;
  adjacency_checksum = checksum_bytes edges_of_two;
}

-- Both neighbors of the first point, sorted, behind the tag of two widths of one byte.
first_record : node_record two_point_topology false 0 ≡ ok (2 ∷ 0 ∷ 0 ∷ 1 ∷ [], 0)
unfolding raw_offset raw_neighbor read_little read_exact decode drop hash_bytes encode encode_fields
    checksum_bytes byte_width deltas tag_from delta_bytes encode_group encode_groups insert_pair
    sort_pairs targets record_bytes node_record shift
first_record = refl

first_offset : raw_offset two_point_topology 0 ≡ ok 0
unfolding raw_offset read_little read_exact decode drop hash_bytes encode encode_fields
    checksum_bytes
first_offset = refl

second_offset : raw_offset two_point_topology 1 ≡ ok 2
unfolding raw_offset read_little read_exact decode drop hash_bytes encode encode_fields
    checksum_bytes
second_offset = refl

verify_record-node_record_example :
    verify_record two_point_topology false 0 (2 ∷ 0 ∷ 0 ∷ 1 ∷ []) ≡ ok 0
verify_record-node_record_example =
    verify_record-node_record two_point_topology 0 two_points-AllBytes first_offset second_offset
      (omega arith) first_record

abbrev five_numbers : List ℕ
five_numbers = 3 ∷ 3 ∷ 300 ∷ 70000 ∷ 20000000 ∷ []

five_numbers-IsAscending : IsAscending 0 five_numbers
unfolding IsAscending
five_numbers-IsAscending = (
  omega arith,
  omega arith,
  (
    omega arith,
    omega arith,
    (omega arith, omega arith, (omega arith, omega arith, (omega arith, omega arith, tt))),
  ),
)

read_groups-encode_example :
    read_groups 5 5 0 0 (encode_groups 0 0 five_numbers ++ (9 ∷ [])) ≡ ok (five_numbers, 9 ∷ [])
read_groups-encode_example =
    read_groups-encode five_numbers 5 0 0 (9 ∷ []) five_numbers-IsAscending (omega arith)

abbrev small_header : Header
small_header = record {
  flags = 3;
  point_count = 2;
  edge_count = 3;
  maximum_degree = 2;
  source_topology_bytes = 292;
  source_topology_checksum = 5;
  raw_adjacency_bytes = 12;
  source_adjacency_checksum = 6;
  offsets_offset = 192;
  offsets_bytes = 24;
  offsets_checksum = 7;
  payload_offset = 216;
  payload_bytes = 7;
  payload_checksum = 8;
  permutation_bytes = 0;
}

small_header-AllFit : AllFit (header_fields small_header)
unfolding AllFit Fits
small_header-AllFit = (
  refl,
  (
    refl,
    (
      refl,
      (
        refl,
        (
          refl,
          (
            refl,
            (
              refl,
              (
                refl,
                (
                  refl,
                  (
                    refl,
                    (
                      refl,
                      (
                        refl,
                        (
                          refl,
                          (
                            refl,
                            (refl, (refl, (refl, (refl, (refl, (refl, (refl, (refl, tt)))))))),
                          ),
                        ),
                      ),
                    ),
                  ),
                ),
              ),
            ),
          ),
        ),
      ),
    ),
  ),
)

parse-serialize_example :
    parse_statistics_header (serialize_statistics_header small_header ++ (1 ∷ 2 ∷ []))
    ≡ ok small_header
parse-serialize_example = parse-serialize small_header (1 ∷ 2 ∷ []) small_header-AllFit
