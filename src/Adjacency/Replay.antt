-- ===== src/Adjacency/Replay.antt =====
-- The check of a record accepts what is written for the node.
use mathlib.Core.List.{append-nil}
use skip_cell.Common.{
  ℕ, zero, suc, ◌+◌, ◌-◌, ◌*◌, ◌%◌, ◌^◌, ◌≤◌, ◌<◌, ◌≡◌, refl, sym, ap, subst, ◌∙◌, true, false,
  List, [], ◌∷◌, map, ltb, leb, ◌==◌, length, Result, ok, throws, arith, ◌>>=◌, ok_bind,
}
use skip_cell.Common.Bytes.{
  AllBytes, AllBytes-drop, read_little, read_little-Fits, lt_of_Fits-word, drop,
}
use skip_cell.Common.Sets.{same_list_refl}
use skip_cell.Adjacency.Topology.{Topology, raw_offset, raw_neighbor, first_of, demand_that}
use skip_cell.Adjacency.Groups.{encode_groups, read_groups}
use skip_cell.Adjacency.Deltas.{read_groups-encode, read_byte}
use skip_cell.Adjacency.Records.{
  sort, sort_pairs, targets, target_of, record_bytes, node_record, neighbors, verify_record,
}
use skip_cell.Adjacency.Sorted.{
  Counted, map-sort_pairs, length-sort_pairs, length-map_target, AllSmall, sort-IsAscending,
}

pub ok_inj {ℓ} : {A : Type ℓ} {x y : A} → ok x ≡ ok y → x ≡ y
ok_inj e = cc

raw_neighbor-lt :
    (t : Topology) (edge : ℕ) {x : ℕ} → AllBytes t.file → raw_neighbor t edge ≡ ok x → x < 2 ^ 32
unfolding raw_neighbor
raw_neighbor-lt t edge {x} h e =
    let bytes = drop (t.adjacency_offset + edge * 4) t.file in by_read (read_little 4 bytes) refl e
  where
    by_read :
        (r : Result (ℕ × List ℕ))
        → read_little 4 (drop (t.adjacency_offset + edge * 4) t.file) ≡ r
        → first_of r ≡ ok x
        → x < 2 ^ 32
    by_read (throws _) f g = absurd (ground (arith, g))
    by_read (ok (y, rest)) f g =
        let (fits, _) =
          read_little-Fits 4 (drop (t.adjacency_offset + edge * 4) t.file)
            (AllBytes-drop (t.adjacency_offset + edge * 4) t.file h) f in
        subst (λ z. z < 2 ^ 32) (ok_inj g) (lt_of_Fits-word y fits)

-- What the loop over a node's edges has found.
Found : ℕ → ℕ → Topology → ℕ → List (ℕ × ℕ) → Type 0
Found n position t begin pairs =
    (neighbors n t (begin + position) ≡ ok (map target_of pairs))
    × (length pairs ≡ n)
    × AllSmall (map target_of pairs)
    × (position + n ≤ 256 → Counted position pairs)

targets-Found :
    (n position : ℕ) (t : Topology) (begin : ℕ) {pairs : List (ℕ × ℕ)}
    → AllBytes t.file
    → targets n position t begin ≡ ok pairs
    → Found n position t begin pairs
unfolding targets Found neighbors AllSmall Counted
targets-Found zero position t begin h e =
    subst (λ ps. Found zero position t begin ps) (ok_inj e) (refl, refl, tt, λ _. tt)
targets-Found (suc n) position t begin h e =
    let (x, reads, e₁) = ok_bind (raw_neighbor t (begin + position)) _ e in
    let (_, _, e₂) = ok_bind (demand_that (ltb x t.point_count)) _ e₁ in
    let (rest, more, e₃) = ok_bind (targets n (position + 1) t begin) _ e₂ in
    let (same, size, small, counted) = targets-Found n (position + 1) t begin h more in
    let same' : neighbors n t (begin + position + 1) ≡ ok (map target_of rest) =
      ap (neighbors n t) (omega arith) ∙ same in
    subst (λ ps. Found (suc n) position t begin ps) (ok_inj e₃)
      (
        rw (reads, neighbors) (rw same' refl),
        ap suc size,
        (raw_neighbor-lt t (begin + position) h reads, small),
        λ le. (omega arith, counted (omega arith)),
      )

-- A record of sorted neighbors passes the check.
sorted_accepted :
    (t : Topology) (node begin end degree : ℕ) (expected : List ℕ)
    → raw_offset t node ≡ ok begin
    → raw_offset t (node + 1) ≡ ok end
    → (end + 2 ^ 64 - begin) % 2 ^ 64 ≡ degree
    → length (sort expected) ≡ degree
    → AllSmall expected
    → neighbors degree t begin ≡ ok expected
    → verify_record t false node (degree ∷ encode_groups 0 0 (sort expected)) ≡ ok 0
unfolding verify_record drop
sorted_accepted t node begin end degree expected first last gap many small found =
    let sorted = sort expected in
    let groups : read_groups degree degree 0 0 (encode_groups 0 0 sorted) ≡ ok (sorted, []) =
      ap (λ n. read_groups n n 0 0 (encode_groups 0 0 sorted)) (sym many)
      ∙ ap (read_groups (length sorted) (length sorted) 0 0)
          (sym (append-nil (encode_groups 0 0 sorted)))
      ∙ read_groups-encode sorted (length sorted) 0 0 [] (sort-IsAscending expected small)
          (omega arith) in
    let same : (degree == degree) ≡ true = ground arith in
    let enough : leb 0 (length (encode_groups 0 0 sorted)) ≡ true = ground arith in
    rw (read_byte degree (encode_groups 0 0 sorted), verify_record)
      (rw first (
        rw last
          (rw gap (rw same (rw enough (rw groups (rw found (rw (same_list_refl sorted) refl))))))))

-- The record that is written for a node passes the check, and has no permutation.
pub record_accepted :
    (t : Topology) (node : ℕ) {bytes : List ℕ} {size begin end : ℕ}
    → AllBytes t.file
    → raw_offset t node ≡ ok begin
    → raw_offset t (node + 1) ≡ ok end
    → (end + 2 ^ 64 - begin) % 2 ^ 64 ≤ 255
    → node_record t false node ≡ ok (bytes, size)
    → (verify_record t false node bytes ≡ ok size) × (size ≡ 0)
unfolding node_record record_bytes Found
record_accepted t node {bytes} {size} {begin} {end} h first last small e =
    let degree = (end + 2 ^ 64 - begin) % 2 ^ 64 in
    let e₁ : (targets degree 0 t begin >>= λ pairs. ok (record_bytes false (sort_pairs pairs), 0))
        ≡ ok (bytes, size) =
      sym (rw (first, node_record) (rw last refl)) ∙ e in
    let (pairs, found, e₂) = ok_bind (targets degree 0 t begin) _ e₁ in
    let (expected, count, numbers, counted) = targets-Found degree 0 t begin h found in
    let written : ◌≡◌ {A = List ℕ × ℕ} (record_bytes false (sort_pairs pairs), 0) (bytes, size) =
      ok_inj e₂ in
    let sorted = sort (map target_of pairs) in
    let same : map target_of (sort_pairs pairs) ≡ sorted =
      map-sort_pairs 0 pairs (counted (omega (arith, small))) in
    let size_of : length (sort_pairs pairs) ≡ degree = length-sort_pairs pairs ∙ count in
    let bytes_of : record_bytes false (sort_pairs pairs) ≡ degree ∷ encode_groups 0 0 sorted =
      ap (λ xs. length (sort_pairs pairs) % 256 ∷ encode_groups 0 0 xs) same
      ∙ ap (λ n. n ∷ encode_groups 0 0 sorted) (omega (arith, size_of, small)) in
    let wanted : verify_record t false node (degree ∷ encode_groups 0 0 sorted) ≡ ok 0 =
      sorted_accepted t node begin end degree (map target_of pairs) first last refl
        (ap length (sym same) ∙ length-map_target (sort_pairs pairs) ∙ size_of) numbers
        (ap (neighbors degree t) (omega arith) ∙ expected) in
    (
      ap (verify_record t false node) (ap (λ p. p.0) (sym written) ∙ bytes_of)
          ∙ wanted
          ∙ ap (λ p. ok p.1) written,
      ap (λ p. p.1) (sym written),
    )

-- The record of a node of up to 255 neighbors, written without the order of the neighbors, passes the
-- check.
pub verify_record-node_record :
    (t : Topology) (node : ℕ) {bytes : List ℕ} {size begin end : ℕ}
    → AllBytes t.file
    → raw_offset t node ≡ ok begin
    → raw_offset t (node + 1) ≡ ok end
    → (end + 2 ^ 64 - begin) % 2 ^ 64 ≤ 255
    → node_record t false node ≡ ok (bytes, size)
    → verify_record t false node bytes ≡ ok size
verify_record-node_record t node h first last small e =
    (record_accepted t node h first last small e).0
