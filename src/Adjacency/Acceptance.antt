-- ===== src/Adjacency/Acceptance.antt =====
-- A statistics file that is built passes its verification.
use mathlib.Core.List.{append_assoc, append-nil}
use skip_cell.Common.{
  ℕ, ◌+◌, ◌*◌, ◌^◌, ◌≤◌, ◌<◌, ◌≡◌, refl, sym, ap, subst, ◌∙◌, true, false, ◌&&◌, List, [], ◌∷◌,
  ◌++◌, leb, ◌==◌, length, length-append, Result, ok, throws, arith, ◌>>=◌, ok_bind,
}
use skip_cell.Common.Bytes.{
  Fits-word, Fits-long, AllBytes, AllFit, read_little, drop, subspan, subspan-append,
  checksum_bytes, checksum_bytes-lt, lt_of_Fits-long,
}
use skip_cell.Adjacency.Topology.{Topology, demand_that, checked_add, parse_raw_topology}
use skip_cell.Adjacency.Artifact.{
  Header, header_fields, header_for, filled_header, artifact, build_nodes, serialize_offsets,
  serialize_statistics_header, parse_statistics_header, matches, verify_sections, verify, build,
  Statistics, make_result,
}
use skip_cell.Adjacency.Replay.{ok_inj}
use skip_cell.Adjacency.Header.{length-serialize, parse-serialize}
use skip_cell.Adjacency.Nodes.{
  build_nodes-Written, nodes_accepted, demand_inv, read_offset, serialize_offsets-append,
  length-serialize_offsets,
}
use skip_cell.Adjacency.Parsed.{Parsed, parse-Parsed, checked_add_inv, checked_multiply_inv}

-- A file of three parts, whose header says where the others are.
module _ (raw : List ℕ) (t : Topology) (offsets payload : List ℕ) (total position : ℕ) where
  abbrev section : List ℕ
  section = serialize_offsets offsets

  abbrev header : Header
  header = filled_header raw t false section payload total position

  abbrev file : List ℕ
  file = serialize_statistics_header header ++ (section ++ payload)

  length-file : length file ≡ 192 + length section + length payload
  length-file = omega (
    arith,
    length-append (serialize_statistics_header header) (section ++ payload),
    length-append section payload,
    length-serialize header,
  )

  header_fits :
      (raw_small : length raw < 2 ^ 64)
      → Parsed raw t
      → length file < 2 ^ 64
      → position ≡ 192 + length section
      → total ≡ 0
      → AllFit (header_fields header)
  unfolding AllFit
  header_fits raw_small p small at nothing =
      let section_small : length section < 2 ^ 64 = omega (arith, length-file, small) in
      let payload_small : length payload < 2 ^ 64 = omega (arith, length-file, small) in
      (
        Fits-long _ (omega arith),
        (
          Fits-word _ (omega arith),
          (
            Fits-word _ (omega arith),
            (
              Fits-word _ (omega arith),
              (
                Fits-word _ (omega arith),
                (
                  Fits-word _ (omega arith),
                  (
                    Fits-word _ (omega arith),
                    (
                      p.point_count,
                      (
                        p.edge_count,
                        (
                          p.maximum_degree,
                          (
                            Fits-word _ (omega arith),
                            (
                              Fits-long _ (raw_small),
                              (
                                Fits-long _ (checksum_bytes-lt raw),
                                (
                                  p.adjacency_bytes,
                                  (
                                    p.adjacency_checksum,
                                    (
                                      Fits-long _ (omega arith),
                                      (
                                        Fits-long _ (section_small),
                                        (
                                          Fits-long _ (checksum_bytes-lt section),
                                          (
                                            Fits-long _ (omega (arith, at, length-file, small)),
                                            (
                                              Fits-long _ (payload_small),
                                              (
                                                Fits-long _ (checksum_bytes-lt payload),
                                                (Fits-long _ (omega (arith, nothing)), tt),
                                              ),
                                            ),
                                          ),
                                        ),
                                      ),
                                    ),
                                  ),
                                ),
                              ),
                            ),
                          ),
                        ),
                      ),
                    ),
                  ),
                ),
              ),
            ),
          ),
        ),
      )

  section_read : subspan 192 (length section) file ≡ section
  section_read =
      subspan-append 192 (length section) (serialize_statistics_header header) section payload
        (sym (length-serialize header)) refl

  payload_read : position ≡ 192 + length section → subspan position (length payload) file ≡ payload
  payload_read at =
      let front = serialize_statistics_header header ++ section in
      ap (λ xs. subspan position (length payload) xs)
        (ap (λ xs. serialize_statistics_header header ++ (section ++ xs)) (sym (append-nil payload))
          ∙ sym (append_assoc (serialize_statistics_header header) section (payload ++ [])))
      ∙ subspan-append position (length payload) front payload []
          (omega (
            arith,
            at,
            length-append (serialize_statistics_header header) section,
            length-serialize header,
          ))
          refl

  last_read :
      (inits : List ℕ)
      → length inits ≡ t.point_count
      → offsets ≡ inits ++ (length payload ∷ [])
      → length payload < 2 ^ 64
      → read_little 8 (drop (t.point_count * 8) section) ≡ ok (length payload, [])
  unfolding serialize_offsets
  last_read inits size same small =
      ap (λ xs. read_little 8 (drop (t.point_count * 8) xs))
        (ap serialize_offsets same ∙ serialize_offsets-append inits (length payload ∷ []))
      ∙ read_offset t.point_count (length payload) (serialize_offsets inits) []
          (omega (arith, length-serialize_offsets inits, size)) small

  sections_accepted :
      AllBytes t.file
      → t.maximum_degree ≤ 255
      → Parsed raw t
      → build_nodes t.point_count 0 0 t false ≡ ok (offsets, payload, total)
      → position ≡ 192 + length section
      → length file < 2 ^ 64
      → verify_sections file t header ≡ ok (make_result header (length file) (checksum_bytes file))
  unfolding verify_sections
  sections_accepted bytes low p built at small =
      let w = build_nodes-Written t.point_count 0 0 t built in
      let (inits, size, ends) = w.ends in
      let payload_small : length payload < 2 ^ 64 = omega (arith, length-file, small) in
      let last =
        last_read inits size (ends ∙ ap (λ k. inits ++ (k ∷ [])) (omega arith)) payload_small in
      let loop =
        nodes_accepted t.point_count 0 0 0 0 t [] [] bytes low p.start p.degrees built (omega arith)
          (omega arith) payload_small in
      let sums : (checksum_bytes section == checksum_bytes section
            && checksum_bytes payload == checksum_bytes payload)
          ≡ true =
        ground arith in
      let whole : (length payload == length payload
            && length payload == length payload
            && 0 == total)
          ≡ true =
        ground (arith, w.none_kept) in
      rw (section_read, verify_sections)
        (rw (payload_read at) (rw sums (rw loop (rw last (rw whole refl)))))

  matches_itself :
      (expected : ℕ)
      → expected ≡ length section
      → position ≡ 192 + length section
      → length file < 2 ^ 64
      → matches raw file t header expected ≡ true
  matches_itself expected e at small = ground (arith, length-file)

  -- The verification of what was built.
  verify_accepted :
      AllBytes raw
      → length raw < 2 ^ 64
      → parse_raw_topology raw ≡ ok t
      → t.maximum_degree ≤ 255
      → build_nodes t.point_count 0 0 t false ≡ ok (offsets, payload, total)
      → position ≡ 192 + length section
      → length file < 2 ^ 64
      → verify raw file ≡ ok (make_result header (length file) (checksum_bytes file))
  unfolding verify
  verify_accepted bytes raw_small parsed low built at small =
      let p = parse-Parsed raw bytes parsed in
      let w = build_nodes-Written t.point_count 0 0 t built in
      let (count, expected, added, multiplied) = p.offsets in
      let header_read : parse_statistics_header file ≡ ok header =
        parse-serialize header (section ++ payload)
          (header_fits raw_small p small at w.none_kept) in
      let counts =
        checked_add_inv t.point_count 1 added (lt_of_Fits-long t.point_count p.point_count) in
      let size : expected ≡ length section =
        checked_multiply_inv count 8 multiplied
        ∙ omega (arith, counts.0, w.count, length-serialize_offsets offsets) in
      let matching = matches_itself expected size at small in
      rw (parsed, verify)
        (rw header_read (
          rw added (
            rw multiplied (
              rw matching
                (sections_accepted (subst AllBytes (sym p.file) bytes) low p built at small)))))

-- A statistics file that is put together without the order of the neighbors, from a topology file and
-- into a file of less than 2^64 bytes each, is one that its own verification accepts: the build ends
-- with the result of that verification, which has the file's size, its checksum and the counts of the
-- topology.
pub build-artifact :
    (raw : List ℕ) {bytes : List ℕ}
    → AllBytes raw
    → length raw < 2 ^ 64
    → artifact raw false ≡ ok bytes
    → length bytes < 2 ^ 64
    → (r : Statistics) × (build raw false ≡ ok r)
      × (verify raw bytes ≡ ok r)
      × (r.artifact_bytes ≡ length bytes)
      × (r.artifact_checksum ≡ checksum_bytes bytes)
      × (r.permutation_bytes ≡ 0)
      × (r.preserves_neighbor_order ≡ false)
unfolding artifact build
build-artifact raw {bytes} all raw_small e small =
    let (t, parsed, e₁) = ok_bind (parse_raw_topology raw) _ e in
    let (_, low, e₂) = ok_bind (demand_that (leb t.maximum_degree 255)) _ e₁ in
    let (b, built, e₃) = ok_bind (build_nodes t.point_count 0 0 t false) _ e₂ in
    let (position, added, e₄) =
      ok_bind (checked_add 192 (length (serialize_offsets b.0))) _
        (header_first b.0 b.1 b.2 t e₃) in
    let at = checked_add_inv 192 (length (serialize_offsets b.0)) added (omega arith) in
    let whole : file raw t b.0 b.1 b.2 position ≡ bytes = ok_inj e₄ in
    let w = build_nodes-Written t.point_count 0 0 t built in
    let r = make_result (header raw t b.0 b.1 b.2 position) (length bytes) (checksum_bytes bytes) in
    let accepted : verify raw bytes ≡ ok r =
      subst
        (λ f.
          verify raw f
          ≡ ok (make_result (header raw t b.0 b.1 b.2 position) (length f) (checksum_bytes f)))
        whole
        (verify_accepted raw t b.0 b.1 b.2 position all raw_small parsed (small_degree t low) built
          at.0 (subst (λ f. length f < 2 ^ 64) (sym whole) small)) in
    (r, rw (e, build) accepted, accepted, refl, refl, w.none_kept, refl)
  where
    small_degree :
        (t : Topology) {u : Unit {0}}
        → demand_that (leb t.maximum_degree 255) ≡ ok u
        → t.maximum_degree ≤ 255
    small_degree t d = ground (arith, demand_inv (leb t.maximum_degree 255) d)

    header_first :
        (offsets payload : List ℕ) (total : ℕ) (t : Topology)
        → (header_for raw t false (serialize_offsets offsets) payload total >>= λ h.
            ok (serialize_statistics_header h ++ (serialize_offsets offsets ++ payload)))
          ≡ ok bytes
        → (checked_add 192 (length (serialize_offsets offsets)) >>= λ position.
            ok (file raw t offsets payload total position))
          ≡ ok bytes
    header_first offsets payload total t e =
        by_sum (checked_add 192 (length (serialize_offsets offsets))) refl e
      where
        by_sum :
            (s : Result ℕ)
            → checked_add 192 (length (serialize_offsets offsets)) ≡ s
            → ((s >>= λ position.
                  ok (filled_header raw t false (serialize_offsets offsets) payload total position))
                >>= λ h.
                    ok (serialize_statistics_header h ++ (serialize_offsets offsets ++ payload)))
              ≡ ok bytes
            → (s >>= λ position. ok (file raw t offsets payload total position)) ≡ ok bytes
        by_sum (ok _) _ f = f
        by_sum (throws _) _ f = absurd (ground (arith, f))
