-- ===== src/Adjacency/Nodes.antt =====
-- The loop that writes the records and the loop that checks them.
use mathlib.Core.List.{append_assoc, append-nil}
use skip_cell.Common.{
  ℕ, zero, suc, ◌+◌, ◌-◌, ◌*◌, ◌%◌, ◌^◌, ◌≤◌, ◌<◌, ◌≡◌, refl, sym, ap, subst, ◌∙◌, Bool, true,
  false, ◌&&◌, List, [], ◌∷◌, ◌++◌, leb, ◌==◌, length, length-append, ok, arith, ok_bind,
}
use skip_cell.Common.Bytes.{
  encode, length-encode, Fits-long, AllBytes, read_little, read_little-encode, drop, drop-append,
  subspan, subspan-append,
}
use skip_cell.Adjacency.Topology.{Topology, raw_offset, demand_that, check_degrees}
use skip_cell.Adjacency.Records.{targets, node_record, verify_record}
use skip_cell.Adjacency.Replay.{ok_inj, record_accepted}
use skip_cell.Adjacency.Artifact.{build_nodes, serialize_offsets, verify_nodes}

pub demand_inv : (b : Bool) {u : Unit {0}} → demand_that b ≡ ok u → b ≡ true
demand_inv true e = refl
demand_inv false e = absurd (ground (arith, e))

-- What the writing loop gives: first its position, then all else; no permutation.
pub record Written (n position : ℕ) (offsets payload : List ℕ) (total : ℕ) : Type 0 where
  pub first : (tail : List ℕ) × (offsets ≡ position ∷ tail)
  pub none_kept : total ≡ 0
  pub count : length offsets ≡ n + 1
  pub ends :
      (inits : List ℕ) × (length inits ≡ n)
      × (offsets ≡ inits ++ ((position + length payload) ∷ []))

node_record-size :
    (t : Topology) (node : ℕ) {bytes : List ℕ} {size : ℕ}
    → node_record t false node ≡ ok (bytes, size)
    → size ≡ 0
unfolding node_record
node_record-size t node e =
    let (begin, _, e₁) = ok_bind (raw_offset t node) _ e in
    let (end, _, e₂) = ok_bind (raw_offset t (node + 1)) _ e₁ in
    let (_, _, e₃) = ok_bind (targets ((end + 2 ^ 64 - begin) % 2 ^ 64) 0 t begin) _ e₂ in
    ap (λ p. p.1) (sym (ok_inj e₃))

pub build_nodes-Written :
    (n node position : ℕ) (t : Topology) {offsets payload : List ℕ} {total : ℕ}
    → build_nodes n node position t false ≡ ok (offsets, payload, total)
    → Written n position offsets payload total
unfolding build_nodes
build_nodes-Written zero node position t e =
    subst (λ r. Written zero position r.0 r.1 r.2) (ok_inj e)
      (record {
        first = ([], refl);
        none_kept = refl;
        count = refl;
        ends = ([], refl, ap (λ p. p ∷ []) (omega arith));
      })
build_nodes-Written (suc n) node position t e =
    let (one, recorded, e₁) = ok_bind (node_record t false node) _ e in
    let (more, built, e₂) =
      ok_bind (build_nodes n (node + 1) (position + length one.0) t false) _ e₁ in
    let w = build_nodes-Written n (node + 1) (position + length one.0) t built in
    let (inits, size, same) = w.ends in
    let sum : position + length one.0 + length more.1 ≡ position + length (one.0 ++ more.1) =
      omega (arith, length-append one.0 more.1) in
    subst (λ r. Written (suc n) position r.0 r.1 r.2) (ok_inj e₂)
      (record {
        first = (more.0, refl);
        none_kept = omega (arith, node_record-size t node recorded, w.none_kept);
        count = omega (arith, w.count);
        ends = (
          position ∷ inits,
          ap suc size,
          ap (λ xs. position ∷ xs) (same ∙ ap (λ p. inits ++ (p ∷ [])) sum),
        );
      })

-- An offset of the section, behind those that were read.
pub read_offset :
    (node x : ℕ) (before rest : List ℕ)
    → length before ≡ node * 8
    → x < 2 ^ 64
    → read_little 8 (drop (node * 8) (before ++ (encode 8 x ++ rest))) ≡ ok (x, rest)
read_offset node x before rest h small =
    ap (λ n. read_little 8 (drop n (before ++ (encode 8 x ++ rest)))) (sym h)
    ∙ ap (read_little 8) (drop-append before (encode 8 x ++ rest))
    ∙ read_little-encode 8 x rest (Fits-long x small)

-- One round of the check.
round_accepted :
    (n node begin size counted : ℕ) (t : Topology) (before rest front bytes back : List ℕ)
    → length before ≡ node * 8
    → length front ≡ begin
    → length (front ++ (bytes ++ back)) < 2 ^ 64
    → verify_record t false node bytes ≡ ok size
    → verify_nodes
        (suc n)
        node
        begin
        counted
        t
        false
        (before ++ (encode 8 begin ++ (encode 8 (begin + length bytes) ++ rest)))
        (front ++ (bytes ++ back))
      ≡ verify_nodes n
          (node + 1)
          (begin + length bytes)
          (counted + size)
          t
          false
          (before ++ (encode 8 begin ++ (encode 8 (begin + length bytes) ++ rest)))
          (front ++ (bytes ++ back))
unfolding verify_nodes
round_accepted n node begin size counted t before rest front bytes back at here small checked =
    let end = begin + length bytes in
    let payload = front ++ (bytes ++ back) in
    let all : length payload ≡ begin + (length bytes + length back) =
      omega (arith, length-append front (bytes ++ back), length-append bytes back, here) in
    let part : subspan begin (end - begin) payload ≡ bytes =
      subspan-append begin (end - begin) front bytes back (sym here) (omega arith) in
    let fits : (begin == begin && leb begin end && leb end (length payload)) ≡ true =
      ground arith in
    let next : read_little 8 (encode 8 end ++ rest) ≡ ok (end, rest) =
      read_little-encode 8 end rest (Fits-long end (omega (arith, all, small))) in
    rw
      (
        read_offset node begin before (encode 8 end ++ rest) at (omega (arith, all, small)),
        verify_nodes,
      )
      (rw next (rw fits (rw part (rw checked refl))))

-- One round, before rounds that go well.
nodes_step :
    (n node begin size counted : ℕ) (t : Topology) (before front bytes back : List ℕ)
    {offsets : List ℕ}
    → length before ≡ node * 8
    → length front ≡ begin
    → length (front ++ (bytes ++ back)) < 2 ^ 64
    → verify_record t false node bytes ≡ ok size
    → size ≡ 0
    → (tail : List ℕ) × (offsets ≡ (begin + length bytes) ∷ tail)
    → verify_nodes n
        (node + 1)
        (begin + length bytes)
        counted
        t
        false
        ((before ++ encode 8 begin) ++ serialize_offsets offsets)
        ((front ++ bytes) ++ back)
      ≡ ok (length ((front ++ bytes) ++ back), counted)
    → verify_nodes
        (suc n)
        node
        begin
        counted
        t
        false
        (before ++ serialize_offsets (begin ∷ offsets))
        (front ++ (bytes ++ back))
      ≡ ok (length (front ++ (bytes ++ back)), counted)
unfolding serialize_offsets
nodes_step n node begin size counted t before front bytes back {offsets} at here small checked
      nothing (tail, shape) later =
    let end = begin + length bytes in
    let payload = front ++ (bytes ++ back) in
    let section = before ++ (encode 8 begin ++ (encode 8 end ++ serialize_offsets tail)) in
    let same : before ++ serialize_offsets (begin ∷ offsets) ≡ section =
      ap (λ xs. before ++ (encode 8 begin ++ serialize_offsets xs)) shape in
    let as_one : (before ++ encode 8 begin) ++ serialize_offsets offsets ≡ section =
      append_assoc before (encode 8 begin) (serialize_offsets offsets) ∙ same in
    let in_order : (front ++ bytes) ++ back ≡ payload = append_assoc front bytes back in
    ap (λ xs. verify_nodes (suc n) node begin counted t false xs payload) same
    ∙ round_accepted n node begin size counted t before (serialize_offsets tail) front bytes back at
        here small checked
    ∙ ap (λ c. verify_nodes n (node + 1) end c t false section payload) (omega (arith, nothing))
    ∙ ap (λ xs. verify_nodes n (node + 1) end counted t false xs payload) (sym as_one)
    ∙ ap
        (verify_nodes n (node + 1) end counted t false
          ((before ++ encode 8 begin) ++ serialize_offsets offsets))
        (sym in_order)
    ∙ later
    ∙ ap (λ xs. ok (length xs, counted)) in_order

-- The loop over the nodes accepts what was written for them.
pub nodes_accepted :
    (n node begin edge counted : ℕ) (t : Topology) {offsets payload : List ℕ} {total : ℕ}
    (before front : List ℕ)
    → AllBytes t.file
    → t.maximum_degree ≤ 255
    → raw_offset t node ≡ ok edge
    → check_degrees n t node edge ≡ ok tt
    → build_nodes n node begin t false ≡ ok (offsets, payload, total)
    → length before ≡ node * 8
    → length front ≡ begin
    → length (front ++ payload) < 2 ^ 64
    → verify_nodes n node begin counted t false
        (before ++ serialize_offsets offsets)
        (front ++ payload)
      ≡ ok (length (front ++ payload), counted)
unfolding build_nodes verify_nodes check_degrees
nodes_accepted zero node begin edge counted t {offsets} {payload} before front h deg from _ e at
      here small =
    let p : payload ≡ [] = ap (λ r. r.1) (sym (ok_inj e)) in
    ap (λ k. ok (k, counted))
      (sym here ∙ ap length (sym (append-nil front) ∙ ap (λ xs. front ++ xs) (sym p)))
nodes_accepted (suc n) node begin edge counted t {offsets} {payload} before front h deg from checks
      e at here small =
    let (one, recorded, e₁) = ok_bind (node_record t false node) _ e in
    let (more, built, e₂) =
      ok_bind (build_nodes n (node + 1) (begin + length one.0) t false) _ e₁ in
    let (next, to, c₁) = ok_bind (raw_offset t (node + 1)) _ checks in
    let (_, grows, c₂) =
      ok_bind (demand_that (leb edge next && leb (next - edge) t.maximum_degree)) _ c₁ in
    let same = ok_inj e₂ in
    by_round one.0 one.1 more.0 more.1 recorded
      (build_nodes-Written n (node + 1) (begin + length one.0) t built).first (ap (λ r. r.0) same)
      (ap (λ r. r.1) same)
      (narrow next (demand_inv (leb edge next && leb (next - edge) t.maximum_degree) grows)) to
      (λ w.
        nodes_accepted n (node + 1) (begin + length one.0) next counted t (before ++ encode 8 begin)
          (front ++ one.0) h deg to c₂ built
          (omega (arith, length-append before (encode 8 begin), length-encode 8 begin, at))
          (omega (arith, length-append front one.0, here)) w)
  where
    narrow :
        (next : ℕ)
        → (leb edge next && leb (next - edge) t.maximum_degree) ≡ true
        → (next + 2 ^ 64 - edge) % 2 ^ 64 ≤ 255
    narrow next g = ground (arith, g, deg)

    by_round :
        (bytes : List ℕ) (size : ℕ) (offs back : List ℕ) {next : ℕ}
        → node_record t false node ≡ ok (bytes, size)
        → (tail : List ℕ) × (offs ≡ (begin + length bytes) ∷ tail)
        → begin ∷ offs ≡ offsets
        → bytes ++ back ≡ payload
        → (next + 2 ^ 64 - edge) % 2 ^ 64 ≤ 255
        → raw_offset t (node + 1) ≡ ok next
        → (length ((front ++ bytes) ++ back) < 2 ^ 64
            → verify_nodes n
                (node + 1)
                (begin + length bytes)
                counted
                t
                false
                ((before ++ encode 8 begin) ++ serialize_offsets offs)
                ((front ++ bytes) ++ back)
              ≡ ok (length ((front ++ bytes) ++ back), counted))
        → verify_nodes
            (suc n)
            node
            begin
            counted
            t
            false
            (before ++ serialize_offsets offsets)
            (front ++ payload)
          ≡ ok (length (front ++ payload), counted)
    by_round bytes size offs back recorded shape p q gap to later =
        let (checked, nothing) = record_accepted t node h from to gap recorded in
        let small' : length (front ++ (bytes ++ back)) < 2 ^ 64 =
          subst (λ xs. length (front ++ xs) < 2 ^ 64) (sym q) small in
        subst
          (λ xs.
            verify_nodes (suc n) node begin counted t false (before ++ serialize_offsets xs)
              (front ++ payload)
            ≡ ok (length (front ++ payload), counted))
          p
          (subst
            (λ ys.
              verify_nodes (suc n) node begin counted t false
                (before ++ serialize_offsets (begin ∷ offs)) (front ++ ys)
              ≡ ok (length (front ++ ys), counted))
            q
            (nodes_step n node begin size counted t before front bytes back at here small' checked
              nothing shape
              (later
                (subst (λ xs. length xs < 2 ^ 64) (sym (append_assoc front bytes back)) small'))))

pub serialize_offsets-append :
    (xs ys : List ℕ) → serialize_offsets (xs ++ ys) ≡ serialize_offsets xs ++ serialize_offsets ys
unfolding serialize_offsets
serialize_offsets-append [] ys = refl
serialize_offsets-append (x ∷ xs) ys =
    ap (λ bytes. encode 8 x ++ bytes) (serialize_offsets-append xs ys)
    ∙ sym (append_assoc (encode 8 x) (serialize_offsets xs) (serialize_offsets ys))

pub length-serialize_offsets : (xs : List ℕ) → length (serialize_offsets xs) ≡ length xs * 8
unfolding serialize_offsets
length-serialize_offsets [] = refl
length-serialize_offsets (x ∷ xs) =
    length-append (encode 8 x) (serialize_offsets xs)
    ∙ omega (arith, length-encode 8 x, length-serialize_offsets xs)
