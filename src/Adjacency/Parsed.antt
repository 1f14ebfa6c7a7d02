-- ===== src/Adjacency/Parsed.antt =====
-- What holds of a topology that was parsed.
use skip_cell.Common.{
  ℕ, ◌+◌, ◌-◌, ◌*◌, ◌/◌, ◌^◌, ◌<◌, ◌≡◌, refl, sym, ap, subst, ◌∙◌, Bool, true, false, not, ◌&&◌,
  List, ltb, ◌==◌, if◌then◌else◌, length, Result, ok, throws, runtime_error, arith, ok_bind,
}
use skip_cell.Common.Bytes.{Fits, AllBytes, read_fields}
use skip_cell.Adjacency.Topology.{
  Topology, raw_offset, demand_that, check_degrees, check_topology, checked_add, checked_multiply,
  compatible, sections_checked, raw_widths, topology_of, parse_fields, parse_raw_topology,
  known_format, field,
}
use skip_cell.Adjacency.Replay.{ok_inj}
use skip_cell.Adjacency.Header.{read_fields-Fitted, field-Fits}
use skip_cell.Adjacency.Nodes.{demand_inv}

-- A test that throws was not met, and one that is needed was.
passed {ℓ} :
    {A : Type ℓ} (b : Bool) {r : Result A} {z : A}
    → (if b then throws runtime_error else r) ≡ ok z
    → (b ≡ false) × (r ≡ ok z)
passed true e = absurd (ground (arith, e))
passed false e = (refl, e)

taken {ℓ} :
    {A : Type ℓ} (b : Bool) {r : Result A} {z : A}
    → (if b then r else throws runtime_error) ≡ ok z
    → r ≡ ok z
taken true e = e
taken false e = absurd (ground (arith, e))

pub checked_add_inv :
    (x y : ℕ) {z : ℕ} → checked_add x y ≡ ok z → x < 2 ^ 64 → (z ≡ x + y) × (z < 2 ^ 64)
unfolding checked_add
checked_add_inv x y e h = ground (arith, e)

pub checked_multiply_inv : (x y : ℕ) {z : ℕ} → checked_multiply x y ≡ ok z → z ≡ x * y
unfolding checked_multiply
checked_multiply_inv x y e = sym (ok_inj (passed (not (x == 0) && ltb ((2 ^ 64 - 1) / x) y) e).1)

-- What a topology that was parsed has.
pub record Parsed (raw : List ℕ) (t : Topology) : Type 0 where
  pub file : t.file ≡ raw
  pub point_count : Fits 8 t.point_count
  pub edge_count : Fits 8 t.edge_count
  pub maximum_degree : Fits 4 t.maximum_degree
  pub adjacency_bytes : Fits 8 t.adjacency_bytes
  pub adjacency_checksum : Fits 8 t.adjacency_checksum
  pub offsets :
      (count : ℕ) × (bytes : ℕ) × (checked_add t.point_count 1 ≡ ok count)
      × (checked_multiply count 8 ≡ ok bytes)
  pub start : raw_offset t 0 ≡ ok 0
  pub degrees : check_degrees t.point_count t 0 0 ≡ ok tt

-- The checks give the topology back.
check_topology_inv :
    (fields : List ℕ) (t : Topology) {s : Topology}
    → check_topology fields t ≡ ok s
    → (t ≡ s)
      × ((count : ℕ) × (bytes : ℕ) × (checked_add t.point_count 1 ≡ ok count)
          × (checked_multiply count 8 ≡ ok bytes))
      × (raw_offset t 0 ≡ ok 0)
      × (check_degrees t.point_count t 0 0 ≡ ok tt)
unfolding check_topology
check_topology_inv fields t e =
    let (count, added, e₁) = ok_bind (checked_add t.point_count 1) _ e in
    let (bytes, multiplied, e₂) = ok_bind (checked_multiply count 8) _ e₁ in
    let (adjacency, _, e₃) = ok_bind (checked_multiply t.edge_count 4) _ e₂ in
    let (_, _, e₄) = ok_bind (demand_that (compatible fields t bytes adjacency)) _ e₃ in
    let (_, _, e₅) = ok_bind (demand_that (sections_checked t)) _ e₄ in
    let (first, begins, e₆) = ok_bind (raw_offset t 0) _ e₅ in
    let (last, _, e₇) = ok_bind (raw_offset t t.point_count) _ e₆ in
    let (_, ends, e₈) = ok_bind (demand_that (first == 0 && last == t.edge_count)) _ e₇ in
    let (_, loop, e₉) = ok_bind (check_degrees t.point_count t 0 0) _ e₈ in
    let at_zero : first ≡ 0 =
      both first last (demand_inv (first == 0 && last == t.edge_count) ends) in
    (ok_inj e₉, (count, bytes, added, multiplied), begins ∙ ap ok at_zero, loop)
  where
    both : (first last : ℕ) → (first == 0 && last == t.edge_count) ≡ true → first ≡ 0
    both first last h = ground (arith, h)

pub parse-Parsed :
    (raw : List ℕ) {t : Topology} → AllBytes raw → parse_raw_topology raw ≡ ok t → Parsed raw t
unfolding parse_raw_topology field
parse-Parsed raw {t} h e =
    by_fields (read_fields raw_widths raw) refl (passed (ltb (length raw) 256) e).1
  where
    by_fields :
        (r : Result (List ℕ × List ℕ))
        → read_fields raw_widths raw ≡ r
        → parse_fields raw r ≡ ok t
        → Parsed raw t
    by_fields (throws _) f g = absurd (ground (arith, g))
    by_fields (ok (fields, rest)) f g =
        let (same, offsets, start, degrees) =
          check_topology_inv fields (topology_of raw fields) (taken (known_format raw fields) g) in
        let fitted = read_fields-Fitted raw_widths raw h f in
        subst (Parsed raw) same (record {
          file = refl;
          point_count = field-Fits 5 raw_widths fields fitted;
          edge_count = field-Fits 10 raw_widths fields fitted;
          maximum_degree = field-Fits 7 raw_widths fields fitted;
          adjacency_bytes = field-Fits 21 raw_widths fields fitted;
          adjacency_checksum = field-Fits 22 raw_widths fields fitted;
          offsets = offsets;
          start = start;
          degrees = degrees;
        })
