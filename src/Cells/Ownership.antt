-- ===== src/Cells/Ownership.antt =====
-- Who owns a logical cell: the view in its place lists it, and stands in the place of each cell that it
-- lists. Merging two views keeps that.
use skip_cell.Common.{
  ℕ, ◌+◌, ◌≤◌, ◌<◌, ◌≡◌, ◌≢◌, sym, ap, subst, ◌∙◌, true, ◌⊎◌, inl, inr, Bool-cases, List, [], ◌∷◌,
  ◌++◌, some, ltb, leb, if◌then◌else◌, length, get_elem?, set, count, count-append, arith,
}
use skip_cell.Common.Sets.{
  IsStrict, sort_unique-IsStrict, present-sort_unique, count_strict, total, total-sort_unique,
  get_elem?-set,
}
use skip_cell.Cells.{View}
use skip_cell.Cells.Observe.{add32}
use skip_cell.Cells.Publish.{substitute, expected_cells}

-- What the view of a cell has to be, where each logical cell has a population of its own.
pub record Owns (populations : ℕ → ℕ) (cells : List View) (c : ℕ) (v : View) : Type 0 where
  pub lists : 0 < count c v.logical_cell_ids
  pub shared : (d : ℕ) → 0 < count d v.logical_cell_ids → get_elem? cells d ≡ some v
  pub strict : IsStrict 0 v.logical_cell_ids
  pub populated : v.node_count ≡ total populations v.logical_cell_ids
  pub bounded : v.node_count ≤ 512
  pub ready : v.physical_payload_ready ≡ true

abbrev pub IsOwned : (ℕ → ℕ) → List View → Type 0
IsOwned populations cells =
    (c : ℕ) (v : View) → get_elem? cells c ≡ some v → Owns populations cells c v

some_View_inj : {v w : View} → some v ≡ some w → v ≡ w
some_View_inj p = cc

pub substitute-get :
    (ids : List ℕ) (v : View) (cells : List View) {out : List View} (c : ℕ)
    → substitute ids v cells ≡ some out
    → get_elem? out c ≡ (if ltb 0 (count c ids) then some v else get_elem? cells c)
unfolding substitute count
substitute-get [] v cells c e = ap (λ xs. get_elem? xs c) (cc)
substitute-get (i ∷ is) v cells {out} c e = elim (Bool-cases (leb (length cells) i)) [
  | inl outside ↦ absurd (ground (arith, e, outside))
  | inr inside ↦
      let f : substitute is v (set cells i v) ≡ some out = ground (arith, e, inside) in
      substitute-get is v (set cells i v) c f
      ∙ ground (arith, get_elem?-set cells i c v (ground (arith, inside)))
]

module _ (populations : ℕ → ℕ) (cells : List View) (owned : IsOwned populations cells) (l r : ℕ)
    (left right : View) (at_left : get_elem? cells l ≡ some left)
    (at_right : get_elem? cells r ≡ some right) (apart : left.view_id ≢ right.view_id) where
  parents_apart :
      (d : ℕ) → 0 < count d left.logical_cell_ids → 0 < count d right.logical_cell_ids → ⊥
  parents_apart d h k =
      let e : some left ≡ some right =
        sym ((owned l left at_left).shared d h) ∙ (owned r right at_right).shared d k in
      let p : left ≡ right = cc in apart (ap (λ v. v.view_id) p)

  listed_once : (d : ℕ) → count d (left.logical_cell_ids ++ right.logical_cell_ids) ≤ 1
  listed_once d = grind (
    arith,
    count-append d left.logical_cell_ids right.logical_cell_ids,
    count_strict d 0 left.logical_cell_ids (owned l left at_left).strict,
    count_strict d 0 right.logical_cell_ids (owned r right at_right).strict,
    parents_apart d,
  )

  -- A cell that a parent lists has the parent's view.
  pub expected_owner :
      (d : ℕ)
      → 0 < count d (expected_cells left right)
      → (get_elem? cells d ≡ some left) ⊎ (get_elem? cells d ≡ some right)
  expected_owner d h = elim (Bool-cases (ltb 0 (count d left.logical_cell_ids))) [
    | inl e ↦ inl ((owned l left at_left).shared d (ground arith))
    | inr e ↦ inr (
        (owned r right at_right).shared d (
          ground (
            arith,
            count-append d left.logical_cell_ids right.logical_cell_ids,
            present-sort_unique d (left.logical_cell_ids ++ right.logical_cell_ids),
            h,
          )))
  ]

  parent_listed :
      (c : ℕ) (w : View)
      → (w ≡ left) ⊎ (w ≡ right)
      → 0 < count c w.logical_cell_ids
      → 0 < count c (expected_cells left right)
  parent_listed c w p h =
      let both = left.logical_cell_ids ++ right.logical_cell_ids in
      let some_parent : 0 < count c left.logical_cell_ids + count c right.logical_cell_ids =
        elim p [
          | inl e ↦ omega (arith, ap (λ u. count c u.logical_cell_ids) e, h)
          | inr e ↦ omega (arith, ap (λ u. count c u.logical_cell_ids) e, h)
        ] in
      ground (
        arith,
        some_parent,
        count-append c left.logical_cell_ids right.logical_cell_ids,
        present-sort_unique c both,
      )

  module _ (v : View) (ids : v.logical_cell_ids ≡ expected_cells left right)
      (nodes : v.node_count ≡ add32 left.node_count right.node_count) (bounded : v.node_count ≤ 512)
      (ready : v.physical_payload_ready ≡ true) {out : List View}
      (done : substitute (expected_cells left right) v cells ≡ some out) where
    merged_populated : v.node_count ≡ total populations v.logical_cell_ids
    merged_populated = omega (
      arith,
      nodes,
      (owned l left at_left).populated,
      (owned r right at_right).populated,
      (owned l left at_left).bounded,
      (owned r right at_right).bounded,
      ap (total populations) ids,
      total-sort_unique populations left.logical_cell_ids right.logical_cell_ids listed_once,
    )

    new_get :
        (d : ℕ)
        → get_elem? out d
          ≡ (if ltb 0 (count d v.logical_cell_ids) then some v else get_elem? cells d)
    new_get d =
        substitute-get (expected_cells left right) v cells d done
        ∙ ap (λ xs. if ltb 0 (count d xs) then some v else get_elem? cells d) (sym ids)

    new_owner : (c : ℕ) → 0 < count c v.logical_cell_ids → Owns populations out c v
    new_owner c h = record {
      lists = h;
      shared = λ d k. new_get d ∙ ground (arith, k);
      strict =
          subst (IsStrict 0) (sym ids)
            (sort_unique-IsStrict (left.logical_cell_ids ++ right.logical_cell_ids));
      populated = merged_populated;
      bounded = bounded;
      ready = ready;
    }

    -- A view that is in the place of a cell which the parents do not list lists none of theirs.
    not_listed :
        (c d : ℕ) (w : View)
        → get_elem? cells c ≡ some w
        → count c (expected_cells left right) ≡ 0
        → 0 < count d w.logical_cell_ids
        → count d (expected_cells left right) ≡ 0
    not_listed c d w e absent h = elim (Bool-cases (ltb 0 (count d (expected_cells left right)))) [
      | inl listed ↦
          let mine : get_elem? cells d ≡ some w = (owned c w e).shared d h in
          let parent : (w ≡ left) ⊎ (w ≡ right) = elim (expected_owner d (ground arith)) [
            | inl p ↦ inl (some_View_inj (sym mine ∙ p))
            | inr p ↦ inr (some_View_inj (sym mine ∙ p))
          ] in
          absurd (omega (arith, absent, parent_listed c w parent (owned c w e).lists))
      | inr free ↦ ground arith
    ]

    old_owner :
        (c : ℕ) (w : View)
        → get_elem? cells c ≡ some w
        → count c v.logical_cell_ids ≡ 0
        → Owns populations out c w
    old_owner c w e absent =
        let o = owned c w e in
        record {
          lists = o.lists;
          shared = λ d k.
              new_get d
              ∙ ground (
                arith,
                not_listed c d w e (sym (ap (count c) ids) ∙ absent) k,
                ap (count d) ids,
                o.shared d k,
              );
          strict = o.strict;
          populated = o.populated;
          bounded = o.bounded;
          ready = o.ready;
        }

    pub substituted-IsOwned : IsOwned populations out
    substituted-IsOwned c w e = elim (Bool-cases (ltb 0 (count c v.logical_cell_ids))) [
      | inl new ↦
          let p : some v ≡ some w = ground (arith, new_get c, e, new) in
          let q : v ≡ w = cc in subst (Owns populations out c) q (new_owner c (ground arith))
      | inr old ↦ old_owner c w (ground (arith, new_get c, e, old)) (ground arith)
    ]
