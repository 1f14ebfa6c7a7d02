-- ===== src/Cells/Contiguous.antt =====
-- The replacement that `make_contiguous_replacement` makes passes every check of `try_publish`.
use skip_cell.Common.{
  ℕ, ◌≤◌, ◌<◌, ◌≡◌, ◌≢◌, refl, subst, Bool, true, false, not, ◌||◌, inl, inr, Bool-cases, List, [],
  ◌∷◌, Option, none, some, leb, ◌==◌, length, count, count-cons, set, get_elem?, Result, ok, ◌>>=◌,
  ok_bind, arith,
}
use skip_cell.Common.Sets.{same_list_refl, lt_of_get_elem?, length-set}
use skip_cell.Cells.{
  Floating, PageRun, View, Snapshot, Pair, Runtime, cell, acquire, capacity_for_population,
}
use skip_cell.Cells.Directory.{entries}
use skip_cell.Cells.Observe.{add32, candidate_at}
use skip_cell.Cells.Publish.{
  substitute, mismatched, misdirected, expected_cells, next_snapshot, unfit, fitted_next,
  checked_next, built_next, admitted, placed, prepare, commit, committed, try_publish, single_run,
  contiguous, merged_view, merged_runs, make_contiguous_replacement,
}
use skip_cell.Cells.Ownership.{expected_owner}
use skip_cell.Cells.Built.{IsSound, next, built, capacity_bounds}
use skip_cell.Cells.Published.{IsValid}

-- A substitution of cells that are all there succeeds.
substitute-some :
    (ids : List ℕ) (v : View) (cells : List View)
    → ((c : ℕ) → 0 < count c ids → c < length cells)
    → (out : List View) × (substitute ids v cells ≡ some out)
unfolding substitute
substitute-some [] v cells inside = (cells, refl)
substitute-some (i ∷ is) v cells inside =
    let here : leb (length cells) i ≡ false = ground (arith, inside i, count-cons i i is) in
    let (out, e) = substitute-some is v (set cells i v) (λ c h.
      omega (arith, inside c (omega (arith, count-cons c i is, h)), length-set cells i v)) in
    (out, rw here e)

-- Where `make_contiguous_replacement` made a view, the parents differ, and it is their merged view.
record IsMerged (current : Snapshot) (pair : Pair) (left right v : View) : Type 0 where
  apart : left.view_id ≢ right.view_id
  capacity : ℕ
  holds : capacity_for_population (add32 left.node_count right.node_count) ≡ ok capacity
  left_run : PageRun
  right_run : PageRun
  made : merged_view current pair left right left_run right_run capacity ≡ v

merged_runs-IsMerged :
    (current : Snapshot) (pair : Pair) (left right : View) (left_run right_run : Option PageRun)
    {v : View}
    → merged_runs current pair left right left_run right_run ≡ ok (some v)
    → IsMerged current pair left right v
unfolding merged_runs
merged_runs-IsMerged current pair left right none right_run e = absurd (ground (arith, e))
merged_runs-IsMerged current pair left right (some a) none e = absurd (ground (arith, e))
merged_runs-IsMerged current pair left right (some a) (some b) {v} e =
    elim (Bool-cases (left.view_id == right.view_id || not (contiguous a b))) [
      | inl bad ↦ absurd (ground (arith, e, bad))
      | inr good ↦
          let (capacity, holds, f) =
            ok_bind (capacity_for_population (add32 left.node_count right.node_count))
              (λ capacity. ok (some (merged_view current pair left right a b capacity)))
              (rw good at e) in
          record {
            apart = ground (arith, good);
            capacity = capacity;
            holds = holds;
            left_run = a;
            right_run = b;
            made = some_ok_inj f;
          }
    ]
  where
    some_ok_inj : {u w : View} → ok (some u) ≡ ok (some w) → u ≡ w
    some_ok_inj p = cc

module _ (current : Snapshot) (left right v : View) where
  fitted-ok :
      (capacity : ℕ) {cells : List View} {after : Snapshot}
      → unfit left right v capacity ≡ false
      → substitute (expected_cells left right) v current.cells ≡ some cells
      → next_snapshot current v cells ≡ ok after
      → fitted_next current left right v capacity ≡ ok (some after)
  unfolding fitted_next
  fitted-ok capacity good done made = rw good (rw done (rw made refl))

  checked-ok :
      {capacity : ℕ} {after : Snapshot}
      → mismatched left right v current ≡ false
      → capacity_for_population v.node_count ≡ ok capacity
      → fitted_next current left right v capacity ≡ ok (some after)
      → checked_next current left right v ≡ ok (some after)
  unfolding checked_next
  checked-ok good holds made = rw good (rw holds made)

built-ok :
    (current : Snapshot) (pair : Pair) (left right v : View) {after : Snapshot}
    → cell current pair.left_cell ≡ ok left
    → cell current pair.right_cell ≡ ok right
    → checked_next current left right v ≡ ok (some after)
    → built_next current pair v ≡ ok (some after)
unfolding built_next
built-ok current pair left right v at_left at_right made = rw at_left (rw at_right made)

cell_there : (s : Snapshot) (c : ℕ) {v : View} → cell s c ≡ ok v → get_elem? s.cells c ≡ some v
unfolding cell
cell_there s c e = ground (arith, e)

module _ (size : ℕ) (populations : ℕ → ℕ) (current : Snapshot) (pair : Pair) (left right : View)
    (sound : IsSound size populations current)
    (at_left : get_elem? current.cells pair.left_cell ≡ some left)
    (at_right : get_elem? current.cells pair.right_cell ≡ some right)
    (apart : left.view_id ≢ right.view_id) (a b : PageRun) (capacity : ℕ)
    (holds : capacity_for_population (add32 left.node_count right.node_count) ≡ ok capacity) where
  abbrev v : View
  v = merged_view current pair left right a b capacity

  fits : mismatched left right v current ≡ false
  unfolding mismatched merged_view
  fits = ground (arith, apart)

  in_order : misdirected v ≡ false
  unfolding misdirected merged_view
  in_order = refl

  bounded : v.node_count ≤ 512
  unfolding merged_view
  bounded = elim (capacity_bounds v.node_count (capacity_for_population v.node_count) refl) [
    | inl (c, e, h) ↦ h
    | inr (e, h) ↦ absurd (ground (arith, e, holds))
  ]

  expected_there : (c : ℕ) → 0 < count c (expected_cells left right) → c < length current.cells
  expected_there c h =
      elim (expected_owner populations current.cells sound.owned pair.left_cell pair.right_cell left
        right at_left at_right apart c h) [
          | inl e ↦ lt_of_get_elem? current.cells c e
          | inr e ↦ lt_of_get_elem? current.cells c e
        ]

  no_entries : entries v.vector_nodes v.vector_locations ≡ ok []
  unfolding merged_view entries
  no_entries = refl

  capacity_held : capacity_for_population v.node_count ≡ ok capacity
  unfolding merged_view
  capacity_held = holds

  ids : v.logical_cell_ids ≡ expected_cells left right
  unfolding merged_view
  ids = refl

  fit : unfit left right v capacity ≡ false
  unfolding merged_view misdirected
  fit = ground (arith, same_list_refl (expected_cells left right))

  checked_next-merged : (after : Snapshot) × (checked_next current left right v ≡ ok (some after))
  checked_next-merged =
      let (cells, done) =
        substitute-some (expected_cells left right) v current.cells expected_there in
      let made =
        built size populations current pair left right v sound at_left at_right fits bounded cells
          [] ids done no_entries tt in
      (
        next size populations current pair left right v sound at_left at_right fits bounded cells []
            ids done no_entries tt,
        checked-ok current left right v fits capacity_held
            (fitted-ok current left right v capacity fit done made),
      )

-- A runtime publishes what passes every check.
module _ {D : Type 0} ⦃f : Floating D⦄ where
  publish-ok :
      (r : Runtime D) (candidate : ℕ) (v : View) (force : Bool) (pair : Pair) (after : Snapshot)
      → admitted candidate force r ≡ true
      → candidate_at r candidate ≡ ok pair
      → built_next (acquire r) pair v ≡ ok (some after)
      → (try_publish candidate (some v) force r).1 ≡ ok true
  unfolding try_publish prepare placed committed commit
  publish-ok r candidate v force pair after accepted found made =
      let same : (r.snapshot == r.snapshot) ≡ true = ground arith in
      rw accepted (rw found (rw made (rw same refl)))

  -- On a valid runtime a replacement that make_contiguous_replacement makes of the current snapshot
  -- for a candidate which is admitted, because it is eligible or forced, is published by try_publish.
  pub try_publish-make_contiguous :
      (size : ℕ) (populations : ℕ → ℕ) (r : Runtime D) (candidate : ℕ) (force : Bool) {v : View}
      → IsValid size populations r
      → admitted candidate force r ≡ true
      → make_contiguous_replacement candidate r ≡ ok (some v)
      → (try_publish candidate (some v) force r).1 ≡ ok true
  unfolding make_contiguous_replacement
  try_publish-make_contiguous size populations r candidate force {v} valid accepted e =
      let (pair, found, e₁) = ok_bind (candidate_at r candidate) (made_of r) e in
      let (left, at_left, e₂) =
        ok_bind (cell (acquire r) pair.left_cell) (made_of_left r pair) e₁ in
      let (right, at_right, e₃) =
        ok_bind (cell (acquire r) pair.right_cell) (made_of_right r pair left) e₂ in
      let m =
        merged_runs-IsMerged (acquire r) pair left right (single_run left) (single_run right) e₃ in
      let (after, made) =
        checked_next-merged size populations (acquire r) pair left right
          (valid.sound r.snapshot valid.allocated) (cell_there (acquire r) pair.left_cell at_left)
          (cell_there (acquire r) pair.right_cell at_right) m.apart m.left_run m.right_run
          m.capacity m.holds in
      publish-ok r candidate v force pair after accepted found (
        built-ok (acquire r) pair left right v at_left at_right
          (subst (λ w. checked_next (acquire r) left right w ≡ ok (some after)) m.made made))
    where
      made_of_right : Runtime D → Pair → View → View → Result (Option View)
      made_of_right r pair left right =
          merged_runs (acquire r) pair left right (single_run left) (single_run right)

      made_of_left : Runtime D → Pair → View → Result (Option View)
      made_of_left r pair left = cell (acquire r) pair.right_cell >>= made_of_right r pair left

      made_of : Runtime D → Pair → Result (Option View)
      made_of r pair = cell (acquire r) pair.left_cell >>= made_of_left r pair
