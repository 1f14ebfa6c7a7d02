-- ===== src/Cells/Built.antt =====
-- What `try_publish` puts together from a snapshot whose cells are owned and whose directory is in order.
use skip_cell.Common.{
  ℕ, ◌+◌, ◌≤◌, ◌<◌, ◌≡◌, ◌≢◌, ◌⊎◌, refl, sym, ap, ◌∙◌, true, false, inl, inr, Bool-cases,
  Option-cases, List, [], ◌++◌, Option, none, some, ltb, if◌then◌else◌, length, get_elem?, count,
  count-append, lookup, Result, ok, throws, invalid_argument, arith,
}
use skip_cell.Common.Sets.{IsStrict, same_list-eq, get_elem?-some, present-sort_unique}
use skip_cell.Cells.{Location, View, Snapshot, Pair, cell, capacity_for_population}
use skip_cell.Cells.Directory.{
  vector_location, entries, put_all, nodes_of, HasDirectory, located, vector_location-located,
  IsStrict-put_all, located-put_all, filter_contains-insert_all, entries-directory,
}
use skip_cell.Cells.Observe.{add32, add64}
use skip_cell.Cells.Publish.{
  substitute, mismatched, expected_cells, assembled, next_snapshot, unfit, fitted_next,
  checked_next, built_next,
}
use skip_cell.Cells.Entries.{substitute-length, moved_entries}
use skip_cell.Cells.Ownership.{IsOwned, substitute-get, substituted-IsOwned}

-- A snapshot over so many logical cells with their populations.
pub record IsSound (size : ℕ) (populations : ℕ → ℕ) (s : Snapshot) : Type 0 where
  pub sized : length s.cells ≡ size
  pub owned : IsOwned populations s.cells
  pub directory : List (ℕ × Location)
  pub indexed : HasDirectory s directory

-- What the next snapshot is to the current one: the replacement stands in place of the cells that it
-- lists, the parents' among them, all other cells keep their views; the nodes of the replacement are
-- where it says, and all others where they were.
pub record Replaced (size : ℕ) (populations : ℕ → ℕ) (current : Snapshot) (pair : Pair)
    (replacement : View) (next : Snapshot) : Type 0 where
  pub sound : IsSound size populations next
  pub succeeds : next.generation ≡ add64 current.generation 1
  pub views :
      (c : ℕ)
      → get_elem? next.cells c ≡ (
          if ltb 0 (count c replacement.logical_cell_ids)
          then some replacement
          else get_elem? current.cells c)
  pub left_merged : get_elem? next.cells pair.left_cell ≡ some replacement
  pub right_merged : get_elem? next.cells pair.right_cell ≡ some replacement
  pub moved : List (ℕ × Location)
  pub moves : entries replacement.vector_nodes replacement.vector_locations ≡ ok moved
  pub elsewhere :
      (node : ℕ) (fallback l : Location)
      → vector_location current node fallback ≡ ok l
      → vector_location next node fallback ≡ ok (located moved node l)

-- The outcomes; a population of more than 512 throws.
pub data Built (size : ℕ) (populations : ℕ → ℕ) (current : Snapshot) (pair : Pair)
    (replacement : View) : Result (Option Snapshot) → Type 0 where
  refuses : Built size populations current pair replacement (ok none)
  overfull :
      512 < replacement.node_count
      → Built size populations current pair replacement (throws invalid_argument)
  builds :
      (next : Snapshot)
      → Replaced size populations current pair replacement next
      → Built size populations current pair replacement (ok (some next))

module _ (size : ℕ) (populations : ℕ → ℕ) (current : Snapshot) (pair : Pair) (left right v : View)
    (sound : IsSound size populations current)
    (at_left : get_elem? current.cells pair.left_cell ≡ some left)
    (at_right : get_elem? current.cells pair.right_cell ≡ some right)
    (fits : mismatched left right v current ≡ false) (bounded : v.node_count ≤ 512) where
  apart : left.view_id ≢ right.view_id
  unfolding mismatched
  apart e = ground (arith, fits, e)

  nodes : v.node_count ≡ add32 left.node_count right.node_count
  unfolding mismatched
  nodes = ground (arith, fits)

  ready : v.physical_payload_ready ≡ true
  unfolding mismatched
  ready = ground (arith, fits)

  module _ (cells : List View) (moved : List (ℕ × Location))
      (ids : v.logical_cell_ids ≡ expected_cells left right)
      (done : substitute (expected_cells left right) v current.cells ≡ some cells)
      (moves : entries v.vector_nodes v.vector_locations ≡ ok moved)
      (strict : IsStrict 0 (nodes_of moved)) where
    abbrev pub next_directory : List (ℕ × Location)
    next_directory = put_all moved (put_all sound.directory [])

    abbrev pub next : Snapshot
    next = assembled current cells next_directory

    new_views :
        (c : ℕ)
        → get_elem? cells c
          ≡ (if ltb 0 (count c v.logical_cell_ids) then some v else get_elem? current.cells c)
    new_views c =
        substitute-get (expected_cells left right) v current.cells c done
        ∙ ap (λ xs. if ltb 0 (count c xs) then some v else get_elem? current.cells c) (sym ids)

    -- The parents list themselves.
    parent_merged :
        (c : ℕ)
        → 0 < count c left.logical_cell_ids + count c right.logical_cell_ids
        → get_elem? cells c ≡ some v
    parent_merged c h =
        let listed : ltb 0 (count c (expected_cells left right)) ≡ true = ground (
          arith,
          h,
          count-append c left.logical_cell_ids right.logical_cell_ids,
          present-sort_unique c (left.logical_cell_ids ++ right.logical_cell_ids),
        ) in
        substitute-get (expected_cells left right) v current.cells c done
        ∙ ap (λ b. if b then some v else get_elem? current.cells c) listed

    next_indexed : HasDirectory next next_directory
    next_indexed = record {
      ascending =
          IsStrict-put_all moved (put_all sound.directory [])
            (IsStrict-put_all sound.directory [] tt);
      nodes = refl;
      locations = refl;
      covered = λ node h. filter_contains-insert_all (λ _. 0) (nodes_of next_directory) node h;
    }

    next_location :
        (node : ℕ) (fallback l : Location)
        → vector_location current node fallback ≡ ok l
        → vector_location next node fallback ≡ ok (located moved node l)
    unfolding lookup
    next_location node fallback l e =
        let was : ok (located sound.directory node fallback) ≡ ok l =
          sym (vector_location-located current sound.directory node fallback sound.indexed) ∙ e in
        let held : located sound.directory node fallback ≡ l = ok_inj was in
        vector_location-located next next_directory node fallback next_indexed
        ∙ ap ok (
            located-put_all 0 moved (put_all sound.directory []) node fallback strict
            ∙ ap (located moved node)
                (located-put_all 0 sound.directory [] node fallback sound.indexed.ascending ∙ held))
      where
        ok_inj : {a b : Location} → ok a ≡ ok b → a ≡ b
        ok_inj p = cc

    next-Replaced : Replaced size populations current pair v next
    next-Replaced = record {
      sound = record {
        sized = substitute-length (expected_cells left right) v current.cells done ∙ sound.sized;
        owned =
            substituted-IsOwned populations current.cells sound.owned pair.left_cell pair.right_cell
              left right at_left at_right apart v ids nodes bounded ready done;
        directory = next_directory;
        indexed = next_indexed;
      };
      succeeds = refl;
      views = new_views;
      left_merged =
          parent_merged pair.left_cell
            (omega (arith, (sound.owned pair.left_cell left at_left).lists));
      right_merged =
          parent_merged pair.right_cell
            (omega (arith, (sound.owned pair.right_cell right at_right).lists));
      moved = moved;
      moves = moves;
      elsewhere = next_location;
    }

    pub built : next_snapshot current v cells ≡ ok next
    unfolding next_snapshot
    built =
        let old : entries current.override_nodes current.override_locations ≡ ok sound.directory =
          ap (λ ns. entries ns current.override_locations) sound.indexed.nodes
          ∙ ap (entries (nodes_of sound.directory)) sound.indexed.locations
          ∙ entries-directory sound.directory in
        rw (old, next_snapshot) (rw moves refl)

  fitted_next-Built :
      (capacity : ℕ)
      → Built size populations current pair v (fitted_next current left right v capacity)
  unfolding fitted_next
  fitted_next-Built capacity = elim (Bool-cases (unfit left right v capacity)) [
    | inl bad ↦ rw bad refuses
    | inr good ↦
        rw good (elim (Option-cases (substitute (expected_cells left right) v current.cells)) [
          | inl short ↦ rw short refuses
          | inr (cells, done) ↦
              let (moved, moves, strict) = moved_entries v (ground (arith, good)) in
              let ids : v.logical_cell_ids ≡ expected_cells left right =
                same_list-eq v.logical_cell_ids (expected_cells left right)
                  (ground (arith, good)) in
              rw done (
                rw (built cells moved ids done moves strict) (
                  builds (next cells moved ids done moves strict)
                    (next-Replaced cells moved ids done moves strict)))
        ])
  ]

pub capacity_bounds :
    (population : ℕ)
    → (r : Result ℕ) → capacity_for_population population ≡ r
    → ((c : ℕ) × (r ≡ ok c) × (population ≤ 512))
      ⊎ ((r ≡ throws invalid_argument) × (512 < population))
unfolding capacity_for_population
capacity_bounds population (ok c) e = inl (c, refl, ground (arith, e))
capacity_bounds population (throws x) e = inr (ground (arith, e), ground (arith, e))

checked_next-Built :
    (size : ℕ) (populations : ℕ → ℕ) (current : Snapshot) (pair : Pair) (left right v : View)
    → IsSound size populations current
    → get_elem? current.cells pair.left_cell ≡ some left
    → get_elem? current.cells pair.right_cell ≡ some right
    → Built size populations current pair v (checked_next current left right v)
unfolding checked_next
checked_next-Built size populations current pair left right v sound at_left at_right =
    elim (Bool-cases (mismatched left right v current)) [
      | inl bad ↦ rw bad refuses
      | inr good ↦
          rw good (elim (capacity_bounds v.node_count (capacity_for_population v.node_count) refl) [
            | inl (c, e, bounded) ↦ rw e (
                fitted_next-Built size populations current pair left right v sound at_left at_right
                  good bounded c)
            | inr (e, large) ↦ rw e (overfull large)
          ])
    ]

pub cell-ok : (s : Snapshot) (c : ℕ) {v : View} → get_elem? s.cells c ≡ some v → cell s c ≡ ok v
unfolding cell
cell-ok s c e = rw (e, cell) refl

pub built_next-Built :
    (size : ℕ) (populations : ℕ → ℕ) (current : Snapshot) (pair : Pair) (v : View)
    → IsSound size populations current
    → pair.left_cell < size
    → pair.right_cell < size
    → Built size populations current pair v (built_next current pair v)
unfolding built_next
built_next-Built size populations current pair v sound in_left in_right =
    let (left, at_left) =
      get_elem?-some current.cells pair.left_cell (omega (arith, sound.sized, in_left)) in
    let (right, at_right) =
      get_elem?-some current.cells pair.right_cell (omega (arith, sound.sized, in_right)) in
    rw (cell-ok current pair.left_cell at_left) (
      rw (cell-ok current pair.right_cell at_right)
        (checked_next-Built size populations current pair left right v sound at_left at_right))
