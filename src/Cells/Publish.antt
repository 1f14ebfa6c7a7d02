-- ===== src/Cells/Publish.antt =====
-- `try_publish` and `make_contiguous_replacement`. `prepare` is the call up to the exchange of the
-- snapshot: it takes the current snapshot and puts the next one together under an address of its own.
-- `commit` is the compare-and-exchange with what follows it. Other threads may come in between; where
-- none does, the two after each other are `try_publish`.
use skip_cell.Common.{
  ℕ, ◌+◌, ◌*◌, ◌%◌, ◌^◌, Bool, true, false, not, ◌&&◌, ◌||◌, List, [], ◌∷◌, ◌++◌, Option, none,
  some, ltb, leb, ◌==◌, if◌then◌else◌, length, set, update, min, Result, ok, throws, ◌>>=◌,
}
use skip_cell.Common.Sets.{sort_unique, same_list}
use skip_cell.Cells.{
  uint64, Floating, PageRun, Location, View, Snapshot, Pair, Runtime, cell, acquire,
  capacity_for_population, accepts_observations,
}
use skip_cell.Cells.Directory.{
  entries, put_all, nodes_of, locations_of, insert_all, is_sorted, has_adjacent,
}
use skip_cell.Cells.Observe.{eligible, profile_of, candidate_at, add32, add64}

-- The view of the logical cells is written into the table; a cell that is not there ends that.
unfoldable pub substitute : List ℕ → View → List View → Option (List View)
substitute [] view cells = some cells
substitute (c ∷ cs) view cells =
    let later = substitute cs view (set cells c view) in
    if leb (length cells) c then none else later

-- Whether the parents or the replacement do not fit each other, before the capacity is looked at.
unfoldable pub mismatched : View → View → View → Snapshot → Bool
mismatched left right replacement current =
    left.view_id == right.view_id
    || not replacement.physical_payload_ready
    || not (replacement.generation == add64 current.generation 1)
    || not (length replacement.page_runs == 1)
    || not (replacement.node_count == add32 left.node_count right.node_count)

abbrev pub is_empty : {A : Type 0} → List A → Bool
is_empty [] = true
is_empty (x ∷ xs) = false

-- Whether a replacement with a payload of its own has a directory that is not in order.
unfoldable pub misdirected : View → Bool
unfolding is_sorted has_adjacent
misdirected v =
    (not (is_empty v.vector_nodes) || not (is_empty v.vector_locations))
    && (not (length v.vector_nodes == v.node_count)
        || not (length v.vector_locations == length v.vector_nodes)
        || v.payload_checksum == 0
        || v.directory_checksum == 0
        || not (is_sorted v.vector_nodes)
        || has_adjacent v.vector_nodes)

abbrev pub expected_cells : View → View → List ℕ
expected_cells left right = sort_unique (left.logical_cell_ids ++ right.logical_cell_ids)

-- The snapshot after the current one, with these cells and this directory.
abbrev pub assembled : Snapshot → List View → List (ℕ × Location) → Snapshot
assembled current cells directory = record {
  generation = add64 current.generation 1;
  cells = cells;
  override_nodes = nodes_of directory;
  override_locations = locations_of directory;
  override_filter = insert_all (λ _. 0) (nodes_of directory);
}

unfoldable pub next_snapshot : Snapshot → View → List View → Result Snapshot
unfolding entries put_all insert_all
next_snapshot current replacement cells = do
  old ← entries current.override_nodes current.override_locations
  new ← entries replacement.vector_nodes replacement.vector_locations
  ok (assembled current cells (put_all new (put_all old [])))

abbrev pub with_cells : Snapshot → View → Option (List View) → Result (Option Snapshot)
with_cells current replacement none = ok none
with_cells current replacement (some cells) = do
  next ← next_snapshot current replacement cells
  ok (some next)

abbrev pub unfit : View → View → View → ℕ → Bool
unfit left right replacement capacity =
    not (replacement.capacity_class == capacity)
    || not (same_list replacement.logical_cell_ids (expected_cells left right))
    || misdirected replacement

-- The checks from the capacity on.
unfoldable pub fitted_next : Snapshot → View → View → View → ℕ → Result (Option Snapshot)
unfolding same_list misdirected substitute next_snapshot
fitted_next current left right replacement capacity =
    if unfit left right replacement capacity
    then ok none
    else with_cells current replacement
        (substitute (expected_cells left right) replacement current.cells)

-- All checks of the parents and the replacement.
unfoldable pub checked_next : Snapshot → View → View → View → Result (Option Snapshot)
unfolding mismatched capacity_for_population fitted_next
checked_next current left right replacement =
    if mismatched left right replacement current
    then ok none
    else capacity_for_population replacement.node_count
      >>= fitted_next current left right replacement

-- The snapshot with the replacement in place of the parents, or `none` where `try_publish` returns
-- false.
unfoldable pub built_next : Snapshot → Pair → View → Result (Option Snapshot)
unfolding cell checked_next
built_next current pair replacement = do
  left ← cell current pair.left_cell
  right ← cell current pair.right_cell
  checked_next current left right replacement

-- A snapshot that waits for its exchange: the address of the one that it was made from, its own, and
-- whether it has a payload of its own.
pub record Attempt : Type 0 where
  pub expected : ℕ
  pub desired : ℕ
  pub physical : Bool

-- The guards of the call.
unfoldable pub admitted : {D : Type 0} ⦃f : Floating D⦄ → ℕ → Bool → Runtime D → Bool
unfolding accepts_observations profile_of
admitted candidate force r =
    accepts_observations r && ltb candidate (length r.candidates) && (force || eligible candidate r)

-- The next snapshot as an object.
abbrev pub with_object : {D : Type 0} → Snapshot → Runtime D → Runtime D
with_object next r = record r {
  objects = update r.objects r.next_address next;
  next_address = r.next_address + 1;
}

abbrev pub new_attempt : {D : Type 0} → View → Runtime D → Attempt
new_attempt replacement r = record {
  expected = r.snapshot;
  desired = r.next_address;
  physical = not (is_empty replacement.vector_nodes);
}

unfoldable pub placed :
    {D : Type 0} → View → Runtime D → Result (Option Snapshot) → Runtime D × Result (Option Attempt)
placed replacement r (throws e) = (r, throws e)
placed replacement r (ok none) = (r, ok none)
placed replacement r (ok (some next)) = (with_object next r, ok (some (new_attempt replacement r)))

-- `publish_attempts_.fetch_add`.
abbrev pub attempted : {D : Type 0} → Runtime D → Runtime D
attempted r = record r { publish_attempts = add64 r.publish_attempts 1 }

unfoldable pub prepare :
    {D : Type 0} ⦃f : Floating D⦄
    → ℕ
    → Option View
    → Bool
    → Runtime D
    → Runtime D × Result (Option Attempt)
unfolding placed admitted candidate_at built_next
prepare candidate none force r = (r, ok none)
prepare candidate (some replacement) force r =
    if admitted candidate force r
    then placed replacement (attempted r)
        (candidate_at r candidate >>= λ pair. built_next (acquire r) pair replacement)
    else (r, ok none)

-- The exchange, and the counters after it.
unfoldable pub commit : {D : Type 0} → Attempt → Runtime D → Runtime D × Bool
commit a r =
    let successful = add64 r.successful_publishes 1 in
    if r.snapshot == a.expected
    then (
      record r {
        snapshot = a.desired;
        successful_publishes = successful;
        final_snapshot =
            if leb r.config.maximum_successful_publishes successful
            then some a.desired
            else r.final_snapshot;
        physical_generations =
            if a.physical then add64 r.physical_generations 1 else r.physical_generations;
      },
      true,
    )
    else (record r { publish_conflicts = add64 r.publish_conflicts 1 }, false)

unfoldable pub committed :
    {D : Type 0} → Runtime D × Result (Option Attempt) → Runtime D × Result Bool
unfolding commit
committed (r, throws e) = (r, throws e)
committed (r, ok none) = (r, ok false)
committed (r, ok (some a)) = let (after, done) = commit a r in (after, ok done)

unfoldable pub try_publish :
    {D : Type 0} ⦃f : Floating D⦄ → ℕ → Option View → Bool → Runtime D → Runtime D × Result Bool
unfolding prepare placed committed admitted
try_publish candidate replacement force r = committed (prepare candidate replacement force r)

-- The run of pages of a view that has one run only.
abbrev pub single_run : View → Option PageRun
single_run v = elim v.page_runs [ [] ↦ none | run ∷ rest ↦ elim rest [ [] ↦ some run | _ ↦ none ] ]

-- A view for two parents whose pages lie next to each other.
unfoldable pub merged_view : Snapshot → Pair → View → View → PageRun → PageRun → ℕ → View
merged_view current pair left right left_run right_run capacity = record {
  view_id = add64 current.generation 1 * 2 ^ 32 % uint64 + min pair.left_cell pair.right_cell;
  generation = add64 current.generation 1;
  capacity_class = capacity;
  node_count = add32 left.node_count right.node_count;
  physical_payload_ready = true;
  logical_cell_ids = sort_unique (left.logical_cell_ids ++ right.logical_cell_ids);
  page_runs =
      (record {
        first_page = min left_run.first_page right_run.first_page;
        page_count = add32 left_run.page_count right_run.page_count;
      })
      ∷ [];
  vector_nodes = [];
  vector_locations = [];
  payload_checksum = 0;
  directory_checksum = 0;
}

unfoldable pub contiguous : PageRun → PageRun → Bool
contiguous left right =
    add64 left.first_page left.page_count == right.first_page
    || add64 right.first_page right.page_count == left.first_page

-- The replacement, from the runs that the parents have.
unfoldable pub merged_runs :
    Snapshot → Pair → View → View → Option PageRun → Option PageRun → Result (Option View)
unfolding contiguous merged_view capacity_for_population
merged_runs current pair left right none right_run = ok none
merged_runs current pair left right (some left_run) none = ok none
merged_runs current pair left right (some left_run) (some right_run) =
    if left.view_id == right.view_id || not (contiguous left_run right_run) then ok none else do
      capacity ← capacity_for_population (add32 left.node_count right.node_count)
      ok (some (merged_view current pair left right left_run right_run capacity))

unfoldable pub make_contiguous_replacement : {D : Type 0} → ℕ → Runtime D → Result (Option View)
unfolding merged_runs cell candidate_at
make_contiguous_replacement candidate r = do
  pair ← candidate_at r candidate
  left ← cell (acquire r) pair.left_cell
  right ← cell (acquire r) pair.right_cell
  merged_runs (acquire r) pair left right (single_run left) (single_run right)
