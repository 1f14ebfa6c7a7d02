-- ===== src/Cells/Initial.antt =====
-- The construction of a runtime over fixed cells, without the files of the physical experiment: the
-- constructor and `initialize`. The thread that publishes in the background is not started here.
use skip_cell.Common.{
  ℕ, zero, suc, ◌+◌, Bool, true, false, not, ◌||◌, List, [], ◌∷◌, ◌++◌, none, leb, ◌==◌,
  if◌then◌else◌, length, replicate, Result, ok, throws, invalid_argument, ◌>>=◌,
}
use skip_cell.Cells.{Floating, PageRange, View, Pair, Config, Runtime, capacity_for_population}

-- Whether the configuration or the cells are refused.
unfoldable pub invalid_config : {D : Type 0} ⦃f : Floating D⦄ → Config D → Bool
invalid_config ⦃f⦄ c =
    c.minimum_joint_observations == 0
    || not (f.is_finite c.minimum_coaccess_ratio)
    || not (f.is_finite c.maximum_page_increase)
    || not (f.is_finite c.maximum_unseen_increase)
    || f.less c.minimum_coaccess_ratio f.zero_point
    || f.less f.one_point c.minimum_coaccess_ratio
    || f.less c.maximum_page_increase f.zero_point
    || f.less c.maximum_unseen_increase f.zero_point

-- The view of a cell over its own pages.
abbrev pub fixed_view : ℕ → PageRange → ℕ → View
fixed_view cell range capacity = record {
  view_id = cell;
  generation = 0;
  capacity_class = capacity;
  node_count = range.node_count;
  physical_payload_ready = true;
  logical_cell_ids = cell ∷ [];
  page_runs = (record { first_page = range.first_page; page_count = range.page_count }) ∷ [];
  vector_nodes = [];
  vector_locations = [];
  payload_checksum = 0;
  directory_checksum = 0;
}

unfoldable pub initial_view : ℕ → PageRange → Result View
unfolding capacity_for_population
initial_view cell range =
    if range.node_count == 0 || range.page_count == 0
    then throws invalid_argument
    else capacity_for_population range.node_count >>= λ capacity.
        ok (fixed_view cell range capacity)

unfoldable pub initial_cells : ℕ → List PageRange → Result (List View)
initial_cells cell [] = ok []
initial_cells cell (range ∷ ranges) = do
  view ← initial_view cell range
  views ← initial_cells (cell + 1) ranges
  ok (view ∷ views)

-- `candidates_by_cell_[cell].push_back(candidate)`.
unfoldable pub push_at : List (List ℕ) → ℕ → ℕ → List (List ℕ)
push_at [] cell candidate = []
push_at (row ∷ rows) zero candidate = (row ++ candidate ∷ []) ∷ rows
push_at (row ∷ rows) (suc cell) candidate = row ∷ push_at rows cell candidate

-- The candidates of each cell; a candidate has two cells that are there.
unfoldable pub register : ℕ → List Pair → List (List ℕ) → Result (List (List ℕ))
unfolding push_at
register candidate [] by_cell = ok by_cell
register candidate (pair ∷ pairs) by_cell =
    let rest =
      register (candidate + 1) pairs
        (push_at (push_at by_cell pair.left_cell candidate) pair.right_cell candidate) in
    if leb (length by_cell) pair.left_cell
      || leb (length by_cell) pair.right_cell
      || pair.left_cell == pair.right_cell
    then throws invalid_argument
    else rest

-- `UINT32_MAX`.
abbrev no_candidate : ℕ
no_candidate = 4294967295

-- The runtime before any call.
abbrev pub fresh_runtime :
    {D : Type 0} → Config D → List Pair → List View → List (List ℕ) → Runtime D
fresh_runtime config candidates cells by_cell = record {
  config = config;
  candidates = candidates;
  candidates_by_cell = by_cell;
  counters = λ _. record {
    parent_observations = 0;
    joint_observations = 0;
    fixed_pages = 0;
    merged_pages = 0;
    fixed_unseen = 0;
    merged_unseen = 0;
  };
  objects = λ _. record {
    generation = 0;
    cells = cells;
    override_nodes = [];
    override_locations = [];
    override_filter = λ _. 0;
  };
  next_address = 1;
  snapshot = 0;
  final_snapshot = none;
  observations = 0;
  publish_attempts = 0;
  successful_publishes = 0;
  publish_conflicts = 0;
  physical_generations = 0;
  pending = λ _. false;
  forced_modification_queued = false;
  forced_candidate = no_candidate;
}

unfoldable pub initialize :
    {D : Type 0} ⦃f : Floating D⦄ → List PageRange → List Pair → Config D → Result (Runtime D)
initialize [] candidates config = throws invalid_argument
initialize (first ∷ rest) candidates config =
    if invalid_config config then throws invalid_argument else do
      cells ← initial_cells 0 (first ∷ rest)
      by_cell ← register 0 candidates (replicate (length (first ∷ rest)) [])
      ok (fresh_runtime config candidates cells by_cell)
