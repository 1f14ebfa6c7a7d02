-- ===== src/Cells.antt =====
-- include/index/adaptive_cell_runtime.h and src/index/adaptive_cell_runtime.cc: the mapping table of the
-- adaptive cells. Each logical cell has a view that says in which pages its nodes are; merged cells
-- share one view. A snapshot is immutable once it is published.
-- Words of 32 and 64 bits are numbers with the wrap-around written out. A floating-point type and what
-- the code computes with it are parameters: an instance of `Floating`.
pub mod Filter
pub mod Directory
pub mod Observe
pub mod Publish
pub mod Initial
pub mod Ownership
pub mod Entries
pub mod Built
pub mod Published
pub mod Exchanges
pub mod Observations
pub mod Histories
pub mod Start
pub mod Contiguous
mod Tests
pub use skip_cell.Optimized.{PageRun, Location, PageRange}
use skip_cell.Common.{
  ℕ, zero, suc, ◌+◌, ◌*◌, ◌%◌, ◌^◌, Bool, true, false, ◌&&◌, ◌||◌, List, [], ◌∷◌, Option, none,
  some, ltb, leb, ◌==◌, if◌then◌else◌, length, get_elem?, Result, ok, throws, out_of_range,
  invalid_argument, ◌>>=◌,
}

abbrev pub uint32 : ℕ
uint32 = 2 ^ 32

abbrev pub uint64 : ℕ
uint64 = 2 ^ 64

-- `double`, with the quotient of two counters, as `static_cast` and `/` compute it, the difference to 1.0
-- and the comparisons.
pub record Floating (D : Type 0) : Type 0 where
  pub zero_point : D
  pub one_point : D
  pub infinity : D
  pub quotient : ℕ → ℕ → D
  pub minus_one : D → D
  pub at_most : D → D → Bool
  pub less : D → D → Bool
  pub is_finite : D → Bool

pub record View : Type 0 where
  pub view_id : ℕ
  pub generation : ℕ
  pub capacity_class : ℕ
  pub node_count : ℕ
  pub physical_payload_ready : Bool
  pub logical_cell_ids : List ℕ
  pub page_runs : List PageRun
  pub vector_nodes : List ℕ
  pub vector_locations : List Location
  pub payload_checksum : ℕ
  pub directory_checksum : ℕ

-- The filter is an array of 64 words, a function behind its bounds.
pub record Snapshot : Type 0 where
  pub generation : ℕ
  pub cells : List View
  pub override_nodes : List ℕ
  pub override_locations : List Location
  pub override_filter : ℕ → ℕ

-- `adaptive_cell_snapshot_t::cell`.
unfoldable pub cell : Snapshot → ℕ → Result View
cell s logical_cell = elim (get_elem? s.cells logical_cell) [
  | none ↦ throws out_of_range
  | some v ↦ ok v
]

-- The smallest of the capacities that holds the population.
unfoldable pub capacity_for_population : ℕ → Result ℕ
capacity_for_population population =
    if leb population 16
    then ok 16
    else if leb population 32
    then ok 32
    else if leb population 64
    then ok 64
    else if leb population 128
    then ok 128
    else if leb population 256
    then ok 256
    else if leb population 512
    then ok 512
    else throws invalid_argument

-- What merging two cells costs, from the counters.
unfoldable pub relative_increase : {D : Type 0} ⦃f : Floating D⦄ → ℕ → ℕ → D
relative_increase ⦃f⦄ merged fixed =
    if fixed == 0
    then if merged == 0 then f.zero_point else f.infinity
    else f.minus_one (f.quotient merged fixed)

-- `adaptive_cell_merge_candidate_t`.
pub record Pair : Type 0 where
  pub left_cell : ℕ
  pub right_cell : ℕ

-- `adaptive_cell_runtime_config_t`.
pub record Config (D : Type 0) : Type 0 where
  pub enabled : Bool
  pub minimum_joint_observations : ℕ
  pub minimum_coaccess_ratio : D
  pub maximum_page_increase : D
  pub maximum_unseen_increase : D
  pub maximum_successful_publishes : ℕ
  pub background_publish : Bool
  pub force_first_observed_modification : Bool

-- `candidate_counters_t`.
pub record Counters : Type 0 where
  pub parent_observations : ℕ
  pub joint_observations : ℕ
  pub fixed_pages : ℕ
  pub merged_pages : ℕ
  pub fixed_unseen : ℕ
  pub merged_unseen : ℕ

-- The runtime. A snapshot is known by its address, and `objects` has what stands there: an object under
-- construction gets an address of its own, which no object that somebody holds has.
pub record Runtime (D : Type 0) : Type 0 where
  pub config : Config D
  pub candidates : List Pair
  pub candidates_by_cell : List (List ℕ)
  pub counters : ℕ → Counters
  pub objects : ℕ → Snapshot
  pub next_address : ℕ
  pub snapshot : ℕ
  pub final_snapshot : Option ℕ
  pub observations : ℕ
  pub publish_attempts : ℕ
  pub successful_publishes : ℕ
  pub publish_conflicts : ℕ
  pub physical_generations : ℕ
  pub pending : ℕ → Bool
  pub forced_modification_queued : Bool
  pub forced_candidate : ℕ

-- `acquire`.
abbrev pub acquire : {D : Type 0} → Runtime D → Snapshot
acquire r = r.objects r.snapshot

unfoldable pub accepts_observations : {D : Type 0} → Runtime D → Bool
accepts_observations r =
    r.config.enabled && ltb r.successful_publishes r.config.maximum_successful_publishes
