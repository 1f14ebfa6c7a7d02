-- ===== src/Cells/Observe.antt =====
-- `profile`, `observe` and `observe_query`: the counters of a merge candidate, and whether they make it
-- eligible. Each counter wraps around at 2 ^ 64.
use skip_cell.Common.{
  ℕ, ◌+◌, ◌%◌, Bool, true, false, not, ◌&&◌, ◌||◌, List, [], ◌∷◌, ◌++◌, none, some, ltb, leb, ◌==◌,
  if◌then◌else◌, length, get_elem?, one_if, update, Result, ok, throws, out_of_range, undefined,
  ◌>>=◌,
}
use skip_cell.Common.Sets.{sort_unique}
use skip_cell.Cells.{
  uint32, uint64, Floating, PageRun, View, Pair, Config, Counters, Runtime, cell, acquire,
  relative_increase, accepts_observations,
}
use skip_cell.Cells.Directory.{lower_bound}

-- `adaptive_cell_merge_profile_t`.
pub record Profile (D : Type 0) : Type 0 where
  pub counted : Counters
  pub coaccess_ratio : D
  pub page_increase : D
  pub unseen_increase : D
  pub eligible : Bool

-- The profile from the counters of a candidate.
unfoldable pub profile_of : {D : Type 0} ⦃f : Floating D⦄ → Config D → Counters → Profile D
unfolding relative_increase
profile_of ⦃f⦄ config c =
    let coaccess =
      if c.parent_observations == 0
      then f.zero_point
      else f.quotient c.joint_observations c.parent_observations in
    let pages = relative_increase c.merged_pages c.fixed_pages in
    let unseen = relative_increase c.merged_unseen c.fixed_unseen in
    record {
      counted = c;
      coaccess_ratio = coaccess;
      page_increase = pages;
      unseen_increase = unseen;
      eligible =
          config.enabled
          && leb config.minimum_joint_observations c.joint_observations
          && f.at_most config.minimum_coaccess_ratio coaccess
          && f.at_most pages config.maximum_page_increase
          && f.at_most unseen config.maximum_unseen_increase;
    }

unfoldable pub profile : {D : Type 0} ⦃f : Floating D⦄ → ℕ → Runtime D → Result (Profile D)
unfolding profile_of
profile candidate r =
    if leb (length r.candidates) candidate
    then throws out_of_range
    else ok (profile_of r.config (r.counters candidate))

-- `profile(candidate).eligible` of a candidate that is there.
abbrev pub eligible : {D : Type 0} ⦃f : Floating D⦄ → ℕ → Runtime D → Bool
eligible candidate r = (profile_of r.config (r.counters candidate)).eligible

-- `fetch_add` of a 64-bit counter.
abbrev pub add64 : ℕ → ℕ → ℕ
add64 a b = (a + b) % uint64

abbrev pub add32 : ℕ → ℕ → ℕ
add32 a b = (a + b) % uint32

-- What one observation says: whether the parents were loaded, and what the two layouts would cost.
pub record Sample : Type 0 where
  pub left_loaded : Bool
  pub right_loaded : Bool
  pub fixed_pages : ℕ
  pub merged_pages : ℕ
  pub fixed_unseen : ℕ
  pub merged_unseen : ℕ

unfoldable pub counted_with : Sample → Counters → Counters
counted_with s c = record {
  parent_observations = add64 c.parent_observations 1;
  joint_observations = add64 c.joint_observations (one_if (s.left_loaded && s.right_loaded));
  fixed_pages = add64 c.fixed_pages s.fixed_pages;
  merged_pages = add64 c.merged_pages s.merged_pages;
  fixed_unseen = add64 c.fixed_unseen s.fixed_unseen;
  merged_unseen = add64 c.merged_unseen s.merged_unseen;
}

unfoldable pub observe : {D : Type 0} → ℕ → Sample → Runtime D → Runtime D
unfolding counted_with
observe candidate s r =
    if not r.config.enabled
      || leb (length r.candidates) candidate
      || (not s.left_loaded && not s.right_loaded)
    then r
    else record r {
      counters = update r.counters candidate (counted_with s (r.counters candidate));
      observations = add64 r.observations 1;
    }

-- The lambda `page_count`.
unfoldable pub page_count : List PageRun → ℕ → ℕ
page_count [] pages = pages
page_count (run ∷ runs) pages = page_count runs (add32 pages run.page_count)

-- `std::binary_search`, which is defined for an ascending list.
unfoldable pub binary_search : ℕ → List ℕ → Bool
unfolding lower_bound
binary_search x xs = elim (get_elem? xs (lower_bound x xs)) [
  | none ↦ false
  | some y ↦ not (ltb x y)
]

abbrev or_zero : Bool → ℕ → ℕ
or_zero loaded n = if loaded then n else 0

unfoldable pub sample_of : Bool → Bool → View → View → Sample
unfolding page_count
sample_of left_loaded right_loaded left right =
    let left_pages = page_count left.page_runs 0 in
    let right_pages = page_count right.page_runs 0 in
    record {
      left_loaded = left_loaded;
      right_loaded = right_loaded;
      fixed_pages = add32 (or_zero left_loaded left_pages) (or_zero right_loaded right_pages);
      merged_pages = add32 left_pages right_pages;
      fixed_unseen =
          add32 (or_zero left_loaded left.node_count) (or_zero right_loaded right.node_count);
      merged_unseen = add32 left.node_count right.node_count;
    }

-- The candidates that a loaded cell has a part in.
unfoldable pub query_candidates : List (List ℕ) → List ℕ → List ℕ
query_candidates by_cell [] = []
query_candidates by_cell (cell ∷ cells) = elim (get_elem? by_cell cell) [
  | none ↦ query_candidates by_cell cells
  | some candidates ↦ candidates ++ query_candidates by_cell cells
]

-- The first modification is forced once.
unfoldable pub force_first : {D : Type 0} → List ℕ → Runtime D → Runtime D
force_first [] r = r
force_first (front ∷ _) r =
    if r.config.force_first_observed_modification && not r.forced_modification_queued
    then record r {
      forced_modification_queued = true;
      forced_candidate = front;
      pending = update r.pending front true;
    }
    else r

-- `candidates_[candidate]`.
unfoldable pub candidate_at : {D : Type 0} → Runtime D → ℕ → Result Pair
candidate_at r candidate = elim (get_elem? r.candidates candidate) [
  | none ↦ throws undefined
  | some pair ↦ ok pair
]

-- The candidate is queued when the observation makes it eligible.
unfoldable pub observed : {D : Type 0} ⦃f : Floating D⦄ → ℕ → Sample → Runtime D → Runtime D
unfolding observe profile_of
observed candidate s r =
    let after = observe candidate s r in
    if after.config.background_publish && eligible candidate after
    then record after { pending = update after.pending candidate true }
    else after

-- The observation of a candidate whose parents have views of their own.
unfoldable pub observe_views :
    {D : Type 0} ⦃f : Floating D⦄ → Bool → Bool → ℕ → Runtime D → View → View → Runtime D
unfolding sample_of observed
observe_views left_loaded right_loaded candidate r left right =
    if left.view_id == right.view_id
    then r
    else observed candidate (sample_of left_loaded right_loaded left right) r

unfoldable pub observe_pair :
    {D : Type 0} ⦃f : Floating D⦄ → List ℕ → ℕ → Runtime D → Pair → Result (Runtime D)
observe_pair loaded candidate r pair =
    let left_loaded = binary_search pair.left_cell loaded in
    let right_loaded = binary_search pair.right_cell loaded in
    if not left_loaded && not right_loaded then ok r else do
      left ← cell (acquire r) pair.left_cell
      right ← cell (acquire r) pair.right_cell
      ok (observe_views left_loaded right_loaded candidate r left right)

-- One round of the loop over the candidates.
unfoldable pub observe_candidate :
    {D : Type 0} ⦃f : Floating D⦄ → List ℕ → ℕ → Runtime D → Result (Runtime D)
unfolding candidate_at observe_pair cell binary_search observe_views
observe_candidate loaded candidate r = candidate_at r candidate >>= observe_pair loaded candidate r

unfoldable pub observe_candidates :
    {D : Type 0} ⦃f : Floating D⦄ → List ℕ → List ℕ → Runtime D → Result (Runtime D)
unfolding observe_candidate accepts_observations
observe_candidates loaded [] r = ok r
observe_candidates loaded (candidate ∷ candidates) r =
    if accepts_observations r
    then observe_candidate loaded candidate r >>= observe_candidates loaded candidates
    else ok r

unfoldable pub observe_query :
    {D : Type 0} ⦃f : Floating D⦄ → List ℕ → Runtime D → Result (Runtime D)
unfolding accepts_observations query_candidates sort_unique force_first observe_candidates
observe_query [] r = ok r
observe_query (first ∷ rest) r =
    let loaded = first ∷ rest in
    let candidates = sort_unique (query_candidates r.candidates_by_cell loaded) in
    if accepts_observations r
    then observe_candidates loaded candidates (force_first candidates r)
    else ok r
