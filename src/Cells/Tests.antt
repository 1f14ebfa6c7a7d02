-- ===== src/Cells/Tests.antt =====
-- A runtime of three cells at concrete inputs, with hundredths for the floating-point numbers.
use skip_cell.Common.{
  ℕ, ◌-◌, ◌*◌, ◌/◌, ◌≡◌, refl, true, false, List, [], ◌∷◌, some, ltb, leb, length, ok, arith,
}
use skip_cell.Common.Sets.{sort, sort_unique, unique}
use skip_cell.Cells.{
  Floating, PageRange, Location, View, Snapshot, Pair, Config, Runtime, capacity_for_population,
}
use skip_cell.Cells.Directory.{
  vector_location, HasDirectory, located, vector_location-located, filter_contains-insert_all,
  nodes_of,
}
use skip_cell.Cells.Observe.{Sample}
use skip_cell.Cells.Publish.{assembled, admitted, try_publish, make_contiguous_replacement}
use skip_cell.Cells.Exchanges.{Published, Keeps, try_publish-Published}
use skip_cell.Cells.Initial.{
  fixed_view, fresh_runtime, invalid_config, initial_view, initial_cells, push_at, register,
  initialize,
}
use skip_cell.Cells.Histories.{Op, prepares, commits, samples, queries, run, IsConsistent}
use skip_cell.Cells.Start.{population, initialize-IsValid, run-initialize}
use skip_cell.Cells.Contiguous.{try_publish-make_contiguous}

-- `infinity` is above all that the tests divide.
instance abbrev hundredths : Floating ℕ
hundredths = record {
  zero_point = 0;
  one_point = 100;
  infinity = 1000000;
  quotient = λ a b. a * 100 / b;
  minus_one = λ a. a - 100;
  at_most = leb;
  less = ltb;
  is_finite = λ a. ltb a 1000000;
}

abbrev config : Config ℕ
config = record {
  enabled = true;
  minimum_joint_observations = 1;
  minimum_coaccess_ratio = 90;
  maximum_page_increase = 10;
  maximum_unseen_increase = 10;
  maximum_successful_publishes = 2;
  background_publish = true;
  force_first_observed_modification = false;
}

abbrev first_range : PageRange
first_range = record { first_page = 0; page_count = 2; node_count = 10 }

abbrev second_range : PageRange
second_range = record { first_page = 2; page_count = 3; node_count = 20 }

abbrev third_range : PageRange
third_range = record { first_page = 9; page_count = 4; node_count = 40 }

abbrev ranges : List PageRange
ranges = first_range ∷ second_range ∷ third_range ∷ []

abbrev pairs : List Pair
pairs = (record { left_cell = 0; right_cell = 1 }) ∷ (record { left_cell = 1; right_cell = 2 }) ∷ []

abbrev begun : Runtime ℕ
begun =
    fresh_runtime config pairs
      (fixed_view 0 first_range 16
        ∷ fixed_view 1 second_range 32
        ∷ fixed_view 2 third_range 64
        ∷ [])
      ((0 ∷ []) ∷ (0 ∷ 1 ∷ []) ∷ (1 ∷ []) ∷ [])

started : initialize ranges pairs config ≡ ok begun
unfolding initialize invalid_config initial_cells initial_view capacity_for_population register
    push_at
started = refl

abbrev merged : View
merged = record {
  view_id = 2 * 2147483648;
  generation = 1;
  capacity_class = 32;
  node_count = 30;
  physical_payload_ready = true;
  logical_cell_ids = 0 ∷ 1 ∷ [];
  page_runs = (record { first_page = 0; page_count = 5 }) ∷ [];
  vector_nodes = [];
  vector_locations = [];
  payload_checksum = 0;
  directory_checksum = 0;
}

abbrev both : Sample
both = record {
  left_loaded = true;
  right_loaded = true;
  fixed_pages = 5;
  merged_pages = 5;
  fixed_unseen = 30;
  merged_unseen = 30;
}

-- Two threads prepare the same candidate, and the second exchange finds another snapshot.
abbrev race : List Op
race =
    samples 0 both
    ∷ prepares 0 (some merged) false
    ∷ prepares 0 (some merged) false
    ∷ commits 1
    ∷ queries (0 ∷ 1 ∷ [])
    ∷ commits 0
    ∷ []

run-initialize_example :
    IsConsistent
      (length ranges)
      (population ranges)
      (run race (record { runtime = begun; waiting = [] }))
    × Keeps begun (run race (record { runtime = begun; waiting = [] })).runtime
run-initialize_example = run-initialize ranges pairs config race started

try_publish-Published_example :
    Published 3 (population ranges) begun 0 merged (try_publish 0 (some merged) true begun)
try_publish-Published_example =
    try_publish-Published 3 (population ranges) begun 0 merged true
      (initialize-IsValid ranges pairs config started)

merged_made : make_contiguous_replacement 0 begun ≡ ok (some merged)
unfolding make_contiguous_replacement capacity_for_population sort_unique sort unique
merged_made = refl

forced : admitted 0 true begun ≡ true
unfolding admitted
forced = refl

try_publish-make_contiguous_example : (try_publish 0 (some merged) true begun).1 ≡ ok true
try_publish-make_contiguous_example =
    try_publish-make_contiguous 3 (population ranges) begun 0 true
      (initialize-IsValid ranges pairs config started) forced merged_made

abbrev site : ℕ → Location
site page = record { page_id = page; page_offset = 0 }

abbrev relocated : List (ℕ × Location)
relocated = (4, site 7) ∷ (6, site 8) ∷ []

abbrev moved_snapshot : Snapshot
moved_snapshot = assembled (begun.objects 0) [] relocated

moved_indexed : HasDirectory moved_snapshot relocated
moved_indexed = record {
  ascending = omega arith;
  nodes = refl;
  locations = refl;
  covered = λ node h. filter_contains-insert_all (λ _. 0) (nodes_of relocated) node h;
}

vector_location-located_example :
    vector_location moved_snapshot 6 (site 1) ≡ ok (located relocated 6 (site 1))
vector_location-located_example =
    vector_location-located moved_snapshot relocated 6 (site 1) moved_indexed
