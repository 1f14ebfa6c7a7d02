-- ===== src/Optimized/Tests.antt =====
-- A request of pages and a graph of five points at concrete inputs.
use skip_cell.Common.{◌≤◌, ◌≡◌, ◌⊎◌, [], ◌∷◌, ◌==◌, if◌then◌else◌, ok, arith}
use skip_cell.Common.Sets.{sort_unique}
use skip_cell.Optimized.Runs.{make_io_page_runs, pages_of, AreMaximal, make_io_page_runs-pages}
use skip_cell.Optimized.Assignment.{
  Graph, Gathering, fill, Cells, build_io_global_graph_cell_assignment,
}
use skip_cell.Optimized.Gathers.{AllBelow, IsGraph, fill-ends}
use skip_cell.Optimized.Coverage.{Covers, build_io_global_graph_cell_assignment-Covers}

make_io_page_runs-pages_example :
    (pages_of (make_io_page_runs (7 ∷ 3 ∷ 4 ∷ 3 ∷ 8 ∷ [])) ≡ sort_unique (7 ∷ 3 ∷ 4 ∷ 3 ∷ 8 ∷ []))
    × AreMaximal (make_io_page_runs (7 ∷ 3 ∷ 4 ∷ 3 ∷ 8 ∷ []))
make_io_page_runs-pages_example = make_io_page_runs-pages (7 ∷ 3 ∷ 4 ∷ 3 ∷ 8 ∷ [])

abbrev star : Graph
star = record { point_count = 5; neighbors = λ i. if i == 0 then 1 ∷ 2 ∷ 3 ∷ [] else 0 ∷ 4 ∷ [] }

star-IsGraph : IsGraph star
unfolding AllBelow
star-IsGraph i = ground arith

build_io_global_graph_cell_assignment-Covers_example :
    (cells : Cells) × (build_io_global_graph_cell_assignment star 2 ≡ ok cells)
    × Covers star 2 cells
build_io_global_graph_cell_assignment-Covers_example =
    build_io_global_graph_cell_assignment-Covers star 2 (omega arith) (omega arith) (omega arith)
      star-IsGraph

abbrev from_zero : Gathering
from_zero = record {
  state = λ i. if i == 0 then 1 else 2;
  node_to_cell = λ i. if i == 0 then 0 else 4294967295;
  frontier = 1 ∷ 2 ∷ 3 ∷ [];
  population = 1;
}

fill-ends_example :
    ((fill 1 star 2 0 from_zero).frontier ≡ []) ⊎ (2 ≤ (fill 1 star 2 0 from_zero).population)
fill-ends_example = fill-ends star 2 0 1 from_zero (omega arith)
