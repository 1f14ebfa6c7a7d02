-- ===== src/Optimized/Assignment.antt =====
-- `build_io_global_graph_cell_assignment`: the nodes of a graph in cells of at most a target size, each
-- gathered from a seed outwards. A graph is what the code asks the index for: its points and the
-- neighbors of a point. The frontier is what stands behind its cursor.
use skip_cell.Common.{
  ℕ, zero, suc, ◌+◌, Bool, false, not, ◌||◌, List, [], ◌∷◌, ◌++◌, ltb, ◌==◌, if◌then◌else◌, update,
  Result, ok, throws, invalid_argument, overflow_error, logic_error, ◌>>=◌,
}
use skip_cell.Optimized.Runs.{uint32_max}

pub record Graph : Type 0 where
  pub point_count : ℕ
  pub neighbors : ℕ → List ℕ

-- The arrays `state` (0: free, 1: in a cell, 2: on the frontier) and `node_to_cell`, functions behind
-- their bounds, and the variables of the round of a seed.
pub record Gathering : Type 0 where
  pub state : ℕ → ℕ
  pub node_to_cell : ℕ → ℕ
  pub frontier : List ℕ
  pub population : ℕ

-- The loop of `add_node` over the neighbors: those that are free go to the frontier.
unfoldable pub discover : List ℕ → Gathering → Gathering
discover [] g = g
discover (neighbor ∷ neighbors) g = discover neighbors (
    if g.state neighbor == 0
    then record g { state = update g.state neighbor 2; frontier = g.frontier ++ neighbor ∷ [] }
    else g)

-- The node in its cell, before its neighbors are looked at.
abbrev pub assigned : ℕ → ℕ → Gathering → Gathering
assigned cell node g = record g {
  state = update g.state node 1;
  node_to_cell = update g.node_to_cell node cell;
  population = g.population + 1;
}

-- The lambda `add_node`.
unfoldable pub add_node : Graph → ℕ → ℕ → Gathering → Gathering
unfolding discover
add_node graph cell node g = discover (graph.neighbors node) (assigned cell node g)

-- A round of the loop that fills a cell, and the rounds behind it. The loop ends when the frontier is
-- empty or the cell has the target's size.
abbrev pub fill_with : (Gathering → Gathering) → Graph → ℕ → ℕ → Gathering → List ℕ → Gathering
fill_with more graph target cell g [] = g
fill_with more graph target cell g (node ∷ rest) =
    if ltb g.population target
    then more (add_node graph cell node (record g { frontier = rest }))
    else g

unfoldable pub fill : ℕ → Graph → ℕ → ℕ → Gathering → Gathering
unfolding add_node
fill zero graph target cell g = g
fill (suc rounds) graph target cell g =
    fill_with (fill rounds graph target cell) graph target cell g g.frontier

-- What is left on the frontier is free again.
unfoldable pub release : List ℕ → (ℕ → ℕ) → ℕ → ℕ
release [] state = state
release (node ∷ rest) state = release rest (if state node == 2 then update state node 0 else state)

-- The arrays and the number of cells between the seeds.
pub record Cut : Type 0 where
  pub state : ℕ → ℕ
  pub node_to_cell : ℕ → ℕ
  pub cell_count : ℕ

-- The cell that grows from a seed.
unfoldable pub grow : Graph → ℕ → ℕ → Cut → Cut
unfolding add_node fill release
grow graph target seed c =
    let begun =
      add_node graph c.cell_count seed (record {
        state = c.state;
        node_to_cell = c.node_to_cell;
        frontier = [];
        population = 0;
      }) in
    let filled = fill target graph target c.cell_count begun in
    record {
      state = release filled.frontier filled.state;
      node_to_cell = filled.node_to_cell;
      cell_count = c.cell_count + 1;
    }

-- The round of a seed.
unfoldable pub visit_seed : Graph → ℕ → ℕ → Cut → Result Cut
unfolding grow
visit_seed graph target seed c =
    if not (c.state seed == 0)
    then ok c
    else if c.cell_count == uint32_max
    then throws overflow_error
    else ok (grow graph target seed c)

-- The loop over so many seeds from one on.
unfoldable pub visit_seeds : ℕ → Graph → ℕ → ℕ → Cut → Result Cut
unfolding visit_seed
visit_seeds zero graph target seed c = ok c
visit_seeds (suc n) graph target seed c =
    visit_seed graph target seed c >>= visit_seeds n graph target (seed + 1)

-- `std::find` of a node without a cell.
unfoldable pub has_unassigned : ℕ → (ℕ → ℕ) → Bool
has_unassigned zero node_to_cell = false
has_unassigned (suc n) node_to_cell = node_to_cell n == uint32_max || has_unassigned n node_to_cell

-- `io_global_graph_cell_assignment_t`.
pub record Cells : Type 0 where
  pub node_to_cell : ℕ → ℕ
  pub cell_count : ℕ

abbrev pub uncut : Cut
uncut = record { state = λ _. 0; node_to_cell = λ _. uint32_max; cell_count = 0 }

abbrev pub checked : ℕ → Cut → Result Cells
checked n c =
    if has_unassigned n c.node_to_cell
    then throws logic_error
    else ok (record { node_to_cell = c.node_to_cell; cell_count = c.cell_count })

unfoldable pub build_io_global_graph_cell_assignment : Graph → ℕ → Result Cells
unfolding visit_seeds has_unassigned
build_io_global_graph_cell_assignment graph target_size =
    if target_size == 0 || graph.point_count == 0 || ltb uint32_max graph.point_count
    then throws invalid_argument
    else visit_seeds graph.point_count graph target_size 0 uncut >>= checked graph.point_count
