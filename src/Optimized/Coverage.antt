-- ===== src/Optimized/Coverage.antt =====
-- Every node gets a cell, and no cell is larger than the target.
use skip_cell.Common.{
  ℕ, zero, suc, ◌+◌, ◌≤◌, ◌<◌, ◌≡◌, refl, ap, subst, ◌∙◌, true, false, ◌&&◌, ◌||◌, ◌⊎◌, inl, inr,
  Bool-cases, List, [], ◌∷◌, ltb, ◌==◌, ==_iff, if◌then◌else◌, count, count-nil, update, ok, ◌>>=◌,
  arith,
}
use skip_cell.Optimized.Runs.{uint32_max}
use skip_cell.Optimized.Assignment.{
  Graph, Gathering, assigned, add_node, fill, release, Cut, grow, visit_seed, visit_seeds,
  has_unassigned, Cells, uncut, build_io_global_graph_cell_assignment,
}
use skip_cell.Optimized.Gathers.{
  members, members_none, IsGraph, Gathers, IsFrontier, fill-Invariant, assigned-Gathers,
  discover-Invariant, discover-population, below,
}

release-get :
    (frontier : List ℕ) (state : ℕ → ℕ) (i : ℕ)
    → release frontier state i ≡ (if ltb 0 (count i frontier) && state i == 2 then 0 else state i)
unfolding release count
release-get [] state i = refl
release-get (x ∷ rest) state i =
    release-get rest (if state x == 2 then update state x 0 else state) i ∙ ground arith

-- The arrays between the seeds: a node is free or in a cell.
record IsCut (n target seed : ℕ) (c : Cut) : Type 0 where
  kinds : (i : ℕ) → c.state i ≤ 1
  inside : (i : ℕ) → 0 < c.state i → i < n
  free : (i : ℕ) → c.state i ≡ 0 → c.node_to_cell i ≡ uint32_max
  owned : (i : ℕ) → c.state i ≡ 1 → c.node_to_cell i < c.cell_count
  sized :
      (k : ℕ)
      → k < c.cell_count
      → (0 < members n c.node_to_cell k) × (members n c.node_to_cell k ≤ target)
  settled : (i : ℕ) → i < seed → c.state i ≡ 1
  few : c.cell_count ≤ seed

module _ (n target : ℕ) (some : 0 < target) (graph : Graph) (sane : IsGraph graph)
    (points : graph.point_count ≡ n) (small : n ≤ uint32_max) where
  -- The frontier that is left is free again.
  released-IsCut :
      (seed cell : ℕ) (g : Gathering)
      → cell < uint32_max
      → cell ≤ seed
      → Gathers n target cell (seed + 1) g.state g.node_to_cell g.population
        × IsFrontier g.state g.frontier
      → g.population ≤ target
      → 0 < g.population
      → IsCut n target (seed + 1) (record {
        state = release g.frontier g.state;
        node_to_cell = g.node_to_cell;
        cell_count = cell + 1;
      })
  released-IsCut seed cell g few early (v, f) within alive =
      let get : (i : ℕ) → release g.frontier g.state i ≡ (if g.state i == 2 then 0 else g.state i) =
        λ i. release-get g.frontier g.state i ∙ ground (arith, f i) in
      record {
        kinds = λ i. ground (arith, get i, v.kinds i);
        inside = λ i h. ground (arith, get i, v.inside i, h);
        free = λ i h. ground (arith, get i, v.free i, h);
        owned = λ i h. ground (arith, get i, v.owned i, h);
        sized = λ k h. sized_of k h (Bool-cases (k == cell));
        settled = λ i h. ground (arith, get i, v.settled i, h);
        few = omega (arith, early);
      }
    where
      sized_of :
          (k : ℕ)
          → k < cell + 1
          → ((k == cell) ≡ true) ⊎ ((k == cell) ≡ false)
          → (0 < members n g.node_to_cell k) × (members n g.node_to_cell k ≤ target)
      sized_of k h (inl e) =
          let same : k ≡ cell = (==_iff k cell).0 e in
          let counts : members n g.node_to_cell k ≡ g.population =
            ap (members n g.node_to_cell) same ∙ v.counted in
          (omega (arith, counts, alive), omega (arith, counts, within))
      sized_of k h (inr e) = v.sized k (ground (arith, h, e))

  grow-IsCut :
      (seed : ℕ) (c : Cut)
      → seed < n
      → c.state seed ≡ 0
      → IsCut n target seed c
      → IsCut n target (seed + 1) (grow graph target seed c)
  unfolding grow add_node
  grow-IsCut seed c here new v =
      let cell = c.cell_count in
      let few : cell < uint32_max = omega (arith, v.few, here, small) in
      let bare : Gathering = record {
        state = c.state;
        node_to_cell = c.node_to_cell;
        frontier = [];
        population = 0;
      } in
      let nobody : members n c.node_to_cell cell ≡ 0 =
        members_none n c.node_to_cell cell
          (λ i e. ground (arith, e, v.kinds i, v.free i, v.owned i, few)) in
      let start : Gathers n target cell seed c.state c.node_to_cell 0 = record {
        kinds = λ i. omega (arith, v.kinds i);
        inside = v.inside;
        free = λ i h. v.free i (omega (arith, v.kinds i, h));
        owned = λ i h. omega (arith, v.owned i h);
        counted = nobody;
        sized = v.sized;
        settled = v.settled;
      } in
      let put = assigned cell seed bare in
      let taken : Gathers n target cell seed put.state put.node_to_cell 1 =
        assigned-Gathers n target cell seed few seed bare here (omega (arith, new)) start in
      let rooted : Gathers n target cell (seed + 1) put.state put.node_to_cell 1 = record {
        kinds = taken.kinds;
        inside = taken.inside;
        free = taken.free;
        owned = taken.owned;
        counted = taken.counted;
        sized = taken.sized;
        settled = λ i h. ground (arith, v.settled i, h);
      } in
      let first = add_node graph cell seed bare in
      let begun =
        discover-Invariant n target cell (seed + 1) few (graph.neighbors seed) put
          (below n target cell (seed + 1) few graph sane points seed)
          (rooted, λ i. ground (arith, v.kinds i, new, count-nil i)) in
      let one_there : first.population ≡ 1 = discover-population (graph.neighbors seed) put in
      let (done, within, grown) =
        fill-Invariant n target cell (seed + 1) few graph sane points target first
          (omega (arith, one_there, some)) begun in
      released-IsCut seed cell (fill target graph target cell first) few (omega (arith, v.few)) done
        within (omega (arith, grown, one_there))

  visit_seed-IsCut :
      (seed : ℕ) (c : Cut)
      → seed < n
      → IsCut n target seed c
      → (after : Cut) × (visit_seed graph target seed c ≡ ok after)
        × IsCut n target (seed + 1) after
  unfolding visit_seed
  visit_seed-IsCut seed c here v = elim (Bool-cases (c.state seed == 0)) [
    | inr taken ↦ (
      c,
      rw taken refl,
      record {
        kinds = v.kinds;
        inside = v.inside;
        free = v.free;
        owned = v.owned;
        sized = v.sized;
        settled = λ i h. ground (arith, v.settled i, v.kinds seed, taken, h);
        few = omega (arith, v.few);
      },
    )
    | inl new ↦
        let room : (c.cell_count == uint32_max) ≡ false = ground (arith, v.few, here, small) in
        (
          grow graph target seed c,
          rw new (rw room refl),
          grow-IsCut seed c here (ground (arith, new)) v,
        )
  ]

  visit_seeds-IsCut :
      (rounds seed : ℕ) (c : Cut)
      → seed + rounds ≡ n
      → IsCut n target seed c
      → (after : Cut) × (visit_seeds rounds graph target seed c ≡ ok after) × IsCut n target n after
  unfolding visit_seeds
  visit_seeds-IsCut zero seed c e v =
      (c, refl, subst (λ k. IsCut n target k c) (omega (arith, e)) v)
  visit_seeds-IsCut (suc rounds) seed c e v =
      let (next, made, w) = visit_seed-IsCut seed c (omega (arith, e)) v in
      let (after, done, u) = visit_seeds-IsCut rounds (seed + 1) next (omega (arith, e)) w in
      (after, ap (λ r. r >>= visit_seeds rounds graph target (seed + 1)) made ∙ done, u)

  uncut-IsCut : IsCut n target 0 uncut
  uncut-IsCut = record {
    kinds = λ i. omega arith;
    inside = λ i h. absurd (omega (arith, h));
    free = λ i h. refl;
    owned = λ i h. absurd (omega (arith, h));
    sized = λ k h. absurd (omega (arith, h));
    settled = λ i h. absurd (omega (arith, h));
    few = omega arith;
  }

none_unassigned :
    (n : ℕ) (f : ℕ → ℕ) → ((i : ℕ) → i < n → f i < uint32_max) → has_unassigned n f ≡ false
unfolding has_unassigned
none_unassigned zero f h = refl
none_unassigned (suc n) f h =
    ground (arith, h n (omega arith), none_unassigned n f (λ i k. h i (omega (arith, k))))

-- What an assignment promises: each node has a cell, and each cell has between one node and the target.
pub record Covers (graph : Graph) (target : ℕ) (cells : Cells) : Type 0 where
  pub celled : (i : ℕ) → i < graph.point_count → cells.node_to_cell i < cells.cell_count
  pub sized :
      (c : ℕ)
      → c < cells.cell_count
      → (0 < members graph.point_count cells.node_to_cell c)
        × (members graph.point_count cells.node_to_cell c ≤ target)

-- For a graph of at least one point and at most 2^32 - 1 whose neighbors are points, and a positive
-- target, the assignment returns: each node has a cell below the number of cells, and each of these
-- cells has at least one node and at most as many as the target.
pub build_io_global_graph_cell_assignment-Covers :
    (graph : Graph) (target_size : ℕ)
    → 0 < target_size
    → 0 < graph.point_count
    → graph.point_count ≤ uint32_max
    → IsGraph graph
    → (cells : Cells) × (build_io_global_graph_cell_assignment graph target_size ≡ ok cells)
      × Covers graph target_size cells
unfolding build_io_global_graph_cell_assignment
build_io_global_graph_cell_assignment-Covers graph target some points small sane =
    let n = graph.point_count in
    let (c, done, v) =
      visit_seeds-IsCut n target some graph sane refl small n 0 uncut (omega arith)
        (uncut-IsCut n target some graph sane refl small) in
    let celled : (i : ℕ) → i < n → c.node_to_cell i < c.cell_count =
      λ i h. v.owned i (v.settled i h) in
    let whole : has_unassigned n c.node_to_cell ≡ false =
      none_unassigned n c.node_to_cell (λ i h. omega (arith, celled i h, v.few, small)) in
    let accepted : (target == 0 || n == 0 || ltb uint32_max n) ≡ false =
      ground (arith, some, points, small) in
    (
      record { node_to_cell = c.node_to_cell; cell_count = c.cell_count },
      rw accepted (rw done (rw whole refl)),
      record { celled = celled; sized = v.sized },
    )
