-- ===== src/Optimized/Gathers.antt =====
-- The invariant of a cell that grows.
use skip_cell.Common.{
  ℕ, zero, suc, ◌+◌, ◌≤◌, ◌<◌, ◌≡◌, ◌≢◌, refl, ap, subst, ◌∙◌, ◌⊎◌, inl, inr, Bool-cases, List, [],
  ◌∷◌, ◌++◌, ltb, ◌==◌, ==_iff, if◌then◌else◌, one_if, count, count-cons, count-snoc, update, arith,
}
use skip_cell.Optimized.Runs.{uint32_max}
use skip_cell.Optimized.Assignment.{Graph, Gathering, discover, assigned, add_node, fill_with, fill}

-- How many of the first nodes are in a cell.
unfoldable pub members : ℕ → (ℕ → ℕ) → ℕ → ℕ
members zero node_to_cell c = 0
members (suc n) node_to_cell c = one_if (node_to_cell n == c) + members n node_to_cell c

members_beyond :
    (n : ℕ) (f : ℕ → ℕ) (i v c : ℕ) → n ≤ i → members n (update f i v) c ≡ members n f c
unfolding members
members_beyond zero f i v c h = refl
members_beyond (suc n) f i v c h = ground (arith, members_beyond n f i v c, h)

pub members-update :
    (n : ℕ) (f : ℕ → ℕ) (i v c : ℕ)
    → i < n
    → members n (update f i v) c + one_if (f i == c) ≡ members n f c + one_if (v == c)
unfolding members
members-update zero f i v c h = absurd (omega arith)
members-update (suc n) f i v c h = elim (Bool-cases (i == n)) [
  | inl last ↦
      let e : i ≡ n = (==_iff i n).0 last in
      rw last
        (omega (arith, members_beyond n f i v c (omega (arith, e)), ap (λ k. one_if (f k == c)) e))
  | inr earlier ↦ rw earlier (omega (arith, members-update n f i v c (ground (arith, h, earlier))))
]

pub members_none : (n : ℕ) (f : ℕ → ℕ) (c : ℕ) → ((i : ℕ) → f i ≢ c) → members n f c ≡ 0
unfolding members
members_none zero f c h = refl
members_none (suc n) f c h = ground (arith, members_none n f c h, h n)

-- The neighbors are points of the graph.
unfoldable pub AllBelow : ℕ → List ℕ → Type 0
AllBelow n [] = Unit {0}
AllBelow n (x ∷ xs) = (x < n) × AllBelow n xs

abbrev pub IsGraph : Graph → Type 0
IsGraph graph = (node : ℕ) → AllBelow graph.point_count (graph.neighbors node)

-- The arrays while a cell grows: a node that is not in a cell has none, the nodes of a cell are counted,
-- and those before the seed are all in one.
pub record Gathers (n target cell seed : ℕ) (state node_to_cell : ℕ → ℕ) (population : ℕ)
    : Type 0 where
  pub kinds : (i : ℕ) → state i ≤ 2
  pub inside : (i : ℕ) → 0 < state i → i < n
  pub free : (i : ℕ) → state i ≢ 1 → node_to_cell i ≡ uint32_max
  pub owned : (i : ℕ) → state i ≡ 1 → node_to_cell i ≤ cell
  pub counted : members n node_to_cell cell ≡ population
  pub sized :
      (c : ℕ) → c < cell → (0 < members n node_to_cell c) × (members n node_to_cell c ≤ target)
  pub settled : (i : ℕ) → i < seed → state i ≡ 1

-- The frontier has the nodes of that state, each once.
abbrev pub IsFrontier : (ℕ → ℕ) → List ℕ → Type 0
IsFrontier state frontier = (i : ℕ) → count i frontier ≡ one_if (state i == 2)

abbrev one_discovered : ℕ → Gathering → Gathering
one_discovered x g =
    if g.state x == 0
    then record g { state = update g.state x 2; frontier = g.frontier ++ x ∷ [] }
    else g

pub discover-population : (xs : List ℕ) (g : Gathering) → (discover xs g).population ≡ g.population
unfolding discover
discover-population [] g = refl
discover-population (x ∷ xs) g = discover-population xs (one_discovered x g) ∙ ground arith

module _ (n target cell seed : ℕ) (small : cell < uint32_max) where
  abbrev pub Invariant : Gathering → Type 0
  Invariant g =
      Gathers n target cell seed g.state g.node_to_cell g.population × IsFrontier g.state g.frontier

  one_discovered-Invariant :
      (x : ℕ) (g : Gathering) → x < n → Invariant g → Invariant (one_discovered x g)
  one_discovered-Invariant x g h (v, f) = elim (Bool-cases (g.state x == 0)) [
    | inr known ↦ rw known (v, f)
    | inl new ↦ rw new (
      record {
        kinds = λ i. ground (arith, v.kinds i);
        inside = λ i k. ground (arith, v.inside i, k, h);
        free = λ i k. ground (arith, v.free i, k, v.free x, new);
        owned = λ i k. ground (arith, v.owned i, k);
        counted = v.counted;
        sized = v.sized;
        settled = λ i k. ground (arith, v.settled i k, new);
      },
      λ i. count-snoc i x g.frontier ∙ ground (arith, f i, new),
    )
  ]

  pub discover-Invariant :
      (xs : List ℕ) (g : Gathering) → AllBelow n xs → Invariant g → Invariant (discover xs g)
  unfolding discover AllBelow
  discover-Invariant [] g h inv = inv
  discover-Invariant (x ∷ xs) g (hx, h) inv =
      discover-Invariant xs (one_discovered x g) h (one_discovered-Invariant x g hx inv)

  -- A node that is in no cell comes into this one.
  pub assigned-Gathers :
      (x : ℕ) (g : Gathering)
      → x < n
      → g.state x ≢ 1
      → Gathers n target cell seed g.state g.node_to_cell g.population
      → Gathers n target cell seed
          (assigned cell x g).state
          (assigned cell x g).node_to_cell
          (g.population + 1)
  assigned-Gathers x g h open_ v =
      let none_before : g.node_to_cell x ≡ uint32_max = v.free x open_ in
      record {
        kinds = λ i. ground (arith, v.kinds i);
        inside = λ i k. ground (arith, v.inside i, k, h);
        free = λ i k. ground (arith, v.free i, k);
        owned = λ i k. ground (arith, v.owned i, k);
        counted =
            ground
              (arith, members-update n g.node_to_cell x cell cell h, v.counted, none_before, small);
        sized = λ c k.
            let same : members n (update g.node_to_cell x cell) c ≡ members n g.node_to_cell c =
              ground (arith, members-update n g.node_to_cell x cell c h, none_before, small, k) in
            (omega (arith, same, (v.sized c k).0), omega (arith, same, (v.sized c k).1));
        settled = λ i k. ground (arith, v.settled i k);
      }

  module _ (graph : Graph) (sane : IsGraph graph) (points : graph.point_count ≡ n) where
    pub below : (x : ℕ) → AllBelow n (graph.neighbors x)
    below x = subst (λ k. AllBelow k (graph.neighbors x)) points (sane x)

    pub add_node-Invariant :
        (x : ℕ) (g : Gathering)
        → x < n
        → g.state x ≢ 1
        → Gathers n target cell seed g.state g.node_to_cell g.population
        → IsFrontier (update g.state x 1) g.frontier
        → Invariant (add_node graph cell x g)
          × ((add_node graph cell x g).population ≡ g.population + 1)
    unfolding add_node
    add_node-Invariant x g h open_ v f = (
      discover-Invariant (graph.neighbors x) (assigned cell x g) (below x)
          (assigned-Gathers x g h open_ v, f),
      discover-population (graph.neighbors x) (assigned cell x g),
    )

    next_added :
        (g : Gathering) (x : ℕ) (rest : List ℕ)
        → g.frontier ≡ x ∷ rest
        → Invariant g
        → Invariant (add_node graph cell x (record g { frontier = rest }))
          × ((add_node graph cell x (record g { frontier = rest })).population ≡ g.population + 1)
    next_added g x rest e (v, f) =
        let listed : g.state x ≡ 2 = ground (arith, f x, ap (count x) e, count-cons x x rest) in
        add_node-Invariant x (record g { frontier = rest }) (v.inside x (omega (arith, listed)))
          (ground (arith, listed)) v
          (λ i. ground (arith, f i, ap (count i) e, count-cons i x rest, listed))

    -- The cell has grown, up to the target.
    abbrev pub Grown : Gathering → Gathering → Type 0
    Grown g after =
        Invariant after × (after.population ≤ target) × (g.population ≤ after.population)

    pub fill-Invariant :
        (rounds : ℕ) (g : Gathering)
        → g.population ≤ target
        → Invariant g
        → Grown g (fill rounds graph target cell g)
    unfolding fill
    fill-Invariant zero g room inv = (inv, room, omega arith)
    fill-Invariant (suc rounds) g room inv = by_frontier (fill-Invariant rounds) g.frontier refl
      where
        more : Gathering → Gathering
        more = fill rounds graph target cell

        by_frontier :
            ((h : Gathering) → h.population ≤ target → Invariant h → Grown h (more h))
            → (frontier : List ℕ) → g.frontier ≡ frontier
            → Grown g (fill_with more graph target cell g frontier)
        by_frontier ih [] e = (inv, room, omega arith)
        by_frontier ih (x ∷ rest) e = elim (Bool-cases (ltb g.population target)) [
          | inr full ↦ rw full (inv, room, omega arith)
          | inl open_ ↦
              let next = add_node graph cell x (record g { frontier = rest }) in
              let (added, one_more) = next_added g x rest e inv in
              let (after, within, grown) = ih next (ground (arith, one_more, open_)) added in
              rw open_ (after, within, omega (arith, grown, one_more))
        ]

added_population :
    (graph : Graph) (cell x : ℕ) (g : Gathering)
    → (add_node graph cell x g).population ≡ g.population + 1
unfolding add_node
added_population graph cell x g = discover-population (graph.neighbors x) (assigned cell x g)

-- With as many rounds as the cell has places left, the loop ends because its frontier is empty or the
-- cell has the target's size: the fuel does not run out.
pub fill-ends :
    (graph : Graph) (target cell rounds : ℕ) (g : Gathering)
    → target ≤ g.population + rounds
    → ((fill rounds graph target cell g).frontier ≡ [])
      ⊎ (target ≤ (fill rounds graph target cell g).population)
unfolding fill
fill-ends graph target cell zero g room = inr (omega arith)
fill-ends graph target cell (suc rounds) g room =
    by_frontier (fill-ends graph target cell rounds) g.frontier refl
  where
    more : Gathering → Gathering
    more = fill rounds graph target cell

    Ends : Gathering → Type 0
    Ends h = (h.frontier ≡ []) ⊎ (target ≤ h.population)

    by_frontier :
        ((h : Gathering) → target ≤ h.population + rounds → Ends (more h))
        → (frontier : List ℕ) → g.frontier ≡ frontier
        → Ends (fill_with more graph target cell g frontier)
    by_frontier ih [] e = inl e
    by_frontier ih (x ∷ rest) e = elim (Bool-cases (ltb g.population target)) [
      | inr full ↦ rw full (inr (ground (arith, full)))
      | inl open_ ↦
          let next = add_node graph cell x (record g { frontier = rest }) in
          rw open_ (
            ih next
              (omega (arith, room, added_population graph cell x (record g { frontier = rest }))))
    ]
