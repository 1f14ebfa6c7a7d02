-- ===== src/Cells/Start.antt =====
-- A fresh runtime is valid, so it is after any history.
use skip_cell.Common.{
  ℕ, zero, suc, ◌+◌, ◌≤◌, ◌<◌, ◌≡◌, refl, sym, ap, subst, ◌∙◌, true, ◌||◌, inl, inr, Bool-cases,
  List, [], ◌∷◌, some, leb, ◌==◌, length, replicate, count, get_elem?, ok, ◌>>=◌, ok_bind, arith,
}
use skip_cell.Common.Sets.{total, IsStrict}
use skip_cell.Cells.{Floating, PageRange, View, Pair, Config, Runtime, capacity_for_population}
use skip_cell.Cells.Initial.{
  initial_view, initial_cells, push_at, register, initialize, invalid_config, fixed_view,
  fresh_runtime,
}
use skip_cell.Cells.Ownership.{IsOwned}
use skip_cell.Cells.Built.{capacity_bounds}
use skip_cell.Cells.Published.{IsValid}
use skip_cell.Cells.Exchanges.{Keeps}
use skip_cell.Cells.Histories.{Op, run, IsConsistent, run-IsConsistent}

-- The population that a cell has at the start.
abbrev pub population : List PageRange → ℕ → ℕ
population [] c = 0
population (range ∷ ranges) zero = range.node_count
population (range ∷ ranges) (suc c) = population ranges c

ok_inj {ℓ} : {A : Type ℓ} {a b : A} → ok a ≡ ok b → a ≡ b
ok_inj p = cc

-- The view that a cell starts with.
record IsInitial (c population : ℕ) (v : View) : Type 0 where
  own : v.logical_cell_ids ≡ c ∷ []
  populated : v.node_count ≡ population
  bounded : v.node_count ≤ 512
  ready : v.physical_payload_ready ≡ true

initial_view-IsInitial :
    (c : ℕ) (range : PageRange) {v : View}
    → initial_view c range ≡ ok v
    → IsInitial c range.node_count v
unfolding initial_view
initial_view-IsInitial c range {v} e =
    elim (Bool-cases (range.node_count == 0 || range.page_count == 0)) [
      | inl empty ↦ absurd (ground (arith, e, empty))
      | inr full ↦
          elim (capacity_bounds range.node_count (capacity_for_population range.node_count) refl) [
            | inl (capacity, found, bounded) ↦
                let p : fixed_view c range capacity ≡ v = ok_inj (rw found at (rw full at e)) in
                subst (IsInitial c range.node_count) p
                  (record { own = refl; populated = refl; bounded = bounded; ready = refl })
            | inr (large, _) ↦ absurd (ground (arith, e, full, large))
          ]
    ]

-- The views of the cells from `i` on.
abbrev AllInitial : ℕ → List PageRange → List View → Type 0
AllInitial i ranges views =
    (c : ℕ) (v : View) → get_elem? views c ≡ some v → IsInitial (i + c) (population ranges c) v

AllInitial-cons :
    (i : ℕ) (range : PageRange) (ranges : List PageRange) (w : View) (views : List View)
    → IsInitial i range.node_count w
    → AllInitial (i + 1) ranges views
    → AllInitial i (range ∷ ranges) (w ∷ views)
AllInitial-cons i range ranges w views h all zero v e =
    let p : w ≡ v = cc in
    subst (λ k. IsInitial k range.node_count v) (omega arith)
      (subst (IsInitial i range.node_count) p h)
AllInitial-cons i range ranges w views h all (suc c) v e =
    subst (λ k. IsInitial k (population ranges c) v) (omega arith) (all c v e)

initial_cells-AllInitial :
    (i : ℕ) (ranges : List PageRange) {views : List View}
    → initial_cells i ranges ≡ ok views
    → (length views ≡ length ranges) × AllInitial i ranges views
unfolding initial_cells
initial_cells-AllInitial i [] {views} e =
    let p : [] ≡ views = ok_inj e in
    subst (λ vs. (length vs ≡ 0) × AllInitial i [] vs) p (refl, λ c v f. absurd (ground (arith, f)))
initial_cells-AllInitial i (range ∷ ranges) {views} e =
    let (w, first, f) =
      ok_bind (initial_view i range)
        (λ view. initial_cells (i + 1) ranges >>= λ others. ok (view ∷ others)) e in
    let (others, rest, g) = ok_bind (initial_cells (i + 1) ranges) (λ others. ok (w ∷ others)) f in
    let p : w ∷ others ≡ views = ok_inj g in
    let (same, all) = initial_cells-AllInitial (i + 1) ranges rest in
    subst (λ vs. (length vs ≡ suc (length ranges)) × AllInitial i (range ∷ ranges) vs) p
      (
        ap suc same,
        AllInitial-cons i range ranges w others (initial_view-IsInitial i range first) all,
      )

length-push_at :
    (rows : List (List ℕ)) (cell candidate : ℕ) → length (push_at rows cell candidate) ≡ length rows
unfolding push_at
length-push_at [] cell candidate = refl
length-push_at (row ∷ rows) zero candidate = refl
length-push_at (row ∷ rows) (suc cell) candidate = ap suc (length-push_at rows cell candidate)

length-replicate {ℓ} : {A : Type ℓ} (n : ℕ) (a : A) → length (replicate n a) ≡ n
length-replicate zero a = refl
length-replicate (suc n) a = ap suc (length-replicate n a)

-- The first element of a list and those behind it.
first_or_later :
    (pair : Pair) (pairs : List Pair) (rows : List (List ℕ))
    → (pair.left_cell < length rows) × (pair.right_cell < length rows)
    → ((c : ℕ) (p : Pair)
        → get_elem? pairs c ≡ some p
        → (p.left_cell < length rows) × (p.right_cell < length rows))
    → (c : ℕ) (p : Pair) → get_elem? (pair ∷ pairs) c ≡ some p
    → (p.left_cell < length rows) × (p.right_cell < length rows)
first_or_later pair pairs rows h later zero p f =
    let q : pair ≡ p = cc in
    subst (λ u. (u.left_cell < length rows) × (u.right_cell < length rows)) q h
first_or_later pair pairs rows h later (suc c) p f = later c p f

register-pairs :
    (k : ℕ) (pairs : List Pair) (rows : List (List ℕ)) {out : List (List ℕ)}
    → register k pairs rows ≡ ok out
    → (c : ℕ) (p : Pair) → get_elem? pairs c ≡ some p
    → (p.left_cell < length rows) × (p.right_cell < length rows)
unfolding register
register-pairs k [] rows e c p f = absurd (ground (arith, f))
register-pairs k (pair ∷ pairs) rows {out} e c p f =
    let more = push_at (push_at rows pair.left_cell k) pair.right_cell k in
    let same : length more ≡ length rows =
      length-push_at (push_at rows pair.left_cell k) pair.right_cell k
      ∙ length-push_at rows pair.left_cell k in
    elim (Bool-cases (
      leb (length rows) pair.left_cell
      || leb (length rows) pair.right_cell
      || pair.left_cell == pair.right_cell)) [
        | inl bad ↦ absurd (ground (arith, e, bad))
        | inr good ↦
            let g : register (k + 1) pairs more ≡ ok out = rw good at e in
            first_or_later pair pairs rows (ground (arith, good), ground (arith, good))
              (λ d q h.
                let (l, r) = register-pairs (k + 1) pairs more g d q h in
                (omega (arith, same, l), omega (arith, same, r)))
              c p f
      ]

abbrev nil_row : List ℕ
nil_row = []

-- Each cell owns itself.
IsInitial-Owns :
    (fixed : List PageRange) (cells : List View)
    → AllInitial 0 fixed cells
    → IsOwned (population fixed) cells
unfolding count total
IsInitial-Owns fixed cells all c v e =
    let h = all c v e in
    let ids : v.logical_cell_ids ≡ c ∷ [] = h.own ∙ ap (λ k. k ∷ []) (omega arith) in
    record {
      lists = rw ids (ground arith);
      shared = λ d k.
          let same : c ≡ d = ground (arith, k, ap (count d) ids) in
          subst (λ j. get_elem? cells j ≡ some v) same e;
      strict = subst (IsStrict 0) (sym ids) (omega arith, tt);
      populated = h.populated ∙ rw ids (omega arith);
      bounded = h.bounded;
      ready = h.ready;
    }

fresh_runtime-IsValid :
    {D : Type 0} (fixed : List PageRange) (candidates : List Pair) (config : Config D)
    (cells : List View) (by_cell : List (List ℕ))
    → length cells ≡ length fixed
    → AllInitial 0 fixed cells
    → ((c : ℕ) (p : Pair)
        → get_elem? candidates c ≡ some p
        → (p.left_cell < length fixed) × (p.right_cell < length fixed))
    → IsValid (length fixed) (population fixed) (fresh_runtime config candidates cells by_cell)
unfolding count
fresh_runtime-IsValid fixed candidates config cells by_cell sized all pairs = record {
  allocated = omega arith;
  sound = λ a h. record {
    sized = sized;
    owned = IsInitial-Owns fixed cells all;
    directory = [];
    indexed = record {
      ascending = tt;
      nodes = refl;
      locations = refl;
      covered = λ node k. absurd (omega (arith, k));
    };
  };
  pairs = pairs;
  counted = refl;
}

-- A fresh runtime is valid.
pub initialize-IsValid :
    {D : Type 0} ⦃f : Floating D⦄ (fixed : List PageRange) (candidates : List Pair)
    (config : Config D) {r : Runtime D}
    → initialize fixed candidates config ≡ ok r
    → IsValid (length fixed) (population fixed) r
unfolding initialize
initialize-IsValid [] candidates config e = absurd (ground (arith, e))
initialize-IsValid (range ∷ ranges) candidates config {r} e =
    elim (Bool-cases (invalid_config config)) [
      | inl bad ↦ absurd (ground (arith, e, bad))
      | inr good ↦
          let fixed = range ∷ ranges in
          let rows : List (List ℕ) = replicate (length fixed) [] in
          let (cells, made, f) =
            ok_bind (initial_cells 0 fixed)
              (λ cells. register 0 candidates rows >>= λ by_cell.
                ok (fresh_runtime config candidates cells by_cell))
              (rw good at e) in
          let (by_cell, registered, g) =
            ok_bind (register 0 candidates rows)
              (λ by_cell. ok (fresh_runtime config candidates cells by_cell)) f in
          let (sized, all) = initial_cells-AllInitial 0 fixed made in
          subst (IsValid (length fixed) (population fixed)) (ok_inj g) (
            fresh_runtime-IsValid fixed candidates config cells by_cell sized all (λ c p h.
              let (l, q) = register-pairs 0 candidates rows registered c p h in
              (
                omega (arith, length-replicate (length fixed) (nil_row), l),
                omega (arith, length-replicate (length fixed) (nil_row), q),
              )))
    ]

-- After any calls of any threads in any order on a fresh runtime, the exchanges apart from the calls that
-- they end, each snapshot that stands at an address is sound: each logical cell has a view that lists
-- it, lists only cells that have it too, each once, holds as many nodes as these had at the start, at
-- most 512, and is ready, and the directory is in order; the current snapshot's generation is the
-- number of publications, each attempt that waits is one generation on from the snapshot that it was
-- made from, and no snapshot that was there before the calls has changed.
pub run-initialize :
    {D : Type 0} ⦃f : Floating D⦄ (fixed : List PageRange) (candidates : List Pair)
    (config : Config D) {r : Runtime D} (ops : List Op)
    → initialize fixed candidates config ≡ ok r
    → IsConsistent
        (length fixed)
        (population fixed)
        (run ops (record { runtime = r; waiting = [] }))
      × Keeps r (run ops (record { runtime = r; waiting = [] })).runtime
run-initialize fixed candidates config {r} ops e =
    run-IsConsistent (length fixed) (population fixed) ops (record { runtime = r; waiting = [] })
      (record { valid = initialize-IsValid fixed candidates config e; waits = tt })
