-- ===== src/Cells/Directory.antt =====
-- The directory of a snapshot: which nodes have moved, and where. `vector_location` looks a node up
-- behind the filter; `directory` is the `std::map` in which `try_publish` gathers the entries of the
-- next snapshot, a list in the order of its keys.
use skip_cell.Common.{
  ℕ, suc, ◌≤◌, ◌<◌, ◌≡◌, refl, sym, ap, ◌∙◌, Bool, true, false, not, ◌&&◌, ◌||◌, List, [], ◌∷◌,
  Option, none, some, ltb, leb, ◌==◌, if◌then◌else◌, Bool-cases, inl, inr, subst, ==_iff, get_elem?,
  count, lookup, Result, ok, throws, undefined, ◌>>=◌, ok_bind, arith,
}
use skip_cell.Common.Sets.{IsStrict}
use skip_cell.Cells.{Location, Snapshot}
use skip_cell.Cells.Filter.{
  filter_contains, filter_insert, filter_contains-insert_self, filter_contains-insert,
}

-- `std::lower_bound`: how many entries come before the value.
unfoldable pub lower_bound : ℕ → List ℕ → ℕ
lower_bound node [] = 0
lower_bound node (x ∷ xs) = let later = lower_bound node xs in if ltb x node then suc later else 0

-- The entry that the search ends at.
abbrev found_at : List ℕ → List Location → ℕ → Location → ℕ → Result Location
found_at nodes locations node fallback i = elim (get_elem? nodes i) [
  | none ↦ ok fallback
  | some x ↦
      if x == node
      then elim (get_elem? locations i) [ none ↦ throws undefined | some l ↦ ok l ]
      else ok fallback
]

unfoldable pub vector_location : Snapshot → ℕ → Location → Result Location
unfolding lower_bound
vector_location s node_id fallback =
    if not (filter_contains s.override_filter node_id)
    then ok fallback
    else found_at s.override_nodes s.override_locations node_id fallback
        (lower_bound node_id s.override_nodes)

-- `directory[node] = location`.
unfoldable pub put : ℕ → Location → List (ℕ × Location) → List (ℕ × Location)
put k v [] = (k, v) ∷ []
put k v ((j, w) ∷ m) =
    let later = put k v m in
    if ltb k j then (k, v) ∷ (j, w) ∷ m else if k == j then (k, v) ∷ m else (j, w) ∷ later

unfoldable pub put_all : List (ℕ × Location) → List (ℕ × Location) → List (ℕ × Location)
unfolding put
put_all [] m = m
put_all ((k, v) ∷ es) m = put_all es (put k v m)

-- The nodes with the locations at their places.
unfoldable pub entries : List ℕ → List Location → Result (List (ℕ × Location))
entries [] ls = ok []
entries (n ∷ ns) [] = throws undefined
entries (n ∷ ns) (l ∷ ls) = do rest ← entries ns ls; ok ((n, l) ∷ rest)

abbrev pub nodes_of : List (ℕ × Location) → List ℕ
nodes_of [] = []
nodes_of ((k, v) ∷ m) = k ∷ nodes_of m

abbrev pub locations_of : List (ℕ × Location) → List Location
locations_of [] = []
locations_of ((k, v) ∷ m) = v ∷ locations_of m

-- The filter with the nodes of a directory.
unfoldable pub insert_all : (ℕ → ℕ) → List ℕ → ℕ → ℕ
insert_all filter [] = filter
insert_all filter (n ∷ ns) = insert_all (filter_insert filter n) ns

-- `std::is_sorted`, and whether `std::adjacent_find` finds two equal neighbors.
unfoldable pub is_sorted : List ℕ → Bool
is_sorted [] = true
is_sorted (x ∷ []) = true
is_sorted (x ∷ y ∷ ys) = leb x y && is_sorted (y ∷ ys)

unfoldable pub has_adjacent : List ℕ → Bool
has_adjacent [] = false
has_adjacent (x ∷ []) = false
has_adjacent (x ∷ y ∷ ys) = x == y || has_adjacent (y ∷ ys)

IsStrict-above :
    (b x : ℕ) (ys : List ℕ)
    → b ≤ x
    → is_sorted (x ∷ ys) ≡ true
    → has_adjacent (x ∷ ys) ≡ false
    → IsStrict b (x ∷ ys)
unfolding is_sorted has_adjacent
IsStrict-above b x [] h s a = (h, tt)
IsStrict-above b x (y ∷ ys) h s a =
    (h, IsStrict-above (suc x) y ys (ground (arith, s, a)) (ground (arith, s)) (ground (arith, a)))

pub IsStrict-sorted : (xs : List ℕ) → is_sorted xs ≡ true → has_adjacent xs ≡ false → IsStrict 0 xs
IsStrict-sorted [] s a = tt
IsStrict-sorted (x ∷ xs) s a = IsStrict-above 0 x xs (omega arith) s a

abbrev pub or_else : Location → Option Location → Location
or_else fallback none = fallback
or_else fallback (some l) = l

-- What a directory says of a node.
abbrev pub located : List (ℕ × Location) → ℕ → Location → Location
located m node fallback = or_else fallback (lookup node m)

-- A snapshot with the nodes of an ascending directory, none of which its filter denies.
pub record HasDirectory (s : Snapshot) (m : List (ℕ × Location)) : Type 0 where
  pub ascending : IsStrict 0 (nodes_of m)
  pub nodes : s.override_nodes ≡ nodes_of m
  pub locations : s.override_locations ≡ locations_of m
  pub covered :
      (node : ℕ) → 0 < count node (nodes_of m) → filter_contains s.override_filter node ≡ true

lookup_below :
    (b node : ℕ) (m : List (ℕ × Location))
    → IsStrict b (nodes_of m)
    → node < b
    → lookup node m ≡ none
unfolding lookup
lookup_below b node [] s h = refl
lookup_below b node ((k, v) ∷ m) (hk, s) h = ground (arith, lookup_below (suc k) node m s)

lookup_absent :
    (node : ℕ) (m : List (ℕ × Location)) → count node (nodes_of m) ≡ 0 → lookup node m ≡ none
unfolding lookup count
lookup_absent node [] h = refl
lookup_absent node ((k, v) ∷ m) h = ground (arith, lookup_absent node m)

found_at-located :
    (b node : ℕ) (fallback : Location) (m : List (ℕ × Location))
    → IsStrict b (nodes_of m)
    → found_at (nodes_of m) (locations_of m) node fallback (lower_bound node (nodes_of m))
      ≡ ok (located m node fallback)
unfolding lookup lower_bound
found_at-located b node fallback [] s = refl
found_at-located b node fallback ((k, v) ∷ m) (hk, s) =
    ground (arith, found_at-located (suc k) node fallback m s, lookup_below (suc k) node m s)

-- The look-up through the filter and the binary search is the look-up in the directory.
pub vector_location-located :
    (s : Snapshot) (m : List (ℕ × Location)) (node : ℕ) (fallback : Location)
    → HasDirectory s m
    → vector_location s node fallback ≡ ok (located m node fallback)
unfolding vector_location
vector_location-located s m node fallback d =
    elim (Bool-cases (filter_contains s.override_filter node)) [
      | inl held ↦
          rw (held, vector_location)
            (rw (d.nodes) (rw (d.locations) (found_at-located 0 node fallback m d.ascending)))
      | inr denied ↦
          let absent : lookup node m ≡ none =
            lookup_absent node m (omega (arith, ground_absent denied (d.covered node))) in
          rw (denied, vector_location) (ap (λ o. ok (or_else fallback o)) (sym absent))
    ]
  where
    ground_absent :
        filter_contains s.override_filter node ≡ false
        → (0 < count node (nodes_of m) → filter_contains s.override_filter node ≡ true)
        → count node (nodes_of m) ≡ 0
    ground_absent e f = grind (arith, e, f)

lookup-put :
    (node k : ℕ) (v : Location) (m : List (ℕ × Location))
    → lookup node (put k v m) ≡ (if k == node then some v else lookup node m)
unfolding lookup put
lookup-put node k v [] = refl
lookup-put node k v ((j, w) ∷ m) = ground (arith, lookup-put node k v m)

IsStrict-put :
    (b k : ℕ) (v : Location) (m : List (ℕ × Location))
    → b ≤ k
    → IsStrict b (nodes_of m)
    → IsStrict b (nodes_of (put k v m))
unfolding put
IsStrict-put b k v [] h s = (h, tt)
IsStrict-put b k v ((j, w) ∷ m) h (hj, s) = elim (Bool-cases (ltb k j)) [
  | inl before ↦ rw before (h, (ground arith, s))
  | inr after ↦ elim (Bool-cases (k == j)) [
    | inl same ↦
        let e : k ≡ j = (==_iff k j).0 same in
        rw after (rw same (h, subst (λ a. IsStrict (suc a) (nodes_of m)) (sym e) s))
    | inr above ↦
        rw after (rw above (hj, IsStrict-put (suc j) k v m (ground (arith, after, above)) s))
  ]
]

pub IsStrict-put_all :
    (es m : List (ℕ × Location)) → IsStrict 0 (nodes_of m) → IsStrict 0 (nodes_of (put_all es m))
unfolding put_all
IsStrict-put_all [] m s = s
IsStrict-put_all ((k, v) ∷ es) m s =
    IsStrict-put_all es (put k v m) (IsStrict-put 0 k v m (omega arith) s)

-- New entries with ascending nodes replace the old ones.
pub located-put_all :
    (b : ℕ) (es m : List (ℕ × Location)) (node : ℕ) (fallback : Location)
    → IsStrict b (nodes_of es)
    → located (put_all es m) node fallback ≡ located es node (located m node fallback)
unfolding put_all lookup
located-put_all b [] m node fallback s = refl
located-put_all b ((k, v) ∷ es) m node fallback (hk, s) = ground (
  arith,
  located-put_all (suc k) es (put k v m) node fallback s,
  lookup-put node k v m,
  lookup_below (suc k) node es s,
)

insert_all_keeps :
    (f : ℕ → ℕ) (ns : List ℕ) (node : ℕ)
    → filter_contains f node ≡ true
    → filter_contains (insert_all f ns) node ≡ true
unfolding insert_all
insert_all_keeps f [] node h = h
insert_all_keeps f (n ∷ ns) node h =
    insert_all_keeps (filter_insert f n) ns node (filter_contains-insert f node n h)

pub filter_contains-insert_all :
    (f : ℕ → ℕ) (ns : List ℕ) (node : ℕ)
    → 0 < count node ns
    → filter_contains (insert_all f ns) node ≡ true
unfolding insert_all count
filter_contains-insert_all f [] node h = absurd (omega arith)
filter_contains-insert_all f (n ∷ ns) node h = elim (Bool-cases (node == n)) [
  | inl same ↦
      let e : n ≡ node = sym ((==_iff node n).0 same) in
      insert_all_keeps (filter_insert f n) ns node (rw (← e) (filter_contains-insert_self f n))
  | inr other ↦ filter_contains-insert_all (filter_insert f n) ns node (ground (arith, h, other))
]

-- The entries of parallel lists are these lists again.
pub entries-parts :
    (ns : List ℕ) (ls : List Location) {es : List (ℕ × Location)}
    → entries ns ls ≡ ok es
    → nodes_of es ≡ ns
unfolding entries
entries-parts [] ls e = ground (arith, e)
entries-parts (n ∷ ns) [] e = absurd (ground (arith, e))
entries-parts (n ∷ ns) (l ∷ ls) {es} e =
    let (rest, f, g) = ok_bind (entries ns ls) (λ rest. ok ((n, l) ∷ rest)) e in
    let p : (n, l) ∷ rest ≡ es = cc in
    sym (ap nodes_of p) ∙ ap (λ ms. n ∷ ms) (entries-parts ns ls f)

pub entries-directory : (m : List (ℕ × Location)) → entries (nodes_of m) (locations_of m) ≡ ok m
unfolding entries
entries-directory [] = refl
entries-directory ((k, v) ∷ m) = rw (entries-directory m) refl
