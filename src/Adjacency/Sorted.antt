-- ===== src/Adjacency/Sorted.antt =====
-- Sorting targets with their positions, and sorting the targets alone.
use skip_cell.Common.{
  ℕ, suc, ◌+◌, ◌^◌, ◌≤◌, ◌<◌, ◌≡◌, refl, ap, ◌∙◌, true, false, Bool-cases, inl, inr, List, [], ◌∷◌,
  map, leb, length, arith,
}
use skip_cell.Adjacency.Records.{insert, sort, pair_leb, insert_pair, sort_pairs, target_of}
use skip_cell.Adjacency.Deltas.{IsAscending}

-- All positions come after one.
AllAfter : ℕ → List (ℕ × ℕ) → Type 0
AllAfter i [] = Unit {0}
AllAfter i ((x, j) ∷ ps) = (i ≤ j) × AllAfter i ps

-- The positions count on from a start.
unfoldable pub Counted : ℕ → List (ℕ × ℕ) → Type 0
Counted i [] = Unit {0}
Counted i ((x, j) ∷ ps) = (j ≡ i) × Counted (i + 1) ps

AllAfter-insert_pair :
    (i x j : ℕ) (ps : List (ℕ × ℕ)) → i ≤ j → AllAfter i ps → AllAfter i (insert_pair (x, j) ps)
unfolding AllAfter insert_pair
AllAfter-insert_pair i x j [] h all = (h, tt)
AllAfter-insert_pair i x j ((y, k) ∷ ps) h (hk, all) = elim (Bool-cases (pair_leb (x, j) (y, k))) [
  | inl before ↦ rw before (h, (hk, all))
  | inr after ↦ rw after (hk, AllAfter-insert_pair i x j ps h all)
]

AllAfter-sort_pairs :
    (i k : ℕ) (ps : List (ℕ × ℕ)) → i ≤ k → Counted k ps → AllAfter i (sort_pairs ps)
unfolding AllAfter sort_pairs Counted
AllAfter-sort_pairs i k [] h c = tt
AllAfter-sort_pairs i k ((x, j) ∷ ps) h (e, c) =
    AllAfter-insert_pair i x j (sort_pairs ps) (omega (arith, e, h))
      (AllAfter-sort_pairs i (k + 1) ps (omega arith) c)

map-insert_pair :
    (x i : ℕ) (ps : List (ℕ × ℕ))
    → AllAfter i ps
    → map target_of (insert_pair (x, i) ps) ≡ insert x (map target_of ps)
unfolding insert_pair insert AllAfter
map-insert_pair x i [] all = refl
map-insert_pair x i ((y, j) ∷ ps) (h, all) = elim (Bool-cases (leb x y)) [
  | inl before ↦
      let first : pair_leb (x, i) (y, j) ≡ true = ground arith in rw first (rw before refl)
  | inr after ↦
      let later : pair_leb (x, i) (y, j) ≡ false = ground arith in
      rw later (rw after (ap (λ ys. y ∷ ys) (map-insert_pair x i ps all)))
]

pub map-sort_pairs :
    (i : ℕ) (ps : List (ℕ × ℕ))
    → Counted i ps
    → map target_of (sort_pairs ps) ≡ sort (map target_of ps)
unfolding sort_pairs sort Counted
map-sort_pairs i [] c = refl
map-sort_pairs i ((x, j) ∷ ps) (e, c) =
    map-insert_pair x j (sort_pairs ps) (AllAfter-sort_pairs j (i + 1) ps (omega (arith, e)) c)
    ∙ ap (insert x) (map-sort_pairs (i + 1) ps c)

length-insert_pair : (p : ℕ × ℕ) (ps : List (ℕ × ℕ)) → length (insert_pair p ps) ≡ suc (length ps)
unfolding insert_pair
length-insert_pair p [] = refl
length-insert_pair p (q ∷ ps) = elim (Bool-cases (pair_leb p q)) [
  | inl before ↦ rw before refl
  | inr after ↦ rw after (ap suc (length-insert_pair p ps))
]

pub length-sort_pairs : (ps : List (ℕ × ℕ)) → length (sort_pairs ps) ≡ length ps
unfolding sort_pairs
length-sort_pairs [] = refl
length-sort_pairs (p ∷ ps) = length-insert_pair p (sort_pairs ps) ∙ ap suc (length-sort_pairs ps)

pub length-map_target : (ps : List (ℕ × ℕ)) → length (map target_of ps) ≡ length ps
length-map_target [] = refl
length-map_target (p ∷ ps) = ap suc (length-map_target ps)

insert-IsAscending :
    (b x : ℕ) (ys : List ℕ) → b ≤ x → x < 2 ^ 32 → IsAscending b ys → IsAscending b (insert x ys)
unfolding insert IsAscending
insert-IsAscending b x [] h small up = (h, small, tt)
insert-IsAscending b x (y ∷ ys) h small (hy, sy, up) = elim (Bool-cases (leb x y)) [
  | inl before ↦ rw before (h, small, (ground arith, sy, up))
  | inr after ↦ rw after (hy, sy, insert-IsAscending y x ys (ground arith) small up)
]

unfoldable pub AllSmall : List ℕ → Type 0
AllSmall [] = Unit {0}
AllSmall (x ∷ xs) = (x < 2 ^ 32) × AllSmall xs

pub sort-IsAscending : (xs : List ℕ) → AllSmall xs → IsAscending 0 (sort xs)
unfolding sort AllSmall IsAscending
sort-IsAscending [] h = tt
sort-IsAscending (x ∷ xs) (h, hs) =
    insert-IsAscending 0 x (sort xs) (omega arith) h (sort-IsAscending xs hs)
