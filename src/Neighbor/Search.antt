-- ===== src/Neighbor/Search.antt =====
-- The binary search of `insert` ends, reads within the vector, and finds the place in the order.
use skip_cell.Common.{
  ℕ, zero, suc, ◌+◌, ◌/◌, ◌%◌, ◌^◌, ◌≤◌, ◌<◌, ◌≡◌, refl, ◌≢◌, inl, inr, true, false, Option, none,
  some, arith, ok, ltb, ◌==◌, Bool-cases, if◌then◌else◌,
}
use skip_cell.Neighbor.{Neighbor, before, Queue, read, search}
use skip_cell.Neighbor.Cursor.{IsSorted}

-- Where an entry belongs: all below come before it, and it comes before all from there on.
pub record Fits (q : Queue) (nbr : Neighbor) (lo : ℕ) : Type 0 where
  pub inside : lo ≤ q.size
  pub below : (i : ℕ) → i < lo → before (q.entries i) nbr ≡ true
  pub above : (i : ℕ) → lo ≤ i → i < q.size → before nbr (q.entries i) ≡ true

-- The answer of the search: a place that fits, or an entry with the same id that the new one does not
-- come before.
abbrev pub Answers : Queue → Neighbor → Option ℕ → Type 0
Answers q nbr none =
    (i : ℕ) × (i < q.size) × ((q.entries i).id ≡ nbr.id) × (before nbr (q.entries i) ≡ false)
Answers q nbr (some lo) = Fits q nbr lo

pub before_trans : (a b c : Neighbor) → before a b ≡ true → before b c ≡ true → before a c ≡ true
unfolding before
before_trans a b c h k = ground arith

pub before_asym : (a b : Neighbor) → before a b ≡ true → before b a ≡ false
unfolding before
before_asym a b h = ground arith

pub not-before : (a b : Neighbor) → before a b ≡ false → b.id ≢ a.id → before b a ≡ true
unfolding before
not-before a b h k = ground arith

pub read-ok : (q : Queue) (i : ℕ) → i < q.slots → read q i ≡ ok (q.entries i)
unfolding read
read-ok q i h = ground arith

-- One round of the search that has entries left.
search-suc :
    (q : Queue) (nbr : Neighbor) (fuel lo hi mid : ℕ)
    → lo < hi
    → mid < q.slots
    → (lo + hi) % 2 ^ 64 / 2 ≡ mid
    → search (suc fuel) q nbr lo hi ≡ (
        if before nbr (q.entries mid)
        then search fuel q nbr lo mid
        else if (q.entries mid).id == nbr.id
        then ok none
        else search fuel q nbr (mid + 1) hi)
unfolding search
search-suc q nbr fuel lo hi mid h m e = rw (e, read-ok q mid m) (ground arith)

module _ (q : Queue) (nbr : Neighbor) (sorted : IsSorted q) (room : q.size < q.slots)
    (small : q.size < 2 ^ 62) where
  below_to :
      (i mid : ℕ)
      → i < mid + 1
      → mid < q.size
      → before (q.entries mid) nbr ≡ true
      → before (q.entries i) nbr ≡ true
  below_to i mid h m e = elim (Bool-cases (ltb i mid)) [
    | inl l ↦ before_trans _ _ _ (sorted i mid (ground arith) m) e
    | inr g ↦ let same : i ≡ mid = ground arith in rw same e
  ]

  above_from :
      (i mid : ℕ)
      → mid ≤ i
      → i < q.size
      → before nbr (q.entries mid) ≡ true
      → before nbr (q.entries i) ≡ true
  above_from i mid h m e = elim (Bool-cases (ltb mid i)) [
    | inl l ↦ before_trans _ _ _ e (sorted mid i (ground arith) m)
    | inr g ↦ let same : i ≡ mid = ground arith in rw same e
  ]

  pub search-Answers :
      (fuel lo hi : ℕ)
      → hi < lo + fuel
      → lo ≤ hi
      → hi ≤ q.size
      → ((i : ℕ) → i < lo → before (q.entries i) nbr ≡ true)
      → ((i : ℕ) → hi ≤ i → i < q.size → before nbr (q.entries i) ≡ true)
      → (r : Option ℕ) × (search fuel q nbr lo hi ≡ ok r) × Answers q nbr r
  unfolding search read
  search-Answers zero lo hi f le top b a = absurd (omega arith)
  search-Answers (suc fuel) lo hi f le top b a = elim (Bool-cases (ltb lo hi)) [
    | inr done ↦
        let same : lo ≡ hi = ground arith in
        (some lo, rw done, record { inside = omega arith; below = b; above = λ i. rw same (a i) })
    | inl more ↦
        let mid = (lo + hi) % 2 ^ 64 / 2 in
        let lt : lo < hi = ground arith in
        let inner : (lo ≤ mid) × (mid < hi) = omega arith in
        rw (search-suc q nbr fuel lo hi mid lt (omega arith) refl)
          (elim (Bool-cases (before nbr (q.entries mid))) [
            | inl left ↦ rw left (
                search-Answers fuel lo mid (omega arith) inner.0 (omega arith) b
                  (λ i p r. above_from i mid p r left))
            | inr right ↦ rw right (elim (Bool-cases ((q.entries mid).id == nbr.id)) [
              | inl same ↦ rw same (none, refl, (mid, omega arith, ground arith, right))
              | inr other ↦ rw other (
                  search-Answers fuel (mid + 1) hi (omega arith) (omega arith) top
                    (λ i p.
                      below_to i mid p (omega arith)
                        (not-before nbr (q.entries mid) right (ground arith)))
                    a)
            ])
          ])
  ]
