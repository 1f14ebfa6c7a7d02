-- ===== src/Neighbor/Insert.antt =====
-- What `insert` does to a valid queue.
use skip_cell.Common.{
  ℕ, ◌+◌, ◌-◌, ◌%◌, ◌^◌, ◌≤◌, ◌<◌, ◌≡◌, refl, ◌⊎◌, inl, inr, true, false, Option, none, some, arith,
  ok, ltb, leb, ◌==◌, ◌&&◌, Bool-cases, if◌then◌else◌, update,
}
use skip_cell.Neighbor.{Neighbor, neighbor, before, Queue, place, locate, insert}
use skip_cell.Neighbor.Cursor.{IsBounded, IsSorted, IsAtFirst, IsValid}
use skip_cell.Neighbor.Search.{Fits, Answers, read-ok, search-Answers}

-- The queue with a fresh entry at `lo`: the entries from there on stand one place up, and the
-- last one of a full queue is gone.
abbrev pub placed : Queue → Neighbor → ℕ → Queue
placed q nbr lo = record q {
  entries =
      update (λ j. if ltb lo j && leb j q.size then q.entries (j - 1) else q.entries j) lo
        (neighbor nbr.id nbr.distance);
  size = if ltb q.size q.capacity then q.size + 1 else q.size;
  cur = if ltb lo q.cur then lo else q.cur;
}

place-ok :
    (q : Queue) (nbr : Neighbor) (lo : ℕ)
    → IsBounded q
    → lo ≤ q.size
    → lo < q.capacity
    → place q nbr lo ≡ ok (placed q nbr lo)
unfolding place
place-ok q nbr lo b h k = ground arith

before-fresh :
    (a b : Neighbor)
    → (before (neighbor a.id a.distance) b ≡ before a b)
      × (before b (neighbor a.id a.distance) ≡ before b a)
unfolding before
before-fresh a b = (refl, refl)

module _ (q : Queue) (nbr : Neighbor) (lo : ℕ) (fits : Fits q nbr lo) (room : lo < q.capacity) where
  placed-IsSorted : IsSorted q → IsSorted (placed q nbr lo)
  placed-IsSorted sorted i j h k = ground (
    arith,
    sorted i j,
    sorted i (j - 1),
    sorted (i - 1) (j - 1),
    fits.below i,
    fits.above (j - 1),
    before-fresh nbr (q.entries i),
    before-fresh nbr (q.entries (j - 1)),
  )

  placed-IsAtFirst : IsAtFirst q → IsAtFirst (placed q nbr lo)
  placed-IsAtFirst first = (λ i p. ground (arith, first.0 i), λ p. ground (arith, first.1))

  placed-IsBounded : IsBounded q → IsBounded (placed q nbr lo)
  placed-IsBounded b = ground arith

-- Why an entry is turned away: it does not come before some entry with its id, or the queue is full of
-- entries that come before it.
abbrev pub IsRefused : Queue → Neighbor → Type 0
IsRefused q nbr =
    ((i : ℕ) × (i < q.size) × ((q.entries i).id ≡ nbr.id) × (before nbr (q.entries i) ≡ false))
    ⊎ ((q.size ≡ q.capacity) × (before (q.entries (q.size - 1)) nbr ≡ true))

-- The outcomes of `insert`: nothing changes, or the entry is placed where the order wants it.
abbrev pub Inserted : Queue → Neighbor → Queue → Type 0
Inserted q nbr r =
    ((r ≡ q) × IsRefused q nbr)
    ⊎ ((lo : ℕ) × (lo < q.capacity) × Fits q nbr lo × (r ≡ placed q nbr lo))

locate-Inserted :
    (q : Queue) (nbr : Neighbor)
    → IsBounded q
    → IsSorted q
    → (q.size ≡ q.capacity → before (q.entries (q.size - 1)) nbr ≡ false)
    → 0 < q.capacity
    → (r : Queue) × (locate q nbr ≡ ok r) × Inserted q nbr r
unfolding locate
locate-Inserted q nbr v s full pos =
    let (r, e, a) =
      search-Answers q nbr s (omega (arith, v)) (omega (arith, v)) (q.size + 1) 0 q.size
        (omega arith) (omega arith) (omega arith) (λ i p. absurd (omega arith))
        (λ i p s. absurd (omega arith)) in
    rw e (by_answer r a)
  where
    by_answer :
        (r : Option ℕ)
        → Answers q nbr r
        → (t : Queue) × ((elim r [ none ↦ ok q | some lo ↦ place q nbr lo ]) ≡ ok t)
          × Inserted q nbr t
    by_answer none a = (q, refl, inl (refl, inl a))
    by_answer (some lo) f =
        let room : lo < q.capacity = ground (arith, full, f.inside, f.below (q.size - 1), v) in
        (placed q nbr lo, place-ok q nbr lo v f.inside room, inr (lo, room, f, refl))

-- The first test of `insert`: a full queue turns away what comes after its last entry.
insert-step :
    (q : Queue) (nbr : Neighbor)
    → IsBounded q
    → 0 < q.capacity
    → insert q nbr
      ≡ (if q.size == q.capacity && before (q.entries (q.size - 1)) nbr then ok q else locate q nbr)
unfolding insert
insert-step q nbr b pos = elim (Bool-cases (q.size == q.capacity)) [
  | inr room ↦ rw room
  | inl full ↦
      let last : (q.size + 2 ^ 64 - 1) % 2 ^ 64 ≡ q.size - 1 = ground (arith, b) in
      rw (full, last, read-ok q (q.size - 1) (omega (arith, b)))
]

-- The order is all that a call needs, also where the cursor is astray.
pub insert-places :
    (q : Queue) (nbr : Neighbor)
    → IsBounded q
    → IsSorted q
    → 0 < q.capacity
    → (r : Queue) × (insert q nbr ≡ ok r) × Inserted q nbr r
insert-places q nbr b s pos =
    elim (Bool-cases (q.size == q.capacity && before (q.entries (q.size - 1)) nbr)) [
      | inl worse ↦
          rw (insert-step q nbr b pos, worse)
            (q, refl, inl (refl, inr (ground arith, ground arith)))
      | inr better ↦
          rw (insert-step q nbr b pos, better) (locate-Inserted q nbr b s (λ p. ground arith) pos)
    ]

module _ (q : Queue) (nbr : Neighbor) (r : Queue) where
  pub Inserted-IsBounded : IsBounded q → Inserted q nbr r → IsBounded r
  Inserted-IsBounded b (inl (e, _)) = rw e b
  Inserted-IsBounded b (inr (lo, room, f, e)) = rw e (placed-IsBounded q nbr lo f room b)

  pub Inserted-IsSorted : IsSorted q → Inserted q nbr r → IsSorted r
  Inserted-IsSorted s (inl (e, _)) = rw e s
  Inserted-IsSorted s (inr (lo, room, f, e)) = rw e (placed-IsSorted q nbr lo f room s)

  pub Inserted-IsAtFirst : IsAtFirst q → Inserted q nbr r → IsAtFirst r
  Inserted-IsAtFirst s (inl (e, _)) = rw e s
  Inserted-IsAtFirst s (inr (lo, room, f, e)) = rw e (placed-IsAtFirst q nbr lo f room s)

-- An entry of this id and this distance is there already.
abbrev pub Holds : Queue → Neighbor → Type 0
Holds q nbr =
    (i : ℕ) × (i < q.size) × ((q.entries i).id ≡ nbr.id) × ((q.entries i).distance ≡ nbr.distance)

-- Such an entry is never placed again.
Inserted-held : (q : Queue) (nbr : Neighbor) (r : Queue) → Inserted q nbr r → Holds q nbr → r ≡ q
unfolding before
Inserted-held q nbr r (inl (e, _)) held = e
Inserted-held q nbr r (inr (lo, room, f, e)) (i, inside, same, level) =
    absurd (ground (arith, f.below i, f.above i, inside, same, level))

-- Inserting into a valid queue of some capacity returns, with every access in range. Either the queue
-- is unchanged, because the entry does not come before some entry with its id, or because the queue is
-- full and all of it comes before the entry; or the entry is placed behind all that come before it and
-- before all others, the last entry of a full queue giving way. An entry whose id and distance the
-- queue holds leaves it unchanged; one whose id it holds at another distance may be placed beside that.
-- The result is valid: within its capacity, in order, and with the cursor on the first unexpanded
-- entry.
pub insert-Inserted :
    (q : Queue) (nbr : Neighbor)
    → IsValid q
    → 0 < q.capacity
    → (r : Queue) × (insert q nbr ≡ ok r) × Inserted q nbr r × (Holds q nbr → r ≡ q) × IsValid r
insert-Inserted q nbr v pos =
    let (r, e, i) = insert-places q nbr v.bounded v.sorted pos in
    (
      r,
      e,
      i,
      Inserted-held q nbr r i,
      record {
        bounded = Inserted-IsBounded q nbr r v.bounded i;
        sorted = Inserted-IsSorted q nbr r v.sorted i;
        first = Inserted-IsAtFirst q nbr r v.first i;
      },
    )
