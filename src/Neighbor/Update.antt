-- ===== src/Neighbor/Update.antt =====
-- `insert_or_update`: the order survives the erasure; the cursor may not.
use skip_cell.Common.{
  ℕ, zero, suc, ◌+◌, ◌-◌, sym, ◌∙◌, ltb, if◌then◌else◌, ◌≤◌, ◌<◌, ◌≡◌, refl, ap, ◌≢◌, inl, inr,
  true, Option, none, some, arith, ok, ◌==◌, Bool-cases,
}
use skip_cell.Neighbor.{
  has_unexpanded_node, Neighbor, before, Queue, find_id, erase_at, insert, insert_or_update,
}
use skip_cell.Neighbor.Cursor.{IsBounded, IsSorted, IsAtFirst, IsValid}
use skip_cell.Neighbor.Search.{before_asym}
use skip_cell.Neighbor.Insert.{
  Inserted, insert-places, Inserted-IsBounded, Inserted-IsSorted, Inserted-IsAtFirst,
}

find_id-some :
    (rounds : ℕ) (q : Queue) (id position : ℕ) {r : ℕ}
    → find_id rounds q id position ≡ some r
    → (position ≤ r)
      × (r < position + rounds)
      × ((q.entries r).id ≡ id)
      × ((i : ℕ) → position ≤ i → i < r → (q.entries i).id ≢ id)
unfolding find_id
find_id-some zero q id position e = ground arith
find_id-some (suc rounds) q id position {r} e = elim (Bool-cases ((q.entries position).id == id)) [
  | inl same ↦
      let e' : position ≡ r = ground (arith, e, same) in
      let here : (q.entries position).id ≡ id = ground (arith, same) in
      (
        omega (arith, e'),
        omega (arith, e'),
        ap (λ k. (q.entries k).id) (sym e') ∙ here,
        λ i h k. absurd (omega (arith, e', h, k)),
      )
  | inr other ↦
      let (low, high, there, none_before) =
        find_id-some rounds q id (position + 1) {r = r} (ground arith) in
      (
        omega (arith, low),
        omega (arith, high),
        there,
        λ i h k. elim (Bool-cases (i == position)) [
          | inl here ↦
              let p : i ≡ position = ground (arith, here) in
              λ same. ground (arith, other, ap (λ j. (q.entries j).id) (sym p) ∙ same)
          | inr behind ↦ none_before i (ground (arith, h, behind)) k
        ],
      )
]

find_id-none :
    (rounds : ℕ) (q : Queue) (id position : ℕ)
    → find_id rounds q id position ≡ none
    → (i : ℕ) → position ≤ i
    → i < position + rounds
    → (q.entries i).id ≢ id
unfolding find_id
find_id-none zero q id position e i h k = absurd (omega (arith, h, k))
find_id-none (suc rounds) q id position e i h k =
    elim (Bool-cases ((q.entries position).id == id)) [
      | inl same ↦ absurd (ground (arith, e, same))
      | inr other ↦ elim (Bool-cases (i == position)) [
        | inl here ↦
            let p : i ≡ position = ground (arith, here) in
            λ same. ground (arith, other, ap (λ j. (q.entries j).id) (sym p) ∙ same)
        | inr behind ↦
            find_id-none rounds q id (position + 1) (ground (arith, e, other)) i
              (ground (arith, h, behind)) (omega (arith, k))
      ]
    ]

erase_at-IsBounded : (q : Queue) (r : ℕ) → IsBounded q → r < q.size → IsBounded (erase_at q r)
unfolding erase_at
erase_at-IsBounded q r b h = ground arith

erase_at-IsSorted : (q : Queue) (r : ℕ) → IsSorted q → r < q.size → IsSorted (erase_at q r)
unfolding erase_at
erase_at-IsSorted q r s h i j p k = ground (arith, s i j, s i (j + 1), s (i + 1) (j + 1))

-- The erasure keeps the cursor on the first unexpanded entry unless it takes away the entry under
-- the cursor.
erase_at-IsAtFirst :
    (q : Queue) (r : ℕ)
    → IsAtFirst q
    → r < q.size
    → r ≢ q.cur
    → q.cur ≤ q.size
    → IsAtFirst (erase_at q r)
unfolding erase_at
erase_at-IsAtFirst q r (b, a) h ne w = (λ i p. ground (arith, b i, b (i + 1)), λ p. ground arith)

-- What an update inserts into: the queue without the entry of that id.
pub without : Queue → Option ℕ → Queue
without q none = q
without q (some position) = erase_at q position

abbrev pub cleared : Queue → ℕ → Queue
cleared q id = without q (find_id q.size q id 0)

without-lem :
    (q : Queue) (id : ℕ) (o : Option ℕ)
    → IsValid q
    → find_id q.size q id 0 ≡ o
    → IsBounded (without q o)
      × IsSorted (without q o)
      × (o ≢ some q.cur → IsAtFirst (without q o))
      × ((without q o).capacity ≡ q.capacity)
unfolding without erase_at
without-lem q id none v e = (v.bounded, v.sorted, λ _. v.first, refl)
without-lem q id (some r) v e =
    let found = find_id-some q.size q id 0 {r = r} e in
    let inside : r < q.size = omega (arith, found) in
    (
      erase_at-IsBounded q r v.bounded inside,
      erase_at-IsSorted q r v.sorted inside,
      λ ne. erase_at-IsAtFirst q r v.first inside (λ p. ne (ap some p)) v.bounded.within,
      refl,
    )

insert_or_update-cleared :
    (q : Queue) (nbr : Neighbor) → insert_or_update q nbr ≡ insert (cleared q nbr.id) nbr
unfolding insert_or_update without
insert_or_update-cleared q nbr = ground arith

-- What an update inserts into: the queue itself where no entry has the id, or the queue without the
-- first entry that has it, the later ones one place down and the cursor moved with them.
pub data Removed (q : Queue) (id : ℕ) : Option ℕ → Queue → Type 0 where
  absent : ((i : ℕ) → i < q.size → (q.entries i).id ≢ id) → Removed q id none q
  erased :
      (k : ℕ) (c : Queue)
      → k < q.size
      → (q.entries k).id ≡ id
      → ((i : ℕ) → i < k → (q.entries i).id ≢ id)
      → c.size + 1 ≡ q.size
      → c.capacity ≡ q.capacity
      → ((i : ℕ) → i < k → c.entries i ≡ q.entries i)
      → ((i : ℕ) → k ≤ i → i < c.size → c.entries i ≡ q.entries (i + 1))
      → c.cur ≡ (if ltb k q.cur then q.cur - 1 else q.cur)
      → Removed q id (some k) c

without-Removed :
    (q : Queue) (id : ℕ) (o : Option ℕ) → find_id q.size q id 0 ≡ o → Removed q id o (without q o)
unfolding without erase_at
without-Removed q id none e =
    absent (λ i h. find_id-none q.size q id 0 e i (omega arith) (omega (arith, h)))
without-Removed q id (some k) e =
    let (_, inside, has, first) = find_id-some q.size q id 0 {r = k} e in
    erased k (erase_at q k) (omega (arith, inside)) has (λ i h. first i (omega arith) h)
      (omega (arith, inside)) refl (λ i h. ground (arith, h)) (λ i h m. ground (arith, h, m)) refl

-- On a valid queue of some capacity an update returns: the first entry of the id, if there is one, is
-- gone from between the others, the new one is inserted into what is left as `insert` does it, and
-- bounds and order are kept. The cursor still points to the first unexpanded entry, unless the entry
-- that the update takes away is the one under the cursor.
pub insert_or_update-Inserted :
    (q : Queue) (nbr : Neighbor)
    → IsValid q
    → 0 < q.capacity
    → (position : Option ℕ) × (c : Queue) × (r : Queue) × Removed q nbr.id position c
      × (insert_or_update q nbr ≡ ok r)
      × Inserted c nbr r
      × IsBounded r
      × IsSorted r
      × (position ≢ some q.cur → IsAtFirst r)
insert_or_update-Inserted q nbr v pos =
    let o = find_id q.size q nbr.id 0 in
    let (b, s, f, c) = without-lem q nbr.id o v refl in
    let (r, e, i) = insert-places (cleared q nbr.id) nbr b s (rw c pos) in
    (
      o,
      cleared q nbr.id,
      r,
      without-Removed q nbr.id o refl,
      insert_or_update-cleared q nbr ∙ e,
      i,
      Inserted-IsBounded _ nbr r b i,
      Inserted-IsSorted _ nbr r s i,
      λ ne. Inserted-IsAtFirst _ nbr r (f ne) i,
    )

-- A cursor on an expanded entry that comes before the new one stays there.
stays :
    (q r : Queue) (nbr : Neighbor)
    → q.cur < q.size
    → q.size < q.capacity
    → (q.entries q.cur).expanded ≡ true
    → before (q.entries q.cur) nbr ≡ true
    → Inserted q nbr r
    → (r.cur < r.size) × ((r.entries r.cur).expanded ≡ true)
stays q r nbr h room old behind (inl (e, _)) = rw e (h, old)
stays q r nbr h room old behind (inr (lo, _, f, e)) =
    rw e (ground (arith, f.above q.cur, before_asym (q.entries q.cur) nbr behind))

-- With the entry under the cursor gone, the next one stands under it.
module _ (q : Queue) (more : q.cur + 1 < q.size) where
  erased_next : (erase_at q q.cur).cur < (erase_at q q.cur).size
  unfolding erase_at
  erased_next = ground arith

  erased_entry : (erase_at q q.cur).entries (erase_at q q.cur).cur ≡ q.entries (q.cur + 1)
  unfolding erase_at
  erased_entry = ground arith

  erased_room : IsValid q → (erase_at q q.cur).size < (erase_at q q.cur).capacity
  unfolding erase_at
  erased_room v = omega (arith, v.bounded)

-- The class comment promises a cursor on the first unexpanded entry. An update breaks it whenever
-- the replaced entry is the one under the cursor, the entry after it is expanded already, and the
-- new entry belongs behind that one: the cursor then rests on an expanded entry, and
-- `has_unexpanded_node` still holds.
pub insert_or_update_astray :
    (q : Queue) (nbr : Neighbor)
    → IsValid q
    → 0 < q.capacity
    → find_id q.size q nbr.id 0 ≡ some q.cur
    → q.cur + 1 < q.size
    → (q.entries (q.cur + 1)).expanded ≡ true
    → before (q.entries (q.cur + 1)) nbr ≡ true
    → (r : Queue) × (insert_or_update q nbr ≡ ok r)
      × (has_unexpanded_node r ≡ true)
      × ((r.entries r.cur).expanded ≡ true)
      × (¬ IsAtFirst r)
unfolding without has_unexpanded_node
insert_or_update_astray q nbr v pos e more old behind =
    let (b, s, f, c) = without-lem q nbr.id (some q.cur) v e in
    let (r, done, i) = insert-places (without q (some q.cur)) nbr b s (rw c pos) in
    let (inside, twice) =
      stays (erase_at q q.cur) r nbr (erased_next q more) (erased_room q more v)
        (rw (erased_entry q more) old) (rw (erased_entry q more) behind) i in
    rw (insert_or_update-cleared q nbr, e)
      (r, done, ground arith, twice, λ first. cc (first.1 inside))
