-- ===== src/Neighbor.antt =====
-- include/index/neighbor.h: the bounded priority queue of a beam search.
-- A distance is the rank of the float among the floats that are numbers (both zeros have one
-- rank): the code compares distances and does nothing else with them.
-- The vector `data_` is a family of entries with its length, `slots`. An access out of its range
-- throws `undefined`.
pub mod Search
pub mod Cursor
pub mod Insert
pub mod Pop
pub mod Update
mod Tests
use skip_cell.Common.{
  ℕ, zero, suc, ◌+◌, ◌-◌, ◌/◌, ◌%◌, ◌^◌, Bool, true, false, ◌&&◌, ◌||◌, Option, none, some, ltb,
  leb, ◌==◌, if◌then◌else◌, update, Result, ok, throws, undefined, ◌>>=◌,
}

pub record Neighbor : Type 0 where
  pub id : ℕ
  pub distance : ℕ
  pub expanded : Bool

-- The constructor from an id and a distance.
abbrev pub neighbor : ℕ → ℕ → Neighbor
neighbor id distance = record { id = id; distance = distance; expanded = false }

-- `operator<`.
pub before : Neighbor → Neighbor → Bool
before a b = ltb a.distance b.distance || (a.distance == b.distance && ltb a.id b.id)

pub record Queue : Type 0 where
  pub size : ℕ
  pub capacity : ℕ
  pub cur : ℕ
  pub slots : ℕ
  pub entries : ℕ → Neighbor

pub new : ℕ → Queue
new capacity = record {
  size = 0;
  capacity = capacity;
  cur = 0;
  slots = (capacity + 1) % 2 ^ 64;
  entries = λ _. neighbor 0 0;
}

-- `data_[i]`.
pub read : Queue → ℕ → Result Neighbor
read q i = if ltb i q.slots then ok (q.entries i) else throws undefined

-- The binary search of `insert`: the place for the entry, or `none` if its id was met on the way.
-- One round is made for each unit of fuel; `undefined` after the last one is never reached.
pub search : ℕ → Queue → Neighbor → ℕ → ℕ → Result (Option ℕ)
search zero q nbr lo hi = throws undefined
search (suc fuel) q nbr lo hi =
    let mid = (lo + hi) % 2 ^ 64 / 2 in
    let left = search fuel q nbr lo mid in
    let right = search fuel q nbr (mid + 1) hi in
    if ltb lo hi
    then (do
      here ← read q mid
      if before nbr here then left else if here.id == nbr.id then ok none else right)
    else ok (some lo)

-- `memmove` of the entries from `lo` to the end by one place up.
pub shift_up : Queue → ℕ → Result Queue
shift_up q lo =
    if leb (lo + 1 + (q.size - lo)) q.slots
    then ok (record q {
      entries = λ j. if ltb lo j && leb j q.size then q.entries (j - 1) else q.entries j;
    })
    else throws undefined

-- `data_[lo] = {nbr.id, nbr.distance}`, with the size and the cursor.
pub store : Queue → Neighbor → ℕ → Result Queue
store q nbr lo =
    if ltb lo q.slots
    then ok (record q {
      entries = update q.entries lo (neighbor nbr.id nbr.distance);
      size = if ltb q.size q.capacity then q.size + 1 else q.size;
      cur = if ltb lo q.cur then lo else q.cur;
    })
    else throws undefined

pub place : Queue → Neighbor → ℕ → Result Queue
unfolding shift_up store
place q nbr lo = do moved ← if ltb lo q.capacity then shift_up q lo else ok q; store moved nbr lo

-- What follows the first test of `insert`.
pub locate : Queue → Neighbor → Result Queue
locate q nbr = do
  position ← search (q.size + 1) q nbr 0 q.size
  elim position [ none ↦ ok q | some lo ↦ place q nbr lo ]

pub insert : Queue → Neighbor → Result Queue
insert q nbr =
    if q.size == q.capacity
    then (do
      last ← read q ((q.size + 2 ^ 64 - 1) % 2 ^ 64)
      if before last nbr then ok q else locate q nbr)
    else locate q nbr

-- The loop of `insert_or_update`: the first position that holds the id, among the `rounds` from
-- `position` on.
pub find_id : ℕ → Queue → ℕ → ℕ → Option ℕ
find_id zero q id position = none
find_id (suc rounds) q id position =
    if (q.entries position).id == id then some position else find_id rounds q id (position + 1)

-- The erasure of `insert_or_update`.
pub erase_at : Queue → ℕ → Queue
erase_at q position = record q {
  entries = λ j. if leb position j && ltb (j + 1) q.size then q.entries (j + 1) else q.entries j;
  size = q.size - 1;
  cur = if ltb position q.cur then q.cur - 1 else q.cur;
}

pub insert_or_update : Queue → Neighbor → Result Queue
insert_or_update q nbr = elim (find_id q.size q nbr.id 0) [
  | none ↦ insert q nbr
  | some position ↦ insert (erase_at q position) nbr
]

-- The loop of `closest_unexpanded`, with the rounds left until the end of the entries.
pub skip : ℕ → Queue → ℕ → ℕ
skip zero q cur = cur
skip (suc rounds) q cur =
    let rest = skip rounds q (cur + 1) in if (q.entries cur).expanded then rest else cur

abbrev pub mark : Neighbor → Neighbor
mark n = record n { expanded = true }

pub closest_unexpanded : Queue → Result (Neighbor × Queue)
closest_unexpanded q = do
  next ← read q q.cur
  let marked = record q { entries = update q.entries q.cur (mark next) }
  ok (mark next, record marked { cur = skip (q.size - q.cur) marked q.cur })

pub has_unexpanded_node : Queue → Bool
has_unexpanded_node q = ltb q.cur q.size

-- Entries that `resize` adds are zero; `capacity + 1` wraps.
pub reserve : Queue → ℕ → Queue
reserve q capacity = record q {
  slots = if ltb q.slots ((capacity + 1) % 2 ^ 64) then (capacity + 1) % 2 ^ 64 else q.slots;
  entries = λ j. if ltb j q.slots then q.entries j else neighbor 0 0;
  capacity = capacity;
}

pub clear : Queue → Queue
clear q = record q { size = 0; cur = 0 }
