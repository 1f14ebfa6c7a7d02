-- ===== src/Neighbor/Pop.antt =====
-- What `closest_unexpanded` returns and leaves behind.
use skip_cell.Common.{
  ℕ, zero, suc, ◌+◌, ◌-◌, ◌≤◌, ◌<◌, ◌≡◌, refl, ◌≢◌, inl, inr, true, false, not, arith, ok, ltb,
  ◌==◌, Bool-cases, update, one_if,
}
use skip_cell.Neighbor.{
  Neighbor, before, Queue, skip, mark, closest_unexpanded, has_unexpanded_node,
}
use skip_cell.Neighbor.Cursor.{IsValid}
use skip_cell.Neighbor.Search.{read-ok}

-- How many of the first `n` entries are unexpanded.
pub pending : ℕ → (ℕ → Neighbor) → ℕ
pending zero e = 0
pending (suc n) e = one_if (not (e n).expanded) + pending n e

pending-update :
    (n i : ℕ) (e : ℕ → Neighbor)
    → (e i).expanded ≡ false
    → pending n (update e i (mark (e i))) + one_if (ltb i n) ≡ pending n e
unfolding pending
pending-update zero i e h = ground arith
pending-update (suc n) i e h = ground (arith, pending-update n i e h)

-- Where the cursor comes to rest.
record Rests (q : Queue) (from to : ℕ) : Type 0 where
  ahead : from ≤ to
  inside : to ≤ q.size
  passed : (i : ℕ) → from ≤ i → i < to → (q.entries i).expanded ≡ true
  stopped : to < q.size → (q.entries to).expanded ≡ false

skip-Rests :
    (rounds : ℕ) (q : Queue) (cur : ℕ) → cur + rounds ≡ q.size → Rests q cur (skip rounds q cur)
unfolding skip
skip-Rests zero q cur e = record {
  ahead = omega arith;
  inside = omega arith;
  passed = λ i p r. absurd (omega arith);
  stopped = λ p. absurd (omega arith);
}
skip-Rests (suc rounds) q cur e = elim (Bool-cases (q.entries cur).expanded) [
  | inr here ↦ rw here (record {
    ahead = omega arith;
    inside = omega arith;
    passed = λ i p r. absurd (omega arith);
    stopped = λ _. here;
  })
  | inl on ↦
      let later = skip-Rests rounds q (cur + 1) (omega arith) in
      rw on (record {
        ahead = omega (arith, later.ahead);
        inside = later.inside;
        passed = λ i p r. passes later i p r on;
        stopped = later.stopped;
      })
]
  where
    passes :
        Rests q (cur + 1) (skip rounds q (cur + 1))
        → (i : ℕ) → cur ≤ i
        → i < skip rounds q (cur + 1)
        → (q.entries cur).expanded ≡ true
        → (q.entries i).expanded ≡ true
    passes later i p r on = elim (Bool-cases (cur == i)) [
      | inl same ↦ let eq : cur ≡ i = ground arith in rw (← eq) on
      | inr other ↦ later.passed i (ground arith) r
    ]

before-mark : (a b : Neighbor) → (before (mark a) b ≡ before a b) × (before b (mark a) ≡ before b a)
unfolding before
before-mark a b = (refl, refl)

-- The queue after a call: the entry under the cursor is marked, and the cursor has moved on.
abbrev pub popped : Queue → Queue
popped q =
    let marked = record q { entries = update q.entries q.cur (mark (q.entries q.cur)) } in
    record marked { cur = skip (q.size - q.cur) marked q.cur }

popped-IsValid : (q : Queue) → IsValid q → q.cur < q.size → IsValid (popped q)
popped-IsValid q v more =
    let marked : Queue = record q { entries = update q.entries q.cur (mark (q.entries q.cur)) } in
    let rests = skip-Rests (q.size - q.cur) marked q.cur (omega arith) in
    record {
      bounded = record {
        sized = v.bounded.sized;
        roomy = v.bounded.roomy;
        small = v.bounded.small;
        within = rests.inside;
      };
      sorted = λ i j p r. ground (
        arith,
        v.sorted i j p r,
        before-mark (q.entries q.cur) (q.entries i),
        before-mark (q.entries q.cur) (q.entries j),
      );
      first = (
        λ i p. elim (Bool-cases (ltb i q.cur)) [
          | inl old ↦ ground (arith, v.first.0 i)
          | inr new ↦ rests.passed i (ground arith) p
        ],
        rests.stopped,
      );
    }

-- On a valid queue with an unexpanded entry the call returns. It hands out the unexpanded entry
-- that comes before all other unexpanded ones, marks that entry alone, keeps the queue valid, and
-- one entry fewer is left to expand.
pub closest_unexpanded-best :
    (q : Queue)
    → IsValid q
    → has_unexpanded_node q ≡ true
    → (closest_unexpanded q ≡ ok (mark (q.entries q.cur), popped q))
      × ((q.entries q.cur).expanded ≡ false)
      × ((i : ℕ)
          → i < q.size
          → i ≢ q.cur
          → (q.entries i).expanded ≡ false
          → before (q.entries q.cur) (q.entries i) ≡ true)
      × IsValid (popped q)
      × (pending q.size (popped q).entries + 1 ≡ pending q.size q.entries)
unfolding closest_unexpanded has_unexpanded_node
closest_unexpanded-best q v h =
    let more : q.cur < q.size = ground arith in
    (
      rw (read-ok q q.cur (omega (arith, v.bounded))),
      v.first.1 more,
      λ i r ne un. ground (arith, v.first.0 i, v.sorted q.cur i),
      popped-IsValid q v more,
      ground (arith, pending-update q.size q.cur q.entries (v.first.1 more)),
    )
