-- ===== src/Lru/Ownership/Traces.antt =====
-- The pool after any history of calls, in any order of the threads that make them.
use skip_cell.Common.{
  ℕ, ◌^◌, ◌<◌, ◌≡◌, ◌⊎◌, inl, inr, Bool, false, List, [], ◌∷◌, none, ◌==◌, arith, Bool-cases,
  Option-cases, lookup,
}
use skip_cell.Chunk.{Chunk, ChunkType}
use skip_cell.Lru.Types.{Access, Reservation, Pool}
use skip_cell.Lru.Reserve.{attempt, try_reserve_hit}
use skip_cell.Lru.Publish.{pinned_frame, publish, release, release_frame}
use skip_cell.Lru.Capacity.{new, clear, reset_capacity}
use skip_cell.Lru.Ownership.{IsValid, new-IsValid}
use skip_cell.Lru.Ownership.Change.{same_owners}
use skip_cell.Lru.Ownership.Hits.{reserve_hit-ok}
use skip_cell.Lru.Ownership.Attempts.{Attempted, hits, joins, bypasses, loads, attempt-Attempted}
use skip_cell.Lru.Ownership.Returns.{Published, ignores, rejects, settles, publish-Published}
use skip_cell.Lru.Ownership.Clears.{clear-Cleared}

-- One critical section of a thread.
pub data Op : Type 0 where
  attempts : ℕ → Access → Bool → Bool → Op
  tries : ℕ → Access → Op
  publishes : Reservation → Bool → Op
  releases : Reservation → Op
  clears : Op
  resets : ℕ → (ℕ → Chunk) → Op

-- The pool that it leaves, also when it throws.
unfoldable pub step : Op → Pool → Pool
step (attempts page access wait_for_inflight coalesced) p =
    (attempt page access wait_for_inflight coalesced p).0
step (tries page access) p = (try_reserve_hit page access p).0
step (publishes r success) p = (publish r success p).0
step (releases r) p = (release r p).0
step clears p = (clear p).0
step (resets capacity frames) p = (reset_capacity capacity frames p).0

unfoldable pub run : List Op → Pool → Pool
unfolding step
run [] p = p
run (op ∷ ops) p = run ops (step op p)

-- Page ids and capacities that an identifier of 62 bits can hold.
abbrev pub Fits : Op → Type 0
Fits (attempts page _ _ _) = page < 2 ^ 62
Fits (tries _ _) = Unit
Fits (publishes _ _) = Unit
Fits (releases _) = Unit
Fits clears = Unit
Fits (resets capacity _) = capacity < 2 ^ 62

abbrev pub AllFit : List Op → Type 0
AllFit [] = Unit
AllFit (op ∷ ops) = Fits op × AllFit ops

release-IsValid : (p : Pool) (r : Reservation) → IsValid p → IsValid (release r p).0
unfolding release release_frame
release-IsValid p r v = elim (Option-cases (pinned_frame r)) [
  | inl e ↦ rw (e, release) v
  | inr (f, e) ↦ elim (Bool-cases ((p.frames f).pin_count == 0)) [
    | inl idle ↦ rw (e, release) (rw idle v)
    | inr pinned ↦ rw (e, release) (rw pinned (same_owners p none _ _ _ v))
  ]
]

try_reserve_hit-IsValid :
    (p : Pool) (page : ℕ) (access : Access) → IsValid p → IsValid (try_reserve_hit page access p).0
unfolding try_reserve_hit
try_reserve_hit-IsValid p page access v = elim (Option-cases (lookup page p.resident)) [
  | inl absent ↦ rw (absent, try_reserve_hit) v
  | inr (e, found) ↦
      let (runs, valid) = reserve_hit-ok p page e access false v found in
      rw (found, try_reserve_hit) (rw runs valid)
]

reset_capacity-cases :
    (capacity : ℕ) (frames : ℕ → Chunk) (p : Pool)
    → ((reset_capacity capacity frames p).0 ≡ p)
      ⊎ ((reset_capacity capacity frames p).0 ≡ new capacity p.chunk_type frames)
unfolding reset_capacity
reset_capacity-cases capacity frames p = ground arith

reset_capacity-IsValid :
    (p : Pool) (capacity : ℕ) (frames : ℕ → Chunk)
    → IsValid p
    → capacity < 2 ^ 62
    → IsValid (reset_capacity capacity frames p).0
unfolding reset_capacity
reset_capacity-IsValid p capacity frames v small = elim (reset_capacity-cases capacity frames p) [
  | inl e ↦ rw e v
  | inr e ↦ rw e (new-IsValid capacity p.chunk_type frames small)
]

attempt-IsValid :
    (p : Pool) (page : ℕ) (access : Access) (wait_for_inflight coalesced : Bool)
    → Attempted p page access wait_for_inflight coalesced
        (attempt page access wait_for_inflight coalesced p)
    → IsValid (attempt page access wait_for_inflight coalesced p).0
attempt-IsValid p page access w c (hits e _ runs v) = rw runs v
attempt-IsValid p page access w c (joins f q _ runs v _) = rw runs v
attempt-IsValid p page access w c (bypasses q runs v _) = rw runs v
attempt-IsValid p page access w c (loads f ev q runs l) = rw runs l.valid

publish-IsValid :
    (p : Pool) (r : Reservation) (success : Bool)
    → IsValid p
    → Published p r success (publish r success p)
    → IsValid (publish r success p).0
publish-IsValid p r success v (ignores _ runs) = rw runs v
publish-IsValid p r success v (rejects f _ _ runs) = rw runs v
publish-IsValid p r success v (settles f _ _ q runs _ _ after) = rw runs after

step-IsValid : (op : Op) (p : Pool) → Fits op → IsValid p → IsValid (step op p)
unfolding step
step-IsValid (attempts page access w c) p h v =
    attempt-IsValid p page access w c (attempt-Attempted p page access w c v h)
step-IsValid (tries page access) p h v = try_reserve_hit-IsValid p page access v
step-IsValid (publishes r success) p h v =
    publish-IsValid p r success v (publish-Published p r success v)
step-IsValid (releases r) p h v = release-IsValid p r v
step-IsValid clears p h v = (clear-Cleared p v).0
step-IsValid (resets capacity frames) p h v = reset_capacity-IsValid p capacity frames v h

run-IsValid : (ops : List Op) (p : Pool) → AllFit ops → IsValid p → IsValid (run ops p)
unfolding run
run-IsValid [] p h v = v
run-IsValid (op ∷ ops) p h v = run-IsValid ops (step op p) h.1 (step-IsValid op p h.0 v)

-- After any history of calls on a fresh pool of fewer than 2 ^ 62 pages, page ids below 2 ^ 62 given,
-- the pool is valid: each frame is free, resident or loading and only one of these, `lru_` lists
-- each resident page once, no page is resident and loading at once, and the count of unused
-- prefetches is right.
pub run-new-IsValid :
    (capacity : ℕ) (type : ChunkType) (frames : ℕ → Chunk) (ops : List Op)
    → capacity < 2 ^ 62
    → AllFit ops
    → IsValid (run ops (new capacity type frames))
run-new-IsValid capacity type frames ops h fit =
    run-IsValid ops (new capacity type frames) fit (new-IsValid capacity type frames h)
