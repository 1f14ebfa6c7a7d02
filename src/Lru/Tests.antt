-- ===== src/Lru/Tests.antt =====
-- Runs of the page cache, and its theorems at small pools.
use skip_cell.Common.{
  ℕ, ◌≡◌, refl, Bool, true, false, List, [], ◌∷◌, Option, none, some, arith, ok, indices, lookup,
  erase, assign, emplace, remove,
}
use skip_cell.Common.Calls.{Call, ◌>>=◌, ◌>>◌, pure}
use skip_cell.Chunk.{
  Chunk, chunk_4kb, unbound, make_chunk_id, inc_pin_count, dec_pin_count, set_chunk_id,
  set_chunk_state,
}
use skip_cell.Lru.Types.{load, bypass, demand, Reservation, Pool}
use skip_cell.Lru.Victim.{find_victim, drop_unused, forget, evict, select_victim}
use skip_cell.Lru.Reserve.{
  reserve_hit, take_frame, reserve_miss, Attempt, done, waits, attempt, try_reserve_hit,
}
use skip_cell.Lru.Publish.{publish, publish_frame, settled, release, release_frame}
use skip_cell.Lru.Capacity.{new, free_each, clear}
use skip_cell.Lru.Ownership.{IsValid, new-IsValid}
use skip_cell.Lru.Ownership.Victim.{Selected, select_victim-Selected}
use skip_cell.Lru.Ownership.Attempts.{Attempted, attempt-Attempted}
use skip_cell.Lru.Ownership.Returns.{Published, publish-Published}
use skip_cell.Lru.Ownership.Clears.{Cleared, clear-Cleared}
use skip_cell.Lru.Ownership.Traces.{Op, attempts, publishes, releases, clears, run, run-new-IsValid}

program : Unit {0}
unfolding find_victim drop_unused forget evict select_victim reserve_hit take_frame reserve_miss
    attempt try_reserve_hit publish publish_frame settled release release_frame new free_each clear
    make_chunk_id inc_pin_count dec_pin_count set_chunk_id set_chunk_state indices lookup erase
    assign emplace remove
program = tt

abbrev bodies : ℕ → Chunk
bodies _ = unbound

abbrev fresh : Pool
fresh = new 2 chunk_4kb bodies

reservation : Attempt → Reservation
reservation (done r) = r
reservation waits = record {
  state = bypass;
  page_id = 0;
  frame = none;
  content = none;
  coalesced = false;
  evicted = false;
  access = demand;
  prefetched_hit = false;
}

-- Loads a page, publishes it and lets it go.
visit : ℕ → Call Pool (Option ℕ × Bool)
visit page = do
  a ← attempt page demand true false
  publish (reservation a) true
  release (reservation a)
  pure ((reservation a).frame, (reservation a).evicted)

visits : Call Pool (Option ℕ × Bool)
visits = do _ ← visit 7; _ ← visit 8; visit 9

-- Pages 7 and 8 fill the pool; page 9 takes the frame of the older one.
evicts_the_oldest : (visits fresh).1 ≡ ok (some 1, true)
unfolding program visits visit reservation
evicts_the_oldest = refl

fresh-IsValid : IsValid fresh
fresh-IsValid = new-IsValid 2 chunk_4kb bodies (omega arith)

-- Page 7 in flight in frame 1.
loading : Reservation
loading = record {
  state = load;
  page_id = 7;
  frame = some 1;
  content = none;
  coalesced = false;
  evicted = false;
  access = demand;
  prefetched_hit = false;
}

abbrev history : List Op
history = attempts 7 demand true false ∷ publishes loading true ∷ releases loading ∷ clears ∷ []

run-new-IsValid_example : IsValid (run history (new 2 chunk_4kb bodies))
run-new-IsValid_example = run-new-IsValid 2 chunk_4kb bodies history (omega arith) (omega arith)

attempt-Attempted_example : Attempted fresh 7 demand true false (attempt 7 demand true false fresh)
attempt-Attempted_example = attempt-Attempted fresh 7 demand true false fresh-IsValid (omega arith)

-- The pool with page 7 resident.
one_page : Pool
one_page = run (attempts 7 demand true false ∷ publishes loading true ∷ []) fresh

one_page-IsValid : IsValid one_page
unfolding one_page
one_page-IsValid =
    run-new-IsValid 2 chunk_4kb bodies (attempts 7 demand true false ∷ publishes loading true ∷ [])
      (omega arith) (omega arith)

one_page_listed : one_page.lru ≡ 7 ∷ []
unfolding program one_page run loading
one_page_listed = refl

select_victim-Selected_example : Selected one_page false (select_victim false one_page)
select_victim-Selected_example = select_victim-Selected one_page false one_page-IsValid

-- The pool with page 7 in flight.
in_flight : Pool
in_flight = run (attempts 7 demand true false ∷ []) fresh

in_flight-IsValid : IsValid in_flight
unfolding in_flight
in_flight-IsValid =
    run-new-IsValid 2 chunk_4kb bodies (attempts 7 demand true false ∷ []) (omega arith)
      (omega arith)

publish-Published_example : Published in_flight loading true (publish loading true in_flight)
publish-Published_example = publish-Published in_flight loading true in_flight-IsValid

clear-Cleared_example : Cleared one_page (clear one_page)
clear-Cleared_example = clear-Cleared one_page one_page-IsValid
