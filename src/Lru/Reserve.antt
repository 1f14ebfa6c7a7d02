-- ===== src/Lru/Reserve.antt =====
-- `reserve_locked` and what calls it. A wait on the condition variable gives the lock away, so an
-- attempt ends there; the thread attempts again, with `coalesced` set, once the load is over.
use skip_cell.Common.{
  ℕ, ◌-◌, Bool, true, false, ◌&&◌, ◌||◌, List, [], ◌∷◌, Option, none, some, ltb, ◌==◌,
  if◌then◌else◌, ok, logic_error, invalid_argument, lookup, assign, emplace, remove,
}
use skip_cell.Common.Calls.{Call, ◌>>=◌, ◌>>◌, pure, raise, get, modify, when, lift}
use skip_cell.Chunk.{free, make_chunk_id, inc_pin_count, set_chunk_id, set_chunk_state}
use skip_cell.Lru.Types.{
  hit, load, Access, prefetch, gateway_prefetch, is_prefetch, is_demand, Reservation, bypassed,
  Entry, Pool, bump, on_frame, count_stat,
}
use skip_cell.Lru.Victim.{select_victim}

-- A demand for a page that was prefetched and not used yet.
unfoldable pub first_use : ℕ → Entry → Call Pool (Unit {0})
first_use page e = do
  modify
      (λ p. record p { resident = assign page (record e { prefetched_unused = false }) p.resident })
  n ← get (λ p. p.prefetched_unused_count)
  if n == 0
      then raise logic_error
      else modify (λ p. record p {
        prefetched_unused_count = p.prefetched_unused_count - 1;
        prefetch_admission_credit = true;
        stats = record p.stats { prefetch_used = bump p.stats.prefetch_used };
      })

-- `splice` to the front of `lru_`, with the counter of hits.
unfoldable pub touch : ℕ → Pool → Pool
touch page p = record p {
  lru = page ∷ remove page p.lru;
  stats = record p.stats { demand_hits = bump p.stats.demand_hits };
}

-- The hit of a resident page.
unfoldable pub reserve_hit : ℕ → Entry → Access → Bool → Call Pool Reservation
unfolding first_use touch
reserve_hit page e access coalesced = do
  modify (on_frame e.frame inc_pin_count)
  if is_demand access
      then (do modify (touch page); when e.prefetched_unused (first_use page e))
      else modify (count_stat λ s. record s { prefetch_hits = bump s.prefetch_hits })
  content ← get (λ p. (p.frames e.frame).content)
  pure (record {
    state = hit;
    page_id = page;
    frame = some e.frame;
    content = content;
    coalesced = coalesced;
    evicted = false;
    access = access;
    prefetched_hit = is_demand access && e.prefetched_unused;
  })

-- The second search runs only if the first finds nothing.
abbrev pub otherwise : Call Pool (Option ℕ) → Option ℕ → Call Pool (Option ℕ)
otherwise second none = second
otherwise second (some f) = pure (some f)

unfoldable pub or_else : Call Pool (Option ℕ) → Call Pool (Option ℕ) → Call Pool (Option ℕ)
or_else first second = first >>= otherwise second

unfoldable pub take_unused : Call Pool (Option ℕ)
take_unused p = if p.prefetched_unused_count == 0 then (p, ok none) else select_victim true p

abbrev pub may_evict_demand : Access → Pool → Bool
may_evict_demand access p =
    (elim access [ gateway_prefetch ↦ true | _ ↦ false ]) || p.prefetch_admission_credit

-- A prefetch that takes any page spends the credit; one for a gateway does not.
unfoldable pub charge : Access → Pool → Pool
charge access p = record p {
  prefetch_admission_credit = elim access [ prefetch ↦ false | _ ↦ p.prefetch_admission_credit ];
  stats = record p.stats { prefetch_demand_evictions = bump p.stats.prefetch_demand_evictions };
}

abbrev pub charge_found : Access → Option ℕ → Call Pool (Option ℕ)
charge_found access none = pure none
charge_found access (some f) = do modify (charge access); pure (some f)

unfoldable pub take_any : Access → Call Pool (Option ℕ)
unfolding charge
take_any access = select_victim false >>= charge_found access

-- A prefetch takes an unused prefetch; failing that, a gateway, or a prefetch with credit, takes
-- any page.
unfoldable pub prefetch_victim : Access → Call Pool (Option ℕ)
unfolding or_else take_unused take_any
prefetch_victim access =
    or_else take_unused (λ p. if may_evict_demand access p then take_any access p else (p, ok none))

abbrev pub with_eviction : Option ℕ → Call Pool (Option ℕ × Bool)
with_eviction none = pure (none, false)
with_eviction (some f) = pure (some f, true)

abbrev pub victim_for : Access → Call Pool (Option ℕ)
victim_for access = if is_prefetch access then prefetch_victim access else select_victim false

-- The frame for a miss, and whether a page was evicted for it.
unfoldable pub take_frame : Access → Call Pool (Option ℕ × Bool)
take_frame access p = elim p.free_frames [
  | f ∷ rest ↦ (record p { free_frames = rest }, ok (some f, false))
  | [] ↦ (victim_for access >>= with_eviction) p
]

unfoldable pub count_miss : Access → Pool → Pool
count_miss access = count_stat λ s.
    if is_prefetch access
    then record s { prefetch_misses = bump s.prefetch_misses }
    else record s { misses = bump s.misses }

unfoldable pub count_failure : Access → Pool → Pool
count_failure access = count_stat λ s.
    if is_prefetch access
    then record s { prefetch_admission_rejections = bump s.prefetch_admission_rejections }
    else record s { pinned_victim_failures = bump s.pinned_victim_failures }

-- The page starts to load into the frame, which is pinned.
unfoldable pub start_load : ℕ → Access → Bool → ℕ → Bool → Call Pool Reservation
start_load page access coalesced f evicted = do
  type ← get (λ p. p.chunk_type)
  id ← lift (make_chunk_id type page)
  modify (on_frame f λ c. inc_pin_count (set_chunk_state free (set_chunk_id id c)))
  modify (λ p. record p { loading = emplace page f p.loading })
  content ← get (λ p. (p.frames f).content)
  pure (record {
    state = load;
    page_id = page;
    frame = some f;
    content = content;
    coalesced = coalesced;
    evicted = evicted;
    access = access;
    prefetched_hit = false;
  })

abbrev pub load_into : ℕ → Access → Bool → Option ℕ × Bool → Call Pool Reservation
load_into page access coalesced (some f, evicted) = start_load page access coalesced f evicted
load_into page access coalesced (none, evicted) = do
  modify (count_failure access)
  pure (bypassed page coalesced access)

unfoldable pub reserve_miss : ℕ → Access → Bool → Call Pool Reservation
unfolding take_frame count_miss count_failure start_load
reserve_miss page access coalesced = do
  modify (count_miss access)
  capacity ← get (λ p. p.capacity_pages)
  if capacity == 0
      then pure (bypassed page coalesced access)
      else (take_frame access >>= load_into page access coalesced)

-- What an attempt comes to.
pub data Attempt : Type 0 where
  done : Reservation → Attempt
  waits : Attempt

-- One pass of the loop of `reserve_locked`.
unfoldable pub attempt : ℕ → Access → Bool → Bool → Call Pool Attempt
attempt page access wait_for_inflight coalesced p = elim (lookup page p.resident) [
  | some e ↦ (do r ← reserve_hit page e access coalesced; pure (done r)) p
  | none ↦ elim (lookup page p.loading) [
    | some _ ↦
        (do
          modify (count_stat λ s. record s { coalesced_misses = bump s.coalesced_misses })
          pure (if wait_for_inflight then waits else done (bypassed page true access)))
          p
    | none ↦ (do r ← reserve_miss page access coalesced; pure (done r)) p
  ]
]

unfoldable pub try_reserve_hit : ℕ → Access → Call Pool Reservation
try_reserve_hit page access p = elim (lookup page p.resident) [
  | none ↦ (p, ok (bypassed page false access))
  | some e ↦ reserve_hit page e access false p
]

-- The check of `reserve_many`: page ids that increase strictly.
unfoldable pub increasing : List ℕ → Bool
increasing [] = true
increasing (a ∷ []) = true
increasing (a ∷ b ∷ pages) = ltb a b && increasing (b ∷ pages)

-- The loop of `reserve_many` until it is through or has to wait: the reservations so far, and the
-- pages that are left, the first of which is in flight.
unfoldable pub reserve_each : List ℕ → Access → Bool → Call Pool (List Reservation × List ℕ)
reserve_each [] access coalesced = pure ([], [])
reserve_each (page ∷ pages) access coalesced = do
  a ← attempt page access true coalesced
  elim a [
    | waits ↦ pure ([], page ∷ pages)
    | done r ↦ do (rs, left) ← reserve_each pages access false; pure (r ∷ rs, left)
  ]

unfoldable pub reserve_many : List ℕ → Access → Call Pool (List Reservation × List ℕ)
reserve_many pages access =
    if increasing pages then reserve_each pages access false else raise invalid_argument
