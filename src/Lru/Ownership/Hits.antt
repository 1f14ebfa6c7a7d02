-- ===== src/Lru/Ownership/Hits.antt =====
-- A hit keeps the pool valid and never finds the count of unused prefetches at zero.
use skip_cell.Common.{
  ℕ, ◌-◌, ◌≡◌, Bool, true, false, ◌&&◌, none, some, ◌==◌, if◌then◌else◌, lookup, assign, remove,
  arith, ok, count-cons, count-remove, tally-assign, key_count-assign, length-assign,
}
use skip_cell.Chunk.{inc_pin_count}
use skip_cell.Lru.Types.{
  Access, demand, prefetch, gateway_prefetch, is_demand, Reservation, hit, Entry, Pool, bump,
  on_frame, count_stat,
}
use skip_cell.Lru.Reserve.{touch, reserve_hit}
use skip_cell.Lru.Ownership.{IsValid}
use skip_cell.Lru.Ownership.Change.{resident_once, same_owners}

-- The reservation of a hit.
abbrev pub hit_of : ℕ → Entry → Access → Bool → Pool → Reservation
hit_of page e access coalesced p = record {
  state = hit;
  page_id = page;
  frame = some e.frame;
  content = (p.frames e.frame).content;
  coalesced = coalesced;
  evicted = false;
  access = access;
  prefetched_hit = is_demand access && e.prefetched_unused;
}

-- The pool after a demand for a resident page.
abbrev demanded : ℕ → Entry → Pool → Pool
demanded page e p =
    let q = touch page p in
    if e.prefetched_unused
    then record q {
      resident = assign page (record e { prefetched_unused = false }) q.resident;
      prefetched_unused_count = q.prefetched_unused_count - 1;
      prefetch_admission_credit = true;
      stats = record q.stats { prefetch_used = bump q.stats.prefetch_used };
    }
    else q

-- The pool after a hit.
abbrev pub after_hit : ℕ → Entry → Access → Pool → Pool
after_hit page e access p =
    let q = on_frame e.frame inc_pin_count p in
    if is_demand access
    then demanded page e q
    else count_stat (λ s. record s { prefetch_hits = bump s.prefetch_hits }) q

demanded-IsValid :
    (p : Pool) (page : ℕ) (e : Entry)
    → IsValid p
    → lookup page p.resident ≡ some e
    → IsValid (demanded page e p)
unfolding touch
demanded-IsValid p page e v h =
    let once = resident_once p none page e v h in
    let used : Entry = record e { prefetched_unused = false } in
    record {
      small = ground (arith, v.small);
      total = ground (arith, v.total, length-assign page used p.resident);
      owned =
          λ f. ground (arith, v.owned f, tally-assign page e (λ x. x.frame == f) used p.resident h);
      listed = λ q. ground (
        arith,
        v.listed q,
        count-cons q page (remove page p.lru),
        count-remove q page p.lru once.0,
        key_count-assign page q used p.resident,
      );
      single = λ q. ground (arith, v.single q, key_count-assign page q used p.resident);
      counted =
          ground
            (arith, v.counted, tally-assign page e (λ x. x.prefetched_unused) used p.resident h);
    }

after_hit-IsValid :
    (p : Pool) (page : ℕ) (e : Entry) (access : Access)
    → IsValid p
    → lookup page p.resident ≡ some e
    → IsValid (after_hit page e access p)
after_hit-IsValid p page e demand v h =
    demanded-IsValid (on_frame e.frame inc_pin_count p) page e (same_owners p none _ _ _ v) h
after_hit-IsValid p page e prefetch v h = same_owners p none _ _ _ v
after_hit-IsValid p page e gateway_prefetch v h = same_owners p none _ _ _ v

reserve_hit-runs :
    (p : Pool) (page : ℕ) (e : Entry) (access : Access) (coalesced : Bool)
    → IsValid p
    → lookup page p.resident ≡ some e
    → reserve_hit page e access coalesced p
      ≡ (after_hit page e access p, ok (hit_of page e access coalesced p))
unfolding reserve_hit inc_pin_count
reserve_hit-runs p page e access coalesced v h = ground (
  arith,
  v.counted,
  tally-assign page e (λ x. x.prefetched_unused) (record e { prefetched_unused = false }) p.resident
      h,
)

-- On a valid pool the hit of a resident page throws nothing, pins its frame, hands that frame out
-- and keeps the pool valid.
pub reserve_hit-ok :
    (p : Pool) (page : ℕ) (e : Entry) (access : Access) (coalesced : Bool)
    → IsValid p
    → lookup page p.resident ≡ some e
    → (reserve_hit page e access coalesced p
        ≡ (after_hit page e access p, ok (hit_of page e access coalesced p)))
      × IsValid (after_hit page e access p)
reserve_hit-ok p page e access coalesced v h =
    (reserve_hit-runs p page e access coalesced v h, after_hit-IsValid p page e access v h)
