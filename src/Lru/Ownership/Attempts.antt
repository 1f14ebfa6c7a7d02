-- ===== src/Lru/Ownership/Attempts.antt =====
-- Every attempt to reserve a page, on every branch.
use skip_cell.Common.{
  ℕ, ◌^◌, ◌<◌, ◌≡◌, refl, ◌∙◌, inl, inr, Bool, true, none, some, if◌then◌else◌, lookup, Result, ok,
  Option-cases,
}
use skip_cell.Common.Calls.{◌>>=◌, bind_ok, pure}
use skip_cell.Lru.Types.{Access, Reservation, bypassed, Entry, Pool, bump, count_stat}
use skip_cell.Lru.Reserve.{reserve_hit, reserve_miss, Attempt, done, waits, attempt}
use skip_cell.Lru.Ownership.{IsValid}
use skip_cell.Lru.Ownership.Change.{same_owners}
use skip_cell.Lru.Ownership.Hits.{hit_of, after_hit, reserve_hit-ok}
use skip_cell.Lru.Ownership.Loads.{Loads, load_of, OnlyCounts, Missed, reserve_miss-Missed}

-- The outcomes of one attempt for a page.
pub data Attempted (p : Pool) (page : ℕ) (access : Access) (wait_for_inflight coalesced : Bool)
    (out : Pool × Result Attempt) : Type 0 where
  hits :
      (e : Entry)
      → lookup page p.resident ≡ some e
      → out ≡ (after_hit page e access p, ok (done (hit_of page e access coalesced p)))
      → IsValid (after_hit page e access p)
      → Attempted p page access wait_for_inflight coalesced out
  joins :
      (f : ℕ) (q : Pool)
      → lookup page p.loading ≡ some f
      → out ≡ (q, ok (if wait_for_inflight then waits else done (bypassed page true access)))
      → IsValid q
      → OnlyCounts p q
      → Attempted p page access wait_for_inflight coalesced out
  bypasses :
      (q : Pool)
      → out ≡ (q, ok (done (bypassed page coalesced access)))
      → IsValid q
      → OnlyCounts p q
      → Attempted p page access wait_for_inflight coalesced out
  loads :
      (f : ℕ) (evicted : Bool) (q : Pool)
      → out ≡ (q, ok (done (load_of page f access coalesced evicted p)))
      → Loads p page f q
      → Attempted p page access wait_for_inflight coalesced out

abbrev finish : Reservation → Pool → Pool × Result Attempt
finish r = pure (done r)

module _ (p : Pool) (page : ℕ) (access : Access) (wait_for_inflight coalesced : Bool) where
  attempt-hit :
      (e : Entry)
      → lookup page p.resident ≡ some e
      → attempt page access wait_for_inflight coalesced p
        ≡ (reserve_hit page e access coalesced >>= finish) p
  unfolding attempt
  attempt-hit e h = rw (h, attempt)

  attempt-miss :
      lookup page p.resident ≡ none
      → lookup page p.loading ≡ none
      → attempt page access wait_for_inflight coalesced p
        ≡ (reserve_miss page access coalesced >>= finish) p
  unfolding attempt
  attempt-miss h k = rw (h, attempt) (rw k)

  missed :
      attempt page access wait_for_inflight coalesced p
        ≡ (reserve_miss page access coalesced >>= finish) p
      → Missed p page access coalesced (reserve_miss page access coalesced p)
      → Attempted p page access wait_for_inflight coalesced
          (attempt page access wait_for_inflight coalesced p)
  missed step (inl (q, e, v, same)) =
      bypasses q (step ∙ bind_ok (reserve_miss page access coalesced) finish e) v same
  missed step (inr (f, evicted, q, e, l)) =
      loads f evicted q (step ∙ bind_ok (reserve_miss page access coalesced) finish e) l

  -- On a valid pool an attempt for a page below 2 ^ 62 throws nothing: it hits the resident page,
  -- joins the load in flight (by waiting, or by a bypass), bypasses the pool, or starts to load the
  -- page into a frame that nobody had pinned. The pool stays valid on every branch.
  pub attempt-Attempted :
      IsValid p
      → page < 2 ^ 62
      → Attempted p page access wait_for_inflight coalesced
          (attempt page access wait_for_inflight coalesced p)
  unfolding attempt
  attempt-Attempted v small = elim (Option-cases (lookup page p.resident)) [
    | inr (e, found) ↦
        let (runs, valid) = reserve_hit-ok p page e access coalesced v found in
        hits e found
          (attempt-hit e found ∙ bind_ok (reserve_hit page e access coalesced) finish runs) valid
    | inl absent ↦ elim (Option-cases (lookup page p.loading)) [
      | inl idle ↦
          missed (attempt-miss absent idle)
            (reserve_miss-Missed p page access coalesced v small absent idle)
      | inr (f, flying) ↦
          joins f joined flying (rw (absent, attempt) (rw flying)) (same_owners p none _ _ _ v)
            (record {
              same_resident = refl;
              same_loading = refl;
              same_frames = refl;
              same_free = refl;
              same_lru = refl;
              same_capacity = refl;
            })
    ]
  ]
    where
      joined : Pool
      joined = count_stat (λ s. record s { coalesced_misses = bump s.coalesced_misses }) p
