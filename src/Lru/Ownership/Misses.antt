-- ===== src/Lru/Ownership/Misses.antt =====
-- Where a miss takes its frame from, and what that leaves alone.
use skip_cell.Common.{
  ℕ, ◌<◌, ◌≡◌, refl, sym, subst, ◌∙◌, ◌⊎◌, inl, inr, ◌≢◌, Bool, true, false, List, [], ◌∷◌, Option,
  none, some, ◌==◌, if◌then◌else◌, count, count-cons, lookup, lookup-erase_ne, arith, Result, ok,
  Bool-cases,
}
use skip_cell.Lru.Types.{Access, demand, prefetch, gateway_prefetch, Stats, Entry, Pool}
use skip_cell.Lru.Victim.{may_go, forget, select_victim}
use skip_cell.Common.Calls.{Call, ◌>>=◌, bind_ok}
use skip_cell.Lru.Reserve.{
  or_else, otherwise, charge_found, with_eviction, victim_for, take_unused, may_evict_demand,
  charge, take_any, prefetch_victim, take_frame,
}
use skip_cell.Lru.Ownership.{IsHolding, IsValid}
use skip_cell.Lru.Ownership.Change.{take_free, evicted, same_owners}
use skip_cell.Lru.Ownership.Victim.{Selected, select_victim-Selected}

-- The frame `f` is in hand, and was free or held by a page that nobody had pinned. Pages that are
-- pinned stay where they are, and no page becomes resident.
pub record Taken (p : Pool) (f : ℕ) (q : Pool) : Type 0 where
  pub holding : IsHolding (some f) q
  pub frames : q.frames ≡ p.frames
  pub loading : q.loading ≡ p.loading
  pub capacity : q.capacity_pages ≡ p.capacity_pages
  pub typed : q.chunk_type ≡ p.chunk_type
  pub missing : (page : ℕ) → lookup page p.resident ≡ none → lookup page q.resident ≡ none
  pub kept :
      (page : ℕ) (e : Entry)
      → lookup page p.resident ≡ some e
      → (p.frames e.frame).pin_count ≢ 0
      → lookup page q.resident ≡ some e
  pub origin : (0 < count f p.free_frames) ⊎ ((p.frames f).pin_count ≡ 0)

-- The outcomes of the search for a frame: one is taken, or the pool is as it was.
abbrev pub Takes : Pool → Pool × Result (Option ℕ) → Type 0
Takes p out = (out ≡ (p, ok none)) ⊎ ((f : ℕ) × (q : Pool) × (out ≡ (q, ok (some f))) × Taken p f q)

evicted-Taken :
    (p : Pool) (page : ℕ) (e : Entry) (require : Bool)
    → lookup page p.resident ≡ some e
    → may_go p require e ≡ true
    → IsHolding (some e.frame) (evicted page e p)
    → Taken p e.frame (evicted page e p)
unfolding forget
evicted-Taken p page e require found goes holding = record {
  holding = holding;
  frames = ground arith;
  loading = ground arith;
  capacity = ground arith;
  typed = ground arith;
  missing = λ q h. ground (arith, lookup-erase_ne page q p.resident (λ s. differs q s h));
  kept =
      λ q x h pinned. ground (arith, lookup-erase_ne page q p.resident (λ s. other q x s h pinned));
  origin = inr (ground arith);
}
  where
    differs : (q : ℕ) → q ≡ page → lookup q p.resident ≡ none → ⊥
    differs q s h = cc

    other :
        (q : ℕ) (x : Entry)
        → q ≡ page
        → lookup q p.resident ≡ some x
        → (p.frames x.frame).pin_count ≢ 0
        → ⊥
    other q x s h pinned =
        let same : e ≡ x = cc in
        let idle : (p.frames e.frame).pin_count ≡ 0 = ground arith in pinned (rw (← same) idle)

select_victim-Takes : (p : Pool) (require : Bool) → IsValid p → Takes p (select_victim require p)
select_victim-Takes p require v = by_case (select_victim-Selected p require v)
  where
    by_case : Selected p require (select_victim require p) → Takes p (select_victim require p)
    by_case (inl (out, _)) = inl out
    by_case (inr (page, e, newer, older, out, _, found, goes, _, holding)) =
        inr (e.frame, evicted page e p, out, evicted-Taken p page e require found goes holding)

-- The credit and the counters do not matter.
Taken-same :
    (p : Pool) (f : ℕ) (q : Pool) (credit : Bool) (stats : Stats)
    → Taken p f q
    → Taken p f (record q { prefetch_admission_credit = credit; stats = stats })
Taken-same p f q credit stats t = record {
  holding = same_owners q (some f) q.frames credit stats t.holding;
  frames = t.frames;
  loading = t.loading;
  capacity = t.capacity;
  typed = t.typed;
  missing = t.missing;
  kept = t.kept;
  origin = t.origin;
}

or_else-Takes :
    (p : Pool) (first second : Call Pool (Option ℕ))
    → Takes p (first p)
    → Takes p (second p)
    → Takes p (or_else first second p)
unfolding or_else
or_else-Takes p first second (inl e) t =
    subst (Takes p) (sym (bind_ok first (otherwise second) e)) t
or_else-Takes p first second (inr (f, q, e, taken)) t =
    inr (f, q, bind_ok first (otherwise second) e, taken)

take_any-Takes : (p : Pool) (access : Access) → IsValid p → Takes p (take_any access p)
unfolding take_any charge
take_any-Takes p access v = by_case (select_victim-Takes p false v)
  where
    by_case : Takes p (select_victim false p) → Takes p (take_any access p)
    by_case (inl e) = inl (bind_ok (select_victim false) (charge_found access) e)
    by_case (inr (f, q, e, taken)) = inr (
      f,
      charge access q,
      bind_ok (select_victim false) (charge_found access) e,
      Taken-same p f q _ _ taken,
    )

take_unused-Takes : (p : Pool) → IsValid p → Takes p (take_unused p)
unfolding take_unused
take_unused-Takes p v = elim (Bool-cases (p.prefetched_unused_count == 0)) [
  | inl zero_left ↦ inl (rw zero_left)
  | inr some_left ↦ rw some_left (select_victim-Takes p true v)
]

prefetch_victim-Takes :
    (p : Pool) (access : Access) → IsValid p → Takes p (prefetch_victim access p)
unfolding prefetch_victim
prefetch_victim-Takes p access v =
    or_else-Takes p take_unused
      (λ q. if may_evict_demand access q then take_any access q else (q, ok none))
      (take_unused-Takes p v)
      (elim (Bool-cases (may_evict_demand access p)) [
        | inl may ↦ rw may (take_any-Takes p access v)
        | inr may_not ↦ inl (rw may_not)
      ])

-- A call that finds no frame leaves the pool as it was.
abbrev pub Frames : Pool → Pool × Result (Option ℕ × Bool) → Type 0
Frames p out =
    (out ≡ (p, ok (none, false)))
    ⊎ ((f : ℕ) × (evicted : Bool) × (q : Pool) × (out ≡ (q, ok (some f, evicted))) × Taken p f q)

evict_for-Takes : (p : Pool) (access : Access) → IsValid p → Takes p (victim_for access p)
evict_for-Takes p demand v = select_victim-Takes p false v
evict_for-Takes p prefetch v = prefetch_victim-Takes p prefetch v
evict_for-Takes p gateway_prefetch v = prefetch_victim-Takes p gateway_prefetch v

no_free :
    (p : Pool) (access : Access)
    → p.free_frames ≡ []
    → take_frame access p ≡ (victim_for access >>= with_eviction) p
unfolding take_frame
no_free p access e = ground arith

-- On a valid pool the search for a frame throws nothing.
pub take_frame-Frames : (p : Pool) (access : Access) → IsValid p → Frames p (take_frame access p)
unfolding take_frame
take_frame-Frames p access v = by_free p.free_frames refl
  where
    by_victim : p.free_frames ≡ [] → Takes p (victim_for access p) → Frames p (take_frame access p)
    by_victim none_free (inl e) =
        inl (no_free p access none_free ∙ bind_ok (victim_for access) with_eviction e)
    by_victim none_free (inr (f, q, e, taken)) = inr (
      f,
      true,
      q,
      no_free p access none_free ∙ bind_ok (victim_for access) with_eviction e,
      taken,
    )

    by_free : (fs : List ℕ) → p.free_frames ≡ fs → Frames p (take_frame access p)
    by_free [] e = by_victim e (evict_for-Takes p access v)
    by_free (f ∷ rest) e = inr (
      f,
      false,
      record p { free_frames = rest },
      rw (e, take_frame),
      record {
        holding = take_free p f rest v e;
        frames = refl;
        loading = refl;
        capacity = refl;
        typed = refl;
        missing = λ page h. h;
        kept = λ page x h pinned. h;
        origin = inl (rw e (ground (arith, count-cons f f rest)));
      },
    )
