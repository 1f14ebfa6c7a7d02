-- ===== src/Lru/Ownership/Loads.antt =====
-- What a miss comes to: a page that starts to load, or a bypass.
use skip_cell.Common.{
  ℕ, ◌+◌, ◌*◌, ◌^◌, ◌<◌, ◌≡◌, refl, ap, ◌∙◌, ◌⊎◌, inl, inr, ◌≢◌, Bool, false, ◌∷◌, none, some, ◌==◌,
  count, lookup, emplace, emplace_new, arith, Result, ok, Bool-cases, update,
}
use skip_cell.Common.Calls.{◌>>=◌, bind_ok}
use skip_cell.Chunk.{
  Chunk, chunk_index, free, make_chunk_id, inc_pin_count, set_chunk_id, set_chunk_state,
}
use skip_cell.Lru.Types.{Access, Reservation, load, bypassed, Entry, Pool, on_frame}
use skip_cell.Lru.Reserve.{
  count_miss, count_failure, start_load, load_into, take_frame, reserve_miss,
}
use skip_cell.Lru.Ownership.{IsValid}
use skip_cell.Lru.Ownership.Change.{same_owners, load_held}
use skip_cell.Lru.Ownership.Misses.{Taken, Frames, take_frame-Frames}

-- The control body of a frame that a page is loaded into.
abbrev pub loading_body : Pool → ℕ → Chunk → Chunk
loading_body p page c =
    inc_pin_count (set_chunk_state free (set_chunk_id (chunk_index p.chunk_type * 2 ^ 62 + page) c))

abbrev pub load_of : ℕ → ℕ → Access → Bool → Bool → Pool → Reservation
load_of page f access coalesced evicted p = record {
  state = load;
  page_id = page;
  frame = some f;
  content = (p.frames f).content;
  coalesced = coalesced;
  evicted = evicted;
  access = access;
  prefetched_hit = false;
}

-- The page loads into the frame `f`, which nobody had pinned; its control body alone is rewritten,
-- pinned pages stay resident, and the pool is valid.
pub record Loads (p : Pool) (page f : ℕ) (q : Pool) : Type 0 where
  pub valid : IsValid q
  pub entered : q.loading ≡ (page, f) ∷ p.loading
  pub bodies : q.frames ≡ update p.frames f (loading_body p page (p.frames f))
  pub capacity : q.capacity_pages ≡ p.capacity_pages
  pub missing : (other : ℕ) → lookup other p.resident ≡ none → lookup other q.resident ≡ none
  pub kept :
      (other : ℕ) (e : Entry)
      → lookup other p.resident ≡ some e
      → (p.frames e.frame).pin_count ≢ 0
      → lookup other q.resident ≡ some e
  pub idle : (0 < count f p.free_frames) ⊎ ((p.frames f).pin_count ≡ 0)

-- Only counters differ.
pub record OnlyCounts (p q : Pool) : Type 0 where
  pub same_resident : q.resident ≡ p.resident
  pub same_loading : q.loading ≡ p.loading
  pub same_frames : q.frames ≡ p.frames
  pub same_free : q.free_frames ≡ p.free_frames
  pub same_lru : q.lru ≡ p.lru
  pub same_capacity : q.capacity_pages ≡ p.capacity_pages

abbrev loaded : ℕ → ℕ → Pool → Pool
loaded page f q =
    let r = on_frame f (loading_body q page) q in record r { loading = emplace page f r.loading }

start_load-runs :
    (q : Pool) (page f : ℕ) (access : Access) (coalesced evicted : Bool)
    → page < 2 ^ 62
    → start_load page access coalesced f evicted q
      ≡ (loaded page f q, ok (load_of page f access coalesced evicted q))
unfolding start_load make_chunk_id inc_pin_count set_chunk_state set_chunk_id
start_load-runs q page f access coalesced evicted h = ground arith

Taken-Loads :
    (p : Pool) (page f : ℕ) (q : Pool)
    → Taken p f q
    → lookup page p.resident ≡ none
    → lookup page p.loading ≡ none
    → Loads p page f (loaded page f q)
Taken-Loads p page f q t absent idle =
    let quiet : lookup page q.loading ≡ none = rw t.loading idle in
    record {
      valid =
          load_held (on_frame f (loading_body q page) q) page f
            (same_owners q (some f) _ _ _ t.holding) (t.missing page absent) quiet;
      entered = emplace_new page f q.loading quiet ∙ ap (◌∷◌ (page, f)) t.loading;
      bodies = rw (t.frames, t.typed);
      capacity = t.capacity;
      missing = t.missing;
      kept = t.kept;
      idle = t.origin;
    }

-- The outcomes of a miss.
abbrev pub Missed : Pool → ℕ → Access → Bool → Pool × Result Reservation → Type 0
Missed p page access coalesced out =
    ((q : Pool) × (out ≡ (q, ok (bypassed page coalesced access))) × IsValid q × OnlyCounts p q)
    ⊎ ((f : ℕ) × (evicted : Bool) × (q : Pool) × (out
          ≡ (q, ok (load_of page f access coalesced evicted p)))
        × Loads p page f q)

-- The counter of misses has no part in a load.
Loads-recounted :
    (p : Pool) (page f : ℕ) (q : Pool) (access : Access)
    → Loads (count_miss access p) page f q
    → Loads p page f q
unfolding count_miss
Loads-recounted p page f q access l = record {
  valid = l.valid;
  entered = l.entered;
  bodies = l.bodies;
  capacity = l.capacity;
  missing = l.missing;
  kept = l.kept;
  idle = l.idle;
}

pub reserve_miss-Missed :
    (p : Pool) (page : ℕ) (access : Access) (coalesced : Bool)
    → IsValid p
    → page < 2 ^ 62
    → lookup page p.resident ≡ none
    → lookup page p.loading ≡ none
    → Missed p page access coalesced (reserve_miss page access coalesced p)
unfolding reserve_miss count_miss count_failure
reserve_miss-Missed p page access coalesced v small absent idle =
    elim (Bool-cases (p.capacity_pages == 0)) [
      | inl empty ↦ inl (counted, rw empty, valid, same)
      | inr some_pages ↦ rw some_pages (by_frames (take_frame-Frames counted access valid))
    ]
  where
    counted : Pool
    counted = count_miss access p

    valid : IsValid counted
    valid = same_owners p none _ _ _ v

    same : OnlyCounts p counted
    same = record {
      same_resident = refl;
      same_loading = refl;
      same_frames = refl;
      same_free = refl;
      same_lru = refl;
      same_capacity = refl;
    }

    failed : Pool
    failed = count_failure access counted

    by_frames :
        Frames counted (take_frame access counted)
        → Missed p page access coalesced
            ((take_frame access >>= load_into page access coalesced) counted)
    by_frames (inl e) = inl (
      failed,
      bind_ok (take_frame access) (load_into page access coalesced) e,
      same_owners counted none _ _ _ valid,
      record {
        same_resident = refl;
        same_loading = refl;
        same_frames = refl;
        same_free = refl;
        same_lru = refl;
        same_capacity = refl;
      },
    )
    by_frames (inr (f, evicted, q, e, taken)) = inr (
      f,
      evicted,
      loaded page f q,
      bind_ok (take_frame access) (load_into page access coalesced) e
          ∙ start_load-runs q page f access coalesced evicted small
          ∙ ap
              (λ fr. (
                loaded page f q,
                ok (load_of page f access coalesced evicted (record p { frames = fr })),
              ))
              taken.frames,
      Loads-recounted p page f (loaded page f q) access
          (Taken-Loads counted page f q taken absent idle),
    )
