-- ===== src/Lru/Ownership/Returns.antt =====
-- `publish` on a valid pool.
use skip_cell.Common.{
  ℕ, ◌+◌, ◌-◌, ◌%◌, ◌≡◌, refl, ◌∙◌, inl, inr, ◌≢◌, Bool, true, false, [], ◌∷◌, ◌++◌, none, some,
  ◌==◌, if◌then◌else◌, lookup, erase, lookup-emplace, lookup-erase_ne, arith, Result, ok, throws,
  logic_error, Option-cases, Bool-cases, key_count-erase, none_of_key_count,
}
use skip_cell.Chunk.{word, free, resident, set_chunk_state, dec_pin_count}
use skip_cell.Lru.Types.{Access, is_prefetch, bump, Reservation, Pool}
use skip_cell.Lru.Publish.{loaded_frame, expose, roll_back, settled, publish_frame, publish}
use skip_cell.Lru.Ownership.{IsValid}
use skip_cell.Lru.Ownership.Change.{unload, expose-IsValid, roll_back-IsValid}

-- A page that loads is not resident, and its load ends once.
loads_once :
    (p : Pool) (page f : ℕ)
    → IsValid p
    → lookup page p.loading ≡ some f
    → (lookup page p.resident ≡ none) × (lookup page (erase page p.loading) ≡ none)
loads_once p page f v h =
    let fewer = key_count-erase page f page p.loading h in
    (
      none_of_key_count page p.resident (ground (arith, v.single page, fewer)),
      none_of_key_count page (erase page p.loading) (ground (arith, v.single page, fewer)),
    )

settled-IsValid :
    (p : Pool) (page f : ℕ) (access : Access) (success : Bool)
    → IsValid p
    → lookup page p.loading ≡ some f
    → IsValid (settled page f access success p)
unfolding settled
settled-IsValid p page f access true v h =
    let (absent, over) = loads_once p page f v h in
    expose-IsValid (record p { loading = erase page p.loading }) page f access (unload p page f v h)
      absent over
settled-IsValid p page f access false v h =
    roll_back-IsValid (record p { loading = erase page p.loading }) f (unload p page f v h)

-- What a load that ended leaves: its page loads no more, and nothing has changed about the other
-- pages and frames.
pub record Ended (p : Pool) (page f : ℕ) (q : Pool) : Type 0 where
  pub over : lookup page q.loading ≡ none
  pub other_loads : (other : ℕ) → other ≢ page → lookup other q.loading ≡ lookup other p.loading
  pub other_pages : (other : ℕ) → other ≢ page → lookup other q.resident ≡ lookup other p.resident
  pub other_frames : (g : ℕ) → g ≢ f → q.frames g ≡ p.frames g

-- The page of a load that succeeded is resident in its frame, at the front of `lru_` if it was demanded
-- and at its back if it was prefetched; the frame keeps its pins and no free frame is touched.
pub record Exposed (p : Pool) (page f : ℕ) (access : Access) (q : Pool) : Type 0 where
  pub resident_in :
      lookup page q.resident ≡ some (record { frame = f; prefetched_unused = is_prefetch access })
  pub listed : q.lru ≡ (if is_prefetch access then p.lru ++ (page ∷ []) else page ∷ p.lru)
  pub marked : (q.frames f).state ≡ resident
  pub pinned : (q.frames f).pin_count ≡ (p.frames f).pin_count
  pub free_kept : q.free_frames ≡ p.free_frames
  pub failures_kept : q.stats ≡ p.stats

-- The frame of a load that failed is free and on top of the free frames; its page is not resident, and
-- the failure is counted.
pub record RolledBack (p : Pool) (page f : ℕ) (q : Pool) : Type 0 where
  pub absent : lookup page q.resident ≡ none
  pub listed : q.lru ≡ p.lru
  pub marked : (q.frames f).state ≡ free
  pub unpinned : (q.frames f).pin_count ≡ ((p.frames f).pin_count + word - 1) % word
  pub given_back : q.free_frames ≡ f ∷ p.free_frames
  pub failures : q.stats.failed_loads ≡ bump p.stats.failed_loads

abbrev pub Outcome : Pool → ℕ → ℕ → Access → Bool → Pool → Type 0
Outcome p page f access true q = Exposed p page f access q
Outcome p page f access false q = RolledBack p page f q

-- The outcomes of publishing a reservation.
pub data Published (p : Pool) (r : Reservation) (success : Bool) (out : Pool × Result (Unit {0}))
    : Type 0 where
  ignores : loaded_frame r ≡ none → out ≡ (p, ok tt) → Published p r success out
  rejects :
      (f : ℕ)
      → loaded_frame r ≡ some f
      → lookup r.page_id p.loading ≢ some f
      → out ≡ (p, throws logic_error)
      → Published p r success out
  settles :
      (f : ℕ)
      → loaded_frame r ≡ some f
      → lookup r.page_id p.loading ≡ some f
      → (q : Pool) → out ≡ (q, ok tt)
      → Ended p r.page_id f q
      → Outcome p r.page_id f r.access success q
      → IsValid q
      → Published p r success out

settled-Ended :
    (p : Pool) (page f : ℕ) (access : Access) (success : Bool)
    → IsValid p
    → lookup page p.loading ≡ some f
    → Ended p page f (settled page f access success p)
unfolding settled expose roll_back
settled-Ended p page f access true v h =
    let (absent, over) = loads_once p page f v h in
    record {
      over = over;
      other_loads = λ other ne. lookup-erase_ne page other p.loading ne;
      other_pages = λ other ne. lookup-emplace page other _ p.resident absent ∙ ground arith;
      other_frames = λ g ne. ground arith;
    }
settled-Ended p page f access false v h =
    let (absent, over) = loads_once p page f v h in
    record {
      over = over;
      other_loads = λ other ne. lookup-erase_ne page other p.loading ne;
      other_pages = λ other ne. refl;
      other_frames = λ g ne. ground arith;
    }

settled-Outcome :
    (p : Pool) (page f : ℕ) (access : Access) (success : Bool)
    → IsValid p
    → lookup page p.loading ≡ some f
    → Outcome p page f access success (settled page f access success p)
unfolding settled expose roll_back set_chunk_state dec_pin_count
settled-Outcome p page f access true v h =
    let (absent, over) = loads_once p page f v h in
    record {
      resident_in = lookup-emplace page page _ p.resident absent ∙ ground arith;
      listed = refl;
      marked = ground arith;
      pinned = ground arith;
      free_kept = refl;
      failures_kept = refl;
    }
settled-Outcome p page f access false v h =
    let (absent, over) = loads_once p page f v h in
    record {
      absent = absent;
      listed = refl;
      marked = ground arith;
      unpinned = ground arith;
      given_back = refl;
      failures = refl;
    }

publish_frame-ok :
    (p : Pool) (page f : ℕ) (access : Access) (success : Bool)
    → lookup page p.loading ≡ some f
    → publish_frame page f access success p ≡ (settled page f access success p, ok tt)
unfolding publish_frame
publish_frame-ok p page f access success h = ground arith

publish_frame-throws :
    (p : Pool) (page f : ℕ) (access : Access) (success : Bool)
    → lookup page p.loading ≢ some f
    → publish_frame page f access success p ≡ (p, throws logic_error)
unfolding publish_frame
publish_frame-throws p page f access success h = ground arith

-- Publishing on a valid pool: anything but a load changes nothing; a load that is not in flight in
-- that frame is a logic error and changes nothing; a load in flight ends and leaves the other pages
-- alone: one that succeeded with its page resident in its frame, at the front of `lru_` if it was
-- demanded and at the back if it was prefetched, one that failed with its page not resident, its frame
-- on top of the free frames and the failure counted. The pool stays valid.
pub publish-Published :
    (p : Pool) (r : Reservation) (success : Bool)
    → IsValid p
    → Published p r success (publish r success p)
unfolding publish
publish-Published p r success v = elim (Option-cases (loaded_frame r)) [
  | inl e ↦ ignores e (rw (e, publish))
  | inr (f, e) ↦ elim (Option-cases (lookup r.page_id p.loading)) [
    | inl idle ↦
        let away : lookup r.page_id p.loading ≢ some f = ground arith in
        rejects f e away
          (rw (e, publish) (publish_frame-throws p r.page_id f r.access success away))
    | inr (g, flying) ↦ elim (Bool-cases (g == f)) [
      | inl same ↦
          let here : lookup r.page_id p.loading ≡ some f = ground arith in
          settles f e here (settled r.page_id f r.access success p)
            (rw (e, publish) (publish_frame-ok p r.page_id f r.access success here))
            (settled-Ended p r.page_id f r.access success v here)
            (settled-Outcome p r.page_id f r.access success v here)
            (settled-IsValid p r.page_id f r.access success v here)
      | inr other ↦
          let away : lookup r.page_id p.loading ≢ some f = ground arith in
          rejects f e away
            (rw (e, publish) (publish_frame-throws p r.page_id f r.access success away))
    ]
  ]
]
