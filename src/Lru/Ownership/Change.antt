-- ===== src/Lru/Ownership/Change.antt =====
-- How the parts of a call move the ownership of a frame.
use skip_cell.Common.{
  ℕ, ◌-◌, ◌<◌, ◌≡◌, List, ◌∷◌, Option, none, some, ◌==◌, if◌then◌else◌, count, key_count, lookup,
  erase, arith, count-cons, count-remove_last, tally-erase, key_count-erase, length-erase,
  key_count_of_none, tally-cons, key_count-cons, emplace, emplace_new, tally-le-length, count-snoc,
  Bool, ok,
}
use skip_cell.Chunk.{Chunk}
use skip_cell.Lru.Types.{Stats, Entry, Pool, Access, is_prefetch, bump}
use skip_cell.Lru.Victim.{forget, drop_unused, evict}
use skip_cell.Lru.Publish.{expose, roll_back}
use skip_cell.Lru.Ownership.{IsHolding, IsValid}

pub take_free :
    (p : Pool) (f : ℕ) (rest : List ℕ)
    → IsValid p
    → p.free_frames ≡ f ∷ rest
    → IsHolding (some f) (record p { free_frames = rest })
take_free p f rest v e = record {
  small = v.small;
  total = ground (arith, v.total);
  owned = λ g. ground (arith, v.owned g, count-cons g f rest);
  listed = v.listed;
  single = v.single;
  counted = v.counted;
}

-- A resident page is on `lru_`, loads nowhere, and is in the dictionary once.
pub resident_once :
    (p : Pool) (hand : Option ℕ) (page : ℕ) (e : Entry)
    → IsHolding hand p
    → lookup page p.resident ≡ some e
    → (0 < count page p.lru) × (key_count page p.resident ≡ 1) × (key_count page p.loading ≡ 0)
resident_once p hand page e v h =
    ground (arith, key_count-erase page e page p.resident h, v.single page, v.listed page)

-- The pool after an eviction.
abbrev pub evicted : ℕ → Entry → Pool → Pool
evicted page e p = forget page (
    if e.prefetched_unused
    then record p {
      prefetched_unused_count = p.prefetched_unused_count - 1;
      stats = record p.stats {
        prefetch_pollution_evictions = bump p.stats.prefetch_pollution_evictions;
      };
    }
    else p)

-- An eviction never finds the count of unused prefetches at zero, and hands the frame over.
pub evict-ok :
    (p : Pool) (page : ℕ) (e : Entry)
    → IsValid p
    → lookup page p.resident ≡ some e
    → (evict page e p ≡ (evicted page e p, ok (some e.frame)))
      × IsHolding (some e.frame) (evicted page e p)
unfolding evict drop_unused forget
evict-ok p page e v h =
    let once = resident_once p none page e v h in
    let drop = tally-erase page e (λ x. x.prefetched_unused) p.resident h in
    (
      ground (arith, v.counted, drop),
      record {
        small = ground (arith, v.small);
        total = ground (arith, v.total, length-erase page e p.resident h);
        owned = λ f. ground (arith, v.owned f, tally-erase page e (λ x. x.frame == f) p.resident h);
        listed = λ q. ground (
          arith,
          v.listed q,
          count-remove_last q page p.lru once.0,
          key_count-erase page e q p.resident h,
        );
        single = λ q. ground (arith, v.single q, key_count-erase page e q p.resident h);
        counted = ground (arith, v.counted, drop);
      },
    )

-- Control bodies, counters and the admission credit have no part in ownership.
pub same_owners :
    (p : Pool) (hand : Option ℕ) (frames : ℕ → Chunk) (credit : Bool) (stats : Stats)
    → IsHolding hand p
    → IsHolding hand
        (record p { frames = frames; prefetch_admission_credit = credit; stats = stats })
same_owners p hand frames credit stats v = record {
  small = v.small;
  total = v.total;
  owned = v.owned;
  listed = v.listed;
  single = v.single;
  counted = v.counted;
}

-- The frame in hand starts to load a page that is neither resident nor loading.
pub load_held :
    (p : Pool) (page f : ℕ)
    → IsHolding (some f) p
    → lookup page p.resident ≡ none
    → lookup page p.loading ≡ none
    → IsValid (record p { loading = emplace page f p.loading })
load_held p page f v absent idle = rw (emplace_new page f p.loading idle) (record {
  small = v.small;
  total = omega (arith, v.total);
  owned = λ g. ground (arith, v.owned g, tally-cons (λ h. h == g) page f p.loading);
  listed = v.listed;
  single = λ q. ground (
    arith,
    v.single q,
    key_count-cons q page f p.loading,
    key_count_of_none page p.resident absent,
    key_count_of_none page p.loading idle,
  );
  counted = v.counted;
})

-- A load that is over leaves its frame in hand.
pub unload :
    (p : Pool) (page f : ℕ)
    → IsValid p
    → lookup page p.loading ≡ some f
    → IsHolding (some f) (record p { loading = erase page p.loading })
unload p page f v h = record {
  small = v.small;
  total = omega (arith, v.total, length-erase page f p.loading h);
  owned = λ g. ground (arith, v.owned g, tally-erase page f (λ x. x == g) p.loading h);
  listed = v.listed;
  single = λ q. omega (arith, v.single q, key_count-erase page f q p.loading h);
  counted = v.counted;
}

-- The frame in hand becomes a resident page.
pub expose-IsValid :
    (p : Pool) (page f : ℕ) (access : Access)
    → IsHolding (some f) p
    → lookup page p.resident ≡ none
    → lookup page p.loading ≡ none
    → IsValid (expose page f access p)
unfolding expose
expose-IsValid p page f access v absent idle =
    let entry : Entry = record { frame = f; prefetched_unused = is_prefetch access } in
    rw (emplace_new page entry p.resident absent) (record {
      small = v.small;
      total = ground (arith, v.total);
      owned = λ g. ground (arith, v.owned g, tally-cons (λ e. e.frame == g) page entry p.resident);
      listed = λ q. ground (
        arith,
        v.listed q,
        key_count-cons q page entry p.resident,
        count-snoc q page p.lru,
        count-cons q page p.lru,
      );
      single = λ q. ground (
        arith,
        v.single q,
        key_count-cons q page entry p.resident,
        key_count_of_none page p.resident absent,
        key_count_of_none page p.loading idle,
      );
      counted = ground (
        arith,
        v.counted,
        v.small,
        v.total,
        tally-cons (λ e. e.prefetched_unused) page entry p.resident,
        tally-le-length (λ e. e.prefetched_unused) p.resident,
      );
    })

-- The frame in hand goes back to the free list.
pub roll_back-IsValid : (p : Pool) (f : ℕ) → IsHolding (some f) p → IsValid (roll_back f p)
unfolding roll_back
roll_back-IsValid p f v = record {
  small = v.small;
  total = ground (arith, v.total);
  owned = λ g. ground (arith, v.owned g, count-cons g f p.free_frames);
  listed = v.listed;
  single = v.single;
  counted = v.counted;
}
