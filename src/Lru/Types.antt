-- ===== src/Lru/Types.antt =====
-- The state of `io_lru_buffer_pool_t`, its reservations and its counters.
use skip_cell.Common.{ℕ, Bool, true, false, List, Option, none, ◌+◌, ◌%◌, update}
use skip_cell.Chunk.{Chunk, ChunkType, word}

pub data ReservationState : Type 0 where
  hit load bypass : ReservationState

pub data Access : Type 0 where
  demand prefetch gateway_prefetch : Access

abbrev pub is_prefetch : Access → Bool
is_prefetch demand = false
is_prefetch prefetch = true
is_prefetch gateway_prefetch = true

abbrev pub is_demand : Access → Bool
is_demand demand = true
is_demand prefetch = false
is_demand gateway_prefetch = false

-- `content` is the address of the frame's bytes.
pub record Reservation : Type 0 where
  pub state : ReservationState
  pub page_id : ℕ
  pub frame : Option ℕ
  pub content : Option ℕ
  pub coalesced : Bool
  pub evicted : Bool
  pub access : Access
  pub prefetched_hit : Bool

abbrev pub bypassed : ℕ → Bool → Access → Reservation
bypassed page coalesced access = record {
  state = bypass;
  page_id = page;
  frame = none;
  content = none;
  coalesced = coalesced;
  evicted = false;
  access = access;
  prefetched_hit = false;
}

pub record Stats : Type 0 where
  pub demand_hits : ℕ
  pub prefetch_hits : ℕ
  pub prefetch_misses : ℕ
  pub prefetch_used : ℕ
  pub prefetch_pollution_evictions : ℕ
  pub prefetch_admission_rejections : ℕ
  pub prefetch_demand_evictions : ℕ
  pub misses : ℕ
  pub coalesced_misses : ℕ
  pub evictions : ℕ
  pub pinned_victim_failures : ℕ
  pub failed_loads : ℕ

abbrev pub no_stats : Stats
no_stats = record {
  demand_hits = 0;
  prefetch_hits = 0;
  prefetch_misses = 0;
  prefetch_used = 0;
  prefetch_pollution_evictions = 0;
  prefetch_admission_rejections = 0;
  prefetch_demand_evictions = 0;
  misses = 0;
  coalesced_misses = 0;
  evictions = 0;
  pinned_victim_failures = 0;
  failed_loads = 0;
}

-- `++` on a 64-bit counter.
abbrev pub bump : ℕ → ℕ
bump n = (n + 1) % word

-- `resident_entry_t`; its iterator into `lru_` is the key that the entry stands under.
pub record Entry : Type 0 where
  pub frame : ℕ
  pub prefetched_unused : Bool

pub record Pool : Type 0 where
  pub capacity_pages : ℕ
  pub chunk_type : ChunkType
  pub frames : ℕ → Chunk
  pub free_frames : List ℕ
  pub resident : List (ℕ × Entry)
  pub loading : List (ℕ × ℕ)
  pub lru : List ℕ
  pub prefetched_unused_count : ℕ
  pub prefetch_admission_credit : Bool
  pub stats : Stats

-- A change of one frame's control body.
abbrev pub on_frame : ℕ → (Chunk → Chunk) → Pool → Pool
on_frame f change p = record p { frames = update p.frames f (change (p.frames f)) }

abbrev pub count_stat : (Stats → Stats) → Pool → Pool
count_stat change p = record p { stats = change p.stats }
