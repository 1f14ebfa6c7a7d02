-- ===== src/Lru/Capacity.antt =====
-- Making, clearing and resizing a pool, and the pools of the chunk sizes.
use skip_cell.Common.{
  ℕ, ◌+◌, ◌*◌, ◌%◌, Bool, true, false, not, List, [], ◌∷◌, Option, none, some, ◌==◌, if◌then◌else◌,
  throws, ok, logic_error, invalid_argument, indices,
}
use skip_cell.Common.Calls.{Call, ◌>>=◌, ◌>>◌, pure, raise, get, modify, when}
use skip_cell.Chunk.{
  Chunk, ChunkType, chunk_4kb, chunk_64kb, chunk_512kb, chunk_2mb, chunk_size, free,
  set_chunk_state, word,
}
use skip_cell.Lru.Types.{Entry, Pool, no_stats, on_frame}

-- The frames of a fresh buffer pool are an argument: `frames i` is the control body of chunk `i`.
unfoldable pub new : ℕ → ChunkType → (ℕ → Chunk) → Pool
new capacity type frames = record {
  capacity_pages = capacity;
  chunk_type = type;
  frames = frames;
  free_frames = indices capacity;
  resident = [];
  loading = [];
  lru = [];
  prefetched_unused_count = 0;
  prefetch_admission_credit = true;
  stats = no_stats;
}

-- The loop of `clear`: an entry that is pinned stops it.
unfoldable pub free_each : List (ℕ × Entry) → Call Pool (Unit {0})
free_each [] = pure tt
free_each ((page, e) ∷ entries) = do
  pins ← get (λ p. (p.frames e.frame).pin_count)
  when (not (pins == 0)) (raise logic_error)
  modify (on_frame e.frame (set_chunk_state free))
  free_each entries

unfoldable pub emptied : Pool → Pool
emptied p = record p {
  resident = [];
  lru = [];
  free_frames = indices p.capacity_pages;
  prefetched_unused_count = 0;
  prefetch_admission_credit = true;
  stats = no_stats;
}

unfoldable pub clear : Call Pool (Unit {0})
unfolding emptied
clear p = elim p.loading [
  | _ ∷ _ ↦ (p, throws logic_error)
  | [] ↦ (do free_each p.resident; modify emptied) p
]

-- Is every frame of these entries unpinned?
unfoldable pub none_pinned : Pool → List (ℕ × Entry) → Bool
none_pinned p [] = true
none_pinned p ((page, e) ∷ entries) =
    if (p.frames e.frame).pin_count == 0 then none_pinned p entries else false

unfoldable pub reset_capacity : ℕ → (ℕ → Chunk) → Call Pool (Unit {0})
unfolding none_pinned new
reset_capacity capacity frames p =
    if capacity == 0 then (p, throws invalid_argument) else elim p.loading [
      | _ ∷ _ ↦ (p, throws logic_error)
      | [] ↦
          if none_pinned p p.resident
          then (new capacity p.chunk_type frames, ok tt)
          else (p, throws logic_error)
    ]

-- `resident_bytes` of one pool.
unfoldable pub resident_bytes : Pool → ℕ
resident_bytes p = p.capacity_pages * chunk_size p.chunk_type % word

-- `io_size_specific_lru_t`: a pool for each chunk size with a capacity.
abbrev pub Classes : Type 0
Classes = ChunkType → Option Pool

unfoldable pub classes : (ChunkType → ℕ) → (ChunkType → ℕ → Chunk) → Classes
unfolding new
classes capacities frames type =
    if capacities type == 0 then none else some (new (capacities type) type (frames type))

abbrev pub all_types : List ChunkType
all_types = chunk_4kb ∷ chunk_64kb ∷ chunk_512kb ∷ chunk_2mb ∷ []

unfoldable pub classes_bytes : Classes → List ChunkType → ℕ → ℕ
unfolding resident_bytes
classes_bytes pools [] bytes = bytes
classes_bytes pools (type ∷ types) bytes =
    classes_bytes pools types
      (elim (pools type) [ none ↦ bytes | some p ↦ (bytes + resident_bytes p) % word ])
