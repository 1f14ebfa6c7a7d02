-- ===== src/Buffers.antt =====
-- src/chunk_buf_pool.cc: one level of the chunk buffer pool, a region of control bodies and frames.
-- The size of a control body and the address that the allocation returns are arguments. Addresses do
-- not wrap. The vector `free_slots_` is a list whose head is the back.
pub mod Slots
pub mod Stack
pub mod Init
mod Tests
use skip_cell.Common.{
  ℕ, zero, suc, ◌+◌, ◌-◌, ◌*◌, ◌/◌, ◌%◌, Bool, true, false, not, ◌||◌, List, [], ◌∷◌, Option, none,
  some, ltb, leb, ◌==◌, if◌then◌else◌, update, Result, ok, throws, invalid_argument,
}
use skip_cell.Common.Calls.{Call, ◌>>=◌, ◌>>◌, pure, raise, get, modify, lift}
use skip_cell.Chunk.{
  Chunk, ChunkType, chunk_4kb, ChunkState, free, resident, Memory, chunk_size, make_chunk_id,
  unbound, bind, zero_bytes, reset_memory, set_chunk_state, set_referenced, get_chunk_no, word,
}

-- `memory` and `frames` are addresses; `chunks_` is `memory` too.
pub record Level : Type 0 where
  pub type : ChunkType
  pub memory : Option ℕ
  pub frames : Option ℕ
  pub chunks : ℕ → Chunk
  pub chunk_count : ℕ
  pub chunk_bytes : ℕ
  pub control_bytes : ℕ
  pub data_offset : ℕ
  pub total_bytes : ℕ
  pub free_slots : List ℕ
  pub bytes : Memory

abbrev pub align_up : ℕ → ℕ → ℕ
align_up value alignment = (value + alignment + word - 1) % word / alignment * alignment % word

-- The type stays; so do the bytes, which nothing of the level reaches any more.
unfoldable pub destroy : Level → Level
destroy l = record l {
  memory = none;
  frames = none;
  chunks = λ _. unbound;
  chunk_count = 0;
  chunk_bytes = 0;
  control_bytes = 0;
  data_offset = 0;
  total_bytes = 0;
  free_slots = [];
}

-- The control bodies from `i` on.
unfoldable pub init_each : ℕ → ℕ → ℕ → Call Level (Unit {0})
init_each zero i frames = pure tt
init_each (suc n) i frames = do
  type ← get (λ l. l.type)
  size ← get (λ l. l.chunk_bytes)
  id ← lift (make_chunk_id type i)
  modify
      (λ l. record l { chunks = update l.chunks i (bind id type (some (frames + i * size)) size) })
  init_each n (i + 1) frames

-- The indices below `n`, pushed from the last to the first.
unfoldable pub push_each : ℕ → List ℕ → List ℕ
push_each zero slots = slots
push_each (suc i) slots = push_each i (i ∷ slots)

-- The level with its memory and the frames zeroed, before the control bodies are made.
unfoldable pub reserved : ℕ → ℕ → ChunkType → ℕ → Level → Level
reserved control_size base type count l =
    let control = control_size * count % word in
    let offset = align_up control 4096 in
    record l {
      type = type;
      memory = some base;
      frames = some (base + offset);
      chunk_count = count;
      chunk_bytes = chunk_size type;
      control_bytes = control;
      data_offset = offset;
      total_bytes = (offset + chunk_size type * count % word) % word;
      bytes = zero_bytes l.bytes (base + offset) (chunk_size type * count % word);
    }

unfoldable pub init : ℕ → ℕ → ChunkType → ℕ → Call Level (Unit {0})
unfolding destroy init_each push_each reserved
init control_size base type count = do
  modify destroy
  if count == 0
      then modify (λ l. record l { type = type; chunk_count = 0; chunk_bytes = chunk_size type })
      else (do
        modify (reserved control_size base type count)
        init_each count 0 (base + align_up (control_size * count % word) 4096)
        modify (λ l. record l { free_slots = push_each count [] }))

-- A pointer to a control body: null, one of this level, or one of somewhere else.
pub data Handle : Type 0 where
  null : Handle
  slot : ℕ → Handle
  foreign : Chunk → Handle

pub get_chunk : ℕ → Level → Handle
get_chunk index l = if leb l.chunk_count index then null else slot index

pub get_data_frame : ℕ → Level → Option ℕ
get_data_frame index l =
    if leb l.chunk_count index
    then none
    else elim l.frames [ none ↦ none | some base ↦ some (base + index * l.chunk_bytes) ]

abbrev pub is_free : ChunkState → Bool
is_free free = true
is_free _ = false

-- The frame is zeroed, and the control body changed on top.
unfoldable pub reset_slot : ℕ → (Chunk → Chunk) → Level → Level
reset_slot i change l =
    let (bytes, c) = reset_memory l.bytes (l.chunks i) in
    record l { bytes = bytes; chunks = update l.chunks i (change c) }

unfoldable pub allocate_chunk : Call Level Handle
unfolding reset_slot
allocate_chunk l = elim l.free_slots [
  | [] ↦ (l, ok null)
  | i ∷ rest ↦ (
    reset_slot i (λ c. set_referenced true (set_chunk_state resident c))
        (record l { free_slots = rest }),
    ok (slot i),
  )
]

-- The slot goes back on the stack.
unfoldable pub released : ℕ → Level → Level
unfolding reset_slot
released i l =
    let m = reset_slot i (set_chunk_state free) l in record m { free_slots = i ∷ m.free_slots }

unfoldable pub release_slot : ℕ → Call Level (Unit {0})
release_slot i l =
    if is_free (l.chunks i).state
    then (l, ok tt)
    else if leb l.chunk_count (get_chunk_no (l.chunks i)) || not (get_chunk_no (l.chunks i) == i)
    then (l, throws invalid_argument)
    else (released i l, ok tt)

unfoldable pub release_chunk : Handle → Call Level (Unit {0})
release_chunk null l = (l, ok tt)
release_chunk (slot i) l = release_slot i l
release_chunk (foreign c) l = (l, if is_free c.state then ok tt else throws invalid_argument)
