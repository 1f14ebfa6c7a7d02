-- ===== src/Chunk.antt =====
-- include/storage/chunk.h, with the chunk types and the identifiers of
-- include/storage/storage_types.h and src/disk_manager.cc.
-- A `chunk_type_t` holds one of its four values, so the range check of `chunk_index` has no branch
-- here. Words of 64 bits are numbers below 2 ^ 64; a shift is a product or a quotient, and the `|`
-- of two fields that share no bit is a sum.
pub mod Ids
mod Tests
use skip_cell.Common.{
  ℕ, ◌+◌, ◌-◌, ◌*◌, ◌/◌, ◌%◌, ◌^◌, Bool, true, false, ◌&&◌, Option, none, some, ltb, leb, ◌==◌,
  if◌then◌else◌, Result, ok, throws, out_of_range, overflow_error, ◌>>=◌,
}

pub data ChunkType : Type 0 where
  chunk_4kb chunk_64kb chunk_512kb chunk_2mb : ChunkType

pub data ChunkState : Type 0 where
  free resident : ChunkState

abbrev pub word : ℕ
word = 2 ^ 64

-- `k_chunk_levels`.
abbrev pub chunk_levels : ℕ
chunk_levels = 4

abbrev pub chunk_index : ChunkType → ℕ
chunk_index chunk_4kb = 0
chunk_index chunk_64kb = 1
chunk_index chunk_512kb = 2
chunk_index chunk_2mb = 3

-- `k_chunk_sizes`.
abbrev pub chunk_size : ChunkType → ℕ
chunk_size chunk_4kb = 4 * 1024
chunk_size chunk_64kb = 64 * 1024
chunk_size chunk_512kb = 512 * 1024
chunk_size chunk_2mb = 2 * 1024 * 1024

-- The cast of an index, behind its range check.
pub type_of_index : ℕ → Result ChunkType
type_of_index i =
    if i == 0
    then ok chunk_4kb
    else if i == 1
    then ok chunk_64kb
    else if i == 2
    then ok chunk_512kb
    else if i == 3
    then ok chunk_2mb
    else throws out_of_range

unfoldable pub make_chunk_id : ChunkType → ℕ → Result ℕ
make_chunk_id type chunk_no =
    if ltb 0 (chunk_no / 2 ^ 62)
    then throws out_of_range
    else ok (chunk_index type * 2 ^ 62 + chunk_no)

unfoldable pub chunk_type : ℕ → Result ChunkType
unfolding type_of_index
chunk_type id = type_of_index (id / 2 ^ 62 % 256)

unfoldable pub chunk_no : ℕ → ℕ
chunk_no id = id % 2 ^ 62

pub record PageAddr : Type 0 where
  pub type : ChunkType
  pub number : ℕ
  pub offset : ℕ
  pub size : ℕ

unfoldable pub decode_chunk_id : ℕ → Result PageAddr
unfolding chunk_type chunk_no
decode_chunk_id id = do
  type ← chunk_type id
  if ltb ((word - 1) / chunk_size type) (chunk_no id)
      then throws overflow_error
      else ok (record {
        type = type;
        number = chunk_no id;
        offset = chunk_no id * chunk_size type % word;
        size = chunk_size type;
      })

-- `k_invalid_chunk_id`.
abbrev pub invalid_chunk_id : ℕ
invalid_chunk_id = word - 1

-- The control body of a frame. `content` is where its bytes start, `none` for a null pointer.
pub record Chunk : Type 0 where
  pub content : Option ℕ
  pub id : ℕ
  pub type : ChunkType
  pub size : ℕ
  pub pin_count : ℕ
  pub is_dirty : Bool
  pub referenced : Bool
  pub next : Option ℕ
  pub prev : Option ℕ
  pub state : ChunkState

-- Bytes by address.
abbrev pub Memory : Type 0
Memory = ℕ → ℕ

abbrev pub unbound : Chunk
unbound = record {
  content = none;
  id = invalid_chunk_id;
  type = chunk_4kb;
  size = 0;
  pin_count = 0;
  is_dirty = false;
  referenced = false;
  next = none;
  prev = none;
  state = free;
}

unfoldable pub bind : ℕ → ChunkType → Option ℕ → ℕ → Chunk
bind id type content size = record {
  content = content;
  id = id;
  type = type;
  size = size;
  pin_count = 0;
  is_dirty = false;
  referenced = false;
  next = none;
  prev = none;
  state = free;
}

-- The move constructor and the move assignment: the new chunk, and what is left of the source.
unfoldable pub move : Chunk → Chunk × Chunk
move other = (
  other,
  record other {
    content = none;
    id = invalid_chunk_id;
    size = 0;
    pin_count = 0;
    is_dirty = false;
    referenced = false;
    next = none;
    prev = none;
    state = free;
  },
)

-- `memset` to zero.
unfoldable pub zero_bytes : Memory → ℕ → ℕ → Memory
zero_bytes m base size a = if leb base a && ltb a (base + size) then 0 else m a

unfoldable pub reset_memory : Memory → Chunk → Memory × Chunk
unfolding zero_bytes
reset_memory m c = (
  elim c.content [ none ↦ m | some base ↦ if c.size == 0 then m else zero_bytes m base c.size ],
  record c { pin_count = 0; is_dirty = false; referenced = false },
)

-- The counters are 64-bit atomics: they wrap.
unfoldable pub inc_pin_count : Chunk → Chunk
inc_pin_count c = record c { pin_count = (c.pin_count + 1) % word }

unfoldable pub dec_pin_count : Chunk → Chunk
dec_pin_count c = record c { pin_count = (c.pin_count + word - 1) % word }

unfoldable pub set_chunk_id : ℕ → Chunk → Chunk
set_chunk_id id c = record c { id = id }

unfoldable pub set_chunk_state : ChunkState → Chunk → Chunk
set_chunk_state state c = record c { state = state }

unfoldable pub set_referenced : Bool → Chunk → Chunk
set_referenced referenced c = record c { referenced = referenced }

unfoldable pub get_chunk_no : Chunk → ℕ
unfolding chunk_no
get_chunk_no c = chunk_no c.id
