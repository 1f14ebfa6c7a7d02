-- ===== src/Disk.antt =====
-- src/disk_manager.cc: the chunk files with their free lists. All files are open.
-- A call of the operating system is answered by an argument: which of the calls succeed.
-- The vector `free_lists_[i]` is a list whose head is the back.
pub mod Live
pub mod Slots
pub mod Transfer
pub mod Bytes
pub mod Pages
pub mod Writes
pub mod Meta
pub mod Reopen
mod Tests
use skip_cell.Common.{
  ℕ, ◌+◌, ◌*◌, ◌%◌, Bool, true, false, not, List, [], ◌∷◌, ltb, leb, ◌==◌, if◌then◌else◌, length,
  contains, Result, ok, throws, out_of_range, runtime_error, ◌>>=◌,
}
use skip_cell.Common.Calls.{Call}
use skip_cell.Chunk.{ChunkType, chunk_index, chunk_size, make_chunk_id, chunk_type, chunk_no, word}

-- A file: its length and its bytes; those beyond the length are never read.
pub record File : Type 0 where
  pub size : ℕ
  pub bytes : ℕ → ℕ

pub record Level : Type 0 where
  pub chunk_count : ℕ
  pub free_count : ℕ
  pub free_list : List ℕ
  pub file : File

abbrev pub Disk : Type 0
Disk = ChunkType → Level

abbrev pub set_level : ChunkType → Level → Disk → Disk
set_level type l d t = if chunk_index t == chunk_index type then l else d t

-- What the calls of `reserve_file_space` on Linux come to. A call that fails leaves the file alone.
pub record Space : Type 0 where
  pub opened : Bool
  pub allocated : Bool
  pub truncated : Bool
  pub closed : Bool

-- The file with a new length: what lies beyond the old one is zero.
unfoldable pub resized : ℕ → File → File
resized n f = record { size = n; bytes = λ i. if ltb i f.size then f.bytes i else 0 }

-- `posix_fallocate` grows a file and never shrinks it.
unfoldable pub grown : ℕ → File → File
unfolding resized
grown n f = if ltb f.size n then resized n f else f

abbrev pub closing : Space → Call File (Unit {0})
closing a f = (f, if a.closed then ok tt else throws runtime_error)

unfoldable pub reserve_file_space : Space → ℕ → Call File (Unit {0})
unfolding grown resized
reserve_file_space a bytes f =
    if not a.opened
    then (f, throws runtime_error)
    else if a.allocated
    then closing a (grown bytes f)
    else if a.truncated
    then closing a (resized bytes f)
    else (f, throws runtime_error)

-- `chunk_counts[i]++`, and the file that follows.
unfoldable pub extended : File → Level → Level
extended file l = record l { chunk_count = (l.chunk_count + 1) % word; file = file }

-- The count is up whether or not there is space.
unfoldable pub after_growth : ChunkType → Disk → File × Result (Unit {0}) → Disk × Result ℕ
unfolding extended
after_growth type d (file, r) = (
  set_level type (extended file (d type)) d,
  (r >>= λ _. make_chunk_id type (d type).chunk_count),
)

-- The bytes of the file once it has one more chunk.
abbrev pub required_size : ChunkType → Level → ℕ
required_size type l = (l.chunk_count + 1) % word * chunk_size type % word

unfoldable pub allocate_chunk : Space → ChunkType → Call Disk ℕ
allocate_chunk a type d = elim (d type).free_list [
  | number ∷ rest ↦ (
    set_level type (record (d type) { free_list = rest; free_count = length rest }) d,
    make_chunk_id type number,
  )
  | [] ↦ after_growth type d (reserve_file_space a (required_size type (d type)) (d type).file)
]

-- The two tests of `validate_chunk_id` once the type is decoded.
unfoldable pub validate_no : Level → ℕ → Result (Unit {0})
validate_no l number =
    if leb l.chunk_count number
    then throws out_of_range
    else if contains number l.free_list
    then throws runtime_error
    else ok tt

abbrev pub validate_at : Disk → ℕ → Result ChunkType → Result (Unit {0})
validate_at d number (throws e) = throws e
validate_at d number (ok type) = validate_no (d type) number

unfoldable pub validate_chunk_id : Disk → ℕ → Result (Unit {0})
unfolding validate_no
validate_chunk_id d id = validate_at d (chunk_no id) (chunk_type id)

-- The number goes back on the free list.
unfoldable pub freed : ℕ → Level → Level
freed number l = record l {
  free_list = number ∷ l.free_list;
  free_count = length (number ∷ l.free_list);
}

abbrev pub delete_at : Disk → ℕ → Result ChunkType → Disk × Result (Unit {0})
delete_at d number (throws e) = (d, throws e)
delete_at d number (ok type) = (set_level type (freed number (d type)) d, ok tt)

unfoldable pub delete_chunk : ℕ → Call Disk (Unit {0})
unfolding freed validate_chunk_id
delete_chunk id d = elim (validate_chunk_id d id) [
  | throws e ↦ (d, throws e)
  | ok _ ↦ delete_at d (chunk_no id) (chunk_type id)
]
