-- ===== src/Disk/Transfer.antt =====
-- `write_chunk`, `write_new_chunk` and `load_chunk`. What the operating system answers is an argument.
use skip_cell.Common.{
  ℕ, zero, suc, ◌+◌, ◌-◌, Bool, not, ◌&&◌, List, [], ◌∷◌, Option, none, some, ltb, leb, ◌==◌,
  if◌then◌else◌, length, Result, ok, throws, invalid_argument, runtime_error,
}
use skip_cell.Common.Calls.{Call, ◌>>=◌, raise, lift}
use skip_cell.Chunk.{ChunkType, PageAddr, decode_chunk_id}
use skip_cell.Disk.{File, Disk, set_level, Space, allocate_chunk, validate_chunk_id, delete_chunk}

-- Bytes by position.
abbrev pub Buffer : Type 0
Buffer = ℕ → ℕ

-- The bytes of a list, and zeros behind them.
unfoldable pub byte_at : List ℕ → Buffer
byte_at [] i = 0
byte_at (x ∷ xs) zero = x
byte_at (x ∷ xs) (suc i) = byte_at xs i

-- A byte of a file; a position beyond the end counts as zero.
unfoldable pub file_byte : File → Buffer
file_byte f i = if ltb i f.size then f.bytes i else 0

-- A write of `n` bytes at a position; one beyond the end leaves zeros in between.
unfoldable pub write_at : ℕ → ℕ → Buffer → File → File
write_at position n content f = if n == 0 then f else record {
  size = if ltb f.size (position + n) then position + n else f.size;
  bytes = λ i.
      if leb position i && ltb i (position + n)
      then content (i - position)
      else if ltb i f.size
      then f.bytes i
      else 0;
}

-- The loop that fills the rest of a page with zeros, in pages of 4096. It makes a round for each unit
-- of fuel.
unfoldable pub pad_each : ℕ → ℕ → ℕ → File → File
unfolding write_at
pad_each zero position remaining f = f
pad_each (suc fuel) position remaining f =
    let bytes = if ltb remaining 4096 then remaining else 4096 in
    let rest =
      pad_each fuel (position + bytes) (remaining - bytes) (write_at position bytes (λ _. 0) f) in
    if remaining == 0 then f else rest

-- What the writes of one call come to: a write that fails leaves some file behind.
pub record Writes : Type 0 where
  pub data_torn : Option File
  pub padding_torn : Option File
  pub synced : Bool

abbrev pub set_file : ChunkType → File → Disk → Disk
set_file type file d = set_level type (record (d type) { file = file }) d

-- The file once the zeros are written. A failure here is not noticed.
unfoldable pub padded : Writes → PageAddr → ℕ → File → File
unfolding pad_each
padded w a size f = elim w.padding_torn [
  | none ↦ pad_each a.size (a.offset + size) (a.size - size) f
  | some torn ↦ if ltb size a.size then torn else f
]

unfoldable pub write_page : Writes → Bool → PageAddr → List ℕ → Call Disk (Unit {0})
unfolding padded write_at
write_page w sync_on_write a content d = elim w.data_torn [
  | some torn ↦ (set_file a.type torn d, throws runtime_error)
  | none ↦ (
    set_file a.type
        (padded w a (length content)
          (write_at a.offset (length content) (byte_at content) (d a.type).file))
        d,
    if sync_on_write && not w.synced then throws runtime_error else ok tt,
  )
]

-- A page that is larger than its chunk is refused.
abbrev pub write_sized : Writes → Bool → List ℕ → PageAddr → Call Disk (Unit {0})
write_sized w sync_on_write content a =
    if ltb a.size (length content)
    then raise invalid_argument
    else write_page w sync_on_write a content

abbrev pub write_valid : Writes → Bool → ℕ → List ℕ → Call Disk (Unit {0})
write_valid w sync_on_write id content =
    lift (decode_chunk_id id) >>= write_sized w sync_on_write content

abbrev pub write_checked : Writes → Bool → ℕ → List ℕ → Result (Unit {0}) → Call Disk (Unit {0})
write_checked w sync_on_write id content (throws e) = raise e
write_checked w sync_on_write id content (ok _) = write_valid w sync_on_write id content

-- The data is a pointer, which may be null, to as many bytes as the call names.
unfoldable pub write_chunk : Writes → Bool → ℕ → Option (List ℕ) → Call Disk (Unit {0})
write_chunk w sync_on_write id none d = (d, throws invalid_argument)
write_chunk w sync_on_write id (some content) d =
    write_checked w sync_on_write id content (validate_chunk_id d id) d

-- The handler of `write_new_chunk`: an error gives the chunk back and goes on, unless giving it back
-- throws.
abbrev pub give_back : ℕ → Disk × Result (Unit {0}) → Disk × Result ℕ
give_back id (d, ok _) = (d, ok id)
give_back id (d, throws e) = (delete_chunk id >>= λ _. raise e) d

unfoldable pub write_new_chunk : Space → Writes → Bool → ChunkType → Option (List ℕ) → Call Disk ℕ
unfolding write_chunk
write_new_chunk a w sync_on_write type content = do
  id ← allocate_chunk a type
  λ d. give_back id (write_chunk w sync_on_write id content d)

-- What a call of `pread` is answered: `up_to n`, that at most `n + 1` bytes come at once.
pub data Read : Type 0 where
  up_to : ℕ → Read
  interrupted failed : Read

-- What the loop of `load_chunk` comes to: `reading`, when it goes on after the answers given.
pub data Loading : Type 0 where
  loaded : Buffer → Loading
  fails : Buffer → Loading
  reading : ℕ → Buffer → Loading

abbrev pub smaller : ℕ → ℕ → ℕ
smaller a b = if ltb a b then a else b

-- The bytes that `pread` delivers: none at the end of the file.
abbrev pub read_count : ℕ → File → ℕ → ℕ → ℕ
read_count n f position wanted = smaller (n + 1) (smaller wanted (f.size - position))

-- `n` bytes at a position of the destination.
abbrev pub filled : Buffer → ℕ → ℕ → Buffer → Buffer
filled dst position n content i =
    if leb position i && ltb i (position + n) then content (i - position) else dst i

unfoldable pub read_each : List Read → File → ℕ → ℕ → ℕ → Buffer → Loading
read_each [] f offset size total dst = if ltb total size then reading total dst else loaded dst
read_each (interrupted ∷ answers) f offset size total dst =
    let rest = read_each answers f offset size total dst in
    if ltb total size then rest else loaded dst
read_each (failed ∷ answers) f offset size total dst =
    if ltb total size then fails dst else loaded dst
read_each (up_to n ∷ answers) f offset size total dst =
    let got = read_count n f (offset + total) (size - total) in
    let rest =
      read_each answers f offset size (total + got)
        (filled dst total got λ i. f.bytes (offset + total + i)) in
    if ltb total size
    then (if got == 0 then loaded (filled dst total (size - total) λ _. 0) else rest)
    else loaded dst

-- The destination is a pointer that may be null.
abbrev pub load_at : List Read → Disk → Buffer → Result PageAddr → Result Loading
load_at answers d dst (throws e) = throws e
load_at answers d dst (ok a) = ok (read_each answers (d a.type).file a.offset a.size 0 dst)

unfoldable pub load_chunk : List Read → Disk → ℕ → Option Buffer → Result Loading
unfolding read_each
load_chunk answers d id none = throws invalid_argument
load_chunk answers d id (some dst) = elim (validate_chunk_id d id) [
  | throws e ↦ throws e
  | ok _ ↦ load_at answers d dst (decode_chunk_id id)
]
