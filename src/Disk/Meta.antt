-- ===== src/Disk/Meta.antt =====
-- `flush_meta` and `load_meta`. The metadata file is the bytes of its struct, if it has as many, and the
-- 64-bit words behind them. Its reads and writes succeed. A vector's data is its list reversed.
use skip_cell.Common.{
  ℕ, Bool, true, ◌&&◌, List, [], ◌∷◌, ◌++◌, reverse, Option, none, some, ltb, ◌==◌, if◌then◌else◌,
  length, Result, ok, throws, runtime_error, ◌>>=◌,
}
use skip_cell.Chunk.{
  ChunkType, chunk_4kb, chunk_64kb, chunk_512kb, chunk_2mb, chunk_index, chunk_levels,
}
use skip_cell.Disk.{File, Disk}
use skip_cell.Common.Bytes.{read_exact}

pub record Meta : Type 0 where
  pub magic : ℕ
  pub version : ℕ
  pub levels : ℕ
  pub chunk_counts : ChunkType → ℕ
  pub free_counts : ChunkType → ℕ
  pub huge_page_enabled : ℕ

-- `k_magic` and `k_version`.
abbrev pub meta_magic : ℕ
meta_magic = 5928781433594659650

abbrev pub meta_version : ℕ
meta_version = 1

pub record MetaFile : Type 0 where
  pub header : Option Meta
  pub words : List ℕ

abbrev pub all_levels : List ChunkType
all_levels = chunk_4kb ∷ chunk_64kb ∷ chunk_512kb ∷ chunk_2mb ∷ []

-- The free lists of the levels, one behind the other.
unfoldable pub list_words : Disk → List ChunkType → List ℕ
list_words d [] = []
list_words d (t ∷ types) = reverse (d t).free_list ++ list_words d types

-- The file is cut to what is written.
unfoldable pub flush_meta : ℕ → Disk → MetaFile
flush_meta huge_page d = record {
  header = some (record {
    magic = meta_magic;
    version = meta_version;
    levels = chunk_levels;
    chunk_counts = λ t. (d t).chunk_count;
    free_counts = λ t. length (d t).free_list;
    huge_page_enabled = huge_page;
  });
  words = list_words d all_levels;
}

-- Is every number below the count?
unfoldable pub all_below : ℕ → List ℕ → Bool
all_below n [] = true
all_below n (x ∷ xs) = ltb x n && all_below n xs

abbrev pub Lists : Type 0
Lists = ChunkType → List ℕ

abbrev pub with_list : ChunkType → List ℕ → Lists → Lists
with_list t xs lists s = if chunk_index s == chunk_index t then xs else lists s

-- The loop over the levels.
unfoldable pub read_lists : Meta → List ChunkType → List ℕ → Result Lists
read_lists m [] words = ok (λ _. [])
read_lists m (t ∷ types) words = elim (read_exact (m.free_counts t) words) [
  | none ↦ throws runtime_error
  | some (numbers, rest) ↦
      if all_below (m.chunk_counts t) numbers
      then (do lists ← read_lists m types rest; ok (with_list t (reverse numbers) lists))
      else throws runtime_error
]

-- The disk that metadata and free lists make, beside the chunk files.
abbrev pub disk_of : Meta → (ChunkType → File) → Lists → Disk
disk_of m files lists t = record {
  chunk_count = m.chunk_counts t;
  free_count = length (lists t);
  free_list = lists t;
  file = files t;
}

abbrev pub valid_header : Meta → Bool
valid_header m = m.magic == meta_magic && m.version == meta_version && m.levels == chunk_levels

abbrev pub load_header : Meta → List ℕ → (ChunkType → File) → Result Disk
load_header m words files =
    if valid_header m
    then (do lists ← read_lists m all_levels words; ok (disk_of m files lists))
    else throws runtime_error

abbrev pub empty_disk : (ChunkType → File) → Disk
empty_disk files t = record { chunk_count = 0; free_count = 0; free_list = []; file = files t }

-- A file that is to be truncated, or is too short, starts an empty disk, which is flushed at once.
unfoldable pub load_meta : Bool → MetaFile → (ChunkType → File) → MetaFile × Result Disk
unfolding read_lists flush_meta
load_meta truncate f files = elim f.header [
  | none ↦ (flush_meta 0 (empty_disk files), ok (empty_disk files))
  | some m ↦
      if truncate
      then (flush_meta 0 (empty_disk files), ok (empty_disk files))
      else (f, load_header m f.words files)
]
