-- ===== src/Disk/Reopen.antt =====
-- What is flushed as metadata is loaded back.
use mathlib.Core.List.{reverse-reverse}
use skip_cell.Common.{
  ℕ, ◌<◌, ◌≡◌, refl, sym, ap, ◌∙◌, true, false, List, [], ◌∷◌, ◌++◌, reverse, some, length,
  length-append, count, count-cons, count-reverse, ok, arith,
}
use skip_cell.Chunk.{ChunkType, chunk_4kb, chunk_64kb, chunk_512kb, chunk_2mb, chunk_levels}
use skip_cell.Disk.{File, Disk}
use skip_cell.Disk.Live.{IsValid}
use skip_cell.Disk.Meta.{
  Meta, meta_magic, meta_version, all_levels, list_words, flush_meta, all_below, Lists, with_list,
  read_lists, disk_of, load_meta,
}
use skip_cell.Common.Bytes.{read_exact}
use skip_cell.Common.Bytes.{read_exact-append}
use mathlib.Core.List.{reverse-cons}

length-reverse : (xs : List ℕ) → length (reverse xs) ≡ length xs
length-reverse [] = refl
length-reverse (x ∷ xs) =
    ap length (reverse-cons x xs)
    ∙ omega (arith, length-append (reverse xs) (x ∷ []), length-reverse xs)

all_below-count : (n : ℕ) (xs : List ℕ) → ((k : ℕ) → 0 < count k xs → k < n) → all_below n xs ≡ true
unfolding all_below
all_below-count n [] h = refl
all_below-count n (x ∷ xs) h =
    let here : x < n = h x (ground (arith, count-cons x x xs)) in
    ground (arith, all_below-count n xs (λ k p. h k (ground (arith, count-cons k x xs))))

module _ (d : Disk) (v : IsValid d) (huge_page : ℕ) where
  header : Meta
  header = record {
    magic = meta_magic;
    version = meta_version;
    levels = chunk_levels;
    chunk_counts = λ t. (d t).chunk_count;
    free_counts = λ t. length (d t).free_list;
    huge_page_enabled = huge_page;
  }

  level_words :
      (t : ChunkType) (rest : List ℕ)
      → read_exact (length (d t).free_list) (reverse (d t).free_list ++ rest)
        ≡ some (reverse (d t).free_list, rest)
  level_words t rest =
      ap (λ n. read_exact n (reverse (d t).free_list ++ rest))
        (sym (length-reverse (d t).free_list))
      ∙ read_exact-append (reverse (d t).free_list) rest

  level_below : (t : ChunkType) → all_below (d t).chunk_count (reverse (d t).free_list) ≡ true
  level_below t =
      all_below-count _ _ (λ k p. ground (arith, (v t).listed k, count-reverse k (d t).free_list))

  -- The lists that the loop reads back, level by level.
  lists_of : List ChunkType → Lists
  lists_of [] = λ _. []
  lists_of (t ∷ types) = with_list t (reverse (reverse (d t).free_list)) (lists_of types)

  read_lists-flushed :
      (types : List ChunkType) → read_lists header types (list_words d types) ≡ ok (lists_of types)
  unfolding read_lists list_words header lists_of
  read_lists-flushed [] = refl
  read_lists-flushed (t ∷ types) =
      rw (level_words t (list_words d types), read_lists)
        (rw (level_below t) (rw (read_lists-flushed types) refl))

  lists_of-all : (t : ChunkType) → lists_of all_levels t ≡ (d t).free_list
  unfolding lists_of
  lists_of-all chunk_4kb = reverse-reverse _
  lists_of-all chunk_64kb = reverse-reverse _
  lists_of-all chunk_512kb = reverse-reverse _
  lists_of-all chunk_2mb = reverse-reverse _

  -- Loading the metadata that a valid disk flushed succeeds and gives every level its counts and its
  -- free list again, beside whatever chunk files are there.
  pub load_meta-flush_meta :
      (files : ChunkType → File)
      → (e : Disk) × (load_meta false (flush_meta huge_page d) files
          ≡ (flush_meta huge_page d, ok e))
        × ((t : ChunkType) → e t ≡ record (d t) { file = files t })
  unfolding load_meta flush_meta header
  load_meta-flush_meta files = (
    disk_of header files (lists_of all_levels),
    rw (read_lists-flushed all_levels, load_meta) refl,
    λ t. ground (arith, lists_of-all t, (v t).counted),
  )
