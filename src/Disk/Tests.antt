-- ===== src/Disk/Tests.antt =====
-- The disk manager at concrete inputs.
use skip_cell.Common.{
  ℕ, zero, suc, ◌≤◌, ◌≡◌, refl, true, false, List, [], ◌∷◌, none, some, replicate, ok, arith, ◌<◌,
  contains, count-nil, ltb, ◌≢◌, if◌then◌else◌,
}
use skip_cell.Chunk.{ChunkType, chunk_4kb, PageAddr, decode_chunk_id, word}
use skip_cell.Disk.{Disk, Space, delete_chunk, validate_chunk_id}
use skip_cell.Disk.Transfer.{
  Buffer, byte_at, Writes, write_chunk, write_new_chunk, Read, up_to, interrupted, loaded,
  load_chunk,
}
use skip_cell.Disk.Meta.{flush_meta, load_meta}
use skip_cell.Disk.Reopen.{load_meta-flush_meta}
use skip_cell.Disk.Bytes.{deliveries, none_failed}
use skip_cell.Disk.Live.{IsValid, Deleted, delete_chunk-Deleted}
use skip_cell.Disk.Pages.{IsChunk, Succeed, page_byte, write_chunk-page, load_chunk-page}
use skip_cell.Disk.Writes.{load_chunk-write_chunk, WrittenNew, write_new_chunk-WrittenNew}

-- A disk with one chunk of each size, and no byte in its files.
abbrev one_each : Disk
one_each _ = record {
  chunk_count = 1;
  free_count = 0;
  free_list = [];
  file = record { size = 0; bytes = λ _. 0 };
}

one_each-IsValid : IsValid one_each
one_each-IsValid type = record {
  bounded = omega arith;
  counted = refl;
  listed = λ number. omega (arith, count-nil number);
}

abbrev space : Space
space = record { opened = true; allocated = false; truncated = true; closed = true }

abbrev writes : Writes
writes = record { data_torn = none; padding_torn = none; synced = true }

writes-Succeed : Succeed writes
writes-Succeed = record { data_written = refl; padding_written = refl; flushed = refl }

abbrev first_page : PageAddr
first_page = record { type = chunk_4kb; number = 0; offset = 0; size = 4096 }

first-IsChunk : IsChunk one_each 0 first_page
unfolding validate_chunk_id decode_chunk_id contains
first-IsChunk = record { in_range = omega arith; in_use = refl; decoded = refl }

-- Reads of at most three bytes, the first one interrupted.
abbrev reads : List Read
reads = interrupted ∷ replicate 4096 (up_to 2)

replicate-deliveries : (n : ℕ) → deliveries (replicate n (up_to 2)) ≡ n
unfolding deliveries
replicate-deliveries zero = refl
replicate-deliveries (suc n) = omega (arith, replicate-deliveries n)

replicate-none_failed : (n : ℕ) → none_failed (replicate n (up_to 2)) ≡ true
unfolding none_failed
replicate-none_failed zero = refl
replicate-none_failed (suc n) = replicate-none_failed n

reads_fair : none_failed reads ≡ true
unfolding none_failed
reads_fair = replicate-none_failed 4096

reads_enough : 4096 ≤ deliveries reads
unfolding deliveries
reads_enough = omega (arith, replicate-deliveries 4096)

delete_chunk-Deleted_example : Deleted one_each 0 (delete_chunk 0 one_each)
delete_chunk-Deleted_example = delete_chunk-Deleted one_each 0 one_each-IsValid (omega arith)

load_chunk-write_chunk_example :
    (e : Disk) × (b : Buffer) × (write_chunk writes true 0 (some (7 ∷ 8 ∷ [])) one_each
      ≡ (e, ok tt))
    × (load_chunk reads e 0 (some (λ _. 5)) ≡ ok (loaded b))
    × ((i : ℕ) → i < 4096 → b i ≡ byte_at (7 ∷ 8 ∷ []) i)
load_chunk-write_chunk_example =
    load_chunk-write_chunk one_each 0 first_page first-IsChunk writes true (7 ∷ 8 ∷ []) reads
      (λ _. 5) writes-Succeed (omega arith) reads_fair reads_enough

write_chunk-page_example :
    (e : Disk) × (write_chunk writes false 0 (some (7 ∷ [])) one_each ≡ (e, ok tt))
    × ((i : ℕ) → i < 4096 → page_byte e first_page i ≡ byte_at (7 ∷ []) i)
    × ((other : ℕ) (b : PageAddr) (i : ℕ)
        → other < word
        → decode_chunk_id other ≡ ok b
        → other ≢ 0
        → i < b.size
        → page_byte e b i ≡ page_byte one_each b i)
    × ((other : ℕ) → validate_chunk_id e other ≡ validate_chunk_id one_each other)
write_chunk-page_example =
    write_chunk-page one_each 0 first_page first-IsChunk writes false (7 ∷ []) writes-Succeed
      (omega arith)

load_chunk-page_example :
    (b : Buffer) × (load_chunk reads one_each 0 (some (λ _. 5)) ≡ ok (loaded b))
    × ((i : ℕ) → b i ≡ (if ltb i 4096 then page_byte one_each first_page i else 5))
load_chunk-page_example =
    load_chunk-page one_each 0 first_page first-IsChunk reads (λ _. 5) reads_fair reads_enough

write_new_chunk-WrittenNew_example :
    WrittenNew one_each chunk_4kb space writes true
      (some (7 ∷ 8 ∷ []))
      (write_new_chunk space writes true chunk_4kb (some (7 ∷ 8 ∷ [])) one_each)
write_new_chunk-WrittenNew_example =
    write_new_chunk-WrittenNew one_each chunk_4kb space writes true (some (7 ∷ 8 ∷ []))
      one_each-IsValid (omega arith)

load_meta-flush_meta_example :
    (e : Disk) × (load_meta false (flush_meta 0 one_each) (λ _. record { size = 9; bytes = λ _. 3 })
      ≡ (flush_meta 0 one_each, ok e))
    × ((t : ChunkType) → e t ≡ record (one_each t) { file = record { size = 9; bytes = λ _. 3 } })
load_meta-flush_meta_example =
    load_meta-flush_meta one_each one_each-IsValid 0 (λ _. record { size = 9; bytes = λ _. 3 })
