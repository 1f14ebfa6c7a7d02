-- ===== src/Delta/Replay.antt =====
-- The replay of a file that `flush_to_file` wrote.
use mathlib.Core.List.{append_assoc}
use skip_cell.Common.{
  ℕ, zero, suc, ◌+◌, ◌*◌, ◌≤◌, ◌<◌, ◌≡◌, refl, ap, ◌∙◌, List, [], ◌∷◌, ◌++◌, none, some, length,
  length-append, arith,
}
use skip_cell.Delta.{
  Record, Store, encode_record, encode_all, flush_to_file, read_record, apply_all, replay_each,
  replay_file,
}
use skip_cell.Delta.Codec.{IsRecord, read_record-encode, read_record-short}

-- Every record is one of a store of the dimension.
unfoldable pub AllRecords : ℕ → List Record → Type 0
AllRecords dim [] = Unit {0}
AllRecords dim (r ∷ records) = IsRecord dim r × AllRecords dim records

module _ {ℓ} {Index : Type ℓ} (insert : Record → Index → Index) where
  ends :
      (fuel dim : ℕ) (tail : List ℕ) (index : Index)
      → read_record dim tail ≡ none
      → replay_each insert fuel dim tail index ≡ index
  unfolding replay_each
  ends zero dim tail index e = refl
  ends (suc fuel) dim tail index e = rw (e, replay_each) refl

  length-record : (r : Record) → 1 ≤ length (encode_record r)
  unfolding encode_record
  length-record r = omega arith

  -- The bytes of one list of records are replayed, and the loop goes on with what follows.
  pub replay_each-records :
      (fuel dim : ℕ) (records : List Record) (tail : List ℕ) (index : Index)
      → AllRecords dim records
      → length (encode_all records ++ tail) ≤ fuel
      → length tail < 9 + 4 * dim
      → replay_each insert fuel dim (encode_all records ++ tail) index
        ≡ apply_all insert records index
  unfolding replay_each apply_all encode_all AllRecords
  replay_each-records fuel dim [] tail index all enough short =
      ends fuel dim tail index (read_record-short dim tail short)
  replay_each-records zero dim (r ∷ records) tail index all enough short = absurd (
      omega (
        arith,
        length-append (encode_record r ++ encode_all records) tail,
        length-append (encode_record r) (encode_all records),
        length-record r,
      ))
  replay_each-records (suc fuel) dim (r ∷ records) tail index all enough short =
      let runs = read_record-encode dim r (encode_all records ++ tail) all.0 in
      ap (λ b. replay_each insert (suc fuel) dim b index)
        (append_assoc (encode_record r) (encode_all records) tail)
      ∙ rw (runs, replay_each)
          (replay_each-records fuel dim records tail (insert r index) all.1
            (omega (
              arith,
              length-append (encode_record r ++ encode_all records) tail,
              length-append (encode_record r) (encode_all records),
              length-append (encode_all records) tail,
              length-record r,
            ))
            short)

  -- A store of well-formed records, flushed to an empty file, is replayed as its records applied in
  -- their order, each once. So it is if fewer bytes than a record has follow, as a write that
  -- was cut off leaves them.
  pub replay_file-flush_to_file :
      (s : Store) (tail : List ℕ) (index : Index)
      → AllRecords s.dim s.records
      → length tail < 9 + 4 * s.dim
      → replay_file insert s.dim (some (flush_to_file s [] ++ tail)) index
        ≡ apply_all insert s.records index
  unfolding replay_file flush_to_file
  replay_file-flush_to_file s tail index all short =
      replay_each-records _ s.dim s.records tail index all (omega arith) short
