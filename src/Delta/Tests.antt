-- ===== src/Delta/Tests.antt =====
-- A store at concrete inputs.
use skip_cell.Common.{◌≡◌, refl, List, [], ◌∷◌, ◌++◌, some, arith}
use skip_cell.Delta.{Record, Store, flush_to_file, apply_all, replay_file}
use skip_cell.Delta.Codec.{AllWords}
use skip_cell.Delta.Replay.{AllRecords, replay_file-flush_to_file}

abbrev first_record : Record
first_record = record { label = 300; vec = 1065353216 ∷ 7 ∷ [] }

abbrev second_record : Record
second_record = record { label = 2; vec = 0 ∷ 1 ∷ [] }

abbrev two_records : Store
two_records = record { dim = 2; max_buffer = 512; records = first_record ∷ second_record ∷ [] }

two_records-AllRecords : AllRecords 2 (first_record ∷ second_record ∷ [])
unfolding AllRecords AllWords
two_records-AllRecords = (
  record { sized = refl; words = omega arith; label_fits = omega arith },
  (record { sized = refl; words = omega arith; label_fits = omega arith }, tt),
)

-- The records that an index was given, the last first.
abbrev listed : Record → List Record → List Record
listed r index = r ∷ index

replay_file-flush_to_file_example :
    replay_file listed 2 (some (flush_to_file two_records [] ++ (1 ∷ 2 ∷ 3 ∷ []))) []
    ≡ apply_all listed (first_record ∷ second_record ∷ []) []
replay_file-flush_to_file_example =
    replay_file-flush_to_file listed two_records (1 ∷ 2 ∷ 3 ∷ []) [] two_records-AllRecords
      (omega arith)
