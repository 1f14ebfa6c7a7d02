-- ===== src/Visits/Tests.antt =====
-- A tracker at concrete inputs.
use skip_cell.Common.{◌%◌, ◌≡◌, false, [], ◌∷◌, count, get_elem?, some, arith}
use skip_cell.Chunk.{word}
use skip_cell.Visits.{Tracker, start, record_each, snapshot}
use skip_cell.Visits.Counts.{snapshot-record_each}

abbrev stopped : Tracker
stopped = record { counters = λ _. 4; num_nodes = 1; enabled = false }

snapshot-record_each_example :
    get_elem? (snapshot (record_each (2 ∷ 0 ∷ 9 ∷ 2 ∷ []) (start 3 stopped))) 2
    ≡ some (count 2 (2 ∷ 0 ∷ 9 ∷ 2 ∷ []) % word)
snapshot-record_each_example = snapshot-record_each 3 (2 ∷ 0 ∷ 9 ∷ 2 ∷ []) stopped 2 (omega arith)
