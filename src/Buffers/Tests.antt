-- ===== src/Buffers/Tests.antt =====
-- A level at concrete inputs.
use skip_cell.Common.{◌<◌, ◌≡◌, [], none, ok, arith}
use skip_cell.Chunk.{chunk_4kb, chunk_64kb, unbound}
use skip_cell.Buffers.{Level, init, allocate_chunk, release_chunk, slot}
use skip_cell.Buffers.Stack.{Allotted, Released, allocate_chunk-Allotted, release_chunk-Released}
use skip_cell.Buffers.Slots.{IsLevel}
use skip_cell.Buffers.Init.{Fresh, frames_at, init-Fresh}

abbrev empty_level : Level
empty_level = record {
  type = chunk_4kb;
  memory = none;
  frames = none;
  chunks = λ _. unbound;
  chunk_count = 0;
  chunk_bytes = 0;
  control_bytes = 0;
  data_offset = 0;
  total_bytes = 0;
  free_slots = [];
  bytes = λ _. 9;
}

init-Fresh_example :
    (m : Level) × (init 80 8192 chunk_64kb 3 empty_level ≡ (m, ok tt))
    × Fresh (frames_at 80 8192 3) chunk_64kb 3 m
init-Fresh_example =
    init-Fresh 80 8192 chunk_64kb 3 empty_level (omega arith) (omega arith) (omega arith)

-- The level that this makes.
made_level :
    (m : Level) × (init 80 8192 chunk_64kb 3 empty_level ≡ (m, ok tt))
    × Fresh (frames_at 80 8192 3) chunk_64kb 3 m
made_level = init-Fresh 80 8192 chunk_64kb 3 empty_level (omega arith) (omega arith) (omega arith)

three : Level
three = made_level.0

three-IsLevel : IsLevel (frames_at 80 8192 3) three
unfolding three
three-IsLevel = made_level.2.valid

three_inside : 1 < three.chunk_count
unfolding three
three_inside = omega (arith, made_level.2.counted)

allocate_chunk-Allotted_example : Allotted (frames_at 80 8192 3) three (allocate_chunk three)
allocate_chunk-Allotted_example = allocate_chunk-Allotted (frames_at 80 8192 3) three three-IsLevel

release_chunk-Released_example :
    Released (frames_at 80 8192 3) three 1 (release_chunk (slot 1) three)
release_chunk-Released_example =
    release_chunk-Released (frames_at 80 8192 3) three three-IsLevel 1 three_inside
