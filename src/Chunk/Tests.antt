-- ===== src/Chunk/Tests.antt =====
-- Runs of the chunk identifiers, and their theorems at one identifier.
use skip_cell.Common.{◌+◌, ◌*◌, ◌^◌, ◌≤◌, ◌≡◌, refl, ◌⊎◌, arith, ok, throws, overflow_error}
use skip_cell.Chunk.{
  ChunkType, chunk_64kb, chunk_size, word, PageAddr, make_chunk_id, chunk_type, chunk_no,
  decode_chunk_id,
}
use skip_cell.Chunk.Ids.{Located, decode_chunk_id-Located}

make_five : make_chunk_id chunk_64kb 5 ≡ ok (2 ^ 62 + 5)
unfolding make_chunk_id
make_five = refl

decode_chunk_id-Located_example :
    ((a : PageAddr) × (decode_chunk_id (2 ^ 62 + 5) ≡ ok a) × Located (2 ^ 62 + 5) a)
    ⊎ ((decode_chunk_id (2 ^ 62 + 5) ≡ throws overflow_error)
        × ((type : ChunkType) × (chunk_type (2 ^ 62 + 5) ≡ ok type)
            × (word ≤ chunk_no (2 ^ 62 + 5) * chunk_size type)))
decode_chunk_id-Located_example = decode_chunk_id-Located (2 ^ 62 + 5) (omega arith)
