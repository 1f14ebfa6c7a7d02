-- ===== src/Buffers/Init.antt =====
-- A level that `init` makes.
use skip_cell.Common.{
  ℕ, zero, suc, ◌+◌, ◌*◌, ◌%◌, ◌^◌, ◌≤◌, ◌<◌, ◌≡◌, refl, true, false, ◌&&◌, List, [], ◌∷◌, some,
  ltb, leb, ◌==◌, if◌then◌else◌, one_if, count, count-cons, count-nil, update, ok, arith,
}
use skip_cell.Common.Calls.{modify, bind_ok}
use skip_cell.Chunk.{
  Chunk, ChunkType, bind, make_chunk_id, get_chunk_no, chunk_no, chunk_index, chunk_size, word,
  Memory, zero_bytes, chunk_4kb, chunk_64kb, chunk_512kb, chunk_2mb,
}
use skip_cell.Buffers.{Level, init_each, push_each, is_free, align_up, destroy, reserved, init}
use skip_cell.Buffers.Slots.{IsLevel, frame_byte}

-- The stack of a fresh level has each index once.
pub count-push_each :
    (a n : ℕ) (slots : List ℕ) → count a (push_each n slots) ≡ one_if (ltb a n) + count a slots
unfolding push_each
count-push_each a zero slots = ground arith
count-push_each a (suc n) slots =
    ground (arith, count-push_each a n (n ∷ slots), count-cons a n slots)

-- The control bodies from `i` on, as the loop makes them.
abbrev pub made : ℕ → ℕ → ℕ → Level → ℕ → Chunk
made n i base l k =
    if leb i k && ltb k (i + n)
    then bind (chunk_index l.type * 2 ^ 62 + k) l.type (some (base + k * l.chunk_bytes))
        l.chunk_bytes
    else l.chunks k

make_chunk_id-small :
    (type : ChunkType) (i : ℕ)
    → i < 2 ^ 62
    → make_chunk_id type i ≡ ok (chunk_index type * 2 ^ 62 + i)
unfolding make_chunk_id
make_chunk_id-small type i h = ground arith

init_each-made :
    (n i base : ℕ) (l : Level)
    → i + n ≤ 2 ^ 62
    → (c : ℕ → Chunk) × (init_each n i base l ≡ (record l { chunks = c }, ok tt))
      × ((k : ℕ) → c k ≡ made n i base l k)
unfolding init_each
init_each-made zero i base l h = (l.chunks, refl, λ k. ground arith)
init_each-made (suc n) i base l h =
    let id = chunk_index l.type * 2 ^ 62 + i in
    let one = bind id l.type (some (base + i * l.chunk_bytes)) l.chunk_bytes in
    let next = record l { chunks = update l.chunks i one } in
    let (c, runs, makes) = init_each-made n (i + 1) base next (omega arith) in
    (
      c,
      rw (make_chunk_id-small l.type i (omega arith), init_each) runs,
      λ k. ground (arith, makes k),
    )

-- A level of `n` slots, all free, whose frames from `base` on are zero.
pub record Fresh (base : ℕ) (type : ChunkType) (n : ℕ) (m : Level) : Type 0 where
  pub counted : m.chunk_count ≡ n
  pub level_type : m.type ≡ type
  pub valid : IsLevel base m
  pub idle : (i : ℕ) → i < n → is_free (m.chunks i).state ≡ true
  pub zeroed : (i j : ℕ) → i < n → j < chunk_size type → frame_byte base m i j ≡ 0

-- Zeroing the whole region zeroes each frame.
region_zeroed :
    (t : ChunkType) (base n i j : ℕ) (b : Memory)
    → chunk_size t * n < word
    → i < n
    → j < chunk_size t
    → zero_bytes b base (chunk_size t * n % word) (base + i * chunk_size t + j) ≡ 0
unfolding zero_bytes
region_zeroed chunk_4kb base n i j b fits h k = ground arith
region_zeroed chunk_64kb base n i j b fits h k = ground arith
region_zeroed chunk_512kb base n i j b fits h k = ground arith
region_zeroed chunk_2mb base n i j b fits h k = ground arith

abbrev pub frames_at : ℕ → ℕ → ℕ → ℕ
frames_at control_size base n = base + align_up (control_size * n % word) 4096

bound_no : (type : ChunkType) (n : ℕ) → n < 2 ^ 62 → (chunk_index type * 2 ^ 62 + n) % 2 ^ 62 ≡ n
bound_no type n h = omega arith

-- Initialising a level for some slots, fewer than 2 ^ 62 and with frames of fewer than 2 ^ 64 bytes in
-- all, returns; whatever the level held before, it then is valid, all its slots are free and its
-- frames are zero.
pub init-Fresh :
    (control_size base : ℕ) (type : ChunkType) (n : ℕ) (l : Level)
    → 0 < n
    → n < 2 ^ 62
    → chunk_size type * n < word
    → (m : Level) × (init control_size base type n l ≡ (m, ok tt))
      × Fresh (frames_at control_size base n) type n m
unfolding init reserved get_chunk_no chunk_no bind
init-Fresh control_size base type n l some_slots small fits =
    let at = frames_at control_size base n in
    let start = reserved control_size base type n (destroy l) in
    let (c, runs, makes) = init_each-made n 0 at start (omega arith) in
    let nonzero : (n == 0) ≡ false = ground arith in
    let full = record start { chunks = c; free_slots = push_each n [] } in
    (
      full,
      rw (nonzero, init)
          (bind_ok (init_each n 0 at) (λ _. modify (λ k. record k { free_slots = push_each n [] }))
            runs),
      record {
        counted = refl;
        level_type = refl;
        valid = record {
          typed = refl;
          numbered = λ i h. ground (arith, makes i, bound_no type i);
          framed = λ i h. ground (arith, makes i);
          sized = λ i h. ground (arith, makes i);
          stacked = λ i. ground (arith, makes i, count-push_each i n [], count-nil i);
        };
        idle = λ i h. ground (arith, makes i);
        zeroed = λ i j h k. region_zeroed type at n i j _ fits h k;
      },
    )
