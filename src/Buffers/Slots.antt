-- ===== src/Buffers/Slots.antt =====
-- Which slots of a level are free, and what allocating and releasing one does.
use skip_cell.Common.{
  ℕ, ◌+◌, ◌*◌, ◌<◌, ◌≡◌, ◌≢◌, refl, sym, ap, ◌∙◌, true, false, List, some, ltb, ◌==◌, if◌then◌else◌,
  one_if, count, update, arith,
}
use skip_cell.Chunk.{
  Chunk, ChunkType, chunk_4kb, chunk_64kb, chunk_512kb, chunk_2mb, ChunkState, free, resident,
  chunk_size, Memory, zero_bytes, reset_memory, set_chunk_state, set_referenced, get_chunk_no,
}
use skip_cell.Buffers.{Level, is_free, reset_slot}

-- The control body of each slot has its number, its frame and its size; the free slots stand on the
-- stack, each once.
pub record IsLevel (base : ℕ) (l : Level) : Type 0 where
  pub typed : l.chunk_bytes ≡ chunk_size l.type
  pub numbered : (i : ℕ) → i < l.chunk_count → get_chunk_no (l.chunks i) ≡ i
  pub framed : (i : ℕ) → i < l.chunk_count → (l.chunks i).content ≡ some (base + i * l.chunk_bytes)
  pub sized : (i : ℕ) → i < l.chunk_count → (l.chunks i).size ≡ l.chunk_bytes
  pub stacked :
      (i : ℕ)
      → count i l.free_slots
        ≡ (if ltb i l.chunk_count then one_if (is_free (l.chunks i).state) else 0)

-- A byte of a frame.
abbrev pub frame_byte : ℕ → Level → ℕ → ℕ → ℕ
frame_byte base l i j = l.bytes (base + i * l.chunk_bytes + j)

-- Frames of different slots do not overlap.
frames_apart :
    (t : ChunkType) (base k i j : ℕ) (m : Memory)
    → k ≢ i
    → j < chunk_size t
    → zero_bytes m (base + i * chunk_size t) (chunk_size t) (base + k * chunk_size t + j)
      ≡ m (base + k * chunk_size t + j)
unfolding zero_bytes
frames_apart chunk_4kb base k i j m ne h = ground arith
frames_apart chunk_64kb base k i j m ne h = ground arith
frames_apart chunk_512kb base k i j m ne h = ground arith
frames_apart chunk_2mb base k i j m ne h = ground arith

size_positive : (t : ChunkType) → (chunk_size t == 0) ≡ false
size_positive t = ground arith

abbrev pub cleared : Chunk → Chunk
cleared c = record c { pin_count = 0; is_dirty = false; referenced = false }

-- What happens to slot `i` and to all others when the slot is reset and its state set.
pub record Reset (base : ℕ) (l m : Level) (i : ℕ) (state : ChunkState) : Type 0 where
  pub state_set : (m.chunks i).state ≡ state
  pub unpinned : (m.chunks i).pin_count ≡ 0
  pub zeroed : (j : ℕ) → j < l.chunk_bytes → frame_byte base m i j ≡ 0
  pub others : (k : ℕ) → k ≢ i → m.chunks k ≡ l.chunks k
  pub other_bytes :
      (k j : ℕ) → k ≢ i → j < l.chunk_bytes → frame_byte base m k j ≡ frame_byte base l k j
  pub valid : IsLevel base m

abbrev pub known : ℕ → ℕ → (Chunk → Chunk) → Level → Level
known base i change l = record l {
  bytes = zero_bytes l.bytes (base + i * l.chunk_bytes) l.chunk_bytes;
  chunks = update l.chunks i (change (cleared (l.chunks i)));
}

-- A change of a control body that sets its state and leaves number, frame, size and pins.
pub record Sets (change : Chunk → Chunk) (state : ChunkState) : Type 0 where
  pub to : (c : Chunk) → (change c).state ≡ state
  pub id_kept : (c : Chunk) → (change c).id ≡ c.id
  pub content_kept : (c : Chunk) → (change c).content ≡ c.content
  pub size_kept : (c : Chunk) → (change c).size ≡ c.size
  pub pins_kept : (c : Chunk) → (change c).pin_count ≡ c.pin_count

abbrev pub taken : Chunk → Chunk
taken c = set_referenced true (set_chunk_state resident c)

pub taken-Sets : Sets taken resident
unfolding set_referenced set_chunk_state
taken-Sets = record {
  to = λ _. refl;
  id_kept = λ _. refl;
  content_kept = λ _. refl;
  size_kept = λ _. refl;
  pins_kept = λ _. refl;
}

pub set_free-Sets : Sets (set_chunk_state free) free
unfolding set_chunk_state
set_free-Sets = record {
  to = λ _. refl;
  id_kept = λ _. refl;
  content_kept = λ _. refl;
  size_kept = λ _. refl;
  pins_kept = λ _. refl;
}

module _ (base : ℕ) (l : Level) (v : IsLevel base l) (i : ℕ) (inside : i < l.chunk_count) where
  -- The frame of a slot is where its control body says.
  pub reset_slot-known :
      (change : Chunk → Chunk) (slots : List ℕ)
      → reset_slot i change (record l { free_slots = slots })
        ≡ record (known base i change l) { free_slots = slots }
  unfolding reset_slot reset_memory
  reset_slot-known change slots =
      let positive : (l.chunk_bytes == 0) ≡ false = rw v.typed (size_positive l.type) in
      rw (v.framed i inside, reset_slot, reset_memory) (rw (v.sized i inside) (rw positive refl))

  same_chunk :
      (change : Chunk → Chunk)
      → (update l.chunks i (change (cleared (l.chunks i)))) i ≡ change (cleared (l.chunks i))
  same_chunk change = ground arith

  other_chunk :
      (change : Chunk → Chunk) (k : ℕ)
      → k ≢ i
      → (update l.chunks i (change (cleared (l.chunks i)))) k ≡ l.chunks k
  other_chunk change k ne = ground arith

  pub known-Reset :
      (change : Chunk → Chunk) (state : ChunkState) (slots : List ℕ)
      → Sets change state
      → ((k : ℕ)
          → count k slots ≡ (if k == i then one_if (is_free state) else count k l.free_slots))
      → Reset base l (record (known base i change l) { free_slots = slots }) i state
  unfolding zero_bytes get_chunk_no
  known-Reset change state slots s stack = record {
    state_set = ap (λ c. c.state) (same_chunk change) ∙ s.to _;
    unpinned = ap (λ c. c.pin_count) (same_chunk change) ∙ s.pins_kept _;
    zeroed = λ j h. ground arith;
    others = other_chunk change;
    other_bytes =
        λ k j ne h. rw v.typed (frames_apart l.type base k i j l.bytes ne (rw (sym v.typed) h));
    valid = record {
      typed = v.typed;
      numbered = λ k h. ground (arith, v.numbered k h, s.id_kept (cleared (l.chunks i)));
      framed = λ k h. ground (arith, v.framed k h, s.content_kept (cleared (l.chunks i)));
      sized = λ k h. ground (arith, v.sized k h, s.size_kept (cleared (l.chunks i)));
      stacked = λ k. ground (arith, v.stacked k, stack k, s.to (cleared (l.chunks i)));
    };
  }
