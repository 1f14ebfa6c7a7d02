-- ===== src/Buffers/Stack.antt =====
-- `allocate_chunk` and `release_chunk` of a level.
use skip_cell.Common.{
  ℕ, ◌+◌, ◌<◌, ◌≡◌, refl, ap, inl, inr, true, false, not, ◌||◌, List, [], ◌∷◌, Bool-cases, leb,
  ◌==◌, if◌then◌else◌, one_if, count, count-cons, count-nil, Result, ok, arith,
}
use skip_cell.Chunk.{free, resident, set_chunk_state, get_chunk_no}
use skip_cell.Buffers.{
  Level, is_free, Handle, null, slot, allocate_chunk, released, release_slot, release_chunk,
}
use skip_cell.Buffers.Slots.{
  IsLevel, Reset, taken, taken-Sets, set_free-Sets, reset_slot-known, known-Reset,
}

-- What an allocation comes to: no slot is free and nothing changes, or a free slot becomes resident
-- with its frame zeroed.
pub data Allotted (base : ℕ) (l : Level) (out : Level × Result Handle) : Type 0 where
  exhausted :
      ((i : ℕ) → i < l.chunk_count → is_free (l.chunks i).state ≡ false)
      → out ≡ (l, ok null)
      → Allotted base l out
  gives :
      (m : Level) (i : ℕ)
      → i < l.chunk_count
      → is_free (l.chunks i).state ≡ true
      → out ≡ (m, ok (slot i))
      → Reset base l m i resident
      → Allotted base l out

-- What a release of a slot of the level comes to.
pub data Released (base : ℕ) (l : Level) (i : ℕ) (out : Level × Result (Unit {0})) : Type 0 where
  ignores : is_free (l.chunks i).state ≡ true → out ≡ (l, ok tt) → Released base l i out
  frees :
      (m : Level)
      → is_free (l.chunks i).state ≡ false
      → out ≡ (m, ok tt)
      → Reset base l m i free
      → Released base l i out

module _ (base : ℕ) (l : Level) (v : IsLevel base l) where
  top_free :
      (i : ℕ) (rest : List ℕ)
      → l.free_slots ≡ i ∷ rest
      → (i < l.chunk_count)
        × (is_free (l.chunks i).state ≡ true)
        × ((k : ℕ) → count k rest ≡ (if k == i then 0 else count k l.free_slots))
  top_free i rest e =
      let c : (k : ℕ) → count k l.free_slots ≡ one_if (k == i) + count k rest =
        λ k. rw e (count-cons k i rest) in
      (
        ground (arith, c i, v.stacked i),
        ground (arith, c i, v.stacked i),
        λ k. ground (arith, c k, c i, v.stacked i, v.stacked k),
      )

  -- On a valid level an allocation takes a free slot, zeroes its frame, makes it resident and leaves
  -- all other slots and frames alone, or finds every slot taken and changes nothing. The level stays
  -- valid.
  pub allocate_chunk-Allotted : Allotted base l (allocate_chunk l)
  unfolding allocate_chunk
  allocate_chunk-Allotted = by_stack l.free_slots refl
    where
      by_stack : (s : List ℕ) → l.free_slots ≡ s → Allotted base l (allocate_chunk l)
      by_stack [] e =
          exhausted
            (λ i h.
              let c : count i l.free_slots ≡ 0 = rw e (count-nil i) in
              ground (arith, c, v.stacked i))
            (ground arith)
      by_stack (i ∷ rest) e =
          let (inside, is_top, counts) = top_free i rest e in
          gives _ i inside is_top
            (rw (e, allocate_chunk)
              (ap (λ m. (m, ok (slot i))) (reset_slot-known base l v i inside taken rest)))
            (known-Reset base l v i inside taken resident rest taken-Sets
              (λ k. ground (arith, counts k)))

  -- Releasing a slot of a valid level that is taken frees it and zeroes its frame; releasing a free
  -- slot, so one that was released before, changes nothing. The level stays valid.
  pub release_chunk-Released :
      (i : ℕ) → i < l.chunk_count → Released base l i (release_chunk (slot i) l)
  unfolding release_chunk release_slot released
  release_chunk-Released i inside = elim (Bool-cases (is_free (l.chunks i).state)) [
    | inl idle ↦ ignores idle (rw (idle, release_slot) refl)
    | inr used ↦
        frees _ used
          (rw (used, release_slot)
            (rw number_fits (
              ap (λ m. (record m { free_slots = i ∷ m.free_slots }, ok tt))
                (reset_slot-known base l v i inside (set_chunk_state free) l.free_slots))))
          (known-Reset base l v i inside (set_chunk_state free) free (i ∷ l.free_slots)
            set_free-Sets (λ k. ground (arith, count-cons k i l.free_slots, v.stacked i)))
  ]
    where
      number_fits :
          (leb l.chunk_count (get_chunk_no (l.chunks i)) || not (get_chunk_no (l.chunks i) == i))
          ≡ false
      number_fits = ground (arith, v.numbered i inside)
