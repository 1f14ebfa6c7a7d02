-- ===== src/Chunk/Ids.antt =====
-- Chunk identifiers: encoding, decoding, and where chunks lie in their file.
use native.Mathlib.Nat.{mod-eq_of_lt}
use skip_cell.Common.{
  ℕ, zero, suc, ◌+◌, ◌-◌, ◌*◌, ◌/◌, ◌%◌, ◌^◌, ◌≤◌, ◌<◌, ◌≡◌, refl, ◌⊎◌, inl, inr, false, ltb, arith,
  Bool-cases, ok, throws, out_of_range, overflow_error,
}
use skip_cell.Chunk.{
  ChunkType, chunk_4kb, chunk_64kb, chunk_512kb, chunk_2mb, chunk_index, chunk_size, word, PageAddr,
  make_chunk_id, chunk_type, chunk_no, decode_chunk_id,
}

chunk_type-make :
    (type : ChunkType) (n : ℕ) → n < 2 ^ 62 → chunk_type (chunk_index type * 2 ^ 62 + n) ≡ ok type
unfolding chunk_type
chunk_type-make chunk_4kb n h = ground arith
chunk_type-make chunk_64kb n h = ground arith
chunk_type-make chunk_512kb n h = ground arith
chunk_type-make chunk_2mb n h = ground arith

chunk_index-lt : (type : ChunkType) → chunk_index type < 4
chunk_index-lt type = ground arith

-- A chunk number of 62 bits makes an identifier of 64 bits that gives back type and number; any
-- other number is refused.
pub chunk_no-make_chunk_id :
    (type : ChunkType) (n : ℕ)
    → ((n < 2 ^ 62)
        × ((id : ℕ) × (make_chunk_id type n ≡ ok id)
            × (id < word)
            × (chunk_type id ≡ ok type)
            × (chunk_no id ≡ n)))
      ⊎ ((2 ^ 62 ≤ n) × (make_chunk_id type n ≡ throws out_of_range))
unfolding make_chunk_id chunk_no
chunk_no-make_chunk_id type n = elim (Bool-cases (ltb n (2 ^ 62))) [
  | inl small ↦
      let h : n < 2 ^ 62 = ground arith in
      inl (
        h,
        (
          chunk_index type * 2 ^ 62 + n,
          ground arith,
          omega (arith, chunk_index-lt type),
          chunk_type-make type n h,
          omega arith,
        ),
      )
  | inr large ↦ inr (ground arith, ground arith)
]

-- Every 64-bit word is the identifier of exactly one chunk: it decodes to a type and a number that
-- make it again.
pub make_chunk_id-chunk_no :
    (id : ℕ)
    → id < word
    → (type : ChunkType) × (chunk_type id ≡ ok type) × (make_chunk_id type (chunk_no id) ≡ ok id)
unfolding make_chunk_id chunk_no chunk_type
make_chunk_id-chunk_no id h = by_index (id / 2 ^ 62) refl
  where
    by_index :
        (i : ℕ)
        → id / 2 ^ 62 ≡ i
        → (type : ChunkType) × (chunk_type id ≡ ok type)
          × (make_chunk_id type (chunk_no id) ≡ ok id)
    by_index zero e = (chunk_4kb, ground arith, ground arith)
    by_index (suc zero) e = (chunk_64kb, ground arith, ground arith)
    by_index (suc (suc zero)) e = (chunk_512kb, ground arith, ground arith)
    by_index (suc (suc (suc zero))) e = (chunk_2mb, ground arith, ground arith)
    by_index (suc (suc (suc (suc i)))) e = absurd (omega arith)

-- Chunk identifiers and chunks name each other. Every 64-bit word decodes to a type and a number that
-- make it again. A number below 2^62 makes with any type an identifier of 64 bits that gives back type
-- and number, and any other number is refused as out of range.
pub make_chunk_id_both_ways :
    ((id : ℕ)
      → id < word
      → (type : ChunkType) × (chunk_type id ≡ ok type) × (make_chunk_id type (chunk_no id) ≡ ok id))
    × ((type : ChunkType) (n : ℕ)
        → ((n < 2 ^ 62)
            × ((id : ℕ) × (make_chunk_id type n ≡ ok id)
                × (id < word)
                × (chunk_type id ≡ ok type)
                × (chunk_no id ≡ n)))
          ⊎ ((2 ^ 62 ≤ n) × (make_chunk_id type n ≡ throws out_of_range)))
make_chunk_id_both_ways = (make_chunk_id-chunk_no, chunk_no-make_chunk_id)

-- What a decoded address promises: the type and number of the identifier, and the exact offset of
-- that chunk, which does not wrap.
pub record Located (id : ℕ) (a : PageAddr) : Type 0 where
  pub typed : chunk_type id ≡ ok a.type
  pub numbered : a.number ≡ chunk_no id
  pub sized : a.size ≡ chunk_size a.type
  pub exact : a.offset ≡ a.number * a.size
  pub in_range : a.offset < word

offset-lt :
    (type : ChunkType) (n : ℕ)
    → (n * chunk_size type < word → ltb ((word - 1) / chunk_size type) n ≡ false)
      × (ltb ((word - 1) / chunk_size type) n ≡ false → n * chunk_size type < word)
offset-lt chunk_4kb n = (λ h. ground arith, λ h. ground arith)
offset-lt chunk_64kb n = (λ h. ground arith, λ h. ground arith)
offset-lt chunk_512kb n = (λ h. ground arith, λ h. ground arith)
offset-lt chunk_2mb n = (λ h. ground arith, λ h. ground arith)

-- Decoding a 64-bit identifier gives the exact byte offset of the chunk, or reports an overflow,
-- and that only where the offset does not fit 64 bits.
pub decode_chunk_id-Located :
    (id : ℕ)
    → id < word
    → ((a : PageAddr) × (decode_chunk_id id ≡ ok a) × Located id a)
      ⊎ ((decode_chunk_id id ≡ throws overflow_error)
          × ((type : ChunkType) × (chunk_type id ≡ ok type)
              × (word ≤ chunk_no id * chunk_size type)))
unfolding decode_chunk_id
decode_chunk_id-Located id h =
    let (type, e, _) = make_chunk_id-chunk_no id h in
    let limits = offset-lt type (chunk_no id) in
    elim (Bool-cases (ltb ((word - 1) / chunk_size type) (chunk_no id))) [
      | inl far ↦ inr (rw (e, far), (type, e, ground arith))
      | inr near ↦
          let fits : chunk_no id * chunk_size type < word = limits.1 near in
          inl (
            rw (e, near)
              (
                record {
                  type = type;
                  number = chunk_no id;
                  offset = chunk_no id * chunk_size type % word;
                  size = chunk_size type;
                },
                refl,
                record {
                  typed = e;
                  numbered = refl;
                  sized = refl;
                  exact = mod-eq_of_lt fits;
                  in_range = rw (mod-eq_of_lt fits) fits;
                },
              ))
    ]

-- Two 64-bit identifiers of one type and one number are the same.
pub chunk_id_unique :
    (a b : ℕ) (type : ChunkType)
    → a < word
    → b < word
    → chunk_type a ≡ ok type
    → chunk_type b ≡ ok type
    → chunk_no a ≡ chunk_no b
    → a ≡ b
chunk_id_unique a b type h k ta tb e =
    let (s, sa, ma) = make_chunk_id-chunk_no a h in
    let (t, sb, mb) = make_chunk_id-chunk_no b k in cc
