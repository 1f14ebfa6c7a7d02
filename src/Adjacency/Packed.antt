-- ===== src/Adjacency/Packed.antt =====
-- `append_packed_permutation` and `read_packed_permutation`: small numbers of a fixed count of bits, one
-- behind the other across the bytes.
use skip_cell.Common.{
  ℕ, zero, suc, ◌+◌, ◌-◌, ◌*◌, ◌/◌, ◌%◌, ◌^◌, List, [], ◌∷◌, ltb, ◌==◌, if◌then◌else◌, length,
  replicate,
}
use skip_cell.Common.Bits.{bit_and, bit_or, shift}

-- `std::bit_width` of a number of 64 bits.
unfoldable pub width_in : ℕ → ℕ → ℕ
width_in zero x = 0
width_in (suc fuel) x = if x == 0 then 0 else 1 + width_in fuel (x / 2)

abbrev pub bit_width : ℕ → ℕ
bit_width x = width_in 64 x

abbrev pub packed_bytes : ℕ → ℕ → ℕ
packed_bytes n bits = (n * bits + 7) / 8

-- `output[i] |= value`.
unfoldable pub or_at : ℕ → ℕ → List ℕ → List ℕ
or_at i value [] = []
or_at zero value (b ∷ bytes) = bit_or b value ∷ bytes
or_at (suc i) value (b ∷ bytes) = b ∷ or_at i value bytes

-- One number, in the byte it starts in and the next one, if there is one.
unfoldable pub pack_one : ℕ → ℕ → ℕ → List ℕ → List ℕ
unfolding or_at
pack_one bits index value bytes =
    let bit = index * bits in
    let byte = bit / 8 in
    let shifted = shift value (bit % 8) in
    let once = or_at byte (shifted % 256) bytes in
    if ltb (byte + 1) (length bytes) then or_at (byte + 1) (shifted / 256 % 256) once else once

unfoldable pub pack_each : ℕ → ℕ → List ℕ → List ℕ → List ℕ
unfolding pack_one
pack_each bits index [] bytes = bytes
pack_each bits index (v ∷ values) bytes =
    pack_each bits (index + 1) values (pack_one bits index v bytes)

unfoldable pub packed_permutation : List ℕ → ℕ → List ℕ
unfolding pack_each
packed_permutation positions bits =
    if bits == 0
    then []
    else pack_each bits 0 positions (replicate (packed_bytes (length positions) bits) 0)

-- A byte of a span; one behind its end is undefined, and never read.
unfoldable pub byte_of : ℕ → List ℕ → ℕ
byte_of i [] = 0
byte_of zero (b ∷ bytes) = b
byte_of (suc i) (b ∷ bytes) = byte_of i bytes

unfoldable pub read_packed_permutation : List ℕ → ℕ → ℕ → ℕ
unfolding byte_of
read_packed_permutation bytes index bits =
    if bits == 0
    then 0
    else (let bit = index * bits in
        let byte = bit / 8 in
        let low = byte_of byte bytes in
        let packed =
          if ltb (byte + 1) (length bytes)
          then bit_or low (shift (byte_of (byte + 1) bytes) 8)
          else low in
        bit_and (packed / 2 ^ (bit % 8)) (2 ^ bits - 1) % 256)
