-- ===== src/Adjacency/Groups.antt =====
-- `append_groupvarint_deltas`: sorted numbers as their differences, four behind a tag that holds the
-- widths of their bytes; and the loop of the verification that reads them.
use skip_cell.Common.{
  ℕ, zero, suc, ◌+◌, ◌-◌, ◌*◌, ◌/◌, ◌%◌, ◌^◌, min, List, [], ◌∷◌, ◌++◌, ltb, leb, ◌==◌,
  if◌then◌else◌, Result, ok, throws, runtime_error, ◌>>=◌,
}
use skip_cell.Common.Bits.{bit_and, bit_or, shift}
use skip_cell.Common.Bytes.{encode, read_little}

unfoldable pub byte_width : ℕ → ℕ
byte_width value =
    if leb value 255
    then 1
    else if leb value 65535
    then 2
    else if leb value 0x00FFFFFF
    then 3
    else 4

-- The differences of one group; the first number of all stands for itself.
unfoldable pub deltas : ℕ → ℕ → List ℕ → List ℕ
deltas position previous [] = []
deltas position previous (x ∷ xs) =
    (if position == 0 then x else (x + 2 ^ 32 - previous) % 2 ^ 32) ∷ deltas (position + 1) x xs

-- The tag of a group.
unfoldable pub tag_from : ℕ → ℕ → List ℕ → ℕ
tag_from index tag [] = tag
tag_from index tag (d ∷ ds) =
    tag_from (index + 1) (bit_or tag (shift (byte_width d - 1) (index * 2) % 256)) ds

unfoldable pub delta_bytes : List ℕ → List ℕ
delta_bytes [] = []
delta_bytes (d ∷ ds) = encode (byte_width d) d ++ delta_bytes ds

unfoldable pub encode_group : ℕ → ℕ → List ℕ → List ℕ
unfolding deltas tag_from delta_bytes
encode_group position previous xs =
    let ds = deltas position previous xs in tag_from 0 0 ds ∷ delta_bytes ds

unfoldable pub encode_groups : ℕ → ℕ → List ℕ → List ℕ
encode_groups position previous [] = []
encode_groups position previous (a ∷ b ∷ c ∷ d ∷ rest) =
    encode_group position previous (a ∷ b ∷ c ∷ d ∷ []) ++ encode_groups (position + 4) d rest
encode_groups position previous (a ∷ b ∷ c ∷ []) = encode_group position previous (a ∷ b ∷ c ∷ [])
encode_groups position previous (a ∷ b ∷ []) = encode_group position previous (a ∷ b ∷ [])
encode_groups position previous (a ∷ []) = encode_group position previous (a ∷ [])

-- Everything but the first number is a difference, which must not lead beyond 32 bits.
abbrev pub next_value : ℕ → ℕ → ℕ → Result ℕ
next_value position value delta =
    if position == 0
    then ok delta
    else if ltb (2 ^ 32 - 1 - value) delta
    then throws runtime_error
    else ok (value + delta)

-- The numbers of one group: `left` of them from `index` on; the last one, and the bytes behind.
unfoldable pub read_group : ℕ → ℕ → ℕ → ℕ → ℕ → List ℕ → Result (List ℕ × ℕ × List ℕ)
read_group zero index tag position value bytes = ok ([], value, bytes)
read_group (suc left) index tag position value bytes = do
  (delta, rest) ← read_little (bit_and (tag / 2 ^ (index * 2)) 3 + 1) bytes
  next ← next_value position value delta
  (xs, last, behind) ← read_group left (index + 1) tag (position + 1) next rest
  ok (next ∷ xs, last, behind)

-- The loop over the groups, a round for each unit of fuel: `left` numbers from `position` on.
unfoldable pub read_groups : ℕ → ℕ → ℕ → ℕ → List ℕ → Result (List ℕ × List ℕ)
unfolding read_group
read_groups zero left position value bytes = ok ([], bytes)
read_groups (suc fuel) zero position value bytes = ok ([], bytes)
read_groups (suc fuel) (suc left) position value bytes = do
  (tag, rest) ← read_little 1 bytes
  (xs, last, behind) ← read_group (min 4 (suc left)) 0 tag position value rest
  (ys, end) ← read_groups fuel (suc left - 4) (position + 4) last behind
  ok (xs ++ ys, end)
