-- ===== src/Adjacency/Deltas.antt =====
-- Sorted numbers come back from their differences.
use mathlib.Core.List.{append_assoc}
use skip_cell.Common.{
  ℕ, zero, suc, ◌+◌, ◌-◌, ◌*◌, ◌/◌, ◌%◌, ◌^◌, ◌≤◌, ◌<◌, ◌≡◌, refl, ap, ◌∙◌, min, List, [], ◌∷◌,
  ◌++◌, ◌==◌, if◌then◌else◌, length, Result, ok, throws, arith, ◌>>=◌,
}
use skip_cell.Common.Bits.{bit_and, bit_or, shift, bit_or-shift, bit_and_three, zero-bit_or}
use skip_cell.Common.Bytes.{encode, decode, Fits, read_exact, read_little, read_little-encode}
use skip_cell.Adjacency.Groups.{
  byte_width, deltas, tag_from, delta_bytes, encode_group, encode_groups, next_value, read_group,
  read_groups,
}

-- Numbers of 32 bits that do not fall, from a first bound on.
unfoldable pub IsAscending : ℕ → List ℕ → Type 0
IsAscending previous [] = Unit {0}
IsAscending previous (x ∷ xs) = (previous ≤ x) × (x < 2 ^ 32) × IsAscending x xs

-- The last number, or the one before all.
unfoldable pub last_of : ℕ → List ℕ → ℕ
last_of previous [] = previous
last_of previous (x ∷ xs) = last_of x xs

byte_width-Fits : (d : ℕ) → d < 2 ^ 32 → Fits (byte_width d) d
unfolding byte_width Fits
byte_width-Fits d h = ground arith

byte_width-lt : (d : ℕ) → byte_width d - 1 < 4
unfolding byte_width
byte_width-lt d = ground arith

byte_width_positive : (d : ℕ) → byte_width d - 1 + 1 ≡ byte_width d
unfolding byte_width
byte_width_positive d = ground arith

-- The tag has the widths of these differences from a place on.
unfoldable pub HasWidths : ℕ → ℕ → List ℕ → Type 0
HasWidths tag index [] = Unit {0}
HasWidths tag index (d ∷ ds) =
    (bit_and (tag / 2 ^ (index * 2)) 3 + 1 ≡ byte_width d) × HasWidths tag (index + 1) ds

AllSmall : List ℕ → Type 0
AllSmall [] = Unit {0}
AllSmall (d ∷ ds) = (d < 2 ^ 32) × AllSmall ds

-- Two bits of a tag that is put together from four fields.
module _ (a b c d : ℕ) (ha : a < 4) (hb : b < 4) (hc : c < 4) (hd : d < 4) where
  or_one : bit_or 0 (shift a 0 % 256) ≡ a
  unfolding shift
  or_one = omega (arith, zero-bit_or (a % 256))

  or_two : bit_or a (shift b 2 % 256) ≡ a + 4 * b
  unfolding shift
  or_two =
      let small : shift b 2 % 256 ≡ shift b 2 = omega arith in
      ap (bit_or a) small ∙ omega (arith, bit_or-shift a b 2 (omega arith))

  or_three : bit_or (a + 4 * b) (shift c 4 % 256) ≡ a + 4 * b + 16 * c
  unfolding shift
  or_three =
      let small : shift c 4 % 256 ≡ shift c 4 = omega arith in
      ap (bit_or (a + 4 * b)) small ∙ omega (arith, bit_or-shift (a + 4 * b) c 4 (omega arith))

  or_four : bit_or (a + 4 * b + 16 * c) (shift d 6 % 256) ≡ a + 4 * b + 16 * c + 64 * d
  unfolding shift
  or_four =
      let small : shift d 6 % 256 ≡ shift d 6 = omega arith in
      ap (bit_or (a + 4 * b + 16 * c)) small
      ∙ omega (arith, bit_or-shift (a + 4 * b + 16 * c) d 6 (omega arith))

-- Two bits of a sum of fields.
bits_at : (tag w : ℕ) (d : ℕ) → tag % 4 ≡ byte_width d - 1 → bit_and tag 3 + 1 ≡ byte_width d
bits_at tag w d e = omega (arith, bit_and_three tag, byte_width_positive d, e)

-- A tag of one byte with these widths.
abbrev Tagged : List ℕ → Type 0
Tagged ds = HasWidths (tag_from 0 0 ds) 0 ds × (tag_from 0 0 ds < 256)

tag_one : (d : ℕ) → Tagged (d ∷ [])
unfolding tag_from HasWidths
tag_one d =
    let w = byte_width d - 1 in
    let e : tag_from 0 0 (d ∷ []) ≡ w =
      or_one w 0 0 0 (byte_width-lt d) (omega arith) (omega arith) (omega arith) in
    ((bits_at _ w d (omega (arith, e, byte_width-lt d)), tt), omega (arith, e, byte_width-lt d))

tag_two : (c d : ℕ) → Tagged (c ∷ d ∷ [])
unfolding tag_from HasWidths
tag_two c d =
    let w = byte_width c - 1 in
    let x = byte_width d - 1 in
    let hw = byte_width-lt c in
    let hx = byte_width-lt d in
    let e : tag_from 0 0 (c ∷ d ∷ []) ≡ w + 4 * x =
      ap (λ t. bit_or t (shift x 2 % 256)) (or_one w x 0 0 hw hx (omega arith) (omega arith))
      ∙ or_two w x 0 0 hw hx (omega arith) (omega arith) in
    (
      (bits_at _ w c (omega (arith, e, hw)), (bits_at _ x d (omega (arith, e, hw, hx)), tt)),
      omega (arith, e, hw, hx),
    )

tag_three : (b c d : ℕ) → Tagged (b ∷ c ∷ d ∷ [])
unfolding tag_from HasWidths
tag_three b c d =
    let w = byte_width b - 1 in
    let x = byte_width c - 1 in
    let y = byte_width d - 1 in
    let hw = byte_width-lt b in
    let hx = byte_width-lt c in
    let hy = byte_width-lt d in
    let e : tag_from 0 0 (b ∷ c ∷ d ∷ []) ≡ w + 4 * x + 16 * y =
      ap (λ t. bit_or (bit_or t (shift x 2 % 256)) (shift y 4 % 256))
        (or_one w x y 0 hw hx hy (omega arith))
      ∙ ap (λ t. bit_or t (shift y 4 % 256)) (or_two w x y 0 hw hx hy (omega arith))
      ∙ or_three w x y 0 hw hx hy (omega arith) in
    (
      (
        bits_at _ w b (omega (arith, e, hw)),
        (
          bits_at _ x c (omega (arith, e, hw, hx)),
          (bits_at _ y d (omega (arith, e, hw, hx, hy)), tt),
        ),
      ),
      omega (arith, e, hw, hx, hy),
    )

tag_four : (a b c d : ℕ) → Tagged (a ∷ b ∷ c ∷ d ∷ [])
unfolding tag_from HasWidths
tag_four a b c d =
    let w = byte_width a - 1 in
    let x = byte_width b - 1 in
    let y = byte_width c - 1 in
    let z = byte_width d - 1 in
    let hw = byte_width-lt a in
    let hx = byte_width-lt b in
    let hy = byte_width-lt c in
    let hz = byte_width-lt d in
    let e : tag_from 0 0 (a ∷ b ∷ c ∷ d ∷ []) ≡ w + 4 * x + 16 * y + 64 * z =
      ap (λ t. bit_or (bit_or (bit_or t (shift x 2 % 256)) (shift y 4 % 256)) (shift z 6 % 256))
        (or_one w x y z hw hx hy hz)
      ∙ ap (λ t. bit_or (bit_or t (shift y 4 % 256)) (shift z 6 % 256)) (or_two w x y z hw hx hy hz)
      ∙ ap (λ t. bit_or t (shift z 6 % 256)) (or_three w x y z hw hx hy hz)
      ∙ or_four w x y z hw hx hy hz in
    (
      (
        bits_at _ w a (omega (arith, e, hw)),
        (
          bits_at _ x b (omega (arith, e, hw, hx)),
          (
            bits_at _ y c (omega (arith, e, hw, hx, hy)),
            (bits_at _ z d (omega (arith, e, hw, hx, hy, hz)), tt),
          ),
        ),
      ),
      omega (arith, e, hw, hx, hy, hz),
    )

-- A group is read back, with its last number and what stands behind it.
read_group-deltas :
    (xs : List ℕ) (index tag position previous : ℕ) (rest : List ℕ)
    → IsAscending previous xs
    → HasWidths tag index (deltas position previous xs)
    → read_group
        (length xs)
        index
        tag
        position
        previous
        (delta_bytes (deltas position previous xs) ++ rest)
      ≡ ok (xs, last_of previous xs, rest)
unfolding read_group delta_bytes deltas IsAscending HasWidths last_of
read_group-deltas [] index tag position previous rest up ws = refl
read_group-deltas (x ∷ xs) index tag position previous rest (le, small, up) (w, ws) =
    let d = if position == 0 then x else (x + 2 ^ 32 - previous) % 2 ^ 32 in
    let more = delta_bytes (deltas (position + 1) x xs) in
    let fits : d < 2 ^ 32 = ground arith in
    let reads : read_little (bit_and (tag / 2 ^ (index * 2)) 3 + 1)
          (encode (byte_width d) d ++ more ++ rest)
        ≡ ok (d, more ++ rest) =
      ap (λ n. read_little n (encode (byte_width d) d ++ more ++ rest)) w
      ∙ ap (read_little (byte_width d)) (append_assoc (encode (byte_width d) d) more rest)
      ∙ read_little-encode (byte_width d) d (more ++ rest) (byte_width-Fits d fits) in
    let next : next_value position previous d ≡ ok x = ground arith in
    rw (reads, read_group)
      (rw next (rw (read_group-deltas xs (index + 1) tag (position + 1) x rest up ws) refl))

-- A group of one to four numbers has a tag of one byte.
deltas-Tagged :
    (position previous : ℕ) (xs : List ℕ)
    → 0 < length xs
    → length xs ≤ 4
    → Tagged (deltas position previous xs)
unfolding deltas
deltas-Tagged position previous [] p q = absurd (omega arith)
deltas-Tagged position previous (a ∷ []) p q = tag_one _
deltas-Tagged position previous (a ∷ b ∷ []) p q = tag_two _ _
deltas-Tagged position previous (a ∷ b ∷ c ∷ []) p q = tag_three _ _ _
deltas-Tagged position previous (a ∷ b ∷ c ∷ d ∷ []) p q = tag_four _ _ _ _
deltas-Tagged position previous (a ∷ b ∷ c ∷ d ∷ e ∷ xs) p q = absurd (omega arith)

abbrev joined : List ℕ → Result (List ℕ × List ℕ) → Result (List ℕ × List ℕ)
joined xs (throws e) = throws e
joined xs (ok (ys, end)) = ok (xs ++ ys, end)

pub read_byte : (b : ℕ) (rest : List ℕ) → read_little 1 (b ∷ rest) ≡ ok (b, rest)
unfolding read_little read_exact decode
read_byte b rest = ap (λ x. ok (x, rest)) (omega arith)

read_groups-none :
    (fuel position value : ℕ) (rest : List ℕ)
    → read_groups fuel 0 position value rest ≡ ok ([], rest)
unfolding read_groups
read_groups-none zero position value rest = refl
read_groups-none (suc fuel) position value rest = refl

-- One round of the loop reads one group.
read_groups-group :
    (fuel left position previous : ℕ) (xs rest : List ℕ)
    → IsAscending previous xs
    → 0 < length xs
    → min 4 (suc left) ≡ length xs
    → read_groups
        (suc fuel)
        (suc left)
        position
        previous
        (encode_group position previous xs ++ rest)
      ≡ joined xs (read_groups fuel (suc left - 4) (position + 4) (last_of previous xs) rest)
unfolding read_groups encode_group
read_groups-group fuel left position previous xs rest up some_there all =
    let ds = deltas position previous xs in
    let (widths, small) = deltas-Tagged position previous xs some_there (omega (arith, all)) in
    let tag : read_little 1 (tag_from 0 0 ds ∷ (delta_bytes ds ++ rest))
        ≡ ok (tag_from 0 0 ds, delta_bytes ds ++ rest) =
      read_byte (tag_from 0 0 ds) (delta_bytes ds ++ rest) in
    let group : read_group (min 4 (suc left)) 0 (tag_from 0 0 ds) position previous
          (delta_bytes ds ++ rest)
        ≡ ok (xs, last_of previous xs, rest) =
      ap (λ n. read_group n 0 (tag_from 0 0 ds) position previous (delta_bytes ds ++ rest)) all
      ∙ read_group-deltas xs 0 (tag_from 0 0 ds) position previous rest up widths in
    rw (tag, read_groups)
      (rw group
        (by_rest (read_groups fuel (suc left - 4) (position + 4) (last_of previous xs) rest)))
  where
    by_rest : (r : Result (List ℕ × List ℕ)) → (r >>= λ (ys, end). ok (xs ++ ys, end)) ≡ joined xs r
    by_rest (ok _) = refl
    by_rest (throws e) = refl

-- Sorted numbers of 32 bits are read back from their groups, and what follows them is left.
pub read_groups-encode :
    (xs : List ℕ) (fuel position previous : ℕ) (rest : List ℕ)
    → IsAscending previous xs
    → length xs ≤ fuel
    → read_groups fuel (length xs) position previous (encode_groups position previous xs ++ rest)
      ≡ ok (xs, rest)
unfolding encode_groups read_groups IsAscending last_of
read_groups-encode [] zero position previous rest up h = refl
read_groups-encode [] (suc fuel) position previous rest up h = refl
read_groups-encode (a ∷ xs) zero position previous rest up h = absurd (omega arith)
read_groups-encode (a ∷ []) (suc fuel) position previous rest up h =
    read_groups-group fuel 0 position previous (a ∷ []) rest up (omega arith) (omega arith)
    ∙ ap (joined (a ∷ [])) (read_groups-none fuel (position + 4) a rest)
read_groups-encode (a ∷ b ∷ []) (suc fuel) position previous rest up h =
    read_groups-group fuel 1 position previous (a ∷ b ∷ []) rest up (omega arith) (omega arith)
    ∙ ap (joined (a ∷ b ∷ [])) (read_groups-none fuel (position + 4) b rest)
read_groups-encode (a ∷ b ∷ c ∷ []) (suc fuel) position previous rest up h =
    read_groups-group fuel 2 position previous (a ∷ b ∷ c ∷ []) rest up (omega arith) (omega arith)
    ∙ ap (joined (a ∷ b ∷ c ∷ [])) (read_groups-none fuel (position + 4) c rest)
read_groups-encode (a ∷ b ∷ c ∷ d ∷ xs) (suc fuel) position previous rest
      (pa, sa, (pb, sb, (pc, sc, (pd, sd, up)))) h =
    let group = a ∷ b ∷ c ∷ d ∷ [] in
    let behind = encode_groups (position + 4) d xs in
    let left = suc (suc (suc (length xs))) in
    let four : suc left - 4 ≡ length xs = omega arith in
    ap (read_groups (suc fuel) (suc left) position previous)
      (append_assoc (encode_group position previous group) behind rest)
    ∙ read_groups-group fuel left position previous group (behind ++ rest)
        (pa, sa, (pb, sb, (pc, sc, (pd, sd, tt)))) (omega arith) (omega arith)
    ∙ ap (λ n. joined group (read_groups fuel n (position + 4) d (behind ++ rest))) four
    ∙ ap (joined group) (read_groups-encode xs fuel (position + 4) d rest up (omega arith))
