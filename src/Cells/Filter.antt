-- ===== src/Cells/Filter.antt =====
-- `mix_node_id`, `filter_insert` and `filter_contains`: two bits for a node in 64 words of 64 bits. The
-- filter never denies a node that was inserted.
use Prim.Native.Nat.{bit_xor}
use skip_cell.Common.{
  ℕ, zero, suc, ◌+◌, ◌*◌, ◌/◌, ◌%◌, ◌^◌, ◌<◌, ◌≡◌, ap, ◌∙◌, Bool, true, not, ◌&&◌, ◌==◌, update,
  arith,
}
use skip_cell.Common.Bits.{bit_and, bit_or, shift, bit_and_lowest, bit_or_lowest, bit_and-none}

mix_by : ℕ → ℕ → ℕ → ℕ
mix_by value places factor = bit_xor value (value / 2 ^ places) * factor % 2 ^ 64

unfoldable pub mix_node_id : ℕ → ℕ
unfolding mix_by
mix_node_id node_id =
    let seeded = (node_id + 0x9e3779b97f4a7c15) % 2 ^ 64 in
    let once = mix_by seeded 30 0xbf58476d1ce4e5b9 in
    let twice = mix_by once 27 0x94d049bb133111eb in bit_xor twice (twice / 2 ^ 31)

-- `k_override_filter_bits`.
abbrev pub override_filter_bits : ℕ
override_filter_bits = 64 * 64

abbrev pub first_bit : ℕ → ℕ
first_bit node_id = mix_node_id node_id % override_filter_bits

abbrev pub second_bit : ℕ → ℕ
second_bit node_id = mix_node_id node_id / 2 ^ 32 % override_filter_bits

-- A bit of the array.
unfoldable pub has_bit : (ℕ → ℕ) → ℕ → Bool
has_bit filter bit = not (bit_and (filter (bit / 64)) (shift 1 (bit % 64)) == 0)

unfoldable pub set_bit : (ℕ → ℕ) → ℕ → ℕ → ℕ
set_bit filter bit = update filter (bit / 64) (bit_or (filter (bit / 64)) (shift 1 (bit % 64)))

unfoldable pub filter_contains : (ℕ → ℕ) → ℕ → Bool
unfolding has_bit
filter_contains filter node_id =
    has_bit filter (first_bit node_id) && has_bit filter (second_bit node_id)

unfoldable pub filter_insert : (ℕ → ℕ) → ℕ → ℕ → ℕ
unfolding set_bit
filter_insert filter node_id = set_bit (set_bit filter (first_bit node_id)) (second_bit node_id)

bit_or_sets : (w k : ℕ) → 0 < bit_and (bit_or w (shift 1 k)) (shift 1 k)
unfolding shift
bit_or_sets w zero = omega (arith, bit_and_lowest (bit_or w 1) 1, bit_or_lowest w 1)
bit_or_sets w (suc k) =
    let both = bit_or w (2 * shift 1 k) in
    let half : 2 * shift 1 k / 2 ≡ shift 1 k = omega arith in
    let above : both / 2 ≡ bit_or (w / 2) (2 * shift 1 k / 2) =
      omega (arith, bit_or_lowest w (2 * shift 1 k)) in
    let e : bit_and (both / 2) (2 * shift 1 k / 2)
        ≡ bit_and (bit_or (w / 2) (shift 1 k)) (shift 1 k) =
      ap (λ u. bit_and u (2 * shift 1 k / 2)) above ∙ ap (λ u. bit_and (bit_or (w / 2) u) u) half in
    omega (arith, bit_and_lowest both (2 * shift 1 k), e, bit_or_sets (w / 2) k)

bit_or_keeps : (w t k : ℕ) → 0 < bit_and w (shift 1 k) → 0 < bit_and (bit_or w t) (shift 1 k)
unfolding shift
bit_or_keeps w t zero h = omega (
  arith,
  bit_and_lowest (bit_or w t) 1,
  bit_or_lowest w t,
  bit_and_lowest w 1,
  bit_and-none (suc (w / 2)) (w / 2) (omega arith),
)
bit_or_keeps w t (suc k) h =
    let both = bit_or w t in
    let half : 2 * shift 1 k / 2 ≡ shift 1 k = omega arith in
    let above : both / 2 ≡ bit_or (w / 2) (t / 2) = omega (arith, bit_or_lowest w t) in
    let e : bit_and (both / 2) (2 * shift 1 k / 2) ≡ bit_and (bit_or (w / 2) (t / 2)) (shift 1 k) =
      ap (λ u. bit_and u (2 * shift 1 k / 2)) above ∙ ap (bit_and (bit_or (w / 2) (t / 2))) half in
    let low : bit_and w (2 * shift 1 k) ≡ 2 * bit_and (w / 2) (shift 1 k) =
      omega (arith, bit_and_lowest w (2 * shift 1 k), ap (bit_and (w / 2)) half) in
    omega (
      arith,
      bit_and_lowest both (2 * shift 1 k),
      e,
      bit_or_keeps (w / 2) (t / 2) k (omega (arith, low, h)),
    )

has_bit-set_self : (f : ℕ → ℕ) (bit : ℕ) → has_bit (set_bit f bit) bit ≡ true
unfolding has_bit set_bit
has_bit-set_self f bit = ground (arith, bit_or_sets (f (bit / 64)) (bit % 64))

has_bit-set :
    (f : ℕ → ℕ) (bit other : ℕ) → has_bit f bit ≡ true → has_bit (set_bit f other) bit ≡ true
unfolding has_bit set_bit
has_bit-set f bit other h =
    ground (arith, bit_or_keeps (f (bit / 64)) (shift 1 (other % 64)) (bit % 64), ap f, h)

pub filter_contains-insert_self :
    (f : ℕ → ℕ) (node : ℕ) → filter_contains (filter_insert f node) node ≡ true
unfolding filter_contains filter_insert
filter_contains-insert_self f node = ground (
  arith,
  has_bit-set (set_bit f (first_bit node)) (first_bit node) (second_bit node)
      (has_bit-set_self f (first_bit node)),
  has_bit-set_self (set_bit f (first_bit node)) (second_bit node),
)

pub filter_contains-insert :
    (f : ℕ → ℕ) (node other : ℕ)
    → filter_contains f node ≡ true
    → filter_contains (filter_insert f other) node ≡ true
unfolding filter_contains filter_insert
filter_contains-insert f node other h =
    ground (arith, h, kept (first_bit node), kept (second_bit node))
  where
    kept :
        (bit : ℕ)
        → has_bit f bit ≡ true
        → has_bit (set_bit (set_bit f (first_bit other)) (second_bit other)) bit ≡ true
    kept bit e =
        has_bit-set (set_bit f (first_bit other)) bit (second_bit other)
          (has_bit-set f bit (first_bit other) e)
