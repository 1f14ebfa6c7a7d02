-- ===== src/Common/Bits.antt =====
-- `&`, `|` and `^` of numbers: a shift to the left is a product with a power of two, and the `|` of two
-- numbers that share no bit is their sum.
use Prim.Native.Nat.{
  ℕ, zero, suc, ◌+◌, ◌*◌, ◌/◌, ◌%◌, ◌≤◌, ◌<◌, min, max, bit_and, bit_or, digits, bit_and-bitwise,
  bit_or-bitwise,
}
pub use Prim.Native.Nat.{bit_and, bit_or}
use mathlib.Core.Path.{◌≡◌, refl, sym, ap, ◌∙◌}
use native.Mathlib.Omega.{arith}

-- An operation on two numbers digit by digit, where `behind` is the rest of the second number once the
-- first one has run out.
module _ (behind : ℕ → ℕ) (digit : ℕ → ℕ → ℕ) where
  abbrev by_digits : ℕ → ℕ → ℕ → ℕ
  by_digits rounds a b = digits behind digit rounds a b

  by_digits-none : (rounds b : ℕ) → by_digits rounds zero b ≡ behind b
  by_digits-none zero b = refl
  by_digits-none (suc rounds) b = refl

  -- More rounds than the first number has digits change nothing.
  by_digits-rounds :
      (rounds : ℕ) (a b others : ℕ)
      → a ≤ rounds
      → a ≤ others
      → by_digits rounds a b ≡ by_digits others a b
  by_digits-rounds rounds zero b others _ _ =
      by_digits-none rounds b ∙ sym (by_digits-none others b)
  by_digits-rounds zero (suc a) b others few _ = absurd (omega arith)
  by_digits-rounds (suc rounds) (suc a) b zero _ few = absurd (omega arith)
  by_digits-rounds (suc rounds) (suc a) b (suc others) enough enough' =
      ap (λ high. high * 2 + digit (suc a % 2) (b % 2))
        (by_digits-rounds rounds (suc a / 2) (b / 2) others (omega arith) (omega arith))

  -- The lowest digit apart from those above it.
  by_digits-lowest :
      (a b : ℕ)
      → by_digits (suc a) (suc a) b
        ≡ by_digits (suc a / 2) (suc a / 2) (b / 2) * 2 + digit (suc a % 2) (b % 2)
  by_digits-lowest a b =
      ap (λ high. high * 2 + digit (suc a % 2) (b % 2))
        (by_digits-rounds a (suc a / 2) (b / 2) (suc a / 2) (omega arith) (omega arith))

none-bit_and : (b : ℕ) → bit_and 0 b ≡ 0
none-bit_and b = bit_and-bitwise 0 b

pub zero-bit_or : (b : ℕ) → bit_or 0 b ≡ b
zero-bit_or b = bit_or-bitwise 0 b

pub bit_and_lowest : (x y : ℕ) → bit_and x y ≡ min (x % 2) (y % 2) + 2 * bit_and (x / 2) (y / 2)
bit_and_lowest zero b = omega (arith, none-bit_and b, none-bit_and (b / 2))
bit_and_lowest (suc a) b =
    let parts = by_digits-lowest (λ _. zero) min a b in
    let high = bit_and-bitwise (suc a / 2) (b / 2) in
    omega (arith, bit_and-bitwise (suc a) b, parts, high)

pub bit_or_lowest : (x y : ℕ) → bit_or x y ≡ max (x % 2) (y % 2) + 2 * bit_or (x / 2) (y / 2)
bit_or_lowest zero b = omega (arith, zero-bit_or b, zero-bit_or (b / 2))
bit_or_lowest (suc a) b =
    let parts = by_digits-lowest (λ b. b) max a b in
    let high = bit_or-bitwise (suc a / 2) (b / 2) in
    omega (arith, bit_or-bitwise (suc a) b, parts, high)

-- `b << k`.
unfoldable pub shift : ℕ → ℕ → ℕ
shift b zero = b
shift b (suc k) = 2 * shift b k

pub shift-lt : (a b k : ℕ) → a < b → shift a k < shift b k
unfolding shift
shift-lt a b zero h = h
shift-lt a b (suc k) h = omega (arith, shift-lt a b k h)

-- The `|` of a number below `1 << k` and one shifted by `k`.
pub bit_or-shift : (a b k : ℕ) → a < shift 1 k → bit_or a (shift b k) ≡ a + shift b k
unfolding shift
bit_or-shift zero b zero h = omega (arith, zero-bit_or b)
bit_or-shift (suc a) b zero h = absurd (omega arith)
bit_or-shift a b (suc k) h =
    let half : 2 * shift b k / 2 ≡ shift b k = omega arith in
    omega (
      arith,
      bit_or_lowest a (2 * shift b k),
      ap (bit_or (a / 2)) half,
      bit_or-shift (a / 2) b k (omega arith),
    )

-- No digit is shared with 0.
pub bit_and-none : (bound a : ℕ) → a < bound → bit_and a 0 ≡ 0
bit_and-none zero a below = absurd (omega arith)
bit_and-none (suc bound) zero below = refl
bit_and-none (suc bound) (suc a) below =
    bit_and_lowest (suc a) 0 ∙ omega (arith, bit_and-none bound (suc a / 2) (omega arith))

-- The two lowest digits.
pub bit_and_three : (a : ℕ) → bit_and a 3 ≡ a % 4
bit_and_three a =
    let second = bit_and_lowest (a / 2) 1 in
    let above = bit_and-none (suc (a / 2 / 2)) (a / 2 / 2) (omega arith) in
    omega (arith, bit_and_lowest a 3, second, above)
