-- ===== src/NumberMap/Bits.antt =====
-- What the map relies on of `boost::dynamic_bitset`: its size, its bits, and the searches for a set bit.
use skip_cell.Common.{
  ℕ, zero, suc, ◌+◌, ◌-◌, ◌≤◌, ◌<◌, ◌≡◌, Bool, false, Option, none, some, ◌==◌, if◌then◌else◌,
}

-- The first number from one on, among so many, that passes a test.
unfoldable pub scan : (ℕ → Bool) → ℕ → ℕ → Option ℕ
scan passes from zero = none
scan passes from (suc n) =
    let later = scan passes (from + 1) n in if passes from then some from else later

pub record Bitset (B : Type 0) : Type 0 where
  pub bits : B → ℕ
  pub test : B → ℕ → Bool
  pub resized : B → ℕ → B
  pub put : B → ℕ → Bool → B
  pub no_bits : B
  pub cleared : B → B
  pub find_first : B → Option ℕ
  pub find_next : B → ℕ → Option ℕ
  pub bits-none : bits no_bits ≡ 0
  pub bits-cleared : (s : B) → bits (cleared s) ≡ 0
  pub bits-resized : (s : B) (n : ℕ) → bits (resized s n) ≡ n
  pub bits-put : (s : B) (i : ℕ) (v : Bool) → bits (put s i v) ≡ bits s
  pub test-kept : (s : B) (n i : ℕ) → i < bits s → i < n → test (resized s n) i ≡ test s i
  pub test-new : (s : B) (n i : ℕ) → bits s ≤ i → i < n → test (resized s n) i ≡ false
  pub test-put :
      (s : B) (i j : ℕ) (v : Bool)
      → i < bits s
      → j < bits s
      → test (put s i v) j ≡ (if i == j then v else test s j)
  pub find_first-scan : (s : B) → find_first s ≡ scan (test s) 0 (bits s)
  pub find_next-scan : (s : B) (i : ℕ) → find_next s i ≡ scan (test s) (i + 1) (bits s - (i + 1))
