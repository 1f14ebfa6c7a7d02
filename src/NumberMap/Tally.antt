-- ===== src/NumberMap/Tally.antt =====
-- Counting what passes a test below a bound, and a vector that is resized.
use skip_cell.Common.{
  ℕ, zero, suc, ◌+◌, ◌≤◌, ◌<◌, ◌≡◌, refl, ap, ◌∙◌, Bool, false, inl, inr, Bool-cases, List, [], ◌∷◌,
  ◌==◌, ==_iff, if◌then◌else◌, one_if, length, get_elem?, arith,
}
use skip_cell.NumberMap.{resize}

-- How many numbers below a bound pass a test.
unfoldable pub tally_below : (ℕ → Bool) → ℕ → ℕ
tally_below passes zero = 0
tally_below passes (suc n) = one_if (passes n) + tally_below passes n

pub tally_below-ext :
    (p q : ℕ → Bool) (n : ℕ) → ((i : ℕ) → i < n → p i ≡ q i) → tally_below p n ≡ tally_below q n
unfolding tally_below
tally_below-ext p q zero h = refl
tally_below-ext p q (suc n) h =
    omega
      (arith, ap one_if (h n (omega arith)), tally_below-ext p q n (λ i k. h i (omega (arith, k))))

-- Nothing passes from one bound to another.
pub tally_below_more :
    (p : ℕ → Bool) (n k : ℕ)
    → ((i : ℕ) → n ≤ i → i < n + k → p i ≡ false)
    → tally_below p (n + k) ≡ tally_below p n
unfolding tally_below
tally_below_more p n zero h = ap (tally_below p) (omega arith)
tally_below_more p n (suc k) h =
    let e : n + suc k ≡ suc (n + k) = omega arith in
    let last : p (n + k) ≡ false = h (n + k) (omega arith) (omega arith) in
    ap (tally_below p) e
    ∙ ap (λ b. one_if b + tally_below p (n + k)) last
    ∙ omega (arith, tally_below_more p n k (λ i a c. h i a (omega (arith, c))))

-- One number passes otherwise.
pub tally_below-put :
    (p : ℕ → Bool) (i n : ℕ) (v : Bool)
    → i < n
    → tally_below (λ j. if i == j then v else p j) n + one_if (p i) ≡ tally_below p n + one_if v
unfolding tally_below
tally_below-put p i zero v h = absurd (omega arith)
tally_below-put p i (suc n) v h = elim (Bool-cases (i == n)) [
  | inl last ↦
      let e : i ≡ n = (==_iff i n).0 last in
      let below : tally_below (λ j. if i == j then v else p j) n ≡ tally_below p n =
        tally_below-ext (λ j. if i == j then v else p j) p n (λ j k. ground (arith, e, k)) in
      rw last (omega (arith, below, ap (λ j. one_if (p j)) e))
  | inr earlier ↦ rw earlier (omega (arith, tally_below-put p i n v (ground (arith, h, earlier))))
]

pub length-resize {ℓ} :
    {V : Type ℓ} (fresh : V) (n : ℕ) (xs : List V) → length (resize fresh n xs) ≡ n
unfolding resize
length-resize fresh zero xs = refl
length-resize fresh (suc n) [] = ap suc (length-resize fresh n [])
length-resize fresh (suc n) (x ∷ xs) = ap suc (length-resize fresh n xs)

pub get_elem?-resize {ℓ} :
    {V : Type ℓ} (fresh : V) (n : ℕ) (xs : List V) (i : ℕ)
    → i < length xs
    → i < n
    → get_elem? (resize fresh n xs) i ≡ get_elem? xs i
unfolding resize
get_elem?-resize fresh zero xs i h k = absurd (omega arith)
get_elem?-resize fresh (suc n) [] i h k = absurd (omega arith)
get_elem?-resize fresh (suc n) (x ∷ xs) zero h k = refl
get_elem?-resize fresh (suc n) (x ∷ xs) (suc i) h k =
    get_elem?-resize fresh n xs i (omega (arith, h)) (omega (arith, k))
