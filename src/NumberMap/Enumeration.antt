-- ===== src/NumberMap/Enumeration.antt =====
-- The loop over the entries: `find_first`, and `find_next` until the position is not valid.
use skip_cell.Common.{
  ℕ, zero, suc, ◌+◌, ◌-◌, ◌≤◌, ◌<◌, ◌≡◌, refl, sym, ap, ◌∙◌, Bool, true, inl, inr, Bool-cases,
  Option-cases, List, [], ◌∷◌, Option, none, some, if◌then◌else◌, one_if, length, arith,
}
use skip_cell.NumberMap.Bits.{Bitset, scan}
use skip_cell.NumberMap.{NumberMap, Position, find_first, find_next}
use skip_cell.NumberMap.Refinement.{IsValid}
use skip_cell.NumberMap.Tally.{tally_below}

-- The keys that pass a test among so many from one on, in their order.
unfoldable pub passing : (ℕ → Bool) → ℕ → ℕ → List ℕ
passing p from zero = []
passing p from (suc n) = let rest = passing p (from + 1) n in if p from then from ∷ rest else rest

scan-none : (p : ℕ → Bool) (from n : ℕ) → scan p from n ≡ none → passing p from n ≡ []
unfolding scan passing
scan-none p from zero e = refl
scan-none p from (suc n) e = ground (arith, scan-none p (from + 1) n, e)

-- The search finds the first of them.
scan-some :
    (p : ℕ → Bool) (from n : ℕ) {k : ℕ}
    → scan p from n ≡ some k
    → (from ≤ k)
      × (k < from + n)
      × (p k ≡ true)
      × (passing p from n ≡ k ∷ passing p (k + 1) (from + n - (k + 1)))
unfolding scan passing
scan-some p from zero e = absurd (ground (arith, e))
scan-some p from (suc n) {k} e = elim (Bool-cases (p from)) [
  | inl here ↦
      let q : from ≡ k = ground (arith, e, here) in
      let left : n ≡ from + suc n - (k + 1) = omega (arith, q) in
      (
        omega (arith, q),
        omega (arith, q),
        ap p (sym q) ∙ here,
        rw here (ap (λ j. j ∷ passing p (j + 1) n) q ∙ ap (λ j. k ∷ passing p (k + 1) j) left),
      )
  | inr later ↦
      let (low, high, passes, f) = scan-some p (from + 1) n (rw later at e) in
      let same : from + 1 + n - (k + 1) ≡ from + suc n - (k + 1) = omega arith in
      (
        omega (arith, low),
        omega (arith, high),
        passes,
        rw later (f ∙ ap (λ j. k ∷ passing p (k + 1) j) same),
      )
]

length-passing :
    (p : ℕ → Bool) (n : ℕ) (k : ℕ)
    → length (passing p k n) + tally_below p k ≡ tally_below p (k + n)
unfolding passing tally_below
length-passing p zero k = let e : k ≡ k + 0 = omega arith in omega (arith, ap (tally_below p) e)
length-passing p (suc n) k =
    let e : k + suc n ≡ k + 1 + n = omega arith in
    let next : k + 1 ≡ suc k = omega arith in
    let one : tally_below p (k + 1) ≡ one_if (p k) + tally_below p k =
      ap (tally_below p) {x = k + 1} next in
    let step : length (passing p k (suc n)) ≡ one_if (p k) + length (passing p (k + 1) n) =
      ground arith in
    omega (arith, step, one, length-passing p n (k + 1), ap (tally_below p) e)

nothing : (xs : List ℕ) → length xs ≡ 0 → xs ≡ []
nothing [] e = refl
nothing (x ∷ xs) e = absurd (omega (arith, e))

-- A key before the others, if the loop ends.
abbrev met : ℕ → Option (List ℕ) → Option (List ℕ)
met key none = none
met key (some keys) = some (key ∷ keys)

-- A round of the loop: it ends where the position is not valid.
abbrev keys_with : (ℕ → ℕ → Option (List ℕ)) → Option ℕ → ℕ → Option (List ℕ)
keys_with more none enumerated = some []
keys_with more (some key) enumerated = met key (more key enumerated)

-- Without fuel the loop has ended only where the position is not valid.
abbrev ended : Option ℕ → Option (List ℕ)
ended none = some []
ended (some key) = none

module _ {B V : Type 0} ⦃b : Bitset B⦄ where
  open b use {bits, test, find_first-scan, find_next-scan}

  -- The keys that the loop meets from a position on until the position is not valid, on fuel, one for
  -- each key; `none` where it has not ended then.
  unfoldable pub keys_from : ℕ → NumberMap B V → Position → Option (List ℕ)
  keys_from zero m p = ended p.key
  keys_from (suc fuel) m p =
      keys_with (λ key enumerated. keys_from fuel m (find_next m key enumerated)) p.key
        p.keys_already_enumerated

  unfoldable pub all_keys : NumberMap B V → Option (List ℕ)
  unfolding keys_from
  all_keys m = keys_from m.size m (find_first m)

  module _ (m : NumberMap B V) (v : IsValid m) where
    abbrev held : ℕ → Bool
    held = test m.values_bitset

    abbrev width : ℕ
    width = bits m.values_bitset

    -- The keys behind a bound, and those before it, are the size.
    behind :
        (from : ℕ)
        → from ≤ width
        → length (passing held from (width - from)) + tally_below held from ≡ m.size
    behind from h =
        let e : from + (width - from) ≡ width = omega (arith, h) in
        length-passing held (width - from) from ∙ ap (tally_below held) e ∙ sym v.counted

    abbrev more : ℕ → ℕ → ℕ → Option (List ℕ)
    more fuel key enumerated = keys_from fuel m (find_next m key enumerated)

    -- The search is asked while keys are left.
    behind_first :
        (key enumerated : ℕ)
        → enumerated < m.size
        → (find_next m key enumerated).key ≡ scan held (key + 1) (width - (key + 1))
    unfolding find_next
    behind_first key enumerated h = ground (arith, h, find_next-scan m.values_bitset key)

    first_key : (find_first m).key ≡ scan held 0 width
    unfolding find_first tally_below
    first_key = elim (Option-cases (scan held 0 width)) [
      | inl e ↦ ground (arith, e, find_first-scan m.values_bitset)
      | inr (k, e) ↦
          let (low, high, passes, f) = scan-some held 0 width e in
          ground (arith, behind 0 (omega arith), f, find_first-scan m.values_bitset)
    ]

    -- From a position that stands at the first key from a bound on, with those before it counted.
    keys_from-passing :
        (fuel from : ℕ) (p : Position)
        → from ≤ width
        → p.key ≡ scan held from (width - from)
        → p.keys_already_enumerated ≡ tally_below held from
        → m.size ≤ p.keys_already_enumerated + fuel
        → keys_from fuel m p ≡ some (passing held from (width - from))
    unfolding keys_from tally_below find_next
    keys_from-passing zero from p inside at counted enough =
        elim (Option-cases (scan held from (width - from))) [
          | inl none_left ↦
              ap ended (at ∙ none_left)
              ∙ ap some (sym (scan-none held from (width - from) none_left))
          | inr (key, found) ↦
              let (low, high, passes, f) = scan-some held from (width - from) found in
              absurd (omega (arith, ap length f, behind from inside, counted, enough))
        ]
    keys_from-passing (suc fuel) from p inside at counted enough =
        elim (Option-cases (scan held from (width - from))) [
          | inl none_left ↦
              ap (λ o. keys_with (more fuel) o p.keys_already_enumerated) (at ∙ none_left)
              ∙ ap some (sym (scan-none held from (width - from) none_left))
          | inr (key, found) ↦
              let (low, high, passes, f) = scan-some held from (width - from) found in
              let here : from + (width - from) ≡ width = omega (arith, inside) in
              let f' : passing held from (width - from)
                  ≡ key ∷ passing held (key + 1) (width - (key + 1)) =
                f ∙ ap (λ w. key ∷ passing held (key + 1) (w - (key + 1))) here in
              let next : key + 1 ≡ suc key = omega arith in
              let past : tally_below held (key + 1) ≡ 1 + tally_below held key =
                ap (tally_below held) {x = key + 1} next
                ∙ ap (λ c. one_if c + tally_below held key) passes in
              let all = behind from inside in
              let rest = behind (key + 1) (omega (arith, high, here)) in
              let one : length (passing held from (width - from))
                  ≡ suc (length (passing held (key + 1) (width - (key + 1)))) =
                ap length f' in
              let q = find_next m key p.keys_already_enumerated in
              let delegated : q.key ≡ scan held (key + 1) (width - (key + 1)) =
                behind_first key p.keys_already_enumerated (omega (arith, all, counted, one)) in
              ap (λ o. keys_with (more fuel) o p.keys_already_enumerated) (at ∙ found)
              ∙ ap (met key) (
                  keys_from-passing fuel (key + 1) q (omega (arith, high, here)) delegated
                    (omega (arith, all, rest, one, counted)) (omega (arith, enough)))
              ∙ ap some (sym f')
        ]

    uncounted : (find_first m).keys_already_enumerated ≡ tally_below held 0
    unfolding find_first tally_below
    uncounted = refl

    -- On a valid map the loop of `find_first` and `find_next` reaches a position that is not valid
    -- within as many rounds as the map counts keys, and has then met exactly the keys that the bitset
    -- holds, each once and in increasing order.
    pub all_keys-passing : all_keys m ≡ some (passing held 0 width)
    unfolding all_keys tally_below
    all_keys-passing =
        let all : width ≡ width - 0 = omega arith in
        keys_from-passing m.size 0 (find_first m) (omega arith) (first_key ∙ ap (scan held 0) all)
          uncounted (omega arith)
        ∙ ap (λ w. some (passing held 0 w)) (sym all)
