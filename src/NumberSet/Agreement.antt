-- ===== src/NumberSet/Agreement.antt =====
-- The bits are the numbers of the vector, as long as no number is inserted twice.
use skip_cell.Common.{
  ℕ, ◌+◌, ◌<◌, ◌≡◌, ap, ◌∙◌, Bool, true, false, ◌&&◌, inl, inr, Bool-cases, List, [], ◌∷◌, ltb,
  ◌==◌, ==_iff, if◌then◌else◌, one_if, count, count-cons, Result, ok, throws, arith,
}
use skip_cell.NumberMap.Bits.{Bitset}
use skip_cell.NumberSet.{NumberSet, empty_set, with_room, insert_id, pop_any, clear_set}

-- A call that changes the set.
pub data Op : Type 0 where
  inserts : ℕ → Op
  pops : Op
  clears : Op

module _ {B : Type 0} ⦃b : Bitset B⦄ where
  open b use {
    bits, test, resized, put, cleared, bits-none, bits-cleared, bits-resized, bits-put, test-kept,
    test-new, test-put,
  }

  -- Whether a bit is there and set.
  abbrev pub has : NumberSet B → ℕ → Bool
  has s j = ltb j (bits s.values_bitset) && test s.values_bitset j

  abbrev or_left : NumberSet B → Result (ℕ × NumberSet B) → NumberSet B
  or_left s (ok (_, after)) = after
  or_left s (throws e) = s

  unfoldable pub step : Op → NumberSet B → NumberSet B
  unfolding insert_id pop_any clear_set
  step (inserts id) s = insert_id id s
  step pops s = or_left s (pop_any s)
  step clears s = clear_set s

  unfoldable pub run : List Op → NumberSet B → NumberSet B
  unfolding step
  run [] s = s
  run (op ∷ ops) s = run ops (step op s)

  -- No number is inserted that is in the set.
  abbrev IsNew : Op → NumberSet B → Type 0
  IsNew (inserts id) s = has s id ≡ false
  IsNew pops s = Unit {0}
  IsNew clears s = Unit {0}

  unfoldable pub AreNew : List Op → NumberSet B → Type 0
  AreNew [] s = Unit {0}
  AreNew (op ∷ ops) s = IsNew op s × AreNew ops (step op s)

  -- Each number stands in the vector as often as its bit says, once or not at all.
  abbrev pub Agrees : NumberSet B → Type 0
  Agrees s = (j : ℕ) → count j s.values_vector ≡ one_if (has s j)

  room_bits : (id : ℕ) (s : B) → id < bits (with_room id s)
  room_bits id s = ground (arith, bits-resized s (id + 1))

  room_has :
      (id : ℕ) (s : B) (j : ℕ)
      → (ltb j (bits (with_room id s)) && test (with_room id s) j) ≡ (ltb j (bits s) && test s j)
  room_has id s j =
      ground (arith, bits-resized s (id + 1), test-kept s (id + 1) j, test-new s (id + 1) j)

  put_has :
      (s : B) (i j : ℕ) (v : Bool)
      → i < bits s
      → (ltb j (bits (put s i v)) && test (put s i v) j)
        ≡ (if i == j then v else (ltb j (bits s) && test s j))
  put_has s i j v h = ground (arith, bits-put s i v, test-put s i j v h, h)

  insert-Agrees : (id : ℕ) (s : NumberSet B) → has s id ≡ false → Agrees s → Agrees (insert_id id s)
  unfolding insert_id
  insert-Agrees id s new h j =
      let room = with_room id s.values_bitset in
      let now : has (insert_id id s) j ≡ (if id == j then true else has s j) =
        put_has room id j true (room_bits id s.values_bitset)
        ∙ ap (λ t. if id == j then true else t) (room_has id s.values_bitset j) in
      let absent : count id s.values_vector ≡ 0 = h id ∙ ap one_if new in
      elim (Bool-cases (id == j)) [
        | inl same ↦
            let e : id ≡ j = (==_iff id j).0 same in
            ground (
              arith,
              count-cons j id s.values_vector,
              ap (λ k. count k s.values_vector) e,
              absent,
              now,
              same,
            )
        | inr other ↦ ground (arith, count-cons j id s.values_vector, h j, now, other)
      ]

  popped-Agrees :
      (vector : List ℕ) (t : B)
      → let s : NumberSet B = record { values_vector = vector; values_bitset = t } in
        Agrees s → Agrees (or_left s (pop_any s))
  unfolding pop_any
  popped-Agrees [] t h j = h j
  popped-Agrees (id ∷ rest) t h j =
      let s : NumberSet B = record { values_vector = id ∷ rest; values_bitset = t } in
      let held : (count id rest ≡ 0) × (id < bits t) =
        ground (arith, count-cons id id rest, h id) in
      let now : (ltb j (bits (put t id false)) && test (put t id false) j)
          ≡ (if id == j then false else has s j) =
        put_has t id j false held.1 in
      elim (Bool-cases (id == j)) [
        | inl same ↦
            let e : id ≡ j = (==_iff id j).0 same in
            ground (arith, ap (λ k. count k rest) e, held.0, now, same)
        | inr other ↦ ground (arith, count-cons j id rest, h j, now, other)
      ]

  pop-Agrees : (s : NumberSet B) → Agrees s → Agrees (or_left s (pop_any s))
  pop-Agrees s h = popped-Agrees s.values_vector s.values_bitset h

  clear-Agrees : (s : NumberSet B) → Agrees (clear_set s)
  unfolding clear_set count
  clear-Agrees s j = ground (arith, bits-cleared s.values_bitset)

  step-Agrees : (op : Op) (s : NumberSet B) → IsNew op s → Agrees s → Agrees (step op s)
  unfolding step
  step-Agrees (inserts id) s new h = insert-Agrees id s new h
  step-Agrees pops s new h = pop-Agrees s h
  step-Agrees clears s new h = clear-Agrees s

  run-Agrees : (ops : List Op) (s : NumberSet B) → AreNew ops s → Agrees s → Agrees (run ops s)
  unfolding run AreNew
  run-Agrees [] s new h = h
  run-Agrees (op ∷ ops) s new h = run-Agrees ops (step op s) new.1 (step-Agrees op s new.0 h)

module _ (B : Type 0) ⦃b : Bitset B⦄ where
  open b use {bits-none}

  empty-Agrees : Agrees (empty_set {B = B})
  unfolding empty_set count
  empty-Agrees j = ground (arith, bits-none)

  -- After any calls on a new set that insert no number which is in it, over any bitset that behaves as
  -- documented, each number stands in the vector once if its bit is set and not at all otherwise.
  pub run-empty_set :
      (ops : List Op) → AreNew ops (empty_set {B = B}) → Agrees (run ops (empty_set {B = B}))
  run-empty_set ops new = run-Agrees ops (empty_set {B = B}) new empty-Agrees
