-- ===== src/Neighbor/Cursor.antt =====
-- What a neighbour queue keeps: its bounds, its order and its cursor.
use skip_cell.Common.{ℕ, ◌+◌, ◌^◌, ◌≤◌, ◌<◌, ◌≡◌, true, false, arith}
use skip_cell.Neighbor.{before, Queue, new, clear}

-- Bounds: every index that the methods use lies within `data_`.
pub record IsBounded (q : Queue) : Type 0 where
  pub sized : q.size ≤ q.capacity
  pub roomy : q.capacity + 1 ≤ q.slots
  pub small : q.capacity < 2 ^ 62
  pub within : q.cur ≤ q.size

abbrev pub IsSorted : Queue → Type 0
IsSorted q = (i j : ℕ) → i < j → j < q.size → before (q.entries i) (q.entries j) ≡ true

-- The class comment: `cur_` points to the first entry that is unexpanded.
abbrev pub IsAtFirst : Queue → Type 0
IsAtFirst q =
    ((i : ℕ) → i < q.cur → (q.entries i).expanded ≡ true)
    × (q.cur < q.size → (q.entries q.cur).expanded ≡ false)

pub record IsValid (q : Queue) : Type 0 where
  pub bounded : IsBounded q
  pub sorted : IsSorted q
  pub first : IsAtFirst q

pub new-IsValid : (capacity : ℕ) → capacity < 2 ^ 62 → IsValid (new capacity)
unfolding new
new-IsValid capacity h = record {
  bounded = omega arith;
  sorted = λ i j p r. absurd (omega arith);
  first = (λ i p. absurd (omega arith), λ p. absurd (omega arith));
}

pub clear-IsValid : (q : Queue) → IsBounded q → IsValid (clear q)
unfolding clear
clear-IsValid q b = record {
  bounded = omega arith;
  sorted = λ i j p r. absurd (omega arith);
  first = (λ i p. absurd (omega arith), λ p. absurd (omega arith));
}
