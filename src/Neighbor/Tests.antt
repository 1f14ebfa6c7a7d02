-- ===== src/Neighbor/Tests.antt =====
-- Runs of the neighbour queue, and its theorems at small queues.
use skip_cell.Common.{
  ℕ, ◌+◌, ◌<◌, ◌≡◌, refl, ◌≢◌, true, false, Option, some, arith, ok, ◌==◌, if◌then◌else◌, ◌>>=◌,
}
use skip_cell.Neighbor.{
  neighbor, before, Queue, new, read, search, place, locate, insert, find_id, erase_at,
  insert_or_update, skip, mark, closest_unexpanded, has_unexpanded_node,
}
use skip_cell.Neighbor.Cursor.{IsBounded, IsSorted, IsAtFirst, IsValid}
use skip_cell.Neighbor.Insert.{Inserted, Holds, insert-Inserted}
use skip_cell.Neighbor.Pop.{pending, popped, closest_unexpanded-best}
use skip_cell.Neighbor.Update.{Removed, insert_or_update-Inserted, insert_or_update_astray}

program : Unit {0}
unfolding before new read search place locate insert find_id erase_at insert_or_update skip
    closest_unexpanded has_unexpanded_node
program = tt

-- The queue after 8 at distance 20 was expanded and 7 at distance 10 came in.
abbrev two : Queue
two = record {
  size = 2;
  capacity = 4;
  cur = 0;
  slots = 5;
  entries =
      λ i. if i == 0 then neighbor 7 10 else if i == 1 then mark (neighbor 8 20) else neighbor 0 0;
}

ids : Queue → ℕ × ℕ × ℕ × ℕ
ids q = (q.size, (q.entries 0).id, (q.entries 1).id, (q.entries 2).id)

insert_between : (do q ← insert two (neighbor 9 15); ok (ids q)) ≡ ok (3, 7, 9, 8)
unfolding program ids
insert_between = refl

-- The same id at a smaller distance is placed beside the entry that has it.
inserts_id_twice : (do q ← insert two (neighbor 7 5); ok (ids q)) ≡ ok (3, 7, 7, 8)
unfolding program ids
inserts_id_twice = refl

pops_in_order : (do (n, q) ← closest_unexpanded two; ok (n.id + q.cur)) ≡ ok 9
unfolding program
pops_in_order = refl

-- The first entry has moved behind the expanded one, which is handed out again.
pops_twice :
    (do q ← insert_or_update two (neighbor 7 30); (n, r) ← closest_unexpanded q; ok (n.id)) ≡ ok 8
unfolding program
pops_twice = refl

two-IsValid : IsValid two
unfolding before
two-IsValid = record {
  bounded = omega arith;
  sorted = λ i j h k. ground arith;
  first = (λ i h. absurd (omega arith), λ h. refl);
}

insert-Inserted_example :
    (r : Queue) × (insert two (neighbor 9 15) ≡ ok r)
    × Inserted two (neighbor 9 15) r
    × (Holds two (neighbor 9 15) → r ≡ two)
    × IsValid r
insert-Inserted_example = insert-Inserted two (neighbor 9 15) two-IsValid (omega arith)

closest_unexpanded-best_example :
    (closest_unexpanded two ≡ ok (mark (neighbor 7 10), popped two))
    × ((two.entries 0).expanded ≡ false)
    × ((i : ℕ)
        → i < 2
        → i ≢ 0
        → (two.entries i).expanded ≡ false
        → before (neighbor 7 10) (two.entries i) ≡ true)
    × IsValid (popped two)
    × (pending 2 (popped two).entries + 1 ≡ pending 2 two.entries)
unfolding has_unexpanded_node
closest_unexpanded-best_example = closest_unexpanded-best two two-IsValid refl

insert_or_update-Inserted_example :
    (position : Option ℕ) × (c : Queue) × (r : Queue) × Removed two 8 position c
    × (insert_or_update two (neighbor 8 5) ≡ ok r)
    × Inserted c (neighbor 8 5) r
    × IsBounded r
    × IsSorted r
    × (position ≢ some 0 → IsAtFirst r)
insert_or_update-Inserted_example =
    insert_or_update-Inserted two (neighbor 8 5) two-IsValid (omega arith)

insert_or_update_astray_example :
    (r : Queue) × (insert_or_update two (neighbor 7 30) ≡ ok r)
    × (has_unexpanded_node r ≡ true)
    × ((r.entries r.cur).expanded ≡ true)
    × (¬ IsAtFirst r)
unfolding program
insert_or_update_astray_example =
    insert_or_update_astray two (neighbor 7 30) two-IsValid (omega arith) refl (omega arith) refl
      refl
