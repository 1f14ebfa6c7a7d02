-- ===== src/NumberSet/Tests.antt =====
-- Calls on a set over a list of bits.
use skip_cell.Common.{refl, List, [], ◌∷◌, Bool}
use skip_cell.NumberMap.ListBits.{list_bitset, at, or_false}
use skip_cell.NumberMap.{resize}
use skip_cell.NumberSet.{empty_set, insert_id, pop_any}
use skip_cell.NumberSet.Agreement.{Op, inserts, pops, run, step, AreNew, Agrees, run-empty_set}

abbrev set_calls : List Op
set_calls = inserts 2 ∷ inserts 0 ∷ pops ∷ inserts 0 ∷ []

set_calls-AreNew : AreNew set_calls (empty_set {B = List Bool})
unfolding AreNew step empty_set insert_id pop_any resize at or_false list_bitset
set_calls-AreNew = (refl, (refl, (tt, (refl, tt))))

run-empty_set_example : Agrees (run set_calls (empty_set {B = List Bool}))
run-empty_set_example = run-empty_set (List Bool) set_calls set_calls-AreNew
