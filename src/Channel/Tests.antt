-- ===== src/Channel/Tests.antt =====
-- A queue at concrete inputs.
use skip_cell.Common.{ℕ, ◌≡◌, List, [], ◌∷◌, ◌++◌}
use skip_cell.Channel.{Channel, Op, pushes, inserts, pops, run}
use skip_cell.Channel.Order.{given, taken, run-in_order}

abbrev waiting : Channel ℕ
waiting = record { q = 5 ∷ []; null_t = 0 }

abbrev calls : List (Op ℕ)
calls = pops ∷ pops ∷ inserts (1 ∷ 2 ∷ []) ∷ pushes 3 ∷ pops ∷ []

run-in_order_example : taken calls waiting ++ (run calls waiting).q ≡ waiting.q ++ given calls
run-in_order_example = run-in_order calls waiting
