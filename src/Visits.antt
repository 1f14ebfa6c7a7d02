-- ===== src/Visits.antt =====
-- include/search/node_visit_tracker.h: how often each node was expanded. A call of an atomic counter is
-- one step; the calls of several threads are a list of them in some order.
pub mod Counts
mod Tests
use skip_cell.Common.{
  ℕ, zero, suc, ◌+◌, ◌%◌, Bool, true, false, not, ◌||◌, List, [], ◌∷◌, leb, if◌then◌else◌, update,
}
use skip_cell.Chunk.{word}

pub record Tracker : Type 0 where
  pub counters : ℕ → ℕ
  pub num_nodes : ℕ
  pub enabled : Bool

unfoldable pub stop : Tracker → Tracker
stop t = record t { enabled = false }

-- Fresh counters for the nodes.
unfoldable pub start : ℕ → Tracker → Tracker
unfolding stop
start num_nodes t = record (stop t) { counters = λ _. 0; num_nodes = num_nodes; enabled = true }

-- `record`, of one node.
unfoldable pub record_node : ℕ → Tracker → Tracker
record_node node_id t =
    if not t.enabled || leb t.num_nodes node_id
    then t
    else record t { counters = update t.counters node_id ((t.counters node_id + 1) % word) }

unfoldable pub record_each : List ℕ → Tracker → Tracker
unfolding record_node
record_each [] t = t
record_each (node_id ∷ ids) t = record_each ids (record_node node_id t)

-- The counters of the nodes from `i` on.
unfoldable pub snapshot_from : ℕ → ℕ → Tracker → List ℕ
snapshot_from zero i t = []
snapshot_from (suc n) i t = t.counters i ∷ snapshot_from n (i + 1) t

unfoldable pub snapshot : Tracker → List ℕ
unfolding snapshot_from
snapshot t = snapshot_from t.num_nodes 0 t
