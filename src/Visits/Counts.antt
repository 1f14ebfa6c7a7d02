-- ===== src/Visits/Counts.antt =====
-- The counters after any calls.
use skip_cell.Common.{
  ℕ, zero, suc, ◌+◌, ◌%◌, ◌<◌, ◌≡◌, refl, ap, ◌∙◌, true, List, [], ◌∷◌, ◌==◌, count, count-cons,
  count-nil, get_elem?, some, one_if, arith,
}
use skip_cell.Chunk.{word}
use skip_cell.Visits.{Tracker, start, record_node, record_each, snapshot_from, snapshot}

record_each-counts :
    (ids : List ℕ) (t : Tracker) (node : ℕ)
    → t.enabled ≡ true
    → node < t.num_nodes
    → t.counters node < word
    → ((record_each ids t).counters node ≡ (t.counters node + count node ids) % word)
      × ((record_each ids t).num_nodes ≡ t.num_nodes)
unfolding record_each
record_each-counts [] t node on inside small = (ground (arith, count-nil node), refl)
record_each-counts (id ∷ ids) t node on inside small =
    let next = record_node id t in
    let kept : (next.enabled ≡ true) × (next.num_nodes ≡ t.num_nodes) = kept_by id t on in
    let step : next.counters node ≡ (t.counters node + one_if (node == id)) % word =
      counted_by id t node on inside small in
    let (counted, same) =
      record_each-counts ids next node kept.0 (omega (arith, kept.1, inside))
        (omega (arith, step)) in
    (omega (arith, counted, step, count-cons node id ids), same ∙ kept.1)
  where
    kept_by :
        (id : ℕ) (t : Tracker)
        → t.enabled ≡ true
        → ((record_node id t).enabled ≡ true) × ((record_node id t).num_nodes ≡ t.num_nodes)
    kept_by id t on = ground arith

    counted_by :
        (id : ℕ) (t : Tracker) (node : ℕ)
        → t.enabled ≡ true
        → node < t.num_nodes
        → t.counters node < word
        → (record_node id t).counters node ≡ (t.counters node + one_if (node == id)) % word
    counted_by id t node on inside small = ground arith

snapshot_from-get :
    (n i node : ℕ) (t : Tracker)
    → node < n
    → get_elem? (snapshot_from n i t) node ≡ some (t.counters (i + node))
unfolding snapshot_from
snapshot_from-get zero i node t h = absurd (omega arith)
snapshot_from-get (suc n) i zero t h = ap (λ k. some (t.counters k)) (omega arith)
snapshot_from-get (suc n) i (suc node) t h =
    snapshot_from-get n (i + 1) node t (omega arith) ∙ ap (λ k. some (t.counters k)) (omega arith)

-- After a start for some nodes and any calls for any node ids, a snapshot has for each of the nodes
-- how many of the calls were for it, modulo 2 ^ 64.
pub snapshot-record_each :
    (num_nodes : ℕ) (ids : List ℕ) (t : Tracker) (node : ℕ)
    → node < num_nodes
    → get_elem? (snapshot (record_each ids (start num_nodes t))) node ≡ some (count node ids % word)
unfolding snapshot start
snapshot-record_each num_nodes ids t node inside =
    let begun = start num_nodes t in
    let (counted, same) = record_each-counts ids begun node refl inside (omega arith) in
    let after = record_each ids begun in
    let zeroed : begun.counters node ≡ 0 = refl in
    let place : 0 + node ≡ node = omega arith in
    let value : after.counters node ≡ count node ids % word = omega (arith, counted, zeroed) in
    snapshot_from-get after.num_nodes 0 node after (omega (arith, same, inside))
    ∙ ap (λ k. some (after.counters k)) place
    ∙ ap some value
