-- ===== src/Adjacency.antt =====
-- src/index/io_adjacency_statistics.cc: the neighbor lists of a topology file, rewritten as sorted deltas
-- in groups of four, and the check of such a file against the topology. A mapped file is its bytes;
-- positions in a file do not wrap.
pub mod Topology
pub mod Groups
pub mod Deltas
pub mod Packed
pub mod Records
pub mod Sorted
pub mod Replay
pub mod Header
pub mod Nodes
pub mod Parsed
pub mod Acceptance
pub mod Artifact
mod Tests
