-- ===== src/Lib.antt =====
-- SkipCell: a model of the page cache, the candidate queue, the chunk files, the delta file
-- and the adaptive cells of the disk index.
--
-- The program's parts and how they interact. A disk index keeps its data in chunks of four sizes.
-- `disk_manager_t` names a chunk by a 64-bit identifier of a type and a number; `chunk_t` is the
-- control body of a chunk in memory; `io_lru_buffer_pool_t` holds the pages that are read, one frame
-- each, and is shared by the search threads: a thread reserves a page, reads it from the device if the
-- reservation is a load, publishes the load, and releases the reservation. A search walks the graph
-- with a `neighbor_priority_queue_t`, the bounded queue of its candidates, whose pages it reserves.
-- The optimised index cuts the graph into cells of nodes and reads their pages in runs;
-- `adaptive_cell_runtime_t` watches the queries and merges cells that are loaded together, by a table of
-- views whose snapshots it exchanges while the search threads read.
--
-- The modules:
--   - Common: tests on numbers, lists over the native numbers, association lists, error results,
--     and `Calls`, the calls that change a state and may throw and keep what they changed before.
--   - Neighbor: include/index/neighbor.h. `insert`, `insert_or_update`, `closest_unexpanded`,
--     `has_unexpanded_node`, `reserve` and `clear` keep their names. Neighbor/Search has the binary
--     search, Neighbor/Cursor the cursor, the others one operation each.
--   - Chunk: include/storage/chunk.h, and the identifiers of src/disk_manager.cc with the types of
--     include/storage/storage_types.h.
--   - Buffers: include/storage/chunk_buf_pool.h and src/chunk_buf_pool.cc, `chunk_level_pool_t`: `init`,
--     `destroy`, `allocate_chunk`, `release_chunk`. Buffers/Slots has the invariant, Buffers/Stack
--     allocation and release, Buffers/Init the fresh level.
--   - Disk: src/disk_manager.cc with include/storage/disk_manager.h. Disk has the levels, allocation,
--     deletion and the check of identifiers, Disk/Transfer `write_chunk`, `write_new_chunk` and
--     `load_chunk`. Disk/Slots and Disk/Live are about the chunks in use, Disk/Bytes, Disk/Pages and
--     Disk/Writes about what the pages hold. Disk/Meta has `flush_meta` and `load_meta`, Disk/Reopen
--     is about the two together.
--   - Delta: include/index/delta_store.h and src/delta_store.cc: the buffer of insertions, `flush_to_file`
--     and `replay_file`. Delta/Codec has the bytes of a record, Delta/Replay the loop.
--   - Lru: include/storage/io_lru_buffer_pool.h and src/io_lru_buffer_pool.cc. Lru/Types has the
--     state, Lru/Victim the lambda `select_victim`, Lru/Reserve `reserve_locked` (one pass of its loop is
--     `attempt`), `reserve_many` and `try_reserve_hit`, Lru/Publish `publish` and `release`, Lru/Capacity
--     construction, `clear`, `reset_capacity` and the pools by chunk size. Lru/Ownership is about
--     who owns a frame, an operation to a module, and Lru/Ownership/Traces about histories of them.
--   - Adjacency: src/index/io_adjacency_statistics.cc with its header. Adjacency/Topology has
--     `parse_raw_topology`, Adjacency/Groups `append_groupvarint_deltas` and the loop that reads the
--     groups, Adjacency/Packed the packed permutation, Adjacency/Records the record of a node and its
--     check, Adjacency/Artifact the header, `build_io_groupvarint_adjacency_statistics` (`build`) and
--     `verify_io_groupvarint_adjacency_statistics` (`verify`). The other modules lead from a group to
--     the whole file. `Common/Bytes` has the numbers in bytes and the checksum that the files share.
--   - Visits: include/search/node_visit_tracker.h, the counters of expanded nodes.
--   - Channel: include/common/concurrent_queue.h, the queue between threads.
--   - Optimized: parts of src/index/io_optimized_index.cc with its header. Optimized/Runs has
--     `make_io_page_runs`, Optimized/Assignment `build_io_global_graph_cell_assignment`;
--     Optimized/Gathers is about the growth of one cell, Optimized/Coverage about all of them.
--   - Cells: include/index/adaptive_cell_runtime.h and src/index/adaptive_cell_runtime.cc. Cells has the
--     state, Cells/Filter the filter of moved nodes, Cells/Directory `vector_location` and the directory,
--     Cells/Observe `observe`, `observe_query` and `profile`, Cells/Publish `try_publish` (up to the
--     exchange it is `prepare`, the exchange is `commit`) and `make_contiguous_replacement`,
--     Cells/Initial the constructor with `initialize`. Cells/Ownership is about who owns a logical
--     cell, Cells/Entries, Cells/Built, Cells/Published and Cells/Exchanges lead from the table to a
--     call, Cells/Observations is about the counters, Cells/Histories and Cells/Start about calls in
--     any order, Cells/Contiguous about merging neighbors.
--   - NumberMap: include/common/natural_number_map.h and src/common/natural_number_map.cc.
--     NumberMap/Bits has what is relied on of `boost::dynamic_bitset`, NumberMap/ListBits an
--     example of it, NumberMap/Tally counts, NumberMap/Refinement has the map as
--     a partial function, NumberMap/Enumeration the loop over its entries, as
--     src/index/vamana_index.cc runs it.
--   - NumberSet: include/common/natural_number_set.h and src/common/natural_number_set.cc, over the same
--     bitset. NumberSet/Agreement is about its vector and its bits.
--   - NodeDirectory: include/index/node_directory.h with include/index/node_defs.h: where the slot of a
--     node is. NodeDirectory/Files is about the file.
--   - Polar: the identifiers of the cells in src/index/polar.cc, with include/index/polar.h.
--   - Common/Sets: sorted lists without repetitions, as `std::sort` and `std::unique` leave them.
--
-- How the model stands to the code. A critical section under the pool's mutex is one call on the
-- state; a history is any sequence of them, whichever threads they come from. A wait on the condition
-- variable ends a section, and the thread's next attempt is a later one. The frames of the buffer pool
-- are a parameter: a function from an index to a control body. What the operating system answers to a
-- call on a file is an argument of the operation: which calls succeed, what a failed write leaves
-- behind, how many bytes a read delivers at once. The snapshots of the adaptive cells are objects at
-- addresses, of which a new object gets one that nobody holds; a call up to its exchange is a step, and
-- the exchange is another. What computes with `double` there, and the bitset of the map and the set, are
-- parameters with the operations that the code uses. Numbers are natural numbers, with the
-- wrap-around of 64-bit counters and identifiers written out. A container access that the code leaves
-- undefined throws `undefined`.
--
-- Bounds and fuel. The binary search has one unit of fuel more than the queue has entries, and
-- each round shortens its range. The loop that pads a page has a round for each byte of the page
-- and writes at least one in each. The replay of a delta file has a round for each byte of the
-- file, and each record takes at least one. The loop that loads a page runs along the answers of
-- the reads. The loop that fills a cell has a round for each place of the cell, and the loop over
-- a map a round for each key that it counts. Pools have fewer than 2 ^ 62 pages and page ids lie
-- below 2 ^ 62, the range of a chunk number.
--
-- Not modelled: the opening and closing of the disk manager, moving a buffer level and the pool
-- of four levels, the files of the physical experiment of the adaptive cells with its background
-- thread, its metrics and the count of retired snapshots, the other parts of the optimised index,
-- the topology and CSR files, the index builders, product quantisation and the search drivers
-- over floating-point vectors, memory that the system does not give, tools, tests and bindings.
pub mod Common
pub mod Neighbor
pub mod Chunk
pub mod Buffers
pub mod Disk
pub mod Delta
pub mod Lru
pub mod Visits
pub mod Adjacency
pub mod Optimized
pub mod Cells
pub mod NodeDirectory
pub mod NumberMap
pub mod NumberSet
pub mod Polar
pub mod Channel
