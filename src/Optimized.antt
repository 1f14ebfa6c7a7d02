-- ===== src/Optimized.antt =====
-- include/index/io_optimized_index.h and src/index/io_optimized_index.cc: where the pages of the vectors
-- are, the runs of consecutive pages that a read asks for, and the cells into which the graph is cut.
pub mod Runs
pub mod Assignment
pub mod Gathers
pub mod Coverage
mod Tests
use skip_cell.Common.{ℕ}

-- `io_page_run_t`.
pub record PageRun : Type 0 where
  pub first_page : ℕ
  pub page_count : ℕ

-- `io_vector_location_t`.
pub record Location : Type 0 where
  pub page_id : ℕ
  pub page_offset : ℕ

-- `io_cell_page_range_t`, without the chunk size.
pub record PageRange : Type 0 where
  pub first_page : ℕ
  pub page_count : ℕ
  pub node_count : ℕ
