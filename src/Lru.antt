-- ===== src/Lru.antt =====
-- include/storage/io_lru_buffer_pool.h and src/io_lru_buffer_pool.cc: the read-only page cache.
-- A frame is the number of its chunk in the pool's own buffer pool. A vector used as a stack is a
-- list with the back at its head; `lru_` is a list with its front at the head, and an iterator into
-- it is the page that it points to. Each method runs under the pool's lock, so a method is a step.
pub mod Types
pub mod Victim
pub mod Reserve
pub mod Publish
pub mod Capacity
pub mod Ownership
mod Tests
