-- ===== src/Group.antt =====
-- include/cuco/detail/open_addressing/open_addressing_ref_impl.cuh: the operations that a
-- cooperative group of threads runs together, each thread at a window of its own.
pub mod Lanes
pub mod Writes
pub mod Queries
pub mod Windows
pub mod Ballots
pub mod InsertGroup
