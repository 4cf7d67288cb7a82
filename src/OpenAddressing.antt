-- ===== src/OpenAddressing.antt =====
-- include/cuco/detail/open_addressing/open_addressing_ref_impl.cuh: the device "ref" shared by the
-- set, map, multiset and multimap. `Defs` has the ref and its memory, `Loop` the two loops that
-- every operation is made of, `Cas` the single-slot updates, the other children the operations as
-- one thread runs them.
pub mod Defs
pub mod Loop
pub mod Cas
pub mod Insert
pub mod Erase
pub mod Lookup
pub mod Path
pub mod Table
pub mod Steps
pub mod Reach
pub mod Arrival
pub mod Queries
pub mod Writes
pub mod Insertion
pub mod InsertLaws
pub mod EraseLaws
pub mod Initialize
pub mod InitializeLaws
pub mod Duplicates
pub mod Cover
pub mod RoundTrip
