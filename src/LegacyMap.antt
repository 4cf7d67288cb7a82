-- ===== src/LegacyMap.antt =====
-- include/cuco/static_map.cuh and include/cuco/detail/static_map.inl: the older `static_map`, the
-- operations of one thread on its device views, and include/cuco/detail/dynamic_map_kernels.cuh.
pub mod Defs
pub mod Insert
pub mod Erase
pub mod Lookup
pub mod Walk
pub mod Refines
pub mod Exchanges
pub mod Updates
pub mod InsertFind
pub mod Kernels
pub mod Laws
pub mod Submaps
pub mod Apart
pub mod Removal
pub mod Answers
