-- ===== src/DynamicMap.antt =====
-- include/cuco/detail/dynamic_map/dynamic_map.inl: a map of submaps that grows.
pub mod Defs
pub mod Reserve
pub mod InsertLaws
pub mod ContainsLaws
