-- ===== src/StaticMap.antt =====
-- include/cuco/detail/static_map/static_map_ref.inl: what a `static_map` adds to the ref.
pub mod Assign
pub mod Stuck
pub mod AssignLaws
pub mod Apply
pub mod ApplyLaws
