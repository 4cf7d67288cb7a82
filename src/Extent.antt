-- ===== src/Extent.antt =====
-- `make_window_extent`: the number of windows that a requested size is rounded up to.
pub mod Defs
pub mod Search
pub mod Laws
