-- ===== src/HyperLogLog.antt =====
-- include/cuco/detail/hyperloglog/hyperloglog_ref.cuh: the sketch of the distinct count estimator.
pub mod Sketch
pub mod AddLaws
pub mod Larger
pub mod MergeLaws
pub mod Clear
