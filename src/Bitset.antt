-- ===== src/Bitset.antt =====
-- `dynamic_bitset`: words of 64 bits with an index for `rank` and `select`.
pub mod Grid
pub mod Defs
pub mod Query
pub mod Build
pub mod Sums
pub mod Encodes
pub mod RankLaws
pub mod SetLaws
pub mod Scan
pub mod FindLaws
