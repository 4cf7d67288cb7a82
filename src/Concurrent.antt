-- ===== src/Concurrent.antt =====
-- include/cuco/detail/open_addressing/open_addressing_ref_impl.cuh: `insert` of any number of threads
-- at once, one access to the memory at a time.
pub mod Threads
pub mod Walk
pub mod Claim
pub mod Knows
pub mod Kept
pub mod Exchanges
pub mod Moves
pub mod Steps
pub mod Effects
pub mod VisitEffects
pub mod MoveEffects
pub mod Safety
pub mod Payloads
pub mod Winner
