-- ===== src/Tests.antt =====
-- Runs of the code on small inputs, and the theorems at such inputs.
mod Tables
mod Hashes
mod Groups
mod Sketches
mod Applies
mod Storages
mod Erased
mod Threads
mod Orders
mod Bitsets
mod Extents
mod Growing
mod Legacy
