-- ===== src/Hash.antt =====
-- include/cuco/detail/hash_functions: the hash functions that the containers are given. Bytes are
-- numbers below 256; the machine is little-endian, as the GPUs and their hosts are.
pub mod Words
pub mod Murmur
pub mod Fmix
pub mod Murmur128
pub mod XxHash
pub mod Total
