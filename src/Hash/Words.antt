-- ===== src/Hash/Words.antt =====
-- Unsigned words of `w` bits, and include/cuco/detail/hash_functions/utils.cuh.
use cu_collections.Common.{ℕ, zero, suc, ◌+◌, ◌-◌, ◌*◌, ◌/◌, ◌%◌, ◌^◌, bit_or, List, get_or}

abbrev pub add : ℕ → ℕ → ℕ → ℕ
add w a b = (a + b) % 2 ^ w

abbrev pub mul : ℕ → ℕ → ℕ → ℕ
mul w a b = (a * b) % 2 ^ w

abbrev pub shl : ℕ → ℕ → ℕ → ℕ
shl w x k = x * 2 ^ k % 2 ^ w

abbrev pub shr : ℕ → ℕ → ℕ
shr x k = x / 2 ^ k

unfoldable pub rotl32 : ℕ → ℕ → ℕ
rotl32 x r = bit_or (shl 32 x r) (shr x (32 - r))

unfoldable pub rotl64 : ℕ → ℕ → ℕ
rotl64 x r = bit_or (shl 64 x r) (shr x (64 - r))

-- `bytes[i]`
abbrev pub byte_at : List ℕ → ℕ → ℕ
byte_at bytes i = get_or bytes i 0

-- the number whose `n` bytes, the lowest first, begin at the offset `i`
unfoldable pub load_bytes : ℕ → List ℕ → ℕ → ℕ
load_bytes zero bytes i = 0
load_bytes (suc n) bytes i = byte_at bytes i + 256 * load_bytes n bytes (suc i)

-- `load_chunk<T>(bytes, index)`, for a `T` of `size` bytes
unfoldable pub load_chunk : ℕ → List ℕ → ℕ → ℕ
unfolding load_bytes
load_chunk size bytes index = load_bytes size bytes (index * size)
