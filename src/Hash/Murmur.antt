-- ===== src/Hash/Murmur.antt =====
-- include/cuco/detail/hash_functions/murmurhash3.cuh: the finalizers and the 32-bit hash.
use cu_collections.Common.{
  ℕ, zero, suc, ◌+◌, ◌*◌, ◌/◌, ◌%◌, ◌^◌, bit_and, bit_xor, List, leb, if◌then◌else◌, length,
}
use cu_collections.Hash.Words.{add, mul, shl, shr, rotl32, byte_at, load_chunk}

-- `MurmurHash3_fmix32::operator()`
unfoldable pub fmix32 : ℕ → ℕ → ℕ
fmix32 seed key =
    let h1 = bit_xor key seed in
    let h2 = bit_xor h1 (shr h1 16) in
    let h3 = mul 32 h2 0x85ebca6b in
    let h4 = bit_xor h3 (shr h3 13) in let h5 = mul 32 h4 0xc2b2ae35 in bit_xor h5 (shr h5 16)

-- `MurmurHash3_fmix64::operator()`
unfoldable pub fmix64 : ℕ → ℕ → ℕ
fmix64 seed key =
    let h1 = bit_xor key seed in
    let h2 = bit_xor h1 (shr h1 33) in
    let h3 = mul 64 h2 0xff51afd7ed558ccd in
    let h4 = bit_xor h3 (shr h3 33) in
    let h5 = mul 64 h4 0xc4ceb9fe1a85ec53 in bit_xor h5 (shr h5 33)

-- `MurmurHash3_32::compute_hash`: `k1 *= c1; k1 = rotl32(k1, 15); k1 *= c2; h1 ^= k1;`
unfoldable pub mix_chunk : ℕ → ℕ → ℕ
unfolding rotl32
mix_chunk h1 k1 = bit_xor h1 (mul 32 (rotl32 (mul 32 k1 0xcc9e2d51) 15) 0x1b873593)

-- the rounds `i, ..., i + n - 1` of the body
unfoldable pub murmur32_body : ℕ → ℕ → List ℕ → ℕ → ℕ
unfolding mix_chunk load_chunk
murmur32_body zero i bytes h1 = h1
murmur32_body (suc n) i bytes h1 =
    murmur32_body n (suc i) bytes
      (add 32 (mul 32 (rotl32 (mix_chunk h1 (load_chunk 4 bytes i)) 13) 5) 0xe6546b64)

-- the tail: `switch (size & 3)`, whose cases fall through; `t` is `nblocks * 4`
unfoldable pub murmur32_tail : ℕ → ℕ → List ℕ → ℕ → ℕ
unfolding mix_chunk
murmur32_tail rem t bytes h1 =
    let k3 = if leb 3 rem then bit_xor 0 (shl 32 (byte_at bytes (t + 2)) 16) else 0 in
    let k2 = if leb 2 rem then bit_xor k3 (shl 32 (byte_at bytes (t + 1)) 8) else k3 in
    if leb 1 rem then mix_chunk h1 (bit_xor k2 (byte_at bytes t)) else h1

unfoldable pub murmur32 : ℕ → List ℕ → ℕ
unfolding fmix32 murmur32_body murmur32_tail
murmur32 seed bytes =
    let size = length bytes in
    let nblocks = size / 4 in
    let h1 = murmur32_body (if leb 4 size then nblocks else 0) 0 bytes seed in
    let h2 = murmur32_tail (bit_and size 3) (nblocks * 4) bytes h1 in
    fmix32 0 (bit_xor h2 size % 2 ^ 32)
