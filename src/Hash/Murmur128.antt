-- ===== src/Hash/Murmur128.antt =====
-- include/cuco/detail/hash_functions/murmurhash3.cuh: the two 128-bit hashes. A tail is a `switch`
-- whose cases fall through from the number of bytes that are left.
use cu_collections.Common.{
  ℕ, zero, suc, ◌+◌, ◌*◌, ◌/◌, ◌%◌, ◌^◌, bit_and, bit_xor, List, leb, if◌then◌else◌, length,
}
use cu_collections.Hash.Murmur.{fmix32, fmix64}
use cu_collections.Hash.Words.{add, mul, shl, rotl32, rotl64, byte_at, load_chunk}

-- `k ^= tail[i] << s` in the cases from `i + 1` on: case `i + 1` is reached if `i < rem`
abbrev pub tail_byte : ℕ → ℕ → ℕ → List ℕ → ℕ → ℕ → ℕ → ℕ
tail_byte w rem t bytes i s k =
    if leb (i + 1) rem then bit_xor k (shl w (byte_at bytes (t + i)) s) else k

pub record State64 : Type 0 where
  pub h1 : ℕ
  pub h2 : ℕ

abbrev pub c1_64 : ℕ
c1_64 = 0x87c37b91114253d5

abbrev pub c2_64 : ℕ
c2_64 = 0x4cf5ad432745937f

-- `k *= a; k = rotl64(k, r); k *= b; h ^= k;`
unfoldable pub mix64 : ℕ → ℕ → ℕ → ℕ → ℕ → ℕ
unfolding rotl64
mix64 h k a r b = bit_xor h (mul 64 (rotl64 (mul 64 k a) r) b)

unfoldable pub x64_round : List ℕ → ℕ → State64 → State64
unfolding mix64 load_chunk
x64_round bytes i s =
    let h1 = mix64 s.h1 (load_chunk 8 bytes (2 * i)) c1_64 31 c2_64 in
    let h1' = add 64 (mul 64 (add 64 (rotl64 h1 27) s.h2) 5) 0x52dce729 in
    let h2 = mix64 s.h2 (load_chunk 8 bytes (2 * i + 1)) c2_64 33 c1_64 in
    let h2' = add 64 (mul 64 (add 64 (rotl64 h2 31) h1') 5) 0x38495ab5 in
    record { h1 = h1'; h2 = h2' }

unfoldable pub x64_body : ℕ → ℕ → List ℕ → State64 → State64
unfolding x64_round
x64_body zero i bytes s = s
x64_body (suc n) i bytes s = x64_body n (suc i) bytes (x64_round bytes i s)

unfoldable pub x64_tail : ℕ → ℕ → List ℕ → State64 → State64
unfolding mix64
x64_tail rem t bytes s =
    let b = tail_byte 64 rem t bytes in
    let k2 = b 8 0 (b 9 8 (b 10 16 (b 11 24 (b 12 32 (b 13 40 (b 14 48 0)))))) in
    let k1 = b 0 0 (b 1 8 (b 2 16 (b 3 24 (b 4 32 (b 5 40 (b 6 48 (b 7 56 0))))))) in
    record {
      h1 = if leb 1 rem then mix64 s.h1 k1 c1_64 31 c2_64 else s.h1;
      h2 = if leb 9 rem then mix64 s.h2 k2 c2_64 33 c1_64 else s.h2;
    }

unfoldable pub x64_final : ℕ → State64 → State64
unfolding fmix64
x64_final size s =
    let a1 = bit_xor s.h1 size % 2 ^ 64 in
    let a2 = bit_xor s.h2 size % 2 ^ 64 in
    let b1 = add 64 a1 a2 in
    let b2 = add 64 a2 b1 in
    let c1 = fmix64 0 b1 in
    let c2 = fmix64 0 b2 in let d1 = add 64 c1 c2 in record { h1 = d1; h2 = add 64 c2 d1 }

-- `MurmurHash3_x64_128::compute_hash`
unfoldable pub murmur_x64_128 : ℕ → List ℕ → State64
unfolding x64_body x64_tail x64_final
murmur_x64_128 seed bytes =
    let size = length bytes in
    let nblocks = size / 16 in
    let start : State64 = record { h1 = seed; h2 = seed } in
    let s = x64_body (if leb 16 size then nblocks else 0) 0 bytes start in
    x64_final size (x64_tail (bit_and size 15) (nblocks * 16) bytes s)

pub record State32 : Type 0 where
  pub h1 : ℕ
  pub h2 : ℕ
  pub h3 : ℕ
  pub h4 : ℕ

abbrev pub c1_32 : ℕ
c1_32 = 0x239b961b

abbrev pub c2_32 : ℕ
c2_32 = 0xab0e9789

abbrev pub c3_32 : ℕ
c3_32 = 0x38b34ae5

abbrev pub c4_32 : ℕ
c4_32 = 0xa1e38b93

unfoldable pub mix32 : ℕ → ℕ → ℕ → ℕ → ℕ → ℕ
unfolding rotl32
mix32 h k a r b = bit_xor h (mul 32 (rotl32 (mul 32 k a) r) b)

-- `h = rotl32(h, r); h += next; h = h * 5 + c;`
unfoldable pub stir32 : ℕ → ℕ → ℕ → ℕ → ℕ
unfolding rotl32
stir32 h r next c = add 32 (mul 32 (add 32 (rotl32 h r) next) 5) c

unfoldable pub x86_round : List ℕ → ℕ → State32 → State32
unfolding mix32 stir32 load_chunk
x86_round bytes i s =
    let k = λ (j : ℕ). load_chunk 4 bytes (4 * i + j) in
    let h1 = stir32 (mix32 s.h1 (k 0) c1_32 15 c2_32) 19 s.h2 0x561ccd1b in
    let h2 = stir32 (mix32 s.h2 (k 1) c2_32 16 c3_32) 17 s.h3 0x0bcaa747 in
    let h3 = stir32 (mix32 s.h3 (k 2) c3_32 17 c4_32) 15 s.h4 0x96cd1c35 in
    let h4 = stir32 (mix32 s.h4 (k 3) c4_32 18 c1_32) 13 h1 0x32ac3b17 in
    record { h1 = h1; h2 = h2; h3 = h3; h4 = h4 }

unfoldable pub x86_body : ℕ → ℕ → List ℕ → State32 → State32
unfolding x86_round
x86_body zero i bytes s = s
x86_body (suc n) i bytes s = x86_body n (suc i) bytes (x86_round bytes i s)

unfoldable pub x86_tail : ℕ → ℕ → List ℕ → State32 → State32
unfolding mix32
x86_tail rem t bytes s =
    let b = tail_byte 32 rem t bytes in
    let k4 = b 12 0 (b 13 8 (b 14 16 0)) in
    let k3 = b 8 0 (b 9 8 (b 10 16 (b 11 24 0))) in
    let k2 = b 4 0 (b 5 8 (b 6 16 (b 7 24 0))) in
    let k1 = b 0 0 (b 1 8 (b 2 16 (b 3 24 0))) in
    record {
      h1 = if leb 1 rem then mix32 s.h1 k1 c1_32 15 c2_32 else s.h1;
      h2 = if leb 5 rem then mix32 s.h2 k2 c2_32 16 c3_32 else s.h2;
      h3 = if leb 9 rem then mix32 s.h3 k3 c3_32 17 c4_32 else s.h3;
      h4 = if leb 13 rem then mix32 s.h4 k4 c4_32 18 c1_32 else s.h4;
    }

-- `h1 += h2; h1 += h3; h1 += h4; h2 += h1; h3 += h1; h4 += h1;`
unfoldable pub gather32 : State32 → State32
gather32 s =
    let h1 = add 32 (add 32 (add 32 s.h1 s.h2) s.h3) s.h4 in
    record { h1 = h1; h2 = add 32 s.h2 h1; h3 = add 32 s.h3 h1; h4 = add 32 s.h4 h1 }

unfoldable pub x86_final : ℕ → State32 → State32
unfolding gather32 fmix32
x86_final size s =
    let a : State32 = gather32 (record {
      h1 = bit_xor s.h1 size % 2 ^ 32;
      h2 = bit_xor s.h2 size % 2 ^ 32;
      h3 = bit_xor s.h3 size % 2 ^ 32;
      h4 = bit_xor s.h4 size % 2 ^ 32;
    }) in
    gather32
      (record { h1 = fmix32 0 a.h1; h2 = fmix32 0 a.h2; h3 = fmix32 0 a.h3; h4 = fmix32 0 a.h4 })

-- `MurmurHash3_x86_128::compute_hash`
unfoldable pub murmur_x86_128 : ℕ → List ℕ → State32
unfolding x86_body x86_tail x86_final
murmur_x86_128 seed bytes =
    let size = length bytes in
    let nblocks = size / 16 in
    let start : State32 = record { h1 = seed; h2 = seed; h3 = seed; h4 = seed } in
    let s = x86_body (if leb 16 size then nblocks else 0) 0 bytes start in
    x86_final size (x86_tail (bit_and size 15) (nblocks * 16) bytes s)
