-- ===== src/Hash/XxHash.antt =====
-- include/cuco/detail/hash_functions/xxhash.cuh. Each loop runs on fuel; `none` says that it ran out.
use cu_collections.Common.{
  ℕ, ◌+◌, ◌-◌, ◌/◌, ◌%◌, ◌^◌, bit_and, bit_xor, List, leb, ltb, ◌==◌, not, Option, none, some,
  if◌then◌else◌, length, while_do,
}
use cu_collections.Hash.Words.{add, mul, shr, rotl32, rotl64, byte_at, load_chunk}

abbrev pub prime32_1 : ℕ
prime32_1 = 0x9e3779b1

abbrev pub prime32_2 : ℕ
prime32_2 = 0x85ebca77

abbrev pub prime32_3 : ℕ
prime32_3 = 0xc2b2ae3d

abbrev pub prime32_4 : ℕ
prime32_4 = 0x27d4eb2f

abbrev pub prime32_5 : ℕ
prime32_5 = 0x165667b1

abbrev pub prime64_1 : ℕ
prime64_1 = 11400714785074694791

abbrev pub prime64_2 : ℕ
prime64_2 = 14029467366897019727

abbrev pub prime64_3 : ℕ
prime64_3 = 1609587929392839161

abbrev pub prime64_4 : ℕ
prime64_4 = 9650029242287828579

abbrev pub prime64_5 : ℕ
prime64_5 = 2870177450012600261

-- The locals of the first loop, and of the others.
pub record Lanes : Type 0 where
  pub v1 : ℕ
  pub v2 : ℕ
  pub v3 : ℕ
  pub v4 : ℕ
  pub offset : ℕ

pub record Accumulator : Type 0 where
  pub hash : ℕ
  pub offset : ℕ

-- `size - n` of a `std::size_t`
unfoldable pub size_minus : ℕ → ℕ → ℕ
size_minus size n = (size + 2 ^ 64 - n) % 2 ^ 64

abbrev pub bind {ℓ κ} : {A : Type ℓ} {B : Type κ} → Option A → (A → Option B) → Option B
bind none f = none
bind (some a) f = f a

-- `v += load_chunk<uint32_t>(...) * prime2; v = rotl32(v, 13); v *= prime1;`
unfoldable pub lane32 : ℕ → ℕ → ℕ
unfolding rotl32
lane32 v chunk = mul 32 (rotl32 (add 32 v (mul 32 chunk prime32_2)) 13) prime32_1

unfoldable pub pipeline32 : List ℕ → Lanes → Lanes
unfolding lane32 load_chunk
pipeline32 bytes s =
    let p = s.offset / 4 in
    record {
      v1 = lane32 s.v1 (load_chunk 4 bytes (p + 0));
      v2 = lane32 s.v2 (load_chunk 4 bytes (p + 1));
      v3 = lane32 s.v3 (load_chunk 4 bytes (p + 2));
      v4 = lane32 s.v4 (load_chunk 4 bytes (p + 3));
      offset = s.offset + 16;
    }

unfoldable pub finish_lanes32 : Lanes → Accumulator
unfolding rotl32
finish_lanes32 s = record {
  hash = add 32 (add 32 (add 32 (rotl32 s.v1 1) (rotl32 s.v2 7)) (rotl32 s.v3 12)) (rotl32 s.v4 18);
  offset = s.offset;
}

-- the `if (size >= 16)` and its `do ... while (offset <= limit)`
unfoldable pub chunks32 : ℕ → ℕ → List ℕ → Option Accumulator
unfolding size_minus pipeline32 finish_lanes32 while_do
chunks32 fuel seed bytes =
    let size = length bytes in
    let limit = size_minus size 16 in
    let start : Lanes = record {
      v1 = add 32 (add 32 seed prime32_1) prime32_2;
      v2 = add 32 seed prime32_2;
      v3 = seed;
      v4 = (seed + 2 ^ 32 - prime32_1) % 2 ^ 32;
      offset = 0;
    } in
    if leb 16 size
    then bind
        (while_do fuel (λ (s : Lanes). leb s.offset limit) (pipeline32 bytes)
          (pipeline32 bytes start))
        (λ s. some (finish_lanes32 s))
    else some (record { hash = add 32 seed prime32_5; offset = 0 })

unfoldable pub words32_step : List ℕ → Accumulator → Accumulator
unfolding rotl32 load_chunk
words32_step bytes s = record {
  hash =
      mul 32 (rotl32 (add 32 s.hash (mul 32 (load_chunk 4 bytes (s.offset / 4)) prime32_3)) 17)
        prime32_4;
  offset = s.offset + 4;
}

unfoldable pub bytes32_step : List ℕ → Accumulator → Accumulator
unfolding rotl32
bytes32_step bytes s = record {
  hash =
      mul 32 (rotl32 (add 32 s.hash (mul 32 (bit_and (byte_at bytes s.offset) 255) prime32_5)) 11)
        prime32_1;
  offset = s.offset + 1;
}

unfoldable pub finalize32 : ℕ → ℕ
finalize32 h1 =
    let h2 = bit_xor h1 (shr h1 15) in
    let h3 = mul 32 h2 prime32_2 in
    let h4 = bit_xor h3 (shr h3 13) in let h5 = mul 32 h4 prime32_3 in bit_xor h5 (shr h5 16)

-- `XXHash_32::compute_hash`
unfoldable pub xxhash32 : ℕ → ℕ → List ℕ → Option ℕ
unfolding size_minus chunks32 words32_step bytes32_step finalize32 while_do
xxhash32 fuel seed bytes =
    let size = length bytes in
    bind (chunks32 fuel seed bytes) λ s.
      let s1 : Accumulator = record s { hash = add 32 s.hash (size % 2 ^ 32) } in
      bind
        (if leb 4 (size % 16)
          then while_do fuel (λ (s : Accumulator). leb s.offset (size_minus size 4))
              (words32_step bytes) s1
          else some s1)
        λ s2.
          bind
            (if not (size % 4 == 0)
              then while_do fuel (λ (s : Accumulator). ltb s.offset size) (bytes32_step bytes) s2
              else some s2)
            λ s3. some (finalize32 s3.hash)

unfoldable pub lane64 : ℕ → ℕ → ℕ
unfolding rotl64
lane64 v chunk = mul 64 (rotl64 (add 64 v (mul 64 chunk prime64_2)) 31) prime64_1

unfoldable pub pipeline64 : List ℕ → Lanes → Lanes
unfolding lane64 load_chunk
pipeline64 bytes s =
    let p = s.offset / 8 in
    record {
      v1 = lane64 s.v1 (load_chunk 8 bytes (p + 0));
      v2 = lane64 s.v2 (load_chunk 8 bytes (p + 1));
      v3 = lane64 s.v3 (load_chunk 8 bytes (p + 2));
      v4 = lane64 s.v4 (load_chunk 8 bytes (p + 3));
      offset = s.offset + 32;
    }

-- `v *= prime2; v = rotl64(v, 31); v *= prime1; h64 ^= v; h64 = h64 * prime1 + prime4;`
unfoldable pub merge64 : ℕ → ℕ → ℕ
unfolding rotl64
merge64 h v =
    add 64 (mul 64 (bit_xor h (mul 64 (rotl64 (mul 64 v prime64_2) 31) prime64_1)) prime64_1)
      prime64_4

unfoldable pub finish_lanes64 : Lanes → Accumulator
unfolding merge64
finish_lanes64 s =
    let h =
      add 64 (add 64 (add 64 (rotl64 s.v1 1) (rotl64 s.v2 7)) (rotl64 s.v3 12)) (rotl64 s.v4 18) in
    record { hash = merge64 (merge64 (merge64 (merge64 h s.v1) s.v2) s.v3) s.v4; offset = s.offset }

unfoldable pub chunks64 : ℕ → ℕ → List ℕ → Option Accumulator
unfolding size_minus pipeline64 finish_lanes64 while_do
chunks64 fuel seed bytes =
    let size = length bytes in
    let limit = size_minus size 32 in
    let start : Lanes = record {
      v1 = add 64 (add 64 seed prime64_1) prime64_2;
      v2 = add 64 seed prime64_2;
      v3 = seed;
      v4 = (seed + 2 ^ 64 - prime64_1) % 2 ^ 64;
      offset = 0;
    } in
    if leb 32 size
    then bind
        (while_do fuel (λ (s : Lanes). leb s.offset limit) (pipeline64 bytes)
          (pipeline64 bytes start))
        (λ s. some (finish_lanes64 s))
    else some (record { hash = add 64 seed prime64_5; offset = 0 })

unfoldable pub longs64_step : List ℕ → Accumulator → Accumulator
unfolding rotl64 load_chunk
longs64_step bytes s =
    let k1 = mul 64 (rotl64 (mul 64 (load_chunk 8 bytes (s.offset / 8)) prime64_2) 31) prime64_1 in
    record {
      hash = add 64 (mul 64 (rotl64 (bit_xor s.hash k1) 27) prime64_1) prime64_4;
      offset = s.offset + 8;
    }

unfoldable pub words64_step : List ℕ → Accumulator → Accumulator
unfolding rotl64 load_chunk
words64_step bytes s =
    let k1 = mul 64 (bit_and (load_chunk 4 bytes (s.offset / 4)) 0xffffffff) prime64_1 in
    record {
      hash = add 64 (mul 64 (rotl64 (bit_xor s.hash k1) 23) prime64_2) prime64_3;
      offset = s.offset + 4;
    }

unfoldable pub bytes64_step : List ℕ → Accumulator → Accumulator
unfolding rotl64
bytes64_step bytes s =
    let k1 = mul 64 (bit_and (byte_at bytes s.offset) 0xff) prime64_5 in
    record { hash = mul 64 (rotl64 (bit_xor s.hash k1) 11) prime64_1; offset = s.offset + 1 }

unfoldable pub finalize64 : ℕ → ℕ
finalize64 h1 =
    let h2 = bit_xor h1 (shr h1 33) in
    let h3 = mul 64 h2 prime64_2 in
    let h4 = bit_xor h3 (shr h3 29) in let h5 = mul 64 h4 prime64_3 in bit_xor h5 (shr h5 32)

-- `XXHash_64::compute_hash`
unfoldable pub xxhash64 : ℕ → ℕ → List ℕ → Option ℕ
unfolding size_minus chunks64 longs64_step words64_step bytes64_step finalize64 while_do
xxhash64 fuel seed bytes =
    let size = length bytes in
    bind (chunks64 fuel seed bytes) λ s.
      let s1 : Accumulator = record s { hash = add 64 s.hash (size % 2 ^ 64) } in
      bind
        (if leb 8 (size % 32)
          then while_do fuel (λ (s : Accumulator). leb s.offset (size_minus size 8))
              (longs64_step bytes) s1
          else some s1)
        λ s2.
          bind
            (if leb 4 (size % 8)
              then while_do fuel (λ (s : Accumulator). leb s.offset (size_minus size 4))
                  (words64_step bytes) s2
              else some s2)
            λ s3.
              bind
                (if not (size % 4 == 0)
                  then while_do fuel (λ (s : Accumulator). ltb s.offset size) (bytes64_step bytes)
                      s3
                  else some s3)
                λ s4. some (finalize64 s4.hash)
