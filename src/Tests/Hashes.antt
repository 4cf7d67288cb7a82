-- ===== src/Tests/Hashes.antt =====
-- The vectors of tests/utility/hash_test.cu.
use cu_collections.Common.{ℕ, ◌+◌, ◌<◌, ◌^◌, ◌≡◌, refl, arith, some, List, [], ◌∷◌, length}
use cu_collections.Hash.Total.{xxhash64_total}
use cu_collections.Hash.Murmur128.{murmur_x64_128, murmur_x86_128}
use cu_collections.Hash.XxHash.{xxhash32, xxhash64}

-- `int32_t` 123456789, `int64_t` 42 and a `char`
abbrev int_key : List ℕ
int_key = 0x15 ∷ 0xcd ∷ 0x5b ∷ 0x07 ∷ []

abbrev long_key : List ℕ
long_key = 42 ∷ 0 ∷ 0 ∷ 0 ∷ 0 ∷ 0 ∷ 0 ∷ 0 ∷ []

abbrev key_128 : List ℕ
key_128 = 0x15 ∷ 0xcd ∷ 0x5b ∷ 0x07 ∷ 0 ∷ 0 ∷ 0 ∷ 0 ∷ 0 ∷ 0 ∷ 0 ∷ 0 ∷ 0 ∷ 0 ∷ 0 ∷ 0 ∷ []

xxhash32_char : xxhash32 9 0 (42 ∷ []) ≡ some 3774771295
unfolding xxhash32
xxhash32_char = refl

xxhash32_int : xxhash32 9 0 int_key ≡ some 2987034094
unfolding xxhash32
xxhash32_int = refl

xxhash32_128 : xxhash32 17 0 key_128 ≡ some 1846633701
unfolding xxhash32
xxhash32_128 = refl

xxhash64_char : xxhash64 9 42 (0 ∷ []) ≡ some 9486749600008296231
unfolding xxhash64
xxhash64_char = refl

xxhash64_int : xxhash64 9 0 int_key ≡ some 9462334144942111946
unfolding xxhash64
xxhash64_int = refl

xxhash64_long : xxhash64 9 0 long_key ≡ some 13066772586158965587
unfolding xxhash64
xxhash64_long = refl

xxhash64_128 : xxhash64 17 0 key_128 ≡ some 7986913354431084250
unfolding xxhash64
xxhash64_128 = refl

abbrev three_ints : List ℕ
three_ints = 1 ∷ 0 ∷ 0 ∷ 0 ∷ 4 ∷ 0 ∷ 0 ∷ 0 ∷ 9 ∷ 0 ∷ 0 ∷ 0 ∷ []

abbrev four_ints : List ℕ
four_ints = 42 ∷ 0 ∷ 0 ∷ 0 ∷ 64 ∷ 0 ∷ 0 ∷ 0 ∷ 108 ∷ 0 ∷ 0 ∷ 0 ∷ 0 ∷ 4 ∷ 0 ∷ 0 ∷ []

murmur_x64_three :
    murmur_x64_128 42 three_ints ≡ record { h1 = 299140022350411792; h2 = 9891903873182035274 }
unfolding murmur_x64_128
murmur_x64_three = refl

murmur_x64_four :
    murmur_x64_128 63 four_ints ≡ record { h1 = 4333511168876981289; h2 = 4659486988434316416 }
unfolding murmur_x64_128
murmur_x64_four = refl

murmur_x86_three :
    murmur_x86_128 42 three_ints
    ≡ record { h1 = 2516796247; h2 = 2757675829; h3 = 778406919; h4 = 2453259553 }
unfolding murmur_x86_128
murmur_x86_three = refl

murmur_x86_four :
    murmur_x86_128 63 four_ints
    ≡ record { h1 = 2686265656; h2 = 591236665; h3 = 3797082165; h4 = 2731908938 }
unfolding murmur_x86_128
murmur_x86_four = refl

key_length : length key_128 + 1 < 18
key_length = omega arith

xxhash64_total_example : (h : ℕ) × (xxhash64 18 0 key_128 ≡ some h) × (h < 2 ^ 64)
xxhash64_total_example = xxhash64_total 18 0 key_128 key_length (omega arith)
