-- ===== src/Hash/Total.antt =====
-- The loops of the xxhash functions end, and every hash is a word of its width.
use native.Mathlib.Nat.{mod-le, mod-eq_of_lt, add-mod_right}
use cu_collections.Bits.{xorshift-lt}
use cu_collections.Common.{
  ℕ, ◌+◌, ◌-◌, ◌%◌, ◌^◌, ◌<◌, ◌≤◌, ◌≡◌, refl, ap, ◌∙◌, arith, Bool, true, false, Option, some, List,
  length, leb, ltb, ◌==◌, not, if◌then◌else◌, while_do, while_do_ends,
}
use cu_collections.Hash.Fmix.{mul32-lt, mul64-lt}
use cu_collections.Hash.XxHash.{
  Lanes, Accumulator, size_minus, bind, prime32_3, prime64_3, pipeline32, finish_lanes32, chunks32,
  words32_step, bytes32_step, finalize32, xxhash32, pipeline64, finish_lanes64, chunks64,
  longs64_step, words64_step, bytes64_step, finalize64, xxhash64,
}

abbrev Ends {ℓ} : {A : Type ℓ} → Option A → Type ℓ
Ends {A} o = (a : A) × (o ≡ some a)

bind-Ends {ℓ κ} :
    {A : Type ℓ} {B : Type κ} (o : Option A) (f : A → Option B)
    → Ends o
    → ((a : A) → Ends (f a))
    → Ends (bind o f)
bind-Ends o f (a, e) g = let (b, h) = g a in (b, rw e h)

bind-Returns {ℓ κ} :
    {A : Type ℓ} {B : Type κ} (P : B → Type 0) (o : Option A) (f : A → Option B)
    → Ends o
    → ((a : A) → (b : B) × (f a ≡ some b) × P b)
    → (b : B) × (bind o f ≡ some b) × P b
bind-Returns P o f (a, e) g = let (b, h, p) = g a in (b, rw e h, p)

if-Ends {ℓ} :
    {A : Type ℓ} (t : Bool) (x y : Option A)
    → (t ≡ true → Ends x)
    → Ends y
    → Ends (if t then x else y)
if-Ends true x y h k = h refl
if-Ends false x y h k = k

-- A loop ends whose every round moves the offset on while it is at most `size`.
loop-Ends {ℓ} :
    {S : Type ℓ} (size fuel : ℕ) (offset : S → ℕ) (test : S → Bool) (body : S → S)
    → size + 1 < fuel
    → ((s : S) → test s ≡ true → offset s ≤ size)
    → ((s : S) → offset s < offset (body s))
    → (s : S) → Ends (while_do fuel test body s)
loop-Ends size fuel offset test body enough inside moves s =
    while_do_ends size offset test body inside moves fuel s (omega arith) (omega arith)

finalize32-lt : (h : ℕ) → finalize32 h < 2 ^ 32
unfolding finalize32
finalize32-lt h = xorshift-lt 32 16 _ (mul32-lt _ prime32_3)

finalize64-lt : (h : ℕ) → finalize64 h < 2 ^ 64
unfolding finalize64
finalize64-lt h = xorshift-lt 64 32 _ (mul64-lt _ prime64_3)

-- The difference does not wrap around where there are as many bytes.
size_minus_lem : (size n : ℕ) → n ≤ size → size < 2 ^ 64 → size_minus size n ≡ size - n
unfolding size_minus
size_minus_lem size n le small =
    let e : size + 2 ^ 64 - n ≡ (size - n) + 2 ^ 64 = omega (arith, le) in
    let lt : size - n < 2 ^ 64 = omega (arith, small) in
    ap (λ k. k % 2 ^ 64) e ∙ add-mod_right (size - n) (2 ^ 64) ∙ mod-eq_of_lt lt

module _ (fuel seed : ℕ) (bytes : List ℕ) (enough : length bytes + 1 < fuel)
    (small : length bytes < 2 ^ 64) where
  -- an offset that is at most `size - n` is at most `size`
  below :
      (n offset : ℕ)
      → n ≤ length bytes
      → leb offset (size_minus (length bytes) n) ≡ true
      → offset ≤ length bytes
  below n offset le h = let e = size_minus_lem (length bytes) n le small in ground (arith, e, h)

  chunks32-Ends : Ends (chunks32 fuel seed bytes)
  unfolding chunks32
  chunks32-Ends =
      if-Ends (leb 16 (length bytes)) _ _
        (λ long.
          bind-Ends _ _
            (loop-Ends (length bytes) fuel (λ (s : Lanes). s.offset) _ (pipeline32 bytes) enough
              (λ s h. below 16 s.offset (ground (arith, long)) h)
              (λ s. unfold pipeline32 in omega arith) _)
            (λ s. (finish_lanes32 s, refl)))
        (_, refl)

  chunks64-Ends : Ends (chunks64 fuel seed bytes)
  unfolding chunks64
  chunks64-Ends =
      if-Ends (leb 32 (length bytes)) _ _
        (λ long.
          bind-Ends _ _
            (loop-Ends (length bytes) fuel (λ (s : Lanes). s.offset) _ (pipeline64 bytes) enough
              (λ s h. below 32 s.offset (ground (arith, long)) h)
              (λ s. unfold pipeline64 in omega arith) _)
            (λ s. (finish_lanes64 s, refl)))
        (_, refl)

  -- where the bytes over have a chunk, all of them have
  long_enough : (step block : ℕ) → leb step (length bytes % block) ≡ true → step ≤ length bytes
  long_enough step block h = let le = mod-le (length bytes) block in ground (arith, le, h)

  -- the loop over what is left, in chunks of `step` bytes
  rest-Ends :
      (step : ℕ) (body : Accumulator → Accumulator)
      → step ≤ length bytes
      → ((s : Accumulator) → s.offset < (body s).offset)
      → (s : Accumulator)
      → Ends (
          while_do fuel (λ (s : Accumulator). leb s.offset (size_minus (length bytes) step)) body s)
  rest-Ends step body le moves s =
      loop-Ends (length bytes) fuel (λ (s : Accumulator). s.offset) _ body enough
        (λ s h. below step s.offset le h) moves s

  bytes-Ends :
      (body : Accumulator → Accumulator)
      → ((s : Accumulator) → s.offset < (body s).offset)
      → (s : Accumulator)
      → Ends (while_do fuel (λ (s : Accumulator). ltb s.offset (length bytes)) body s)
  bytes-Ends body moves s =
      loop-Ends (length bytes) fuel (λ (s : Accumulator). s.offset) _ body enough
        (λ s h. ground arith) moves s

  -- Where a size type of 64 bits has the number of bytes, with fuel for more rounds than one above
  -- it, every loop of `xxhash32` ends, and the result is a 32-bit word.
  pub xxhash32_total : (h : ℕ) × (xxhash32 fuel seed bytes ≡ some h) × (h < 2 ^ 32)
  unfolding xxhash32
  xxhash32_total =
      bind-Returns (λ h. h < 2 ^ 32) _ _ chunks32-Ends
        λ s.
          bind-Returns (λ h. h < 2 ^ 32) _ _
            (if-Ends (leb 4 (length bytes % 16)) _ _
              (λ some_word.
                rest-Ends 4 (words32_step bytes) (long_enough 4 16 some_word)
                  (λ s. unfold words32_step in omega arith) _)
              (_, refl))
            λ s2.
              bind-Returns (λ h. h < 2 ^ 32) _ _
                (if-Ends (not (length bytes % 4 == 0)) _ _
                  (λ _.
                    bytes-Ends (bytes32_step bytes) (λ s. unfold bytes32_step in omega arith) s2)
                  (_, refl))
                λ s3. (finalize32 s3.hash, refl, finalize32-lt s3.hash)

  -- Where a size type of 64 bits has the number of bytes, with fuel for more rounds than one above
  -- it, every loop of `xxhash64` ends, and the result is a 64-bit word.
  pub xxhash64_total : (h : ℕ) × (xxhash64 fuel seed bytes ≡ some h) × (h < 2 ^ 64)
  unfolding xxhash64
  xxhash64_total =
      bind-Returns (λ h. h < 2 ^ 64) _ _ chunks64-Ends
        λ s.
          bind-Returns (λ h. h < 2 ^ 64) _ _
            (if-Ends (leb 8 (length bytes % 32)) _ _
              (λ some_long.
                rest-Ends 8 (longs64_step bytes) (long_enough 8 32 some_long)
                  (λ s. unfold longs64_step in omega arith) _)
              (_, refl))
            λ s2.
              bind-Returns (λ h. h < 2 ^ 64) _ _
                (if-Ends (leb 4 (length bytes % 8)) _ _
                  (λ some_word.
                    rest-Ends 4 (words64_step bytes) (long_enough 4 8 some_word)
                      (λ s. unfold words64_step in omega arith) s2)
                  (_, refl))
                λ s3.
                  bind-Returns (λ h. h < 2 ^ 64) _ _
                    (if-Ends (not (length bytes % 4 == 0)) _ _
                      (λ _.
                        bytes-Ends (bytes64_step bytes) (λ s. unfold bytes64_step in omega arith)
                          s3)
                      (_, refl))
                    λ s4. (finalize64 s4.hash, refl, finalize64-lt s4.hash)
