-- ===== src/Bitset/Sums.antt =====
-- The bits of a bitset that are set below an index, and the population counts of its words.
use cu_collections.Common.{
  ℕ, zero, suc, ◌+◌, ◌-◌, ◌*◌, ◌/◌, ◌%◌, ◌^◌, ◌≤◌, ◌<◌, ◌≡◌, refl, ap, ◌∙◌, arith, bit_and, ◌==◌,
}
use cu_collections.Bits.Digits.{digit, bit_and-low}
use cu_collections.Bits.Masks.{digit-mod_low, digit-mod_high}
use cu_collections.Bitset.Defs.{bits_per_word}
use cu_collections.Bitset.Query.{StorageRef, popcount, test, to_number}

unfoldable pub sum : (ℕ → ℕ) → ℕ → ℕ
sum f zero = 0
sum f (suc n) = sum f n + f n

-- how many of the bits `0, ..., n - 1` are set
unfoldable pub count_below : StorageRef → ℕ → ℕ
unfolding test
count_below s zero = 0
count_below s (suc n) = count_below s n + to_number (test s n)

pub to_number-test :
    (s : StorageRef) (key : ℕ)
    → to_number (test s key) ≡ digit (s.words (key / bits_per_word)) (key % bits_per_word)
unfolding test
to_number-test s key =
    let low = bit_and-low 1 (s.words (key / bits_per_word) / 2 ^ (key % bits_per_word)) in
    ground (arith, low)

pub test-digit :
    (s : StorageRef) (key : ℕ)
    → test s key ≡ (digit (s.words (key / bits_per_word)) (key % bits_per_word) == 1)
unfolding test
test-digit s key =
    let low = bit_and-low 1 (s.words (key / bits_per_word) / 2 ^ (key % bits_per_word)) in
    ground (arith, low)

pub popcount_bound : (n x : ℕ) → popcount n x ≤ n
unfolding popcount
popcount_bound zero x = omega arith
popcount_bound (suc n) x = omega (arith, popcount_bound n x)

popcount_same :
    (n x y : ℕ) → ((j : ℕ) → j < n → digit x j ≡ digit y j) → popcount n x ≡ popcount n y
unfolding popcount
popcount_same zero x y h = refl
popcount_same (suc n) x y h =
    omega (arith, popcount_same n x y (λ j lt. h j (omega arith)), h n (omega arith))

popcount_high : (k d y : ℕ) → ((j : ℕ) → k ≤ j → digit y j ≡ 0) → popcount (d + k) y ≡ popcount k y
unfolding popcount
popcount_high k zero y h = ap (λ n. popcount n y) (omega arith)
popcount_high k (suc d) y h =
    let next : popcount (suc d + k) y ≡ popcount (suc (d + k)) y =
      ap (λ n. popcount n y) {y = suc (d + k)} (omega arith) in
    omega (arith, next, popcount_high k d y h, h (d + k) (omega arith))

-- The bits of a word below its bit `k`.
pub popcount-low : (k x : ℕ) → k ≤ 64 → popcount 64 (bit_and x (2 ^ k - 1)) ≡ popcount k x
popcount-low k x le =
    ap (popcount 64) (bit_and-low k x)
    ∙ ap (λ n. popcount n (x % 2 ^ k)) (omega (arith, le))
    ∙ popcount_high k (64 - k) (x % 2 ^ k) (λ j ge. digit-mod_high k j x ge)
    ∙ popcount_same k (x % 2 ^ k) x (λ j lt. digit-mod_low k j x lt)

module _ (s : StorageRef) where
  count_below-bits :
      (w k : ℕ)
      → k ≤ 64
      → count_below s (k + w * 64) ≡ count_below s (w * 64) + popcount k (s.words w)
  unfolding count_below popcount
  count_below-bits w zero le = ap (count_below s) {y = w * 64} (omega arith) ∙ omega arith
  count_below-bits w (suc k) le =
      let word : (k + w * 64) / 64 ≡ w = omega (arith, le) in
      let bit : (k + w * 64) % 64 ≡ k = omega (arith, le) in
      let last : to_number (test s (k + w * 64)) ≡ digit (s.words w) k =
        to_number-test s (k + w * 64)
        ∙ ap (λ v. digit (s.words v) ((k + w * 64) % 64)) word
        ∙ ap (digit (s.words w)) bit in
      let next : count_below s (suc k + w * 64) ≡ count_below s (suc (k + w * 64)) =
        ap (count_below s) {y = suc (k + w * 64)} (omega arith) in
      omega (arith, next, last, count_below-bits w k (omega (arith, le)))

  count_below-words : (w : ℕ) → count_below s (w * 64) ≡ sum (λ i. popcount 64 (s.words i)) w
  unfolding sum count_below
  count_below-words zero = refl
  count_below-words (suc w) =
      ap (count_below s) (omega arith)
      ∙ count_below-bits w 64 (omega arith)
      ∙ ap (λ n. n + popcount 64 (s.words w)) (count_below-words w)

  -- The bits below an index are those of the words before it, and those below it in its own.
  pub count_below-split :
      (key : ℕ)
      → count_below s key
        ≡ sum (λ i. popcount 64 (s.words i)) (key / 64) + popcount (key % 64) (s.words (key / 64))
  count_below-split key =
      ap (count_below s) (omega arith)
      ∙ count_below-bits (key / 64) (key % 64) (omega arith)
      ∙ ap (λ n. n + popcount (key % 64) (s.words (key / 64))) (count_below-words (key / 64))

  pub count_below_bound : (key : ℕ) → count_below s key ≤ key
  unfolding count_below
  count_below_bound zero = omega arith
  count_below_bound (suc key) = ground (arith, count_below_bound key)

pub sum_bound : (f : ℕ → ℕ) (b : ℕ) → ((i : ℕ) → f i ≤ b) → (n : ℕ) → sum f n ≤ b * n
unfolding sum
sum_bound f b h zero = omega arith
sum_bound f b h (suc n) = omega (arith, h n, sum_bound f b h n)

-- A sum goes up by at most `b` for each element.
pub sum-between :
    (f : ℕ → ℕ) (b : ℕ)
    → ((i : ℕ) → f i ≤ b)
    → (n d : ℕ) → (sum f n ≤ sum f (d + n)) × (sum f (d + n) ≤ sum f n + b * d)
unfolding sum
sum-between f b h n zero =
    let same : sum f (0 + n) ≡ sum f n = ap (sum f) {y = n} (omega arith) in
    (omega arith, omega arith)
sum-between f b h n (suc d) =
    let next : sum f (suc d + n) ≡ sum f (suc (d + n)) =
      ap (sum f) {y = suc (d + n)} (omega arith) in
    let (lower, upper) = sum-between f b h n d in
    (omega (arith, next, lower), omega (arith, next, upper, h (d + n)))

pub count_below-same :
    (s s' : StorageRef) → s.words ≡ s'.words → (n : ℕ) → count_below s n ≡ count_below s' n
unfolding count_below
count_below-same s s' same zero = refl
count_below-same s s' same (suc n) = rw (same, count_below-same s s' same n) refl
