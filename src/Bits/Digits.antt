-- ===== src/Bits/Digits.antt =====
-- The binary digits of a number, and of the words that `|` and `&` give. No code of the repository
-- is modelled here.
use Prim.Native.Nat.{digits, bit_and-bitwise, bit_or-bitwise}
use native.Mathlib.Nat.{
  pow-suc, div-div-eq-div-mul, one-le-pow, mod-add-div', add-mul-mod_self_right, mod-lt,
  mod-eq_of_lt,
}
use cu_collections.Common.{
  ℕ, zero, suc, ◌+◌, ◌-◌, ◌*◌, ◌/◌, ◌%◌, ◌^◌, ◌≤◌, ◌<◌, min, max, bit_and, bit_or, ◌≡◌, ◌≢◌, refl,
  ap, sym, ◌∙◌, arith,
}

-- the digit `j` of `a`
abbrev pub digit : ℕ → ℕ → ℕ
digit a j = a / 2 ^ j % 2

pub more_fuel :
    (z : ℕ → ℕ) (f : ℕ → ℕ → ℕ) (n m a b : ℕ) → a ≤ n → a ≤ m → digits z f n a b ≡ digits z f m a b
more_fuel z f zero zero a b p q = refl
more_fuel z f zero (suc m) zero b p q = refl
more_fuel z f zero (suc m) (suc a) b p q = absurd (omega arith)
more_fuel z f (suc n) zero zero b p q = refl
more_fuel z f (suc n) zero (suc a) b p q = absurd (omega arith)
more_fuel z f (suc n) (suc m) zero b p q = refl
more_fuel z f (suc n) (suc m) (suc a) b p q =
    ap (λ (d : ℕ). d * 2 + f (suc a % 2) (b % 2))
      (more_fuel z f n m (suc a / 2) (b / 2) (omega arith) (omega arith))

-- The lowest digit apart from the others, for an operation `f` of two digits.
digits_step :
    (z : ℕ → ℕ) (f : ℕ → ℕ → ℕ)
    → ((b : ℕ) → z b ≡ z (b / 2) * 2 + f 0 (b % 2))
    → (a b : ℕ) → digits z f a a b ≡ digits z f (a / 2) (a / 2) (b / 2) * 2 + f (a % 2) (b % 2)
digits_step z f nothing zero b = nothing b
digits_step z f nothing (suc a) b =
    ap (λ (d : ℕ). d * 2 + f (suc a % 2) (b % 2))
      (more_fuel z f a (suc a / 2) (suc a / 2) (b / 2) (omega arith) (omega arith))

bit_or_step : (a b : ℕ) → bit_or a b ≡ bit_or (a / 2) (b / 2) * 2 + max (a % 2) (b % 2)
bit_or_step a b =
    let rest = bit_or-bitwise (a / 2) (b / 2) in
    bit_or-bitwise a b
    ∙ digits_step (λ y. y) max (λ y. omega arith) a b
    ∙ ap (λ (d : ℕ). d * 2 + max (a % 2) (b % 2)) (sym rest)

pub bit_and_step : (a b : ℕ) → bit_and a b ≡ bit_and (a / 2) (b / 2) * 2 + min (a % 2) (b % 2)
bit_and_step a b =
    let rest = bit_and-bitwise (a / 2) (b / 2) in
    bit_and-bitwise a b
    ∙ digits_step (λ y. 0) min (λ y. omega arith) a b
    ∙ ap (λ (d : ℕ). d * 2 + min (a % 2) (b % 2)) (sym rest)

pub digit-suc : (a j : ℕ) → digit a (suc j) ≡ digit (a / 2) j
digit-suc a j =
    ap (λ d. a / d % 2) (pow-suc 2 j ∙ omega arith)
    ∙ ap (λ q. q % 2) (sym (div-div-eq-div-mul a 2 (2 ^ j)))

pub digit-bit_or : (j a b : ℕ) → digit (bit_or a b) j ≡ max (digit a j) (digit b j)
digit-bit_or zero a b = omega (arith, bit_or_step a b)
digit-bit_or (suc j) a b =
    let half : bit_or a b / 2 ≡ bit_or (a / 2) (b / 2) = omega (arith, bit_or_step a b) in
    rw (digit-suc (bit_or a b) j, digit-suc a j, digit-suc b j, half)
      (digit-bit_or j (a / 2) (b / 2))

pub digit-bit_and : (j a b : ℕ) → digit (bit_and a b) j ≡ min (digit a j) (digit b j)
digit-bit_and zero a b = omega (arith, bit_and_step a b)
digit-bit_and (suc j) a b =
    let half : bit_and a b / 2 ≡ bit_and (a / 2) (b / 2) = omega (arith, bit_and_step a b) in
    rw (digit-suc (bit_and a b) j, digit-suc a j, digit-suc b j, half)
      (digit-bit_and j (a / 2) (b / 2))

-- A power of two has one digit that is set.
pub digit-pow_self : (k : ℕ) → digit (2 ^ k) k ≡ 1
digit-pow_self zero = omega arith
digit-pow_self (suc k) =
    let half : 2 ^ suc k / 2 ≡ 2 ^ k = omega (arith, pow-suc 2 k) in
    digit-suc (2 ^ suc k) k ∙ ap (λ a. digit a k) half ∙ digit-pow_self k

pub digit-zero : (j : ℕ) → digit 0 j ≡ 0
digit-zero zero = refl
digit-zero (suc j) = digit-suc 0 j ∙ digit-zero j

pub digit-pow_other : (k j : ℕ) → k ≢ j → digit (2 ^ k) j ≡ 0
digit-pow_other zero zero ne = absurd (ne refl)
digit-pow_other zero (suc j) ne = digit-suc 1 j ∙ digit-zero j
digit-pow_other (suc k) zero ne = omega (arith, pow-suc 2 k)
digit-pow_other (suc k) (suc j) ne =
    let half : 2 ^ suc k / 2 ≡ 2 ^ k = omega (arith, pow-suc 2 k) in
    digit-suc (2 ^ suc k) j ∙ ap (λ a. digit a j) half ∙ digit-pow_other k j (λ e. ne (ap suc e))

-- The digits of the complement of a word of `w` bits.
pub digit-complement : (w j a : ℕ) → j < w → a < 2 ^ w → digit (2 ^ w - 1 - a) j + digit a j ≡ 1
digit-complement zero j a lt fits = absurd (omega arith)
digit-complement (suc w) zero a lt fits = omega (arith, pow-suc 2 w)
digit-complement (suc w) (suc j) a lt fits =
    let half : (2 ^ suc w - 1 - a) / 2 ≡ 2 ^ w - 1 - a / 2 = omega (arith, pow-suc 2 w) in
    rw (digit-suc (2 ^ suc w - 1 - a) j, digit-suc a j, half)
      (digit-complement w j (a / 2) (omega (arith, lt)) (omega (arith, fits, pow-suc 2 w)))

mod-two_pow_suc : (k a : ℕ) → a % 2 ^ suc k ≡ a / 2 % 2 ^ k * 2 + a % 2
mod-two_pow_suc k a =
    let q : ℕ = a / 2 / 2 ^ k in
    let r : ℕ = a / 2 % 2 ^ k * 2 + a % 2 in
    let whole : a ≡ r + q * 2 ^ suc k =
      omega (arith, mod-add-div' (a / 2) (2 ^ k), ap (λ (z : ℕ). q * z) (pow-suc 2 k)) in
    ap (λ (z : ℕ). z % 2 ^ suc k) whole
    ∙ add-mul-mod_self_right r q (2 ^ suc k)
    ∙ mod-eq_of_lt
        (omega (arith, mod-lt (a / 2) {m = 2 ^ k} (one-le-pow k 2 (omega arith)), pow-suc 2 k))

-- A mask of the `k` lowest digits is the remainder by `2 ^ k`.
pub bit_and-low : (k a : ℕ) → bit_and a (2 ^ k - 1) ≡ a % 2 ^ k
bit_and-low zero a = bit_and-zero a a (omega arith) ∙ omega arith
  where
    bit_and-zero : (n a : ℕ) → a ≤ n → bit_and a 0 ≡ 0
    bit_and-zero zero a h = let e : a ≡ 0 = omega arith in rw e (bit_and-bitwise 0 0)
    bit_and-zero (suc n) a h =
        ground (arith, bit_and_step a 0, bit_and-zero n (a / 2) (omega arith))
bit_and-low (suc k) a =
    let half : (2 ^ suc k - 1) / 2 ≡ 2 ^ k - 1 = omega (arith, pow-suc 2 k, one-le-pow k 2) in
    let low = bit_and-low k (a / 2) in
    omega (
      arith,
      bit_and_step a (2 ^ suc k - 1),
      ap (bit_and (a / 2)) half,
      low,
      mod-two_pow_suc k a,
      one-le-pow k 2,
      pow-suc 2 k,
    )

pow-suc_times : (q k : ℕ) → q * 2 ^ suc k ≡ q * 2 ^ k * 2
pow-suc_times q k = omega (arith, ap (λ (z : ℕ). q * z) (pow-suc 2 k))

-- `|` of two fields that do not overlap
pub bit_or-high : (k q r : ℕ) → r < 2 ^ k → bit_or (q * 2 ^ k) r ≡ q * 2 ^ k + r
bit_or-high zero q r fits =
    let none : r ≡ 0 = omega (arith, fits) in
    rw none (ap (λ x. bit_or x 0) whole ∙ or_nothing q q (omega arith) ∙ omega arith)
  where
    whole : q * 2 ^ 0 ≡ q
    whole = omega arith

    or_nothing : (n a : ℕ) → a ≤ n → bit_or a 0 ≡ a
    or_nothing zero a h = let e : a ≡ 0 = omega arith in rw e (bit_or-bitwise 0 0)
    or_nothing (suc n) a h = ground (arith, bit_or_step a 0, or_nothing n (a / 2) (omega arith))
bit_or-high (suc k) q r fits =
    let twice = pow-suc_times q k in
    let half : q * 2 ^ suc k / 2 ≡ q * 2 ^ k = omega (arith, twice) in
    let low = bit_or-high k q (r / 2) (omega (arith, fits, pow-suc 2 k)) in
    let even : q * 2 ^ suc k % 2 ≡ 0 = omega (arith, twice) in
    let step = bit_or_step (q * 2 ^ suc k) r in
    omega (arith, step, ap (λ x. bit_or x (r / 2)) half, low, twice, even)
