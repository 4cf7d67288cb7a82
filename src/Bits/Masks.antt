-- ===== src/Bits/Masks.antt =====
-- The digits that masks leave. No code of the repository is modelled here.
use Prim.Native.Nat.{bit_and-bitwise}
use native.Mathlib.Nat.{
  pow-suc, one-le-pow, add-mul-mod_self_right, mod-lt, mod-eq_of_lt, div-eq_of_lt, pow-le-pow_right,
}
use cu_collections.Common.{
  ℕ, zero, suc, ◌+◌, ◌-◌, ◌*◌, ◌/◌, ◌%◌, ◌^◌, ◌≤◌, ◌<◌, min, bit_and, ◌≡◌, ◌≢◌, ap, sym, ◌∙◌, arith,
  eq-or-ne, inl, inr,
}
use cu_collections.Bits.Digits.{
  digit, digit-suc, digit-zero, digit-complement, digit-bit_and, bit_and_step, bit_and-low,
}

ones-low : (b j : ℕ) → j < b → digit (2 ^ b - 1) j ≡ 1
ones-low b j lt =
    let same : 2 ^ b - 1 ≡ 2 ^ b - 1 - 0 = omega arith in
    let ones = digit-complement b j 0 lt (omega (arith, one-le-pow b 2)) in
    ap (λ x. digit x j) same ∙ omega (arith, ones, digit-zero j)

-- The digits that a mask of low bits leaves.
pub digit-mod_low : (k j a : ℕ) → j < k → digit (a % 2 ^ k) j ≡ digit a j
digit-mod_low k j a lt =
    ap (λ x. digit x j) (sym (bit_and-low k a))
    ∙ digit-bit_and j a (2 ^ k - 1)
    ∙ ap (min (digit a j)) (ones-low k j lt)
    ∙ omega arith

pub digit-small : (j a : ℕ) → a < 2 ^ j → digit a j ≡ 0
digit-small j a lt = ap (λ q. q % 2) (div-eq_of_lt lt)

pub digit-mod_high : (k j a : ℕ) → k ≤ j → digit (a % 2 ^ k) j ≡ 0
digit-mod_high k j a le = digit-small j (a % 2 ^ k) (
    omega (
      arith,
      mod-lt a {m = 2 ^ k} (one-le-pow k 2 (omega arith)),
      pow-le-pow_right {n = 2} (omega arith) le,
    ))

pub bit_and-lt : (k a b : ℕ) → a < 2 ^ k → bit_and a b < 2 ^ k
bit_and-lt zero a b fits = let e : a ≡ 0 = omega arith in rw e (omega (arith, bit_and-bitwise 0 b))
bit_and-lt (suc k) a b fits = omega (
  arith,
  pow-suc 2 k,
  bit_and_step a b,
  bit_and-lt k (a / 2) (b / 2) (omega (arith, pow-suc 2 k)),
)

-- A word that is not 0 has a digit that is set.
pub some_digit : (n w : ℕ) → w < 2 ^ n → w ≢ 0 → (j : ℕ) × (j < n) × (digit w j ≡ 1)
some_digit zero w fits ne = absurd (ne (omega arith))
some_digit (suc n) w fits ne = elim (eq-or-ne (w % 2) 1) [
  | inl odd ↦ (0, omega arith, omega (arith, odd))
  | inr even ↦
      let (j, lt, set) =
        some_digit n (w / 2) (omega (arith, pow-suc 2 n)) (λ e. ne (omega (arith, even, e))) in
      (suc j, omega (arith, lt), digit-suc w j ∙ set)
]

shift_ones : (p q : ℕ) → q ≤ p → p * (q + 1) ≡ p - q + q * (p + 1)
shift_ones p q le = omega arith

-- The mask of all bits from `b` on.
mask_whole : (w b : ℕ) → b < w → (2 ^ w - 1) * 2 ^ b % 2 ^ w ≡ 2 ^ w - 1 - (2 ^ b - 1)
mask_whole w b lt =
    let le = pow-le-pow_right {n = 2} (omega arith) {i = b} {j = w} (omega (arith, lt)) in
    let pos = one-le-pow b 2 (omega arith) in
    let same : (2 ^ w - 1) * 2 ^ b ≡ 2 ^ w - 1 - (2 ^ b - 1) + (2 ^ b - 1) * 2 ^ w =
      ap (λ z. (2 ^ w - 1) * z) {y = 2 ^ b - 1 + 1} (omega (arith, pos))
      ∙ shift_ones (2 ^ w - 1) (2 ^ b - 1) (omega (arith, le))
      ∙ ap (λ z. 2 ^ w - 1 - (2 ^ b - 1) + (2 ^ b - 1) * z) (omega (arith, le, pos)) in
    ap (λ (z : ℕ). z % 2 ^ w) same
    ∙ add-mul-mod_self_right (2 ^ w - 1 - (2 ^ b - 1)) (2 ^ b - 1) (2 ^ w)
    ∙ mod-eq_of_lt (omega (arith, le, pos))

low_mask_fits : (w b : ℕ) → b < w → 2 ^ b - 1 < 2 ^ w
low_mask_fits w b lt = omega (
  arith,
  pow-le-pow_right {n = 2} (omega arith) {i = b} {j = w} (omega (arith, lt)),
  one-le-pow b 2 (omega arith),
)

ones-high : (b j : ℕ) → b ≤ j → digit (2 ^ b - 1) j ≡ 0
ones-high b j le = digit-small j (2 ^ b - 1) (
    omega (
      arith,
      one-le-pow b 2 (omega arith),
      pow-le-pow_right {n = 2} (omega arith) {i = b} {j = j} le,
    ))

module _ (w b : ℕ) (inside : b < w) (x j : ℕ) (lt : j < w) where
  -- the mask is `~0 << b` in a word of `w` bits
  abbrev masked : ℕ
  masked = bit_and x ((2 ^ w - 1) * 2 ^ b % 2 ^ w)

  masked-digit : digit masked j ≡ min (digit x j) (digit (2 ^ w - 1 - (2 ^ b - 1)) j)
  masked-digit =
      ap (λ m. digit (bit_and x m) j) (mask_whole w b inside)
      ∙ digit-bit_and j x (2 ^ w - 1 - (2 ^ b - 1))

  complement_digit : digit (2 ^ w - 1 - (2 ^ b - 1)) j + digit (2 ^ b - 1) j ≡ 1
  complement_digit = digit-complement w j (2 ^ b - 1) lt (low_mask_fits w b inside)

  pub masked-below : j < b → digit masked j ≡ 0
  masked-below below = omega (arith, masked-digit, complement_digit, ones-low b j below)

  pub masked-from : b ≤ j → digit masked j ≡ digit x j
  masked-from from = omega (arith, masked-digit, complement_digit, ones-high b j from)
