-- ===== src/Bits.antt =====
-- Laws of the exclusive or, for numbers of any width, from the equation for the lowest digit.
-- No code of the repository is modelled here.
pub mod Digits
pub mod Masks
use Prim.Native.Nat.{digits, differ, bit_xor-bitwise}
use native.Mathlib.Nat.{pow-suc, pow-le-pow_right, div-div-eq-div-mul, div-le_self}
use cu_collections.Common.{
  ℕ, zero, suc, ◌+◌, ◌*◌, ◌/◌, ◌%◌, ◌^◌, ◌≤◌, ◌<◌, bit_xor, ◌≡◌, refl, ap, sym, ◌∙◌, arith,
}

differ_digits : (x y : ℕ) → x < 2 → y < 2 → differ x y ≡ (x + y) % 2
differ_digits zero y p q = omega arith
differ_digits (suc zero) zero p q = omega arith
differ_digits (suc zero) (suc zero) p q = omega arith
differ_digits (suc zero) (suc (suc y)) p q = absurd (omega arith)
differ_digits (suc (suc x)) y p q = absurd (omega arith)

abbrev xor_digits : ℕ → ℕ → ℕ → ℕ
xor_digits n a b = digits (λ y. y) differ n a b

more_fuel : (n m a b : ℕ) → a ≤ n → a ≤ m → xor_digits n a b ≡ xor_digits m a b
more_fuel zero zero a b p q = refl
more_fuel zero (suc m) zero b p q = refl
more_fuel zero (suc m) (suc a) b p q = absurd (omega arith)
more_fuel (suc n) zero zero b p q = refl
more_fuel (suc n) zero (suc a) b p q = absurd (omega arith)
more_fuel (suc n) (suc m) zero b p q = refl
more_fuel (suc n) (suc m) (suc a) b p q =
    ap (λ (d : ℕ). d * 2 + differ (suc a % 2) (b % 2))
      (more_fuel n m (suc a / 2) (b / 2) (omega arith) (omega arith))

pub zero-bit_xor : (b : ℕ) → bit_xor 0 b ≡ b
zero-bit_xor b = bit_xor-bitwise 0 b

bit_xor_step : (a b : ℕ) → bit_xor a b ≡ bit_xor (a / 2) (b / 2) * 2 + (a + b) % 2
bit_xor_step zero b = omega (arith, zero-bit_xor b, zero-bit_xor (b / 2))
bit_xor_step (suc a) b = omega (
  arith,
  bit_xor-bitwise (suc a) b,
  bit_xor-bitwise (suc a / 2) (b / 2),
  more_fuel a (suc a / 2) (suc a / 2) (b / 2) (omega arith) (omega arith),
  differ_digits (suc a % 2) (b % 2) (omega arith) (omega arith),
)

bit_xor-half : (a b : ℕ) → bit_xor a b / 2 ≡ bit_xor (a / 2) (b / 2)
bit_xor-half a b = omega (arith, bit_xor_step a b)

bit_xor_parity : (a b : ℕ) → bit_xor a b % 2 ≡ (a + b) % 2
bit_xor_parity a b = omega (arith, bit_xor_step a b)

same_digits : (x y : ℕ) → x / 2 ≡ y / 2 → x % 2 ≡ y % 2 → x ≡ y
same_digits x y h p = omega arith

-- The laws at `k` digits.
comm_digits : (k a b : ℕ) → a < 2 ^ k → b < 2 ^ k → bit_xor a b ≡ bit_xor b a
comm_digits zero a b p q = let e : a ≡ b = omega arith in rw e
comm_digits (suc k) a b p q =
    same_digits _ _
      (rw (bit_xor-half a b, bit_xor-half b a)
        (comm_digits k (a / 2) (b / 2) (omega (arith, pow-suc 2 k)) (omega (arith, pow-suc 2 k))))
      (omega (arith, bit_xor_parity a b, bit_xor_parity b a))

self_digits : (k a : ℕ) → a < 2 ^ k → bit_xor a a ≡ 0
self_digits zero a p = let e : a ≡ 0 = omega arith in rw e (zero-bit_xor 0)
self_digits (suc k) a p =
    omega (arith, bit_xor_step a a, self_digits k (a / 2) (omega (arith, pow-suc 2 k)))

assoc_digits :
    (k a b c : ℕ)
    → a < 2 ^ k
    → b < 2 ^ k
    → c < 2 ^ k
    → bit_xor (bit_xor a b) c ≡ bit_xor a (bit_xor b c)
assoc_digits zero a b c p q s =
    let e : a ≡ 0 = omega arith in rw (e, zero-bit_xor b, zero-bit_xor (bit_xor b c))
assoc_digits (suc k) a b c p q s =
    same_digits _ _
      (rw
        (
          bit_xor-half (bit_xor a b) c,
          bit_xor-half a b,
          bit_xor-half a (bit_xor b c),
          bit_xor-half b c,
        )
        (assoc_digits k (a / 2) (b / 2) (c / 2) (omega (arith, pow-suc 2 k))
          (omega (arith, pow-suc 2 k)) (omega (arith, pow-suc 2 k))))
      (omega (
        arith,
        bit_xor_parity (bit_xor a b) c,
        bit_xor_parity a b,
        bit_xor_parity a (bit_xor b c),
        bit_xor_parity b c,
      ))

pub bit_xor-lt : (k a b : ℕ) → a < 2 ^ k → b < 2 ^ k → bit_xor a b < 2 ^ k
bit_xor-lt zero a b p q = let e : a ≡ 0 = omega arith in rw (e, zero-bit_xor b) q
bit_xor-lt (suc k) a b p q = omega (
  arith,
  pow-suc 2 k,
  bit_xor_step a b,
  bit_xor-lt k (a / 2) (b / 2) (omega (arith, pow-suc 2 k)) (omega (arith, pow-suc 2 k)),
)

lt-two_pow : (n : ℕ) → n < 2 ^ n
lt-two_pow zero = omega arith
lt-two_pow (suc n) = omega (arith, pow-suc 2 n, lt-two_pow n)

in_width : (a n : ℕ) → a ≤ n → a < 2 ^ n
in_width a n h = omega (arith, lt-two_pow a, pow-le-pow_right {n = 2} (omega arith) h)

pub bit_xor_comm : (a b : ℕ) → bit_xor a b ≡ bit_xor b a
bit_xor_comm a b =
    comm_digits (a + b) a b (in_width a (a + b) (omega arith)) (in_width b (a + b) (omega arith))

pub bit_xor_self : (a : ℕ) → bit_xor a a ≡ 0
bit_xor_self a = self_digits a a (in_width a a (omega arith))

pub bit_xor_assoc : (a b c : ℕ) → bit_xor (bit_xor a b) c ≡ bit_xor a (bit_xor b c)
bit_xor_assoc a b c =
    assoc_digits (a + b + c) a b c (in_width a (a + b + c) (omega arith))
      (in_width b (a + b + c) (omega arith)) (in_width c (a + b + c) (omega arith))

pub bit_xor-zero : (a : ℕ) → bit_xor a 0 ≡ a
bit_xor-zero a = bit_xor_comm a 0 ∙ zero-bit_xor a

-- The second use undoes the first.
pub bit_xor_cancel : (a b : ℕ) → bit_xor (bit_xor a b) b ≡ a
bit_xor_cancel a b = bit_xor_assoc a b b ∙ ap (bit_xor a) (bit_xor_self b) ∙ bit_xor-zero a

shift_suc : (a k : ℕ) → a / 2 ^ suc k ≡ a / 2 ^ k / 2
shift_suc a k = rw (pow-suc 2 k) (sym (div-div-eq-div-mul a (2 ^ k) 2))

pub bit_xor-shift : (k a b : ℕ) → bit_xor a b / 2 ^ k ≡ bit_xor (a / 2 ^ k) (b / 2 ^ k)
bit_xor-shift zero a b =
    let a' : a / 2 ^ 0 ≡ a = omega arith in
    let b' : b / 2 ^ 0 ≡ b = omega arith in rw (a', b') (omega arith)
bit_xor-shift (suc k) a b =
    shift_suc (bit_xor a b) k
    ∙ ap (λ (x : ℕ). x / 2) (bit_xor-shift k a b)
    ∙ bit_xor-half (a / 2 ^ k) (b / 2 ^ k)
    ∙ rw (shift_suc a k, shift_suc b k)

-- `x ^= x >> s`; twice, it is the same with twice the shift.
abbrev pub xorshift : ℕ → ℕ → ℕ
xorshift s x = bit_xor x (x / 2 ^ s)

pub xorshift_twice : (s x d : ℕ) → x / 2 ^ s / 2 ^ s ≡ d → xorshift s (xorshift s x) ≡ bit_xor x d
xorshift_twice s x d e =
    let y = x / 2 ^ s in
    ap (bit_xor (bit_xor x y)) (bit_xor-shift s x y ∙ ap (bit_xor y) e)
    ∙ sym (bit_xor_assoc (bit_xor x y) y d)
    ∙ ap (λ (z : ℕ). bit_xor z d) (bit_xor_cancel x y)

pub xorshift-lt : (w s x : ℕ) → x < 2 ^ w → xorshift s x < 2 ^ w
xorshift-lt w s x h = bit_xor-lt w x (x / 2 ^ s) h (omega (arith, div-le_self x (2 ^ s)))
