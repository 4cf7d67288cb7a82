-- ===== src/Hash/Fmix.antt =====
-- The murmur finalizers lose nothing: for a given seed they are one to one on words.
use cu_collections.Bits.{
  bit_xor-lt, bit_xor-zero, bit_xor_cancel, xorshift, xorshift_twice, xorshift-lt,
}
use cu_collections.Common.{ℕ, ◌/◌, ◌^◌, ◌<◌, bit_xor, ◌≡◌, ap, sym, ◌∙◌, arith}
use cu_collections.Hash.Murmur.{fmix32, fmix64}
use cu_collections.Hash.Words.{mul}

-- the inverses of the two finalizers
abbrev unfmix32 : ℕ → ℕ → ℕ
unfmix32 seed h =
    let a = mul 32 (xorshift 16 h) 0x7ed1b41d in
    let b = mul 32 (xorshift 26 (xorshift 13 a)) 0xa5cb9243 in bit_xor (xorshift 16 b) seed

abbrev unfmix64 : ℕ → ℕ → ℕ
unfmix64 seed h =
    let a = mul 64 (xorshift 33 h) 0x9cb4b2f8129337db in
    let b = mul 64 (xorshift 33 a) 0x4f74430c22a54005 in bit_xor (xorshift 33 b) seed

undo_shift : (s x : ℕ) → x / 2 ^ s / 2 ^ s ≡ 0 → xorshift s (xorshift s x) ≡ x
undo_shift s x e = xorshift_twice s x 0 e ∙ bit_xor-zero x

undo_13 : (x : ℕ) → x < 2 ^ 32 → xorshift 26 (xorshift 13 (xorshift 13 x)) ≡ x
undo_13 x h =
    ap (xorshift 26) (xorshift_twice 13 x (x / 2 ^ 26) (omega arith))
    ∙ undo_shift 26 x (omega arith)

undo_16 : (x : ℕ) → x < 2 ^ 32 → xorshift 16 (xorshift 16 x) ≡ x
undo_16 x h = undo_shift 16 x (omega arith)

undo_33 : (x : ℕ) → x < 2 ^ 64 → xorshift 33 (xorshift 33 x) ≡ x
undo_33 x h = undo_shift 33 x (omega arith)

undo_mul32_a : (x : ℕ) → x < 2 ^ 32 → mul 32 (mul 32 x 0x85ebca6b) 0xa5cb9243 ≡ x
undo_mul32_a x h = omega arith

undo_mul32_b : (x : ℕ) → x < 2 ^ 32 → mul 32 (mul 32 x 0xc2b2ae35) 0x7ed1b41d ≡ x
undo_mul32_b x h = omega arith

undo_mul64_a : (x : ℕ) → x < 2 ^ 64 → mul 64 (mul 64 x 0xff51afd7ed558ccd) 0x4f74430c22a54005 ≡ x
undo_mul64_a x h = omega arith

undo_mul64_b : (x : ℕ) → x < 2 ^ 64 → mul 64 (mul 64 x 0xc4ceb9fe1a85ec53) 0x9cb4b2f8129337db ≡ x
undo_mul64_b x h = omega arith

pub mul32-lt : (x c : ℕ) → mul 32 x c < 2 ^ 32
mul32-lt x c = omega arith

pub mul64-lt : (x c : ℕ) → mul 64 x c < 2 ^ 64
mul64-lt x c = omega arith

module _ (seed key : ℕ) where
  module _ (s : seed < 2 ^ 32) (k : key < 2 ^ 32) where
    fmix32_undone : unfmix32 seed (fmix32 seed key) ≡ key
    unfolding fmix32
    fmix32_undone =
        let h1 = bit_xor key seed in
        let h2 = xorshift 16 h1 in
        let h3 = mul 32 h2 0x85ebca6b in
        let h4 = xorshift 13 h3 in
        let h5 = mul 32 h4 0xc2b2ae35 in
        let l1 = bit_xor-lt 32 key seed k s in
        let l4 = xorshift-lt 32 13 h3 (mul32-lt h2 0x85ebca6b) in
        rw (undo_16 h5 (mul32-lt h4 0xc2b2ae35)) (
          rw (undo_mul32_b h4 l4) (
            rw (undo_13 h3 (mul32-lt h2 0x85ebca6b)) (
              rw (undo_mul32_a h2 (xorshift-lt 32 16 h1 l1))
                (rw (undo_16 h1 l1) (bit_xor_cancel key seed)))))

    pub fmix32-lt : fmix32 seed key < 2 ^ 32
    unfolding fmix32
    fmix32-lt = xorshift-lt 32 16 _ (mul32-lt _ 0xc2b2ae35)

  module _ (s : seed < 2 ^ 64) (k : key < 2 ^ 64) where
    fmix64_undone : unfmix64 seed (fmix64 seed key) ≡ key
    unfolding fmix64
    fmix64_undone =
        let h1 = bit_xor key seed in
        let h2 = xorshift 33 h1 in
        let h3 = mul 64 h2 0xff51afd7ed558ccd in
        let h4 = xorshift 33 h3 in
        let h5 = mul 64 h4 0xc4ceb9fe1a85ec53 in
        let l1 = bit_xor-lt 64 key seed k s in
        let l4 = xorshift-lt 64 33 h3 (mul64-lt h2 0xff51afd7ed558ccd) in
        rw (undo_33 h5 (mul64-lt h4 0xc4ceb9fe1a85ec53)) (
          rw (undo_mul64_b h4 l4) (
            rw (undo_33 h3 (mul64-lt h2 0xff51afd7ed558ccd)) (
              rw (undo_mul64_a h2 (xorshift-lt 64 33 h1 l1))
                (rw (undo_33 h1 l1) (bit_xor_cancel key seed)))))

    pub fmix64-lt : fmix64 seed key < 2 ^ 64
    unfolding fmix64
    fmix64-lt = xorshift-lt 64 33 _ (mul64-lt _ 0xc4ceb9fe1a85ec53)

-- For one 32-bit seed, two 32-bit words that `fmix32` takes to one value are the same word.
pub fmix32-injective :
    (seed a b : ℕ) → seed < 2 ^ 32 → a < 2 ^ 32 → b < 2 ^ 32 → fmix32 seed a ≡ fmix32 seed b → a ≡ b
fmix32-injective seed a b s ha hb e =
    sym (fmix32_undone seed a s ha) ∙ ap (unfmix32 seed) e ∙ fmix32_undone seed b s hb

-- For one 64-bit seed, two 64-bit words that `fmix64` takes to one value are the same word.
pub fmix64-injective :
    (seed a b : ℕ) → seed < 2 ^ 64 → a < 2 ^ 64 → b < 2 ^ 64 → fmix64 seed a ≡ fmix64 seed b → a ≡ b
fmix64-injective seed a b s ha hb e =
    sym (fmix64_undone seed a s ha) ∙ ap (unfmix64 seed) e ∙ fmix64_undone seed b s hb
