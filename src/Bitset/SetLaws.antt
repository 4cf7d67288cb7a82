-- ===== src/Bitset/SetLaws.antt =====
-- What `set` and `push_back` do to the bits.
use native.Mathlib.Nat.{pow-le-pow_right}
use cu_collections.Common.{
  ℕ, ◌+◌, ◌-◌, ◌*◌, ◌/◌, ◌%◌, ◌^◌, ◌≤◌, ◌<◌, ◌≡◌, ◌≢◌, refl, ap, sym, ◌∙◌, arith, Bool, true, false,
  ◌==◌, if◌then◌else◌, Bool-cases, if_yes, if_not, eq-or-ne, inl, inr, ==_self, ==_of_ne, lt→ltb,
}
use cu_collections.Bits.Digits.{
  digit, digit-bit_or, digit-bit_and, digit-pow_self, digit-pow_other, digit-complement,
}
use cu_collections.Bitset.Defs.{
  bits_per_block, resize, DynamicBitset, set_bit, set, extend, count_bit, push_back,
}
use cu_collections.Bitset.Grid.{assign}
use cu_collections.Bitset.Query.{ref, test, to_number}
use cu_collections.Bitset.Sums.{test-digit}
use cu_collections.Bitset.RankLaws.{IsBitset}

two_pow_lt : (k : ℕ) → k < 64 → 2 ^ k < 2 ^ 64
two_pow_lt k lt =
    let le : k ≤ 63 = omega (arith, lt) in omega (arith, pow-le-pow_right {n = 2} (omega arith) le)

mask_self : (k : ℕ) → k < 64 → digit (2 ^ 64 - 1 - 2 ^ k) k ≡ 0
mask_self k lt = omega (arith, digit-complement 64 k (2 ^ k) lt (two_pow_lt k lt), digit-pow_self k)

mask_other : (k j : ℕ) → k < 64 → j < 64 → k ≢ j → digit (2 ^ 64 - 1 - 2 ^ k) j ≡ 1
mask_other k j lk lj ne =
    omega (arith, digit-complement 64 j (2 ^ k) lj (two_pow_lt k lk), digit-pow_other k j ne)

digit-set_bit_self : (w k : ℕ) (bit : Bool) → k < 64 → digit (set_bit w k bit) k ≡ to_number bit
unfolding set_bit
digit-set_bit_self w k true lt = omega (arith, digit-bit_or k w (2 ^ k), digit-pow_self k)
digit-set_bit_self w k false lt =
    omega (arith, digit-bit_and k w (2 ^ 64 - 1 - 2 ^ k), mask_self k lt)

digit-set_bit_other :
    (w k j : ℕ) (bit : Bool) → k < 64 → j < 64 → k ≢ j → digit (set_bit w k bit) j ≡ digit w j
unfolding set_bit
digit-set_bit_other w k j true lk lj ne =
    omega (arith, digit-bit_or j w (2 ^ k), digit-pow_other k j ne)
digit-set_bit_other w k j false lk lj ne =
    omega (arith, digit-bit_and j w (2 ^ 64 - 1 - 2 ^ k), mask_other k j lk lj ne)

to_number_test : (bit : Bool) → (to_number bit == 1) ≡ bit
to_number_test true = refl
to_number_test false = refl

module _ (i : ℕ) (bit : Bool) (b : DynamicBitset) where
  -- the word that is set
  new_word : ℕ
  new_word = set_bit (b.words.at (i / 64)) (i % 64) bit

  word-set : (v : ℕ) → v ≡ i / 64 → (set i bit b).words.at v ≡ new_word
  unfolding set assign new_word
  word-set v e = if_yes _ _ (ap (λ v. v == i / 64) e ∙ ==_self (i / 64))

  word-set_other : (v : ℕ) → v ≢ i / 64 → (set i bit b).words.at v ≡ b.words.at v
  unfolding set assign
  word-set_other v ne = if_not _ _ (==_of_ne v (i / 64) ne)

  pub test-set_self : test (ref (set i bit b)) i ≡ bit
  unfolding new_word
  test-set_self =
      test-digit (ref (set i bit b)) i
      ∙ ap (λ w. digit w (i % 64) == 1) (word-set (i / 64) refl)
      ∙ ap (λ d. d == 1) (digit-set_bit_self (b.words.at (i / 64)) (i % 64) bit (omega arith))
      ∙ to_number_test bit

  same_digit :
      (j : ℕ)
      → j ≢ i
      → digit ((set i bit b).words.at (j / 64)) (j % 64) ≡ digit (b.words.at (j / 64)) (j % 64)
  unfolding new_word
  same_digit j ne = elim (eq-or-ne (j / 64) (i / 64)) [
    | inl e ↦
        ap (λ w. digit w (j % 64)) (word-set (j / 64) e)
        ∙ digit-set_bit_other (b.words.at (i / 64)) (i % 64) (j % 64) bit (omega arith)
            (omega arith) (λ same. ne (omega (arith, same, e)))
        ∙ ap (λ v. digit (b.words.at v) (j % 64)) (sym e)
    | inr other ↦ ap (λ w. digit w (j % 64)) (word-set_other (j / 64) other)
  ]

  pub test-set_other : (j : ℕ) → j ≢ i → test (ref (set i bit b)) j ≡ test (ref b) j
  test-set_other j ne =
      test-digit (ref (set i bit b)) j
      ∙ ap (λ d. d == 1) (same_digit j ne)
      ∙ sym (test-digit (ref b) j)

  -- `test` after `set` gives the bit that was set at its index, and at every other index what it
  -- gave before.
  pub test-set : (j : ℕ) → test (ref (set i bit b)) j ≡ (if j == i then bit else test (ref b) j)
  test-set j = elim (eq-or-ne j i) [
    | inl e ↦
        ap (test (ref (set i bit b))) e
        ∙ test-set_self
        ∙ sym (if_yes bit (test (ref b) j) (ap (λ j. j == i) e ∙ ==_self i))
    | inr ne ↦ test-set_other j ne ∙ sym (if_not bit (test (ref b) j) (==_of_ne j i ne))
  ]

pub set-IsBitset : (i : ℕ) (bit : Bool) (b : DynamicBitset) → IsBitset b → IsBitset (set i bit b)
unfolding set
set-IsBitset i bit b valid = record {
  blocks = valid.blocks;
  encodes_true = λ e. absurd (cc (e));
  encodes_false = λ e. absurd (cc (e));
}

module _ (bit : Bool) (b : DynamicBitset) (valid : IsBitset b) where
  extended_size : (extend b).words.size ≡ 4 * ((b.n_bits + 256) / 256)
  unfolding extend resize
  extended_size = elim (eq-or-ne (b.n_bits % 256) 0) [
    | inl e ↦ rw (e) (omega (arith, valid.blocks, e))
    | inr ne ↦ rw (==_of_ne (b.n_bits % 256) 0 ne) (omega (arith, valid.blocks, ne))
  ]

  -- The words that there are stay when a block is added.
  extended_word : (v : ℕ) → v < b.words.size → (extend b).words.at v ≡ b.words.at v
  unfolding extend resize
  extended_word v lt = elim (Bool-cases (b.n_bits % bits_per_block == 0)) [
    | inl e ↦ rw (e, lt→ltb v b.words.size lt) refl
    | inr e ↦ rw (e) refl
  ]

  -- `push_back` keeps a bitset valid: it has as many blocks of words as its bits take, and an index
  -- that is marked as built is that of its words.
  pub push_back-IsBitset : IsBitset (push_back bit b)
  unfolding push_back set extend
  push_back-IsBitset = record {
    blocks = extended_size ∙ ap (λ n. 4 * (n / 256)) (omega arith);
    encodes_true = λ e. absurd (cc (e));
    encodes_false = λ e. absurd (cc (e));
  }

  -- In a valid bitset `push_back` adds one bit and keeps the bitset valid: the number of bits goes
  -- up by one, the words that it writes to have the new bit's word and keep their size, `test`
  -- gives the new bit at the last index, and at the indices before it what it gave before.
  pub test-push_back :
      ((push_back bit b).n_bits ≡ b.n_bits + 1)
      × IsBitset (push_back bit b)
      × (b.n_bits < 64 * (extend b).words.size)
      × ((extend b).words.size ≡ (push_back bit b).words.size)
      × (test (ref (push_back bit b)) b.n_bits ≡ bit)
      × ((j : ℕ) → j < b.n_bits → test (ref (push_back bit b)) j ≡ test (ref b) j)
  unfolding push_back set extend
  test-push_back = (
    refl,
    push_back-IsBitset,
    omega (arith, extended_size),
    refl,
    test-set_self b.n_bits bit (count_bit (extend b)),
    λ j lt.
        test-set_other b.n_bits bit (count_bit (extend b)) j (omega (arith, lt))
        ∙ test-digit (ref (count_bit (extend b))) j
        ∙ ap (λ w. digit w (j % 64) == 1) (extended_word (j / 64) (omega (arith, valid.blocks, lt)))
        ∙ sym (test-digit (ref b) j),
  )
