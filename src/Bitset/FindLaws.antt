-- ===== src/Bitset/FindLaws.antt =====
-- `find_next` finds the first set bit from an index on.
use native.Mathlib.Decide.{dec_le}
use cu_collections.Common.{
  ℕ, suc, ◌+◌, ◌-◌, ◌*◌, ◌/◌, ◌%◌, ◌^◌, ◌≤◌, ◌<◌, ◌≡◌, ◌≢◌, refl, ap, sym, ◌∙◌, subst, arith, true,
  false, bit_and, ◌==◌, if◌then◌else◌, if_yes, if_not, eq-or-ne, inl, inr, ==_self, ==_of_ne,
  ==_iff, some,
}
use cu_collections.Bits.Digits.{digit, digit-zero}
use cu_collections.Bits.Masks.{bit_and-lt, some_digit, masked-below, masked-from}
use cu_collections.Bitset.Query.{StorageRef, test, ffs, mask_from, next_word, find_next}
use cu_collections.Bitset.Sums.{test-digit}
use cu_collections.Bitset.Scan.{ffs-Lowest, next_word-finds}

module _ (s : StorageRef) (key : ℕ) where
  -- the word of `key` without the bits before it, and the other words
  seen : ℕ → ℕ
  seen v = if v == key / 64 then bit_and (s.words v) (mask_from (key % 64)) else s.words v

  seen_here : (v : ℕ) → v ≡ key / 64 → seen v ≡ bit_and (s.words v) (mask_from (key % 64))
  unfolding seen
  seen_here v e = if_yes _ _ (ap (λ v. v == key / 64) e ∙ ==_self (key / 64))

  seen_later : (v : ℕ) → v ≢ key / 64 → seen v ≡ s.words v
  unfolding seen
  seen_later v ne = if_not _ _ (==_of_ne v (key / 64) ne)

  seen-lt : ((i : ℕ) → s.words i < 2 ^ 64) → (v : ℕ) → seen v < 2 ^ 64
  seen-lt fits v = elim (eq-or-ne v (key / 64)) [
    | inl e ↦
        subst (λ x. x < 2 ^ 64) (sym (seen_here v e))
          (bit_and-lt 64 (s.words v) (mask_from (key % 64)) (fits v))
    | inr ne ↦ subst (λ x. x < 2 ^ 64) (sym (seen_later v ne)) (fits v)
  ]

  -- From `key` on, the bits are as they were.
  digit-seen : (v m : ℕ) → m < 64 → key ≤ v * 64 + m → digit (seen v) m ≡ digit (s.words v) m
  digit-seen v m lt from = elim (eq-or-ne v (key / 64)) [
    | inl e ↦
        ap (λ x. digit x m) (seen_here v e)
        ∙ masked-from 64 (key % 64) (omega arith) (s.words v) m lt (omega (arith, e, from))
    | inr ne ↦ ap (λ x. digit x m) (seen_later v ne)
  ]

  -- No bit is seen before `key`.
  seen-from : (v m : ℕ) → m < 64 → key / 64 ≤ v → digit (seen v) m ≡ 1 → key ≤ v * 64 + m
  seen-from v m lt from set = elim (eq-or-ne v (key / 64)) [
    | inr ne ↦ omega (arith, from, ne)
    | inl e ↦ elim (dec_le (key % 64) m) [
      | yes le ↦ omega (arith, e, le)
      | no below ↦
          let clear =
            ap (λ x. digit x m) (seen_here v e)
            ∙ masked-below 64 (key % 64) (omega arith) (s.words v) m lt (omega (arith, below)) in
          absurd (omega (arith, clear, set))
    ]
  ]

  bit_of : (v m : ℕ) → m < 64 → test s (v * 64 + m) ≡ (digit (s.words v) m == 1)
  bit_of v m lt =
      let word : (v * 64 + m) / 64 ≡ v = omega (arith, lt) in
      let bit : (v * 64 + m) % 64 ≡ m = omega (arith, lt) in
      test-digit s (v * 64 + m)
      ∙ ap (λ u. digit (s.words u) ((v * 64 + m) % 64) == 1) word
      ∙ ap (λ k. digit (s.words v) k == 1) bit

  clear_bit : (i : ℕ) → key ≤ i → digit (seen (i / 64)) (i % 64) ≡ 0 → test s i ≡ false
  clear_bit i from clear =
      let same = digit-seen (i / 64) (i % 64) (omega arith) (omega (arith, from)) in
      test-digit s i ∙ ap (λ d. d == 1) (sym same ∙ clear)

  find_next-found :
      (fuel u x m : ℕ)
      → next_word fuel s (key / 64) (bit_and (s.words (key / 64)) (mask_from (key % 64)))
        ≡ some (u, x)
      → ffs 64 0 x ≡ suc m
      → u * 64 + m < 2 ^ 64
      → find_next fuel s key ≡ some (u * 64 + m)
  unfolding find_next
  find_next-found fuel u x m result lowest lt =
      rw (result, find_next) (ap some (omega (arith, lowest, lt)))

  -- The first word with a bit that is seen has the bit that is found.
  find_next-at :
      ((i : ℕ) → s.words i < 2 ^ 64)
      → (fuel u : ℕ)
      → next_word fuel s (key / 64) (bit_and (s.words (key / 64)) (mask_from (key % 64)))
        ≡ some (u, seen u)
      → key / 64 ≤ u
      → u * 64 + 63 < 2 ^ 64
      → seen u ≢ 0
      → ((k : ℕ) → key / 64 ≤ k → k < u → seen k ≡ 0)
      → (r : ℕ) × (find_next fuel s key ≡ some r)
        × (test s r ≡ true)
        × (key ≤ r)
        × ((i : ℕ) → key ≤ i → i < r → test s i ≡ false)
  find_next-at fits fuel u result le inside found before =
      let (j', lt', set') = some_digit 64 (seen u) (seen-lt fits u) found in
      let (m, lowest, le_m, low) =
        ffs-Lowest 64 0 (seen u) j' (omega arith) (omega (arith, lt')) set' in
      let lt : m < 64 = omega (arith, le_m, lt') in
      let after : key ≤ u * 64 + m = seen-from u m lt le low.set in
      (
        u * 64 + m,
        find_next-found fuel u (seen u) m result lowest (omega (arith, lt, inside)),
        bit_of u m lt ∙ ap (λ d. d == 1) (sym (digit-seen u m lt after) ∙ low.set),
        after,
        λ i key_le lt_r. clear_bit i key_le (elim (eq-or-ne (i / 64) u) [
          | inl e ↦
              ap (λ v. digit (seen v) (i % 64)) e
              ∙ low.before (i % 64) (omega arith) (omega (arith, e, lt_r))
          | inr ne ↦
              ap (λ x. digit x (i % 64))
                (before (i / 64) (omega (arith, key_le)) (omega (arith, ne, lt_r, lt)))
              ∙ digit-zero (i % 64)
        ]),
      )

  -- Over 64-bit words, if `test` gives true at an index from `key` on that fits 64 bits, with fuel
  -- for the words between: `find_next` ends, and returns the first index from `key` on at which
  -- `test` gives true.
  pub find_next-first :
      ((i : ℕ) → s.words i < 2 ^ 64)
      → (j fuel : ℕ) → key ≤ j
      → j < 2 ^ 64
      → test s j ≡ true
      → j / 64 - key / 64 < fuel
      → (r : ℕ) × (find_next fuel s key ≡ some r)
        × (test s r ≡ true)
        × (key ≤ r)
        × ((i : ℕ) → key ≤ i → i < r → test s i ≡ false)
  find_next-first fits j fuel from inside set enough =
      let bit : digit (s.words (j / 64)) (j % 64) ≡ 1 =
        (==_iff _ 1).0 (sym (test-digit s j) ∙ set) in
      let seen_bit = digit-seen (j / 64) (j % 64) (omega arith) (omega (arith, from)) ∙ bit in
      let at : key / 64 + (j / 64 - key / 64) ≡ j / 64 = omega (arith, from) in
      let (u, result, le, below, found, before) =
        next_word-finds s seen fuel (j / 64 - key / 64) (key / 64)
          (bit_and (s.words (key / 64)) (mask_from (key % 64))) (sym (seen_here (key / 64) refl))
          (λ k lt. sym (seen_later k (omega (arith, lt)))) enough
          (λ none. absurd (
            omega (
              arith,
              seen_bit,
              sym (ap (λ v. digit (seen v) (j % 64)) at),
              ap (λ x. digit x (j % 64)) none,
              digit-zero (j % 64),
            ))) in
      find_next-at fits fuel u result le (omega (arith, below, at, inside)) found before
