-- ===== src/Bitset/Encodes.antt =====
-- The ranks that `build` makes are those of the words.
use cu_collections.Common.{
  ℕ, zero, suc, ◌+◌, ◌-◌, ◌*◌, ◌/◌, ◌%◌, ◌^◌, ◌≤◌, ◌<◌, ◌≡◌, refl, ap, ◌∙◌, arith, Bool, lt→ltb,
  eq-or-ne, inl, inr, ==_of_ne,
}
use cu_collections.Bits.Digits.{bit_or-high}
use cu_collections.Bitset.Defs.{words_per_block, resize, blank_rank, Vector, Rank, base, set_base}
use cu_collections.Bitset.Grid.{launch, launch_writes}
use cu_collections.Bitset.Query.{popcount, rank_of_word}
use cu_collections.Bitset.Build.{
  Cub, IsCub, flip, bit_count, encode_offset, encode_rank, prefix_bit_counts, num_blocks,
  build_ranks,
}
use cu_collections.Bitset.Sums.{sum, popcount_bound, sum_bound, sum-between}

-- A base has 40 bits.
pub base-set_base : (k : Rank) (n : ℕ) → n < 2 ^ 40 → base (set_base k n) ≡ n
unfolding base set_base
base-set_base k n fits =
    let q : ℕ = n / 2 ^ 8 % 2 ^ 32 in
    let small : n % 2 ^ 8 < 2 ^ 8 = omega arith in
    bit_or-high 8 q (n % 2 ^ 8) small ∙ omega (arith, fits)

-- The set bits of the words before `w`.
abbrev pub ones_before : (ℕ → ℕ) → ℕ → ℕ
ones_before words = sum (λ i. popcount 64 (words i))

-- The ranks are those of the words `0, ..., n - 1`.
abbrev pub Encodes : (ℕ → ℕ) → ℕ → (ℕ → Rank) → Type 0
Encodes words n ranks = (w : ℕ) → w < n → rank_of_word ranks w ≡ ones_before words w

-- What a block's rank holds, for those of its words that there are.
record RankFor (prefix : ℕ → ℕ) (n q : ℕ) (k : Rank) : Type 0 where
  base_right : base k ≡ prefix (q * words_per_block)
  offset_right :
      (i : ℕ)
      → i < 3
      → q * words_per_block + i + 1 ≤ n
      → k.offsets i ≡ prefix (q * words_per_block + i + 1) - prefix (q * words_per_block)

ones_before_bound : (words : ℕ → ℕ) (n : ℕ) → ones_before words n ≤ 64 * n
ones_before_bound words = sum_bound _ 64 (λ i. popcount_bound 64 (words i))

module _ {c : Cub} (cub : IsCub c) (fuel stride : ℕ) (some_thread : 0 < stride) (words : Vector ℕ)
    (enough : (words.size + 3) / 4 + 1 ≤ fuel) (enough_words : words.size ≤ fuel)
    (fits : 64 * words.size < 2 ^ 40) (flip_bits : Bool) where
  abbrev bits : ℕ → ℕ
  bits = flip flip_bits words.at

  abbrev prefix : ℕ → ℕ
  prefix = prefix_bit_counts c fuel stride flip_bits words

  prefix-ones : (i : ℕ) → i ≤ words.size → prefix i ≡ ones_before bits i
  unfolding prefix_bit_counts sum bit_count
  prefix-ones zero le = cub.first (words.size + 1) _ (omega arith)
  prefix-ones (suc i) le =
      let counts : ℕ → ℕ = launch fuel stride words.size (bit_count flip_bits words.at) (λ _. 0) in
      let here : counts i ≡ popcount 64 (bits i) =
        launch_writes stride words.size (bit_count flip_bits words.at)
          (λ x. x ≡ popcount 64 (bits i)) i (λ x. refl) fuel (λ _. 0) some_thread enough_words
          (omega (arith, le)) in
      let ih = prefix-ones i (omega (arith, le)) in
      cub.next (words.size + 1) counts i (omega (arith, le))
      ∙ omega (arith, ih, here, ones_before_bound bits i, popcount_bound 64 (bits i), le, fits)

  prefix_bound : (i : ℕ) → i ≤ words.size → prefix i < 2 ^ 40
  prefix_bound i le = omega (arith, prefix-ones i le, ones_before_bound bits i, fits, le)

  RankFor-encode_rank :
      (q : ℕ)
      → q < num_blocks c fuel stride words - 1
      → q * 4 < words.size
      → (x : Rank)
      → RankFor prefix words.size q (encode_rank prefix (num_blocks c fuel stride words) q x)
  unfolding encode_rank encode_offset base set_base
  RankFor-encode_rank q inner inside x = record {
    base_right = base-set_base x (prefix (q * 4)) (prefix_bound (q * 4) (omega arith));
    offset_right = λ i lt le.
        rw (lt→ltb q (num_blocks c fuel stride words - 1) inner, lt→ltb i 3 lt)
          (let (lower, upper) =
              sum-between (λ i. popcount 64 (bits i)) 64 (λ i. popcount_bound 64 (bits i)) (q * 4)
                (i + 1) in
            let there : prefix (q * 4 + i + 1) ≡ ones_before bits (i + 1 + q * 4) =
              prefix-ones (q * 4 + i + 1) le ∙ ap (ones_before bits) (omega arith) in
            let here = prefix-ones (q * 4) (omega arith) in
            omega (arith, lower, upper, there, here, lt, prefix_bound (q * 4) (omega arith)));
  }

  -- The kernel has a thread for each block.
  rank_written :
      (old : Vector Rank) (q : ℕ)
      → q * 4 < words.size
      → RankFor prefix words.size q ((build_ranks c fuel stride flip_bits words old).at q)
  unfolding build_ranks resize
  rank_written old q inside =
      launch_writes stride (num_blocks c fuel stride words)
        (encode_rank prefix (num_blocks c fuel stride words)) (RankFor prefix words.size q) q
        (RankFor-encode_rank q (omega (arith, inside)) inside) fuel
        (resize old (num_blocks c fuel stride words) blank_rank).at some_thread
        (omega (arith, enough, inside)) (omega (arith, inside))

  pub build_ranks-Encodes :
      (old : Vector Rank)
      → Encodes bits words.size (build_ranks c fuel stride flip_bits words old).at
  unfolding rank_of_word
  build_ranks-Encodes old w lt =
      let k : Rank = (build_ranks c fuel stride flip_bits words old).at (w / 4) in
      let r = rank_written old (w / 4) (omega (arith, lt)) in
      let here = prefix-ones w (omega (arith, lt)) in
      elim (eq-or-ne (w % 4) 0) [
        | inl e ↦
            let same : prefix (w / 4 * 4) ≡ prefix w = ap prefix (omega (arith, e)) in
            rw e (r.base_right ∙ same ∙ here)
        | inr ne ↦
            let at : w / 4 * 4 + (w % 4 - 1) + 1 ≡ w = omega (arith, ne) in
            let offset = r.offset_right (w % 4 - 1) (omega (arith, ne)) (omega (arith, at, lt)) in
            let there = ap prefix at in
            let order =
              (sum-between (λ i. popcount 64 (bits i)) 64 (λ i. popcount_bound 64 (bits i))
                (w / 4 * 4) (w % 4)).0 in
            let whole : ones_before bits (w % 4 + w / 4 * 4) ≡ ones_before bits w =
              ap (ones_before bits) (omega arith) in
            let start = prefix-ones (w / 4 * 4) (omega (arith, lt)) in
            rw (==_of_ne (w % 4) 0 ne) (
              omega (
                arith,
                r.base_right,
                offset,
                there,
                order,
                whole,
                here,
                start,
                prefix_bound w (omega (arith, lt)),
              ))
      ]
