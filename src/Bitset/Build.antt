-- ===== src/Bitset/Build.antt =====
-- `build`: the index for `rank` and `select`, by kernels and by the device algorithms of CUB.
use cu_collections.Common.{
  ℕ, zero, suc, ◌+◌, ◌-◌, ◌*◌, ◌/◌, ◌%◌, ◌^◌, ◌<◌, ◌≡◌, Bool, true, false, ltb, ◌==◌, if◌then◌else◌,
}
use cu_collections.Bitset.Defs.{
  words_per_block, bits_per_block, Vector, resize, Rank, set_base, blank_rank, DynamicBitset,
}
use cu_collections.Bitset.Grid.{launch}
use cu_collections.Bitset.Query.{popcount, complement, ref, test, rank}

-- The device algorithms of CUB, on the first `n` elements of an array.
pub record Cub : Type 0 where
  -- `DeviceScan::ExclusiveSum`, in place
  pub exclusive_sum : ℕ → (ℕ → ℕ) → ℕ → ℕ
  -- `DeviceReduce::Sum`
  pub reduce_sum : ℕ → (ℕ → ℕ) → ℕ
  -- `DeviceSelect::Flagged` of the counting iterator: the indices with a flag
  pub select_flagged : ℕ → (ℕ → ℕ) → ℕ → ℕ

-- The element `i` of the output of an exclusive sum is the sum of those before `i`.
pub record IsCub (c : Cub) : Type 0 where
  pub first : (n : ℕ) (f : ℕ → ℕ) → 0 < n → c.exclusive_sum n f 0 ≡ 0
  pub next :
      (n : ℕ) (f : ℕ → ℕ) (i : ℕ)
      → suc i < n
      → c.exclusive_sum n f (suc i) ≡ (c.exclusive_sum n f i + f i) % 2 ^ 64

abbrev pub flip : Bool → (ℕ → ℕ) → ℕ → ℕ
flip flip_bits words i = if flip_bits then complement (words i) else words i

-- What a thread of `bit_counts_kernel` writes for a word.
unfoldable pub bit_count : Bool → (ℕ → ℕ) → ℕ → ℕ → ℕ
unfolding popcount
bit_count flip_bits words word_id old = popcount 64 (flip flip_bits words word_id)

-- `prefix[word_id + k + 1] - prefix[word_id]`, in 8 bits
unfoldable pub encode_offset : (ℕ → ℕ) → ℕ → ℕ → ℕ
encode_offset prefix word_id k =
    (prefix (word_id + k + 1) + 2 ^ 64 - prefix word_id) % 2 ^ 64 % 2 ^ 8

-- What a thread of `encode_ranks_from_prefix_bit_counts` writes for a block.
unfoldable pub encode_rank : (ℕ → ℕ) → ℕ → ℕ → Rank → Rank
unfolding set_base encode_offset
encode_rank prefix num_blocks rank_id old =
    let word_id = rank_id * words_per_block in
    let based = set_base old (prefix word_id) in
    record {
      base_hi = based.base_hi;
      base_lo = based.base_lo;
      offsets = λ k.
          if ltb rank_id (num_blocks - 1)
          then (if ltb k (words_per_block - 1)
              then encode_offset prefix word_id k
              else old.offsets k)
          else old.offsets k;
    }

-- `(count - 1) / bits_per_block`, where 0 wraps around
abbrev pub block_of_last : ℕ → ℕ
block_of_last count = (count + 2 ^ 64 - 1) % 2 ^ 64 / bits_per_block

-- `for (block_offset = ...; block_offset <= words_per_block; ...)`, with `n` rounds to go
unfoldable pub crosses : (ℕ → ℕ) → ℕ → ℕ → ℕ → ℕ → ℕ
crosses prefix word_id zero block_offset prev_count = 0
crosses prefix word_id (suc n) block_offset prev_count =
    let count = prefix (word_id + block_offset) in
    let rest = crosses prefix word_id n (block_offset + 1) count in
    if block_of_last prev_count == block_of_last count then rest else 1

-- What a thread of `mark_blocks_with_select_entries` writes for a block.
unfoldable pub mark_block : (ℕ → ℕ) → ℕ → ℕ → ℕ
unfolding crosses
mark_block prefix block_id old =
    if block_id == 0
    then 1
    else crosses prefix (block_id * words_per_block) words_per_block 1
        (prefix (block_id * words_per_block))

-- `stride` is the number of threads of a grid; a thread's loop has fuel for its rounds.
module _ (c : Cub) (fuel stride : ℕ) where
  -- the prefix sum of the bit counts; the entry after the last word is 0 before the sum
  unfoldable pub prefix_bit_counts : Bool → Vector ℕ → ℕ → ℕ
  unfolding bit_count launch
  prefix_bit_counts flip_bits words =
      c.exclusive_sum (words.size + 1)
        (launch fuel stride words.size (bit_count flip_bits words.at) (λ _. 0))

  abbrev pub num_blocks : Vector ℕ → ℕ
  num_blocks words = (words.size - 1) / words_per_block + 2

  unfoldable pub build_ranks : Bool → Vector ℕ → Vector Rank → Vector Rank
  unfolding prefix_bit_counts encode_rank launch resize
  build_ranks flip_bits words ranks =
      let n = num_blocks words in
      let ranks = resize ranks n blank_rank in
      record {
        size = n;
        at = launch fuel stride n (encode_rank (prefix_bit_counts flip_bits words) n) ranks.at;
      }

  unfoldable pub build_selects : Bool → Vector ℕ → Vector ℕ
  unfolding prefix_bit_counts mark_block launch
  build_selects flip_bits words =
      let n = num_blocks words in
      let markers =
        launch fuel stride n (mark_block (prefix_bit_counts flip_bits words)) (λ _. 0) in
      record { size = c.reduce_sum n markers; at = c.select_flagged n markers }

  -- `build_ranks_and_selects` in two parts; it does nothing where there are no bits
  unfoldable pub index_ranks : Bool → DynamicBitset → Vector Rank → Vector Rank
  unfolding build_ranks
  index_ranks flip_bits b ranks =
      if b.n_bits == 0 then ranks else build_ranks flip_bits b.words ranks

  unfoldable pub index_selects : Bool → DynamicBitset → Vector ℕ → Vector ℕ
  unfolding build_selects
  index_selects flip_bits b selects =
      if b.n_bits == 0 then selects else build_selects flip_bits b.words

  -- The index of the 1 bits, and that of the 0 bits.
  unfoldable pub index : DynamicBitset → DynamicBitset
  unfolding index_ranks index_selects
  index b = record {
    n_bits = b.n_bits;
    is_built = true;
    words = b.words;
    ranks_true = index_ranks false b b.ranks_true;
    ranks_false = index_ranks true b b.ranks_false;
    selects_true = index_selects false b b.selects_true;
    selects_false = index_selects true b b.selects_false;
  }

  unfoldable pub build : DynamicBitset → DynamicBitset
  unfolding index
  build b = let indexed = index b in if b.is_built then b else indexed

  -- The bulk `test` and `rank`: they build first, and write one output for each key.
  unfoldable pub test_all : ℕ → (ℕ → ℕ) → (ℕ → Bool) → DynamicBitset → DynamicBitset × (ℕ → Bool)
  unfolding build launch test
  test_all num_keys keys outputs b =
      let b = build b in (b, launch fuel stride num_keys (λ i _. test (ref b) (keys i)) outputs)

  unfoldable pub rank_all : ℕ → (ℕ → ℕ) → (ℕ → ℕ) → DynamicBitset → DynamicBitset × (ℕ → ℕ)
  unfolding build launch rank
  rank_all num_keys keys outputs b =
      let b = build b in (b, launch fuel stride num_keys (λ i _. rank (ref b) (keys i)) outputs)
