-- ===== src/Tests/Bitsets.antt =====
-- A bitset of three bits, and a bitset whose first block has no bit that is set.
use cu_collections.Common.{
  ℕ, zero, suc, ◌+◌, ◌-◌, ◌*◌, ◌%◌, ◌^◌, ◌<◌, ◌≤◌, ◌≡◌, refl, true, false, leb, ◌==◌, if◌then◌else◌,
  arith, some,
}
use cu_collections.Bitset.Defs.{
  resize, base, set_base, blank_rank, DynamicBitset, empty_bitset, set_bit, set, extend, push_back,
}
use cu_collections.Bitset.Grid.{assign}
use cu_collections.Bitset.Query.{
  StorageRef, ref, popcount, ffs, test, rank_of_word, rank, find_next, initial_rank_estimate,
  select_bit_in_word, select_in, select,
}
use cu_collections.Bitset.Build.{rank_all, Cub, IsCub, encode_rank, crosses, mark_block, build}
use cu_collections.Bitset.Sums.{sum, count_below}
use cu_collections.Bitset.FindLaws.{find_next-first}
use cu_collections.Bitset.SetLaws.{push_back-IsBitset, test-set, test-push_back}
use cu_collections.Bitset.RankLaws.{IsBitset, rank-build, rank_all-count_below}

machine : Unit {0}
unfolding set set_bit extend push_back assign resize base set_base test rank_of_word rank popcount
    ffs find_next select_in select initial_rank_estimate select_bit_in_word encode_rank crosses
    mark_block sum count_below
machine = tt

plain_sum : ℕ → (ℕ → ℕ) → ℕ → ℕ
plain_sum n f zero = 0
plain_sum n f (suc i) = (plain_sum n f i + f i) % 2 ^ 64

-- Sums as CUB documents them; the select index is not used here.
abbrev cub : Cub
cub = record { exclusive_sum = plain_sum; reduce_sum = λ n f. 0; select_flagged = λ n f i. 0 }

cub-IsCub : IsCub cub
unfolding plain_sum
cub-IsCub = record { first = λ n f lt. refl; next = λ n f i lt. refl }

empty_bitset-IsBitset : IsBitset empty_bitset
empty_bitset-IsBitset = record {
  blocks = refl;
  encodes_true = λ e. absurd (cc (e));
  encodes_false = λ e. absurd (cc (e));
}

abbrev two_bits : DynamicBitset
two_bits = push_back false (push_back true empty_bitset)

two_bits-IsBitset : IsBitset two_bits
two_bits-IsBitset =
    push_back-IsBitset false (push_back true empty_bitset)
      (push_back-IsBitset true empty_bitset empty_bitset-IsBitset)

test-set_example :
    test (ref (set 1 true two_bits)) 0 ≡ (if 0 == 1 then true else test (ref two_bits) 0)
test-set_example = test-set 1 true two_bits 0

test-push_back_example :
    ((push_back true two_bits).n_bits ≡ two_bits.n_bits + 1)
    × IsBitset (push_back true two_bits)
    × (two_bits.n_bits < 64 * (extend two_bits).words.size)
    × ((extend two_bits).words.size ≡ (push_back true two_bits).words.size)
    × (test (ref (push_back true two_bits)) two_bits.n_bits ≡ true)
    × ((j : ℕ)
        → j < two_bits.n_bits
        → test (ref (push_back true two_bits)) j ≡ test (ref two_bits) j)
test-push_back_example = test-push_back true two_bits two_bits-IsBitset

four_words : two_bits.words.size ≡ 4
unfolding machine
four_words = refl

rank-build_example : rank (ref (build cub 6 2 two_bits)) 2 ≡ count_below (ref two_bits) 2
rank-build_example =
    rank-build cub-IsCub 6 2 (omega arith) two_bits two_bits-IsBitset (omega (arith, four_words))
      (omega (arith, four_words)) 2 (omega (arith, four_words))

one_below_two : count_below (ref two_bits) 2 ≡ 1
unfolding machine
one_below_two = refl

set_0 : test (ref two_bits) 0 ≡ true
unfolding machine
set_0 = refl

words_fit : (i : ℕ) → (ref two_bits).words i < 2 ^ 64
unfolding machine
words_fit i = ground arith

find_next-first_example :
    (r : ℕ) × (find_next 1 (ref two_bits) 0 ≡ some r)
    × (test (ref two_bits) r ≡ true)
    × (0 ≤ r)
    × ((i : ℕ) → 0 ≤ i → i < r → test (ref two_bits) i ≡ false)
find_next-first_example =
    find_next-first (ref two_bits) 0 words_fit 0 1 (omega arith) (omega arith) set_0 (omega arith)

next_of_zero : find_next 1 (ref two_bits) 0 ≡ some 0
unfolding machine
next_of_zero = refl

-- The prefix sums of words of which the first four have no bit, the fifth has one, and those from
-- the word 56 on have all their bits.
late_prefix : ℕ → ℕ
late_prefix i = if leb i 4 then 0 else if leb i 56 then 1 else 1 + 64 * (i - 56)

-- Block 1 has a select entry beside that of block 0, since 0 wraps around.
early_entry : mark_block late_prefix 1 0 ≡ 1
unfolding machine late_prefix
early_entry = refl

no_entry : mark_block late_prefix 2 0 ≡ 0
unfolding machine late_prefix
no_entry = refl

crossing_entry : mark_block late_prefix 14 0 ≡ 1
unfolding machine late_prefix
crossing_entry = refl

-- The index that these entries make, of 20 blocks.
late_bitset : StorageRef
unfolding machine late_prefix
late_bitset = record {
  words = λ i. if leb 56 i then 2 ^ 64 - 1 else if i == 4 then 1 else 0;
  ranks_true = λ q. encode_rank late_prefix 21 q blank_rank;
  selects_true = λ i. if i == 0 then 0 else if i == 1 then 1 else 12 + i;
  ranks_false = λ q. blank_rank;
  selects_false = λ i. 0;
}

-- The bit number 300 is the bit 3883, and `select` gives another.
wrong_select : select 20 late_bitset 300 ≡ some 3775
unfolding machine late_prefix late_bitset
wrong_select = refl

rank_of_selected : (rank late_bitset 3883 ≡ 300) × (test late_bitset 3883 ≡ true)
unfolding machine late_prefix late_bitset
rank_of_selected = (refl, refl)

rank_all-count_below_example :
    (rank_all cub 6 2 2 (λ i. i) (λ i. 0) two_bits).1 1 ≡ count_below (ref two_bits) 1
rank_all-count_below_example =
    rank_all-count_below cub-IsCub 6 2 (omega arith) two_bits two_bits-IsBitset
      (omega (arith, four_words)) (omega (arith, four_words)) 2 (λ i. i) (λ i. 0) (omega arith)
      (λ i lt. omega (arith, four_words, lt)) 1 (omega arith)
