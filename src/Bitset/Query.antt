-- ===== src/Bitset/Query.antt =====
-- The queries of a reference to a built `dynamic_bitset`.
use cu_collections.Common.{
  ℕ, zero, suc, ◌+◌, ◌-◌, ◌*◌, ◌/◌, ◌%◌, ◌^◌, bit_and, Bool, not, ltb, leb, ◌==◌, if◌then◌else◌,
  Option, none, some,
}
use cu_collections.Bits.Digits.{digit}
use cu_collections.Bitset.Defs.{words_per_block, bits_per_word, Rank, base, DynamicBitset}

pub record StorageRef : Type 0 where
  pub words : ℕ → ℕ
  pub ranks_true : ℕ → Rank
  pub selects_true : ℕ → ℕ
  pub ranks_false : ℕ → Rank
  pub selects_false : ℕ → ℕ

abbrev pub ref : DynamicBitset → StorageRef
ref b = record {
  words = b.words.at;
  ranks_true = b.ranks_true.at;
  selects_true = b.selects_true.at;
  ranks_false = b.ranks_false.at;
  selects_false = b.selects_false.at;
}

-- `cuda::std::popcount` of the `n` lowest bits; a word has 64
unfoldable pub popcount : ℕ → ℕ → ℕ
popcount zero word = 0
popcount (suc n) word = popcount n word + digit word n

-- `__ffsll` of the bits from `i` on, of which there are `n`: one more than the lowest that is set
unfoldable pub ffs : ℕ → ℕ → ℕ → ℕ
ffs zero i word = 0
ffs (suc n) i word = let rest = ffs n (suc i) word in if digit word i == 1 then suc i else rest

-- `~word`
abbrev pub complement : ℕ → ℕ
complement word = 2 ^ 64 - 1 - word

unfoldable pub test : StorageRef → ℕ → Bool
test s key = not (bit_and (s.words (key / bits_per_word) / 2 ^ (key % bits_per_word)) 1 == 0)

-- `while (word == 0) { word = words[++word_id]; }`
unfoldable pub next_word : ℕ → StorageRef → ℕ → ℕ → Option (ℕ × ℕ)
next_word zero s word_id word = none
next_word (suc fuel) s word_id word =
    let rest = next_word fuel s (word_id + 1) (s.words (word_id + 1)) in
    if word == 0 then rest else some (word_id, word)

-- `~(0UL) << bit_id`
abbrev pub mask_from : ℕ → ℕ
mask_from bit_id = (2 ^ 64 - 1) * 2 ^ bit_id % 2 ^ 64

unfoldable pub find_next : ℕ → StorageRef → ℕ → Option ℕ
unfolding next_word ffs
find_next fuel s key =
    let word_id = key / bits_per_word in
    let bit_id = key % bits_per_word in
    elim (next_word fuel s word_id (bit_and (s.words word_id) (mask_from bit_id))) [
      | none ↦ none
      | some (word_id, word) ↦
          some ((word_id * bits_per_word + ffs 64 0 word + 2 ^ 64 - 1) % 2 ^ 64)
    ]

-- the rank of the first bit of a word, from the base and the offset
unfoldable pub rank_of_word : (ℕ → Rank) → ℕ → ℕ
unfolding base
rank_of_word ranks word_id =
    let rank = ranks (word_id / words_per_block) in
    let offset_id = word_id % words_per_block in
    if offset_id == 0 then base rank else (base rank + rank.offsets (offset_id - 1)) % 2 ^ 64

unfoldable pub rank : StorageRef → ℕ → ℕ
unfolding rank_of_word popcount
rank s key =
    let word_id = key / bits_per_word in
    let bit_id = key % bits_per_word in
    (rank_of_word s.ranks_true word_id + popcount 64 (bit_and (s.words word_id) (2 ^ bit_id - 1)))
    % 2 ^ 64

-- `while (count >= ranks[begin + 1].base()) { ++begin; }`
unfoldable pub linear_search : ℕ → ℕ → (ℕ → Rank) → ℕ → Option ℕ
unfolding base
linear_search zero count ranks start = none
linear_search (suc fuel) count ranks start =
    let rest = linear_search fuel count ranks (start + 1) in
    if leb (base (ranks (start + 1))) count then rest else some start

-- `while (begin + 1 < end) { ... }`
unfoldable pub binary_search : ℕ → ℕ → (ℕ → Rank) → ℕ → ℕ → Option ℕ
unfolding base
binary_search zero count ranks start finish = none
binary_search (suc fuel) count ranks start finish =
    let middle = (start + finish) / 2 in
    let left = binary_search fuel count ranks start middle in
    let right = binary_search fuel count ranks middle finish in
    if ltb (start + 1) finish
    then (if ltb count (base (ranks middle)) then left else right)
    else some start

unfoldable pub initial_rank_estimate : ℕ → ℕ → (ℕ → ℕ) → (ℕ → Rank) → Option ℕ
unfolding linear_search binary_search
initial_rank_estimate fuel count selects ranks =
    let block_id = count / (bits_per_word * words_per_block) in
    let start = selects block_id in
    let finish = selects (block_id + 1) + 1 in
    if leb finish (start + 10)
    then linear_search fuel count ranks start
    else binary_search fuel count ranks start finish

-- a `bool` in a sum
abbrev pub to_number : Bool → ℕ
to_number b = if b then 1 else 0

-- The number of words to go on by, and the count that is left.
unfoldable pub subtract_rank_from_count : ℕ → Rank → ℕ × ℕ
unfolding base
subtract_rank_from_count count rank =
    let count = (count + 2 ^ 64 - base rank) % 2 ^ 64 in
    let inc =
      to_number (leb (rank.offsets 0) count)
      + to_number (leb (rank.offsets 1) count)
      + to_number (leb (rank.offsets 2) count) in
    (inc, if inc == 0 then count else (count + 2 ^ 64 - rank.offsets (inc - 1)) % 2 ^ 64)

-- `word &= word - 1`, so many times
unfoldable pub clear_lowest : ℕ → ℕ → ℕ
clear_lowest zero word = word
clear_lowest (suc n) word = clear_lowest n (bit_and word ((word + 2 ^ 64 - 1) % 2 ^ 64))

unfoldable pub select_bit_in_word : ℕ → ℕ → ℕ
unfolding clear_lowest ffs
select_bit_in_word n word =
    let word = clear_lowest n word in
    (ffs 64 0 (bit_and word ((2 ^ 64 - word) % 2 ^ 64)) + 2 ^ 64 - 1) % 2 ^ 64

-- `select` and `select_false`, on the words as they are read
unfoldable pub select_in : ℕ → (ℕ → ℕ) → (ℕ → ℕ) → (ℕ → Rank) → ℕ → Option ℕ
unfolding initial_rank_estimate subtract_rank_from_count select_bit_in_word
select_in fuel words selects ranks count = elim (initial_rank_estimate fuel count selects ranks) [
  | none ↦ none
  | some rank_id ↦
      let (inc, count) = subtract_rank_from_count count (ranks rank_id) in
      let word_id = rank_id * words_per_block + inc in
      some ((word_id * bits_per_word + select_bit_in_word count (words word_id)) % 2 ^ 64)
]

unfoldable pub select : ℕ → StorageRef → ℕ → Option ℕ
unfolding select_in
select fuel s count = select_in fuel s.words s.selects_true s.ranks_true count

unfoldable pub select_false : ℕ → StorageRef → ℕ → Option ℕ
unfolding select_in
select_false fuel s count =
    select_in fuel (λ i. complement (s.words i)) s.selects_false s.ranks_false count
