-- ===== src/Bitset/RankLaws.antt =====
-- The index that `build` makes gives `rank` what it stands for.
use cu_collections.Common.{
  ℕ, ◌+◌, ◌*◌, ◌/◌, ◌%◌, ◌^◌, ◌≤◌, ◌<◌, ◌≡◌, ◌≢◌, ap, sym, ◌∙◌, arith, Bool, true, false,
  Bool-cases, inl, inr, ==_of_ne, if_yes, if_not, subst,
}
use cu_collections.Bitset.Defs.{Vector, Rank, DynamicBitset}
use cu_collections.Bitset.Grid.{launch_writes}
use cu_collections.Bitset.Query.{ref, complement, rank}
use cu_collections.Bitset.Build.{Cub, IsCub, flip, index_ranks, index, build, rank_all}
use cu_collections.Bitset.Sums.{
  count_below, popcount-low, count_below-same, count_below-split, count_below_bound,
}
use cu_collections.Bitset.Encodes.{Encodes, build_ranks-Encodes}

-- The words come in blocks, and the ranks of a built bitset are those of its words.
pub record IsBitset (b : DynamicBitset) : Type 0 where
  pub blocks : b.words.size ≡ 4 * ((b.n_bits + 255) / 256)
  pub encodes_true : b.is_built ≡ true → Encodes b.words.at b.words.size b.ranks_true.at
  pub encodes_false :
      b.is_built ≡ true → Encodes (λ i. complement (b.words.at i)) b.words.size b.ranks_false.at

-- `rank` reads the set bits below an index off a right index.
pub rank-count_below :
    (b : DynamicBitset)
    → Encodes b.words.at b.words.size b.ranks_true.at
    → 64 * b.words.size < 2 ^ 40
    → (key : ℕ) → key < 64 * b.words.size
    → rank (ref b) key ≡ count_below (ref b) key
unfolding rank
rank-count_below b right fits key inside =
    let before = right (key / 64) (omega (arith, inside)) in
    let own = popcount-low (key % 64) (b.words.at (key / 64)) (omega arith) in
    let whole = count_below-split (ref b) key in
    omega (arith, before, own, whole, count_below_bound (ref b) key, fits, inside)

module _ {c : Cub} (cub : IsCub c) (fuel stride : ℕ) (some_thread : 0 < stride) (b : DynamicBitset)
    (valid : IsBitset b) (enough : b.words.size + 2 ≤ fuel)
    (fits : 64 * b.words.size < 2 ^ 40) where
  index_ranks-Encodes :
      (flip_bits : Bool) (old : Vector Rank)
      → Encodes
          (flip flip_bits b.words.at)
          b.words.size
          (index_ranks c fuel stride flip_bits b old).at
  unfolding index_ranks
  index_ranks-Encodes flip_bits old w lt =
      let some_bit : b.n_bits ≢ 0 = λ e. omega (arith, e, valid.blocks, lt) in
      rw (==_of_ne b.n_bits 0 some_bit) (
        build_ranks-Encodes cub fuel stride some_thread b.words (omega (arith, enough))
          (omega (arith, enough)) fits flip_bits old w lt)

  index-IsBitset : IsBitset (index c fuel stride b)
  unfolding index
  index-IsBitset = record {
    blocks = valid.blocks;
    encodes_true = λ _. index_ranks-Encodes false b.ranks_true;
    encodes_false = λ _. index_ranks-Encodes true b.ranks_false;
  }

  -- For a valid bitset of less than `2 ^ 40` bits in its words, with at least one thread, fuel for
  -- two rounds more than there are words, and a `Cub` whose exclusive sum is one: `build` gives a
  -- valid bitset with the same words, which is marked as built.
  pub build-IsBitset :
      IsBitset (build c fuel stride b)
      × ((build c fuel stride b).words ≡ b.words)
      × ((build c fuel stride b).is_built ≡ true)
  unfolding build index
  build-IsBitset = elim (Bool-cases b.is_built) [
    | inl e ↦
        let same = if_yes b (index c fuel stride b) e in
        (
          subst IsBitset (sym same) valid,
          ap (λ (b : DynamicBitset). b.words) same,
          ap (λ (b : DynamicBitset). b.is_built) same ∙ e,
        )
    | inr e ↦
        let same = if_not b (index c fuel stride b) e in
        (
          subst IsBitset (sym same) index-IsBitset,
          ap (λ (b : DynamicBitset). b.words) same,
          ap (λ (b : DynamicBitset). b.is_built) same,
        )
  ]

  -- For a valid bitset of less than `2 ^ 40` bits in its words, with at least one thread, fuel for
  -- two rounds more than there are words, and a `Cub` whose exclusive sum is one: after `build`,
  -- `rank` of an index inside the words is the number of indices below it at which `test` gives
  -- true.
  pub rank-build :
      (key : ℕ)
      → key < 64 * b.words.size
      → rank (ref (build c fuel stride b)) key ≡ count_below (ref b) key
  rank-build key inside =
      let built : DynamicBitset = build c fuel stride b in
      let (valid', same, done) = build-IsBitset in
      let size : built.words.size ≡ b.words.size = ap (λ (v : Vector ℕ). v.size) same in
      rank-count_below built (valid'.encodes_true done) (omega (arith, size, fits)) key
        (omega (arith, size, inside))
      ∙ count_below-same (ref built) (ref b) (ap (λ (v : Vector ℕ). v.at) same) key

  -- Under the same conditions, and with fuel for as many rounds as there are keys, which are
  -- indices inside the words: the bulk `rank` writes for each key the number of indices below it at
  -- which `test` gives true.
  pub rank_all-count_below :
      (num_keys : ℕ) (keys outputs : ℕ → ℕ)
      → num_keys ≤ fuel
      → ((i : ℕ) → i < num_keys → keys i < 64 * b.words.size)
      → (i : ℕ) → i < num_keys
      → (rank_all c fuel stride num_keys keys outputs b).1 i ≡ count_below (ref b) (keys i)
  unfolding rank_all
  rank_all-count_below num_keys keys outputs enough_rounds inside i lt =
      launch_writes stride num_keys (λ i _. rank (ref (build c fuel stride b)) (keys i))
        (λ n. n ≡ count_below (ref b) (keys i)) i (λ _. rank-build (keys i) (inside i lt)) fuel
        outputs some_thread enough_rounds lt
