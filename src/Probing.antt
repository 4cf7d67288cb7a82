-- ===== src/Probing.antt =====
-- include/cuco/detail/probing_scheme/probing_scheme_impl.inl and `sanitize_hash` of
-- include/cuco/detail/utils.cuh: where a key's probe sequence starts and how it goes on.
-- `size_type` is an unsigned type of `w` bits, and the hash functions are the template's
-- parameters. A window extent is its value, so `%` and `/` by it are those of the numbers
-- (`fast_int` computes the same remainder by a multiplication).
pub mod Cycle
use cu_collections.Common.{ℕ, ◌+◌, ◌-◌, ◌*◌, ◌/◌, ◌%◌, ◌^◌, ltb, if◌then◌else◌}

pub record ProbingIterator : Type 0 where
  pub curr_index : ℕ
  pub step_size : ℕ
  pub upper_bound : ℕ

-- the prefix `operator++`; the sum is taken in `size_type`
unfoldable pub advance : ℕ → ProbingIterator → ProbingIterator
advance w it = record it { curr_index = (it.curr_index + it.step_size) % 2 ^ w % it.upper_bound }

-- `sanitize_hash<size_type>` of a hash value, for an unsigned `size_type`
unfoldable pub sanitize_hash : ℕ → ℕ → ℕ
sanitize_hash w hash = hash % 2 ^ w

-- `sanitize_hash` for the thread `rank` of a cooperative group
unfoldable pub sanitize_group_hash : ℕ → ℕ → ℕ → ℕ
unfolding sanitize_hash
sanitize_group_hash w rank hash =
    let base_hash = sanitize_hash w hash in
    let max_size = 2 ^ w - 1 in
    let cg_rank = rank % 2 ^ w in
    if ltb (max_size - cg_rank) base_hash
    then cg_rank - (max_size - base_hash)
    else base_hash + cg_rank

-- The probing schemes, with their hash functions.
pub data ProbingScheme : Type 0 where
  linear_probing : (hash : ℕ → ℕ) → ProbingScheme
  double_hashing : (hash1 hash2 : ℕ → ℕ) → ProbingScheme

-- `operator()(probe_key, upper_bound)`
unfoldable pub start_probe : ℕ → ProbingScheme → ℕ → ℕ → ProbingIterator
unfolding sanitize_hash
start_probe w (linear_probing hash) key bound = record {
  curr_index = sanitize_hash w (hash key) % bound;
  step_size = 1;
  upper_bound = bound;
}
start_probe w (double_hashing hash1 hash2) key bound = record {
  curr_index = sanitize_hash w (hash1 key) % bound;
  step_size = sanitize_hash w (hash2 key) % (bound - 1) + 1;
  upper_bound = bound;
}

-- `operator()(group, probe_key, upper_bound)` as the thread `rank` of a group of `cg_size` calls it
unfoldable pub start_group_probe : ℕ → ℕ → ℕ → ProbingScheme → ℕ → ℕ → ProbingIterator
unfolding sanitize_group_hash
start_group_probe w cg_size rank (linear_probing hash) key bound = record {
  curr_index = sanitize_group_hash w rank (hash key) % bound;
  step_size = cg_size;
  upper_bound = bound;
}
start_group_probe w cg_size rank (double_hashing hash1 hash2) key bound = record {
  curr_index = sanitize_group_hash w rank (hash1 key) % bound;
  step_size = (sanitize_hash w (hash2 key) % (bound / cg_size - 1) + 1) * cg_size % 2 ^ w;
  upper_bound = bound;
}
