-- ===== src/Equality.antt =====
-- include/cuco/detail/equal_wrapper.cuh: how a probe key is compared with a slot's key. A key is
-- the bit pattern of a `Key` of at most 8 bytes, so `bitwise_compare` is equality of numbers.
use cu_collections.Common.{ℕ, Bool, ◌||◌, ◌==◌, if◌then◌else◌}

pub data EqualResult : Type 0 where
  unequal equal empty available : EqualResult

-- `is_insert::YES` and `is_insert::NO`
pub data IsInsert : Type 0 where
  inserting querying : IsInsert

pub record EqualWrapper : Type 0 where
  pub empty_sentinel : ℕ
  pub erased_sentinel : ℕ
  pub equal_fn : ℕ → ℕ → Bool

unfoldable pub equal_to : EqualWrapper → ℕ → ℕ → EqualResult
equal_to w lhs rhs = if w.equal_fn lhs rhs then equal else unequal

-- `operator()<IsInsert>`: the slot's key stands on the right.
unfoldable pub compare_key : IsInsert → EqualWrapper → ℕ → ℕ → EqualResult
unfolding equal_to
compare_key inserting w lhs rhs =
    if (rhs == w.empty_sentinel) || (rhs == w.erased_sentinel)
    then available
    else equal_to w lhs rhs
compare_key querying w lhs rhs = if rhs == w.empty_sentinel then empty else equal_to w lhs rhs
