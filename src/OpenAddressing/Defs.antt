-- ===== src/OpenAddressing/Defs.antt =====
-- The ref of a container and the slots that it points to (`open_addressing_ref_impl`,
-- `aow_storage_ref`). A slot is a `pair<Key, T>`; a key-only container has payloads that are all 0.
use cu_collections.Common.{ℕ, ◌+◌, ◌*◌, Bool, ◌&&◌, ◌==◌, if◌then◌else◌}
use cu_collections.Equality.{EqualWrapper}
use cu_collections.Probing.{ProbingScheme, ProbingIterator, start_probe}

pub record Slot : Type 0 where
  pub first : ℕ
  pub second : ℕ

-- The slots by their offset from `storage_ref_.data()`.
abbrev pub Memory : Type 0
Memory = ℕ → Slot

unfoldable pub write : Memory → ℕ → Slot → Memory
write m address s a = if a == address then s else m a

-- Both parts agree bit for bit.
unfoldable pub same_slot : Slot → Slot → Bool
same_slot s t = (s.first == t.first) && (s.second == t.second)

-- The members, and the constants that `if constexpr` tests: `small_slot` is
-- `sizeof(value_type) <= 8`, `old_arch` is `__CUDA_ARCH__ < 700`.
pub record Ref : Type 0 where
  pub empty_slot_sentinel : Slot
  pub predicate : EqualWrapper
  pub probing_scheme : ProbingScheme
  pub size_bits : ℕ
  pub num_windows : ℕ
  pub window_size : ℕ
  pub allows_duplicates : Bool
  pub has_payload : Bool
  pub small_slot : Bool
  pub old_arch : Bool

abbrev pub empty_value_sentinel : Ref → ℕ
empty_value_sentinel r = r.empty_slot_sentinel.second

unfoldable pub erased_slot_sentinel : Ref → Slot
erased_slot_sentinel r = record {
  first = r.predicate.erased_sentinel;
  second = empty_value_sentinel r;
}

-- `storage_ref_.capacity()`, a number of slots, which the size type holds
unfoldable pub capacity : Ref → ℕ
capacity r = r.num_windows * r.window_size

-- `storage_ref_.end()`: `data() + capacity()`, which counts windows; as an offset of slots
unfoldable pub end : Ref → ℕ
unfolding capacity
end r = capacity r * r.window_size

-- `(storage_ref_.data() + window)->data() + i`
abbrev pub slot_address : Ref → ℕ → ℕ → ℕ
slot_address r window i = window * r.window_size + i

-- `probing_scheme_(key, storage_ref_.window_extent())`
unfoldable pub probe : Ref → ℕ → ProbingIterator
unfolding start_probe
probe r key = start_probe r.size_bits r.probing_scheme key r.num_windows
