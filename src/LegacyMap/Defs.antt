-- ===== src/LegacyMap/Defs.antt =====
-- The device views of the older `static_map` (`device_view_base`), and where a probe goes in them.
use cu_collections.Common.{
  ℕ, zero, suc, ◌+◌, ◌%◌, ◌^◌, Bool, Option, none, some, ltb, if◌then◌else◌,
}
use cu_collections.OpenAddressing.Loop.{return, next, Outcome}

-- The members, and the constants that `if constexpr` and `#if` test: `packable` is
-- `is_packable<value_type>()`, `old_arch` is `__CUDA_ARCH__ < 700`. A slot is named by its offset
-- from `slots_`, so that `end()` is the capacity.
pub record View : Type 0 where
  pub capacity : ℕ
  pub empty_key_sentinel : ℕ
  pub erased_key_sentinel : ℕ
  pub empty_value_sentinel : ℕ
  pub packable : Bool
  pub old_arch : Bool

-- The arguments `hash` and `key_equal` of every operation.
pub record Keys : Type 0 where
  pub hash : ℕ → ℕ
  pub key_equal : ℕ → ℕ → Bool

-- `hash(k) % capacity_`
unfoldable pub initial_slot : View → ℕ → ℕ
initial_slot v hash = hash % v.capacity

-- `(++s < end()) ? s : begin_slot()`
unfoldable pub next_slot : View → ℕ → ℕ
next_slot v s = if ltb (s + 1) v.capacity then s + 1 else 0

-- The same for the thread `rank` of a group: `(hash(k) + g.thread_rank()) % capacity_`, whose sum is
-- taken in a type of `w` bits.
unfoldable pub initial_group_slot : ℕ → View → ℕ → ℕ → ℕ
initial_group_slot w v rank hash = (hash + rank) % 2 ^ w % v.capacity

-- `uint32_t index = s - slots_` and `(index + g.size()) % capacity_`
unfoldable pub next_group_slot : View → ℕ → ℕ → ℕ
next_group_slot v size s = (s % 2 ^ 32 + size) % v.capacity

-- `while (true) { ...; current_slot = next_slot(current_slot); }`, with fuel for its rounds
unfoldable pub slot_loop {ℓ κ} :
    {R : Type ℓ} {S : Type κ} → ℕ → View → ℕ → (ℕ → S → Outcome R S) → S → Option (R × S)
slot_loop zero v slot body s = none
slot_loop (suc fuel) v slot body s = elim (body slot s) [
  | none ↦ none
  | some (return r, t) ↦ some (r, t)
  | some (next, t) ↦ slot_loop fuel v (next_slot v slot) body t
]
