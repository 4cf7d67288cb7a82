-- ===== src/OpenAddressing/Erase.antt =====
-- `erase(key)` of one thread.
use cu_collections.Common.{ℕ, Bool, true, false, Option, some}
use cu_collections.Equality.{equal, empty, querying, compare_key}
use cu_collections.OpenAddressing.Cas.{
  InsertResult, continue, success, duplicate, attempt_insert_stable,
}
use cu_collections.OpenAddressing.Defs.{
  Slot, Memory, Ref, erased_slot_sentinel, slot_address, probe,
}
use cu_collections.OpenAddressing.Loop.{return, next, Outcome, for_slots, probe_loop}

unfoldable pub erase_switch : InsertResult × Memory → Outcome Bool Memory
erase_switch (success, m) = some (return true, m)
erase_switch (duplicate, m) = some (return false, m)
erase_switch (continue, m) = some (next, m)

unfoldable pub erase_slot : Ref → ℕ → Slot → ℕ → Memory → Outcome Bool Memory
erase_slot r key slot_content address m =
    elim (compare_key querying r.predicate key slot_content.first) [
      | empty ↦ some (return false, m)
      | equal ↦
          erase_switch (attempt_insert_stable r m address slot_content (erased_slot_sentinel r))
      | _ ↦ some (next, m)
    ]

unfoldable pub erase_window : Ref → ℕ → ℕ → Memory → Outcome Bool Memory
erase_window r key window m =
    for_slots r.window_size 0
      (λ i m'. erase_slot r key (m (slot_address r window i)) (slot_address r window i) m') m

unfoldable pub erase : ℕ → Ref → ℕ → Memory → Option (Bool × Memory)
erase fuel r key m = probe_loop fuel r.size_bits (probe r key) (erase_window r key) m
