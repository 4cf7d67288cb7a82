-- ===== src/OpenAddressing/Insert.antt =====
-- `insert(value)` and `insert_and_find(value)` of one thread. An iterator is the slot's address.
use cu_collections.Common.{ℕ, Bool, true, false, Option, none, some, if◌then◌else◌}
use cu_collections.Equality.{equal, available, inserting, compare_key}
use cu_collections.OpenAddressing.Cas.{
  InsertResult, continue, success, duplicate, attempt_insert, attempt_insert_stable,
  wait_for_payload,
}
use cu_collections.OpenAddressing.Defs.{
  Slot, Memory, Ref, empty_value_sentinel, slot_address, probe,
}
use cu_collections.OpenAddressing.Loop.{return, next, Outcome, for_slots, probe_loop}

-- the `switch` on the result of `attempt_insert`
unfoldable pub insert_switch : Ref → Option (InsertResult × Memory) → Outcome Bool Memory
insert_switch r none = none
insert_switch r (some (success, m)) = some (return true, m)
insert_switch r (some (continue, m)) = some (next, m)
insert_switch r (some (duplicate, m)) = some (if r.allows_duplicates then next else return false, m)

-- the body of the `for` loop at one slot, whose content was loaded with its window
unfoldable pub insert_slot : ℕ → Ref → Slot → Slot → ℕ → Memory → Outcome Bool Memory
insert_slot fuel r val slot_content address m =
    elim (compare_key inserting r.predicate val.first slot_content.first) [
      | equal ↦ some (if r.allows_duplicates then next else return false, m)
      | available ↦ insert_switch r (attempt_insert fuel r m address slot_content val)
      | _ ↦ some (next, m)
    ]

-- `window_slots` is copied before the loop over it
unfoldable pub insert_window : ℕ → Ref → Slot → ℕ → Memory → Outcome Bool Memory
insert_window fuel r val window m =
    for_slots r.window_size 0
      (λ i m'. insert_slot fuel r val (m (slot_address r window i)) (slot_address r window i) m') m

unfoldable pub insert : ℕ → Ref → Slot → Memory → Option (Bool × Memory)
insert fuel r val m = probe_loop fuel r.size_bits (probe r val.first) (insert_window fuel r val) m

-- `if constexpr (has_payload) { wait_for_payload(...); }` and `return {iterator, inserted}`
unfoldable pub found_at : ℕ → Ref → ℕ → Bool → Memory → Outcome (ℕ × Bool) Memory
found_at fuel r address inserted m =
    if r.has_payload
    then elim (wait_for_payload fuel m address (empty_value_sentinel r)) [
      | none ↦ none
      | some _ ↦ some (return (address, inserted), m)
    ]
    else some (return (address, inserted), m)

unfoldable pub insert_and_find_switch :
    ℕ → Ref → ℕ → InsertResult × Memory → Outcome (ℕ × Bool) Memory
insert_and_find_switch fuel r address (success, m) = found_at fuel r address true m
insert_and_find_switch fuel r address (duplicate, m) = found_at fuel r address false m
insert_and_find_switch fuel r address (continue, m) = some (next, m)

unfoldable pub insert_and_find_slot : ℕ → Ref → Slot → Slot → ℕ → Memory → Outcome (ℕ × Bool) Memory
insert_and_find_slot fuel r val slot_content address m =
    elim (compare_key inserting r.predicate val.first slot_content.first) [
      | equal ↦ found_at fuel r address false m
      | available ↦
          insert_and_find_switch fuel r address (attempt_insert_stable r m address slot_content val)
      | _ ↦ some (next, m)
    ]

unfoldable pub insert_and_find_window : ℕ → Ref → Slot → ℕ → Memory → Outcome (ℕ × Bool) Memory
insert_and_find_window fuel r val window m =
    for_slots r.window_size 0
      (λ i m'.
        insert_and_find_slot fuel r val (m (slot_address r window i)) (slot_address r window i) m')
      m

unfoldable pub insert_and_find : ℕ → Ref → Slot → Memory → Option ((ℕ × Bool) × Memory)
insert_and_find fuel r val m =
    probe_loop fuel r.size_bits (probe r val.first) (insert_and_find_window fuel r val) m
