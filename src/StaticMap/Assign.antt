-- ===== src/StaticMap/Assign.antt =====
-- `insert_or_assign` of a `static_map`, of one thread and of a group that runs alone.
use cu_collections.Common.{ℕ, Bool, true, false, ◌||◌, Option, none, some, if◌then◌else◌, List, map}
use cu_collections.Equality.{EqualResult, equal, available, inserting, equal_to, compare_key}
use cu_collections.OpenAddressing.Cas.{cas_key, store_payload}
use cu_collections.OpenAddressing.Defs.{Slot, Memory, Ref, slot_address, probe}
use cu_collections.OpenAddressing.Loop.{return, next, Outcome, for_slots, probe_loop}
use cu_collections.Group.Lanes.{
  Lane, probe_group, find_lane, slot_ptr, src_lane, finish, retry, step, GroupOutcome, group_loop,
}

-- `== equal_result::EQUAL`
unfoldable pub is_equal : EqualResult → Bool
is_equal equal = true
is_equal _ = false

unfoldable pub attempt_insert_or_assign : Ref → Memory → ℕ → Slot → Bool × Memory
unfolding cas_key store_payload equal_to is_equal
attempt_insert_or_assign r m address value =
    let (swapped, found, m') = cas_key m address r.empty_slot_sentinel.first value.first in
    if swapped || is_equal (equal_to r.predicate value.first found)
    then (true, store_payload m' address value.second)
    else (false, m')

unfoldable pub assign_slot : Ref → Slot → Slot → ℕ → Memory → Outcome (Unit {0}) Memory
unfolding attempt_insert_or_assign store_payload
assign_slot r val slot_content address m =
    elim (compare_key inserting r.predicate val.first slot_content.first) [
      | equal ↦ some (return tt, store_payload m address val.second)
      | available ↦
          let (done, m') = attempt_insert_or_assign r m address val in
          some (if done then return tt else next, m')
      | _ ↦ some (next, m)
    ]

unfoldable pub assign_window : Ref → Slot → ℕ → Memory → Outcome (Unit {0}) Memory
assign_window r val window m =
    for_slots r.window_size 0
      (λ i m'. assign_slot r val (m (slot_address r window i)) (slot_address r window i) m') m

unfoldable pub insert_or_assign : ℕ → Ref → Slot → Memory → Option (Unit {0} × Memory)
insert_or_assign fuel r val m =
    probe_loop fuel r.size_bits (probe r val.first) (assign_window r val) m

-- once every lane has looked at its window
unfoldable pub assign_group_lanes : Ref → Slot → Memory → List Lane → GroupOutcome (Unit {0}) Memory
unfolding src_lane attempt_insert_or_assign store_payload
assign_group_lanes r val m lanes = elim (src_lane equal lanes) [
  | some lane ↦ some (finish tt, store_payload m (slot_ptr r lane) val.second)
  | none ↦ elim (src_lane available lanes) [
    | none ↦ some (step, m)
    | some lane ↦
        let (status, m') = attempt_insert_or_assign r m (slot_ptr r lane) val in
        some (if status then finish tt else retry, m')
  ]
]

unfoldable pub insert_or_assign_group : ℕ → Ref → ℕ → Slot → Memory → Option (Unit {0} × Memory)
insert_or_assign_group fuel r cg_size val m =
    group_loop fuel r.size_bits (probe_group r cg_size val.first)
      (λ its m'. assign_group_lanes r val m' (map (find_lane inserting r val.first m') its)) m
