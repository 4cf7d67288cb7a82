-- ===== src/StaticMap/Apply.antt =====
-- `insert_or_apply` of a `static_map`, of one thread and of a group that runs alone. `op` is given a
-- slot's payload and the value, and its result is the new payload.
use cu_collections.Common.{
  ℕ, Bool, true, false, not, ◌&&◌, ◌==◌, Option, none, some, if◌then◌else◌, List, map,
}
use cu_collections.Equality.{equal, available, inserting, compare_key}
use cu_collections.OpenAddressing.Cas.{
  InsertResult, continue, success, duplicate, cas_key, store_payload, after_failure, packed_cas,
  wait_for_payload,
}
use cu_collections.OpenAddressing.Defs.{
  Slot, Memory, Ref, empty_value_sentinel, slot_address, probe,
}
use cu_collections.OpenAddressing.Loop.{return, next, Outcome, for_slots, probe_loop}
use cu_collections.Group.Lanes.{
  Lane, probe_group, find_lane, slot_ptr, src_lane, finish, retry, step, GroupOutcome, group_loop,
}

-- `op(atomic_ref{slot_ptr->second}, v)`
unfoldable pub apply_op : (ℕ → ℕ → ℕ) → Memory → ℕ → ℕ → Memory
unfolding store_payload
apply_op op m address v = store_payload m address (op (m address).second v)

unfoldable pub attempt_insert_or_apply :
    Bool → (ℕ → ℕ → ℕ) → Ref → Memory → ℕ → Slot → Slot → InsertResult × Memory
unfolding packed_cas cas_key apply_op store_payload after_failure
attempt_insert_or_apply use_direct_apply op r m address expected desired =
    if r.small_slot
    then packed_cas r m address expected desired
    else let (swapped, found, m') = cas_key m address expected.first desired.first in
      if swapped
      then (
        success,
        if use_direct_apply
            then apply_op op m' address desired.second
            else store_payload m' address desired.second,
      )
      else (after_failure r desired.first found, m')

-- `if constexpr (wait_for_payload) { ... }` and `op(...)`
unfoldable pub wait_and_apply : Bool → (ℕ → ℕ → ℕ) → ℕ → Ref → ℕ → ℕ → Memory → Option Memory
unfolding apply_op
wait_and_apply use_direct_apply op fuel r address v m =
    if not use_direct_apply && not r.small_slot
    then elim (wait_for_payload fuel m address (empty_value_sentinel r)) [
      | none ↦ none
      | some _ ↦ some (apply_op op m address v)
    ]
    else some (apply_op op m address v)

-- `return false` after it
unfoldable pub applied : Option Memory → Outcome Bool Memory
applied none = none
applied (some m) = some (return false, m)

module _ (use_direct_apply : Bool) (op : ℕ → ℕ → ℕ) (fuel : ℕ) (r : Ref) (val : Slot) where
  unfoldable pub apply_switch : ℕ → InsertResult × Memory → Outcome Bool Memory
  unfolding wait_and_apply applied
  apply_switch address (success, m) = some (return true, m)
  apply_switch address (duplicate, m) =
      applied (wait_and_apply use_direct_apply op fuel r address val.second m)
  apply_switch address (continue, m) = some (next, m)

  unfoldable pub apply_slot : Slot → ℕ → Memory → Outcome Bool Memory
  unfolding apply_switch attempt_insert_or_apply wait_and_apply applied
  apply_slot slot_content address m =
      elim (compare_key inserting r.predicate val.first slot_content.first) [
        | equal ↦ applied (wait_and_apply use_direct_apply op fuel r address val.second m)
        | available ↦
            apply_switch address
              (attempt_insert_or_apply use_direct_apply op r m address slot_content val)
        | _ ↦ some (next, m)
      ]

  unfoldable pub apply_window : ℕ → Memory → Outcome Bool Memory
  apply_window window m =
      for_slots r.window_size 0
        (λ i m'. apply_slot (m (slot_address r window i)) (slot_address r window i) m') m

  unfoldable pub insert_or_apply_impl : Memory → Option (Bool × Memory)
  insert_or_apply_impl m = probe_loop fuel r.size_bits (probe r val.first) apply_window m

  -- `return false` in every thread after it
  unfoldable pub applied_by_group : Option Memory → GroupOutcome Bool Memory
  applied_by_group none = none
  applied_by_group (some m) = some (finish false, m)

  unfoldable pub apply_group_switch : ℕ → InsertResult × Memory → GroupOutcome Bool Memory
  unfolding wait_and_apply applied_by_group
  apply_group_switch address (success, m) = some (finish true, m)
  apply_group_switch address (duplicate, m) =
      applied_by_group (wait_and_apply use_direct_apply op fuel r address val.second m)
  apply_group_switch address (continue, m) = some (retry, m)

  unfoldable pub apply_group_lanes : Memory → List Lane → GroupOutcome Bool Memory
  unfolding src_lane wait_and_apply applied_by_group apply_group_switch attempt_insert_or_apply
  apply_group_lanes m lanes = elim (src_lane equal lanes) [
    | some lane ↦
        applied_by_group (wait_and_apply use_direct_apply op fuel r (slot_ptr r lane) val.second m)
    | none ↦ elim (src_lane available lanes) [
      | none ↦ some (step, m)
      | some lane ↦ apply_group_switch (slot_ptr r lane) (
          attempt_insert_or_apply use_direct_apply op r m (slot_ptr r lane) (m (slot_ptr r lane))
            val)
    ]
  ]

  unfoldable pub insert_or_apply_impl_group : ℕ → Memory → Option (Bool × Memory)
  insert_or_apply_impl_group cg_size m =
      group_loop fuel r.size_bits (probe_group r cg_size val.first)
        (λ its m'. apply_group_lanes m' (map (find_lane inserting r val.first m') its)) m

module _ (op : ℕ → ℕ → ℕ) (fuel : ℕ) (r : Ref) (val : Slot) where
  -- `insert_or_apply(value, op)` and `insert_or_apply(value, init, op)`
  unfoldable pub insert_or_apply : Memory → Option (Bool × Memory)
  insert_or_apply m = insert_or_apply_impl false op fuel r val m

  unfoldable pub dispatch_insert_or_apply : ℕ → Memory → Option (Bool × Memory)
  dispatch_insert_or_apply init m =
      if init == empty_value_sentinel r
      then insert_or_apply_impl true op fuel r val m
      else insert_or_apply_impl false op fuel r val m

  -- the same for a group
  unfoldable pub insert_or_apply_group : ℕ → Memory → Option (Bool × Memory)
  insert_or_apply_group cg_size m = insert_or_apply_impl_group false op fuel r val cg_size m

  unfoldable pub dispatch_insert_or_apply_group : ℕ → ℕ → Memory → Option (Bool × Memory)
  dispatch_insert_or_apply_group init cg_size m =
      if init == empty_value_sentinel r
      then insert_or_apply_impl_group true op fuel r val cg_size m
      else insert_or_apply_impl_group false op fuel r val cg_size m
