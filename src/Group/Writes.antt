-- ===== src/Group/Writes.antt =====
-- `insert`, `insert_and_find` and `erase` of a group that runs alone.
use cu_collections.Common.{
  ℕ, zero, suc, Option, none, some, Bool, true, false, not, ◌&&◌, if◌then◌else◌, List, map,
}
use cu_collections.Equality.{unequal, equal, empty, available, inserting, querying, compare_key}
use cu_collections.OpenAddressing.Cas.{
  InsertResult, continue, success, duplicate, attempt_insert, attempt_insert_stable,
  wait_for_payload,
}
use cu_collections.OpenAddressing.Defs.{
  Slot, Memory, Ref, empty_value_sentinel, erased_slot_sentinel, slot_address,
}
use cu_collections.Group.Lanes.{
  WindowProbingResults, Lane, dummy_index, probe_group, find_lane, slot_ptr, any, src_lane, finish,
  retry, step, GroupOutcome, group_loop,
}
use cu_collections.Probing.{ProbingIterator}

-- The loop over the window in `insert`: an equal key is passed by where duplicates are allowed.
unfoldable pub insert_results : Ref → ℕ → Memory → ℕ → ℕ → ℕ → WindowProbingResults
unfolding compare_key
insert_results r key m window zero i = record { state = unequal; intra_window_index = dummy_index }
insert_results r key m window (suc n) i =
    let rest = insert_results r key m window n (suc i) in
    elim (compare_key inserting r.predicate key (m (slot_address r window i)).first) [
      | available ↦ record { state = available; intra_window_index = i }
      | equal ↦
          if r.allows_duplicates then rest else record { state = equal; intra_window_index = i }
      | _ ↦ rest
    ]

unfoldable pub insert_lane : Ref → ℕ → Memory → ProbingIterator → Lane
unfolding insert_results
insert_lane r key m it = record {
  window = it.curr_index;
  results = insert_results r key m it.curr_index r.window_size 0;
}

unfoldable pub insert_group_switch : Ref → Option (InsertResult × Memory) → GroupOutcome Bool Memory
insert_group_switch r none = none
insert_group_switch r (some (success, m)) = some (finish true, m)
insert_group_switch r (some (duplicate, m)) =
    some (if r.allows_duplicates then retry else finish false, m)
insert_group_switch r (some (continue, m)) = some (retry, m)

-- once every lane has looked at its window
unfoldable pub insert_group_lanes : ℕ → Ref → Slot → Memory → List Lane → GroupOutcome Bool Memory
unfolding any src_lane insert_group_switch
insert_group_lanes fuel r val m lanes =
    if not r.allows_duplicates && any equal lanes
    then some (finish false, m)
    else elim (src_lane available lanes) [
      | none ↦ some (step, m)
      | some lane ↦
          insert_group_switch r
            (attempt_insert fuel r m (slot_ptr r lane) (m (slot_ptr r lane)) val)
    ]

unfoldable pub insert_group : ℕ → Ref → ℕ → Slot → Memory → Option (Bool × Memory)
insert_group fuel r cg_size val m =
    group_loop fuel r.size_bits (probe_group r cg_size val.first)
      (λ its m'. insert_group_lanes fuel r val m' (map (insert_lane r val.first m') its)) m

-- the wait of the source lane, `group.sync()` and the return
unfoldable pub found_by_group : ℕ → Ref → ℕ → Bool → Memory → GroupOutcome (ℕ × Bool) Memory
found_by_group fuel r address inserted m =
    if r.has_payload
    then elim (wait_for_payload fuel m address (empty_value_sentinel r)) [
      | none ↦ none
      | some _ ↦ some (finish (address, inserted), m)
    ]
    else some (finish (address, inserted), m)

unfoldable pub insert_and_find_group_switch :
    ℕ → Ref → ℕ → InsertResult × Memory → GroupOutcome (ℕ × Bool) Memory
unfolding found_by_group
insert_and_find_group_switch fuel r address (success, m) = found_by_group fuel r address true m
insert_and_find_group_switch fuel r address (duplicate, m) = found_by_group fuel r address false m
insert_and_find_group_switch fuel r address (continue, m) = some (retry, m)

unfoldable pub insert_and_find_group_lanes :
    ℕ → Ref → Slot → Memory → List Lane → GroupOutcome (ℕ × Bool) Memory
unfolding src_lane found_by_group insert_and_find_group_switch
insert_and_find_group_lanes fuel r val m lanes = elim (src_lane equal lanes) [
  | some lane ↦ found_by_group fuel r (slot_ptr r lane) false m
  | none ↦ elim (src_lane available lanes) [
    | none ↦ some (step, m)
    | some lane ↦
        insert_and_find_group_switch fuel r (slot_ptr r lane)
          (attempt_insert_stable r m (slot_ptr r lane) (m (slot_ptr r lane)) val)
  ]
]

unfoldable pub insert_and_find_group : ℕ → Ref → ℕ → Slot → Memory → Option ((ℕ × Bool) × Memory)
insert_and_find_group fuel r cg_size val m =
    group_loop fuel r.size_bits (probe_group r cg_size val.first)
      (λ its m'.
        insert_and_find_group_lanes fuel r val m' (map (find_lane inserting r val.first m') its))
      m

unfoldable pub erase_group_switch : InsertResult × Memory → GroupOutcome Bool Memory
erase_group_switch (success, m) = some (finish true, m)
erase_group_switch (duplicate, m) = some (finish false, m)
erase_group_switch (continue, m) = some (retry, m)

unfoldable pub erase_group_lanes : Ref → Memory → List Lane → GroupOutcome Bool Memory
unfolding any src_lane erase_group_switch
erase_group_lanes r m lanes = elim (src_lane equal lanes) [
  | some lane ↦
      erase_group_switch
        (attempt_insert_stable r m (slot_ptr r lane) (m (slot_ptr r lane)) (erased_slot_sentinel r))
  | none ↦ some (if any empty lanes then finish false else step, m)
]

unfoldable pub erase_group : ℕ → Ref → ℕ → ℕ → Memory → Option (Bool × Memory)
erase_group fuel r cg_size key m =
    group_loop fuel r.size_bits (probe_group r cg_size key)
      (λ its m'. erase_group_lanes r m' (map (find_lane querying r key m') its)) m
