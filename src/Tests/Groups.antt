-- ===== src/Tests/Groups.antt =====
-- Two threads on a map with four windows, and `insert_or_assign`.
use cu_collections.Common.{
  ℕ, map, ◌<◌, ◌≡◌, ◌≢◌, refl, arith, true, false, ◌==◌, ◌⊎◌, inl, none, some, In,
}
use cu_collections.Equality.{available, equal, inserting, compare_key}
use cu_collections.Group.InsertGroup.{insert_group-decides}
use cu_collections.Group.Lanes.{
  Lane, window_results, find_lane, group_iterators, group_loop, src_lane,
}
use cu_collections.Group.Windows.{windows_from, group_windows}
use cu_collections.Group.Writes.{insert_group, insert_group_lanes, insert_lane}
use cu_collections.OpenAddressing.Cas.{attempt_insert}
use cu_collections.OpenAddressing.Defs.{Slot, Memory, write, Ref, capacity}
use cu_collections.OpenAddressing.InsertLaws.{Inserted}
use cu_collections.OpenAddressing.Reach.{IsRef}
use cu_collections.OpenAddressing.Table.{is_available, IsTable, Present, blank, blank-IsTable}
use cu_collections.Probing.{start_group_probe}
use cu_collections.StaticMap.Assign.{insert_or_assign, insert_or_assign_group}
use cu_collections.StaticMap.AssignLaws.{
  with_payload, insert_or_assign-absent, insert_or_assign-Present,
}
use cu_collections.StaticMap.Stuck.{insert_or_assign_group_stuck}
use cu_collections.Tests.Tables.{
  small_map, small_map-IsRef, small_map-IsKeyEqual, valid_key, stored, stored-IsTable, four,
  second_slot, seven_HoldsAt, four_absent, stored-NoneErased, free_slot,
}

abbrev wide_map : Ref
wide_map = record small_map { num_windows = 4 }

abbrev six : Slot
six = record { first = 6; second = 60 }

wide_map-IsRef : IsRef wide_map
wide_map-IsRef = omega arith

empty_wide-IsTable : IsTable wide_map (blank wide_map)
empty_wide-IsTable = blank-IsTable wide_map refl

visits_two : In 2 (group_windows 1 wide_map 2 6)
unfolding windows_from group_iterators start_group_probe
visits_two = inl refl

insert_group-decides_example :
    (Present wide_map (blank wide_map) 6
      × (insert_group 1 wide_map 2 six (blank wide_map) ≡ some (false, blank wide_map)))
    ⊎ ((a : ℕ) × (a < capacity wide_map)
        × (is_available wide_map (blank wide_map a) ≡ true)
        × (insert_group 1 wide_map 2 six (blank wide_map)
            ≡ some (true, write (blank wide_map) a six)))
insert_group-decides_example =
    insert_group-decides wide_map-IsRef empty_wide-IsTable refl six 1 2 2 0 visits_two (omega arith)
      refl

-- the slot where the probe for 6 begins, erased
abbrev erased_once : Memory
erased_once = write (blank wide_map) 4 (record { first = 101; second = 0 })

abbrev source : Lane
source = record { window = 2; results = record { state = available; intra_window_index = 0 } }

finds_no_equal :
    src_lane equal
      (map (find_lane inserting wide_map 6 erased_once) (group_iterators wide_map 2 6 2 0))
    ≡ none
unfolding src_lane find_lane window_results group_iterators compare_key write
finds_no_equal = refl

finds_erased :
    src_lane available
      (map (find_lane inserting wide_map 6 erased_once) (group_iterators wide_map 2 6 2 0))
    ≡ some source
unfolding src_lane find_lane window_results group_iterators compare_key write
finds_erased = refl

source_erased : (erased_once 4).first ≢ 100
unfolding write
source_erased = omega arith

source_other : ((6 == (erased_once 4).first)) ≡ false
unfolding write
source_other = refl

insert_or_assign_group_stuck_example : insert_or_assign_group 9 wide_map 2 six erased_once ≡ none
insert_or_assign_group_stuck_example =
    insert_or_assign_group_stuck wide_map 2 six erased_once source finds_no_equal finds_erased
      source_erased source_other 9

-- `insert` of the same group takes the erased slot
insert_takes_it :
    (m : Memory) × (insert_group 1 wide_map 2 six erased_once ≡ some (true, m)) × ((m 4).first ≡ 6)
unfolding insert_group group_loop group_iterators write insert_group_lanes insert_lane
    attempt_insert
insert_takes_it = (_, refl, refl)

insert_or_assign-absent_example :
    (m' : Memory) × (insert_or_assign 3 small_map four stored ≡ some (tt, m'))
    × Inserted small_map stored four m'
insert_or_assign-absent_example =
    insert_or_assign-absent small_map-IsRef small_map-IsKeyEqual stored-IsTable refl 3 (omega arith)
      four (valid_key 4 (omega arith)) refl stored-NoneErased 3 second_slot free_slot four_absent

insert_or_assign-Present_example :
    insert_or_assign 3 small_map (record { first = 7; second = 71 }) stored
    ≡ some (tt, write stored 2 (with_payload (stored 2) 71))
insert_or_assign-Present_example =
    insert_or_assign-Present small_map-IsRef small_map-IsKeyEqual stored-IsTable refl 3
      (omega arith) (record { first = 7; second = 71 }) (valid_key 7 (omega arith)) refl
      stored-NoneErased (2, seven_HoldsAt)
