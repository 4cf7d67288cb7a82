-- ===== src/Tests/Erased.antt =====
-- A map where 4 stands behind the slot that 7 was erased from.
use cu_collections.Common.{ℕ, ◌<◌, ◌≡◌, ◌≢◌, refl, true, arith, some, [], ◌∷◌}
use cu_collections.OpenAddressing.Defs.{Memory, write, probe, erased_slot_sentinel, capacity}
use cu_collections.OpenAddressing.Duplicates.{insert_behind_free}
use cu_collections.OpenAddressing.Insert.{insert}
use cu_collections.OpenAddressing.Insertion.{Comes}
use cu_collections.OpenAddressing.Path.{path, path_from, addresses}
use cu_collections.Probing.{start_probe, advance}
use cu_collections.OpenAddressing.Table.{is_available, IsTable, HoldsAt}
use cu_collections.OpenAddressing.Writes.{write-IsTable, erase-IsTable}
use cu_collections.Tests.Tables.{
  small_map, small_map-IsKeyEqual, valid_key, stored, stored-IsTable, four, four_absent,
}

abbrev both : Memory
both = write stored 3 four

both-IsTable : IsTable small_map both
unfolding path path_from addresses probe start_probe advance write
both-IsTable =
    write-IsTable small_map-IsKeyEqual stored-IsTable 3 four (valid_key 4 (omega arith))
      (record {
        split = record { before = 2 ∷ []; after = _; whole = refl };
        passed = ((omega arith, λ _. refl), tt);
      })
      (λ _. four_absent)

abbrev after_erase : Memory
after_erase = write both 2 (erased_slot_sentinel small_map)

after_erase-IsTable : IsTable small_map after_erase
after_erase-IsTable = erase-IsTable small_map-IsKeyEqual both-IsTable 2 (omega arith)

behind : HoldsAt small_map after_erase 4 3
unfolding write capacity
behind = (omega arith, refl, refl)

stops_early : Comes small_map 4 after_erase 2
unfolding path path_from addresses probe start_probe advance
stops_early = record { split = record { before = []; after = _; whole = refl }; goes_on = tt }

inside_two : 2 < capacity small_map
unfolding capacity
inside_two = omega arith

erased_free : is_available small_map (after_erase 2) ≡ true
unfolding write erased_slot_sentinel
erased_free = refl

insert_behind_free_example :
    (insert 3 small_map four after_erase ≡ some (true, write after_erase 2 four))
    × HoldsAt small_map (write after_erase 2 four) 4 3
    × HoldsAt small_map (write after_erase 2 four) 4 2
    × (◌≢◌ {A = ℕ} 3 2)
insert_behind_free_example =
    insert_behind_free small_map-IsKeyEqual after_erase-IsTable 3 (omega arith) four
      (valid_key 4 (omega arith)) 3 2 behind stops_early inside_two erased_free
