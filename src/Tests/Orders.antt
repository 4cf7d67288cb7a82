-- ===== src/Tests/Orders.antt =====
-- An operation after another on a map of three windows.
use cu_collections.Common.{ℕ, ◌<◌, ◌≡◌, refl, true, false, some, arith, In}
use cu_collections.OpenAddressing.Cover.{IsCyclic, path_covers}
use cu_collections.OpenAddressing.Defs.{Memory, capacity}
use cu_collections.OpenAddressing.Erase.{erase}
use cu_collections.OpenAddressing.Insert.{insert}
use cu_collections.OpenAddressing.Lookup.{contains, find}
use cu_collections.OpenAddressing.Path.{path}
use cu_collections.OpenAddressing.RoundTrip.{find-insert, contains-erase}
use cu_collections.Tests.Tables.{
  small_map, small_map-IsRef, small_map-IsKeyEqual, valid_key, four, stored, stored-IsTable,
  seven_HoldsAt, four_absent, free_slot, empty_slot,
}

small_map-IsCyclic : IsCyclic small_map
small_map-IsCyclic = omega arith

inside_three : 3 < capacity small_map
unfolding capacity
inside_three = omega arith

path_covers_example : In 3 (path 3 small_map 7)
path_covers_example = path_covers small_map small_map-IsRef small_map-IsCyclic 7 3 inside_three

find-insert_example :
    (m' : Memory) × (a : ℕ) × (insert 3 small_map four stored ≡ some (true, m'))
    × (find 3 small_map 4 m' ≡ some a)
    × (m' a ≡ four)
find-insert_example =
    find-insert small_map-IsRef small_map-IsCyclic small_map-IsKeyEqual stored-IsTable refl 3
      (omega arith) four (valid_key 4 (omega arith)) 3 inside_three free_slot four_absent

contains-erase_example :
    (m' : Memory) × (erase 3 small_map 7 stored ≡ some (true, m'))
    × (contains 3 small_map 7 m' ≡ some false)
contains-erase_example =
    contains-erase small_map-IsRef small_map-IsCyclic small_map-IsKeyEqual stored-IsTable refl 3
      (omega arith) 7 (valid_key 7 (omega arith)) (omega arith) 3 inside_three empty_slot
      (2, seven_HoldsAt)
