-- ===== src/Tests/Storages.antt =====
-- Two threads on the three windows of the small map.
use cu_collections.Common.{ℕ, ◌<◌, ◌≡◌, refl, arith, some}
use cu_collections.OpenAddressing.Defs.{Memory, capacity}
use cu_collections.OpenAddressing.Initialize.{initialize}
use cu_collections.OpenAddressing.InitializeLaws.{initialize-IsTable}
use cu_collections.OpenAddressing.Table.{IsTable}
use cu_collections.Tests.Tables.{small_map, small_map-IsRef, stored}

initialize-IsTable_example :
    (m' : Memory) × (initialize 3 32 small_map 2 stored ≡ some m')
    × IsTable small_map m'
    × ((a : ℕ) → a < capacity small_map → m' a ≡ small_map.empty_slot_sentinel)
initialize-IsTable_example =
    initialize-IsTable small_map 3 32 2 stored small_map-IsRef refl (omega arith) (omega arith)
      (omega arith)
