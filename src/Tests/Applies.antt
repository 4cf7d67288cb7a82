-- ===== src/Tests/Applies.antt =====
-- `insert_or_apply` with the sum of the payloads.
use cu_collections.Common.{◌+◌, ◌≡◌, ◌≢◌, refl, arith, true, false, some}
use cu_collections.OpenAddressing.Defs.{Memory, write}
use cu_collections.OpenAddressing.InsertLaws.{Inserted}
use cu_collections.StaticMap.Apply.{insert_or_apply}
use cu_collections.StaticMap.ApplyLaws.{insert_or_apply-absent, insert_or_apply-Present}
use cu_collections.StaticMap.AssignLaws.{with_payload}
use cu_collections.Tests.Tables.{
  small_map, small_map-IsRef, small_map-IsKeyEqual, valid_key, stored, stored-IsTable, four,
  second_slot, seven_HoldsAt, four_absent, stored-NoneErased, free_slot,
}

stored_payload : (stored 2).second ≢ 0
unfolding write
stored_payload = omega arith

insert_or_apply-absent_example :
    (m' : Memory) × (insert_or_apply (λ a b. a + b) 3 small_map four stored ≡ some (true, m'))
    × Inserted small_map stored four m'
insert_or_apply-absent_example =
    insert_or_apply-absent small_map-IsRef small_map-IsKeyEqual stored-IsTable refl (λ a b. a + b) 3
      (omega arith) four (valid_key 4 (omega arith)) 3 second_slot free_slot four_absent

insert_or_apply-Present_example :
    insert_or_apply (λ a b. a + b) 3 small_map (record { first = 7; second = 5 }) stored
    ≡ some (false, write stored 2 (with_payload (stored 2) ((stored 2).second + 5)))
insert_or_apply-Present_example =
    insert_or_apply-Present small_map-IsRef small_map-IsKeyEqual stored-IsTable refl (λ a b. a + b)
      3 (omega arith) (record { first = 7; second = 5 }) (valid_key 7 (omega arith))
      stored-NoneErased (2, seven_HoldsAt) stored_payload
