-- ===== src/LegacyMap/Insert.antt =====
-- `device_mutable_view::insert` and `insert_and_find` of one thread, with the three ways to write a
-- slot. `InsertResult` is `insert_result`.
use cu_collections.Common.{
  ℕ, zero, suc, Bool, true, false, not, ◌&&◌, ◌||◌, ◌==◌, Option, none, some, if◌then◌else◌,
}
use cu_collections.OpenAddressing.Cas.{
  InsertResult, continue, success, duplicate, cas_key, cas_payload, store_payload, wait_for_payload,
}
use cu_collections.OpenAddressing.Defs.{Slot, Memory, write, same_slot}
use cu_collections.OpenAddressing.Loop.{return, next, Outcome}
use cu_collections.LegacyMap.Defs.{View, Keys, initial_slot, slot_loop}

-- `key_equal(insert_pair.first, found) ? DUPLICATE : CONTINUE`
unfoldable pub when_lost : Keys → ℕ → ℕ → InsertResult
when_lost keys key found = if keys.key_equal key found then duplicate else continue

unfoldable pub packed_cas : View → Keys → Memory → ℕ → Slot → ℕ → InsertResult × Memory
unfolding write same_slot when_lost
packed_cas v keys m slot pair expected_key =
    if same_slot (m slot) (record { first = expected_key; second = v.empty_value_sentinel })
    then (success, write m slot pair)
    else (when_lost keys pair.first (m slot).first, m)

-- `while (not value_success)`
unfoldable pub retry_value : ℕ → View → Memory → ℕ → ℕ → Option Memory
unfolding cas_payload
retry_value zero v m slot value = none
retry_value (suc fuel) v m slot value =
    let rest = λ (m' : Memory). retry_value fuel v m' slot value in
    let (swapped, m') = cas_payload m slot v.empty_value_sentinel value in
    if swapped then some m' else rest m'

unfoldable pub with_success : Option Memory → Option (InsertResult × Memory)
with_success none = none
with_success (some m) = some (success, m)

-- what follows the two exchanges
unfoldable pub after_exchanges :
    ℕ → View → Keys → ℕ → Slot → ℕ → Bool → Bool → Memory → Option (InsertResult × Memory)
unfolding retry_value store_payload when_lost with_success
after_exchanges fuel v keys slot pair found true true m = some (success, m)
after_exchanges fuel v keys slot pair found true false m =
    with_success (retry_value fuel v m slot pair.second)
after_exchanges fuel v keys slot pair found false true m =
    some (when_lost keys pair.first found, store_payload m slot v.empty_value_sentinel)
after_exchanges fuel v keys slot pair found false false m =
    some (when_lost keys pair.first found, m)

unfoldable pub back_to_back_cas :
    ℕ → View → Keys → Memory → ℕ → Slot → ℕ → Option (InsertResult × Memory)
unfolding cas_key cas_payload after_exchanges
back_to_back_cas fuel v keys m slot pair expected_key =
    let (key_success, found, m1) = cas_key m slot expected_key pair.first in
    let (value_success, m2) = cas_payload m1 slot v.empty_value_sentinel pair.second in
    after_exchanges fuel v keys slot pair found key_success value_success m2

unfoldable pub cas_dependent_write : View → Keys → Memory → ℕ → Slot → ℕ → InsertResult × Memory
unfolding cas_key store_payload when_lost
cas_dependent_write v keys m slot pair expected_key =
    let (key_success, found, m1) = cas_key m slot expected_key pair.first in
    if key_success
    then (success, store_payload m1 slot pair.second)
    else (when_lost keys pair.first found, m1)

unfoldable pub slot_is_available : View → ℕ → Bool
slot_is_available v key = (key == v.empty_key_sentinel) || (key == v.erased_key_sentinel)

-- `insert`: the way to write that its types and the architecture choose
unfoldable pub write_pair : ℕ → View → Keys → Memory → ℕ → Slot → ℕ → Option (InsertResult × Memory)
unfolding packed_cas cas_dependent_write back_to_back_cas
write_pair fuel v keys m slot pair expected_key =
    if v.packable
    then some (packed_cas v keys m slot pair expected_key)
    else if v.old_arch
    then some (cas_dependent_write v keys m slot pair expected_key)
    else back_to_back_cas fuel v keys m slot pair expected_key

unfoldable pub insert_status : Option (InsertResult × Memory) → Outcome Bool Memory
insert_status none = none
insert_status (some (success, m)) = some (return true, m)
insert_status (some (duplicate, m)) = some (return false, m)
insert_status (some (continue, m)) = some (next, m)

unfoldable pub insert_at : ℕ → View → Keys → Slot → ℕ → Memory → Outcome Bool Memory
unfolding slot_is_available write_pair insert_status
insert_at fuel v keys pair slot m =
    let existing_key = (m slot).first in
    if not (slot_is_available v existing_key) && keys.key_equal existing_key pair.first
    then some (return false, m)
    else if slot_is_available v existing_key
    then insert_status (write_pair fuel v keys m slot pair existing_key)
    else some (next, m)

unfoldable pub insert : ℕ → View → Keys → Slot → Memory → Option (Bool × Memory)
unfolding slot_loop initial_slot insert_at
insert fuel v keys pair m =
    slot_loop fuel v (initial_slot v (keys.hash pair.first)) (insert_at fuel v keys pair) m

-- `insert_and_find`: `return make_pair(current_slot, false)`, after the wait for the value where a
-- pair is not packable
unfoldable pub present_at : ℕ → View → ℕ → Memory → Outcome (ℕ × Bool) Memory
unfolding wait_for_payload
present_at fuel v slot m =
    if v.packable
    then some (return (slot, false), m)
    else elim (wait_for_payload fuel m slot v.empty_value_sentinel) [
      | none ↦ none
      | some _ ↦ some (return (slot, false), m)
    ]

unfoldable pub insert_and_find_status :
    ℕ → View → ℕ → InsertResult × Memory → Outcome (ℕ × Bool) Memory
unfolding present_at
insert_and_find_status fuel v slot (success, m) = some (return (slot, true), m)
insert_and_find_status fuel v slot (duplicate, m) = present_at fuel v slot m
insert_and_find_status fuel v slot (continue, m) = some (next, m)

unfoldable pub write_pair_stable : View → Keys → Memory → ℕ → Slot → ℕ → InsertResult × Memory
unfolding packed_cas cas_dependent_write
write_pair_stable v keys m slot pair expected_key =
    if v.packable
    then packed_cas v keys m slot pair expected_key
    else cas_dependent_write v keys m slot pair expected_key

unfoldable pub insert_and_find_at : ℕ → View → Keys → Slot → ℕ → Memory → Outcome (ℕ × Bool) Memory
unfolding slot_is_available present_at insert_and_find_status write_pair_stable
insert_and_find_at fuel v keys pair slot m =
    let existing_key = (m slot).first in
    if not (slot_is_available v existing_key) && keys.key_equal existing_key pair.first
    then present_at fuel v slot m
    else if slot_is_available v existing_key
    then insert_and_find_status fuel v slot (write_pair_stable v keys m slot pair existing_key)
    else some (next, m)

unfoldable pub insert_and_find : ℕ → View → Keys → Slot → Memory → Option ((ℕ × Bool) × Memory)
unfolding slot_loop initial_slot insert_and_find_at
insert_and_find fuel v keys pair m =
    slot_loop fuel v (initial_slot v (keys.hash pair.first)) (insert_and_find_at fuel v keys pair) m
