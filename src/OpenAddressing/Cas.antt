-- ===== src/OpenAddressing/Cas.antt =====
-- The updates of a single slot by compare-and-swap, as one thread runs them. A busy wait is a loop
-- on fuel: while no other thread runs, the value that it waits for never changes.
use cu_collections.Common.{ℕ, zero, suc, Bool, true, false, Option, none, some, ◌==◌, if◌then◌else◌}
use cu_collections.Equality.{equal, equal_to}
use cu_collections.OpenAddressing.Defs.{Slot, Memory, write, same_slot, Ref, empty_value_sentinel}

pub data InsertResult : Type 0 where
  continue success duplicate : InsertResult

-- `compare_exchange_strong` on a key: whether it swapped, the key that it found, the memory
unfoldable pub cas_key : Memory → ℕ → ℕ → ℕ → Bool × ℕ × Memory
unfolding write
cas_key m address expected desired =
    let found = (m address).first in
    if found == expected
    then (true, found, write m address (record { first = desired; second = (m address).second }))
    else (false, found, m)

unfoldable pub cas_payload : Memory → ℕ → ℕ → ℕ → Bool × Memory
unfolding write
cas_payload m address expected desired =
    if (m address).second == expected
    then (true, write m address (record { first = (m address).first; second = desired }))
    else (false, m)

unfoldable pub store_payload : Memory → ℕ → ℕ → Memory
unfolding write
store_payload m address v = write m address (record { first = (m address).first; second = v })

-- what a failed exchange returns: `equal_to(desired, found) == EQUAL ? DUPLICATE : CONTINUE`
unfoldable pub after_failure : Ref → ℕ → ℕ → InsertResult
unfolding equal_to
after_failure r desired found = elim (equal_to r.predicate desired found) [
  | equal ↦ duplicate
  | _ ↦ continue
]

unfoldable pub packed_cas : Ref → Memory → ℕ → Slot → Slot → InsertResult × Memory
unfolding write same_slot after_failure
packed_cas r m address expected desired =
    if same_slot (m address) expected
    then (success, write m address desired)
    else (after_failure r desired.first (m address).first, m)

unfoldable pub cas_dependent_write : Ref → Memory → ℕ → Slot → Slot → InsertResult × Memory
unfolding cas_key store_payload after_failure
cas_dependent_write r m address expected desired =
    let (swapped, found, m') = cas_key m address expected.first desired.first in
    if swapped
    then (success, store_payload m' address desired.second)
    else (after_failure r desired.first found, m')

-- `while (not payload_cas_success)`
unfoldable pub retry_payload : ℕ → Ref → Memory → ℕ → ℕ → Option Memory
unfolding cas_payload
retry_payload zero r m address v = none
retry_payload (suc fuel) r m address v =
    let rest = λ (m' : Memory). retry_payload fuel r m' address v in
    let (swapped, m') = cas_payload m address (empty_value_sentinel r) v in
    if swapped then some m' else rest m'

-- what follows the two exchanges
unfoldable pub back_to_back_end :
    ℕ → Ref → ℕ → Slot → ℕ → Bool → Bool → Memory → Option (InsertResult × Memory)
unfolding retry_payload store_payload after_failure
back_to_back_end fuel r address desired found true true m = some (success, m)
back_to_back_end fuel r address desired found true false m =
    elim (retry_payload fuel r m address desired.second) [
      | none ↦ none
      | some m' ↦ some (success, m')
    ]
back_to_back_end fuel r address desired found false true m =
    some (after_failure r desired.first found, store_payload m address (empty_value_sentinel r))
back_to_back_end fuel r address desired found false false m =
    some (after_failure r desired.first found, m)

unfoldable pub back_to_back_cas :
    ℕ → Ref → Memory → ℕ → Slot → Slot → Option (InsertResult × Memory)
unfolding cas_key cas_payload back_to_back_end
back_to_back_cas fuel r m address expected desired =
    let (key_swapped, found, m1) = cas_key m address expected.first desired.first in
    let (payload_swapped, m2) = cas_payload m1 address (empty_value_sentinel r) desired.second in
    back_to_back_end fuel r address desired found key_swapped payload_swapped m2

unfoldable pub attempt_insert : ℕ → Ref → Memory → ℕ → Slot → Slot → Option (InsertResult × Memory)
unfolding packed_cas cas_dependent_write back_to_back_cas
attempt_insert fuel r m address expected desired =
    if r.small_slot
    then some (packed_cas r m address expected desired)
    else if r.old_arch
    then some (cas_dependent_write r m address expected desired)
    else back_to_back_cas fuel r m address expected desired

unfoldable pub attempt_insert_stable : Ref → Memory → ℕ → Slot → Slot → InsertResult × Memory
unfolding packed_cas cas_dependent_write
attempt_insert_stable r m address expected desired =
    if r.small_slot
    then packed_cas r m address expected desired
    else cas_dependent_write r m address expected desired

-- `do { current = load; } while (bitwise_compare(current, sentinel));`
unfoldable pub wait_for_payload : ℕ → Memory → ℕ → ℕ → Option (Unit {0})
wait_for_payload zero m address sentinel = none
wait_for_payload (suc fuel) m address sentinel =
    let rest = wait_for_payload fuel m address sentinel in
    if (m address).second == sentinel then rest else some tt
