-- ===== src/OpenAddressing/Lookup.antt =====
-- The queries of one thread: `contains`, `count`, `find` and `for_each`. They only read the memory.
use cu_collections.Common.{ℕ, ◌+◌, ◌%◌, ◌^◌, Bool, true, false, Option, some, if◌then◌else◌}
use mathlib.Core.Option
use cu_collections.Equality.{EqualResult, equal, empty, querying, compare_key}
use cu_collections.OpenAddressing.Defs.{Slot, Memory, Ref, end, slot_address, probe}
use cu_collections.OpenAddressing.Loop.{return, next, Outcome, for_slots, probe_loop}

abbrev pub compare_slot : Ref → ℕ → Memory → ℕ → EqualResult
compare_slot r key m address = compare_key querying r.predicate key (m address).first

unfoldable pub contains_slot : Ref → ℕ → Memory → ℕ → Unit {0} → Outcome Bool (Unit {0})
contains_slot r key m address u = elim (compare_slot r key m address) [
  | empty ↦ some (return false, tt)
  | equal ↦ some (return true, tt)
  | _ ↦ some (next, tt)
]

unfoldable pub contains : ℕ → Ref → ℕ → Memory → Option Bool
contains fuel r key m =
    Option.map (λ p. p.0)
      (probe_loop fuel r.size_bits (probe r key)
        (λ window. for_slots r.window_size 0 λ i. contains_slot r key m (slot_address r window i))
        tt)

-- `find`: the address of the slot, or `end()`
unfoldable pub find_slot : Ref → ℕ → Memory → ℕ → Unit {0} → Outcome ℕ (Unit {0})
find_slot r key m address u = elim (compare_slot r key m address) [
  | empty ↦ some (return (end r), tt)
  | equal ↦ some (return address, tt)
  | _ ↦ some (next, tt)
]

unfoldable pub find : ℕ → Ref → ℕ → Memory → Option ℕ
find fuel r key m =
    Option.map (λ p. p.0)
      (probe_loop fuel r.size_bits (probe r key)
        (λ window. for_slots r.window_size 0 λ i. find_slot r key m (slot_address r window i)) tt)

-- `count`: the state is the count so far, a `size_type`
unfoldable pub count_slot : Ref → ℕ → Memory → ℕ → ℕ → Outcome ℕ ℕ
count_slot r key m address n = elim (compare_slot r key m address) [
  | empty ↦ some (return n, n)
  | equal ↦ some (next, (n + 1) % 2 ^ r.size_bits)
  | _ ↦ some (next, n)
]

unfoldable pub count : ℕ → Ref → ℕ → Memory → Option ℕ
count fuel r key m =
    if r.allows_duplicates
    then Option.map (λ p. p.0)
        (probe_loop fuel r.size_bits (probe r key)
          (λ window. for_slots r.window_size 0 λ i. count_slot r key m (slot_address r window i)) 0)
    else Option.map (λ b. if b then 1 else 0) (contains fuel r key m)

-- `for_each`: the state is what `callback_op` works on
unfoldable pub for_each_slot {ℓ} :
    {C : Type ℓ} → Ref → ℕ → Memory → (Slot → C → C) → ℕ → C → Outcome (Unit {0}) C
for_each_slot r key m callback address c = elim (compare_slot r key m address) [
  | empty ↦ some (return tt, c)
  | equal ↦ some (next, callback (m address) c)
  | _ ↦ some (next, c)
]

unfoldable pub for_each {ℓ} : {C : Type ℓ} → ℕ → Ref → ℕ → Memory → (Slot → C → C) → C → Option C
for_each fuel r key m callback c =
    Option.map (λ p. p.1)
      (probe_loop fuel r.size_bits (probe r key)
        (λ window.
          for_slots r.window_size 0 λ i. for_each_slot r key m callback (slot_address r window i))
        c)
