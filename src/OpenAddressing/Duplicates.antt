-- ===== src/OpenAddressing/Duplicates.antt =====
-- `insert` where an erased slot stands before the slot that holds the key.
use cu_collections.Common.{ℕ, ◌<◌, ◌≤◌, ◌≡◌, ◌≢◌, refl, subst, true, false, some}
use cu_collections.OpenAddressing.Defs.{Slot, Memory, write, Ref, capacity}
use cu_collections.OpenAddressing.Insert.{insert}
use cu_collections.OpenAddressing.Insertion.{
  Comes, insert-Comes, visit_available, compare_insert-available,
}
use cu_collections.OpenAddressing.Steps.{write_here, write_other}
use cu_collections.OpenAddressing.Table.{IsKeyEqual, IsValidKey, is_available, IsTable, HoldsAt}
use cu_collections.OpenAddressing.Writes.{valid-not-available}

-- In a well-formed table, with fuel for all windows: if one slot holds a valid key, and the probe
-- for the key comes first to another slot that is free, as it does once that slot was erased,
-- `insert` returns true and writes the element there, and then two different slots hold the key.
pub insert_behind_free :
    {r : Ref} {m : Memory}
    → IsKeyEqual r
    → IsTable r m
    → (fuel : ℕ) → r.num_windows ≤ fuel
    → (val : Slot) → IsValidKey r val.first
    → (a free : ℕ) → HoldsAt r m val.first a
    → Comes r val.first m free
    → free < capacity r
    → is_available r (m free) ≡ true
    → (insert fuel r val m ≡ some (true, write m free val))
      × HoldsAt r (write m free val) val.first a
      × HoldsAt r (write m free val) val.first free
      × (a ≢ free)
insert_behind_free {r} {m} ok t fuel enough val v a free (lt, filled, same) w inside is_free = (
  insert-Comes fuel enough val free true (write m free val) w (
      visit_available fuel r val m free (t.idle free inside is_free)
        (compare_insert-available r val.first m free is_free)),
  (lt, rw other filled, rw other same),
  (inside, rw here (valid-not-available r val v), rw here (ok.reflexive val.first)),
  apart,
)
  where
    apart : a ≢ free
    apart e = cc (is_free, subst (λ a. is_available r (m a) ≡ false) e filled)

    other : write m free val a ≡ m a
    other = write_other m free a val apart

    here : write m free val free ≡ val
    here = write_here m free free val refl
