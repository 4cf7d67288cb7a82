-- ===== src/StaticMap/AssignLaws.antt =====
-- What `insert_or_assign` of one thread does to a table, and to the map that the table stands for.
use cu_collections.Common.{
  ℕ, ◌<◌, ◌≤◌, ◌≡◌, ap, ◌∙◌, arith, true, false, ◌==◌, some, ==_self, Split,
}
use cu_collections.Equality.{unequal, equal, available}
use cu_collections.OpenAddressing.Cas.{cas_key, store_payload}
use cu_collections.OpenAddressing.Defs.{Slot, Memory, write, Ref, capacity, probe}
use cu_collections.OpenAddressing.InsertLaws.{NoneErased, Inserted, absent-Comes, holder_Comes}
use cu_collections.OpenAddressing.Insertion.{
  scan-Comes, compare_insert, compare_insert-available, compare_insert-HoldsAt, Comes,
}
use cu_collections.OpenAddressing.Loop.{return, next, Outcome}
use cu_collections.OpenAddressing.Path.{path, scan, result, for_slots_snapshot, probe_loop-scan}
use cu_collections.OpenAddressing.Reach.{IsRef}
use cu_collections.OpenAddressing.Steps.{write-write}
use cu_collections.OpenAddressing.Table.{IsKeyEqual, IsValidKey, is_available, IsTable, Present}
use cu_collections.StaticMap.Assign.{
  attempt_insert_or_assign, assign_slot, assign_window, insert_or_assign,
}

abbrev assign_visit : Ref → Slot → ℕ → Memory → Outcome (Unit {0}) Memory
assign_visit r val a m = assign_slot r val (m a) a m

-- the slot with its payload replaced
abbrev pub with_payload : Slot → ℕ → Slot
with_payload s v = record { first = s.first; second = v }

module _ (r : Ref) (val : Slot) where
  attempt_keeps :
      (a : ℕ) (m m' : Memory) → attempt_insert_or_assign r m a val ≡ (false, m') → m' ≡ m
  unfolding attempt_insert_or_assign cas_key
  attempt_keeps a m m' h = ground arith

  visit-Keeps : (a : ℕ) (m m' : Memory) → assign_visit r val a m ≡ some (next, m') → m' ≡ m
  unfolding assign_slot attempt_insert_or_assign cas_key
  visit-Keeps a m m' h = ground arith

  assign-scan :
      (fuel : ℕ) (m : Memory)
      → insert_or_assign fuel r val m ≡ result (scan (assign_visit r val) (path fuel r val.first) m)
  unfolding insert_or_assign path
  assign-scan fuel m =
      probe_loop-scan (assign_visit r val) r (assign_window r val)
        (λ window s.
          unfold assign_window in
          for_slots_snapshot (λ a s m. assign_slot r val (s a) a m) r visit-Keeps window
            r.window_size 0 s)
        fuel (probe r val.first) m

  module _ (m : Memory) (a : ℕ) where
    visit_unequal :
        compare_insert r val.first m a ≡ unequal → assign_visit r val a m ≡ some (next, m)
    unfolding assign_slot
    visit_unequal e = rw (e, assign_slot)

    visit_equal :
        compare_insert r val.first m a ≡ equal
        → assign_visit r val a m ≡ some (return tt, write m a (with_payload (m a) val.second))
    unfolding assign_slot store_payload
    visit_equal e = rw (e, assign_slot)

    attempt_empty :
        (m a).first ≡ r.empty_slot_sentinel.first
        → attempt_insert_or_assign r m a val ≡ (true, write m a val)
    unfolding attempt_insert_or_assign cas_key store_payload
    attempt_empty e =
        let test : ((m a).first == r.empty_slot_sentinel.first) ≡ true =
          ap (λ k. k == r.empty_slot_sentinel.first) e ∙ ==_self r.empty_slot_sentinel.first in
        simp (test, ==_self, write-write)

    visit_available :
        compare_insert r val.first m a ≡ available
        → (m a).first ≡ r.empty_slot_sentinel.first
        → assign_visit r val a m ≡ some (return tt, write m a val)
    unfolding assign_slot
    visit_available e h = rw (e, assign_slot) (rw (attempt_empty h))

module _ {r : Ref} {m : Memory} (ref : IsRef r) (ok : IsKeyEqual r) (t : IsTable r m)
    (nodup : r.allows_duplicates ≡ false) (fuel : ℕ) (enough : r.num_windows ≤ fuel) (val : Slot)
    (v : IsValidKey r val.first) (same : r.empty_slot_sentinel.first ≡ r.predicate.empty_sentinel)
    (clean : NoneErased r m) where
  assign-Comes :
      (a : ℕ) (m' : Memory)
      → Comes r val.first m a
      → assign_visit r val a m ≡ some (return tt, m')
      → insert_or_assign fuel r val m ≡ some (tt, m')
  assign-Comes a m' w e =
      assign-scan r val fuel m
      ∙ scan-Comes fuel enough val (assign_visit r val) (visit_unequal r val m) a tt m' w e

  holds_empty :
      (a : ℕ)
      → a < capacity r
      → is_available r (m a) ≡ true
      → (m a).first ≡ r.empty_slot_sentinel.first
  holds_empty a lt h = ground (arith, clean a lt, same)

  -- In a well-formed table without duplicates and without erased slots, with fuel for all windows:
  -- if no slot holds the valid key and its probe has a free slot, `insert_or_assign` ends, and
  -- writes the element to one slot that was free; the memory is a table again.
  pub insert_or_assign-absent :
      (free : ℕ)
      → Split (path r.num_windows r val.first) free
      → is_available r (m free) ≡ true
      → ¬ Present r m val.first
      → (m' : Memory) × (insert_or_assign fuel r val m ≡ some (tt, m')) × Inserted r m val m'
  insert_or_assign-absent free s h absent =
      let (a, w, lt, e, inserted) = absent-Comes ref ok t nodup fuel enough val v free s h absent in
      (
        write m a val,
        assign-Comes a (write m a val) w (
            visit_available r val m a (compare_insert-available r val.first m a e)
              (holds_empty a lt e)),
        inserted,
      )

  -- In a well-formed table without duplicates and without erased slots, with fuel for all windows:
  -- if a slot holds the valid key, `insert_or_assign` ends, and replaces the payload of this slot
  -- and nothing else.
  pub insert_or_assign-Present :
      (p : Present r m val.first)
      → insert_or_assign fuel r val m ≡ some (tt, write m p.0 (with_payload (m p.0) val.second))
  insert_or_assign-Present (a, h) =
      assign-Comes a (write m a (with_payload (m a) val.second))
        (holder_Comes ref ok t nodup fuel enough val v clean a h)
        (visit_equal r val m a (compare_insert-HoldsAt r val.first m a h))
