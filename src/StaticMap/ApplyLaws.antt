-- ===== src/StaticMap/ApplyLaws.antt =====
-- What `insert_or_apply` of one thread does to a table.
use cu_collections.Common.{
  ℕ, zero, suc, ◌<◌, ◌≤◌, ◌≡◌, ◌≢◌, refl, ◌∙◌, arith, Bool, true, false, not, ◌&&◌, none, some,
  if◌then◌else◌, ==_self, ==_of_ne, Split,
}
use cu_collections.Equality.{unequal, equal, available}
use cu_collections.OpenAddressing.Cas.{
  success, cas_key, packed_cas, store_payload, after_failure, wait_for_payload,
}
use cu_collections.OpenAddressing.Defs.{Slot, Memory, write, Ref, empty_value_sentinel, probe}
use cu_collections.OpenAddressing.InsertLaws.{NoneErased, Inserted, absent-Comes, holder_Comes}
use cu_collections.OpenAddressing.Insertion.{
  scan-Comes, compare_insert, compare_insert-available, compare_insert-HoldsAt, Comes,
}
use cu_collections.OpenAddressing.Loop.{return, next, Outcome}
use cu_collections.OpenAddressing.Path.{path, scan, result, for_slots_snapshot, probe_loop-scan}
use cu_collections.OpenAddressing.Reach.{IsRef}
use cu_collections.OpenAddressing.Steps.{write-write, packed_cas_lem}
use cu_collections.OpenAddressing.Table.{IsKeyEqual, IsValidKey, is_available, IsTable, Present}
use cu_collections.StaticMap.Apply.{
  apply_op, attempt_insert_or_apply, wait_and_apply, applied, apply_switch, apply_slot,
  apply_window, insert_or_apply_impl, insert_or_apply,
}
use cu_collections.StaticMap.AssignLaws.{with_payload}

-- A payload that is there is not waited for.
wait_for_payload_ready :
    (fuel : ℕ) (m : Memory) (a sentinel : ℕ)
    → 0 < fuel
    → (m a).second ≢ sentinel
    → wait_for_payload fuel m a sentinel ≡ some tt
unfolding wait_for_payload
wait_for_payload_ready zero m a sentinel some_fuel ready = absurd (omega arith)
wait_for_payload_ready (suc fuel) m a sentinel some_fuel ready =
    rw (==_of_ne (m a).second sentinel ready)

module _ (op : ℕ → ℕ → ℕ) (fuel : ℕ) (r : Ref) (val : Slot) where
  abbrev apply_visit : ℕ → Memory → Outcome Bool Memory
  apply_visit a m = apply_slot false op fuel r val (m a) a m

  attempt_expected :
      (m : Memory) (a : ℕ)
      → attempt_insert_or_apply false op r m a (m a) val ≡ (success, write m a val)
  unfolding attempt_insert_or_apply
  attempt_expected m a = by_size r.small_slot
    where
      by_size :
          (small : Bool)
          → (if small
              then packed_cas r m a (m a) val
              else let (swapped, found, m') = cas_key m a (m a).first val.first in
                if swapped
                then (success, store_payload m' a val.second)
                else (after_failure r val.first found, m'))
            ≡ (success, write m a val)
      by_size true = packed_cas_lem r m a val
      by_size false = unfold cas_key in unfold store_payload in simp (==_self, write-write)

  module _ (m : Memory) (a : ℕ) where
    visit_unequal : compare_insert r val.first m a ≡ unequal → apply_visit a m ≡ some (next, m)
    unfolding apply_slot
    visit_unequal e = rw (e, apply_slot)

    visit_available :
        compare_insert r val.first m a ≡ available
        → apply_visit a m ≡ some (return true, write m a val)
    unfolding apply_slot apply_switch
    visit_available e = rw (e, apply_slot) (rw (attempt_expected m a))

    waits :
        0 < fuel
        → (m a).second ≢ empty_value_sentinel r
        → wait_and_apply false op fuel r a val.second m
          ≡ some (write m a (with_payload (m a) (op (m a).second val.second)))
    unfolding wait_and_apply wait_for_payload apply_op store_payload
    waits some_fuel ready = by_size r.small_slot
      where
        after : Memory
        after = write m a (with_payload (m a) (op (m a).second val.second))

        by_size :
            (small : Bool)
            → (if not false && not small
                then elim (wait_for_payload fuel m a (empty_value_sentinel r)) [
                  | none ↦ none
                  | some _ ↦ some (apply_op op m a val.second)
                ]
                else some (apply_op op m a val.second))
              ≡ some after
        by_size true = refl
        by_size false =
            rw (wait_for_payload_ready fuel m a (empty_value_sentinel r) some_fuel ready) refl

    visit_equal :
        0 < fuel
        → (m a).second ≢ empty_value_sentinel r
        → compare_insert r val.first m a ≡ equal
        → apply_visit a m
          ≡ some (return false, write m a (with_payload (m a) (op (m a).second val.second)))
    unfolding apply_slot applied
    visit_equal some_fuel ready e = rw (e, apply_slot) (rw (waits some_fuel ready))

  visit-Keeps : (a : ℕ) (m m' : Memory) → apply_visit a m ≡ some (next, m') → m' ≡ m
  unfolding apply_slot apply_switch applied
  visit-Keeps a m m' h = ground (arith, attempt_expected m a)

  apply-scan :
      (m : Memory)
      → insert_or_apply op fuel r val m ≡ result (scan apply_visit (path fuel r val.first) m)
  unfolding insert_or_apply insert_or_apply_impl path
  apply-scan m =
      probe_loop-scan apply_visit r (apply_window false op fuel r val)
        (λ window s.
          unfold apply_window in
          for_slots_snapshot (λ a s m. apply_slot false op fuel r val (s a) a m) r visit-Keeps
            window r.window_size 0 s)
        fuel (probe r val.first) m

module _ {r : Ref} {m : Memory} (ref : IsRef r) (ok : IsKeyEqual r) (t : IsTable r m)
    (nodup : r.allows_duplicates ≡ false) (op : ℕ → ℕ → ℕ) (fuel : ℕ)
    (enough : r.num_windows ≤ fuel) (val : Slot) (v : IsValidKey r val.first) where
  apply-Comes :
      (a : ℕ) (answer : Bool) (m' : Memory)
      → Comes r val.first m a
      → apply_visit op fuel r val a m ≡ some (return answer, m')
      → insert_or_apply op fuel r val m ≡ some (answer, m')
  apply-Comes a answer m' w e =
      apply-scan op fuel r val m
      ∙ scan-Comes fuel enough val (apply_visit op fuel r val) (visit_unequal op fuel r val m) a
          answer m' w e

  -- In a well-formed table without duplicates, with fuel for all windows: if no slot holds the
  -- valid key and its probe has a free slot, `insert_or_apply` without an initial value ends,
  -- returns true, and writes the element to one slot that was free; the memory is a table again.
  pub insert_or_apply-absent :
      (free : ℕ)
      → Split (path r.num_windows r val.first) free
      → is_available r (m free) ≡ true
      → ¬ Present r m val.first
      → (m' : Memory) × (insert_or_apply op fuel r val m ≡ some (true, m')) × Inserted r m val m'
  insert_or_apply-absent free s h absent =
      let (a, w, lt, e, inserted) = absent-Comes ref ok t nodup fuel enough val v free s h absent in
      (
        write m a val,
        apply-Comes a true (write m a val) w
            (visit_available op fuel r val m a (compare_insert-available r val.first m a e)),
        inserted,
      )

  -- In a well-formed table without duplicates and without erased slots, with fuel for all windows:
  -- if a slot holds the valid key and its payload is not the empty one, `insert_or_apply` without
  -- an initial value ends, returns false, and replaces the payload of this slot by the result of
  -- the operation, and nothing else.
  pub insert_or_apply-Present :
      NoneErased r m
      → (p : Present r m val.first) → (m p.0).second ≢ empty_value_sentinel r
      → insert_or_apply op fuel r val m
        ≡ some (false, write m p.0 (with_payload (m p.0) (op (m p.0).second val.second)))
  insert_or_apply-Present clean (a, h) ready =
      apply-Comes a false (write m a (with_payload (m a) (op (m a).second val.second)))
        (holder_Comes ref ok t nodup fuel enough val v clean a h)
        (visit_equal op fuel r val m a (omega (arith, enough, ref.some_window)) ready
          (compare_insert-HoldsAt r val.first m a h))
