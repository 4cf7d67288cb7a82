-- ===== src/OpenAddressing/EraseLaws.antt =====
-- What `erase` does to a table, and to the map that the table stands for.
use cu_collections.Common.{
  ℕ, ◌≤◌, ◌≡◌, ◌≢◌, ap, sym, ◌∙◌, subst, Bool, true, false, inl, inr, ◌↔◌, arith, Split, some,
  eq-or-ne, Bool-cases,
}
use cu_collections.Equality.{unequal, equal, empty}
use cu_collections.OpenAddressing.Defs.{Slot, Memory, write, Ref, erased_slot_sentinel, probe}
use cu_collections.OpenAddressing.Erase.{erase_switch, erase_slot, erase_window, erase}
use cu_collections.OpenAddressing.InsertLaws.{Maps}
use cu_collections.OpenAddressing.Lookup.{compare_slot}
use cu_collections.OpenAddressing.Loop.{return, next, Outcome}
use cu_collections.OpenAddressing.Path.{path, scan, result, for_slots_snapshot, probe_loop-scan}
use cu_collections.OpenAddressing.Arrival.{Arrives, scan-Arrives}
use cu_collections.OpenAddressing.Queries.{Arrives-holder, Arrives-total, Arrives-HoldsAt}
use cu_collections.OpenAddressing.Reach.{IsRef}
use cu_collections.OpenAddressing.Steps.{write_here, write_other, attempt_insert_stable_lem}
use cu_collections.OpenAddressing.Table.{
  IsKeyEqual, IsValidKey, is_available, IsTable, HoldsAt, Present, holder_unique, equal_congr,
}
use cu_collections.OpenAddressing.Writes.{erase-IsTable}

abbrev pub erase_visit : Ref → ℕ → ℕ → Memory → Outcome Bool Memory
erase_visit r key a m = erase_slot r key (m a) a m

module _ (r : Ref) (key : ℕ) where
  visit_equal :
      (m : Memory) (a : ℕ)
      → compare_slot r key m a ≡ equal
      → erase_visit r key a m ≡ some (return true, write m a (erased_slot_sentinel r))
  unfolding erase_slot erase_switch
  visit_equal m a e =
      rw (e, erase_slot) (rw (attempt_insert_stable_lem r m a (erased_slot_sentinel r)))

  visit_empty :
      (m : Memory) (a : ℕ)
      → compare_slot r key m a ≡ empty
      → erase_visit r key a m ≡ some (return false, m)
  unfolding erase_slot
  visit_empty m a e = rw (e, erase_slot)

  visit_unequal :
      (m : Memory) (a : ℕ)
      → compare_slot r key m a ≡ unequal
      → erase_visit r key a m ≡ some (next, m)
  unfolding erase_slot
  visit_unequal m a e = rw (e, erase_slot)

  erase_visit_keeps :
      (a : ℕ) (m m' : Memory) → erase_slot r key (m a) a m ≡ some (next, m') → m' ≡ m
  unfolding erase_slot erase_switch
  erase_visit_keeps a m m' h =
      ground (arith, attempt_insert_stable_lem r m a (erased_slot_sentinel r))

  erase-scan :
      (fuel : ℕ) (m : Memory)
      → erase fuel r key m ≡ result (scan (erase_visit r key) (path fuel r key) m)
  unfolding erase path
  erase-scan fuel m =
      probe_loop-scan (erase_visit r key) r (erase_window r key)
        (λ window s.
          unfold erase_window in
          for_slots_snapshot (λ a s m. erase_slot r key (s a) a m) r erase_visit_keeps window
            r.window_size 0 s)
        fuel (probe r key) m

  erase_equal :
      (fuel : ℕ) (m : Memory) (w : Arrives fuel r key m equal)
      → erase fuel r key m ≡ some (true, write m w.slot (erased_slot_sentinel r))
  erase_equal fuel m w =
      erase-scan fuel m
      ∙ ap result (
          scan-Arrives w (erase_visit r key) m (write m w.slot (erased_slot_sentinel r)) true
            (visit_unequal m) (visit_equal m w.slot w.sees))

  erase_empty :
      (fuel : ℕ) (m : Memory) → Arrives fuel r key m empty → erase fuel r key m ≡ some (false, m)
  erase_empty fuel m w =
      erase-scan fuel m
      ∙ ap result (
          scan-Arrives w (erase_visit r key) m m false (visit_unequal m)
            (visit_empty m w.slot w.sees))

erased-available : (r : Ref) → is_available r (erased_slot_sentinel r) ≡ true
unfolding erased_slot_sentinel
erased-available r = ground arith

module _ {r : Ref} {m : Memory} (ref : IsRef r) (ok : IsKeyEqual r) (t : IsTable r m)
    (nodup : r.allows_duplicates ≡ false) (fuel : ℕ) (enough : r.num_windows ≤ fuel) (key : ℕ) where
  -- In a well-formed table without duplicates, with fuel for all windows and two different
  -- sentinels: if a slot holds the key, `erase` returns true and writes the erased sentinel to this
  -- slot alone, and the memory is a table again.
  pub erase-Present :
      r.predicate.erased_sentinel ≢ r.predicate.empty_sentinel
      → (p : Present r m key)
      → (erase fuel r key m ≡ some (true, write m p.0 (erased_slot_sentinel r)))
        × IsTable r (write m p.0 (erased_slot_sentinel r))
  erase-Present apart (a, h) =
      let (w, e) = Arrives-holder ref ok t nodup fuel enough key a h in
      (
        subst (λ b. erase fuel r key m ≡ some (true, write m b (erased_slot_sentinel r))) e
            (erase_equal r key fuel m w),
        erase-IsTable ok t a apart,
      )

  -- What the memory maps once the slot that holds the key has the erased sentinel.
  pub write-Maps :
      IsValidKey r key
      → (p : Present r m key) (k x : ℕ)
      → Maps r (write m p.0 (erased_slot_sentinel r)) k x
        ↔ ((r.predicate.equal_fn k key ≡ false) × Maps r m k x)
  write-Maps v (a, h) k x = (to, from)
    where
      gone : Slot
      gone = erased_slot_sentinel r

      no_key : (b : ℕ) → HoldsAt r m k b → b ≢ a → r.predicate.equal_fn k key ≡ false
      no_key b (lt, filled, same) ne = elim (Bool-cases (r.predicate.equal_fn k key)) [
        | inl e ↦ absurd (
            ne (
              holder_unique ok nodup t b a
                (lt, filled, sym (equal_congr ok k key (m b).first e) ∙ same) h))
        | inr e ↦ e
      ]

      to : Maps r (write m a gone) k x → (r.predicate.equal_fn k key ≡ false) × Maps r m k x
      to (b, (lt, filled, same), e) = elim (eq-or-ne b a) [
        | inl here ↦
            let f =
              subst (λ (s : Slot). is_available r s ≡ false) (write_here m a b gone here) filled in
            cc (f, erased-available r)
        | inr ne ↦
            let w = write_other m a b gone ne in
            let held : HoldsAt r m k b = (
              lt,
              subst (λ (s : Slot). is_available r s ≡ false) w filled,
              subst (λ (s : Slot). r.predicate.equal_fn k s.first ≡ true) w same,
            ) in
            (no_key b held ne, (b, held, subst (λ (s : Slot). s.second ≡ x) w e))
      ]

      from : (r.predicate.equal_fn k key ≡ false) × Maps r m k x → Maps r (write m a gone) k x
      from (other, (b, (lt, filled, same), e)) =
          let w = write_other m a b gone (λ here.
            let same_a = subst (λ b. r.predicate.equal_fn k (m b).first ≡ true) here same in
            cc (
              other,
              ok.transitive k (m a).first key same_a (ok.symmetric (m a).first key ∙ h.2),
            )) in
          (b, (lt, rw w filled, rw w same), rw w e)

  -- In a well-formed table without duplicates, with fuel for all windows, sentinels that differ and
  -- a valid key that a slot holds, `erase` ends and returns true, the memory is a well-formed table
  -- again, and it maps exactly what the table mapped before, less the keys that are equal to this
  -- one.
  pub erase-Maps :
      IsValidKey r key
      → r.predicate.erased_sentinel ≢ r.predicate.empty_sentinel
      → Present r m key
      → (m' : Memory) × (erase fuel r key m ≡ some (true, m'))
        × IsTable r m'
        × ((k x : ℕ) → Maps r m' k x ↔ ((r.predicate.equal_fn k key ≡ false) × Maps r m k x))
  erase-Maps v apart p =
      let (done, table) = erase-Present apart p in
      (write m p.0 (erased_slot_sentinel r), done, table, write-Maps v p)

  -- In a well-formed table without duplicates, with fuel for all windows and an empty slot on the
  -- path: if no slot holds the valid key, `erase` ends, returns false, and leaves the memory as it
  -- is.
  pub erase-absent :
      IsValidKey r key
      → ¬ Present r m key
      → (e : ℕ) → Split (path r.num_windows r key) e
      → (m e).first ≡ r.predicate.empty_sentinel
      → erase fuel r key m ≡ some (false, m)
  erase-absent v absent e s h = elim (Arrives-total ref ok t nodup fuel enough key e s h) [
    | inl w ↦ erase_empty r key fuel m w
    | inr w ↦ absurd (absent (w.slot, Arrives-HoldsAt ref ok t nodup fuel enough key v w))
  ]
