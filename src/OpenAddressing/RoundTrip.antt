-- ===== src/OpenAddressing/RoundTrip.antt =====
-- An operation after another, where a probe visits every window.
use cu_collections.Common.{
  ℕ, ◌<◌, ◌≤◌, ◌≡◌, ◌≢◌, refl, ap, ◌∙◌, subst, arith, true, false, some, In-split, inl, inr,
}
use cu_collections.OpenAddressing.Arrival.{find_equal}
use cu_collections.OpenAddressing.Cover.{IsCyclic, path_covers}
use cu_collections.OpenAddressing.Defs.{Slot, Memory, write, Ref, erased_slot_sentinel, capacity}
use cu_collections.OpenAddressing.Erase.{erase}
use cu_collections.OpenAddressing.EraseLaws.{erase-Present, write-Maps}
use cu_collections.OpenAddressing.Insert.{insert}
use cu_collections.OpenAddressing.InsertLaws.{insert-absent}
use cu_collections.OpenAddressing.Lookup.{contains, find}
use cu_collections.OpenAddressing.Queries.{Arrives-holder, contains-decides}
use cu_collections.OpenAddressing.Reach.{IsRef}
use cu_collections.OpenAddressing.Steps.{write_here, write_other}
use cu_collections.OpenAddressing.Table.{
  IsKeyEqual, IsValidKey, is_available, IsTable, HoldsAt, Present,
}
use cu_collections.OpenAddressing.Writes.{valid-not-available}

module _ {r : Ref} {m : Memory} (ref : IsRef r) (cyclic : IsCyclic r) (ok : IsKeyEqual r)
    (t : IsTable r m) (nodup : r.allows_duplicates ≡ false) (fuel : ℕ)
    (enough : r.num_windows ≤ fuel) where
  -- In a well-formed table without duplicates, with fuel for all windows and a probe that visits
  -- every window: if no slot holds the valid key of an element and some slot is free, wherever it
  -- is, `insert` returns true, and then `find` for the key returns a slot that holds the element.
  pub find-insert :
      (val : Slot)
      → IsValidKey r val.first
      → (free : ℕ) → free < capacity r
      → is_available r (m free) ≡ true
      → ¬ Present r m val.first
      → (m' : Memory) × (a : ℕ) × (insert fuel r val m ≡ some (true, m'))
        × (find fuel r val.first m' ≡ some a)
        × (m' a ≡ val)
  find-insert val v free inside h absent =
      let s = In-split free _ (path_covers r ref cyclic val.first free inside) in
      let (m', done, i) = insert-absent ref ok t nodup fuel enough val v free s h absent in
      let here : m' i.slot ≡ val =
        ap (λ (m : Memory). m i.slot) i.written ∙ write_here m i.slot i.slot val refl in
      let held : HoldsAt r m' val.first i.slot =
        (i.inside, rw here (valid-not-available r val v), rw here (ok.reflexive val.first)) in
      let (w, e) = Arrives-holder ref ok i.table nodup fuel enough val.first i.slot held in
      (m', i.slot, done, find_equal fuel r val.first m' w ∙ ap some e, here)

  -- In a well-formed table without duplicates, with fuel for all windows, two different sentinels
  -- and a probe that visits every window: if some slot holds the valid key and some slot is empty,
  -- `erase` returns true, and then `contains` for the key ends and returns false.
  pub contains-erase :
      (key : ℕ)
      → IsValidKey r key
      → r.predicate.erased_sentinel ≢ r.predicate.empty_sentinel
      → (e : ℕ) → e < capacity r
      → (m e).first ≡ r.predicate.empty_sentinel
      → Present r m key
      → (m' : Memory) × (erase fuel r key m ≡ some (true, m'))
        × (contains fuel r key m' ≡ some false)
  contains-erase key v apart e inside h p =
      let (done, table) = erase-Present ref ok t nodup fuel enough key apart p in
      let m' : Memory = write m p.0 (erased_slot_sentinel r) in
      let other : e ≢ p.0 = λ same. taken same in
      let s = In-split e _ (path_covers r ref cyclic key e inside) in
      (
        m',
        done,
        elim (contains-decides ref ok table nodup fuel enough key v e s
            (ap (λ (s : Slot). s.first) (write_other m p.0 e (erased_slot_sentinel r) other) ∙ h)) [
              | inr (no_more, _) ↦ no_more
              | inl (_, (a, held)) ↦
                  let gone =
                    (write-Maps ref ok t nodup fuel enough key v p key (m' a).second).0
                      (a, held, refl) in
                  absurd (cc (gone.0, ok.reflexive key))
            ],
      )
    where
      taken : e ≡ p.0 → ⊥
      taken same =
          ground (arith, p.1.1, subst (λ a. (m a).first ≡ r.predicate.empty_sentinel) same h)
