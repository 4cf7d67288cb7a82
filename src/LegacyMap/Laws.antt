-- ===== src/LegacyMap/Laws.antt =====
-- What `insert` and `contains` of the older map do on a well-formed table, from the laws of the ref.
use cu_collections.Common.{
  ℕ, ◌<◌, ◌≤◌, ◌≡◌, ◌≢◌, ◌∙◌, ap, refl, ◌⊎◌, inl, inr, true, false, some, In-split, arith, sym,
  subst,
}
use cu_collections.OpenAddressing.Cover.{IsCyclic, path_covers}
use cu_collections.OpenAddressing.Defs.{Slot, Memory, write, erased_slot_sentinel, capacity}
use cu_collections.OpenAddressing.EraseLaws.{erase-Present, erase-absent}
use cu_collections.OpenAddressing.InsertLaws.{Inserted, NoneErased, insert-absent, insert-Present}
use cu_collections.OpenAddressing.Queries.{contains-decides, find-decides}
use cu_collections.OpenAddressing.Reach.{IsRef}
use cu_collections.OpenAddressing.RoundTrip
use cu_collections.OpenAddressing.Table.{IsKeyEqual, IsValidKey, IsTable, HoldsAt, Present}
use cu_collections.LegacyMap.Defs.{View, Keys}
use cu_collections.LegacyMap.Erase.{erase}
use cu_collections.LegacyMap.Insert.{slot_is_available, insert}
use cu_collections.LegacyMap.Lookup.{find, contains}
use cu_collections.LegacyMap.Refines.{find-find, contains-contains, capacity-view_ref, end-view_ref}
use cu_collections.LegacyMap.Updates.{Idle, insert-insert, erase-erase}
use cu_collections.LegacyMap.Walk.{view_ref, Fits}

module _ {w : ℕ} {v : View} {keys : Keys} (fits : Fits w v keys) where
  pub view_ref-IsRef : IsRef (view_ref w v keys)
  view_ref-IsRef = record { some_window = fits.some_slot; some_slot = omega arith }

  pub view_ref-IsCyclic : IsCyclic (view_ref w v keys)
  view_ref-IsCyclic = fits.capacity_fits

  pub IsTable-Idle : (m : Memory) → IsTable (view_ref w v keys) m → Idle v m
  unfolding slot_is_available
  IsTable-Idle m t a lt free =
      t.idle a (subst (λ n. a < n) (sym (capacity-view_ref w v keys)) lt) free

module _ {w : ℕ} {v : View} {keys : Keys} {m : Memory} (fits : Fits w v keys)
    (ok : IsKeyEqual (view_ref w v keys)) (t : IsTable (view_ref w v keys) m) (fuel : ℕ)
    (enough : v.capacity ≤ fuel) where
  -- For a well-formed table of the older map, whose capacity and hash values the size type has, and
  -- fuel for all slots: if no slot holds the valid key of a pair and some slot is free, `insert`
  -- returns true, and then `find` for the key returns a slot that holds the pair.
  pub legacy_find-insert :
      (pair : Slot)
      → IsValidKey (view_ref w v keys) pair.first
      → (free : ℕ) → free < v.capacity
      → slot_is_available v (m free).first ≡ true
      → ¬ Present (view_ref w v keys) m pair.first
      → (m' : Memory) × (a : ℕ) × (insert fuel v keys pair m ≡ some (true, m'))
        × (find fuel v keys pair.first m' ≡ some a)
        × (m' a ≡ pair)
  unfolding slot_is_available
  legacy_find-insert pair valid free inside h absent =
      let (m', a, done, found, here) =
        RoundTrip.find-insert (view_ref-IsRef fits) (view_ref-IsCyclic fits) ok t refl fuel enough
          pair valid free (subst (λ n. free < n) (sym (capacity-view_ref w v keys)) inside) h
          absent in
      (
        m',
        a,
        insert-insert fits fuel pair m (IsTable-Idle fits m t) ∙ done,
        find-find fits fuel pair.first m' ∙ found,
        here,
      )

  inside_ref : (a : ℕ) → a < v.capacity → a < capacity (view_ref w v keys)
  inside_ref a lt = subst (λ n. a < n) (sym (capacity-view_ref w v keys)) lt

  pub contains_cases :
      (key : ℕ)
      → IsValidKey (view_ref w v keys) key
      → (e : ℕ) → e < v.capacity
      → (m e).first ≡ v.empty_key_sentinel
      → ((contains fuel v keys key m ≡ some true) × Present (view_ref w v keys) m key)
        ⊎ ((contains fuel v keys key m ≡ some false) × (¬ Present (view_ref w v keys) m key))
  contains_cases key valid e inside h =
      let covered =
        path_covers _ (view_ref-IsRef fits) (view_ref-IsCyclic fits) key e (inside_ref e inside) in
      let same = contains-contains fits fuel key m in
      elim (contains-decides (view_ref-IsRef fits) ok t refl fuel enough key valid e
        (In-split e _ covered) h) [
          | inl (there, p) ↦ inl (same ∙ there, p)
          | inr (missing, p) ↦ inr (same ∙ missing, p)
        ]

  pub insert_new :
      (pair : Slot)
      → IsValidKey (view_ref w v keys) pair.first
      → (e : ℕ) → e < v.capacity
      → (m e).first ≡ v.empty_key_sentinel
      → ¬ Present (view_ref w v keys) m pair.first
      → (m' : Memory) × (insert fuel v keys pair m ≡ some (true, m'))
        × Inserted (view_ref w v keys) m pair m'
  insert_new pair valid e inside h absent =
      let covered =
        path_covers _ (view_ref-IsRef fits) (view_ref-IsCyclic fits) pair.first e
          (inside_ref e inside) in
      let (m', done, i) =
        insert-absent (view_ref-IsRef fits) ok t refl fuel enough pair valid e
          (In-split e _ covered) (ground arith) absent in
      (m', insert-insert fits fuel pair m (IsTable-Idle fits m t) ∙ done, i)

  pub insert_again :
      (pair : Slot)
      → IsValidKey (view_ref w v keys) pair.first
      → NoneErased (view_ref w v keys) m
      → Present (view_ref w v keys) m pair.first
      → insert fuel v keys pair m ≡ some (false, m)
  insert_again pair valid clean p =
      insert-insert fits fuel pair m (IsTable-Idle fits m t)
      ∙ insert-Present (view_ref-IsRef fits) ok t refl fuel enough pair valid clean p

  pub erase_held :
      (key : ℕ)
      → v.erased_key_sentinel ≢ v.empty_key_sentinel
      → (p : Present (view_ref w v keys) m key)
      → erase fuel v keys key m
        ≡ some (true, write m p.0 (erased_slot_sentinel (view_ref w v keys)))
  erase_held key apart p =
      erase-erase fits fuel key m
      ∙ (erase-Present (view_ref-IsRef fits) ok t refl fuel enough key apart p).0

  pub erase_missing :
      (key : ℕ)
      → IsValidKey (view_ref w v keys) key
      → (e : ℕ) → e < v.capacity
      → (m e).first ≡ v.empty_key_sentinel
      → ¬ Present (view_ref w v keys) m key
      → erase fuel v keys key m ≡ some (false, m)
  erase_missing key valid e inside h absent =
      let covered =
        path_covers _ (view_ref-IsRef fits) (view_ref-IsCyclic fits) key e (inside_ref e inside) in
      erase-erase fits fuel key m
      ∙ erase-absent (view_ref-IsRef fits) ok t refl fuel enough key valid absent e
          (In-split e _ covered) h

  pub find_cases :
      (key : ℕ)
      → IsValidKey (view_ref w v keys) key
      → (e : ℕ) → e < v.capacity
      → (m e).first ≡ v.empty_key_sentinel
      → ((a : ℕ) × (find fuel v keys key m ≡ some a) × HoldsAt (view_ref w v keys) m key a)
        ⊎ ((find fuel v keys key m ≡ some v.capacity) × (¬ Present (view_ref w v keys) m key))
  find_cases key valid e inside h =
      let covered =
        path_covers _ (view_ref-IsRef fits) (view_ref-IsCyclic fits) key e (inside_ref e inside) in
      let same = find-find fits fuel key m in
      elim (find-decides (view_ref-IsRef fits) ok t refl fuel enough key valid e
        (In-split e _ covered) h) [
          | inl (a, there, held, _) ↦ inl (a, same ∙ there, held)
          | inr (missing, p) ↦ inr (same ∙ missing ∙ ap some (end-view_ref w v keys), p)
        ]
