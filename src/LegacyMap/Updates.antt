-- ===== src/LegacyMap/Updates.antt =====
-- `erase` and `insert` of the older map are those of the ref on windows of one slot.
use cu_collections.Common.{
  ℕ, ◌<◌, ◌≡◌, refl, ap, sym, ◌∙◌, Bool, true, false, ◌==◌, some, if◌then◌else◌,
}
use cu_collections.Equality.{compare_key, equal_to}
use cu_collections.OpenAddressing.Cas.{attempt_insert, attempt_insert_stable}
use cu_collections.OpenAddressing.Defs.{Slot, Memory, write, erased_slot_sentinel}
use cu_collections.OpenAddressing.Erase
use cu_collections.OpenAddressing.Insert
use cu_collections.OpenAddressing.Loop.{return, next, Outcome}
use cu_collections.OpenAddressing.Steps.{attempt_insert_lem, attempt_insert_stable_lem}
use cu_collections.LegacyMap.Defs.{View, Keys}
use cu_collections.LegacyMap.Erase.{erase_exchange, erase_at, erase}
use cu_collections.LegacyMap.Insert.{
  write_pair, slot_is_available, insert_status, insert_at, insert,
}
use cu_collections.LegacyMap.Refines.{one_slot, address_lem, query_split}
use cu_collections.LegacyMap.Walk.{view_ref, Fits, walk-probe_loop}
use cu_collections.LegacyMap.Exchanges.{
  erase_exchange_lem, erase_returns-erase_switch, erase_still, write_pair_lem, insert_split,
  insert_still,
}

-- Where a slot may be taken, it has the empty value.
abbrev pub Idle : View → Memory → Type 0
Idle v m =
    (a : ℕ)
    → a < v.capacity
    → slot_is_available v (m a).first ≡ true
    → (m a).second ≡ v.empty_value_sentinel

module _ {w : ℕ} {v : View} {keys : Keys} (fits : Fits w v keys) where
  erase_at-erase_slot :
      (k : ℕ) (m : Memory) (a : ℕ)
      → erase_at v keys k a m ≡ Erase.erase_slot (view_ref w v keys) k (m a) a m
  unfolding erase_at Erase.erase_slot compare_key equal_to
  erase_at-erase_slot k m a =
      let gone = erased_slot_sentinel (view_ref w v keys) in
      ap
        (λ (o : Outcome Bool Memory).
          if (m a).first == v.empty_key_sentinel
          then some (return false, m)
          else if keys.key_equal (m a).first k
          then o
          else some (next, m))
        (erase_returns-erase_switch (erase_exchange v m a (m a))
          (attempt_insert_stable (view_ref w v keys) m a (m a) gone) (write m a gone)
          (erase_exchange_lem w v keys m a)
          (attempt_insert_stable_lem (view_ref w v keys) m a gone))
      ∙ query_split ((m a).first == v.empty_key_sentinel) (keys.key_equal (m a).first k) _ _ _

  erase_at-still :
      (k : ℕ) (m : Memory) (a : ℕ) (t : Memory) → erase_at v keys k a m ≡ some (next, t) → t ≡ m
  unfolding erase_at
  erase_at-still k m a t e =
      erase_still ((m a).first == v.empty_key_sentinel) (keys.key_equal (m a).first k)
        (erase_exchange v m a (m a)) m t e

  -- Where the size type has the capacity and the hash values, `erase` of the older map is, for any
  -- fuel, `erase` of the ref with linear probing over windows of one slot: it returns the same and
  -- leaves the same memory.
  pub erase-erase :
      (fuel k : ℕ) (m : Memory) → erase fuel v keys k m ≡ Erase.erase fuel (view_ref w v keys) k m
  unfolding erase Erase.erase Erase.erase_window
  erase-erase fuel k m =
      walk-probe_loop fits fuel k (erase_at v keys k) _ m
        (λ a lt.
          erase_at-erase_slot k m a
          ∙ ap (λ b. Erase.erase_slot (view_ref w v keys) k (m b) b m) (address_lem a)
          ∙ sym (one_slot _ m))
        (λ a t lt e. erase_at-still k m a t e)

  insert_status_lem :
      (fuel : ℕ) (pair : Slot) (m : Memory) (a : ℕ)
      → Idle v m
      → a < v.capacity
      → slot_is_available v (m a).first ≡ true
      → insert_status (write_pair fuel v keys m a pair (m a).first)
        ≡ some (return true, write m a pair)
  unfolding insert_status
  insert_status_lem fuel pair m a idle lt free =
      rw (write_pair_lem fuel v keys m a pair (idle a lt free)) refl

  insert_switch_lem :
      (fuel : ℕ) (pair : Slot) (m : Memory) (a : ℕ)
      → Idle v m
      → a < v.capacity
      → slot_is_available v (m a).first ≡ true
      → Insert.insert_switch
          (view_ref w v keys)
          (attempt_insert fuel (view_ref w v keys) m a (m a) pair)
        ≡ some (return true, write m a pair)
  unfolding Insert.insert_switch
  insert_switch_lem fuel pair m a idle lt free =
      rw (attempt_insert_lem fuel (view_ref w v keys) m a pair (idle a lt free)) refl

  insert_at-insert_slot :
      (fuel : ℕ) (pair : Slot) (m : Memory) (a : ℕ)
      → Idle v m
      → a < v.capacity
      → insert_at fuel v keys pair a m ≡ Insert.insert_slot fuel (view_ref w v keys) pair (m a) a m
  unfolding insert_at Insert.insert_slot compare_key equal_to slot_is_available
  insert_at-insert_slot fuel pair m a idle lt =
      insert_split (slot_is_available v (m a).first) (keys.key_equal (m a).first pair.first) _ _ _ _
        (λ free.
          insert_status_lem fuel pair m a idle lt free
          ∙ sym (insert_switch_lem fuel pair m a idle lt free))

  insert_at-still :
      (fuel : ℕ) (pair : Slot) (m : Memory) (a : ℕ) (t : Memory)
      → Idle v m
      → a < v.capacity
      → insert_at fuel v keys pair a m ≡ some (next, t)
      → t ≡ m
  unfolding insert_at
  insert_at-still fuel pair m a t idle lt e =
      insert_still (slot_is_available v (m a).first) (keys.key_equal (m a).first pair.first) _ _ m t
        (λ f. absurd (cc f))
        (λ free f. absurd (cc (insert_status_lem fuel pair m a idle lt free, f))) e

  -- Where the size type has the capacity and the hash values, and every slot that may be taken has
  -- the empty value, `insert` of the older map is, for any fuel, `insert` of the ref with linear
  -- probing over windows of one slot: it returns the same and leaves the same memory.
  pub insert-insert :
      (fuel : ℕ) (pair : Slot) (m : Memory)
      → Idle v m
      → insert fuel v keys pair m ≡ Insert.insert fuel (view_ref w v keys) pair m
  unfolding insert Insert.insert Insert.insert_window
  insert-insert fuel pair m idle =
      walk-probe_loop fits fuel pair.first (insert_at fuel v keys pair) _ m
        (λ a lt.
          insert_at-insert_slot fuel pair m a idle lt
          ∙ ap (λ b. Insert.insert_slot fuel (view_ref w v keys) pair (m b) b m) (address_lem a)
          ∙ sym (one_slot _ m))
        (λ a t lt e. insert_at-still fuel pair m a t idle lt e)
