-- ===== src/LegacyMap/InsertFind.antt =====
-- `insert_and_find` of the older map is that of the ref on windows of one slot, for a value that is
-- not the empty one.
use cu_collections.Common.{
  ℕ, zero, suc, ◌<◌, ◌≡◌, ◌≢◌, refl, ap, sym, ◌∙◌, Bool, true, false, not, ◌&&◌, ◌==◌, Option, none,
  some, if◌then◌else◌, ==_self, ==_of_ne,
}
use cu_collections.Equality.{compare_key, equal_to}
use cu_collections.OpenAddressing.Cas.{
  InsertResult, success, cas_key, store_payload, attempt_insert_stable, wait_for_payload,
}
use cu_collections.OpenAddressing.Defs.{Slot, Memory, write, same_slot}
use cu_collections.OpenAddressing.Insert
use cu_collections.OpenAddressing.Loop.{return, next, Outcome, probe_loop}
use cu_collections.OpenAddressing.Steps.{write_self, write-write, attempt_insert_stable_lem}
use cu_collections.LegacyMap.Defs.{View, Keys, slot_loop}
use cu_collections.LegacyMap.Exchanges.{insert_split, insert_still}
use cu_collections.LegacyMap.Insert.{
  packed_cas, cas_dependent_write, slot_is_available, present_at, insert_and_find_status,
  write_pair_stable, insert_and_find_at, insert_and_find,
}
use cu_collections.LegacyMap.Refines.{one_slot, address_lem}
use cu_collections.LegacyMap.Updates.{Idle}
use cu_collections.LegacyMap.Walk.{view_ref, Fits, walk-probe_loop}

write_pair_stable_lem :
    (v : View) (keys : Keys) (m : Memory) (a : ℕ) (pair : Slot)
    → (m a).second ≡ v.empty_value_sentinel
    → write_pair_stable v keys m a pair (m a).first ≡ (success, write m a pair)
unfolding write_pair_stable
write_pair_stable_lem v keys m a pair h = by_size v.packable
  where
    by_size :
        (packable : Bool)
        → ◌≡◌ {A = InsertResult × Memory}
            (if packable
              then packed_cas v keys m a pair (m a).first
              else cas_dependent_write v keys m a pair (m a).first)
            (success, write m a pair)
    by_size true = unfold packed_cas same_slot in simp (==_self, h)
    by_size false = unfold cas_dependent_write cas_key store_payload in simp (==_self, write-write)

module _ (w : ℕ) (v : View) (keys : Keys) (n : ℕ) where
  present_at-found_at :
      (m : Memory) (a : ℕ)
      → present_at (suc n) v a m ≡ Insert.found_at (suc n) (view_ref w v keys) a false m
  unfolding present_at Insert.found_at
  present_at-found_at m a = by_size v.packable (wait_for_payload (suc n) m a v.empty_value_sentinel)
    where
      by_size :
          (packable : Bool) (o : Option (Unit {0}))
          → ◌≡◌ {A = Outcome (ℕ × Bool) Memory}
              (if packable
                then some (return (a, false), m)
                else elim o [ none ↦ none | some _ ↦ some (return (a, false), m) ])
              (if not packable
                then elim o [ none ↦ none | some _ ↦ some (return (a, false), m) ]
                else some (return (a, false), m))
      by_size true o = refl
      by_size false o = refl

  -- a value that was just written is not waited for
  found_at-written :
      (m : Memory) (a : ℕ) (pair : Slot)
      → pair.second ≢ v.empty_value_sentinel
      → Insert.found_at (suc n) (view_ref w v keys) a true (write m a pair)
        ≡ some (return (a, true), write m a pair)
  unfolding Insert.found_at wait_for_payload
  found_at-written m a pair ne = by_size v.packable _ (
      ap (λ (s : Slot). s.second == v.empty_value_sentinel) (write_self m a pair) ∙ ==_of_ne _ _ ne)
    where
      m' : Memory
      m' = write m a pair

      by_size :
          (packable b : Bool)
          → b ≡ false
          → ◌≡◌ {A = Outcome (ℕ × Bool) Memory}
              (if not packable
                then elim (if b then wait_for_payload n m' a v.empty_value_sentinel else some tt) [
                  | none ↦ none
                  | some _ ↦ some (return (a, true), m')
                ]
                else some (return (a, true), m'))
              (some (return (a, true), m'))
      by_size true b e = refl
      by_size false b e = rw e refl

  status_lem :
      (m : Memory) (a : ℕ) (pair : Slot)
      → (m a).second ≡ v.empty_value_sentinel
      → insert_and_find_status (suc n) v a (write_pair_stable v keys m a pair (m a).first)
        ≡ some (return (a, true), write m a pair)
  unfolding insert_and_find_status
  status_lem m a pair h = rw (write_pair_stable_lem v keys m a pair h) refl

  switch_lem :
      (m : Memory) (a : ℕ) (pair : Slot)
      → pair.second ≢ v.empty_value_sentinel
      → Insert.insert_and_find_switch
          (suc n)
          (view_ref w v keys)
          a
          (attempt_insert_stable (view_ref w v keys) m a (m a) pair)
        ≡ some (return (a, true), write m a pair)
  unfolding Insert.insert_and_find_switch
  switch_lem m a pair ne =
      rw (attempt_insert_stable_lem (view_ref w v keys) m a pair) (found_at-written m a pair ne)

  present_at-returns :
      (m : Memory) (a : ℕ) (t : Memory) → present_at (suc n) v a m ≡ some (next, t) → t ≡ m
  unfolding present_at
  present_at-returns m a t =
      by_size v.packable (wait_for_payload (suc n) m a v.empty_value_sentinel)
    where
      by_size :
          (packable : Bool) (o : Option (Unit {0}))
          → ◌≡◌ {A = Outcome (ℕ × Bool) Memory}
              (if packable
                then some (return (a, false), m)
                else elim o [ none ↦ none | some _ ↦ some (return (a, false), m) ])
              (some (next, t))
          → t ≡ m
      by_size true o e = absurd (cc e)
      by_size false none e = absurd (cc e)
      by_size false (some u) e = absurd (cc e)

  module _ (pair : Slot) (ne : pair.second ≢ v.empty_value_sentinel) (m : Memory)
      (idle : Idle v m) where
    insert_and_find_at_lem :
        (a : ℕ)
        → a < v.capacity
        → insert_and_find_at (suc n) v keys pair a m
          ≡ Insert.insert_and_find_slot (suc n) (view_ref w v keys) pair (m a) a m
    unfolding insert_and_find_at Insert.insert_and_find_slot compare_key equal_to slot_is_available
    insert_and_find_at_lem a lt =
        ap
          (λ (y : Outcome (ℕ × Bool) Memory).
            if not (slot_is_available v (m a).first) && keys.key_equal (m a).first pair.first
            then y
            else if slot_is_available v (m a).first
            then insert_and_find_status (suc n) v a (write_pair_stable v keys m a pair (m a).first)
            else some (next, m))
          (present_at-found_at m a)
        ∙ insert_split (slot_is_available v (m a).first) (keys.key_equal (m a).first pair.first) _ _
            _ _ (λ free. status_lem m a pair (idle a lt free) ∙ sym (switch_lem m a pair ne))

    insert_and_find_at-still :
        (a : ℕ) (t : Memory)
        → a < v.capacity
        → insert_and_find_at (suc n) v keys pair a m ≡ some (next, t)
        → t ≡ m
    unfolding insert_and_find_at
    insert_and_find_at-still a t lt e =
        insert_still (slot_is_available v (m a).first) (keys.key_equal (m a).first pair.first) _ _ m
          t (present_at-returns m a t)
          (λ free f. absurd (cc (status_lem m a pair (idle a lt free), f))) e

-- The older `insert_and_find` waits for a value at the same slots, and returns the same.
pub insert_and_find-insert_and_find :
    {w : ℕ} {v : View} {keys : Keys} (fits : Fits w v keys) (fuel : ℕ) (pair : Slot) (m : Memory)
    → pair.second ≢ v.empty_value_sentinel
    → Idle v m
    → insert_and_find fuel v keys pair m ≡ Insert.insert_and_find fuel (view_ref w v keys) pair m
unfolding insert_and_find Insert.insert_and_find Insert.insert_and_find_window slot_loop probe_loop
insert_and_find-insert_and_find fits zero pair m ne idle = refl
insert_and_find-insert_and_find {w} {v} {keys} fits (suc n) pair m ne idle =
    walk-probe_loop fits (suc n) pair.first (insert_and_find_at (suc n) v keys pair)
      (Insert.insert_and_find_window (suc n) (view_ref w v keys) pair) m
      (λ a lt.
        insert_and_find_at_lem w v keys n pair ne m idle a lt
        ∙ ap (λ b. Insert.insert_and_find_slot (suc n) (view_ref w v keys) pair (m b) b m)
            (address_lem a)
        ∙ sym (one_slot _ m))
      (λ a t lt e. insert_and_find_at-still w v keys n pair ne m idle a t lt e)
