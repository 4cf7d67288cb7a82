-- ===== src/Concurrent/Exchanges.antt =====
-- The exchanges of `attempt_insert` and the comparison, by what the slot holds.
use cu_collections.Common.{
  ℕ, ◌≡◌, ◌≢◌, refl, ap, ◌∙◌, arith, Bool, true, false, ◌==◌, ==_self, ==_of_ne, if◌then◌else◌,
  if_yes, if_not,
}
use cu_collections.Equality.{unequal, equal, empty, available, inserting, equal_to, compare_key}
use cu_collections.OpenAddressing.Cas.{
  InsertResult, continue, success, duplicate, cas_key, cas_payload, store_payload, after_failure,
  packed_cas,
}
use cu_collections.OpenAddressing.Defs.{Slot, Memory, write, same_slot, Ref}
use cu_collections.OpenAddressing.Table.{is_available}
use cu_collections.Probing.{ProbingIterator}
use cu_collections.Concurrent.Threads.{
  Pc, storing, exchanging, current, after_attempt, begin_attempt,
}

-- `after_failure`, by whether the key that was found is equal.
pub failure_equal :
    (r : Ref) (key found : ℕ)
    → r.predicate.equal_fn key found ≡ true
    → after_failure r key found ≡ duplicate
unfolding after_failure equal_to
failure_equal r key found e = rw (e, after_failure) refl

pub failure_other :
    (r : Ref) (key found : ℕ)
    → r.predicate.equal_fn key found ≡ false
    → after_failure r key found ≡ continue
unfolding after_failure equal_to
failure_other r key found e = rw (e, after_failure) refl

-- The exchanges, by whether the slot is as expected.
pub packed_free :
    (r : Ref) (m : Memory) (a : ℕ) (s val : Slot)
    → (m a).first ≡ s.first
    → (m a).second ≡ s.second
    → packed_cas r m a s val ≡ (success, write m a val)
unfolding packed_cas same_slot
packed_free r m a s val e f = rw (e, f) (rw (==_self s.first, ==_self s.second) refl)

pub packed_taken :
    (r : Ref) (m : Memory) (a : ℕ) (s val : Slot)
    → (m a).first ≢ s.first
    → packed_cas r m a s val ≡ (after_failure r val.first (m a).first, m)
unfolding packed_cas same_slot
packed_taken r m a s val ne = rw (==_of_ne (m a).first s.first ne) refl

abbrev pub with_key : Slot → ℕ → Slot
with_key s k = record { first = k; second = s.second }

pub cas_key_free :
    (m : Memory) (a expected desired : ℕ)
    → (m a).first ≡ expected
    → cas_key m a expected desired ≡ (true, (m a).first, write m a (with_key (m a) desired))
unfolding cas_key
cas_key_free m a expected desired e =
    let test : ((m a).first == expected) ≡ true = ap (λ k. k == expected) e ∙ ==_self expected in
    rw test refl

pub cas_key_taken :
    (m : Memory) (a expected desired : ℕ)
    → (m a).first ≢ expected
    → cas_key m a expected desired ≡ (false, (m a).first, m)
unfolding cas_key
cas_key_taken m a expected desired ne = rw (==_of_ne (m a).first expected ne) refl

pub cas_payload_free :
    (m : Memory) (a expected desired : ℕ)
    → ((m a).second == expected) ≡ true
    → cas_payload m a expected desired ≡ (true, store_payload m a desired)
unfolding cas_payload store_payload
cas_payload_free m a expected desired e = rw e refl

pub cas_payload_taken :
    (m : Memory) (a expected desired : ℕ)
    → ((m a).second == expected) ≡ false
    → cas_payload m a expected desired ≡ (false, m)
unfolding cas_payload
cas_payload_taken m a expected desired e = rw e refl

-- what a thread sees in a loaded slot
pub seen_equal :
    (r : Ref) (key : ℕ) (s : Slot)
    → compare_key inserting r.predicate key s.first ≡ equal
    → (is_available r s ≡ false) × (r.predicate.equal_fn key s.first ≡ true)
unfolding compare_key equal_to
seen_equal r key s h = (ground arith, ground arith)

pub seen_unequal :
    (r : Ref) (key : ℕ) (s : Slot)
    → compare_key inserting r.predicate key s.first ≡ unequal
    → (is_available r s ≡ false) × (r.predicate.equal_fn key s.first ≡ false)
unfolding compare_key equal_to
seen_unequal r key s h = (ground arith, ground arith)

pub seen_available :
    (r : Ref) (key : ℕ) (s : Slot)
    → compare_key inserting r.predicate key s.first ≡ available
    → is_available r s ≡ true
unfolding compare_key equal_to
seen_available r key s h = ground arith

pub seen_not_empty :
    (r : Ref) (key : ℕ) (s : Slot) → compare_key inserting r.predicate key s.first ≢ empty
unfolding compare_key equal_to
seen_not_empty r key s h = ground arith

module _ (r : Ref) (val : Slot) (m : Memory) (it : ProbingIterator) (i : ℕ) (snap : Memory) where
  pub begin_packed :
      (res : InsertResult) (m' : Memory)
      → r.small_slot ≡ true
      → packed_cas r m (current r it i) (snap (current r it i)) val ≡ (res, m')
      → begin_attempt r val m it i snap ≡ (m', after_attempt r it i snap res)
  unfolding begin_attempt
  begin_packed res m' e h =
      if_yes _ _ e ∙ ap (λ (q : InsertResult × Memory). (q.1, after_attempt r it i snap q.0)) h

  -- where a thread stands after the exchange of the key
  abbrev pub after_key : Bool → ℕ → Pc
  after_key swapped found =
      if r.old_arch
      then if swapped
        then storing (current r it i)
        else after_attempt r it i snap (after_failure r val.first found)
      else exchanging it i snap swapped found

  pub begin_key :
      (swapped : Bool) (found : ℕ) (m' : Memory)
      → r.small_slot ≡ false
      → cas_key m (current r it i) (snap (current r it i)).first val.first ≡ (swapped, found, m')
      → begin_attempt r val m it i snap ≡ (m', after_key swapped found)
  unfolding begin_attempt
  begin_key swapped found m' e h =
      if_not _ _ e ∙ ap (λ (q : Bool × ℕ × Memory). (q.2, after_key q.0 q.1)) h
