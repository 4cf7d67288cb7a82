-- ===== src/Group/Windows.antt =====
-- The windows that a group visits, and what a thread's pass over its window tells of the slots.
use cu_collections.Common.{
  ℕ, zero, suc, ◌+◌, ◌*◌, ◌%◌, ◌^◌, ◌<◌, ◌≤◌, ◌≡◌, ◌≢◌, refl, subst, sym, ◌∙◌, arith, true, List,
  [], ◌∷◌, ◌++◌, map, All, ◌⊎◌, inl, inr, Bool-cases,
}
use cu_collections.Equality.{EqualResult, unequal, equal, empty, available, inserting, compare_key}
use cu_collections.OpenAddressing.Defs.{Memory, Ref, capacity, slot_address}
use cu_collections.OpenAddressing.Reach.{IsRef}
use cu_collections.OpenAddressing.Table.{is_available}
use cu_collections.Group.Lanes.{WindowProbingResults, group_iterators, probe_group}
use cu_collections.Group.Writes.{insert_results}
use cu_collections.Probing.{
  ProbingScheme, linear_probing, double_hashing, ProbingIterator, advance, start_group_probe,
}
use native.Mathlib.Nat.{mod-lt}

abbrev pub InRange : Ref → ProbingIterator → Type 0
InRange r it = (it.curr_index < r.num_windows) × (it.upper_bound ≡ r.num_windows)

-- the windows of a group's first `fuel` rounds
unfoldable pub windows_from : ℕ → Ref → List ProbingIterator → List ℕ
windows_from zero r its = []
windows_from (suc fuel) r its =
    map (λ (it : ProbingIterator). it.curr_index) its
    ++ windows_from fuel r (map (advance r.size_bits) its)

abbrev pub group_windows : ℕ → Ref → ℕ → ℕ → List ℕ
group_windows fuel r cg_size key = windows_from fuel r (probe_group r cg_size key)

module _ {r : Ref} (ok : IsRef r) where
  start-InRange :
      (cg_size rank key : ℕ)
      → InRange r (start_group_probe r.size_bits cg_size rank r.probing_scheme key r.num_windows)
  unfolding start_group_probe
  start-InRange cg_size rank key = by_scheme r.probing_scheme
    where
      by_scheme :
          (s : ProbingScheme)
          → InRange r (start_group_probe r.size_bits cg_size rank s key r.num_windows)
      by_scheme (linear_probing hash) = (mod-lt _ ok.some_window, refl)
      by_scheme (double_hashing hash1 hash2) = (mod-lt _ ok.some_window, refl)

  pub iterators-InRange :
      (cg_size key n rank : ℕ) → All (InRange r) (group_iterators r cg_size key n rank)
  unfolding group_iterators
  iterators-InRange cg_size key zero rank = tt
  iterators-InRange cg_size key (suc n) rank =
      (start-InRange cg_size rank key, iterators-InRange cg_size key n (suc rank))

  pub advance-InRange :
      (its : List ProbingIterator)
      → All (InRange r) its
      → All (InRange r) (map (advance r.size_bits) its)
  unfolding advance
  advance-InRange [] h = tt
  advance-InRange (it ∷ its) ((lt, e), h) = (
    (rw e (mod-lt ((it.curr_index + it.step_size) % 2 ^ r.size_bits) ok.some_window), e),
    advance-InRange its h,
  )

-- A slot of a window in range is a slot of the storage.
pub slot_address-lt :
    (r : Ref) (window i : ℕ)
    → window < r.num_windows
    → i < r.window_size
    → slot_address r window i < capacity r
unfolding capacity
slot_address-lt r window i hw hi = below r.num_windows r.window_size window i hw hi
  where
    below : (n s w i : ℕ) → w < n → i < s → w * s + i < n * s
    below zero s w i hw hi = absurd (omega arith)
    below (suc n) s zero i hw hi = omega arith
    below (suc n) s (suc w) i hw hi = omega (arith, below n s w i (omega arith) hi)

-- What the loop of `insert` over a window saw, as it returned `res`.
abbrev pub Saw : Ref → ℕ → Memory → ℕ → ℕ → WindowProbingResults → Type 0
Saw r key m window bound res =
    (res.intra_window_index < bound)
    × (compare_key inserting r.predicate key
          (m (slot_address r window res.intra_window_index)).first
        ≡ res.state)

abbrev pub Stops : EqualResult → Type 0
Stops s = (s ≡ available) ⊎ (s ≡ equal)

module _ (r : Ref) (key : ℕ) (m : Memory) (window : ℕ) where
  -- The loop ends unequal, or at a slot that it saw.
  pub insert_results-Saw :
      (n i : ℕ)
      → ((insert_results r key m window n i).state ≡ unequal)
        ⊎ (Stops (insert_results r key m window n i).state
            × Saw r key m window (i + n) (insert_results r key m window n i))
  unfolding insert_results
  insert_results-Saw zero i = inl refl
  insert_results-Saw (suc n) i = by_slot (insert_results-Saw n (suc i)) _ refl
    where
      ends : WindowProbingResults → Type 0
      ends res = (res.state ≡ unequal) ⊎ (Stops res.state × Saw r key m window (i + suc n) res)

      rest : WindowProbingResults
      rest = insert_results r key m window n (suc i)

      widen :
          (rest.state ≡ unequal) ⊎ (Stops rest.state × Saw r key m window (suc i + n) rest)
          → ends rest
      widen (inl e) = inl e
      widen (inr (s, (lt, e))) = inr (s, (omega (arith, lt), e))

      by_slot :
          (rest.state ≡ unequal) ⊎ (Stops rest.state × Saw r key m window (suc i + n) rest)
          → (c : EqualResult)
          → compare_key inserting r.predicate key (m (slot_address r window i)).first ≡ c
          → ends (insert_results r key m window (suc n) i)
      by_slot ih available e = rw (e, insert_results) (inr (inl refl, (omega arith, e)))
      by_slot ih unequal e = rw (e, insert_results) (widen ih)
      by_slot ih empty e = rw (e, insert_results) (widen ih)
      by_slot ih equal e =
          rw (e, insert_results)
            (elim (Bool-cases r.allows_duplicates) [
              | inl dup ↦ rw dup (widen ih)
              | inr nodup ↦ rw nodup (inr (inr refl, (omega arith, e)))
            ])

  compare_free :
      (a : ℕ)
      → is_available r (m a) ≡ true
      → compare_key inserting r.predicate key (m a).first ≡ available
  unfolding compare_key
  compare_free a h = ground arith

  -- It does not end unequal if it came to a free slot.
  pub insert_results_free :
      (n i j : ℕ)
      → i ≤ j
      → j < i + n
      → is_available r (m (slot_address r window j)) ≡ true
      → (insert_results r key m window n i).state ≢ unequal
  unfolding insert_results
  insert_results_free zero i j le lt h = absurd (omega arith)
  insert_results_free (suc n) i j le lt h =
      by_slot (λ ne. insert_results_free n (suc i) j (omega (arith, le, ne)) (omega (arith, lt)) h)
        _ refl
    where
      not_here :
          (c : EqualResult)
          → compare_key inserting r.predicate key (m (slot_address r window i)).first ≡ c
          → c ≢ available
          → j ≢ i
      not_here c e ne same = ne (
          sym e
          ∙ compare_free (slot_address r window i)
              (subst (λ j. is_available r (m (slot_address r window j)) ≡ true) same h))

      by_slot :
          (j ≢ i → (insert_results r key m window n (suc i)).state ≢ unequal)
          → (c : EqualResult)
          → compare_key inserting r.predicate key (m (slot_address r window i)).first ≡ c
          → (insert_results r key m window (suc n) i).state ≢ unequal
      by_slot later available e = rw (e, insert_results) (λ x. cc (x))
      by_slot later unequal e = rw (e, insert_results) (later (not_here unequal e (λ x. cc (x))))
      by_slot later empty e = rw (e, insert_results) (later (not_here empty e (λ x. cc (x))))
      by_slot later equal e =
          rw (e, insert_results)
            (elim (Bool-cases r.allows_duplicates) [
              | inl dup ↦ rw dup (later (not_here equal e (λ x. cc (x))))
              | inr nodup ↦ rw nodup (λ x. cc (x))
            ])
