-- ===== src/Concurrent/Threads.antt =====
-- Threads that each run `insert(value)`. A step of a thread has one access to the memory at
-- most: the load of one slot of a window, an exchange, or a store. A slot of at most 8 bytes is loaded and exchanged whole.
use cu_collections.Common.{
  if_yes, if_not, ==_self, ==_of_ne, ap, ◌∙◌, ◌≢◌, ℕ, suc, ◌≡◌, Bool, true, false, ltb, ◌==◌,
  if◌then◌else◌, refl, List, [], ◌∷◌,
}
use cu_collections.Equality.{equal, available, inserting, compare_key}
use cu_collections.OpenAddressing.Cas.{
  InsertResult, continue, success, duplicate, cas_key, cas_payload, store_payload, after_failure,
  packed_cas,
}
use cu_collections.OpenAddressing.Defs.{
  Slot, Memory, write, Ref, empty_value_sentinel, slot_address, probe,
}
use cu_collections.Probing.{ProbingIterator, advance}

-- Where a thread stands, with the local variables that are live there. `snap` holds the slots that it
-- has loaded, at their addresses.
pub data Pc : Type 0 where
  -- before the load of the slot `i` of its window
  loading : (it : ProbingIterator) (i : ℕ) (snap : Memory) → Pc
  -- in the loop over the window, at the slot `i`
  visiting : (it : ProbingIterator) (i : ℕ) (snap : Memory) → Pc
  -- `cas_dependent_write`, before the store of the payload
  storing : (address : ℕ) → Pc
  -- `back_to_back_cas`, before the exchange of the payload
  exchanging : (it : ProbingIterator) (i : ℕ) (snap : Memory) (swapped : Bool) (found : ℕ) → Pc
  -- in its `while (not payload_cas_success)`
  retrying : (address : ℕ) → Pc
  -- before it puts the sentinel back
  resetting : (it : ProbingIterator) (i : ℕ) (snap : Memory) (found : ℕ) → Pc
  returned : (inserted : Bool) → Pc

module _ (r : Ref) where
  abbrev pub current : ProbingIterator → ℕ → ℕ
  current it i = slot_address r it.curr_index i

  -- the `switch` on the result of `attempt_insert`
  unfoldable pub after_attempt : ProbingIterator → ℕ → Memory → InsertResult → Pc
  after_attempt it i snap success = returned true
  after_attempt it i snap continue = visiting it (suc i) snap
  after_attempt it i snap duplicate =
      if r.allows_duplicates then visiting it (suc i) snap else returned false

  module _ (val : Slot) (m : Memory) where
    -- the first access of `attempt_insert`
    unfoldable pub begin_attempt : ProbingIterator → ℕ → Memory → Memory × Pc
    unfolding packed_cas cas_key after_failure after_attempt
    begin_attempt it i snap =
        let address = current it i in
        if r.small_slot
        then (let (res, m') = packed_cas r m address (snap address) val in
            (m', after_attempt it i snap res))
        else let (swapped, found, m') = cas_key m address (snap address).first val.first in
          (
            m',
            if r.old_arch
                then if swapped
                  then storing address
                  else after_attempt it i snap (after_failure r val.first found)
                else exchanging it i snap swapped found,
          )

    -- what `back_to_back_cas` does once it has tried both exchanges
    unfoldable pub after_exchange : ProbingIterator → ℕ → Memory → ℕ → Bool → Bool → Pc
    unfolding after_failure after_attempt
    after_exchange it i snap found true true = returned true
    after_exchange it i snap found true false = retrying (current it i)
    after_exchange it i snap found false true = resetting it i snap found
    after_exchange it i snap found false false =
        after_attempt it i snap (after_failure r val.first found)

    unfoldable pub visit_slot : ProbingIterator → ℕ → Memory → Memory × Pc
    unfolding begin_attempt
    visit_slot it i snap =
        elim (compare_key inserting r.predicate val.first (snap (current it i)).first) [
          | equal ↦ (m, if r.allows_duplicates then visiting it (suc i) snap else returned false)
          | available ↦ begin_attempt it i snap
          | _ ↦ (m, visiting it (suc i) snap)
        ]

    unfoldable pub move : Pc → Memory × Pc
    unfolding write visit_slot cas_payload after_exchange store_payload after_failure after_attempt
        advance
    move (loading it i snap) =
        if ltb i r.window_size
        then (m, loading it (suc i) (write snap (current it i) (m (current it i))))
        else (m, visiting it 0 snap)
    move (visiting it i snap) =
        if ltb i r.window_size
        then visit_slot it i snap
        else (m, loading (advance r.size_bits it) 0 snap)
    move (storing address) = (store_payload m address val.second, returned true)
    move (exchanging it i snap swapped found) =
        let (ok, m') = cas_payload m (current it i) (empty_value_sentinel r) val.second in
        (m', after_exchange it i snap found swapped ok)
    move (retrying address) =
        let (ok, m') = cas_payload m address (empty_value_sentinel r) val.second in
        (m', if ok then returned true else retrying address)
    move (resetting it i snap found) = (
      store_payload m (current it i) (empty_value_sentinel r),
      after_attempt it i snap (after_failure r val.first found),
    )
    move (returned inserted) = (m, returned inserted)

-- The memory, and every thread by its number.
pub record World : Type 0 where
  pub memory : Memory
  pub pc : ℕ → Pc

-- The thread `t` inserts the element `vals t`.
module _ (r : Ref) (vals : ℕ → Slot) where
  unfoldable pub step : ℕ → World → World
  unfolding move
  step t w =
      let (m, p) = move r (vals t) w.memory (w.pc t) in
      record { memory = m; pc = λ u. if u == t then p else w.pc u }

  pub pc_here :
      (w : World) (t u : ℕ) → u ≡ t → (step t w).pc u ≡ (move r (vals t) w.memory (w.pc t)).1
  unfolding step
  pc_here w t u e = if_yes _ _ (ap (λ u. u == t) e ∙ ==_self t)

  pub pc_other : (w : World) (t u : ℕ) → u ≢ t → (step t w).pc u ≡ w.pc u
  unfolding step
  pc_other w t u ne = if_not _ _ (==_of_ne u t ne)

  -- Every thread is about to load its first window.
  unfoldable pub begin : Memory → World
  unfolding probe
  begin m = record { memory = m; pc = λ t. loading (probe r (vals t).first) 0 m }

  -- The states that the threads come to in some order of their steps.
  pub data Reach (m : Memory) : World → Type 0 where
    start : Reach m (begin m)
    later : {v : World} → Reach m v → (t : ℕ) {w : World} → w ≡ step t v → Reach m w

  -- the threads in the order of a schedule
  unfoldable pub run : List ℕ → World → World
  unfolding step
  run [] w = w
  run (t ∷ ts) w = run ts (step t w)

  pub run-Reach : {m : Memory} (ts : List ℕ) (w : World) → Reach m w → Reach m (run ts w)
  unfolding run
  run-Reach [] w h = h
  run-Reach (t ∷ ts) w h = run-Reach ts (step t w) (later h t refl)
