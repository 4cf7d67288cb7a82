-- ===== src/Group/InsertGroup.antt =====
-- What `insert` of a group does to a table.
use cu_collections.Common.{
  ℕ, zero, suc, ◌<◌, ◌≡◌, ◌≢◌, ap, sym, ◌∙◌, subst, arith, Option, none, some, Bool, true, false,
  not, ◌&&◌, List, map, All, All-In, In, In-append, In-map, ◌⊎◌, inl, inr,
}
use cu_collections.Equality.{unequal, equal, available, inserting, compare_key}
use cu_collections.OpenAddressing.Defs.{
  Slot, Memory, write, Ref, empty_value_sentinel, capacity, slot_address,
}
use cu_collections.OpenAddressing.Reach.{IsRef}
use cu_collections.OpenAddressing.Steps.{attempt_insert_lem}
use cu_collections.OpenAddressing.Table.{is_available, IsTable, HoldsAt, Present}
use cu_collections.Group.Lanes.{
  Lane, probe_group, slot_ptr, any, src_lane, GroupFlow, finish, step, group_loop,
}
use cu_collections.Group.Windows.{
  InRange, windows_from, group_windows, iterators-InRange, advance-InRange, slot_address-lt, Stops,
  insert_results-Saw, insert_results_free,
}
use cu_collections.Group.Writes.{insert_lane, insert_group_switch, insert_group_lanes, insert_group}
use cu_collections.Probing.{ProbingIterator, advance}
use cu_collections.Group.Ballots.{src_lane_cases, any_cases}

module _ {r : Ref} {m : Memory} (ref : IsRef r) (t : IsTable r m)
    (nodup : r.allows_duplicates ≡ false) (val : Slot) where
  abbrev lane : ProbingIterator → Lane
  lane it = insert_lane r val.first m it

  -- what the lane of a thread says of its slot
  lane-Saw :
      (it : ProbingIterator)
      → InRange r it
      → (lane it).results.state ≢ unequal
      → (slot_ptr r (lane it) < capacity r)
        × (compare_key inserting r.predicate val.first (m (slot_ptr r (lane it))).first
            ≡ (lane it).results.state)
  unfolding insert_lane
  lane-Saw it h stops = elim (insert_results-Saw r val.first m it.curr_index r.window_size 0) [
    | inl e ↦ absurd (stops e)
    | inr (_, (lt, e)) ↦ (slot_address-lt r it.curr_index _ h.0 (omega (arith, lt)), e)
  ]

  saw_available :
      (a : ℕ)
      → compare_key inserting r.predicate val.first (m a).first ≡ available
      → is_available r (m a) ≡ true
  unfolding compare_key
  saw_available a e = ground arith

  saw_equal :
      (a : ℕ)
      → a < capacity r
      → compare_key inserting r.predicate val.first (m a).first ≡ equal
      → HoldsAt r m val.first a
  unfolding compare_key
  saw_equal a lt e = (lt, ground arith, ground arith)

  -- A thread whose window has a free slot stops there.
  lane_free :
      (it : ProbingIterator) (i : ℕ)
      → i < r.window_size
      → is_available r (m (slot_address r it.curr_index i)) ≡ true
      → Stops (lane it).results.state
  unfolding insert_lane
  lane_free it i lt h = elim (insert_results-Saw r val.first m it.curr_index r.window_size 0) [
    | inl e ↦ absurd (
        insert_results_free r val.first m it.curr_index r.window_size 0 i (omega arith)
          (omega (arith, lt)) h e)
    | inr (s, _) ↦ s
  ]

  -- What a loop of the group came to.
  abbrev Done : Option (Bool × Memory) → Type 0
  Done o =
      (Present r m val.first × (o ≡ some (false, m)))
      ⊎ ((a : ℕ) × (a < capacity r)
          × (is_available r (m a) ≡ true)
          × (o ≡ some (true, write m a val)))

  body : ℕ → List ProbingIterator → Memory → Option (GroupFlow Bool × Memory)
  body fuel its m' = insert_group_lanes fuel r val m' (map (insert_lane r val.first m') its)

  guard :
      (its : List ProbingIterator) (b : Bool)
      → any equal (map lane its) ≡ b
      → (not r.allows_duplicates && any equal (map lane its)) ≡ b
  guard its b e = ap (λ d. not d && any equal (map lane its)) nodup ∙ e

  body_equal :
      (fuel : ℕ) (its : List ProbingIterator)
      → any equal (map lane its) ≡ true
      → body fuel its m ≡ some (finish false, m)
  unfolding body insert_group_lanes
  body_equal fuel its e = rw (guard its true e)

  body_available :
      (fuel : ℕ) (its : List ProbingIterator) (it : ProbingIterator)
      → any equal (map lane its) ≡ false
      → src_lane available (map lane its) ≡ some (lane it)
      → (m (slot_ptr r (lane it))).second ≡ empty_value_sentinel r
      → body fuel its m ≡ some (finish true, write m (slot_ptr r (lane it)) val)
  unfolding body insert_group_lanes insert_group_switch
  body_available fuel its it e s idle =
      rw (guard its false e, s) (rw (attempt_insert_lem fuel r m (slot_ptr r (lane it)) val idle))

  body_goes_on :
      (fuel : ℕ) (its : List ProbingIterator)
      → any equal (map lane its) ≡ false
      → src_lane available (map lane its) ≡ none
      → body fuel its m ≡ some (step, m)
  unfolding body insert_group_lanes
  body_goes_on fuel its e s = rw (guard its false e, s)

  loop_Done :
      (inner fuel : ℕ) (its : List ProbingIterator)
      → All (InRange r) its
      → (window i : ℕ) → In window (windows_from fuel r its)
      → i < r.window_size
      → is_available r (m (slot_address r window i)) ≡ true
      → Done (group_loop fuel r.size_bits its (body inner) m)
  unfolding group_loop windows_from
  loop_Done inner zero its h window i at lt free = elim at [ ]
  loop_Done inner (suc fuel) its h window i at lt free = elim (any_cases lane its) [
    | inr (it, j, s, e) ↦
        let (inside, saw) = lane-Saw it (All-In (InRange r) it its h j) (λ x. cc (s, x)) in
        inl (
          (slot_ptr r (lane it), saw_equal (slot_ptr r (lane it)) inside (saw ∙ s)),
          rw (body_equal inner its e, group_loop),
        )
    | inl (e, no_equal) ↦ elim (src_lane_cases lane its) [
      | inr (it, j, s, f) ↦
          let (inside, saw) = lane-Saw it (All-In (InRange r) it its h j) (λ x. cc (s, x)) in
          let a = slot_ptr r (lane it) in
          let is_free = saw_available a (saw ∙ s) in
          inr (
            a,
            inside,
            is_free,
            rw (body_available inner its it e f (t.idle a inside is_free), group_loop),
          )
      | inl (f, no_free) ↦
          elim (In-append window (map (λ (it : ProbingIterator). it.curr_index) its) _ at) [
            | inl here ↦
                let (it, j, w) = In-map (λ (it : ProbingIterator). it.curr_index) window its here in
                elim (lane_free it i lt
                  (subst (λ w. is_available r (m (slot_address r w i)) ≡ true) (sym w) free)) [
                    | inl s ↦ absurd (no_free it j s)
                    | inr s ↦ absurd (no_equal it j s)
                  ]
            | inr later ↦
                rw (body_goes_on inner its e f, group_loop)
                  (loop_Done inner fuel (map (advance r.size_bits) its) (advance-InRange ref its h)
                    window i later lt free)
          ]
    ]
  ]

  -- In a well-formed table without duplicates, with a free slot in a window that the group visits
  -- within its fuel, `insert` of a group that runs alone ends: it returns false, the memory as it
  -- was, and some slot holds the key, or it returns true and has written the element to one slot
  -- that was free.
  pub insert_group-decides :
      (fuel cg_size : ℕ) (window i : ℕ)
      → In window (group_windows fuel r cg_size val.first)
      → i < r.window_size
      → is_available r (m (slot_address r window i)) ≡ true
      → (Present r m val.first × (insert_group fuel r cg_size val m ≡ some (false, m)))
        ⊎ ((a : ℕ) × (a < capacity r)
            × (is_available r (m a) ≡ true)
            × (insert_group fuel r cg_size val m ≡ some (true, write m a val)))
  unfolding insert_group body
  insert_group-decides fuel cg_size window i at lt free =
      loop_Done fuel fuel (probe_group r cg_size val.first)
        (iterators-InRange ref cg_size val.first cg_size 0) window i at lt free
