-- ===== src/Concurrent/Steps.antt =====
-- What every step of a thread keeps.
use cu_collections.Common.{
  if_yes, if_not, ℕ, suc, ◌<◌, ◌≡◌, ◌≢◌, refl, ap, sym, ◌∙◌, subst, arith, Bool, true, false, ◌==◌,
  ltb, ltb→lt, if◌then◌else◌, inl, inr, eq-or-ne, Bool-cases,
}
use cu_collections.Equality.{EqualResult, unequal, equal, empty, available, inserting, compare_key}
use cu_collections.OpenAddressing.Cover.{IsCyclic}
use cu_collections.OpenAddressing.Defs.{Slot, Memory, write, Ref, empty_value_sentinel, capacity}
use cu_collections.OpenAddressing.InsertLaws.{NoneErased}
use cu_collections.OpenAddressing.Reach.{IsRef}
use cu_collections.OpenAddressing.Steps.{write_here, write_other}
use cu_collections.OpenAddressing.Table.{IsKeyEqual, IsValidKey, is_available, IsTable, HoldsAt}
use cu_collections.Probing.{ProbingIterator, advance}
use cu_collections.Concurrent.Claim.{Reached-inside, Walk-inside, inside}
use cu_collections.Concurrent.Knows.{Loaded, Looks, Missed, Good}
use cu_collections.Concurrent.Threads.{
  Pc, loading, visiting, storing, exchanging, retrying, resetting, returned, current, begin_attempt,
  after_exchange, visit_slot, move,
}
use cu_collections.Concurrent.Walk.{Settled, Walk-advance, Walk-Reached}
use cu_collections.Concurrent.Kept.{Kept, unchanged, repaid}
use cu_collections.Concurrent.Exchanges.{
  cas_payload_free, cas_payload_taken, seen_equal, seen_unequal, seen_not_empty,
}
use cu_collections.Concurrent.Moves.{Looks-on, after-Missed, begin_free, begin_taken}

module _ {r : Ref} {m : Memory} (ref : IsRef r) (cyclic : IsCyclic r) (ok : IsKeyEqual r)
    (nodup : r.allows_duplicates ≡ false) (t : IsTable r m) (clean : NoneErased r m) (val : Slot)
    (v : IsValidKey r val.first) where
  abbrev Keeps : Pc → Memory × Pc → Type 0
  Keeps p q = Kept r m val.first p q.0 q.1

  abbrev Coming : ProbingIterator → ℕ → Memory → Type 0
  Coming it i snap =
      Looks r m val.first it i snap
      × (i < r.window_size)
      × (compare_key inserting r.predicate val.first (snap (current r it i)).first ≡ available)

  begin-Keeps :
      (it : ProbingIterator) (i : ℕ) (snap : Memory)
      → Coming it i snap
      → Keeps (visiting it i snap) (begin_attempt r val m it i snap)
  begin-Keeps it i snap c = elim (Bool-cases (is_available r (m (current r it i)))) [
    | inl free ↦ begin_free ref cyclic ok nodup t clean val v it i snap c free
    | inr taken ↦ begin_taken ref cyclic ok nodup t clean val v it i snap c taken
  ]

  visit-Keeps :
      (it : ProbingIterator) (i : ℕ) (snap : Memory)
      → Looks r m val.first it i snap
      → i < r.window_size
      → Keeps (visiting it i snap) (visit_slot r val m it i snap)
  unfolding visit_slot
  visit-Keeps it i snap l lt = by_seen _ refl
    where
      a : ℕ
      a = current r it i

      on :
          Settled r m val.first a
          → Kept r m val.first (visiting it i snap) m (visiting it (suc i) snap)
      on s =
          unchanged t clean val.first (visiting it i snap) (visiting it (suc i) snap)
            (Looks-on ref cyclic ok nodup t clean val v it i snap l s) (λ h. h)

      by_seen :
          (c : EqualResult)
          → compare_key inserting r.predicate val.first (snap a).first ≡ c
          → Keeps (visiting it i snap) (visit_slot r val m it i snap)
      by_seen available e = rw (e, visit_slot) (begin-Keeps it i snap (l, lt, e))
      by_seen empty e = absurd (seen_not_empty r val.first (snap a) e)
      by_seen unequal e =
          let (taken, other) = seen_unequal r val.first (snap a) e in
          let same = (l.loaded i lt).taken taken in
          rw (e, visit_slot) (on (record { taken = rw same taken; other = rw same other }))
      by_seen equal e =
          let (taken, equals) = seen_equal r val.first (snap a) e in
          let same = (l.loaded i lt).taken taken in
          rw (e, visit_slot)
            (subst (λ p. Kept r m val.first (visiting it i snap) m p)
              (sym (if_not (visiting it (suc i) snap) (returned false) nodup))
              (unchanged t clean val.first (visiting it i snap) (returned false)
                (
                  a,
                  (
                    Reached-inside ref (Walk-Reached l.walk i lt l.here),
                    rw same taken,
                    rw same equals,
                  ),
                )
                (λ h. h)))

  empty_of_free :
      (a : ℕ)
      → a < capacity r
      → is_available r (m a) ≡ true
      → (m a).first ≡ r.predicate.empty_sentinel
  empty_of_free a lt free = ground (arith, clean a lt)

  -- A slot that was just loaded.
  Loaded-now : (snap : Memory) (a : ℕ) → a < capacity r → snap a ≡ m a → Loaded r m snap a
  Loaded-now snap a lt e = record {
    taken = λ h. ap (λ (s : Slot). s.first) (sym e);
    free = λ h.
        let free = subst (λ s. is_available r s ≡ true) e h in
        (
          ap (λ (s : Slot). s.first) e ∙ empty_of_free a lt free,
          ap (λ (s : Slot). s.second) e ∙ t.idle a lt free,
        );
  }

  Loaded-other :
      (snap snap' : Memory) (a : ℕ) → snap' a ≡ snap a → Loaded r m snap a → Loaded r m snap' a
  Loaded-other snap snap' a e l = record {
    taken = λ h.
        l.taken (subst (λ s. is_available r s ≡ false) e h) ∙ ap (λ (s : Slot). s.first) (sym e);
    free = λ h.
        let old = l.free (subst (λ s. is_available r s ≡ true) e h) in
        (ap (λ (s : Slot). s.first) e ∙ old.0, ap (λ (s : Slot). s.second) e ∙ old.1);
  }

  loading-Keeps :
      (it : ProbingIterator) (i : ℕ) (snap : Memory)
      → Good r m val.first (loading it i snap)
      → Keeps (loading it i snap) (move r val m (loading it i snap))
  unfolding move
  loading-Keeps it i snap (w, l) = elim (Bool-cases (ltb i r.window_size)) [
    | inl inside ↦
        subst (Keeps (loading it i snap)) (sym (if_yes on (m, visiting it 0 snap) inside)) (
          unchanged t clean val.first (loading it i snap) (loading it (suc i) snap')
            (
              w,
              λ j lt. elim (eq-or-ne (current r it j) a) [
                | inl e ↦
                    Loaded-now snap' (current r it j)
                      (subst (λ b. b < capacity r) (sym e)
                        (Walk-inside ref it i w (ltb→lt i r.window_size inside)))
                      (write_here snap a (current r it j) (m a) e ∙ ap m (sym e))
                | inr ne ↦
                    Loaded-other snap snap' (current r it j)
                      (write_other snap a (current r it j) (m a) ne)
                      (l j (earlier j lt (λ e. ne (ap (current r it) e))))
              ],
            )
            (λ h. h))
    | inr outside ↦
        subst (Keeps (loading it i snap)) (sym (if_not on (m, visiting it 0 snap) outside)) (
          unchanged t clean val.first (loading it i snap) (visiting it 0 snap)
            (record {
              walk = w;
              here = λ j lt. absurd (omega (arith, lt));
              loaded = λ j lt. l j (ground (arith, outside, lt));
            })
            (λ h. h))
  ]
    where
      a : ℕ
      a = current r it i

      snap' : Memory
      snap' = write snap a (m a)

      on : Memory × Pc
      on = (m, loading it (suc i) snap')

      earlier : (j : ℕ) → j < suc i → j ≢ i → j < i
      earlier j lt ne = omega (arith, lt, ne)

  -- what the exchange of the payload leads to
  after_payload : ProbingIterator → ℕ → Memory → Bool → ℕ → Bool × Memory → Memory × Pc
  after_payload it i snap swapped found q =
      (q.1, after_exchange r val m it i snap found swapped q.0)

  exchanging_won :
      (it : ProbingIterator) (i : ℕ) (snap : Memory) (found : ℕ)
      → HoldsAt r m val.first (current r it i)
      → Keeps (exchanging it i snap true found) (move r val m (exchanging it i snap true found))
  unfolding move after_exchange after_payload
  exchanging_won it i snap found h =
      let a : ℕ = current r it i in
      let p = exchanging it i snap true found in
      elim (Bool-cases ((m a).second == empty_value_sentinel r)) [
        | inl e ↦
            subst (λ q. Keeps p (after_payload it i snap true found q))
              (sym (cas_payload_free m a (empty_value_sentinel r) val.second e))
              (repaid t clean val.first p a val.second (returned true) h.1 (a, h) (λ x. x))
        | inr e ↦
            subst (λ q. Keeps p (after_payload it i snap true found q))
              (sym (cas_payload_taken m a (empty_value_sentinel r) val.second e))
              (unchanged t clean val.first p (retrying a) h (λ x. x))
      ]

  exchanging_lost :
      (it : ProbingIterator) (i : ℕ) (snap : Memory) (found : ℕ)
      → Missed r m val.first it i snap found
      → Keeps (exchanging it i snap false found) (move r val m (exchanging it i snap false found))
  unfolding move after_exchange after_payload
  exchanging_lost it i snap found h =
      let a : ℕ = current r it i in
      let p = exchanging it i snap false found in
      elim (Bool-cases ((m a).second == empty_value_sentinel r)) [
        | inl e ↦
            subst (λ q. Keeps p (after_payload it i snap false found q))
              (sym (cas_payload_free m a (empty_value_sentinel r) val.second e))
              (repaid t clean val.first p a val.second (resetting it i snap found) h.taken h
                (λ x. x))
        | inr e ↦
            let (good, lost) = after-Missed ref cyclic ok nodup t clean val v it i snap found h in
            subst (λ q. Keeps p (after_payload it i snap false found q))
              (sym (cas_payload_taken m a (empty_value_sentinel r) val.second e))
              (unchanged t clean val.first p _ good (λ x. cc (x, lost)))
      ]

  retry : ℕ → Bool × Memory → Memory × Pc
  retry a q = (q.1, if q.0 then returned true else retrying a)

  -- Any step of a thread keeps to what the thread knows.
  pub move-Kept : (p : Pc) → Good r m val.first p → Keeps p (move r val m p)
  unfolding move retry
  move-Kept (loading it i snap) h = loading-Keeps it i snap h
  move-Kept (visiting it i snap) l = elim (Bool-cases (ltb i r.window_size)) [
    | inl inside ↦
        subst (Keeps (visiting it i snap)) (sym (if_yes (visit_slot r val m it i snap) _ inside))
          (visit-Keeps it i snap l (ltb→lt i r.window_size inside))
    | inr outside ↦
        let on = loading (advance r.size_bits it) 0 snap in
        subst (Keeps (visiting it i snap))
          (sym (if_not (visit_slot r val m it i snap) (m, on) outside))
          (unchanged t clean val.first (visiting it i snap) on
            (
              Walk-advance l.walk (λ j lt. l.here j (ground (arith, outside, lt))),
              λ j lt. absurd (omega (arith, lt)),
            )
            (λ x. x))
  ]
  move-Kept (storing a) h =
      repaid t clean val.first (storing a) a val.second (returned true) h.1 (a, h) (λ x. x)
  move-Kept (exchanging it i snap true found) h = exchanging_won it i snap found h
  move-Kept (exchanging it i snap false found) h = exchanging_lost it i snap found h
  move-Kept (retrying a) h = elim (Bool-cases ((m a).second == empty_value_sentinel r)) [
    | inl e ↦
        subst (λ q. Keeps (retrying a) (retry a q))
          (sym (cas_payload_free m a (empty_value_sentinel r) val.second e))
          (repaid t clean val.first (retrying a) a val.second (returned true) h.1 (a, h) (λ x. x))
    | inr e ↦
        subst (λ q. Keeps (retrying a) (retry a q))
          (sym (cas_payload_taken m a (empty_value_sentinel r) val.second e))
          (unchanged t clean val.first (retrying a) (retrying a) h (λ x. x))
  ]
  move-Kept (resetting it i snap found) h =
      let (good, lost) = after-Missed ref cyclic ok nodup t clean val v it i snap found h in
      repaid t clean val.first (resetting it i snap found) (current r it i) (empty_value_sentinel r)
        _ h.taken good (λ x. cc (x, lost))
  move-Kept (returned inserted) h =
      unchanged t clean val.first (returned inserted) (returned inserted) h (λ x. x)
