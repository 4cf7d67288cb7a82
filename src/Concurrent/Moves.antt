-- ===== src/Concurrent/Moves.antt =====
-- What `attempt_insert` of a thread keeps.
use cu_collections.Common.{
  if_yes, if_not, ℕ, suc, ◌<◌, ◌≡◌, ◌≢◌, refl, ap, sym, ◌∙◌, subst, arith, true, false, inl, inr,
  eq-or-ne, Bool-cases,
}
use cu_collections.Equality.{available, inserting, compare_key}
use cu_collections.OpenAddressing.Cas.{success, after_failure}
use cu_collections.OpenAddressing.Cover.{IsCyclic}
use cu_collections.OpenAddressing.Defs.{Slot, Memory, write, Ref, empty_value_sentinel}
use cu_collections.OpenAddressing.InsertLaws.{NoneErased}
use cu_collections.OpenAddressing.Reach.{IsRef}
use cu_collections.OpenAddressing.Table.{IsKeyEqual, IsValidKey, is_available, IsTable, HoldsAt}
use cu_collections.Probing.{ProbingIterator}
use cu_collections.Concurrent.Claim.{Reached-inside, inside, is_empty}
use cu_collections.Concurrent.Knows.{Looks, Missed, Good, has_won}
use cu_collections.Concurrent.Threads.{
  Pc, visiting, storing, exchanging, returned, current, after_attempt, begin_attempt,
}
use cu_collections.Concurrent.Walk.{Settled, Reached, Walk-Reached}
use cu_collections.Concurrent.Kept.{Kept, unchanged, claims}
use cu_collections.Concurrent.Exchanges.{
  begin_packed, begin_key, failure_equal, failure_other, packed_free, packed_taken, with_key,
  cas_key_free, cas_key_taken, seen_available,
}

module _ {r : Ref} {m : Memory} (ref : IsRef r) (cyclic : IsCyclic r) (ok : IsKeyEqual r)
    (nodup : r.allows_duplicates ≡ false) (t : IsTable r m) (clean : NoneErased r m) (val : Slot)
    (v : IsValidKey r val.first) where
  abbrev pub Keeps : Pc → Memory × Pc → Type 0
  Keeps p q = Kept r m val.first p q.0 q.1

  -- the next slot, past one that is settled
  pub Looks-on :
      (it : ProbingIterator) (i : ℕ) (snap : Memory)
      → Looks r m val.first it i snap
      → Settled r m val.first (current r it i)
      → Looks r m val.first it (suc i) snap
  Looks-on it i snap l s = record {
    walk = l.walk;
    here = λ j lt. elim (eq-or-ne j i) [
      | inl e ↦ subst (λ j. Settled r m val.first (current r it j)) (sym e) s
      | inr ne ↦ l.here j (omega (arith, lt, ne))
    ];
    loaded = l.loaded;
  }

  pub after-Missed :
      (it : ProbingIterator) (i : ℕ) (snap : Memory) (found : ℕ)
      → Missed r m val.first it i snap found
      → Good r m val.first (after_attempt r it i snap (after_failure r val.first found))
        × (has_won (after_attempt r it i snap (after_failure r val.first found)) ≡ false)
  unfolding after_attempt
  after-Missed it i snap found h = elim (Bool-cases (r.predicate.equal_fn val.first found)) [
    | inl e ↦
        let stop = failure_equal r val.first found e in
        let done =
          if_not {b = r.allows_duplicates} (visiting it (suc i) snap) (returned false) nodup in
        rw stop (
          rw done (
            (
              current r it i,
              (h.in_storage, h.taken, ap (r.predicate.equal_fn val.first) h.same ∙ e),
            ),
            refl,
          ))
    | inr e ↦ rw (failure_other r val.first found e) (
      Looks-on it i snap h.looks
          (record { taken = h.taken; other = ap (r.predicate.equal_fn val.first) h.same ∙ e }),
      refl,
    )
  ]

  abbrev pub Coming : ProbingIterator → ℕ → Memory → Type 0
  Coming it i snap =
      Looks r m val.first it i snap
      × (i < r.window_size)
      × (compare_key inserting r.predicate val.first (snap (current r it i)).first ≡ available)

  reached :
      (it : ProbingIterator) (i : ℕ) (snap : Memory)
      → Looks r m val.first it i snap
      → i < r.window_size
      → Reached r m val.first (current r it i)
  reached it i snap l lt = Walk-Reached l.walk i lt l.here

  -- `attempt_insert` at a slot that is free
  pub begin_free :
      (it : ProbingIterator) (i : ℕ) (snap : Memory)
      → Coming it i snap
      → is_available r (m (current r it i)) ≡ true
      → Keeps (visiting it i snap) (begin_attempt r val m it i snap)
  unfolding after_attempt
  begin_free it i snap (l, lt, seen) free = elim (Bool-cases r.small_slot) [
    | inl e ↦
        subst (Keeps (visiting it i snap))
          (sym (
            begin_packed r val m it i snap success (write m a val) e
              (packed_free r m a (snap a) val first_same second_same)))
          (claim val (returned true) refl (λ h. (a, h)))
    | inr e ↦
        subst (Keeps (visiting it i snap))
          (sym (
            begin_key r val m it i snap true (m a).first (write m a taken) e
              (cas_key_free m a (snap a).first val.first first_same)))
          (elim (Bool-cases r.old_arch) [
            | inl o ↦
                subst (λ p. Kept r m val.first (visiting it i snap) (write m a taken) p)
                  (sym (if_yes (storing a) (exchanging it i snap true (m a).first) o))
                  (claim taken (storing a) refl (λ h. h))
            | inr o ↦
                subst (λ p. Kept r m val.first (visiting it i snap) (write m a taken) p)
                  (sym (if_not (storing a) (exchanging it i snap true (m a).first) o))
                  (claim taken (exchanging it i snap true (m a).first) refl (λ h. h))
          ])
  ]
    where
      a : ℕ
      a = current r it i

      taken : Slot
      taken = with_key (m a) val.first

      w : Reached r m val.first a
      w = reached it i snap l lt

      old :
          ((snap a).first ≡ r.predicate.empty_sentinel) × ((snap a).second ≡ empty_value_sentinel r)
      old = (l.loaded i lt).free (seen_available r val.first (snap a) seen)

      first_same : (m a).first ≡ (snap a).first
      first_same = is_empty ref cyclic ok nodup t clean val.first a w free ∙ sym old.0

      second_same : (m a).second ≡ (snap a).second
      second_same =
          t.idle a (inside ref cyclic ok nodup t clean val.first a w free) free ∙ sym old.1

      claim :
          (s : Slot) (p' : Pc)
          → s.first ≡ val.first
          → (HoldsAt r (write m a s) val.first a → Good r (write m a s) val.first p')
          → Kept r m val.first (visiting it i snap) (write m a s) p'
      claim s p' e good =
          claims t clean val.first (visiting it i snap) ref cyclic ok nodup a s p' e v w free good

  pub missed :
      (it : ProbingIterator) (i : ℕ) (snap : Memory)
      → Coming it i snap
      → is_available r (m (current r it i)) ≡ false
      → Missed r m val.first it i snap (m (current r it i)).first
  missed it i snap (l, lt, seen) taken = record {
    looks = l;
    in_window = lt;
    in_storage = Reached-inside ref (reached it i snap l lt);
    taken = taken;
    same = refl;
  }

  -- `attempt_insert` at a slot that another thread has taken since it was loaded
  pub begin_taken :
      (it : ProbingIterator) (i : ℕ) (snap : Memory)
      → Coming it i snap
      → is_available r (m (current r it i)) ≡ false
      → Keeps (visiting it i snap) (begin_attempt r val m it i snap)
  begin_taken it i snap (l, lt, seen) taken = elim (Bool-cases r.small_slot) [
    | inl e ↦
        subst (Keeps (visiting it i snap))
          (sym (
            begin_packed r val m it i snap (after_failure r val.first (m a).first) m e
              (packed_taken r m a (snap a) val other)))
          failed
    | inr e ↦
        subst (Keeps (visiting it i snap))
          (sym (
            begin_key r val m it i snap false (m a).first m e
              (cas_key_taken m a (snap a).first val.first other)))
          (elim (Bool-cases r.old_arch) [
            | inl o ↦
                subst (λ p. Kept r m val.first (visiting it i snap) m p)
                  (sym (if_yes next_pc (exchanging it i snap false (m a).first) o)) failed
            | inr o ↦
                subst (λ p. Kept r m val.first (visiting it i snap) m p)
                  (sym (if_not next_pc (exchanging it i snap false (m a).first) o))
                  (unchanged t clean val.first (visiting it i snap)
                    (exchanging it i snap false (m a).first) miss (λ h. h))
          ])
  ]
    where
      a : ℕ
      a = current r it i

      miss : Missed r m val.first it i snap (m a).first
      miss = missed it i snap (l, lt, seen) taken

      other : (m a).first ≢ (snap a).first
      other e =
          let old = (l.loaded i lt).free (seen_available r val.first (snap a) seen) in
          ground (arith, e, old.0, taken)

      next_pc : Pc
      next_pc = after_attempt r it i snap (after_failure r val.first (m a).first)

      failed : Kept r m val.first (visiting it i snap) m next_pc
      failed =
          let (good, lost) = after-Missed it i snap (m a).first miss in
          unchanged t clean val.first (visiting it i snap) next_pc good (λ h. cc (h, lost))
