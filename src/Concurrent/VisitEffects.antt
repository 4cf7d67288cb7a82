-- ===== src/Concurrent/VisitEffects.antt =====
-- What the visit of a slot does to the payloads.
use cu_collections.Common.{
  if_yes, if_not, ℕ, suc, ◌<◌, ◌≡◌, refl, sym, subst, arith, true, false, ◌||◌, ◌==◌, ==_iff, inl,
  inr, Bool-cases,
}
use cu_collections.Equality.{EqualResult, unequal, equal, empty, available, inserting, compare_key}
use cu_collections.OpenAddressing.Cas.{success, cas_key, after_failure, packed_cas}
use cu_collections.OpenAddressing.Defs.{Slot, Memory, write, same_slot, Ref, capacity}
use cu_collections.OpenAddressing.Table.{is_available}
use cu_collections.Probing.{ProbingIterator}
use cu_collections.Concurrent.Exchanges.{
  seen_available, begin_packed, begin_key, after_key, with_key,
}
use cu_collections.Concurrent.Threads.{
  Pc, visiting, storing, exchanging, returned, current, after_attempt, begin_attempt, visit_slot,
}
use cu_collections.Concurrent.Effects.{
  Effect, Quiet-visiting, Quiet-returned, Quiet-failure, quietly, waits, claimed,
}

module _ (r : Ref) (m : Memory) (val : Slot) where
  -- The step of a thread at `p` that leads to `q`.
  abbrev pub Does : Pc → Memory × Pc → Type 0
  Does p q = Effect r m val p q

  packed_same :
      (a : ℕ) (s : Slot)
      → same_slot (m a) s ≡ true
      → packed_cas r m a s val ≡ (success, write m a val)
  unfolding packed_cas
  packed_same a s e = if_yes _ _ e

  packed_differs :
      (a : ℕ) (s : Slot)
      → same_slot (m a) s ≡ false
      → packed_cas r m a s val ≡ (after_failure r val.first (m a).first, m)
  unfolding packed_cas
  packed_differs a s e = if_not _ _ e

  still_free :
      (a : ℕ) (s : Slot)
      → same_slot (m a) s ≡ true
      → is_available r s ≡ true
      → is_available r (m a) ≡ true
  unfolding same_slot
  still_free a s e free = ground arith

  begin-packed :
      (it : ProbingIterator) (i : ℕ) (snap : Memory)
      → current r it i < capacity r
      → is_available r (snap (current r it i)) ≡ true
      → r.small_slot ≡ true
      → Does (visiting it i snap) (begin_attempt r val m it i snap)
  unfolding after_attempt
  begin-packed it i snap lt free small = elim (Bool-cases (same_slot (m a) (snap a))) [
    | inl e ↦
        subst (Does (visiting it i snap))
          (sym (
            begin_packed r val m it i snap success (write m a val) small
              (packed_same a (snap a) e)))
          (claimed r m val (visiting it i snap) a val (returned true) (still_free a (snap a) e free)
            (λ b h. h) (λ b h. absurd h) tt (λ e. (lt, refl)))
    | inr e ↦
        subst (Does (visiting it i snap))
          (sym (begin_packed r val m it i snap _ m small (packed_differs a (snap a) e)))
          (quietly r m val (visiting it i snap) _ (Quiet-failure r it i snap val.first (m a).first))
  ]
    where
      a : ℕ
      a = current r it i

  begin-key :
      (it : ProbingIterator) (i : ℕ) (snap : Memory)
      → current r it i < capacity r
      → is_available r (snap (current r it i)) ≡ true
      → r.small_slot ≡ false
      → Does (visiting it i snap) (begin_attempt r val m it i snap)
  unfolding cas_key
  begin-key it i snap lt free large = elim (Bool-cases ((m a).first == (snap a).first)) [
    | inl e ↦
        subst (Does (visiting it i snap))
          (sym (begin_key r val m it i snap true (m a).first (write m a s) large (if_yes _ _ e)))
          (by_mode_won (
            subst
              (λ k. (k == r.predicate.empty_sentinel) || (k == r.predicate.erased_sentinel) ≡ true)
              (sym ((==_iff _ _).0 e)) free))
    | inr e ↦
        subst (Does (visiting it i snap))
          (sym (begin_key r val m it i snap false (m a).first m large (if_not _ _ e))) by_mode_lost
  ]
    where
      a : ℕ
      a = current r it i

      s : Slot
      s = with_key (m a) val.first

      by_mode_won :
          is_available r (m a) ≡ true
          → Does (visiting it i snap) (write m a s, after_key r val m it i snap true (m a).first)
      by_mode_won here = elim (Bool-cases r.old_arch) [
        | inl e ↦
            subst (λ q. Does (visiting it i snap) (write m a s, q)) (sym (if_yes _ _ e))
              (claimed r m val (visiting it i snap) a s (storing a) here (λ b h. h)
                (λ b h. (h, refl)) e (λ e. absurd (cc (e))))
        | inr e ↦
            subst (λ q. Does (visiting it i snap) (write m a s, q)) (sym (if_not _ _ e))
              (claimed r m val (visiting it i snap) a s (exchanging it i snap true (m a).first) here
                (λ b h. h) (λ b h. (h, refl)) (large, e) (λ e. absurd (cc (e))))
      ]

      by_mode_lost : Does (visiting it i snap) (m, after_key r val m it i snap false (m a).first)
      by_mode_lost = elim (Bool-cases r.old_arch) [
        | inl e ↦
            subst (λ q. Does (visiting it i snap) (m, q)) (sym (if_yes _ _ e))
              (quietly r m val (visiting it i snap) _
                (Quiet-failure r it i snap val.first (m a).first))
        | inr e ↦
            subst (λ q. Does (visiting it i snap) (m, q)) (sym (if_not _ _ e))
              (waits r m val (visiting it i snap) (exchanging it i snap false (m a).first)
                (λ b h. h) (λ b h. absurd h) (large, e) (λ e. absurd (cc (e))))
      ]

  pub visit-Effect :
      (it : ProbingIterator) (i : ℕ) (snap : Memory)
      → current r it i < capacity r
      → Does (visiting it i snap) (visit_slot r val m it i snap)
  unfolding visit_slot
  visit-Effect it i snap lt = by_seen _ refl
    where
      a : ℕ
      a = current r it i

      p : Pc
      p = visiting it i snap

      by_seen :
          (c : EqualResult)
          → compare_key inserting r.predicate val.first (snap a).first ≡ c
          → Does p (visit_slot r val m it i snap)
      by_seen available e =
          let free = seen_available r val.first (snap a) e in
          rw (e, visit_slot)
            (elim (Bool-cases r.small_slot) [
              | inl small ↦ begin-packed it i snap lt free small
              | inr large ↦ begin-key it i snap lt free large
            ])
      by_seen empty e = rw (e, visit_slot) (quietly r m val p _ (Quiet-visiting r it (suc i) snap))
      by_seen unequal e =
          rw (e, visit_slot) (quietly r m val p _ (Quiet-visiting r it (suc i) snap))
      by_seen equal e =
          rw (e, visit_slot)
            (elim (Bool-cases r.allows_duplicates) [
              | inl many ↦
                  subst (λ q. Does p (m, q)) (sym (if_yes _ _ many))
                    (quietly r m val p _ (Quiet-visiting r it (suc i) snap))
              | inr one ↦
                  subst (λ q. Does p (m, q)) (sym (if_not _ _ one))
                    (quietly r m val p _ (Quiet-returned r))
            ])
