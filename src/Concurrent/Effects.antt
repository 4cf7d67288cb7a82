-- ===== src/Concurrent/Effects.antt =====
-- What a step of a thread does to the payloads of the slots.
use cu_collections.Common.{
  if_yes, if_not, ℕ, suc, ◌<◌, ◌≡◌, ◌≢◌, refl, ap, sym, ◌∙◌, subst, true, false, ◌⊎◌, inl, inr,
  eq-or-ne, Bool-cases,
}
use cu_collections.Equality.{EqualResult, unequal, equal, empty, available, equal_to}
use cu_collections.OpenAddressing.Cas.{continue, duplicate, store_payload, after_failure}
use cu_collections.OpenAddressing.Defs.{Slot, Memory, write, Ref, empty_value_sentinel, capacity}
use cu_collections.OpenAddressing.Steps.{write_here, write_other}
use cu_collections.OpenAddressing.Table.{is_available}
use cu_collections.Probing.{ProbingIterator}
use cu_collections.Concurrent.Threads.{
  Pc, loading, visiting, storing, exchanging, retrying, resetting, returned, current, after_attempt,
}

module _ (r : Ref) where
  abbrev pub sentinel : ℕ
  sentinel = empty_value_sentinel r

  -- The thread is about to put the sentinel back into the slot `a`.
  abbrev pub Resets : Pc → ℕ → Type 0
  Resets (resetting it i snap found) a = current r it i ≡ a
  Resets _ a = ⊥

  -- The thread is about to store its payload into the slot `a`.
  abbrev pub Stores : Pc → ℕ → Type 0
  Stores (storing b) a = b ≡ a
  Stores _ a = ⊥

  -- The thread has written its key to the slot `a`, and its payload not yet.
  abbrev pub Owns : Pc → ℕ → Type 0
  Owns (storing b) a = b ≡ a
  Owns (exchanging it i snap true found) a = current r it i ≡ a
  Owns (retrying b) a = b ≡ a
  Owns _ a = ⊥

  abbrev pub BackToBack : Type 0
  BackToBack = (r.small_slot ≡ false) × (r.old_arch ≡ false)

  -- Where a thread can stand, by the size of a slot and the architecture.
  abbrev pub Mode : Pc → Type 0
  Mode (storing b) = r.old_arch ≡ true
  Mode (exchanging it i snap swapped found) = BackToBack
  Mode (retrying b) = BackToBack
  Mode (resetting it i snap found) = BackToBack
  Mode _ = Unit

  -- The thread holds no slot, and has not inserted.
  pub record Quiet (p : Pc) : Type 0 where
    pub no_reset : (a : ℕ) → Resets p a → ⊥
    pub no_own : (a : ℕ) → Owns p a → ⊥
    pub not_done : p ≢ returned true
    pub mode : Mode p

  -- A step from `m` and `p` to `q`.
  pub record Effect (m : Memory) (val : Slot) (p : Pc) (q : Memory × Pc) : Type 0 where
    pub payload :
        (a : ℕ)
        → is_available r (m a) ≡ false
        → ((q.0 a).second ≡ (m a).second) ⊎ ((m a).second ≡ sentinel) ⊎ Resets p a ⊎ Stores p a
    pub reset : (a : ℕ) → Resets q.1 a → ((m a).second ≡ sentinel) × ((q.0 a).second ≡ val.second)
    pub own : (a : ℕ) → Owns q.1 a → (q.0 a).first ≡ val.first
    pub mode : Mode q.1
    pub done :
        q.1 ≡ returned true
        → ((p ≡ returned true) × (q.0 ≡ m))
          ⊎ ((a : ℕ) × (a < capacity r)
              × (q.0 a ≡ val)
              × ((is_available r (m a) ≡ true) ⊎ ((m a).second ≡ sentinel) ⊎ Stores p a))

  pub Quiet-visiting : (it : ProbingIterator) (i : ℕ) (snap : Memory) → Quiet (visiting it i snap)
  Quiet-visiting it i snap = record {
    no_reset = λ a h. h;
    no_own = λ a h. h;
    not_done = λ e. absurd (cc (e));
    mode = tt;
  }

  pub Quiet-loading : (it : ProbingIterator) (i : ℕ) (snap : Memory) → Quiet (loading it i snap)
  Quiet-loading it i snap = record {
    no_reset = λ a h. h;
    no_own = λ a h. h;
    not_done = λ e. absurd (cc (e));
    mode = tt;
  }

  pub Quiet-returned : Quiet (returned false)
  Quiet-returned = record {
    no_reset = λ a h. h;
    no_own = λ a h. h;
    not_done = λ e. absurd (cc (e));
    mode = tt;
  }

  pub Quiet-failure :
      (it : ProbingIterator) (i : ℕ) (snap : Memory) (key found : ℕ)
      → Quiet (after_attempt r it i snap (after_failure r key found))
  unfolding after_failure after_attempt
  Quiet-failure it i snap key found = by_test (equal_to r.predicate key found)
    where
      by_test :
          (e : EqualResult)
          → Quiet (after_attempt r it i snap (elim e [ equal ↦ duplicate | _ ↦ continue ]))
      by_test equal = elim (Bool-cases r.allows_duplicates) [
        | inl e ↦ subst Quiet (sym (if_yes _ _ e)) (Quiet-visiting it (suc i) snap)
        | inr e ↦ subst Quiet (sym (if_not _ _ e)) Quiet-returned
      ]
      by_test unequal = Quiet-visiting it (suc i) snap
      by_test empty = Quiet-visiting it (suc i) snap
      by_test available = Quiet-visiting it (suc i) snap

  module _ (m : Memory) (val : Slot) (p : Pc) where
    -- The memory stays, and the thread holds no slot.
    pub quietly : (p' : Pc) → Quiet p' → Effect m val p (m, p')
    quietly p' h = record {
      payload = λ a filled. inl refl;
      reset = λ a e. absurd (h.no_reset a e);
      own = λ a e. absurd (h.no_own a e);
      mode = h.mode;
      done = λ e. absurd (h.not_done e);
    }

    -- The memory stays, and the thread may hold the slot that it has held.
    pub waits :
        (p' : Pc)
        → ((b : ℕ) → Resets p' b → ⊥)
        → ((b : ℕ) → Owns p' b → (m b).first ≡ val.first)
        → Mode p'
        → p' ≢ returned true
        → Effect m val p (m, p')
    waits p' no_reset own mode not_done = record {
      payload = λ a filled. inl refl;
      reset = λ a e. absurd (no_reset a e);
      own = own;
      mode = mode;
      done = λ e. absurd (not_done e);
    }

    -- A free slot takes the key, and perhaps the payload.
    pub claimed :
        (a : ℕ) (s : Slot) (p' : Pc)
        → is_available r (m a) ≡ true
        → ((b : ℕ) → Resets p' b → ⊥)
        → ((b : ℕ) → Owns p' b → (a ≡ b) × (s.first ≡ val.first))
        → Mode p'
        → (p' ≡ returned true → (a < capacity r) × (s ≡ val))
        → Effect m val p (write m a s, p')
    claimed a s p' free no_reset own mode done = record {
      payload = λ b filled. inl (
          ap (λ (s : Slot). s.second)
            (write_other m a b s
              (λ e. cc (free, subst (λ b. is_available r (m b) ≡ false) e filled))));
      reset = λ b e. absurd (no_reset b e);
      own = λ b e. ap (λ (s : Slot). s.first) (write_here m a b s (sym (own b e).0)) ∙ (own b e).1;
      mode = mode;
      done = λ e. inr (a, (done e).0, write_here m a a s refl ∙ (done e).1, inl free);
    }

    -- The payload of a slot changes that has the sentinel, or that the thread may write to.
    pub repaid :
        (a v : ℕ) (p' : Pc)
        → ((m a).second ≡ sentinel) ⊎ Resets p a ⊎ Stores p a
        → ((b : ℕ) → Resets p' b → (a ≡ b) × ((m a).second ≡ sentinel) × (v ≡ val.second))
        → ((b : ℕ) → Owns p' b → ⊥)
        → Mode p'
        → (p' ≡ returned true
            → (a < capacity r)
              × ((m a).first ≡ val.first)
              × (v ≡ val.second)
              × (((m a).second ≡ sentinel) ⊎ Stores p a))
        → Effect m val p (store_payload m a v, p')
    unfolding store_payload
    repaid a v p' may reset own mode done = record {
      payload = λ b filled. elim (eq-or-ne b a) [
        | inl e ↦ inr (subst (λ b. ((m b).second ≡ sentinel) ⊎ Resets p b ⊎ Stores p b) (sym e) may)
        | inr ne ↦ inl (ap (λ (s : Slot). s.second) (write_other m a b _ ne))
      ];
      reset = λ b e.
          let (same, free, paid) = reset b e in
          (
            ap (λ b. (m b).second) (sym same) ∙ free,
            ap (λ (s : Slot). s.second) (write_here m a b _ (sym same)) ∙ paid,
          );
      own = λ b e. absurd (own b e);
      mode = mode;
      done = λ e.
          let (lt, key, paid, had) = done e in
          inr (a, lt, write_here m a a _ refl ∙ rw (key, paid) refl, inr had);
    }
