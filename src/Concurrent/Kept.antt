-- ===== src/Concurrent/Kept.antt =====
-- What a step of a thread keeps: the table, and what each thread knows.
use cu_collections.Common.{
  ℕ, ◌≡◌, refl, ap, sym, ◌∙◌, subst, true, false, ◌||◌, ◌==◌, ◌⊎◌, inl, inr, eq-or-ne, All-map,
}
use cu_collections.OpenAddressing.Cas.{store_payload}
use cu_collections.OpenAddressing.Cover.{IsCyclic}
use cu_collections.OpenAddressing.Defs.{Slot, Memory, write, Ref}
use cu_collections.OpenAddressing.InsertLaws.{NoneErased}
use cu_collections.OpenAddressing.Reach.{IsRef}
use cu_collections.OpenAddressing.Steps.{write_here, write_other}
use cu_collections.OpenAddressing.Table.{
  IsKeyEqual, IsValidKey, is_available, IsTable, Chain, Passed, HoldsAt, Present,
}
use cu_collections.OpenAddressing.Writes.{valid-not-available}
use cu_collections.Concurrent.Claim.{inside, absent, claim-IsTable}
use cu_collections.Concurrent.Knows.{Good, has_won, Good-Grows}
use cu_collections.Concurrent.Threads.{Pc}
use cu_collections.Concurrent.Walk.{Grows, Grows-refl, Grows-write, Reached}

-- A step from `m` and `p` to `m'` and `p'`.
pub record Kept (r : Ref) (m : Memory) (key : ℕ) (p : Pc) (m' : Memory) (p' : Pc) : Type 0 where
  pub table : IsTable r m'
  pub clean : NoneErased r m'
  pub grows : Grows r m m'
  pub good : Good r m' key p'
  pub wins : has_won p' ≡ true → (has_won p ≡ true) ⊎ (¬ Present r m key)

-- A memory with the same keys, and the same payloads where a slot is free.
same_keys-IsTable :
    (r : Ref) (m m' : Memory)
    → ((b : ℕ) → (m' b).first ≡ (m b).first)
    → ((b : ℕ) → is_available r (m b) ≡ true → (m' b).second ≡ (m b).second)
    → IsTable r m
    → IsTable r m'
same_keys-IsTable r m m' same idle t = record {
  linked = λ a lt filled.
      let old =
        subst (λ k. (k == r.predicate.empty_sentinel) || (k == r.predicate.erased_sentinel) ≡ false)
          (same a) filled in
      let c = t.linked a lt old in
      subst (λ k. Chain r m' k a) (sym (same a))
        (record {
          split = c.split;
          passed =
              All-map (Passed r m (m a).first) (Passed r m' (m a).first) (λ b h. rw (same b) h)
                c.split.before c.passed;
        });
  valid = λ a lt filled.
      let old =
        subst (λ k. (k == r.predicate.empty_sentinel) || (k == r.predicate.erased_sentinel) ≡ false)
          (same a) filled in
      subst (IsValidKey r) (sym (same a)) (t.valid a lt old);
  idle = λ a lt free.
      let old =
        subst (λ k. (k == r.predicate.empty_sentinel) || (k == r.predicate.erased_sentinel) ≡ true)
          (same a) free in
      idle a old ∙ t.idle a lt old;
}

module _ {r : Ref} {m : Memory} (t : IsTable r m) (clean : NoneErased r m) (key : ℕ) (p : Pc) where
  -- The thread moves on, the memory stays.
  pub unchanged :
      (p' : Pc) → Good r m key p' → (has_won p' ≡ true → has_won p ≡ true) → Kept r m key p m p'
  unchanged p' good won = record {
    table = t;
    clean = clean;
    grows = Grows-refl r m;
    good = good;
    wins = λ h. inl (won h);
  }

  -- The payload of a slot that is taken changes.
  pub repaid :
      (a v : ℕ) (p' : Pc)
      → is_available r (m a) ≡ false
      → Good r m key p'
      → (has_won p' ≡ true → has_won p ≡ true)
      → Kept r m key p (store_payload m a v) p'
  unfolding store_payload
  repaid a v p' taken good won = record {
    table =
        same_keys-IsTable r m (store_payload m a v) same
          (λ b free.
            ap (λ (s : Slot). s.second)
              (write_other m a b _
                (λ e. cc (free, subst (λ b. is_available r (m b) ≡ false) (sym e) taken))))
          t;
    clean = λ b lt h. same b ∙ clean b lt (sym (same b) ∙ h);
    grows = record { kept = λ b h. same b };
    good = Good-Grows (record { kept = λ b h. same b }) key p' good;
    wins = λ h. inl (won h);
  }
    where
      same : (b : ℕ) → (store_payload m a v b).first ≡ (m b).first
      same b = elim (eq-or-ne b a) [
        | inl e ↦ ap (λ (s : Slot). s.first) (write_here m a b _ e) ∙ ap (λ b. (m b).first) (sym e)
        | inr ne ↦ ap (λ (s : Slot). s.first) (write_other m a b _ ne)
      ]

  -- A free slot takes the key.
  pub claims :
      IsRef r
      → IsCyclic r
      → (ok : IsKeyEqual r) → (nodup : r.allows_duplicates ≡ false) → (a : ℕ) (s : Slot) (p' : Pc)
      → s.first ≡ key
      → IsValidKey r key
      → Reached r m key a
      → is_available r (m a) ≡ true
      → (HoldsAt r (write m a s) key a → Good r (write m a s) key p')
      → Kept r m key p (write m a s) p'
  claims ref cyclic ok nodup a s p' e v w free good =
      let here : write m a s a ≡ s = write_here m a a s refl in
      record {
        table = claim-IsTable ref cyclic ok nodup t clean key a w free s e v;
        clean = λ b lt h. elim (eq-or-ne b a) [
          | inl same ↦ absurd (
              v.not_erased (sym e ∙ ap (λ (s : Slot). s.first) (sym (write_here m a b s same)) ∙ h))
          | inr ne ↦
              let other = ap (λ (s : Slot). s.first) (write_other m a b s ne) in
              other ∙ clean b lt (sym other ∙ h)
        ];
        grows = Grows-write r m a s free;
        good = good (
          inside ref cyclic ok nodup t clean key a w free,
          rw here (valid-not-available r s (subst (IsValidKey r) (sym e) v)),
          rw here (rw e (ok.reflexive key)),
        );
        wins = λ h. inr (absent ref cyclic ok nodup t clean key a w free);
      }
