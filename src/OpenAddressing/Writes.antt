-- ===== src/OpenAddressing/Writes.antt =====
-- A slot that is taken, or given up, leaves a table a table.
use cu_collections.Common.{
  ℕ, ◌<◌, ◌≡◌, ◌≢◌, sym, ◌∙◌, subst, true, false, inl, inr, arith, All-map, eq-or-ne, Bool-cases,
}
use cu_collections.OpenAddressing.Defs.{Slot, Memory, write, Ref, erased_slot_sentinel, capacity}
use cu_collections.OpenAddressing.Steps.{write_here, write_other}
use cu_collections.OpenAddressing.Table.{
  IsKeyEqual, IsValidKey, is_available, Passed, Chain, IsTable, Present,
}

-- A slot that a probe passes stays one, if what is written at `a` is passed too.
Passed-write :
    (r : Ref) (m : Memory) (a : ℕ) (s : Slot) (k b : ℕ)
    → (Passed r m k a
        → (s.first ≢ r.predicate.empty_sentinel)
          × (r.allows_duplicates ≡ false → r.predicate.equal_fn k s.first ≡ false))
    → Passed r m k b
    → Passed r (write m a s) k b
Passed-write r m a s k b new p = elim (eq-or-ne b a) [
  | inl e ↦ rw (write_here m a b s e) (new (subst (Passed r m k) e p))
  | inr ne ↦ rw (write_other m a b s ne) p
]

Chain-write :
    (r : Ref) (m : Memory) (a : ℕ) (s : Slot) (k b : ℕ)
    → (Passed r m k a
        → (s.first ≢ r.predicate.empty_sentinel)
          × (r.allows_duplicates ≡ false → r.predicate.equal_fn k s.first ≡ false))
    → Chain r m k b
    → Chain r (write m a s) k b
Chain-write r m a s k b new c = record {
  split = c.split;
  passed =
      All-map (Passed r m k) (Passed r (write m a s) k) (λ x. Passed-write r m a s k x new)
        c.split.before c.passed;
}

pub valid-not-available : (r : Ref) (s : Slot) → IsValidKey r s.first → is_available r s ≡ false
valid-not-available r s v = ground (arith, v.not_empty, v.not_erased)

pub not-equal_of_absent :
    {r : Ref} (m : Memory) (ok : IsKeyEqual r) (k b : ℕ)
    → b < capacity r
    → is_available r (m b) ≡ false
    → ¬ Present r m k
    → r.predicate.equal_fn (m b).first k ≡ false
not-equal_of_absent {r} m ok k b lt filled absent =
    elim (Bool-cases (r.predicate.equal_fn (m b).first k)) [
      | inl e ↦ absurd (absent (b, (lt, filled, ok.symmetric k (m b).first ∙ e)))
      | inr e ↦ e
    ]

module _ {r : Ref} {m : Memory} (ok : IsKeyEqual r) (t : IsTable r m) (a : ℕ) where
  -- Taking a slot for a key that is not there.
  pub write-IsTable :
      (val : Slot)
      → IsValidKey r val.first
      → Chain r (write m a val) val.first a
      → (r.allows_duplicates ≡ false → ¬ Present r m val.first)
      → IsTable r (write m a val)
  write-IsTable val v c absent = record {
    linked = λ b lt filled. elim (eq-or-ne b a) [
      | inl e ↦ rw (write_here m a b val e) (subst (Chain r (write m a val) val.first) (sym e) c)
      | inr ne ↦
          let old = subst (λ s. is_available r s ≡ false) (write_other m a b val ne) filled in
          subst (λ (s : Slot). Chain r (write m a val) s.first b) (sym (write_other m a b val ne))
            (Chain-write r m a val (m b).first b
              (λ p.
                (v.not_empty, λ nodup. not-equal_of_absent m ok val.first b lt old (absent nodup)))
              (t.linked b lt old))
    ];
    valid = λ b lt filled. elim (eq-or-ne b a) [
      | inl e ↦ rw (write_here m a b val e) v
      | inr ne ↦
          let old = subst (λ s. is_available r s ≡ false) (write_other m a b val ne) filled in
          rw (write_other m a b val ne) (t.valid b lt old)
    ];
    idle = λ b lt free. elim (eq-or-ne b a) [
      | inl e ↦
          let new = subst (λ s. is_available r s ≡ true) (write_here m a b val e) free in
          cc (new, valid-not-available r val v)
      | inr ne ↦
          let old = subst (λ s. is_available r s ≡ true) (write_other m a b val ne) free in
          rw (write_other m a b val ne) (t.idle b lt old)
    ];
  }

  -- Giving a slot up: its key becomes the erased sentinel, which is not the empty one.
  pub erase-IsTable :
      r.predicate.erased_sentinel ≢ r.predicate.empty_sentinel
      → IsTable r (write m a (erased_slot_sentinel r))
  unfolding erased_slot_sentinel
  erase-IsTable apart =
      let gone = erased_slot_sentinel r in
      record {
        linked = λ b lt filled. elim (eq-or-ne b a) [
          | inl e ↦
              let new = subst (λ s. is_available r s ≡ false) (write_here m a b gone e) filled in
              absurd (ground arith)
          | inr ne ↦
              let old = subst (λ s. is_available r s ≡ false) (write_other m a b gone ne) filled in
              subst (λ (s : Slot). Chain r (write m a gone) s.first b)
                (sym (write_other m a b gone ne))
                (Chain-write r m a gone (m b).first b
                  (λ p. (apart, λ nodup. (t.valid b lt old).apart)) (t.linked b lt old))
        ];
        valid = λ b lt filled. elim (eq-or-ne b a) [
          | inl e ↦
              let new = subst (λ s. is_available r s ≡ false) (write_here m a b gone e) filled in
              absurd (ground arith)
          | inr ne ↦
              let old = subst (λ s. is_available r s ≡ false) (write_other m a b gone ne) filled in
              rw (write_other m a b gone ne) (t.valid b lt old)
        ];
        idle = λ b lt free. elim (eq-or-ne b a) [
          | inl e ↦ rw (write_here m a b gone e)
          | inr ne ↦
              let old = subst (λ s. is_available r s ≡ true) (write_other m a b gone ne) free in
              rw (write_other m a b gone ne) (t.idle b lt old)
        ];
      }
