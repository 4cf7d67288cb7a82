-- ===== src/Concurrent/Claim.antt =====
-- A thread that takes the free slot that it has come to.
use cu_collections.Common.{
  ℕ, ◌+◌, ◌<◌, ◌≡◌, ◌≢◌, refl, sym, ◌∙◌, subst, arith, true, false, ◌==◌, ==_iff, ==_self, List, [],
  ◌∷◌, ◌++◌, All-In, All-map, In, In-middle, First, first, compare_parts, inl, inr,
}
use cu_collections.OpenAddressing.Cover.{IsCyclic, path_covers}
use cu_collections.OpenAddressing.Defs.{Slot, Memory, write, Ref, capacity}
use cu_collections.OpenAddressing.InsertLaws.{NoneErased}
use cu_collections.OpenAddressing.Path.{path}
use cu_collections.OpenAddressing.Reach.{IsRef, Split-le, path-lt-capacity}
use cu_collections.OpenAddressing.Steps.{write_other}
use cu_collections.OpenAddressing.Table.{
  IsKeyEqual, IsValidKey, is_available, IsTable, Chain, Passed, Present, Chain-for,
}
use cu_collections.OpenAddressing.Writes.{write-IsTable}
use cu_collections.Concurrent.Threads.{current}
use cu_collections.Concurrent.Walk.{Settled, Reached, Walk, Walk-In}
use cu_collections.Probing.{ProbingIterator}

-- Two splits of a list at first occurrences of an item are one.
first_unique :
    (a : ℕ) (xs ys us vs : List ℕ) → ¬ In a xs → ¬ In a us → xs ++ a ∷ ys ≡ us ++ a ∷ vs → xs ≡ us
first_unique a [] ys [] vs p q e = refl
first_unique a [] ys (u ∷ us) vs p q e = absurd (q (inl (cc)))
first_unique a (x ∷ xs) ys [] vs p q e = absurd (p (inl (cc)))
first_unique a (x ∷ xs) ys (u ∷ us) vs p q e =
    let rest = first_unique a xs ys us vs (λ i. p (inr i)) (λ i. q (inr i)) (cc) in cc

pub Reached-inside :
    {r : Ref} {m : Memory} {key a : ℕ} → IsRef r → Reached r m key a → a < capacity r
Reached-inside {r} {m} {key} {a} ref w =
    All-In (λ a. a < capacity r) a (path w.rounds r key) (path-lt-capacity ref w.rounds key)
      (rw w.split.whole (In-middle a w.split.before w.split.after))

pub Walk-inside :
    {r : Ref} {m : Memory} {key : ℕ}
    → IsRef r
    → (it : ProbingIterator) (i : ℕ) → Walk r m key it
    → i < r.window_size
    → current r it i < capacity r
Walk-inside {r} {m} {key} ref it i w lt =
    All-In (λ a. a < capacity r) (current r it i) (path (w.rounds + 1) r key)
      (path-lt-capacity ref (w.rounds + 1) key) (Walk-In w i lt)

module _ {r : Ref} {m : Memory} (ref : IsRef r) (cyclic : IsCyclic r) (ok : IsKeyEqual r)
    (nodup : r.allows_duplicates ≡ false) (t : IsTable r m) (clean : NoneErased r m) (key : ℕ)
    (a : ℕ) (w : Reached r m key a) (free : is_available r (m a) ≡ true) where
  pub inside : a < capacity r
  inside = Reached-inside ref w

  pub is_empty : (m a).first ≡ r.predicate.empty_sentinel
  is_empty = ground (arith, clean a inside)

  not-Settled : Settled r m key a → ⊥
  not-Settled s = cc (s.taken, free)

  not_before : In a w.split.before → ⊥
  not_before i = not-Settled (All-In (Settled r m key) a w.split.before w.settled i)

  -- The key is nowhere in the table.
  pub absent : ¬ Present r m key
  absent (b, h) =
      let c = Chain-for ok t b h in
      let (rest1, e1) =
        Split-le r r.num_windows (r.num_windows + w.rounds) key b (omega arith) c.split in
      let (rest2, e2) =
        Split-le r w.rounds (r.num_windows + w.rounds) key a (omega arith) w.split in
      elim (compare_parts b a c.split.before rest1 w.split.before rest2 (sym e1 ∙ e2)) [
        | inl i ↦ let s = All-In (Settled r m key) b w.split.before w.settled i in cc (s.other, h.2)
        | inr (inl e) ↦ cc (free, subst (λ b. is_available r (m b) ≡ false) e h.1)
        | inr (inr i) ↦ absurd ((All-In (Passed r m key) a c.split.before c.passed i).0 is_empty)
      ]

  first_visit : First (λ x. x == a) (path r.num_windows r key)
  first_visit = elim (first (λ x. x == a) (path r.num_windows r key)) [
    | inr f ↦ f
    | inl none_is ↦
        let here =
          All-In (λ x. (x == a) ≡ false) a (path r.num_windows r key) none_is
            (path_covers r ref cyclic key a inside) in
        absurd (cc (here, ==_self a))
  ]

  same_before : first_visit.split.before ≡ w.split.before
  same_before =
      let f = first_visit in
      let e = (==_iff f.item a).0 f.passes in
      let (rest1, e1) =
        Split-le r r.num_windows (r.num_windows + w.rounds) key f.item (omega arith) f.split in
      let (rest2, e2) =
        Split-le r w.rounds (r.num_windows + w.rounds) key a (omega arith) w.split in
      first_unique a f.split.before rest1 w.split.before rest2
        (λ i.
          let here = All-In (λ x. (x == a) ≡ false) a f.split.before f.before_fails i in
          cc (here, ==_self a))
        not_before
        (subst (λ x. f.split.before ++ x ∷ rest1 ≡ w.split.before ++ a ∷ rest2) e (sym e1 ∙ e2))

  Settled-Passed : (s : Slot) (b : ℕ) → Settled r m key b → Passed r (write m a s) key b
  Settled-Passed s b h =
      let apart : b ≢ a = λ e. not-Settled (subst (Settled r m key) e h) in
      rw (write_other m a b s apart) (ground (arith, h.taken), λ _. h.other)

  claimed : (s : Slot) → Chain r (write m a s) key a
  claimed s =
      let f = first_visit in
      record {
        split = record {
          before = w.split.before;
          after = f.split.after;
          whole =
              subst (λ xs. path r.num_windows r key ≡ xs ++ a ∷ f.split.after) same_before
                (subst (λ x. path r.num_windows r key ≡ f.split.before ++ x ∷ f.split.after)
                  ((==_iff f.item a).0 f.passes) f.split.whole);
        };
        passed =
            All-map (Settled r m key) (Passed r (write m a s) key) (Settled-Passed s) w.split.before
              w.settled;
      }

  -- With the key written there the memory is a table again.
  pub claim-IsTable : (s : Slot) → s.first ≡ key → IsValidKey r key → IsTable r (write m a s)
  claim-IsTable s e v =
      write-IsTable ok t a s (subst (IsValidKey r) (sym e) v)
        (subst (λ k. Chain r (write m a s) k a) (sym e) (claimed s))
        (λ _. subst (λ k. ¬ Present r m k) (sym e) absent)
