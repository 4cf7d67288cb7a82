-- ===== src/Concurrent/Walk.antt =====
-- What a thread knows of the slots that it has passed, while others write.
use cu_collections.Common.{
  ℕ, zero, suc, ◌+◌, ◌<◌, ◌≤◌, ◌≡◌, refl, ap, sym, ◌∙◌, subst, arith, true, false, List, [], ◌∷◌,
  ◌++◌, All, All-append, All-map, Split, In, In-append_left, In-append_right, In-middle, eq-or-ne,
  inl, inr,
}
use mathlib.Core.List.{append_assoc}
use cu_collections.OpenAddressing.Defs.{Slot, Memory, write, Ref, slot_address, probe}
use cu_collections.OpenAddressing.Path.{addresses, path_from, path}
use cu_collections.OpenAddressing.Steps.{write_other}
use cu_collections.OpenAddressing.Table.{is_available, HoldsAt}
use cu_collections.Probing.{ProbingIterator, advance}
use cu_collections.Concurrent.Threads.{current}

-- A slot that is taken keeps its key.
pub record Grows (r : Ref) (m m' : Memory) : Type 0 where
  pub kept : (b : ℕ) → is_available r (m b) ≡ false → (m' b).first ≡ (m b).first

-- The slot is taken by a key that is not equal to `k`.
pub record Settled (r : Ref) (m : Memory) (k b : ℕ) : Type 0 where
  pub taken : is_available r (m b) ≡ false
  pub other : r.predicate.equal_fn k (m b).first ≡ false

pub Grows-refl : (r : Ref) (m : Memory) → Grows r m m
Grows-refl r m = record { kept = λ b h. refl }

module _ {r : Ref} {m m' : Memory} (g : Grows r m m') where
  pub taken-Grows : (b : ℕ) → is_available r (m b) ≡ false → is_available r (m' b) ≡ false
  taken-Grows b h = rw (g.kept b h) h

  pub Settled-Grows : (k b : ℕ) → Settled r m k b → Settled r m' k b
  Settled-Grows k b s = record {
    taken = taken-Grows b s.taken;
    other = rw (g.kept b s.taken) s.other;
  }

  pub HoldsAt-Grows : (k b : ℕ) → HoldsAt r m k b → HoldsAt r m' k b
  HoldsAt-Grows k b (lt, taken, same) = (lt, taken-Grows b taken, rw (g.kept b taken) same)

pub Grows-write :
    (r : Ref) (m : Memory) (a : ℕ) (s : Slot)
    → is_available r (m a) ≡ true
    → Grows r m (write m a s)
Grows-write r m a s free = record {
  kept = λ b taken.
      ap (λ (s : Slot). s.first)
        (write_other m a b s (λ e. cc (free, subst (λ b. is_available r (m b) ≡ false) e taken)));
}

-- A thread at `it` has passed the slots of the rounds before.
pub record Walk (r : Ref) (m : Memory) (key : ℕ) (it : ProbingIterator) : Type 0 where
  pub rounds : ℕ
  pub passed : List ℕ
  pub whole : (n : ℕ) → path (rounds + n) r key ≡ passed ++ path_from n r it
  pub settled : All (Settled r m key) passed

pub Walk-start : (r : Ref) (m : Memory) (key : ℕ) → Walk r m key (probe r key)
unfolding path
Walk-start r m key = record {
  rounds = 0;
  passed = [];
  whole = λ n. ap (λ n. path n r key) (omega arith);
  settled = tt;
}

pub Walk-Grows :
    {r : Ref} {m m' : Memory} {key : ℕ} {it : ProbingIterator}
    → Grows r m m'
    → Walk r m key it
    → Walk r m' key it
Walk-Grows {r} {m} {m'} {key} g w = record {
  rounds = w.rounds;
  passed = w.passed;
  whole = w.whole;
  settled = All-map (Settled r m key) (Settled r m' key) (Settled-Grows g key) w.passed w.settled;
}

All-addresses :
    (r : Ref) (P : ℕ → Type 0) (window n i : ℕ)
    → ((j : ℕ) → i ≤ j → j < i + n → P (slot_address r window j))
    → All P (addresses r window n i)
unfolding addresses
All-addresses r P window zero i h = tt
All-addresses r P window (suc n) i h = (
  h i (omega arith) (omega arith),
  All-addresses r P window n (suc i) (λ j le lt. h j (omega (arith, le)) (omega (arith, lt))),
)

pub Walk-advance :
    {r : Ref} {m : Memory} {key : ℕ} {it : ProbingIterator}
    → Walk r m key it
    → ((j : ℕ) → j < r.window_size → Settled r m key (current r it j))
    → Walk r m key (advance r.size_bits it)
unfolding path_from
Walk-advance {r} {m} {key} {it} w here =
    let window = addresses r it.curr_index r.window_size 0 in
    record {
      rounds = suc w.rounds;
      passed = w.passed ++ window;
      whole = λ n.
          ap (λ n. path n r key) (omega arith)
          ∙ w.whole (suc n)
          ∙ sym (append_assoc w.passed window (path_from n r (advance r.size_bits it)));
      settled = All-append (Settled r m key) w.passed window w.settled (
          All-addresses r (Settled r m key) it.curr_index r.window_size 0
            (λ j le lt. here j (omega (arith, lt))));
    }

addresses_split :
    (r : Ref) (P : ℕ → Type 0) (window n i j : ℕ)
    → i ≤ j
    → j < i + n
    → ((k : ℕ) → k < j → P (slot_address r window k))
    → (s : Split (addresses r window n i) (slot_address r window j)) × All P s.before
unfolding addresses
addresses_split r P window zero i j from below h = absurd (omega arith)
addresses_split r P window (suc n) i j from below h = elim (eq-or-ne i j) [
  | inl e ↦ (
    record {
      before = [];
      after = addresses r window n (suc i);
      whole = ap (λ k. slot_address r window k ∷ addresses r window n (suc i)) e;
    },
    tt,
  )
  | inr ne ↦
      let (s, p) =
        addresses_split r P window n (suc i) j (omega (arith, from, ne)) (omega (arith, below)) h in
      (
        record {
          before = slot_address r window i ∷ s.before;
          after = s.after;
          whole = ap (λ xs. slot_address r window i ∷ xs) s.whole;
        },
        (h i (omega (arith, from, ne)), p),
      )
]

-- A thread has come to the slot `a`, past settled ones.
pub record Reached (r : Ref) (m : Memory) (key a : ℕ) : Type 0 where
  pub rounds : ℕ
  pub split : Split (path rounds r key) a
  pub settled : All (Settled r m key) split.before

pub Walk-Reached :
    {r : Ref} {m : Memory} {key : ℕ} {it : ProbingIterator}
    → Walk r m key it
    → (i : ℕ) → i < r.window_size
    → ((j : ℕ) → j < i → Settled r m key (current r it j))
    → Reached r m key (current r it i)
unfolding path_from
Walk-Reached {r} {m} {key} {it} w i lt here =
    let (s, p) =
      addresses_split r (Settled r m key) it.curr_index r.window_size 0 i (omega arith)
        (omega (arith, lt)) here in
    record {
      rounds = w.rounds + 1;
      split = record {
        before = w.passed ++ s.before;
        after = s.after ++ [];
        whole =
            w.whole 1
            ∙ ap (λ xs. w.passed ++ (xs ++ [])) s.whole
            ∙ ap (λ xs. w.passed ++ xs) (append_assoc s.before (current r it i ∷ s.after) [])
            ∙ sym (append_assoc w.passed s.before (current r it i ∷ s.after ++ []));
      };
      settled = All-append (Settled r m key) w.passed s.before w.settled p;
    }

-- The slots of its window are on its path.
pub Walk-In :
    {r : Ref} {m : Memory} {key : ℕ} {it : ProbingIterator}
    → (w : Walk r m key it) → (i : ℕ) → i < r.window_size
    → In (current r it i) (path (w.rounds + 1) r key)
unfolding path_from
Walk-In {r} {m} {key} {it} w i lt =
    let a = current r it i in
    let (s, _) =
      addresses_split r (λ _. Unit {0}) it.curr_index r.window_size 0 i (omega arith)
        (omega (arith, lt)) (λ k h. tt) in
    rw (w.whole 1) (
      In-append_right a w.passed (addresses r it.curr_index r.window_size 0 ++ []) (
        In-append_left a (addresses r it.curr_index r.window_size 0) []
          (rw s.whole (In-middle a s.before s.after))))
