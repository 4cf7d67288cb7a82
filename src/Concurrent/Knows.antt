-- ===== src/Concurrent/Knows.antt =====
-- What a thread knows of the memory, by where it stands.
use cu_collections.Common.{ℕ, ◌<◌, ◌≡◌, ◌∙◌, Bool, true, false}
use cu_collections.OpenAddressing.Defs.{Memory, Ref, empty_value_sentinel, capacity}
use cu_collections.OpenAddressing.Table.{is_available, HoldsAt, Present}
use cu_collections.Probing.{ProbingIterator}
use cu_collections.Concurrent.Threads.{
  Pc, loading, visiting, storing, exchanging, retrying, resetting, returned, current,
}
use cu_collections.Concurrent.Walk.{
  Grows, Settled, Settled-Grows, taken-Grows, HoldsAt-Grows, Walk, Walk-Grows,
}

-- A slot as it was loaded: if it was taken it still has its key, and if not it was an empty one.
pub record Loaded (r : Ref) (m snap : Memory) (a : ℕ) : Type 0 where
  pub taken : is_available r (snap a) ≡ false → (m a).first ≡ (snap a).first
  pub free :
      is_available r (snap a) ≡ true
      → ((snap a).first ≡ r.predicate.empty_sentinel) × ((snap a).second ≡ empty_value_sentinel r)

-- In the loop over a window, at the slot `i`.
pub record Looks (r : Ref) (m : Memory) (key : ℕ) (it : ProbingIterator) (i : ℕ) (snap : Memory)
    : Type 0 where
  pub walk : Walk r m key it
  pub here : (j : ℕ) → j < i → Settled r m key (current r it j)
  pub loaded : (j : ℕ) → j < r.window_size → Loaded r m snap (current r it j)

-- After the exchange of the key found another key.
pub record Missed (r : Ref) (m : Memory) (key : ℕ) (it : ProbingIterator) (i : ℕ) (snap : Memory)
    (found : ℕ) : Type 0 where
  pub looks : Looks r m key it i snap
  pub in_window : i < r.window_size
  pub in_storage : current r it i < capacity r
  pub taken : is_available r (m (current r it i)) ≡ false
  pub same : (m (current r it i)).first ≡ found

-- What holds of a thread that inserts `key`, by where it stands.
abbrev pub Good : Ref → Memory → ℕ → Pc → Type 0
Good r m key (loading it i snap) =
    Walk r m key it × ((j : ℕ) → j < i → Loaded r m snap (current r it j))
Good r m key (visiting it i snap) = Looks r m key it i snap
Good r m key (storing a) = HoldsAt r m key a
Good r m key (exchanging it i snap true found) = HoldsAt r m key (current r it i)
Good r m key (exchanging it i snap false found) = Missed r m key it i snap found
Good r m key (retrying a) = HoldsAt r m key a
Good r m key (resetting it i snap found) = Missed r m key it i snap found
Good r m key (returned inserted) = Present r m key

-- The thread has written its key.
abbrev pub has_won : Pc → Bool
has_won (storing a) = true
has_won (exchanging it i snap swapped found) = swapped
has_won (retrying a) = true
has_won (returned inserted) = inserted
has_won _ = false

module _ {r : Ref} {m m' : Memory} (g : Grows r m m') where
  Loaded-Grows : (snap : Memory) (a : ℕ) → Loaded r m snap a → Loaded r m' snap a
  Loaded-Grows snap a l = record {
    taken = λ h. g.kept a (rw (l.taken h) h) ∙ l.taken h;
    free = l.free;
  }

  Looks-Grows :
      (key : ℕ) (it : ProbingIterator) (i : ℕ) (snap : Memory)
      → Looks r m key it i snap
      → Looks r m' key it i snap
  Looks-Grows key it i snap l = record {
    walk = Walk-Grows g l.walk;
    here = λ j lt. Settled-Grows g key (current r it j) (l.here j lt);
    loaded = λ j lt. Loaded-Grows snap (current r it j) (l.loaded j lt);
  }

  Missed-Grows :
      (key : ℕ) (it : ProbingIterator) (i : ℕ) (snap : Memory) (found : ℕ)
      → Missed r m key it i snap found
      → Missed r m' key it i snap found
  Missed-Grows key it i snap found h = record {
    looks = Looks-Grows key it i snap h.looks;
    in_window = h.in_window;
    in_storage = h.in_storage;
    taken = taken-Grows g (current r it i) h.taken;
    same = g.kept (current r it i) h.taken ∙ h.same;
  }

  -- What a thread knows stays true while others write.
  pub Good-Grows : (key : ℕ) (p : Pc) → Good r m key p → Good r m' key p
  Good-Grows key (loading it i snap) h =
      (Walk-Grows g h.0, λ j lt. Loaded-Grows snap (current r it j) (h.1 j lt))
  Good-Grows key (visiting it i snap) h = Looks-Grows key it i snap h
  Good-Grows key (storing a) h = HoldsAt-Grows g key a h
  Good-Grows key (exchanging it i snap true found) h = HoldsAt-Grows g key (current r it i) h
  Good-Grows key (exchanging it i snap false found) h = Missed-Grows key it i snap found h
  Good-Grows key (retrying a) h = HoldsAt-Grows g key a h
  Good-Grows key (resetting it i snap found) h = Missed-Grows key it i snap found h
  Good-Grows key (returned inserted) (a, h) = (a, HoldsAt-Grows g key a h)
