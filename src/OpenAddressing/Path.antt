-- ===== src/OpenAddressing/Path.antt =====
-- The slots that a probe visits, in order, and the loops of an operation as one pass over them.
use mathlib.Core.Path.{fun_ext}
use cu_collections.Common.{
  ℕ, zero, suc, ◌≡◌, refl, ap, sym, ◌∙◌, Option, none, some, List, [], ◌∷◌, ◌++◌, All,
}
use cu_collections.Probing.{ProbingIterator, advance}
use cu_collections.OpenAddressing.Defs.{Memory, Ref, slot_address, probe}
use cu_collections.OpenAddressing.Loop.{return, next, Outcome, ◌then_on◌, for_slots, probe_loop}

-- the slots `i, ..., i + n - 1` of a window
unfoldable pub addresses : Ref → ℕ → ℕ → ℕ → List ℕ
addresses r window zero i = []
addresses r window (suc n) i = slot_address r window i ∷ addresses r window n (suc i)

-- the slots of the next `fuel` windows
unfoldable pub path_from : ℕ → Ref → ProbingIterator → List ℕ
path_from zero r it = []
path_from (suc fuel) r it =
    addresses r it.curr_index r.window_size 0 ++ path_from fuel r (advance r.size_bits it)

-- the slots that a probe for `key` visits in `fuel` rounds
unfoldable pub path : ℕ → Ref → ℕ → List ℕ
path fuel r key = path_from fuel r (probe r key)

module _ {ℓ κ} {R : Type ℓ} {S : Type κ} where
  unfoldable pub scan : (ℕ → S → Outcome R S) → List ℕ → S → Outcome R S
  scan visit [] s = some (next, s)
  scan visit (a ∷ rest) s = visit a s then_on λ t. scan visit rest t

  -- a pass that falls through has no result
  abbrev pub result : Outcome R S → Option (R × S)
  result none = none
  result (some (return r, s)) = some (r, s)
  result (some (next, s)) = none

  then_on_assoc :
      (o : Outcome R S) (f g : S → Outcome R S)
      → ((o then_on f) then_on g) ≡ (o then_on λ s. f s then_on g)
  then_on_assoc none f g = refl
  then_on_assoc (some (return r, s)) f g = refl
  then_on_assoc (some (next, s)) f g = refl

  pub scan-append :
      (visit : ℕ → S → Outcome R S) (xs ys : List ℕ) (s : S)
      → scan visit (xs ++ ys) s ≡ (scan visit xs s then_on scan visit ys)
  unfolding scan
  scan-append visit [] ys s = refl
  scan-append visit (x ∷ xs) ys s =
      ap (λ k. visit x s then_on k) (fun_ext (scan-append visit xs ys))
      ∙ sym (then_on_assoc (visit x s) (scan visit xs) (scan visit ys))

  pub for_slots-scan :
      (visit : ℕ → S → Outcome R S) (r : Ref) (window n i : ℕ) (s : S)
      → for_slots n i (λ j. visit (slot_address r window j)) s
        ≡ scan visit (addresses r window n i) s
  unfolding scan for_slots addresses
  for_slots-scan visit r window zero i s = refl
  for_slots-scan visit r window (suc n) i s =
      ap (λ k. visit (slot_address r window i) s then_on k)
        (fun_ext (for_slots-scan visit r window n (suc i)))

  -- The nested loops are one pass over the path.
  pub probe_loop-scan :
      (visit : ℕ → S → Outcome R S) (r : Ref) (body : ℕ → S → Outcome R S)
      → ((window : ℕ) (s : S) → body window s ≡ scan visit (addresses r window r.window_size 0) s)
      → (fuel : ℕ) (it : ProbingIterator) (s : S)
      → probe_loop fuel r.size_bits it body s ≡ result (scan visit (path_from fuel r it) s)
  unfolding probe_loop path_from scan
  probe_loop-scan visit r body e zero it s = refl
  probe_loop-scan visit r body e (suc fuel) it s =
      let here = addresses r it.curr_index r.window_size 0 in
      rw (scan-append visit here (path_from fuel r (advance r.size_bits it)) s) (
        split (scan visit here s) (e it.curr_index s)
          (probe_loop-scan visit r body e fuel (advance r.size_bits it)))
    where
      split :
          (o : Outcome R S)
          → body it.curr_index s ≡ o
          → ((t : S)
              → probe_loop fuel r.size_bits (advance r.size_bits it) body t
                ≡ result (scan visit (path_from fuel r (advance r.size_bits it)) t))
          → probe_loop (suc fuel) r.size_bits it body s
            ≡ result (o then_on scan visit (path_from fuel r (advance r.size_bits it)))
      split none b ih = rw (b, probe_loop)
      split (some (return x, t)) b ih = rw (b, probe_loop)
      split (some (next, t)) b ih = rw (b, probe_loop) (ih t)

  -- What falls through on the items of `xs` leaves the pass to the rest.
  pub scan_skip :
      (visit : ℕ → S → Outcome R S) (xs ys : List ℕ) (s : S)
      → All (λ a. visit a s ≡ some (next, s)) xs
      → scan visit (xs ++ ys) s ≡ scan visit ys s
  unfolding scan
  scan_skip visit [] ys s h = refl
  scan_skip visit (x ∷ xs) ys s h = rw h.0 (scan_skip visit xs ys s h.1)

  pub scan_all :
      (visit : ℕ → S → Outcome R S) (xs : List ℕ) (s : S)
      → All (λ a. visit a s ≡ some (next, s)) xs
      → scan visit xs s ≡ some (next, s)
  unfolding scan
  scan_all visit [] s h = refl
  scan_all visit (x ∷ xs) s h = rw h.0 (scan_all visit xs s h.1)

  -- The pass ends at the first item that decides.
  pub scan_stop :
      (visit : ℕ → S → Outcome R S) (xs ys : List ℕ) (a : ℕ) (s t : S) (x : R)
      → All (λ b. visit b s ≡ some (next, s)) xs
      → visit a s ≡ some (return x, t)
      → scan visit (xs ++ a ∷ ys) s ≡ some (return x, t)
  unfolding scan
  scan_stop visit xs ys a s t x h e = scan_skip visit xs (a ∷ ys) s h ∙ rw e

module _ {ℓ} {R : Type ℓ} (slot : ℕ → Memory → Memory → Outcome R Memory) (r : Ref) where
  -- A loop body that reads the window as it was when the loop began, and that falls through only
  -- with the memory as it found it.
  pub for_slots_snapshot :
      ((a : ℕ) (m m' : Memory) → slot a m m ≡ some (next, m') → m' ≡ m)
      → (window n i : ℕ) (m : Memory)
      → for_slots n i (λ j. slot (slot_address r window j) m) m
        ≡ scan (λ a s. slot a s s) (addresses r window n i) m
  unfolding scan for_slots addresses
  for_slots_snapshot keep window zero i m = refl
  for_slots_snapshot keep window (suc n) i m =
      split (slot a m m) refl (for_slots_snapshot keep window n (suc i) m)
    where
      a : ℕ
      a = slot_address r window i

      split :
          (o : Outcome R Memory)
          → slot a m m ≡ o
          → for_slots n (suc i) (λ j. slot (slot_address r window j) m) m
            ≡ scan (λ a s. slot a s s) (addresses r window n (suc i)) m
          → for_slots (suc n) i (λ j. slot (slot_address r window j) m) m
            ≡ scan (λ a s. slot a s s) (addresses r window (suc n) i) m
      split none b ih = rw (b, for_slots)
      split (some (return x, t)) b ih = rw (b, for_slots)
      split (some (next, t)) b ih = rw (b, keep a m t b) ih
