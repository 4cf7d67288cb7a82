-- ===== src/OpenAddressing/Reach.antt =====
-- How far a path reaches: it stays inside the storage, and a longer probe extends a shorter one.
use cu_collections.Common.{
  ℕ, zero, suc, ◌+◌, ◌<◌, ◌≤◌, ◌≡◌, refl, ap, sym, ◌∙◌, List, ◌∷◌, ◌++◌, arith, All, All-append,
  Split,
}
use mathlib.Core.List.{append_assoc}
use native.Mathlib.Nat.{mod-lt}
use cu_collections.Probing.{
  ProbingScheme, linear_probing, double_hashing, ProbingIterator, start_probe, advance,
}
use cu_collections.OpenAddressing.Defs.{Ref, capacity, probe}
use cu_collections.OpenAddressing.Path.{addresses, path_from, path}

-- A ref with no window has no slot to probe.
pub record IsRef (r : Ref) : Type 0 where
  pub some_window : 0 < r.num_windows
  pub some_slot : 0 < r.window_size

abbrev pub Bounded : Ref → ProbingIterator → Type 0
Bounded r it = (it.curr_index < r.num_windows) × (it.upper_bound ≡ r.num_windows)

module _ {r : Ref} (ok : IsRef r) where
  probe-Bounded : (key : ℕ) → Bounded r (probe r key)
  unfolding probe
  probe-Bounded key = by_scheme r.probing_scheme
    where
      by_scheme : (s : ProbingScheme) → Bounded r (start_probe r.size_bits s key r.num_windows)
      by_scheme (linear_probing hash) = unfold start_probe in (mod-lt _ ok.some_window, refl)
      by_scheme (double_hashing hash1 hash2) = unfold start_probe in (mod-lt _ ok.some_window, refl)

  advance-Bounded : (it : ProbingIterator) → Bounded r it → Bounded r (advance r.size_bits it)
  unfolding advance
  advance-Bounded it h = (rw h.1 (mod-lt _ ok.some_window), h.1)

  addresses-lt :
      (window n i : ℕ)
      → window < r.num_windows
      → i + n ≤ r.window_size
      → All (λ a. a < capacity r) (addresses r window n i)
  unfolding addresses capacity
  addresses-lt window zero i w h = tt
  addresses-lt window (suc n) i w h = (grind arith, addresses-lt window n (suc i) w (omega arith))

  path_from-lt :
      (fuel : ℕ) (it : ProbingIterator)
      → Bounded r it
      → All (λ a. a < capacity r) (path_from fuel r it)
  unfolding path_from
  path_from-lt zero it b = tt
  path_from-lt (suc fuel) it b =
      All-append (λ a. a < capacity r) (addresses r it.curr_index r.window_size 0) _
        (addresses-lt it.curr_index r.window_size 0 b.0 (omega arith))
        (path_from-lt fuel (advance r.size_bits it) (advance-Bounded it b))

  -- Every slot that a probe visits lies in the storage.
  pub path-lt-capacity : (fuel key : ℕ) → All (λ a. a < capacity r) (path fuel r key)
  unfolding path
  path-lt-capacity fuel key = path_from-lt fuel (probe r key) (probe-Bounded key)

path_from-le :
    (r : Ref) (n fuel : ℕ) (it : ProbingIterator)
    → n ≤ fuel
    → (rest : List ℕ) × (path_from fuel r it ≡ path_from n r it ++ rest)
unfolding path_from
path_from-le r zero fuel it h = (path_from fuel r it, refl)
path_from-le r (suc n) zero it h = absurd (omega arith)
path_from-le r (suc n) (suc fuel) it h =
    let (rest, e) = path_from-le r n fuel (advance r.size_bits it) (omega arith) in
    let here = addresses r it.curr_index r.window_size 0 in
    (rest, ap (λ xs. here ++ xs) e ∙ sym (append_assoc here _ rest))

-- A probe with more rounds visits the same slots first.
pub path-le :
    (r : Ref) (n fuel key : ℕ)
    → n ≤ fuel
    → (rest : List ℕ) × (path fuel r key ≡ path n r key ++ rest)
unfolding path
path-le r n fuel key h = path_from-le r n fuel (probe r key) h

pub Split-le :
    (r : Ref) (n fuel key a : ℕ)
    → n ≤ fuel
    → (s : Split (path n r key) a) → (rest : List ℕ) × (path fuel r key ≡ s.before ++ a ∷ rest)
Split-le r n fuel key a h s =
    let (rest, e) = path-le r n fuel key h in
    (s.after ++ rest, e ∙ ap (λ xs. xs ++ rest) s.whole ∙ append_assoc s.before (a ∷ s.after) rest)
