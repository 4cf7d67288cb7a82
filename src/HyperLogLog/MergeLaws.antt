-- ===== src/HyperLogLog/MergeLaws.antt =====
-- `merge` of two sketches, by any number of threads.
use cu_collections.Common.{
  ℕ, zero, suc, ◌+◌, ◌*◌, ◌/◌, ◌%◌, ◌<◌, ◌≤◌, ◌≡◌, refl, ap, sym, ◌∙◌, subst, arith, true, ltb,
  Bool-cases, List, ◌++◌, length, get_or, inl, inr, replicate, eq-or-ne, length-replicate,
}
use native.Mathlib.Nat.{mod-lt, mod-add-div', div-le_self}
use cu_collections.HyperLogLog.Sketch.{update_max, add_all, merge_thread, merge_threads, merge}
use cu_collections.HyperLogLog.Larger.{
  larger, length-update_max, larger_step, larger_covered, grows, covers, larger-zero,
  length-add_all, larger-add_all, add_all-append,
}

module _ (g : ℕ) (other : List ℕ) where
  thread_length : (fuel i : ℕ) (s : List ℕ) → length (merge_thread fuel g i other s) ≡ length s
  unfolding merge_thread
  thread_length zero i s = refl
  thread_length (suc fuel) i s = elim (Bool-cases (ltb i (length s))) [
    | inl inside ↦ rw inside (
        thread_length fuel (i + g) (update_max s i (get_or other i 0))
        ∙ length-update_max s i (get_or other i 0))
    | inr outside ↦ rw outside refl
  ]

  thread_larger :
      (fuel i : ℕ) (s : List ℕ)
      → length s ≡ length other
      → larger (merge_thread fuel g i other s) other ≡ larger s other
  unfolding merge_thread
  thread_larger zero i s e = refl
  thread_larger (suc fuel) i s e = elim (Bool-cases (ltb i (length s))) [
    | inl inside ↦ rw inside (
        thread_larger fuel (i + g) (update_max s i (get_or other i 0))
          (length-update_max s i (get_or other i 0) ∙ e)
        ∙ larger_step s other i e)
    | inr outside ↦ rw outside refl
  ]

  thread_grows :
      (fuel i : ℕ) (s : List ℕ) (j : ℕ) → get_or s j 0 ≤ get_or (merge_thread fuel g i other s) j 0
  unfolding merge_thread
  thread_grows zero i s j = omega arith
  thread_grows (suc fuel) i s j = elim (Bool-cases (ltb i (length s))) [
    | inl inside ↦ rw inside (
        omega (
          arith,
          grows s i (get_or other i 0) j,
          thread_grows fuel (i + g) (update_max s i (get_or other i 0)) j,
        ))
    | inr outside ↦ rw outside (omega arith)
  ]

  thread_covers :
      (fuel i k j : ℕ) (s : List ℕ)
      → k < fuel
      → j ≡ i + k * g
      → j < length s
      → get_or other j 0 ≤ get_or (merge_thread fuel g i other s) j 0
  unfolding merge_thread
  thread_covers zero i k j s enough e inside = absurd (omega arith)
  thread_covers (suc fuel) i zero j s enough e inside =
      let here : i ≡ j = omega (arith, e) in
      let test : ltb i (length s) ≡ true = ground (arith, here, inside) in
      rw test (
        omega (
          arith,
          subst (λ i. get_or other j 0 ≤ get_or (update_max s i (get_or other i 0)) j 0) (sym here)
              (covers s j (get_or other j 0) inside),
          thread_grows fuel (i + g) (update_max s i (get_or other i 0)) j,
        ))
  thread_covers (suc fuel) i (suc k) j s enough e inside =
      let test : ltb i (length s) ≡ true = ground (arith, e, inside) in
      rw test (
        thread_covers fuel (i + g) k j (update_max s i (get_or other i 0)) (omega (arith, enough))
          (omega (arith, e)) (rw (length-update_max s i (get_or other i 0)) inside))

  threads_length :
      (fuel n rank : ℕ) (s : List ℕ) → length (merge_threads fuel g n rank other s) ≡ length s
  unfolding merge_threads
  threads_length fuel zero rank s = refl
  threads_length fuel (suc n) rank s =
      threads_length fuel n (suc rank) (merge_thread fuel g rank other s)
      ∙ thread_length fuel rank s

  threads_larger :
      (fuel n rank : ℕ) (s : List ℕ)
      → length s ≡ length other
      → larger (merge_threads fuel g n rank other s) other ≡ larger s other
  unfolding merge_threads
  threads_larger fuel zero rank s e = refl
  threads_larger fuel (suc n) rank s e =
      threads_larger fuel n (suc rank) (merge_thread fuel g rank other s)
        (thread_length fuel rank s ∙ e)
      ∙ thread_larger fuel rank s e

  threads_grow :
      (fuel n rank : ℕ) (s : List ℕ) (j : ℕ)
      → get_or s j 0 ≤ get_or (merge_threads fuel g n rank other s) j 0
  unfolding merge_threads
  threads_grow fuel zero rank s j = omega arith
  threads_grow fuel (suc n) rank s j = omega (
    arith,
    thread_grows fuel rank s j,
    threads_grow fuel n (suc rank) (merge_thread fuel g rank other s) j,
  )

  -- The register `j` is the turn of the thread `t`, at its round `k`.
  threads_cover :
      (fuel n rank t k j : ℕ) (s : List ℕ)
      → k < fuel
      → j ≡ t + k * g
      → rank ≤ t
      → t < rank + n
      → j < length s
      → get_or other j 0 ≤ get_or (merge_threads fuel g n rank other s) j 0
  unfolding merge_threads
  threads_cover fuel zero rank t k j s enough e from below inside = absurd (omega arith)
  threads_cover fuel (suc n) rank t k j s enough e from below inside = elim (eq-or-ne rank t) [
    | inl here ↦ omega (
      arith,
      thread_covers fuel rank k j s enough (rw here e) inside,
      threads_grow fuel n (suc rank) (merge_thread fuel g rank other s) j,
    )
    | inr ne ↦
        threads_cover fuel n (suc rank) t k j (merge_thread fuel g rank other s) enough e
          (omega (arith, from, ne)) (omega (arith, below)) (rw (thread_length fuel rank s) inside)
  ]

  merge-larger :
      (fuel : ℕ) (s : List ℕ)
      → 0 < g
      → length s ≤ fuel
      → length s ≡ length other
      → merge fuel g other s ≡ larger s other
  unfolding merge
  merge-larger fuel s some_thread enough e =
      let after = merge_threads fuel g g 0 other s in
      let same = threads_length fuel g 0 s in
      sym (
        larger_covered after other (same ∙ e) (λ j lt.
          threads_cover fuel g 0 (j % g) (j / g) j s
            (omega (arith, div-le_self j g, lt, same, enough)) (sym (mod-add-div' j g))
            (omega arith) (omega (arith, mod-lt j some_thread)) (omega (arith, lt, same))))
      ∙ threads_larger fuel g 0 s e

module _ (p : ℕ) (hash : ℕ → ℕ) where
  -- For two sketches of `n` registers that were filled from clear ones, a group of at least one
  -- thread, and fuel for as many rounds as there are registers: `merge` gives the sketch that the
  -- items of both would have given.
  pub merge-add_all :
      (n fuel g : ℕ) (xs ys : List ℕ)
      → 0 < g
      → n ≤ fuel
      → merge fuel g (add_all p hash (replicate n 0) ys) (add_all p hash (replicate n 0) xs)
        ≡ add_all p hash (replicate n 0) (xs ++ ys)
  merge-add_all n fuel g xs ys some_thread enough =
      let clear = replicate n 0 in
      let one = add_all p hash clear xs in
      let len = length-add_all p hash xs clear ∙ length-replicate n 0 in
      let len' = length-add_all p hash ys clear ∙ length-replicate n 0 in
      merge-larger g (add_all p hash clear ys) fuel one some_thread (omega (arith, len, enough))
        (len ∙ sym len')
      ∙ larger-add_all p hash ys one clear (length-add_all p hash xs clear)
      ∙ ap (λ s. add_all p hash s ys) (larger-zero one n)
      ∙ sym (add_all-append p hash xs ys clear)
