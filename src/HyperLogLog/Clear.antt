-- ===== src/HyperLogLog/Clear.antt =====
-- `clear`: the registers are set to 0 by the threads of a group.
use cu_collections.Common.{
  ℕ, zero, suc, ◌+◌, ◌*◌, ◌/◌, ◌%◌, ◌<◌, ◌≤◌, ◌≡◌, refl, ap, sym, ◌∙◌, subst, arith, true, ltb,
  Bool-cases, List, [], ◌∷◌, length, get_or, set, inl, inr, replicate, eq-or-ne,
}
use native.Mathlib.Nat.{mod-lt, mod-add-div', div-le_self}
use cu_collections.HyperLogLog.Sketch.{clear_thread, clear_threads, clear}

length-set : (s : List ℕ) (i : ℕ) → length (set s i 0) ≡ length s
length-set [] i = refl
length-set (x ∷ s) zero = refl
length-set (x ∷ s) (suc i) = ap suc (length-set s i)

set-falls : (s : List ℕ) (i j : ℕ) → get_or (set s i 0) j 0 ≤ get_or s j 0
set-falls [] i j = omega arith
set-falls (x ∷ s) zero zero = omega arith
set-falls (x ∷ s) zero (suc j) = omega arith
set-falls (x ∷ s) (suc i) zero = omega arith
set-falls (x ∷ s) (suc i) (suc j) = set-falls s i j

set-here : (s : List ℕ) (i : ℕ) → get_or (set s i 0) i 0 ≡ 0
set-here [] i = refl
set-here (x ∷ s) zero = refl
set-here (x ∷ s) (suc i) = set-here s i

all_zero : (s : List ℕ) → ((j : ℕ) → j < length s → get_or s j 0 ≡ 0) → s ≡ replicate (length s) 0
all_zero [] h = refl
all_zero (x ∷ s) h =
    ap (λ y. y ∷ s) (h 0 (omega arith))
    ∙ ap (λ xs. 0 ∷ xs) (all_zero s (λ j lt. h (suc j) (omega arith)))

module _ (g : ℕ) where
  thread_length : (fuel i : ℕ) (s : List ℕ) → length (clear_thread fuel g i s) ≡ length s
  unfolding clear_thread
  thread_length zero i s = refl
  thread_length (suc fuel) i s = elim (Bool-cases (ltb i (length s))) [
    | inl inside ↦ rw inside (thread_length fuel (i + g) (set s i 0) ∙ length-set s i)
    | inr outside ↦ rw outside refl
  ]

  thread_falls :
      (fuel i : ℕ) (s : List ℕ) (j : ℕ) → get_or (clear_thread fuel g i s) j 0 ≤ get_or s j 0
  unfolding clear_thread
  thread_falls zero i s j = omega arith
  thread_falls (suc fuel) i s j = elim (Bool-cases (ltb i (length s))) [
    | inl inside ↦
        rw inside (omega (arith, set-falls s i j, thread_falls fuel (i + g) (set s i 0) j))
    | inr outside ↦ rw outside (omega arith)
  ]

  thread_clears :
      (fuel i k j : ℕ) (s : List ℕ)
      → k < fuel
      → j ≡ i + k * g
      → j < length s
      → get_or (clear_thread fuel g i s) j 0 ≡ 0
  unfolding clear_thread
  thread_clears zero i k j s enough e inside = absurd (omega arith)
  thread_clears (suc fuel) i zero j s enough e inside =
      let here : i ≡ j = omega (arith, e) in
      let test : ltb i (length s) ≡ true = ground (arith, here, inside) in
      rw test (
        omega (
          arith,
          subst (λ i. get_or (set s i 0) j 0 ≡ 0) (sym here) (set-here s j),
          thread_falls fuel (i + g) (set s i 0) j,
        ))
  thread_clears (suc fuel) i (suc k) j s enough e inside =
      let test : ltb i (length s) ≡ true = ground (arith, e, inside) in
      rw test (
        thread_clears fuel (i + g) k j (set s i 0) (omega (arith, enough)) (omega (arith, e))
          (rw (length-set s i) inside))

  threads_length :
      (fuel n rank : ℕ) (s : List ℕ) → length (clear_threads fuel g n rank s) ≡ length s
  unfolding clear_threads
  threads_length fuel zero rank s = refl
  threads_length fuel (suc n) rank s =
      threads_length fuel n (suc rank) (clear_thread fuel g rank s) ∙ thread_length fuel rank s

  threads_fall :
      (fuel n rank : ℕ) (s : List ℕ) (j : ℕ)
      → get_or (clear_threads fuel g n rank s) j 0 ≤ get_or s j 0
  unfolding clear_threads
  threads_fall fuel zero rank s j = omega arith
  threads_fall fuel (suc n) rank s j = omega (
    arith,
    thread_falls fuel rank s j,
    threads_fall fuel n (suc rank) (clear_thread fuel g rank s) j,
  )

  -- The register `j` is the turn of the thread `t`, at its round `k`.
  threads_clear :
      (fuel n rank t k j : ℕ) (s : List ℕ)
      → k < fuel
      → j ≡ t + k * g
      → rank ≤ t
      → t < rank + n
      → j < length s
      → get_or (clear_threads fuel g n rank s) j 0 ≡ 0
  unfolding clear_threads
  threads_clear fuel zero rank t k j s enough e from below inside = absurd (omega arith)
  threads_clear fuel (suc n) rank t k j s enough e from below inside = elim (eq-or-ne rank t) [
    | inl here ↦ omega (
      arith,
      thread_clears fuel rank k j s enough (rw here e) inside,
      threads_fall fuel n (suc rank) (clear_thread fuel g rank s) j,
    )
    | inr ne ↦
        threads_clear fuel n (suc rank) t k j (clear_thread fuel g rank s) enough e
          (omega (arith, from, ne)) (omega (arith, below)) (rw (thread_length fuel rank s) inside)
  ]

  -- For a group of at least one thread and fuel for as many rounds as there are registers, `clear`
  -- sets every register to 0.
  pub clear-replicate :
      (fuel : ℕ) (s : List ℕ) → 0 < g → length s ≤ fuel → clear fuel g s ≡ replicate (length s) 0
  unfolding clear
  clear-replicate fuel s some_thread enough =
      let same = threads_length fuel g 0 s in
      all_zero (clear_threads fuel g g 0 s) (λ j lt.
        threads_clear fuel g 0 (j % g) (j / g) j s
          (omega (arith, div-le_self j g, lt, same, enough)) (sym (mod-add-div' j g)) (omega arith)
          (omega (arith, mod-lt j some_thread)) (omega (arith, lt, same)))
      ∙ ap (λ n. replicate n 0) same
