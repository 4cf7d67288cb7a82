-- ===== src/Bitset/Grid.antt =====
-- The loops of kernels that go over an array by a stride. The threads run one after the other, and
-- each writes the elements of the output array at its own indices.
use native.Mathlib.Nat.{mod-lt, mod-add-div', div-le_self}
use cu_collections.Common.{
  ℕ, zero, suc, ◌+◌, ◌*◌, ◌/◌, ◌%◌, ◌<◌, ◌≤◌, ◌≡◌, sym, subst, arith, true, Bool-cases, ltb, ◌==◌,
  if◌then◌else◌, eq-or-ne, inl, inr, ==_self, ==_of_ne,
}

module _ {ℓ} {A : Type ℓ} where
  unfoldable pub assign : (ℕ → A) → ℕ → A → ℕ → A
  assign out i x = λ j. if j == i then x else out j

  module _ (stride n : ℕ) (body : ℕ → A → A) where
    -- `while (id < n) { out[id] = ...; id += stride; }`
    unfoldable pub grid_loop : ℕ → ℕ → (ℕ → A) → ℕ → A
    unfolding assign
    grid_loop zero id out = out
    grid_loop (suc fuel) id out =
        let rest = grid_loop fuel (id + stride) (assign out id (body id (out id))) in
        if ltb id n then rest else out

    -- the threads `id, ..., id + k - 1`
    unfoldable pub grid_threads : ℕ → ℕ → ℕ → (ℕ → A) → ℕ → A
    unfolding grid_loop
    grid_threads fuel zero id out = out
    grid_threads fuel (suc k) id out = grid_threads fuel k (suc id) (grid_loop fuel id out)

  unfoldable pub launch : ℕ → ℕ → ℕ → (ℕ → A → A) → (ℕ → A) → ℕ → A
  unfolding grid_threads
  launch fuel stride n body out = grid_threads stride n body fuel stride 0 out

  -- What `body` makes of any element at `i` holds of the output at `i`.
  module _ (stride n : ℕ) (body : ℕ → A → A) (P : A → Type 0) (i : ℕ)
      (made : (x : A) → P (body i x)) where
    assign_keeps : (out : ℕ → A) (id : ℕ) → P (out i) → P (assign out id (body id (out id)) i)
    unfolding assign
    assign_keeps out id p = elim (eq-or-ne i id) [
      | inl e ↦ subst (λ d. P (assign out d (body d (out d)) i)) e (rw (==_self i) (made (out i)))
      | inr ne ↦ rw (==_of_ne i id ne) p
    ]

    loop_keeps : (fuel id : ℕ) (out : ℕ → A) → P (out i) → P (grid_loop stride n body fuel id out i)
    unfolding grid_loop
    loop_keeps zero id out p = p
    loop_keeps (suc fuel) id out p = elim (Bool-cases (ltb id n)) [
      | inl lt ↦ rw lt (loop_keeps fuel (id + stride) _ (assign_keeps out id p))
      | inr ge ↦ rw ge p
    ]

    loop_writes :
        (fuel k id : ℕ) (out : ℕ → A)
        → k < fuel
        → id + k * stride ≡ i
        → i < n
        → P (grid_loop stride n body fuel id out i)
    unfolding grid_loop assign
    loop_writes zero k id out enough at inside = absurd (omega arith)
    loop_writes (suc fuel) zero id out enough at inside =
        let here : id ≡ i = omega (arith, at) in
        let test : ltb id n ≡ true = ground (arith, here, inside) in
        rw test (
          loop_keeps fuel (id + stride) _ (
            subst (λ d. P (assign out d (body d (out d)) i)) (sym here)
              (rw (==_self i) (made (out i)))))
    loop_writes (suc fuel) (suc k) id out enough at inside =
        let test : ltb id n ≡ true = ground (arith, at, inside) in
        rw test
          (loop_writes fuel k (id + stride) _ (omega (arith, enough)) (omega (arith, at)) inside)

    threads_keep :
        (fuel k id : ℕ) (out : ℕ → A) → P (out i) → P (grid_threads stride n body fuel k id out i)
    unfolding grid_threads
    threads_keep fuel zero id out p = p
    threads_keep fuel (suc k) id out p = threads_keep fuel k (suc id) _ (loop_keeps fuel id out p)

    -- The index `i` is the turn of the thread `t`, at its round `j`.
    threads_write :
        (fuel k id t j : ℕ) (out : ℕ → A)
        → j < fuel
        → t + j * stride ≡ i
        → id ≤ t
        → t < id + k
        → i < n
        → P (grid_threads stride n body fuel k id out i)
    unfolding grid_threads
    threads_write fuel zero id t j out enough at from below inside = absurd (omega arith)
    threads_write fuel (suc k) id t j out enough at from below inside = elim (eq-or-ne id t) [
      | inl here ↦
          threads_keep fuel k (suc id) _ (loop_writes fuel j id out enough (rw here at) inside)
      | inr ne ↦
          threads_write fuel k (suc id) t j _ enough at (omega (arith, from, ne))
            (omega (arith, below)) inside
    ]

    pub launch_writes :
        (fuel : ℕ) (out : ℕ → A)
        → 0 < stride
        → n ≤ fuel
        → i < n
        → P (launch fuel stride n body out i)
    unfolding launch
    launch_writes fuel out some_thread enough inside =
        threads_write fuel stride 0 (i % stride) (i / stride) out
          (omega (arith, div-le_self i stride, inside, enough))
          (omega (arith, mod-add-div' i stride)) (omega arith) (omega (arith, mod-lt i some_thread))
          inside
