-- ===== src/OpenAddressing/Cover.antt =====
-- Where a probe visits every window of the storage.
use native.Mathlib.Nat.{
  mod-lt, mod-add-div', mod-add-mod, mod-eq_of_lt, add-mod_right, div-lt_iff_lt-mul,
}
use native.Mathlib.Decide.{dec_le}
use cu_collections.Common.{
  ℕ, zero, suc, ◌+◌, ◌-◌, ◌*◌, ◌/◌, ◌%◌, ◌^◌, ◌<◌, ◌≤◌, ◌≡◌, refl, ap, sym, ◌∙◌, subst, arith,
  eq-or-ne, In, In-append_left, In-append_right, inl, inr,
}
use cu_collections.Probing.{
  ProbingScheme, linear_probing, double_hashing, ProbingIterator, start_probe, advance,
  sanitize_hash,
}
use cu_collections.Probing.Cycle.{IsPrime, reaches}
use cu_collections.OpenAddressing.Defs.{Ref, capacity, slot_address, probe}
use cu_collections.OpenAddressing.Path.{addresses, path_from, path}
use cu_collections.OpenAddressing.Reach.{IsRef}

-- The number of windows is a `size_type`; for double hashing it is a prime, and the sum of an index
-- and a step does not wrap around.
abbrev pub CyclicScheme : ProbingScheme → ℕ → ℕ → Type 0
CyclicScheme (linear_probing hash) w n = n < 2 ^ w
CyclicScheme (double_hashing hash1 hash2) w n = IsPrime n × (2 * n ≤ 2 ^ w)

abbrev pub IsCyclic : Ref → Type 0
IsCyclic r = CyclicScheme r.probing_scheme r.size_bits r.num_windows

-- A probe of `n` windows that started at `c`, and is at its round `j`.
record Probes (w n c d j : ℕ) (it : ProbingIterator) : Type 0 where
  bound : it.upper_bound ≡ n
  step : it.step_size ≡ d
  index : it.curr_index ≡ (c + j * d) % n

module _ (w n c d : ℕ) (some_window : 0 < n) (fits : n + d ≤ 2 ^ w) where
  next_index : (j : ℕ) → ((c + j * d) % n + d) % 2 ^ w % n ≡ (c + suc j * d) % n
  next_index j =
      let x : ℕ = (c + j * d) % n in
      let small : x + d < 2 ^ w = omega (arith, mod-lt (c + j * d) some_window, fits) in
      ap (λ y. y % n) (mod-eq_of_lt small)
      ∙ mod-add-mod (c + j * d) n d
      ∙ ap (λ y. y % n) (omega arith)

  Probes-advance :
      (j : ℕ) (it : ProbingIterator) → Probes w n c d j it → Probes w n c d (suc j) (advance w it)
  unfolding advance
  Probes-advance j it h = record {
    bound = h.bound;
    step = h.step;
    index = rw (h.bound, h.step, h.index) (next_index j);
  }

In-addresses :
    (r : Ref) (window n i k : ℕ)
    → i ≤ k
    → k < i + n
    → In (slot_address r window k) (addresses r window n i)
unfolding addresses
In-addresses r window zero i k from below = absurd (omega arith)
In-addresses r window (suc n) i k from below = elim (eq-or-ne i k) [
  | inl e ↦ inl (ap (slot_address r window) e)
  | inr ne ↦
      inr (In-addresses r window n (suc i) k (omega (arith, from, ne)) (omega (arith, below)))
]

module _ (r : Ref) (c d : ℕ) (some_window : 0 < r.num_windows)
    (fits : r.num_windows + d ≤ 2 ^ r.size_bits) (i : ℕ) (inside : i < r.window_size) where
  -- The window of the round `j + k` is visited within the next rounds.
  In-path_from :
      (fuel k j : ℕ) (it : ProbingIterator)
      → k < fuel
      → Probes r.size_bits r.num_windows c d j it
      → In (slot_address r ((c + (j + k) * d) % r.num_windows) i) (path_from fuel r it)
  unfolding path_from
  In-path_from zero k j it enough h = absurd (omega arith)
  In-path_from (suc fuel) zero j it enough h =
      In-append_left _ (addresses r it.curr_index r.window_size 0) _ (
        subst (λ v. In (slot_address r v i) (addresses r it.curr_index r.window_size 0))
          (h.index ∙ ap (λ v. v % r.num_windows) (omega arith))
          (In-addresses r it.curr_index r.window_size 0 i (omega arith) (omega (arith, inside))))
  In-path_from (suc fuel) (suc k) j it enough h =
      In-append_right _ (addresses r it.curr_index r.window_size 0) _ (
        subst (λ v. In (slot_address r v i) (path_from fuel r (advance r.size_bits it)))
          (ap (λ v. v % r.num_windows) (omega arith))
          (In-path_from fuel k (suc j) (advance r.size_bits it) (omega (arith, enough))
            (Probes-advance r.size_bits r.num_windows c d some_window fits j it h)))

linear_reaches : (n c w : ℕ) → c < n → w < n → (k : ℕ) × (k < n) × ((c + k * 1) % n ≡ w)
linear_reaches n c w hc hw = elim (dec_le c w) [
  | yes le ↦ (w - c, omega (arith, le), ap (λ y. y % n) (omega (arith, le)) ∙ mod-eq_of_lt hw)
  | no lt ↦ (
    w + n - c,
    omega (arith, lt),
    ap (λ y. y % n) (omega (arith, hc)) ∙ add-mod_right w n ∙ mod-eq_of_lt hw,
  )
]

-- For a storage with windows and slots whose sizes fit the size type, a probe for any key comes to
-- every slot within as many rounds as there are windows; with double hashing the number of windows
-- is a prime of which the double fits, with linear probing it fits the size type.
pub path_covers :
    (r : Ref)
    → IsRef r
    → IsCyclic r
    → (key a : ℕ) → a < capacity r
    → In a (path r.num_windows r key)
unfolding path probe start_probe sanitize_hash capacity
path_covers r ref cyclic key a inside =
    subst (λ b. In b (path r.num_windows r key)) at (by_scheme r.probing_scheme cyclic)
  where
    n : ℕ
    n = r.num_windows

    v : ℕ
    v = a / r.window_size

    i : ℕ
    i = a % r.window_size

    at : slot_address r v i ≡ a
    at = omega (arith, mod-add-div' a r.window_size)

    v_lt : v < n
    v_lt = (div-lt_iff_lt-mul ref.some_slot).1 inside

    i_lt : i < r.window_size
    i_lt = mod-lt a ref.some_slot

    index_0 : (c d : ℕ) → c < n → c ≡ (c + 0 * d) % n
    index_0 c d lt = sym (mod-eq_of_lt lt) ∙ ap (λ y. y % n) (omega arith)

    goes :
        (c d : ℕ)
        → n + d ≤ 2 ^ r.size_bits
        → (it : ProbingIterator) → Probes r.size_bits n c d 0 it
        → (k : ℕ) × (k < n) × ((c + k * d) % n ≡ v)
        → In (slot_address r v i) (path_from n r it)
    goes c d fits it h (k, lt, e) =
        subst (λ v. In (slot_address r v i) (path_from n r it))
          (ap (λ y. (c + y * d) % n) (omega arith) ∙ e)
          (In-path_from r c d ref.some_window fits i i_lt n k 0 it lt h)

    by_scheme :
        (s : ProbingScheme)
        → CyclicScheme s r.size_bits n
        → In (slot_address r v i) (path_from n r (start_probe r.size_bits s key n))
    by_scheme (linear_probing hash) fits =
        let c : ℕ = hash key % 2 ^ r.size_bits % n in
        goes c 1 (omega (arith, fits)) (start_probe r.size_bits (linear_probing hash) key n)
          (record { bound = refl; step = refl; index = index_0 c 1 (mod-lt _ ref.some_window) })
          (linear_reaches n c v (mod-lt _ ref.some_window) v_lt)
    by_scheme (double_hashing hash1 hash2) (prime, fits) =
        let c : ℕ = hash1 key % 2 ^ r.size_bits % n in
        let d : ℕ = hash2 key % 2 ^ r.size_bits % (n - 1) + 1 in
        let d_lt : d < n = omega (
          arith,
          prime.big,
          mod-lt (hash2 key % 2 ^ r.size_bits) {m = n - 1} (omega (arith, prime.big)),
        ) in
        goes c d (omega (arith, fits, d_lt))
          (start_probe r.size_bits (double_hashing hash1 hash2) key n)
          (record { bound = refl; step = refl; index = index_0 c d (mod-lt _ ref.some_window) })
          (reaches prime c d v (mod-lt _ ref.some_window) (omega arith) d_lt v_lt)
