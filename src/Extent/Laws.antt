-- ===== src/Extent/Laws.antt =====
-- The extent holds the elements that were asked for, and the probes of double hashing cover it.
use native.Mathlib.Nat.{
  mod-eq_of_lt, mod-add-div', mod-lt, add-mul-mod_self_right, mul-le-mul_right,
}
use native.Mathlib.Decide.{dec_le}
use cu_collections.Common.{
  ℕ, ◌+◌, ◌-◌, ◌*◌, ◌%◌, ◌^◌, ◌≤◌, ◌<◌, max, ◌≡◌, refl, ap, sym, ◌∙◌, subst, arith, ltb, Bool-cases,
  if_yes, if_not, inl, inr, ◌⊎◌, ltb→lt, not_ltb→le, In,
}
use cu_collections.Extent.Defs.{
  Table, lower_bound, int_div_ceil, Outcome, fails, windows, max_value, window_count,
  make_window_extent,
}
use cu_collections.OpenAddressing.Cover.{IsCyclic, CyclicScheme, path_covers}
use cu_collections.OpenAddressing.Defs.{Ref, capacity}
use cu_collections.OpenAddressing.Path.{path}
use cu_collections.OpenAddressing.Reach.{IsRef}
use cu_collections.Probing.{double_hashing}
use cu_collections.Probing.Cycle.{IsPrime}
use cu_collections.Extent.Search.{lower_bound-IsBound}

-- A table of primes in ascending order.
pub record IsPrimeTable (primes : Table) : Type 0 where
  pub some_prime : 0 < primes.size
  pub sorted : (i j : ℕ) → i ≤ j → j < primes.size → primes.at i ≤ primes.at j
  pub prime : (i : ℕ) → i < primes.size → IsPrime (primes.at i)

int_div_ceil-covers : (w x y : ℕ) → 0 < y → x + y ≤ 2 ^ w → 0 < x → x ≤ int_div_ceil w x y * y
unfolding int_div_ceil
int_div_ceil-covers w x y pos fits ask =
    let sum : ℕ = x + y - 1 in
    let wrapped : (x + y + 2 ^ w - 1) % 2 ^ w ≡ sum =
      ap (λ (z : ℕ). z % 2 ^ w) {y = sum + 1 * 2 ^ w} (omega (arith, pos))
      ∙ add-mul-mod_self_right sum 1 (2 ^ w)
      ∙ mod-eq_of_lt (omega (arith, fits, pos)) in
    let divided = mod-add-div' sum y in
    let rest = mod-lt sum pos in rw wrapped (omega (arith, divided, rest, pos))

-- What a window extent has to be for `ext` elements.
pub record Extends (w cg_size window_size : ℕ) (primes : Table) (ext n : ℕ) : Type 0 where
  pub i : ℕ
  pub listed : i < primes.size
  pub product : n ≡ primes.at i * cg_size
  pub room : ext ≤ n * window_size
  pub least : (k : ℕ) → k < i → primes.at k < int_div_ceil w (max ext 1) (cg_size * window_size)

module _ {primes : Table} (table : IsPrimeTable primes) (w cg_size window_size fuel ext : ℕ)
    (some_slot : 0 < cg_size * window_size) (enough : primes.size ≤ fuel)
    (fits : max ext 1 + cg_size * window_size ≤ 2 ^ w)
    (fits_product : primes.at (primes.size - 1) * cg_size < 2 ^ w) where
  abbrev wanted : ℕ
  wanted = int_div_ceil w (max ext 1) (cg_size * window_size)

  max_value_bound : max_value w primes ≤ primes.at (primes.size - 1)
  unfolding max_value
  max_value_bound = elim (Bool-cases (ltb (2 ^ w - 1) (primes.at (primes.size - 1)))) [
    | inl e ↦ rw e (omega (arith, ltb→lt _ _ e))
    | inr e ↦ rw e (omega arith)
  ]

  accepted :
      wanted ≤ max_value w primes
      → (n : ℕ) × (window_count w cg_size primes (lower_bound fuel primes.at 0 primes.size wanted)
          ≡ windows n)
        × Extends w cg_size window_size primes ext n
  unfolding window_count
  accepted small =
      let (i, result, b) =
        lower_bound-IsBound primes.at wanted fuel 0 primes.size enough
          (λ i j le lt. table.sorted i j le (omega (arith, lt))) in
      let last : ℕ = primes.size - 1 in
      let inside : i < primes.size = elim (dec_le primes.size i) [
        | yes end ↦ absurd (
            omega (
              arith,
              b.before last (omega arith) (omega (arith, end, table.some_prime)),
              small,
              max_value_bound,
            ))
        | no lt ↦ omega (arith, lt)
      ] in
      let top = table.sorted i last (omega (arith, inside)) (omega (arith, table.some_prime)) in
      let exact : primes.at i * cg_size % 2 ^ w ≡ primes.at i * cg_size =
        mod-eq_of_lt (omega (arith, mul-le-mul_right cg_size top, fits_product)) in
      let covered =
        int_div_ceil-covers w (max ext 1) (cg_size * window_size) some_slot fits (omega arith) in
      let wider = mul-le-mul_right (cg_size * window_size) (b.found (omega (arith, inside))) in
      (
        primes.at i * cg_size,
        ap (window_count w cg_size primes) result ∙ ap windows exact,
        record {
          i = i;
          listed = inside;
          product = refl;
          room = omega (arith, covered, wider);
          least = λ k lt. b.before k (omega arith) lt;
        },
      )

  -- Over an ascending table of primes, with fuel for its size, where the requested size plus the
  -- slots of a group's windows, and the last prime times the group size, do not wrap around:
  -- `make_window_extent` fails if the number of groups of windows that are needed is above the
  -- largest value, and otherwise gives the least prime of the table that is not below this number,
  -- times the group size, and the slots of so many windows are not fewer than requested.
  pub make_window_extent-Extends :
      ((max_value w primes < wanted)
        × (make_window_extent fuel w cg_size window_size primes ext ≡ fails))
      ⊎ ((n : ℕ) × (make_window_extent fuel w cg_size window_size primes ext ≡ windows n)
          × Extends w cg_size window_size primes ext n)
  unfolding make_window_extent
  make_window_extent-Extends = elim (Bool-cases (ltb (max_value w primes) wanted)) [
    | inl large ↦ inl (ltb→lt _ _ large, if_yes _ _ large)
    | inr small ↦
        let (n, result, e) = accepted (not_ltb→le _ _ small) in
        inr (n, if_not _ _ small ∙ result, e)
  ]

  windows_of : Outcome → ℕ
  windows_of (windows n) = n
  windows_of _ = 0

  Extends-windows :
      (n : ℕ)
      → make_window_extent fuel w cg_size window_size primes ext ≡ windows n
      → Extends w cg_size window_size primes ext n
  unfolding windows_of
  Extends-windows n e = elim make_window_extent-Extends [
    | inl (large, refused) ↦ absurd (cc (e, refused))
    | inr (m, result, h) ↦
        subst (Extends w cg_size window_size primes ext) (ap windows_of (sym result ∙ e)) h
  ]

-- The windows that a thread's double hashing gets are visited by every probe.
module _ {primes : Table} (table : IsPrimeTable primes) (fuel ext n : ℕ)
    (enough : primes.size ≤ fuel) {r : Ref} (ref : IsRef r) (hash1 hash2 : ℕ → ℕ)
    (scheme : r.probing_scheme ≡ double_hashing hash1 hash2) (sized : r.num_windows ≡ n)
    (fits : max ext 1 + r.window_size ≤ 2 ^ r.size_bits)
    (fits_primes : 2 * primes.at (primes.size - 1) ≤ 2 ^ r.size_bits) where
  extent-IsCyclic : Extends r.size_bits 1 r.window_size primes ext n → IsCyclic r
  extent-IsCyclic e =
      let same : primes.at e.i ≡ r.num_windows = omega (arith, e.product, sized) in
      let top =
        table.sorted e.i (primes.size - 1) (omega (arith, e.listed)) (omega (arith, e.listed)) in
      subst (λ s. CyclicScheme s r.size_bits r.num_windows) (sym scheme)
        (subst IsPrime same (table.prime e.i e.listed), omega (arith, same, top, fits_primes))

  -- Over an ascending table of primes, with fuel for its size, and where the sums and the double of
  -- the last prime fit the size type: a container with double hashing whose number of windows
  -- `make_window_extent` gave for one thread has at least the slots that were requested, and a
  -- probe for any key comes to every one of them.
  pub extent-covers :
      make_window_extent fuel r.size_bits 1 r.window_size primes ext ≡ windows n
      → (ext ≤ capacity r) × ((key a : ℕ) → a < capacity r → In a (path r.num_windows r key))
  unfolding capacity
  extent-covers made_of =
      let e =
        Extends-windows table r.size_bits 1 r.window_size fuel ext (omega (arith, ref.some_slot))
          enough (omega (arith, fits)) (omega (arith, fits_primes, ref.some_window)) n made_of in
      (
        omega (arith, ap (λ (z : ℕ). z * r.window_size) sized, e.room),
        path_covers r ref (extent-IsCyclic e),
      )
