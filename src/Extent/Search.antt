-- ===== src/Extent/Search.antt =====
-- `lower_bound` finds the first element of an ascending array that is not below a value.
use native.Mathlib.Decide.{dec_le}
use cu_collections.Common.{
  ℕ, zero, suc, ◌+◌, ◌-◌, ◌/◌, ◌≤◌, ◌<◌, ◌≡◌, ap, ◌∙◌, subst, arith, true, ltb, Bool-cases, if_yes,
  if_not, eq-or-ne, inl, inr, some, ltb→lt, lt→ltb, not_ltb→le,
}
use cu_collections.Extent.Defs.{lower_bound}

-- The index of the first element that is not below `value`, among those from `first` on.
pub record IsBound (at : ℕ → ℕ) (first count value i : ℕ) : Type 0 where
  pub from : first ≤ i
  pub below : i ≤ first + count
  pub before : (k : ℕ) → first ≤ k → k < i → at k < value
  pub found : i < first + count → value ≤ at i

module _ (at : ℕ → ℕ) (value : ℕ) where
  IsBound-empty : (first count : ℕ) → count ≡ 0 → IsBound at first count value first
  IsBound-empty first count none = record {
    from = omega arith;
    below = omega arith;
    before = λ k le lt. absurd (omega arith);
    found = λ lt. absurd (omega (arith, none));
  }

  pub lower_bound-IsBound :
      (fuel first count : ℕ)
      → count ≤ fuel
      → ((i j : ℕ) → i ≤ j → j < first + count → at i ≤ at j)
      → (i : ℕ) × (lower_bound fuel at first count value ≡ some i) × IsBound at first count value i
  unfolding lower_bound
  lower_bound-IsBound zero first count enough sorted =
      let none : count ≡ 0 = omega (arith, enough) in
      (first, if_not _ _ (ap (ltb 0) none), IsBound-empty first count none)
  lower_bound-IsBound (suc fuel) first count enough sorted = elim (eq-or-ne count 0) [
    | inl none ↦ (first, if_not _ _ (ap (ltb 0) none), IsBound-empty first count none)
    | inr ne ↦
        let step : ℕ = count / 2 in
        let more : ltb 0 count ≡ true = lt→ltb 0 count (omega (arith, ne)) in
        elim (Bool-cases (ltb (at (first + step)) value)) [
          | inl small ↦
              let here = ltb→lt _ _ small in
              let (i, result, b) =
                lower_bound-IsBound fuel (first + step + 1) (count - (step + 1))
                  (omega (arith, enough, ne))
                  (λ i j le lt. sorted i j le (omega (arith, lt, ne))) in
              (
                i,
                if_yes _ _ more ∙ if_yes _ _ small ∙ result,
                record {
                  from = omega (arith, b.from);
                  below = omega (arith, b.below, ne);
                  before = λ k le lt. elim (dec_le k (first + step)) [
                    | yes low ↦ omega (arith, here, sorted k (first + step) low (omega (arith, ne)))
                    | no high ↦ b.before k (omega (arith, high)) lt
                  ];
                  found = λ lt. b.found (omega (arith, lt, ne));
                },
              )
          | inr large ↦
              let (i, result, b) =
                lower_bound-IsBound fuel first step (omega (arith, enough, ne))
                  (λ i j le lt. sorted i j le (omega (arith, lt))) in
              (
                i,
                if_yes _ _ more ∙ if_not _ _ large ∙ result,
                record {
                  from = b.from;
                  below = omega (arith, b.below);
                  before = b.before;
                  found = λ lt. elim (dec_le (first + step) i) [
                    | yes top ↦
                        let at_step : first + step ≡ i = omega (arith, top, b.below) in
                        subst (λ i. value ≤ at i) at_step (not_ltb→le _ _ large)
                    | no low ↦ b.found (omega (arith, low))
                  ];
                },
              )
        ]
  ]
