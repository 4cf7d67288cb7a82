-- ===== src/Bitset/Scan.antt =====
-- The lowest set bit of a word, and the first word that is not 0.
use cu_collections.Common.{
  ℕ, zero, suc, ◌+◌, ◌-◌, ◌≤◌, ◌<◌, ◌≡◌, ◌≢◌, ap, sym, ◌∙◌, arith, ◌==◌, if_yes, if_not, eq-or-ne,
  inl, inr, ==_of_ne, some,
}
use cu_collections.Bits.Digits.{digit}
use cu_collections.Bitset.Query.{StorageRef, ffs, next_word}

-- The lowest digit that is set, from `i` on.
pub record Lowest (w i m : ℕ) : Type 0 where
  pub set : digit w m ≡ 1
  pub from : i ≤ m
  pub before : (k : ℕ) → i ≤ k → k < m → digit w k ≡ 0

pub ffs-Lowest :
    (n i w j : ℕ)
    → i ≤ j
    → j < i + n
    → digit w j ≡ 1
    → (m : ℕ) × (ffs n i w ≡ suc m) × (m ≤ j) × Lowest w i m
unfolding ffs
ffs-Lowest zero i w j from below set = absurd (omega arith)
ffs-Lowest (suc n) i w j from below set = elim (eq-or-ne (digit w i) 1) [
  | inl here ↦ (
    i,
    if_yes (suc i) (ffs n (suc i) w) (ap (λ d. d == 1) here),
    from,
    record { set = here; from = omega arith; before = λ k le lt. absurd (omega arith) },
  )
  | inr clear ↦
      let ne : i ≢ j = λ e. clear (ap (digit w) e ∙ set) in
      let (m, result, le, low) =
        ffs-Lowest n (suc i) w j (omega (arith, from, ne)) (omega (arith, below)) set in
      (
        m,
        if_not (suc i) (ffs n (suc i) w) (==_of_ne (digit w i) 1 clear) ∙ result,
        le,
        record {
          set = low.set;
          from = omega (arith, low.from);
          before = λ k from lt. elim (eq-or-ne i k) [
            | inl e ↦ ap (digit w) (sym e) ∙ omega (arith, clear)
            | inr ne ↦ low.before k (omega (arith, from, ne)) lt
          ];
        },
      )
]

-- The words that `find_next` looks at, the first one masked, are `f v, f (v + 1), ...`.
pub next_word-finds :
    (s : StorageRef) (f : ℕ → ℕ) (fuel d v word : ℕ)
    → word ≡ f v
    → ((k : ℕ) → v < k → s.words k ≡ f k)
    → d < fuel
    → f (v + d) ≢ 0
    → (u : ℕ) × (next_word fuel s v word ≡ some (u, f u))
      × (v ≤ u)
      × (u ≤ v + d)
      × (f u ≢ 0)
      × ((k : ℕ) → v ≤ k → k < u → f k ≡ 0)
unfolding next_word
next_word-finds s f zero d v word here later enough target = absurd (omega arith)
next_word-finds s f (suc fuel) d v word here later enough target = elim (eq-or-ne word 0) [
  | inr ne ↦ (
    v,
    if_not _ (some (v, word)) (==_of_ne word 0 ne) ∙ ap (λ x. some (v, x)) here,
    omega arith,
    omega arith,
    λ e. ne (here ∙ e),
    λ k le lt. absurd (omega arith),
  )
  | inl none ↦
      let later_word : d ≢ 0 = λ e. target (ap f (omega (arith, e)) ∙ sym here ∙ none) in
      let (u, result, from, below, found, before) =
        next_word-finds s f fuel (d - 1) (v + 1) (s.words (v + 1)) (later (v + 1) (omega arith))
          (λ k lt. later k (omega (arith, lt))) (omega (arith, enough, later_word))
          (λ e. target (ap f (omega (arith, later_word)) ∙ e)) in
      (
        u,
        if_yes _ (some (v, word)) (ap (λ x. x == 0) none) ∙ result,
        omega (arith, from),
        omega (arith, below, later_word),
        found,
        λ k le lt. elim (eq-or-ne v k) [
          | inl e ↦ ap f (sym e) ∙ sym here ∙ none
          | inr ne ↦ before k (omega (arith, le, ne)) lt
        ],
      )
]
