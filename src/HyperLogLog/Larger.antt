-- ===== src/HyperLogLog/Larger.antt =====
-- The larger registers of two sketches.
use cu_collections.Common.{
  ℕ, zero, suc, ◌<◌, ◌≤◌, ◌≡◌, refl, ap, sym, ◌∙◌, arith, max, List, [], ◌∷◌, ◌++◌, length, get_or,
  replicate,
}
use cu_collections.HyperLogLog.Sketch.{update_max, register_of, zeroes_of, add, add_all}

-- the larger registers of two sketches
unfoldable pub larger : List ℕ → List ℕ → List ℕ
larger [] ys = []
larger (x ∷ xs) [] = x ∷ xs
larger (x ∷ xs) (y ∷ ys) = max x y ∷ larger xs ys

pub length-update_max : (xs : List ℕ) (i v : ℕ) → length (update_max xs i v) ≡ length xs
unfolding update_max
length-update_max [] i v = refl
length-update_max (x ∷ xs) zero v = refl
length-update_max (x ∷ xs) (suc i) v = ap suc (length-update_max xs i v)

pub larger-update_max :
    (xs ys : List ℕ) (i v : ℕ)
    → length xs ≡ length ys
    → larger xs (update_max ys i v) ≡ update_max (larger xs ys) i v
unfolding larger update_max
larger-update_max [] [] i v e = refl
larger-update_max [] (y ∷ ys) i v e = absurd (omega (arith, e))
larger-update_max (x ∷ xs) [] i v e = absurd (omega (arith, e))
larger-update_max (x ∷ xs) (y ∷ ys) zero v e = ap (λ z. z ∷ larger xs ys) (omega arith)
larger-update_max (x ∷ xs) (y ∷ ys) (suc i) v e =
    ap (λ zs. max x y ∷ zs) (larger-update_max xs ys i v (omega (arith, e)))

-- One step of the merge changes nothing that the end result does not have.
pub larger_step :
    (xs ys : List ℕ) (i : ℕ)
    → length xs ≡ length ys
    → larger (update_max xs i (get_or ys i 0)) ys ≡ larger xs ys
unfolding larger update_max
larger_step [] ys i e = refl
larger_step (x ∷ xs) [] i e = absurd (omega (arith, e))
larger_step (x ∷ xs) (y ∷ ys) zero e = ap (λ z. z ∷ larger xs ys) (omega arith)
larger_step (x ∷ xs) (y ∷ ys) (suc i) e =
    ap (λ zs. max x y ∷ zs) (larger_step xs ys i (omega (arith, e)))

-- A sketch that has the other's registers covered.
pub larger_covered :
    (xs ys : List ℕ)
    → length xs ≡ length ys
    → ((j : ℕ) → j < length xs → get_or ys j 0 ≤ get_or xs j 0)
    → larger xs ys ≡ xs
unfolding larger
larger_covered [] ys e h = refl
larger_covered (x ∷ xs) [] e h = refl
larger_covered (x ∷ xs) (y ∷ ys) e h =
    let head : max x y ≡ x = omega (arith, h 0 (omega arith)) in
    rw (larger_covered xs ys (omega (arith, e)) (λ j lt. h (suc j) (omega (arith, lt))))
      (ap (λ z. z ∷ xs) head)

-- Registers only grow, and the one that is written covers its value.
pub grows : (xs : List ℕ) (i v j : ℕ) → get_or xs j 0 ≤ get_or (update_max xs i v) j 0
unfolding update_max
grows [] i v j = omega arith
grows (x ∷ xs) zero v zero = omega arith
grows (x ∷ xs) zero v (suc j) = omega arith
grows (x ∷ xs) (suc i) v zero = omega arith
grows (x ∷ xs) (suc i) v (suc j) = grows xs i v j

pub covers : (xs : List ℕ) (i v : ℕ) → i < length xs → v ≤ get_or (update_max xs i v) i 0
unfolding update_max
covers [] i v h = absurd (omega arith)
covers (x ∷ xs) zero v h = omega arith
covers (x ∷ xs) (suc i) v h = covers xs i v (omega (arith, h))

pub larger-zero : (xs : List ℕ) (n : ℕ) → larger xs (replicate n 0) ≡ xs
unfolding larger
larger-zero [] n = refl
larger-zero (x ∷ xs) zero = refl
larger-zero (x ∷ xs) (suc n) = rw (larger-zero xs n) (ap (λ z. z ∷ xs) (omega arith))

module _ (p : ℕ) (hash : ℕ → ℕ) where
  pub length-add_all :
      (items sketch : List ℕ) → length (add_all p hash sketch items) ≡ length sketch
  unfolding add_all add
  length-add_all [] sketch = refl
  length-add_all (item ∷ items) sketch =
      length-add_all items (add p hash sketch item)
      ∙ length-update_max sketch (register_of p (hash item)) (zeroes_of p (hash item))

  pub larger-add_all :
      (items xs ys : List ℕ)
      → length xs ≡ length ys
      → larger xs (add_all p hash ys items) ≡ add_all p hash (larger xs ys) items
  unfolding add_all add
  larger-add_all [] xs ys e = refl
  larger-add_all (item ∷ items) xs ys e =
      let i = register_of p (hash item) in
      let v = zeroes_of p (hash item) in
      larger-add_all items xs (update_max ys i v) (e ∙ sym (length-update_max ys i v))
      ∙ ap (λ s. add_all p hash s items) (larger-update_max xs ys i v e)

  pub add_all-append :
      (xs ys sketch : List ℕ)
      → add_all p hash sketch (xs ++ ys) ≡ add_all p hash (add_all p hash sketch xs) ys
  unfolding add_all
  add_all-append [] ys sketch = refl
  add_all-append (x ∷ xs) ys sketch = add_all-append xs ys (add p hash sketch x)
