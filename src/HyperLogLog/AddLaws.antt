-- ===== src/HyperLogLog/AddLaws.antt =====
-- `add` and `merge` by the registers of a sketch.
use cu_collections.Common.{
  ℕ, zero, suc, ◌≤◌, ◌≡◌, refl, ap, sym, ◌∙◌, arith, List, [], ◌∷◌, inl, inr, In,
}
use cu_collections.HyperLogLog.Sketch.{
  countl_zero, update_max, register_of, zeroes_of, add, add_all,
}

update_max_comm :
    (xs : List ℕ) (i j u v : ℕ)
    → update_max (update_max xs i u) j v ≡ update_max (update_max xs j v) i u
unfolding update_max
update_max_comm [] i j u v = refl
update_max_comm (x ∷ xs) zero zero u v = ap (λ y. y ∷ xs) (omega arith)
update_max_comm (x ∷ xs) zero (suc j) u v = refl
update_max_comm (x ∷ xs) (suc i) zero u v = refl
update_max_comm (x ∷ xs) (suc i) (suc j) u v = ap (λ ys. x ∷ ys) (update_max_comm xs i j u v)

update_max_twice : (xs : List ℕ) (i v : ℕ) → update_max (update_max xs i v) i v ≡ update_max xs i v
unfolding update_max
update_max_twice [] i v = refl
update_max_twice (x ∷ xs) zero v = ap (λ y. y ∷ xs) (omega arith)
update_max_twice (x ∷ xs) (suc i) v = ap (λ ys. x ∷ ys) (update_max_twice xs i v)

countl_zero-le : (w x : ℕ) → countl_zero w x ≤ w
unfolding countl_zero
countl_zero-le zero x = omega arith
countl_zero-le (suc w) x = ground (arith, countl_zero-le w x)

module _ (p : ℕ) (hash : ℕ → ℕ) where
  add_comm :
      (sketch : List ℕ) (a b : ℕ)
      → add p hash (add p hash sketch a) b ≡ add p hash (add p hash sketch b) a
  unfolding add
  add_comm sketch a b =
      update_max_comm sketch (register_of p (hash a)) (register_of p (hash b))
        (zeroes_of p (hash a)) (zeroes_of p (hash b))

  add_all-add :
      (items : List ℕ) (sketch : List ℕ) (a : ℕ)
      → add_all p hash (add p hash sketch a) items ≡ add p hash (add_all p hash sketch items) a
  unfolding add_all
  add_all-add [] sketch a = refl
  add_all-add (item ∷ items) sketch a =
      ap (λ s. add_all p hash s items) (add_comm sketch a item)
      ∙ add_all-add items (add p hash sketch item) a

  add_twice : (sketch : List ℕ) (a : ℕ) → add p hash (add p hash sketch a) a ≡ add p hash sketch a
  unfolding add
  add_twice sketch a = update_max_twice sketch (register_of p (hash a)) (zeroes_of p (hash a))

  add_all-again :
      (items : List ℕ) (sketch : List ℕ) (a : ℕ)
      → In a items
      → add p hash (add_all p hash sketch items) a ≡ add_all p hash sketch items
  unfolding add_all
  add_all-again [] sketch a i = elim i [ ]
  add_all-again (item ∷ items) sketch a (inl e) = rw (← e) (
      sym (add_all-add items (add p hash sketch item) item)
      ∙ ap (λ s. add_all p hash s items) (add_twice sketch item))
  add_all-again (item ∷ items) sketch a (inr i) = add_all-again items (add p hash sketch item) a i

  add_all_comm :
      (xs ys : List ℕ) (sketch : List ℕ)
      → add_all p hash (add_all p hash sketch xs) ys ≡ add_all p hash (add_all p hash sketch ys) xs
  unfolding add_all
  add_all_comm xs [] sketch = refl
  add_all_comm xs (y ∷ ys) sketch =
      ap (λ s. add_all p hash s ys) (sym (add_all-add xs sketch y))
      ∙ add_all_comm xs ys (add p hash sketch y)

  add_all_absorbs :
      (xs ys : List ℕ) (sketch : List ℕ)
      → ((a : ℕ) → In a ys → In a xs)
      → add_all p hash (add_all p hash sketch xs) ys ≡ add_all p hash sketch xs
  unfolding add_all
  add_all_absorbs xs [] sketch within = refl
  add_all_absorbs xs (y ∷ ys) sketch within =
      ap (λ s. add_all p hash s ys) (add_all-again xs sketch y (within y (inl refl)))
      ∙ add_all_absorbs xs ys sketch (λ a i. within a (inr i))

  -- Two ranges with the same items, in any order and however often each occurs, take a sketch to
  -- the same sketch when their items are added one after the other.
  pub add_all-same_items :
      (xs ys : List ℕ) (sketch : List ℕ)
      → ((a : ℕ) → In a xs → In a ys)
      → ((a : ℕ) → In a ys → In a xs)
      → add_all p hash sketch xs ≡ add_all p hash sketch ys
  add_all-same_items xs ys sketch there back =
      sym (add_all_absorbs xs ys sketch back)
      ∙ add_all_comm xs ys sketch
      ∙ add_all_absorbs ys xs sketch there
