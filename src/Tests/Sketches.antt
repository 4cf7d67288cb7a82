-- ===== src/Tests/Sketches.antt =====
-- A sketch of four registers, whose items are hashed by themselves.
use cu_collections.Common.{ℕ, ◌≡◌, refl, arith, List, [], ◌∷◌, ◌++◌, In, inl, inr, replicate}
use cu_collections.HyperLogLog.AddLaws.{add_all-same_items}
use cu_collections.HyperLogLog.MergeLaws.{merge-add_all}
use cu_collections.HyperLogLog.Sketch.{add_all, merge}

abbrev empty_sketch : List ℕ
empty_sketch = replicate 4 0

abbrev small_items : List ℕ
small_items = 1 ∷ 6 ∷ []

abbrev again : List ℕ
again = 6 ∷ 1 ∷ 6 ∷ []

there : (a : ℕ) → In a small_items → In a again
there a (inl e) = inr (inl e)
there a (inr (inl e)) = inl e
there a (inr (inr i)) = elim i [ ]

back : (a : ℕ) → In a again → In a small_items
back a (inl e) = inr (inl e)
back a (inr (inl e)) = inl e
back a (inr (inr (inl e))) = inr (inl e)
back a (inr (inr (inr i))) = elim i [ ]

counted : add_all 2 (λ x. x) empty_sketch small_items ≡ 0 ∷ 63 ∷ 62 ∷ 0 ∷ []
unfolding add_all
counted = refl

add_all-same_items_example :
    add_all 2 (λ x. x) empty_sketch small_items ≡ add_all 2 (λ x. x) empty_sketch again
add_all-same_items_example = add_all-same_items 2 (λ x. x) small_items again empty_sketch there back

merge-add_all_example :
    merge 4 2
      (add_all 2 (λ x. x) (replicate 4 0) again)
      (add_all 2 (λ x. x) (replicate 4 0) small_items)
    ≡ add_all 2 (λ x. x) (replicate 4 0) (small_items ++ again)
merge-add_all_example = merge-add_all 2 (λ x. x) 4 4 2 small_items again (omega arith) (omega arith)
