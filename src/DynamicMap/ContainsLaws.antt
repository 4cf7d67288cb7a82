-- ===== src/DynamicMap/ContainsLaws.antt =====
-- `contains` of a dynamic map asks each submap for its own share of the keys only.
use cu_collections.Common.{
  ℕ, zero, suc, ◌≤◌, ◌≡◌, refl, ap, ◌∙◌, arith, Bool, List, [], ◌∷◌, ◌++◌, length,
}
use cu_collections.DynamicMap.Defs.{
  Load, Submap, DynamicMap, StaticMap, slice, contains_in, contains,
}

module _ {S A : Type 0} (l : Load) (ops : StaticMap S A) where
  slice_all : (n : ℕ) (xs : List A) → length xs ≤ n → slice l ops n xs ≡ (xs, [])
  unfolding slice
  slice_all zero [] le = refl
  slice_all zero (x ∷ xs) le = absurd (omega (arith, le))
  slice_all (suc n) [] le = refl
  slice_all (suc n) (x ∷ xs) le =
      ap (λ (p : List A × List A). (x ∷ p.0, p.1)) (slice_all n xs (omega (arith, le)))

  no_keys : (subs : List (Submap S)) → contains_in l ops [] subs ≡ []
  unfolding contains_in
  no_keys [] = refl
  no_keys (s ∷ subs) = refl

  append_nothing : (xs : List Bool) → xs ++ [] ≡ xs
  append_nothing [] = refl
  append_nothing (x ∷ xs) = ap (λ xs. x ∷ xs) (append_nothing xs)

  -- Where the first submap holds no fewer elements than there are keys, and there is a key,
  -- `contains` answers for every key what the first submap answers, whatever the others hold.
  pub contains_first_only :
      (d : DynamicMap S) (s : Submap S) (subs : List (Submap S)) (k : A) (keys : List A)
      → d.submaps ≡ s ∷ subs
      → length (k ∷ keys) ≤ s.size
      → contains l ops (k ∷ keys) d ≡ ops.contains_range s.storage (k ∷ keys)
  unfolding contains contains_in
  contains_first_only d s subs k keys e le =
      ap (contains_in l ops (k ∷ keys)) e
      ∙ ap (λ (p : List A × List A). ops.contains_range s.storage p.0 ++ contains_in l ops p.1 subs)
          (slice_all s.size (k ∷ keys) le)
      ∙ ap (λ (later : List Bool). ops.contains_range s.storage (k ∷ keys) ++ later) (no_keys subs)
      ∙ append_nothing (ops.contains_range s.storage (k ∷ keys))
