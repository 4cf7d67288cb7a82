-- ===== src/LegacyMap/Answers.antt =====
-- What the `contains` and `find` kernels of the older `dynamic_map` answer for a key.
use cu_collections.Common.{
  ℕ, suc, ◌<◌, ◌≡◌, ◌∙◌, refl, subst, ◌⊎◌, inl, inr, true, false, some, List, [], ◌∷◌, arith,
  if_yes, if_not, ==_self, ==_of_ne,
}
use cu_collections.OpenAddressing.Table.{HoldsAt}
use cu_collections.LegacyMap.Apart.{Stored}
use cu_collections.LegacyMap.Defs.{Keys}
use cu_collections.LegacyMap.Kernels.{SubmapViews, nth, unless_exists, contains_key, find_value}
use cu_collections.LegacyMap.Laws.{find_cases}
use cu_collections.LegacyMap.Refines.{capacity-view_ref}
use cu_collections.LegacyMap.Removal.{Stored-cons}
use cu_collections.LegacyMap.Submaps.{AreSubmaps, submap_cases}
use cu_collections.LegacyMap.Walk.{view_ref}

-- Where every submap is well-formed and has an empty slot, and the key is valid, `contains` ends, and
-- returns true if some submap holds the key and false if none does.
pub contains_key-decides :
    {w : ℕ} {keys : Keys} {fuel key : ℕ} (subs : List SubmapViews)
    → AreSubmaps w keys fuel key subs
    → ((contains_key fuel keys key subs ≡ some true) × Stored w keys subs key)
      ⊎ ((contains_key fuel keys key subs ≡ some false) × (¬ Stored w keys subs key))
unfolding contains_key unless_exists
contains_key-decides [] good = inr (refl, λ p. absurd (cc p.2))
contains_key-decides {w} {keys} {fuel} {key} (s ∷ subs) good =
    elim (submap_cases s (good 0 s refl)) [
      | inl (there, h) ↦ inl (rw (there, contains_key, unless_exists) refl, (0, s, refl, h))
      | inr (missing, h) ↦ elim (contains_key-decides subs (λ j t at. good (suc j) t at)) [
        | inl (e, (j, t, at, held)) ↦
            inl (rw (missing, contains_key, unless_exists) e, (suc j, t, at, held))
        | inr (e, none_there) ↦ inr (
          rw (missing, contains_key, unless_exists) e,
          Stored-cons w keys key s subs h none_there,
        )
      ]
    ]

-- `find` of the kernels gives the value beside the key.
abbrev pub ValueOf : ℕ → Keys → ℕ → List SubmapViews → ℕ → Type 0
ValueOf w keys key subs x =
    (j : ℕ) × (s : SubmapViews) × (a : ℕ) × (nth subs j ≡ some s)
    × HoldsAt (view_ref w s.view keys) s.memory key a
    × ((s.memory a).second ≡ x)

-- Where every submap of the older dynamic map is well-formed and has an empty slot, the key is
-- valid, and the fuel covers the slots of every submap: what the `find` kernel does for the key
-- ends, with the value of a slot that holds the key in some submap, or with the value that it began
-- with if no submap holds the key.
pub find_value-decides :
    {w : ℕ} {keys : Keys} {fuel key : ℕ} (found_value : ℕ) (subs : List SubmapViews)
    → AreSubmaps w keys fuel key subs
    → ((x : ℕ) × (find_value fuel keys key found_value subs ≡ some x) × ValueOf w keys key subs x)
      ⊎ ((find_value fuel keys key found_value subs ≡ some found_value)
          × (¬ Stored w keys subs key))
unfolding find_value
find_value-decides found_value [] good = inr (refl, λ p. absurd (cc p.2))
find_value-decides {w} {keys} {fuel} {key} found_value (s ∷ subs) good =
    let g = good 0 s refl in
    elim (find_cases g.fits g.equality g.table fuel g.enough key g.valid g.room g.inside
      g.is_empty) [
        | inl (a, e, h) ↦
            let lt : a < s.view.capacity =
              subst (λ n. a < n) (capacity-view_ref w s.view keys) h.0 in
            inl (
              (s.memory a).second,
              rw (e, find_value) (if_not _ _ (==_of_ne a s.view.capacity (λ f. omega arith))),
              (0, s, a, refl, h, refl),
            )
        | inr (e, h) ↦ elim (find_value-decides found_value subs (λ j t at. good (suc j) t at)) [
          | inl (x, f, (j, t, a, at, held, value)) ↦ inl (
            x,
            rw (e, find_value) (if_yes _ _ (==_self s.view.capacity) ∙ f),
            (suc j, t, a, at, held, value),
          )
          | inr (f, none_there) ↦ inr (
            rw (e, find_value) (if_yes _ _ (==_self s.view.capacity) ∙ f),
            Stored-cons w keys key s subs h none_there,
          )
        ]
      ]
