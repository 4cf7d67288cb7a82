-- ===== src/LegacyMap/Submaps.antt =====
-- The submaps of the older `dynamic_map`, and the loop of its `insert` kernel that asks them for a key.
use cu_collections.Common.{
  set, ℕ, zero, suc, ◌+◌, ◌<◌, ◌≤◌, ◌≡◌, ◌≢◌, ◌∙◌, refl, ap, sym, subst, ◌⊎◌, inl, inr, Bool, true,
  false, ◌==◌, Option, some, List, [], ◌∷◌, arith, eq-or-ne, if◌then◌else◌, if_not, ==_self,
  ==_of_ne,
}
use cu_collections.OpenAddressing.Table.{IsKeyEqual, IsValidKey, IsTable, Present}
use cu_collections.LegacyMap.Defs.{Keys}
use cu_collections.LegacyMap.Lookup.{contains}
use cu_collections.LegacyMap.Kernels.{SubmapViews, nth, unless_exists, exists_elsewhere}
use cu_collections.LegacyMap.Laws.{contains_cases}
use cu_collections.LegacyMap.Walk.{view_ref, Fits}

pub nth-set :
    {A : Type 0} (xs : List A) (i : ℕ) (x y : A) → nth xs i ≡ some x → nth (set xs i y) i ≡ some y
nth-set [] i x y e = absurd (cc e)
nth-set (z ∷ xs) zero x y e = refl
nth-set (z ∷ xs) (suc i) x y e = nth-set xs i x y e

pub nth-set_other :
    {A : Type 0} (xs : List A) (i j : ℕ) (y : A) → j ≢ i → nth (set xs i y) j ≡ nth xs j
nth-set_other [] i j y ne = refl
nth-set_other (z ∷ xs) zero zero y ne = absurd (ne refl)
nth-set_other (z ∷ xs) zero (suc j) y ne = refl
nth-set_other (z ∷ xs) (suc i) zero y ne = refl
nth-set_other (z ∷ xs) (suc i) (suc j) y ne = nth-set_other xs i j y (λ e. ne (ap suc e))

pub some-injective : {A : Type 0} {x y : A} → some x ≡ some y → x ≡ y
some-injective e = cc e

pub set_same : {A : Type 0} (xs : List A) (i : ℕ) (x : A) → nth xs i ≡ some x → set xs i x ≡ xs
set_same [] i x e = refl
set_same (z ∷ xs) zero x e = ap (λ y. y ∷ xs) (sym (some-injective e))
set_same (z ∷ xs) (suc i) x e = ap (λ ys. z ∷ ys) (set_same xs i x e)

-- The submap holds a key that is equal to `k`.
abbrev pub Holds : ℕ → Keys → SubmapViews → ℕ → Type 0
Holds w keys s k = Present (view_ref w s.view keys) s.memory k

-- A well-formed submap with an empty slot, for which `key` is valid, and all of
-- whose slots the fuel allows to visit.
pub record IsSubmap (w : ℕ) (keys : Keys) (fuel key : ℕ) (s : SubmapViews) : Type 0 where
  pub fits : Fits w s.view keys
  pub equality : IsKeyEqual (view_ref w s.view keys)
  pub table : IsTable (view_ref w s.view keys) s.memory
  pub valid : IsValidKey (view_ref w s.view keys) key
  pub enough : s.view.capacity ≤ fuel
  pub room : ℕ
  pub inside : room < s.view.capacity
  pub is_empty : (s.memory room).first ≡ s.view.empty_key_sentinel

abbrev pub AreSubmaps : ℕ → Keys → ℕ → ℕ → List SubmapViews → Type 0
AreSubmaps w keys fuel key subs =
    (i : ℕ) (s : SubmapViews) → nth subs i ≡ some s → IsSubmap w keys fuel key s

pub submap_cases :
    {w : ℕ} {keys : Keys} {fuel key : ℕ} (s : SubmapViews)
    → IsSubmap w keys fuel key s
    → ((contains fuel s.view keys key s.memory ≡ some true) × Holds w keys s key)
      ⊎ ((contains fuel s.view keys key s.memory ≡ some false) × (¬ Holds w keys s key))
submap_cases {fuel = fuel} {key = key} s g =
    contains_cases g.fits g.equality g.table fuel g.enough key g.valid g.room g.inside g.is_empty

-- Where the loop over the submaps from the index `i` on ends.
abbrev pub Found : ℕ → Keys → ℕ → ℕ → ℕ → List SubmapViews → Type 0
Found w keys key insert_idx i subs =
    (j : ℕ) × (s : SubmapViews) × (nth subs j ≡ some s) × (i + j ≢ insert_idx) × Holds w keys s key

abbrev pub NotFound : ℕ → Keys → ℕ → ℕ → ℕ → List SubmapViews → Type 0
NotFound w keys key insert_idx i subs =
    (j : ℕ) (s : SubmapViews) → nth subs j ≡ some s → i + j ≢ insert_idx → ¬ Holds w keys s key

module _ (w : ℕ) (keys : Keys) (key insert_idx : ℕ) where
  Found-cons :
      (i : ℕ) (s : SubmapViews) (subs : List SubmapViews)
      → Found w keys key insert_idx (suc i) subs
      → Found w keys key insert_idx i (s ∷ subs)
  Found-cons i s subs (j, t, at, ne, h) = (suc j, t, at, (λ e. ne (omega arith)), h)

  NotFound-cons :
      (i : ℕ) (s : SubmapViews) (subs : List SubmapViews)
      → (i ≢ insert_idx → ¬ Holds w keys s key)
      → NotFound w keys key insert_idx (suc i) subs
      → NotFound w keys key insert_idx i (s ∷ subs)
  NotFound-cons i s subs here there zero t at ne h =
      here (λ e. ne (omega arith)) (subst (λ u. Holds w keys u key) (sym (some-injective at)) h)
  NotFound-cons i s subs here there (suc j) t at ne h = there j t at (λ e. ne (omega arith)) h

module _ {w : ℕ} {keys : Keys} {fuel key : ℕ} (insert_idx : ℕ) where
  pub exists_elsewhere-decides :
      (i : ℕ) (subs : List SubmapViews)
      → AreSubmaps w keys fuel key subs
      → ((exists_elsewhere fuel keys key insert_idx i subs ≡ some true)
          × Found w keys key insert_idx i subs)
        ⊎ ((exists_elsewhere fuel keys key insert_idx i subs ≡ some false)
            × NotFound w keys key insert_idx i subs)
  unfolding exists_elsewhere
  exists_elsewhere-decides i [] good = inr (refl, λ j s e ne h. absurd (cc e))
  exists_elsewhere-decides i (s ∷ subs) good =
      let rest = exists_elsewhere-decides (suc i) subs (λ j t at. good (suc j) t at) in
      elim (eq-or-ne i insert_idx) [
        | inl e ↦ elim rest [
          | inl (done, f) ↦ inl (skipped e ∙ done, Found-cons w keys key insert_idx i s subs f)
          | inr (done, f) ↦ inr (
            skipped e ∙ done,
            NotFound-cons w keys key insert_idx i s subs (λ ne. absurd (ne e)) f,
          )
        ]
        | inr ne ↦ elim (submap_cases s (good 0 s refl)) [
          | inl (there, h) ↦ inl (asked ne ∙ met there, (0, s, refl, (λ e. ne (omega arith)), h))
          | inr (missing, h) ↦ elim rest [
            | inl (done, f) ↦
                inl (asked ne ∙ passed missing ∙ done, Found-cons w keys key insert_idx i s subs f)
            | inr (done, f) ↦ inr (
              asked ne ∙ passed missing ∙ done,
              NotFound-cons w keys key insert_idx i s subs (λ _. h) f,
            )
          ]
        ]
      ]
    where
      here : Option Bool
      here = contains fuel s.view keys key s.memory

      later : Option Bool
      later = exists_elsewhere fuel keys key insert_idx (suc i) subs

      skipped :
          i ≡ insert_idx → (if i == insert_idx then later else unless_exists here later) ≡ later
      skipped e = rw (e, ==_self insert_idx) refl

      asked :
          i ≢ insert_idx
          → (if i == insert_idx then later else unless_exists here later) ≡ unless_exists here later
      asked ne = if_not _ _ (==_of_ne i insert_idx ne)

      met : here ≡ some true → unless_exists here later ≡ some true
      met e = rw (e, unless_exists) refl

      passed : here ≡ some false → unless_exists here later ≡ later
      passed e = rw (e, unless_exists) refl
