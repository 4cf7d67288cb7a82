-- ===== src/LegacyMap/Removal.antt =====
-- What the `erase` and `contains` kernels of the older `dynamic_map` do for a key.
use cu_collections.Common.{
  set, ℕ, zero, suc, ◌+◌, ◌≡◌, ◌≢◌, ◌∙◌, refl, ap, sym, subst, ◌↔◌, ◌⊎◌, inl, inr, true, false,
  Option, none, some, List, [], ◌∷◌, arith, eq-or-ne, Bool-cases,
}
use cu_collections.OpenAddressing.Defs.{write, erased_slot_sentinel}
use cu_collections.OpenAddressing.EraseLaws.{write-Maps}
use cu_collections.OpenAddressing.InsertLaws.{Maps}
use cu_collections.OpenAddressing.Table.{equal_congr}
use cu_collections.LegacyMap.Apart.{Apart, Stored}
use cu_collections.LegacyMap.Defs.{Keys}
use cu_collections.LegacyMap.Kernels.{SubmapViews, nth, behind, erase_key}
use cu_collections.LegacyMap.Laws.{view_ref-IsRef, erase_held, erase_missing}
use cu_collections.LegacyMap.Submaps.{
  some-injective, nth-set, nth-set_other, Holds, IsSubmap, AreSubmaps, submap_cases,
}
use cu_collections.LegacyMap.Walk.{view_ref}

-- The submap once the slot that holds the key is given up.
abbrev pub without :
    (w : ℕ) (keys : Keys) (s : SubmapViews) (k : ℕ) → Holds w keys s k → SubmapViews
without w keys s k (a, _) = record s {
  memory = write s.memory a (erased_slot_sentinel (view_ref w s.view keys));
}

-- A submap that holds a key holds those that are equal to it.
Holds-equal :
    {w : ℕ} {keys : Keys} {fuel key : ℕ} (s : SubmapViews)
    → IsSubmap w keys fuel key s
    → (k : ℕ) → keys.key_equal key k ≡ true
    → Holds w keys s k
    → Holds w keys s key
Holds-equal {key = key} s g k e (a, (lt, filled, same)) =
    (a, (lt, filled, sym (equal_congr g.equality k key (s.memory a).first e) ∙ same))

-- The key that is erased is no longer held, and every other one is held as before.
without-Holds :
    {w : ℕ} {keys : Keys} {fuel key : ℕ} (s : SubmapViews) (g : IsSubmap w keys fuel key s)
    (h : Holds w keys s key) (k : ℕ)
    → Holds w keys (without w keys s key h) k ↔ (Holds w keys s k × (keys.key_equal key k ≡ false))
without-Holds {w} {keys} {fuel} {key} s g h k = (to, from)
  where
    laws :
        (x : ℕ)
        → Maps (view_ref w s.view keys) (without w keys s key h).memory k x
          ↔ ((keys.key_equal key k ≡ false) × Maps (view_ref w s.view keys) s.memory k x)
    laws x =
        write-Maps (view_ref-IsRef g.fits) g.equality g.table refl fuel g.enough key g.valid h k x

    to : Holds w keys (without w keys s key h) k → Holds w keys s k × (keys.key_equal key k ≡ false)
    to (a, held) =
        let (ne, (b, old, _)) =
          (laws ((without w keys s key h).memory a).second).0 (a, held, refl) in
        ((b, old), ne)

    from :
        Holds w keys s k × (keys.key_equal key k ≡ false) → Holds w keys (without w keys s key h) k
    from ((a, held), ne) =
        let (b, new, _) = (laws (s.memory a).second).1 (ne, (a, held, refl)) in (b, new)

-- What the loop over the submaps from the index `i` on does.
abbrev Erased : ℕ → Keys → ℕ → ℕ → ℕ → List SubmapViews → Type 0
Erased w keys fuel key i subs =
    (j : ℕ) × (s : SubmapViews) × (nth subs j ≡ some s)
    × (h : Holds w keys s key) × (erase_key fuel keys key i subs
        ≡ some (some (i + j), set subs j (without w keys s key h)))

abbrev Missed : ℕ → Keys → ℕ → ℕ → ℕ → List SubmapViews → Type 0
Missed w keys fuel key i subs =
    (erase_key fuel keys key i subs ≡ some (none, subs)) × (¬ Stored w keys subs key)

pub Stored-cons :
    (w : ℕ) (keys : Keys) (key : ℕ) (s : SubmapViews) (subs : List SubmapViews)
    → ¬ Holds w keys s key
    → ¬ Stored w keys subs key
    → ¬ Stored w keys (s ∷ subs) key
Stored-cons w keys key s subs here there (zero, t, at, h) =
    here (subst (λ u. Holds w keys u key) (sym (some-injective at)) h)
Stored-cons w keys key s subs here there (suc j, t, at, h) = there (j, t, at, h)

-- The two sentinels of every submap differ.
abbrev pub Distinct : List SubmapViews → Type 0
Distinct subs =
    (i : ℕ) (s : SubmapViews)
    → nth subs i ≡ some s
    → s.view.erased_key_sentinel ≢ s.view.empty_key_sentinel

numbered :
    {i j : ℕ} (subs : List SubmapViews)
    → i ≡ j
    → ◌≡◌ {A = Option (Option ℕ × List SubmapViews)} (some (some i, subs)) (some (some j, subs))
numbered subs e = ap (λ n. some (some n, subs)) e

erase_key-decides :
    {w : ℕ} {keys : Keys} {fuel key : ℕ} (i : ℕ) (subs : List SubmapViews)
    → AreSubmaps w keys fuel key subs
    → Distinct subs
    → Erased w keys fuel key i subs ⊎ Missed w keys fuel key i subs
unfolding erase_key behind
erase_key-decides i [] good apart = inr (refl, λ p. absurd (cc p.2))
erase_key-decides {w} {keys} {fuel} {key} i (s ∷ subs) good apart =
    let g = good 0 s refl in
    elim (submap_cases s g) [
      | inl (_, h) ↦
          let e = erase_held g.fits g.equality g.table fuel g.enough key (apart 0 s refl) h in
          inl (0, s, refl, h, rw (e, erase_key) (numbered _ (omega arith)))
      | inr (_, missing) ↦
          let e =
            erase_missing g.fits g.equality g.table fuel g.enough key g.valid g.room g.inside
              g.is_empty missing in
          elim (erase_key-decides (suc i) subs (λ j t at. good (suc j) t at)
            (λ j t at. apart (suc j) t at)) [
              | inl (j, t, at, h, f) ↦
                  inl (suc j, t, at, h, rw (e, f, erase_key, behind) (numbered _ (omega arith)))
              | inr (f, none_there) ↦ inr (
                rw (e, f, erase_key, behind) refl,
                Stored-cons w keys key s subs missing none_there,
              )
            ]
    ]

module _ {w : ℕ} {keys : Keys} {fuel key : ℕ} (subs : List SubmapViews)
    (good : AreSubmaps w keys fuel key subs) where
  kept_if_missed :
      (k : ℕ)
      → ¬ Stored w keys subs key
      → Stored w keys subs k ↔ (Stored w keys subs k × (keys.key_equal key k ≡ false))
  kept_if_missed k missing = ((λ p. (p, differs p)), λ p. p.0)
    where
      differs : Stored w keys subs k → keys.key_equal key k ≡ false
      differs (j, s, at, h) = elim (Bool-cases (keys.key_equal key k)) [
        | inl e ↦ absurd (missing (j, s, at, Holds-equal s (good j s at) k e h))
        | inr e ↦ e
      ]

  module _ (apart : Apart w keys subs) (j : ℕ) (s : SubmapViews) (at : nth subs j ≡ some s)
      (h : Holds w keys s key) (k : ℕ) where
    removed_to :
        Stored w keys (set subs j (without w keys s key h)) k
        → Stored w keys subs k × (keys.key_equal key k ≡ false)
    removed_to (i, t, at_i, held) = elim (eq-or-ne i j) [
      | inl e ↦
          let here : nth (set subs j (without w keys s key h)) i ≡ some (without w keys s key h) =
            subst (λ i. nth (set subs j (without w keys s key h)) i ≡ some (without w keys s key h))
              (sym e) (nth-set subs j s (without w keys s key h) at) in
          let (old, ne) =
            (without-Holds s (good j s at) h k).0
              (subst (λ u. Holds w keys u k) (some-injective (sym at_i ∙ here)) held) in
          ((j, s, at, old), ne)
      | inr ne ↦
          let old = sym (nth-set_other subs j i (without w keys s key h) ne) ∙ at_i in
          ((i, t, old, held), differs i t old ne held)
    ]
      where
        differs :
            (i : ℕ) (t : SubmapViews)
            → nth subs i ≡ some t
            → i ≢ j
            → Holds w keys t k
            → keys.key_equal key k ≡ false
        differs i t old ne held = elim (Bool-cases (keys.key_equal key k)) [
          | inl e ↦ absurd (ne (apart i j key t s old at (Holds-equal t (good i t old) k e held) h))
          | inr e ↦ e
        ]

    removed_from :
        Stored w keys subs k × (keys.key_equal key k ≡ false)
        → Stored w keys (set subs j (without w keys s key h)) k
    removed_from ((i, t, at_i, held), ne) = elim (eq-or-ne i j) [
      | inl e ↦
          let same : t ≡ s =
            some-injective (sym at_i ∙ subst (λ i. nth subs i ≡ some s) (sym e) at) in
          (
            j,
            without w keys s key h,
            nth-set subs j s (without w keys s key h) at,
            (without-Holds s (good j s at) h k).1 (subst (λ u. Holds w keys u k) same held, ne),
          )
      | inr other ↦ (i, t, nth-set_other subs j i (without w keys s key h) other ∙ at_i, held)
    ]

-- Where every submap of the older dynamic map is well-formed and has an empty slot and two
-- different sentinels, the key is valid, the fuel covers the slots of every submap, and no two
-- submaps hold one key: what the `erase` kernel does for the key ends. It counts a success for some
-- submap exactly if a submap held the key, and afterwards the submaps hold exactly the keys that
-- they held before, less those that are equal to the erased one.
pub erase_key-Stored :
    {w : ℕ} {keys : Keys} {fuel key : ℕ} (subs : List SubmapViews)
    → AreSubmaps w keys fuel key subs
    → Distinct subs
    → Apart w keys subs
    → (o : Option ℕ) × (subs' : List SubmapViews) × (erase_key fuel keys key 0 subs
        ≡ some (o, subs'))
      × ((o ≡ none) ↔ (¬ Stored w keys subs key))
      × ((k : ℕ) → Stored w keys subs' k ↔ (Stored w keys subs k × (keys.key_equal key k ≡ false)))
erase_key-Stored {w} {keys} {fuel} {key} subs good distinct apart =
    elim (erase_key-decides 0 subs good distinct) [
      | inl (j, s, at, h, e) ↦ (
        some (0 + j),
        set subs j (without w keys s key h),
        e,
        ((λ f. absurd (cc f)), (λ missing. absurd (missing (j, s, at, h)))),
        λ k. (removed_to subs good apart j s at h k, removed_from subs good apart j s at h k),
      )
      | inr (e, missing) ↦
          (none, subs, e, ((λ _. missing), (λ _. refl)), λ k. kept_if_missed subs good k missing)
    ]
