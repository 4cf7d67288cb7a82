-- ===== src/LegacyMap/Apart.antt =====
-- No key stands in two submaps of the older `dynamic_map`: what its `insert` kernel keeps.
use cu_collections.Common.{
  set, ℕ, ◌≡◌, ◌≢◌, ◌∙◌, refl, ap, sym, subst, ◌↔◌, inl, inr, Bool, true, false, Option, some, List,
  arith, eq-or-ne,
}
use cu_collections.OpenAddressing.Defs.{Slot, Memory}
use cu_collections.OpenAddressing.InsertLaws.{Inserted, NoneErased, Inserted-Maps}
use cu_collections.OpenAddressing.Table.{equal_congr}
use cu_collections.LegacyMap.Defs.{Keys}
use cu_collections.LegacyMap.Insert.{insert}
use cu_collections.LegacyMap.Kernels.{
  SubmapViews, nth, exists_elsewhere, with_memory, insert_into, insert_pair,
}
use cu_collections.LegacyMap.Laws.{insert_new, insert_again}
use cu_collections.LegacyMap.Walk.{view_ref}
use cu_collections.LegacyMap.Submaps.{
  some-injective, set_same, nth-set, nth-set_other, Holds, AreSubmaps, submap_cases, NotFound,
  exists_elsewhere-decides,
}

-- Two submaps that hold one key are one.
abbrev pub Apart : ℕ → Keys → List SubmapViews → Type 0
Apart w keys subs =
    (i j k : ℕ) (s t : SubmapViews)
    → nth subs i ≡ some s
    → nth subs j ≡ some t
    → Holds w keys s k
    → Holds w keys t k
    → i ≡ j

module _ {w : ℕ} {keys : Keys} {fuel : ℕ} (insert_idx : ℕ) (subs : List SubmapViews) (pair : Slot)
    (good : AreSubmaps w keys fuel pair.first subs) (target : SubmapViews)
    (at : nth subs insert_idx ≡ some target) where
  insert_into-with_memory :
      (b : Bool) (m' : Memory)
      → insert fuel target.view keys pair target.memory ≡ some (b, m')
      → insert_into fuel keys insert_idx subs pair
        ≡ some (b, set subs insert_idx (record target { memory = m' }))
  unfolding insert_into with_memory
  insert_into-with_memory b m' e = rw (at, insert_into, e, with_memory) refl

  -- If no submap but the one inserted into was asked in vain.
  insert_pair_lem :
      (o : Option (Bool × List SubmapViews))
      → exists_elsewhere fuel keys pair.first insert_idx 0 subs ≡ some false
      → insert_into fuel keys insert_idx subs pair ≡ o
      → insert_pair fuel keys insert_idx subs pair ≡ o
  unfolding insert_pair
  insert_pair_lem o e f = rw (e, insert_pair) f

  insert_pair_found :
      exists_elsewhere fuel keys pair.first insert_idx 0 subs ≡ some true
      → insert_pair fuel keys insert_idx subs pair ≡ some (false, subs)
  unfolding insert_pair
  insert_pair_found e = rw (e, insert_pair) refl

  -- A submap that holds a key which the new target holds is the target.
  cross :
      (m' : Memory)
      → Inserted (view_ref w target.view keys) target.memory pair m'
      → NotFound w keys pair.first insert_idx 0 subs
      → Apart w keys subs
      → (j k : ℕ) (t : SubmapViews) → nth subs j ≡ some t
      → j ≢ insert_idx
      → Holds w keys (record target { memory = m' }) k
      → Holds w keys t k
      → insert_idx ≡ j
  cross m' i elsewhere apart j k t at_j ne (a, held) (b, (lt, filled, same)) =
      elim ((Inserted-Maps (good insert_idx target at).valid i k (m' a).second).0 (a, held, refl)) [
        | inl (e, _) ↦ absurd (
            elsewhere j t at_j (λ e. ne (omega arith))
              (
                b,
                (
                  lt,
                  filled,
                  sym (equal_congr (good j t at_j).equality k pair.first (t.memory b).first e)
                      ∙ same,
                ),
              ))
        | inr (c, old, _) ↦ apart insert_idx j k target t at at_j (c, old) (b, (lt, filled, same))
      ]

  new_Holds :
      (m' : Memory)
      → Inserted (view_ref w target.view keys) target.memory pair m'
      → Holds w keys (record target { memory = m' }) pair.first
  new_Holds m' i =
      let g = good insert_idx target at in
      let (a, held, _) =
        (Inserted-Maps g.valid i pair.first pair.second).1
          (inl (g.equality.reflexive pair.first, refl)) in
      (a, held)

  new_Apart :
      (m' : Memory)
      → Inserted (view_ref w target.view keys) target.memory pair m'
      → NotFound w keys pair.first insert_idx 0 subs
      → Apart w keys subs
      → Apart w keys (set subs insert_idx (record target { memory = m' }))
  new_Apart m' inserted elsewhere apart i j k s t at_i at_j hs ht = elim (eq-or-ne i insert_idx) [
    | inl ei ↦ elim (eq-or-ne j insert_idx) [
      | inl ej ↦ ei ∙ sym ej
      | inr nj ↦
          ei
          ∙ cross m' inserted elsewhere apart j k t (old j t nj at_j) nj (new i s ei at_i k hs) ht
    ]
    | inr ni ↦ elim (eq-or-ne j insert_idx) [
      | inl ej ↦ sym (
          ej
          ∙ cross m' inserted elsewhere apart i k s (old i s ni at_i) ni (new j t ej at_j k ht) hs)
      | inr nj ↦ apart i j k s t (old i s ni at_i) (old j t nj at_j) hs ht
    ]
  ]
    where
      t' : SubmapViews
      t' = record target { memory = m' }

      old :
          (j : ℕ) (t : SubmapViews)
          → j ≢ insert_idx
          → nth (set subs insert_idx t') j ≡ some t
          → nth subs j ≡ some t
      old j t ne e = sym (nth-set_other subs insert_idx j t' ne) ∙ e

      new :
          (j : ℕ) (t : SubmapViews)
          → j ≡ insert_idx
          → nth (set subs insert_idx t') j ≡ some t
          → (k : ℕ) → Holds w keys t k
          → Holds w keys t' k
      new j t e at_j k h =
          let first : nth (set subs insert_idx t') j ≡ some t' =
            subst (λ j. nth (set subs insert_idx t') j ≡ some t') (sym e)
              (nth-set subs insert_idx target t' at) in
          subst (λ u. Holds w keys u k) (some-injective (sym at_j ∙ first)) h

-- Some submap holds a key that is equal to `k`.
abbrev pub Stored : ℕ → Keys → List SubmapViews → ℕ → Type 0
Stored w keys subs k = (j : ℕ) × (s : SubmapViews) × (nth subs j ≡ some s) × Holds w keys s k

-- Where every submap of the older dynamic map is well-formed and has an empty slot, the key of the
-- pair is valid, the fuel covers the slots of every submap, the index is that of a submap with no
-- erased slot, and no two submaps hold one key: what the `insert` kernel does for the pair ends. It
-- counts a success exactly if no submap held an equal key; then some submap holds the key, and no
-- two submaps hold one key.
pub insert_pair-Apart :
    {w : ℕ} {keys : Keys} {fuel : ℕ} (insert_idx : ℕ) (subs : List SubmapViews) (pair : Slot)
    → AreSubmaps w keys fuel pair.first subs
    → (target : SubmapViews) → nth subs insert_idx ≡ some target
    → NoneErased (view_ref w target.view keys) target.memory
    → Apart w keys subs
    → (b : Bool) × (subs' : List SubmapViews) × (insert_pair fuel keys insert_idx subs pair
        ≡ some (b, subs'))
      × ((b ≡ true) ↔ (¬ Stored w keys subs pair.first))
      × Stored w keys subs' pair.first
      × Apart w keys subs'
insert_pair-Apart {w} {keys} {fuel} insert_idx subs pair good target at clean apart =
    let g = good insert_idx target at in
    let old_Stored : Holds w keys target pair.first → Stored w keys subs pair.first =
      λ h. (insert_idx, target, at, h) in
    elim (exists_elsewhere-decides insert_idx 0 subs good) [
      | inl (e, (j, s, at_j, _, h)) ↦ (
        false,
        subs,
        insert_pair_found insert_idx subs pair good target at e,
        ((λ f. absurd (cc f)), (λ missing. absurd (missing (j, s, at_j, h)))),
        (j, s, at_j, h),
        apart,
      )
      | inr (e, elsewhere) ↦ elim (submap_cases target g) [
        | inl (_, h) ↦
            let done = insert_again g.fits g.equality g.table fuel g.enough pair g.valid clean h in
            let same : set subs insert_idx target ≡ subs = set_same subs insert_idx target at in
            (
              false,
              subs,
              insert_pair_lem insert_idx subs pair good target at _ e (
                    insert_into-with_memory insert_idx subs pair good target at false target.memory
                      done)
                  ∙ ap (λ xs. some (false, xs)) same,
              ((λ f. absurd (cc f)), (λ missing. absurd (missing (old_Stored h)))),
              old_Stored h,
              apart,
            )
        | inr (_, missing) ↦
            let (m', done, i) =
              insert_new g.fits g.equality g.table fuel g.enough pair g.valid g.room g.inside
                g.is_empty missing in
            let t' : SubmapViews = record target { memory = m' } in
            (
              true,
              set subs insert_idx t',
              insert_pair_lem insert_idx subs pair good target at _ e
                  (insert_into-with_memory insert_idx subs pair good target at true m' done),
              ((λ _ stored. nowhere elsewhere missing stored), (λ _. refl)),
              (
                insert_idx,
                t',
                nth-set subs insert_idx target t' at,
                new_Holds insert_idx subs pair good target at m' i,
              ),
              new_Apart insert_idx subs pair good target at m' i elsewhere apart,
            )
      ]
    ]
  where
    nowhere :
        NotFound w keys pair.first insert_idx 0 subs
        → (¬ Holds w keys target pair.first)
        → ¬ Stored w keys subs pair.first
    nowhere elsewhere missing (j, s, at_j, h) = elim (eq-or-ne j insert_idx) [
      | inr ne ↦ elsewhere j s at_j (λ e. ne (omega arith)) h
      | inl e ↦ missing (
          subst (λ u. Holds w keys u pair.first)
            (some-injective (sym at_j ∙ subst (λ i. nth subs i ≡ some target) (sym e) at)) h)
    ]
