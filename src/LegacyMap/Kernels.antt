-- ===== src/LegacyMap/Kernels.antt =====
-- include/cuco/detail/dynamic_map_kernels.cuh: what one thread does for a pair or a key among the
-- submaps of the older `dynamic_map`. The two views of a submap are one storage.
use cu_collections.Common.{
  set, ℕ, zero, suc, ◌+◌, Bool, true, false, ◌==◌, Option, none, some, List, [], ◌∷◌, if◌then◌else◌,
}
use cu_collections.OpenAddressing.Defs.{Slot, Memory}
use cu_collections.LegacyMap.Defs.{View, Keys}
use cu_collections.LegacyMap.Insert.{insert}
use cu_collections.LegacyMap.Erase.{erase}
use cu_collections.LegacyMap.Lookup.{contains, find}

pub record SubmapViews : Type 0 where
  pub view : View
  pub memory : Memory

abbrev pub nth {ℓ} : {A : Type ℓ} → List A → ℕ → Option A
nth [] i = none
nth (x ∷ xs) zero = some x
nth (x ∷ xs) (suc i) = nth xs i

-- `if (exists) { break; }`
unfoldable pub unless_exists : Option Bool → Option Bool → Option Bool
unless_exists none rest = none
unless_exists (some true) rest = some true
unless_exists (some false) rest = rest

-- the loop over the submaps from the index `i` on, the one that is inserted into left out
unfoldable pub exists_elsewhere : ℕ → Keys → ℕ → ℕ → ℕ → List SubmapViews → Option Bool
unfolding unless_exists
exists_elsewhere fuel keys key insert_idx i [] = some false
exists_elsewhere fuel keys key insert_idx i (s ∷ subs) =
    let rest = exists_elsewhere fuel keys key insert_idx (suc i) subs in
    if i == insert_idx then rest else unless_exists (contains fuel s.view keys key s.memory) rest

unfoldable pub with_memory :
    List SubmapViews → ℕ → SubmapViews → Option (Bool × Memory) → Option (Bool × List SubmapViews)
with_memory subs i s none = none
with_memory subs i s (some (b, m)) = some (b, set subs i (record s { memory = m }))

-- `submap_mutable_views[insert_idx].insert(...)`; there is no view past the end
unfoldable pub insert_into :
    ℕ → Keys → ℕ → List SubmapViews → Slot → Option (Bool × List SubmapViews)
unfolding with_memory
insert_into fuel keys insert_idx subs pair = elim (nth subs insert_idx) [
  | none ↦ none
  | some s ↦ with_memory subs insert_idx s (insert fuel s.view keys pair s.memory)
]

-- the body of the loop, and whether it counts a success
unfoldable pub insert_pair :
    ℕ → Keys → ℕ → List SubmapViews → Slot → Option (Bool × List SubmapViews)
unfolding exists_elsewhere insert_into
insert_pair fuel keys insert_idx subs pair =
    elim (exists_elsewhere fuel keys pair.first insert_idx 0 subs) [
      | none ↦ none
      | some true ↦ some (false, subs)
      | some false ↦ insert_into fuel keys insert_idx subs pair
    ]

-- a pair after another, with `thread_num_successes` so far
unfoldable pub insert_pairs :
    ℕ → Keys → ℕ → List Slot → ℕ → List SubmapViews → Option (ℕ × List SubmapViews)
unfolding insert_pair
insert_pairs fuel keys insert_idx [] successes subs = some (successes, subs)
insert_pairs fuel keys insert_idx (pair ∷ pairs) successes subs =
    elim (insert_pair fuel keys insert_idx subs pair) [
      | none ↦ none
      | some (b, subs') ↦
          insert_pairs fuel keys insert_idx pairs (if b then successes + 1 else successes) subs'
    ]

-- `erase`: the body of the loop for a key, from the index `i` on, and the submap that it was erased
-- from, whose counter goes up
unfoldable pub behind :
    SubmapViews → Option (Option ℕ × List SubmapViews) → Option (Option ℕ × List SubmapViews)
behind s none = none
behind s (some (o, subs)) = some (o, s ∷ subs)

unfoldable pub erase_key :
    ℕ → Keys → ℕ → ℕ → List SubmapViews → Option (Option ℕ × List SubmapViews)
unfolding behind
erase_key fuel keys key i [] = some (none, [])
erase_key fuel keys key i (s ∷ subs) =
    let rest = erase_key fuel keys key (suc i) subs in
    elim (erase fuel s.view keys key s.memory) [
      | none ↦ none
      | some (true, m) ↦ some (some i, record s { memory = m } ∷ subs)
      | some (false, m) ↦ behind (record s { memory = m }) rest
    ]

-- `contains`: the body of the loop for a key
unfoldable pub contains_key : ℕ → Keys → ℕ → List SubmapViews → Option Bool
unfolding unless_exists
contains_key fuel keys key [] = some false
contains_key fuel keys key (s ∷ subs) =
    unless_exists (contains fuel s.view keys key s.memory) (contains_key fuel keys key subs)

-- `find`: the body of the loop for a key, with `found_value` so far
unfoldable pub find_value : ℕ → Keys → ℕ → ℕ → List SubmapViews → Option ℕ
find_value fuel keys key found_value [] = some found_value
find_value fuel keys key found_value (s ∷ subs) =
    let rest = find_value fuel keys key found_value subs in
    elim (find fuel s.view keys key s.memory) [
      | none ↦ none
      | some slot ↦ if slot == s.view.capacity then rest else some (s.memory slot).second
    ]
