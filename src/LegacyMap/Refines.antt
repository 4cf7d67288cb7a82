-- ===== src/LegacyMap/Refines.antt =====
-- The operations of the older map are those of the ref on windows of one slot.
use mathlib.Core.Option
use cu_collections.Common.{
  ℕ, ◌+◌, ◌*◌, ◌≡◌, refl, ap, sym, ◌∙◌, Bool, true, false, ◌==◌, none, some, arith, if◌then◌else◌,
}
use cu_collections.Equality.{unequal, equal, empty, compare_key, equal_to}
use cu_collections.OpenAddressing.Defs.{Memory, capacity, end}
use cu_collections.OpenAddressing.Loop.{return, next, Outcome, ◌then_on◌, for_slots}
use cu_collections.OpenAddressing.Lookup
use cu_collections.LegacyMap.Defs.{View, Keys}
use cu_collections.LegacyMap.Lookup.{find_at, find, contains_at, contains}
use cu_collections.LegacyMap.Walk.{view_ref, Fits, walk-probe_loop}

-- a window of one slot is its slot
pub one_slot {ℓ κ} :
    {R : Type ℓ} {S : Type κ} (body : ℕ → S → Outcome R S) (s : S) → for_slots 1 0 body s ≡ body 0 s
unfolding for_slots
one_slot {R = R} {S} body s = by_outcome (body 0 s)
  where
    by_outcome : (o : Outcome R S) → (o then_on λ t. some (next, t)) ≡ o
    by_outcome none = refl
    by_outcome (some (return x, t)) = refl
    by_outcome (some (next, t)) = refl

-- the slot of a window of one
pub address_lem : (a : ℕ) → a ≡ a * 1 + 0
address_lem a = omega arith

-- the comparison of a query, split into its two tests
pub query_split {ℓ} :
    {A : Type ℓ} (b c : Bool) (x y z : A)
    → (if b then x else if c then y else z)
      ≡ elim (if b then empty else if c then equal else unequal) [ empty ↦ x | equal ↦ y | _ ↦ z ]
query_split true c x y z = refl
query_split false true x y z = refl
query_split false false x y z = refl

pub capacity-view_ref : (w : ℕ) (v : View) (keys : Keys) → capacity (view_ref w v keys) ≡ v.capacity
unfolding capacity
capacity-view_ref w v keys = omega arith

pub end-view_ref : (w : ℕ) (v : View) (keys : Keys) → end (view_ref w v keys) ≡ v.capacity
unfolding end capacity
end-view_ref w v keys = omega arith

module _ {w : ℕ} {v : View} {keys : Keys} (fits : Fits w v keys) where
  find_at-find_slot :
      (k : ℕ) (m : Memory) (a : ℕ)
      → find_at v keys k m a tt ≡ Lookup.find_slot (view_ref w v keys) k m a tt
  unfolding find_at Lookup.find_slot compare_key equal_to
  find_at-find_slot k m a =
      ap
        (λ (n : ℕ).
          if (m a).first == v.empty_key_sentinel
          then some (return n, tt)
          else if keys.key_equal (m a).first k
          then some (return a, tt)
          else some (next, tt))
        (sym (end-view_ref w v keys))
      ∙ query_split ((m a).first == v.empty_key_sentinel) (keys.key_equal (m a).first k) _ _ _

  pub find-find :
      (fuel k : ℕ) (m : Memory) → find fuel v keys k m ≡ Lookup.find fuel (view_ref w v keys) k m
  unfolding find Lookup.find
  find-find fuel k m = ap (Option.map (λ p. p.0)) (
      walk-probe_loop fits fuel k (find_at v keys k m) _ tt
        (λ a lt.
          find_at-find_slot k m a
          ∙ ap (λ b. Lookup.find_slot (view_ref w v keys) k m b tt) (address_lem a)
          ∙ sym (one_slot _ tt))
        (λ a t lt e. refl))

  contains_at-contains_slot :
      (k : ℕ) (m : Memory) (a : ℕ)
      → contains_at v keys k m a tt ≡ Lookup.contains_slot (view_ref w v keys) k m a tt
  unfolding contains_at Lookup.contains_slot compare_key equal_to
  contains_at-contains_slot k m a =
      query_split ((m a).first == v.empty_key_sentinel) (keys.key_equal (m a).first k) _ _ _

  pub contains-contains :
      (fuel k : ℕ) (m : Memory)
      → contains fuel v keys k m ≡ Lookup.contains fuel (view_ref w v keys) k m
  unfolding contains Lookup.contains
  contains-contains fuel k m = ap (Option.map (λ p. p.0)) (
      walk-probe_loop fits fuel k (contains_at v keys k m) _ tt
        (λ a lt.
          contains_at-contains_slot k m a
          ∙ ap (λ b. Lookup.contains_slot (view_ref w v keys) k m b tt) (address_lem a)
          ∙ sym (one_slot _ tt))
        (λ a t lt e. refl))
