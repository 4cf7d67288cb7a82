-- ===== src/OpenAddressing/Arrival.antt =====
-- Where a query arrives, and what `contains` and `find` return there.
use mathlib.Core.Option
use cu_collections.Common.{
  ℕ, ◌<◌, ◌≡◌, ap, ◌∙◌, Bool, true, false, ◌⊎◌, inl, inr, arith, All, All-map, Split, First, first,
  none, some,
}
use cu_collections.Equality.{EqualResult, unequal, equal, empty, compare_key}
use cu_collections.OpenAddressing.Defs.{Memory, Ref, end, capacity, probe}
use cu_collections.OpenAddressing.Lookup.{compare_slot, contains_slot, contains, find_slot, find}
use cu_collections.OpenAddressing.Loop.{return, next, Outcome}
use cu_collections.OpenAddressing.Path.{
  path, scan, result, for_slots-scan, probe_loop-scan, scan_stop, scan_all,
}
use cu_collections.OpenAddressing.Table.{IsValidKey, Passed, HoldsAt}

-- The operations as passes over the path.
pub contains-scan :
    (fuel : ℕ) (r : Ref) (key : ℕ) (m : Memory)
    → contains fuel r key m
      ≡ Option.map (λ p. p.0) (result (scan (contains_slot r key m) (path fuel r key) tt))
unfolding contains path
contains-scan fuel r key m = ap (Option.map (λ p. p.0)) (
    probe_loop-scan (contains_slot r key m) r _
      (λ window s. for_slots-scan (contains_slot r key m) r window r.window_size 0 s) fuel
      (probe r key) tt)

pub find-scan :
    (fuel : ℕ) (r : Ref) (key : ℕ) (m : Memory)
    → find fuel r key m
      ≡ Option.map (λ p. p.0) (result (scan (find_slot r key m) (path fuel r key) tt))
unfolding find path
find-scan fuel r key m = ap (Option.map (λ p. p.0)) (
    probe_loop-scan (find_slot r key m) r _
      (λ window s. for_slots-scan (find_slot r key m) r window r.window_size 0 s) fuel (probe r key)
      tt)

module _ (r : Ref) (key : ℕ) (m : Memory) where
  -- A slot that is passed by in a container without duplicates.
  pub compare-Passed :
      (a : ℕ) → r.allows_duplicates ≡ false → Passed r m key a → compare_slot r key m a ≡ unequal
  unfolding compare_key
  compare-Passed a nodup p = ground (arith, p.1 nodup)

  pub compare_holder : (a : ℕ) → HoldsAt r m key a → compare_slot r key m a ≡ equal
  unfolding compare_key
  compare_holder a h = ground arith

  pub compare_equal :
      (a : ℕ)
      → IsValidKey r key
      → a < capacity r
      → compare_slot r key m a ≡ equal
      → HoldsAt r m key a
  unfolding compare_key
  compare_equal a v lt h = (lt, ground (arith, v.apart), ground arith)

abbrev pub stops : EqualResult → Bool
stops unequal = false
stops _ = true

-- The query for `key` passes by unequal slots and comes to one that compares as `seen`.
pub record Arrives (fuel : ℕ) (r : Ref) (key : ℕ) (m : Memory) (seen : EqualResult) : Type 0 where
  pub slot : ℕ
  pub split : Split (path fuel r key) slot
  pub skipped : All (λ b. compare_slot r key m b ≡ unequal) split.before
  pub sees : compare_slot r key m slot ≡ seen

-- A pass that goes on at unequal slots ends where the query arrives.
pub scan-Arrives {ℓ κ} :
    {R : Type ℓ} {S : Type κ} {fuel : ℕ} {r : Ref} {key : ℕ} {m : Memory} {seen : EqualResult}
    (w : Arrives fuel r key m seen) (visit : ℕ → S → Outcome R S) (s t : S) (x : R)
    → ((b : ℕ) → compare_slot r key m b ≡ unequal → visit b s ≡ some (next, s))
    → visit w.slot s ≡ some (return x, t)
    → scan visit (path fuel r key) s ≡ some (return x, t)
scan-Arrives {r} {key} {m} w visit s t x pass e = rw w.split.whole (
    scan_stop visit w.split.before w.split.after w.slot s t x
      (All-map (λ b. compare_slot r key m b ≡ unequal) (λ b. visit b s ≡ some (next, s)) pass
        w.split.before w.skipped)
      e)

module _ (fuel : ℕ) (r : Ref) (key : ℕ) (m : Memory) where
  pub contains_empty : Arrives fuel r key m empty → contains fuel r key m ≡ some false
  contains_empty w =
      contains-scan fuel r key m
      ∙ ap (λ o. Option.map (λ p. p.0) (result o))
          (scan-Arrives w (contains_slot r key m) tt tt false
            (λ b e. unfold contains_slot in rw (e, contains_slot))
            (unfold contains_slot in rw (w.sees, contains_slot)))

  pub contains_equal : Arrives fuel r key m equal → contains fuel r key m ≡ some true
  contains_equal w =
      contains-scan fuel r key m
      ∙ ap (λ o. Option.map (λ p. p.0) (result o))
          (scan-Arrives w (contains_slot r key m) tt tt true
            (λ b e. unfold contains_slot in rw (e, contains_slot))
            (unfold contains_slot in rw (w.sees, contains_slot)))

  pub find_empty : Arrives fuel r key m empty → find fuel r key m ≡ some (end r)
  find_empty w =
      find-scan fuel r key m
      ∙ ap (λ o. Option.map (λ p. p.0) (result o))
          (scan-Arrives w (find_slot r key m) tt tt (end r)
            (λ b e. unfold find_slot in rw (e, find_slot))
            (unfold find_slot in rw (w.sees, find_slot)))

  pub find_equal : (w : Arrives fuel r key m equal) → find fuel r key m ≡ some w.slot
  find_equal w =
      find-scan fuel r key m
      ∙ ap (λ o. Option.map (λ p. p.0) (result o))
          (scan-Arrives w (find_slot r key m) tt tt w.slot
            (λ b e. unfold find_slot in rw (e, find_slot))
            (unfold find_slot in rw (w.sees, find_slot)))

  -- A query that never comes to an empty slot or to an equal key does not end.
  pub contains_never :
      All (λ b. compare_slot r key m b ≡ unequal) (path fuel r key) → contains fuel r key m ≡ none
  contains_never h =
      contains-scan fuel r key m
      ∙ ap (λ o. Option.map (λ p. p.0) (result o))
          (scan_all (contains_slot r key m) (path fuel r key) tt (
            All-map (λ b. compare_slot r key m b ≡ unequal)
              (λ b. contains_slot r key m b tt ≡ some (next, tt))
              (λ b e. unfold contains_slot in rw (e, contains_slot)) (path fuel r key) h))

  pub find_never :
      All (λ b. compare_slot r key m b ≡ unequal) (path fuel r key) → find fuel r key m ≡ none
  find_never h =
      find-scan fuel r key m
      ∙ ap (λ o. Option.map (λ p. p.0) (result o))
          (scan_all (find_slot r key m) (path fuel r key) tt (
            All-map (λ b. compare_slot r key m b ≡ unequal)
              (λ b. find_slot r key m b tt ≡ some (next, tt))
              (λ b e. unfold find_slot in rw (e, find_slot)) (path fuel r key) h))

  pub compare_cases :
      (a : ℕ)
      → stops (compare_slot r key m a) ≡ true
      → (compare_slot r key m a ≡ empty) ⊎ (compare_slot r key m a ≡ equal)
  unfolding compare_key
  compare_cases a h = ground arith

  pub stops-unequal :
      (a : ℕ) → stops (compare_slot r key m a) ≡ false → compare_slot r key m a ≡ unequal
  unfolding compare_key
  stops-unequal a h = ground arith

  pub from_first :
      (f : First (λ b. stops (compare_slot r key m b)) (path fuel r key)) {seen : EqualResult}
      → compare_slot r key m f.item ≡ seen
      → Arrives fuel r key m seen
  from_first f e = record {
    slot = f.item;
    split = f.split;
    skipped =
        All-map (λ b. stops (compare_slot r key m b) ≡ false)
          (λ b. compare_slot r key m b ≡ unequal) stops-unequal f.split.before f.before_fails;
    sees = e;
  }

  -- A query passes by every slot, or comes to a first one that is empty or holds an equal key.
  pub Arrives-cases :
      All (λ b. compare_slot r key m b ≡ unequal) (path fuel r key)
      ⊎ (Arrives fuel r key m empty ⊎ Arrives fuel r key m equal)
  Arrives-cases = elim (first (λ b. stops (compare_slot r key m b)) (path fuel r key)) [
    | inl never ↦ inl (
        All-map (λ b. stops (compare_slot r key m b) ≡ false)
          (λ b. compare_slot r key m b ≡ unequal) stops-unequal (path fuel r key) never)
    | inr f ↦ elim (compare_cases f.item f.passes) [
      | inl e ↦ inr (inl (from_first f e))
      | inr e ↦ inr (inr (from_first f e))
    ]
  ]
