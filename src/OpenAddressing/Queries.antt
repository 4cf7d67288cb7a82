-- ===== src/OpenAddressing/Queries.antt =====
-- `contains` and `find` agree with the content of the table.

use native.Mathlib.Nat.{mul-le-mul_left}
use cu_collections.Common.{
  ℕ, ◌<◌, ◌≤◌, ◌≡◌, refl, true, false, ◌↔◌, ◌⊎◌, inl, inr, arith, All-map, All-In, Split, In-middle,
  some,
}
use cu_collections.Equality.{unequal, equal, empty, compare_key}
use cu_collections.OpenAddressing.Defs.{Memory, Ref, end, capacity}
use cu_collections.OpenAddressing.Lookup.{compare_slot, contains, find}
use cu_collections.OpenAddressing.Path.{path}
use cu_collections.OpenAddressing.Reach.{IsRef, path-lt-capacity, Split-le}
use cu_collections.OpenAddressing.Table.{
  IsKeyEqual, IsValidKey, Passed, IsTable, HoldsAt, Present, Chain-for,
}
use cu_collections.OpenAddressing.Arrival.{
  Arrives, contains_empty, contains_equal, contains_never, find_empty, find_equal, compare-Passed,
  compare_holder, compare_equal, Arrives-cases,
}

-- What a table answers to a query, in a container without duplicates.
module _ {r : Ref} {m : Memory} (ref : IsRef r) (ok : IsKeyEqual r) (t : IsTable r m)
    (nodup : r.allows_duplicates ≡ false) (fuel : ℕ) (enough : r.num_windows ≤ fuel) (key : ℕ) where
  -- The query for a key that is present arrives at its slot.
  pub Arrives-holder : (a : ℕ) → HoldsAt r m key a → (w : Arrives fuel r key m equal) × (w.slot ≡ a)
  Arrives-holder a h =
      let c = Chain-for ok t a h in
      let (rest, e) = Split-le r r.num_windows fuel key a enough c.split in
      (
        record {
          slot = a;
          split = record { before = c.split.before; after = rest; whole = e };
          skipped =
              All-map (Passed r m key) (λ b. compare_slot r key m b ≡ unequal)
                (λ b. compare-Passed r key m b nodup) c.split.before c.passed;
          sees = compare_holder r key m a h;
        },
        refl,
      )

  pub Arrives-HoldsAt : IsValidKey r key → (w : Arrives fuel r key m equal) → HoldsAt r m key w.slot
  Arrives-HoldsAt v w =
      compare_equal r key m w.slot v
        (All-In (λ a. a < capacity r) w.slot (path fuel r key) (path-lt-capacity ref fuel key)
          (rw w.split.whole (In-middle w.slot w.split.before w.split.after)))
        w.sees

  -- In a well-formed table without duplicates, with fuel for all windows, `contains` returns true
  -- for a valid key exactly if some slot holds the key.
  pub contains-Present : IsValidKey r key → (contains fuel r key m ≡ some true) ↔ Present r m key
  contains-Present v = (
    λ e. elim (Arrives-cases fuel r key m) [
      | inl never ↦ cc (e, contains_never fuel r key m never)
      | inr (inl w) ↦ cc (e, contains_empty fuel r key m w)
      | inr (inr w) ↦ (w.slot, Arrives-HoldsAt v w)
    ],
    λ p. contains_equal fuel r key m (Arrives-holder p.0 p.1).0,
  )

  compare_empty :
      (a : ℕ) → (m a).first ≡ r.predicate.empty_sentinel → compare_slot r key m a ≡ empty
  unfolding compare_key
  compare_empty a h = ground arith

  -- With an empty slot on its path the query comes to a slot that decides.
  pub Arrives-total :
      (a : ℕ)
      → Split (path r.num_windows r key) a
      → (m a).first ≡ r.predicate.empty_sentinel
      → Arrives fuel r key m empty ⊎ Arrives fuel r key m equal
  Arrives-total a s h = elim (Arrives-cases fuel r key m) [
    | inl never ↦
        let (rest, e) = Split-le r r.num_windows fuel key a enough s in
        let here =
          All-In (λ b. compare_slot r key m b ≡ unequal) a (path fuel r key) never
            (rw e (In-middle a s.before rest)) in
        cc (here, compare_empty a h)
    | inr w ↦ w
  ]

  -- In a well-formed table without duplicates, with fuel for all windows and an empty slot on the
  -- path of a valid key, `contains` ends, and returns true if a slot holds the key and false if
  -- none does.
  pub contains-decides :
      IsValidKey r key
      → (a : ℕ) → Split (path r.num_windows r key) a
      → (m a).first ≡ r.predicate.empty_sentinel
      → ((contains fuel r key m ≡ some true) × Present r m key)
        ⊎ ((contains fuel r key m ≡ some false) × (¬ Present r m key))
  contains-decides v a s h = elim (Arrives-total a s h) [
    | inl w ↦ inr (
      contains_empty fuel r key m w,
      λ p. cc (contains_empty fuel r key m w, (contains-Present v).1 p),
    )
    | inr w ↦ inl (contains_equal fuel r key m w, (w.slot, Arrives-HoldsAt v w))
  ]

  -- A slot of the storage comes before the end.
  inside_end : (b : ℕ) → b < capacity r → b < end r
  unfolding end
  inside_end b lt = omega (arith, lt, mul-le-mul_left (capacity r) ref.some_slot)

  -- In a well-formed table without duplicates, with fuel for all windows and an empty slot on the
  -- path of a valid key, `find` ends, and returns a slot that holds the key and lies before
  -- `end()`, or `end()` if no slot holds it.
  pub find-decides :
      IsValidKey r key
      → (a : ℕ) → Split (path r.num_windows r key) a
      → (m a).first ≡ r.predicate.empty_sentinel
      → ((b : ℕ) × (find fuel r key m ≡ some b) × HoldsAt r m key b × (b < end r))
        ⊎ ((find fuel r key m ≡ some (end r)) × (¬ Present r m key))
  find-decides v a s h = elim (Arrives-total a s h) [
    | inl w ↦ inr (
      find_empty fuel r key m w,
      λ p. cc (contains_empty fuel r key m w, (contains-Present v).1 p),
    )
    | inr w ↦
        let held = Arrives-HoldsAt v w in
        inl (w.slot, find_equal fuel r key m w, held, inside_end w.slot held.0)
  ]
