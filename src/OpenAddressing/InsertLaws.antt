-- ===== src/OpenAddressing/InsertLaws.antt =====
-- What `insert` does to a table, and to the map from keys to payloads that the table stands for.
use cu_collections.Common.{
  ℕ, ◌<◌, ◌≤◌, ◌≡◌, refl, subst, true, false, ◌⊎◌, inl, inr, ◌↔◌, arith, All-In, Split, first,
  In-middle, In→All, In, In-append_left, ◌∷◌, some, eq-or-ne,
}
use cu_collections.OpenAddressing.Defs.{Slot, Memory, write, Ref, capacity}
use cu_collections.OpenAddressing.Insert.{insert}
use cu_collections.OpenAddressing.Insertion.{
  halts, compare_insert, compare_insert-available, compare_insert-HoldsAt, compare_insert-cases,
  compare_insert-passed, visit_equal, visit_available, Comes, insert-Comes, Comes-Chain,
}
use cu_collections.OpenAddressing.Path.{path}
use cu_collections.OpenAddressing.Reach.{IsRef, path-lt-capacity}
use cu_collections.OpenAddressing.Steps.{write_here, write_other}
use cu_collections.OpenAddressing.Table.{
  IsKeyEqual, IsValidKey, is_available, Passed, IsTable, HoldsAt, Present, Chain-for,
}
use cu_collections.OpenAddressing.Writes.{valid-not-available, write-IsTable}

-- Every slot that holds the erased sentinel is an empty one: nothing was erased, or the container
-- was made without an erased key, which sets both sentinels to the same key.
abbrev pub NoneErased : Ref → Memory → Type 0
NoneErased r m =
    (a : ℕ)
    → a < capacity r
    → (m a).first ≡ r.predicate.erased_sentinel
    → (m a).first ≡ r.predicate.empty_sentinel

-- The table maps `k` to `v`.
abbrev pub Maps : Ref → Memory → ℕ → ℕ → Type 0
Maps r m k v = (a : ℕ) × HoldsAt r m k a × ((m a).second ≡ v)

-- A slot that was free now holds the new element, and the memory is a table again.
pub record Inserted (r : Ref) (m : Memory) (val : Slot) (m' : Memory) : Type 0 where
  pub slot : ℕ
  pub inside : slot < capacity r
  pub was_free : is_available r (m slot) ≡ true
  pub written : m' ≡ write m slot val
  pub table : IsTable r m'

module _ {r : Ref} {m : Memory} (ref : IsRef r) (ok : IsKeyEqual r) (t : IsTable r m)
    (nodup : r.allows_duplicates ≡ false) (fuel : ℕ) (enough : r.num_windows ≤ fuel) (val : Slot)
    (v : IsValidKey r val.first) where
  inside_path : (a : ℕ) → Split (path r.num_windows r val.first) a → a < capacity r
  inside_path a s =
      All-In (λ a. a < capacity r) a (path r.num_windows r val.first)
        (path-lt-capacity ref r.num_windows val.first) (rw s.whole (In-middle a s.before s.after))

  -- The probe for an insertion comes to a slot, if there is a free one on its path.
  free_Comes :
      (free : ℕ)
      → Split (path r.num_windows r val.first) free
      → is_available r (m free) ≡ true
      → (a : ℕ) × Comes r val.first m a × (halts (compare_insert r val.first m a) ≡ true)
  free_Comes free s h =
      elim (first (λ b. halts (compare_insert r val.first m b)) (path r.num_windows r val.first)) [
        | inl never ↦
            let here =
              All-In (λ b. halts (compare_insert r val.first m b) ≡ false) free
                (path r.num_windows r val.first) never
                (rw s.whole (In-middle free s.before s.after)) in
            cc (here, compare_insert-available r val.first m free h)
        | inr f ↦ (f.item, record { split = f.split; goes_on = f.before_fails }, f.passes)
      ]

  -- For a key that is not there the slot that it comes to is free, and takes the element.
  pub absent-Comes :
      (free : ℕ)
      → Split (path r.num_windows r val.first) free
      → is_available r (m free) ≡ true
      → ¬ Present r m val.first
      → (a : ℕ) × Comes r val.first m a
        × (a < capacity r)
        × (is_available r (m a) ≡ true)
        × Inserted r m val (write m a val)
  absent-Comes free s h absent =
      let (a, w, stop) = free_Comes free s h in
      let lt = inside_path a w.split in
      elim (compare_insert-cases r val.first m a stop) [
        | inr e ↦ absurd (absent (a, (lt, e.0, e.1)))
        | inl e ↦ (
          a,
          w,
          lt,
          e,
          record {
            slot = a;
            inside = lt;
            was_free = e;
            written = refl;
            table =
                write-IsTable ok t a val v (Comes-Chain fuel enough val a stop w v) (λ _. absent);
          },
        )
      ]

  -- In a container without duplicates, given a well-formed table and fuel for all windows: if no
  -- slot holds the valid key and its probe has a free slot, `insert` returns true, and writes the
  -- element to one slot that was free; the memory is a table again.
  pub insert-absent :
      (free : ℕ)
      → Split (path r.num_windows r val.first) free
      → is_available r (m free) ≡ true
      → ¬ Present r m val.first
      → (m' : Memory) × (insert fuel r val m ≡ some (true, m')) × Inserted r m val m'
  insert-absent free s h absent =
      let (a, w, lt, e, inserted) = absent-Comes free s h absent in
      (
        write m a val,
        insert-Comes fuel enough val a true (write m a val) w (
            visit_available fuel r val m a (t.idle a lt e)
              (compare_insert-available r val.first m a e)),
        inserted,
      )

  inside_before :
      {a : ℕ} (b : ℕ) (s : Split (path r.num_windows r val.first) a)
      → In b s.before
      → b < capacity r
  inside_before {a} b s i =
      All-In (λ a. a < capacity r) b (path r.num_windows r val.first)
        (path-lt-capacity ref r.num_windows val.first)
        (rw s.whole (In-append_left b s.before (a ∷ s.after) i))

  goes_on_past :
      NoneErased r m
      → (b : ℕ) → b < capacity r
      → Passed r m val.first b
      → halts (compare_insert r val.first m b) ≡ false
  goes_on_past clean b lt p =
      compare_insert-passed r val.first m b (ground (arith, clean b lt, p.0)) (p.1 nodup)

  -- It comes to the slot that holds the key, if no slot is an erased one.
  pub holder_Comes : NoneErased r m → (a : ℕ) → HoldsAt r m val.first a → Comes r val.first m a
  holder_Comes clean a h =
      let c = Chain-for ok t a h in
      record {
        split = c.split;
        goes_on =
            In→All (λ b. halts (compare_insert r val.first m b) ≡ false) c.split.before
              (λ b i.
                goes_on_past clean b (inside_before b c.split i)
                  (All-In (Passed r m val.first) b c.split.before c.passed i));
      }

  -- In a container without duplicates, given a well-formed table and fuel for all windows: if a
  -- slot holds the valid key and no slot is an erased one, `insert` returns false and leaves the
  -- memory as it is.
  pub insert-Present :
      NoneErased r m → Present r m val.first → insert fuel r val m ≡ some (false, m)
  insert-Present clean (a, h) =
      insert-Comes fuel enough val a false m (holder_Comes clean a h)
        (visit_equal fuel r val m a nodup (compare_insert-HoldsAt r val.first m a h))

-- What the memory after an insertion maps.
pub Inserted-Maps :
    {r : Ref} {m m' : Memory} {val : Slot}
    → IsValidKey r val.first
    → Inserted r m val m'
    → (k x : ℕ)
    → Maps r m' k x
      ↔ (((r.predicate.equal_fn k val.first ≡ true) × (val.second ≡ x)) ⊎ Maps r m k x)
Inserted-Maps {r} {m} {m'} {val} v i k x = rw i.written (to, from)
  where
    a : ℕ
    a = i.slot

    to :
        Maps r (write m a val) k x
        → ((r.predicate.equal_fn k val.first ≡ true) × (val.second ≡ x)) ⊎ Maps r m k x
    to (b, (lt, filled, same), e) = elim (eq-or-ne b a) [
      | inl here ↦
          let w = write_here m a b val here in
          inl (
            subst (λ (s : Slot). r.predicate.equal_fn k s.first ≡ true) w same,
            subst (λ (s : Slot). s.second ≡ x) w e,
          )
      | inr ne ↦
          let w = write_other m a b val ne in
          inr (
            b,
            (
              lt,
              subst (λ s. is_available r s ≡ false) w filled,
              subst (λ (s : Slot). r.predicate.equal_fn k s.first ≡ true) w same,
            ),
            subst (λ (s : Slot). s.second ≡ x) w e,
          )
    ]

    from :
        ((r.predicate.equal_fn k val.first ≡ true) × (val.second ≡ x)) ⊎ Maps r m k x
        → Maps r (write m a val) k x
    from (inl (same, e)) =
        let w = write_here m a a val refl in
        (a, (i.inside, rw w (valid-not-available r val v), rw w same), rw w e)
    from (inr (b, (lt, filled, same), e)) =
        let w = write_other m a b val (λ here. taken b filled here) in
        (b, (lt, rw w filled, rw w same), rw w e)
      where
        taken : (b : ℕ) → is_available r (m b) ≡ false → b ≡ a → ⊥
        taken b filled here = cc (subst (λ b. is_available r (m b) ≡ false) here filled, i.was_free)

-- In a well-formed table without duplicates, with fuel for all windows and a free slot on the path
-- of a valid key that no slot holds, `insert` ends and returns true, the memory is a well-formed
-- table again, and it maps a key to a payload exactly if the key is equal to the new one and the
-- payload is the new one, or the table did so before.
pub insert-Maps :
    {r : Ref} {m : Memory} (ref : IsRef r) (ok : IsKeyEqual r)
    → IsTable r m
    → r.allows_duplicates ≡ false
    → (fuel : ℕ) → r.num_windows ≤ fuel
    → (val : Slot) → IsValidKey r val.first
    → (free : ℕ) → Split (path r.num_windows r val.first) free
    → is_available r (m free) ≡ true
    → ¬ Present r m val.first
    → (m' : Memory) × (insert fuel r val m ≡ some (true, m'))
      × IsTable r m'
      × ((k x : ℕ)
          → Maps r m' k x
            ↔ (((r.predicate.equal_fn k val.first ≡ true) × (val.second ≡ x)) ⊎ Maps r m k x))
insert-Maps ref ok t nodup fuel enough val v free s h absent =
    let (m', done, i) = insert-absent ref ok t nodup fuel enough val v free s h absent in
    (m', done, i.table, Inserted-Maps v i)
