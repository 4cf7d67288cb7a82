-- ===== src/OpenAddressing/Insertion.antt =====
-- `insert` as a pass over the path of the key, and what it does to a table.
use cu_collections.Common.{
  ℕ, ◌≤◌, ◌≡◌, ◌≢◌, ap, ◌∙◌, subst, Bool, true, false, ◌⊎◌, inl, inr, arith, All, All-map, Split,
  some,
}
use cu_collections.Equality.{EqualResult, unequal, equal, available, inserting, compare_key}
use cu_collections.OpenAddressing.Defs.{Slot, Memory, write, Ref, empty_value_sentinel, probe}
use cu_collections.OpenAddressing.Insert.{insert_switch, insert_slot, insert_window, insert}
use cu_collections.OpenAddressing.Loop.{return, next, Outcome}
use cu_collections.OpenAddressing.Path.{
  path, scan, result, for_slots_snapshot, probe_loop-scan, scan_stop,
}
use cu_collections.OpenAddressing.Reach.{Split-le}
use cu_collections.OpenAddressing.Steps.{write_other, attempt_insert_lem, attempt_insert_shape}
use cu_collections.OpenAddressing.Table.{IsValidKey, is_available, Passed, Chain, HoldsAt}

-- one visit: the slot is read, then updated
abbrev pub insert_visit : ℕ → Ref → Slot → ℕ → Memory → Outcome Bool Memory
insert_visit fuel r val a m = insert_slot fuel r val (m a) a m

abbrev pub compare_insert : Ref → ℕ → Memory → ℕ → EqualResult
compare_insert r key m a = compare_key inserting r.predicate key (m a).first

module _ (fuel : ℕ) (r : Ref) (val : Slot) where
  insert_visit_keeps :
      (a : ℕ) (m m' : Memory) → insert_slot fuel r val (m a) a m ≡ some (next, m') → m' ≡ m
  unfolding insert_slot insert_switch
  insert_visit_keeps a m m' h = elim (attempt_insert_shape fuel r m a val) [
    | inl e ↦ ground (arith, e)
    | inr (n, e) ↦ ground (arith, e)
  ]

  pub insert-scan :
      (m : Memory)
      → insert fuel r val m ≡ result (scan (insert_visit fuel r val) (path fuel r val.first) m)
  unfolding insert path
  insert-scan m =
      probe_loop-scan (insert_visit fuel r val) r (insert_window fuel r val)
        (λ window s.
          unfold insert_window in
          for_slots_snapshot (λ a s m. insert_slot fuel r val (s a) a m) r insert_visit_keeps window
            r.window_size 0 s)
        fuel (probe r val.first) m

module _ (fuel : ℕ) (r : Ref) (val : Slot) (m : Memory) (a : ℕ) where
  pub visit_unequal :
      compare_insert r val.first m a ≡ unequal → insert_visit fuel r val a m ≡ some (next, m)
  unfolding insert_slot
  visit_unequal e = rw (e, insert_slot)

  pub visit_equal :
      r.allows_duplicates ≡ false
      → compare_insert r val.first m a ≡ equal
      → insert_visit fuel r val a m ≡ some (return false, m)
  unfolding insert_slot
  visit_equal nodup e = rw (e, insert_slot) (rw nodup)

  pub visit_available :
      (m a).second ≡ empty_value_sentinel r
      → compare_insert r val.first m a ≡ available
      → insert_visit fuel r val a m ≡ some (return true, write m a val)
  unfolding insert_slot insert_switch
  visit_available idle e = rw (e, insert_slot) (rw (attempt_insert_lem fuel r m a val idle))

abbrev pub halts : EqualResult → Bool
halts unequal = false
halts _ = true

module _ (r : Ref) (key : ℕ) (m : Memory) (a : ℕ) where
  pub compare_insert-available : is_available r (m a) ≡ true → compare_insert r key m a ≡ available
  unfolding compare_key
  compare_insert-available h = ground arith

  pub compare_insert-HoldsAt : HoldsAt r m key a → compare_insert r key m a ≡ equal
  unfolding compare_key
  compare_insert-HoldsAt h = ground arith

  pub compare_insert-cases :
      halts (compare_insert r key m a) ≡ true
      → (is_available r (m a) ≡ true)
        ⊎ ((is_available r (m a) ≡ false) × (r.predicate.equal_fn key (m a).first ≡ true))
  unfolding compare_key
  compare_insert-cases h = ground arith

  pub compare_insert-goes_on :
      halts (compare_insert r key m a) ≡ false
      → (compare_insert r key m a ≡ unequal)
        × (is_available r (m a) ≡ false)
        × (r.predicate.equal_fn key (m a).first ≡ false)
  unfolding compare_key
  compare_insert-goes_on h = (ground arith, ground arith, ground arith)

  pub compare_insert-passed :
      is_available r (m a) ≡ false
      → r.predicate.equal_fn key (m a).first ≡ false
      → halts (compare_insert r key m a) ≡ false
  unfolding compare_key
  compare_insert-passed h e = ground arith

-- The probe for an insertion comes first to the slot `a`.
pub record Comes (r : Ref) (key : ℕ) (m : Memory) (a : ℕ) : Type 0 where
  pub split : Split (path r.num_windows r key) a
  pub goes_on : All (λ b. halts (compare_insert r key m b) ≡ false) split.before

module _ {r : Ref} {m : Memory} (fuel : ℕ) (enough : r.num_windows ≤ fuel) (val : Slot) where
  -- A pass that goes on at unequal slots ends where the probe comes to.
  pub scan-Comes {ℓ} :
      {R : Type ℓ} (visit : ℕ → Memory → Outcome R Memory)
      → ((b : ℕ) → compare_insert r val.first m b ≡ unequal → visit b m ≡ some (next, m))
      → (a : ℕ) (x : R) (m' : Memory) → Comes r val.first m a
      → visit a m ≡ some (return x, m')
      → result (scan visit (path fuel r val.first) m) ≡ some (x, m')
  scan-Comes visit goes_on a x m' w e =
      let (rest, whole) = Split-le r r.num_windows fuel val.first a enough w.split in
      ap (λ p. result (scan visit p m)) whole
      ∙ ap result (
          scan_stop visit w.split.before rest a m m' x
            (All-map (λ b. halts (compare_insert r val.first m b) ≡ false)
              (λ b. visit b m ≡ some (next, m))
              (λ b g. goes_on b (compare_insert-goes_on r val.first m b g).0) w.split.before
              w.goes_on)
            e)

  pub insert-Comes :
      (a : ℕ) (answer : Bool) (m' : Memory)
      → Comes r val.first m a
      → insert_visit fuel r val a m ≡ some (return answer, m')
      → insert fuel r val m ≡ some (answer, m')
  insert-Comes a answer m' w e =
      insert-scan fuel r val m
      ∙ scan-Comes (insert_visit fuel r val) (visit_unequal fuel r val m) a answer m' w e

  pub Comes-Chain :
      (a : ℕ)
      → halts (compare_insert r val.first m a) ≡ true
      → Comes r val.first m a
      → IsValidKey r val.first
      → Chain r (write m a val) val.first a
  Comes-Chain a stop w v = record {
    split = w.split;
    passed =
        All-map (λ b. halts (compare_insert r val.first m b) ≡ false)
          (Passed r (write m a val) val.first)
          (λ b g. before b g (compare_insert-goes_on r val.first m b g)) w.split.before w.goes_on;
  }
    where
      before :
          (b : ℕ)
          → halts (compare_insert r val.first m b) ≡ false
          → (compare_insert r val.first m b ≡ unequal)
            × (is_available r (m b) ≡ false)
            × (r.predicate.equal_fn val.first (m b).first ≡ false)
          → Passed r (write m a val) val.first b
      before b g h =
          let apart : b ≢ a =
            λ e. cc (stop, subst (λ c. halts (compare_insert r val.first m c) ≡ false) e g) in
          rw (write_other m a b val apart) (ground (arith, h.1), λ _. h.2)
