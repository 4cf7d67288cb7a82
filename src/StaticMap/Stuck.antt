-- ===== src/StaticMap/Stuck.antt =====
-- A group's `insert_or_assign` where the first free slot that it finds is an erased one.
use cu_collections.Common.{ℕ, zero, suc, ◌≡◌, ◌≢◌, refl, false, none, some, map, ==_of_ne}
use cu_collections.Equality.{equal, available, inserting, equal_to}
use cu_collections.OpenAddressing.Cas.{cas_key}
use cu_collections.OpenAddressing.Defs.{Slot, Memory, Ref}
use cu_collections.StaticMap.Assign.{
  is_equal, attempt_insert_or_assign, assign_group_lanes, insert_or_assign_group,
}
use cu_collections.Group.Lanes.{Lane, probe_group, find_lane, slot_ptr, src_lane, retry, group_loop}

module _ (r : Ref) (cg_size : ℕ) (val : Slot) (m : Memory) (lane : Lane) where
  attempt_refused :
      (a : ℕ)
      → (m a).first ≢ r.empty_slot_sentinel.first
      → r.predicate.equal_fn val.first (m a).first ≡ false
      → attempt_insert_or_assign r m a val ≡ (false, m)
  unfolding attempt_insert_or_assign cas_key equal_to is_equal
  attempt_refused a ne other = rw (==_of_ne (m a).first r.empty_slot_sentinel.first ne) (rw other)

  -- Where a group's `insert_or_assign` finds no equal key in its first windows and the first free
  -- slot holds another key than the empty sentinel, as an erased slot does, which is not equal to
  -- the new key, it does not end with any fuel.
  pub insert_or_assign_group_stuck :
      src_lane equal (map (find_lane inserting r val.first m) (probe_group r cg_size val.first))
        ≡ none
      → src_lane available
          (map (find_lane inserting r val.first m) (probe_group r cg_size val.first))
        ≡ some lane
      → (m (slot_ptr r lane)).first ≢ r.empty_slot_sentinel.first
      → r.predicate.equal_fn val.first (m (slot_ptr r lane)).first ≡ false
      → (fuel : ℕ) → insert_or_assign_group fuel r cg_size val m ≡ none
  unfolding insert_or_assign_group group_loop
  insert_or_assign_group_stuck no_equal first_free ne other zero = refl
  insert_or_assign_group_stuck no_equal first_free ne other (suc fuel) =
      rw (round, group_loop) (insert_or_assign_group_stuck no_equal first_free ne other fuel)
    where
      round :
          assign_group_lanes r val m
            (map (find_lane inserting r val.first m) (probe_group r cg_size val.first))
          ≡ some (retry, m)
      round =
          unfold assign_group_lanes in
          rw (no_equal, assign_group_lanes)
            (rw (first_free) (rw (attempt_refused (slot_ptr r lane) ne other)))
