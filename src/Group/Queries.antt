-- ===== src/Group/Queries.antt =====
-- `contains`, `find`, `count` and `for_each` of a group that runs alone.
use mathlib.Core.Option
use cu_collections.Common.{
  ℕ, zero, suc, ◌+◌, ◌%◌, ◌^◌, Option, none, some, Bool, true, false, ◌||◌, if◌then◌else◌, List, [],
  ◌∷◌, map, replicate,
}
use cu_collections.Equality.{equal, empty, querying}
use cu_collections.OpenAddressing.Defs.{Slot, Memory, Ref, end, slot_address}
use cu_collections.OpenAddressing.Lookup.{compare_slot}
use cu_collections.Group.Lanes.{
  Lane, probe_group, find_lane, slot_ptr, any, src_lane, finish, step, GroupOutcome, group_loop,
}
use cu_collections.Probing.{ProbingIterator}

unfoldable pub contains_group_lanes : List Lane → GroupOutcome Bool (Unit {0})
unfolding any
contains_group_lanes lanes =
    if any equal lanes
    then some (finish true, tt)
    else if any empty lanes
    then some (finish false, tt)
    else some (step, tt)

unfoldable pub contains_group : ℕ → Ref → ℕ → ℕ → Memory → Option Bool
contains_group fuel r cg_size key m =
    Option.map (λ p. p.0)
      (group_loop fuel r.size_bits (probe_group r cg_size key)
        (λ its _. contains_group_lanes (map (find_lane querying r key m) its)) tt)

unfoldable pub find_group_lanes : Ref → List Lane → GroupOutcome ℕ (Unit {0})
unfolding any src_lane
find_group_lanes r lanes = elim (src_lane equal lanes) [
  | some lane ↦ some (finish (slot_ptr r lane), tt)
  | none ↦ some (if any empty lanes then finish (end r) else step, tt)
]

unfoldable pub find_group : ℕ → Ref → ℕ → ℕ → Memory → Option ℕ
find_group fuel r cg_size key m =
    Option.map (λ p. p.0)
      (group_loop fuel r.size_bits (probe_group r cg_size key)
        (λ its _. find_group_lanes r (map (find_lane querying r key m) its)) tt)

-- One lane's window in `count`: whether it met an empty slot, and the lane's count.
unfoldable pub count_window : Ref → ℕ → Memory → ℕ → ℕ → ℕ → ℕ → Bool × ℕ
count_window r key m window zero i n = (false, n)
count_window r key m window (suc k) i n = elim (compare_slot r key m (slot_address r window i)) [
  | empty ↦ (true, n)
  | equal ↦ count_window r key m window k (suc i) ((n + 1) % 2 ^ r.size_bits)
  | _ ↦ count_window r key m window k (suc i) n
]

-- The lanes of one round: whether any met an empty slot, and their counts.
unfoldable pub count_lanes : Ref → ℕ → Memory → List ProbingIterator → List ℕ → Bool × List ℕ
unfolding count_window
count_lanes r key m [] counts = (false, [])
count_lanes r key m (it ∷ its) [] = (false, [])
count_lanes r key m (it ∷ its) (n ∷ counts) =
    let (met, n') = count_window r key m it.curr_index r.window_size 0 n in
    let (others, counts') = count_lanes r key m its counts in (met || others, n' ∷ counts')

-- The counts that the threads return, by their ranks.
unfoldable pub count_group : ℕ → Ref → ℕ → ℕ → Memory → Option (List ℕ)
unfolding count_lanes
count_group fuel r cg_size key m =
    Option.map (λ p. p.1)
      (group_loop {R = Unit {0}} fuel r.size_bits (probe_group r cg_size key)
        (λ its counts.
          let (met, counts') = count_lanes r key m its counts in
          some (if met then finish tt else step, counts'))
        (replicate cg_size 0))

module _ {ℓ} {C : Type ℓ} (r : Ref) (key : ℕ) (m : Memory) (callback_op : ℕ → Slot → C → C) where
  -- One lane's window in `for_each`; `callback_op` is given the lane's rank.
  unfoldable pub for_each_window : ℕ → ℕ → ℕ → ℕ → C → Bool × C
  for_each_window rank window zero i c = (false, c)
  for_each_window rank window (suc k) i c =
      let address = slot_address r window i in
      elim (compare_slot r key m address) [
        | empty ↦ (true, c)
        | equal ↦ for_each_window rank window k (suc i) (callback_op rank (m address) c)
        | _ ↦ for_each_window rank window k (suc i) c
      ]

  -- The lanes of one round, one after the other.
  unfoldable pub for_each_lanes : ℕ → List ProbingIterator → C → Bool × C
  unfolding for_each_window
  for_each_lanes rank [] c = (false, c)
  for_each_lanes rank (it ∷ its) c =
      let (met, c') = for_each_window rank it.curr_index r.window_size 0 c in
      let (others, c'') = for_each_lanes (suc rank) its c' in (met || others, c'')

  unfoldable pub for_each_group : ℕ → ℕ → C → Option C
  unfolding for_each_lanes
  for_each_group fuel cg_size c =
      Option.map (λ p. p.1)
        (group_loop {R = Unit {0}} fuel r.size_bits (probe_group r cg_size key)
          (λ its c.
            let (met, c') = for_each_lanes 0 its c in some (if met then finish tt else step, c'))
          c)

  -- the overload with `sync_op`, which the group runs after each round
  unfoldable pub for_each_sync_group : (C → C) → ℕ → ℕ → C → Option C
  unfolding for_each_lanes
  for_each_sync_group sync_op fuel cg_size c =
      Option.map (λ p. p.1)
        (group_loop {R = Unit {0}} fuel r.size_bits (probe_group r cg_size key)
          (λ its c.
            let (met, c') = for_each_lanes 0 its c in
            some (if met then finish tt else step, sync_op c'))
          c)
