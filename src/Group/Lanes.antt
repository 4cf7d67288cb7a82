-- ===== src/Group/Lanes.antt =====
-- The threads ("lanes") of a cooperative group, by their ranks, and the loop that they run in step.
-- The group's collective calls are the points where the lanes meet.
use cu_collections.Common.{
  ℕ, zero, suc, Option, none, some, Bool, true, false, ◌||◌, if◌then◌else◌, List, [], ◌∷◌, map,
}
use cu_collections.Equality.{EqualResult, unequal, equal, empty, available, IsInsert, compare_key}
use cu_collections.OpenAddressing.Defs.{Memory, Ref, slot_address}
use cu_collections.Probing.{ProbingIterator, advance, start_group_probe}

pub record WindowProbingResults : Type 0 where
  pub state : EqualResult
  pub intra_window_index : ℕ

-- What a thread found: `*probing_iter` and its results.
pub record Lane : Type 0 where
  pub window : ℕ
  pub results : WindowProbingResults

-- the bits of the `int32_t` -1
abbrev pub dummy_index : ℕ
dummy_index = 4294967295

-- the probing iterators of the `n` threads from `rank` on
unfoldable pub group_iterators : Ref → ℕ → ℕ → ℕ → ℕ → List ProbingIterator
unfolding start_group_probe
group_iterators r cg_size key zero rank = []
group_iterators r cg_size key (suc n) rank =
    start_group_probe r.size_bits cg_size rank r.probing_scheme key r.num_windows
    ∷ group_iterators r cg_size key n (suc rank)

-- `probing_scheme_(group, key, storage_ref_.window_extent())` in every thread
abbrev pub probe_group : Ref → ℕ → ℕ → List ProbingIterator
probe_group r cg_size key = group_iterators r cg_size key cg_size 0

-- `for (auto i = 0; i < window_size; ++i)`, which returns at the first result that is not UNEQUAL
unfoldable pub window_results : IsInsert → Ref → ℕ → Memory → ℕ → ℕ → ℕ → WindowProbingResults
unfolding compare_key
window_results mode r key m window zero i = record {
  state = unequal;
  intra_window_index = dummy_index;
}
window_results mode r key m window (suc n) i =
    let rest = window_results mode r key m window n (suc i) in
    elim (compare_key mode r.predicate key (m (slot_address r window i)).first) [
      | unequal ↦ rest
      | res ↦ record { state = res; intra_window_index = i }
    ]

unfoldable pub find_lane : IsInsert → Ref → ℕ → Memory → ProbingIterator → Lane
unfolding window_results
find_lane mode r key m it = record {
  window = it.curr_index;
  results = window_results mode r key m it.curr_index r.window_size 0;
}

-- `(storage_ref_.data() + *probing_iter)->data() + intra_window_index`
abbrev pub slot_ptr : Ref → Lane → ℕ
slot_ptr r lane = slot_address r lane.window lane.results.intra_window_index

unfoldable pub same_state : EqualResult → EqualResult → Bool
same_state unequal unequal = true
same_state equal equal = true
same_state empty empty = true
same_state available available = true
same_state _ _ = false

-- `group.any(state == s)`
unfoldable pub any : EqualResult → List Lane → Bool
unfolding same_state
any s [] = false
any s (lane ∷ lanes) = same_state lane.results.state s || any s lanes

-- The lane with the rank `__ffs(group.ballot(state == s)) - 1`, if the ballot is not 0.
unfoldable pub src_lane : EqualResult → List Lane → Option Lane
unfolding same_state
src_lane s [] = none
src_lane s (lane ∷ lanes) = if same_state lane.results.state s then some lane else src_lane s lanes

-- What the body of the group's `while (true)` decides: `return r`, `continue`, or to fall through
-- to `++probing_iter`.
pub data GroupFlow {ℓ} (R : Type ℓ) : Type ℓ where
  finish : R → GroupFlow R
  retry : GroupFlow R
  step : GroupFlow R

abbrev pub GroupOutcome {ℓ κ} : Type ℓ → Type κ → Type (ℓ ⊔ κ)
GroupOutcome R S = Option (GroupFlow R × S)

unfoldable pub group_loop {ℓ κ} :
    {R : Type ℓ} {S : Type κ}
    → ℕ
    → ℕ
    → List ProbingIterator
    → (List ProbingIterator → S → GroupOutcome R S)
    → S
    → Option (R × S)
group_loop zero w its body s = none
group_loop (suc fuel) w its body s = elim (body its s) [
  | none ↦ none
  | some (finish r, t) ↦ some (r, t)
  | some (retry, t) ↦ group_loop fuel w its body t
  | some (step, t) ↦ group_loop fuel w (map (advance w) its) body t
]
