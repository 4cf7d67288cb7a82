-- ===== src/OpenAddressing/Initialize.antt =====
-- `initialize` and `make_copy`: the threads of a tile or block share the windows out by their ranks.
-- The threads run one after the other; a thread's loop has fuel for its rounds, and
-- `none` says that it ran out.
use cu_collections.Common.{ℕ, zero, suc, ◌+◌, ◌%◌, ◌^◌, Option, none, some, ltb, if◌then◌else◌}
use cu_collections.OpenAddressing.Defs.{Slot, Memory, write, Ref, slot_address}

-- `slot = value(slot)` for the slots `i, ..., i + n - 1` of a window
unfoldable pub fill_window : Ref → (ℕ → Slot) → ℕ → ℕ → ℕ → Memory → Memory
unfolding write
fill_window r value window zero i m = m
fill_window r value window (suc n) i m =
    fill_window r value window n (suc i)
      (write m (slot_address r window i) (value (slot_address r window i)))

-- `while (tid < num_windows) { ...; tid += tile.size(); }`, where `tid` has `w` bits
unfoldable pub fill_thread : ℕ → ℕ → Ref → (ℕ → Slot) → ℕ → ℕ → Memory → Option Memory
unfolding fill_window
fill_thread zero w r value tile_size tid m = if ltb tid r.num_windows then none else some m
fill_thread (suc fuel) w r value tile_size tid m =
    let rest =
      fill_thread fuel w r value tile_size ((tid + tile_size) % 2 ^ w)
        (fill_window r value tid r.window_size 0 m) in
    if ltb tid r.num_windows then rest else some m

-- the threads `rank, ..., rank + n - 1`
unfoldable pub fill_threads : ℕ → ℕ → Ref → (ℕ → Slot) → ℕ → ℕ → ℕ → Memory → Option Memory
unfolding fill_thread
fill_threads fuel w r value tile_size zero rank m = some m
fill_threads fuel w r value tile_size (suc n) rank m =
    elim (fill_thread fuel w r value tile_size rank m) [
      | none ↦ none
      | some m' ↦ fill_threads fuel w r value tile_size n (suc rank) m'
    ]

-- `initialize`: `tid` has the type of `tile.thread_rank()`, of `rank_bits` bits
unfoldable pub initialize : ℕ → ℕ → Ref → ℕ → Memory → Option Memory
unfolding fill_threads
initialize fuel rank_bits r tile_size m =
    fill_threads fuel rank_bits r (λ _. r.empty_slot_sentinel) tile_size tile_size 0 m

-- `make_copy` from the storage `source` to the memory `m`, with an index of the size type
unfoldable pub make_copy : ℕ → Ref → ℕ → Memory → Memory → Option Memory
unfolding fill_threads
make_copy fuel r tile_size source m = fill_threads fuel r.size_bits r source tile_size tile_size 0 m
