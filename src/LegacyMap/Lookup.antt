-- ===== src/LegacyMap/Lookup.antt =====
-- `device_view::find` and `device_view::contains` of one thread.
use mathlib.Core.Option
use cu_collections.Common.{ℕ, Bool, true, false, Option, some, ◌==◌, if◌then◌else◌}
use cu_collections.OpenAddressing.Defs.{Memory}
use cu_collections.OpenAddressing.Loop.{return, next, Outcome}
use cu_collections.LegacyMap.Defs.{View, Keys, initial_slot, slot_loop}

unfoldable pub find_at : View → Keys → ℕ → Memory → ℕ → Unit {0} → Outcome ℕ (Unit {0})
find_at v keys k m slot u =
    let existing_key = (m slot).first in
    if existing_key == v.empty_key_sentinel
    then some (return v.capacity, tt)
    else if keys.key_equal existing_key k
    then some (return slot, tt)
    else some (next, tt)

unfoldable pub find : ℕ → View → Keys → ℕ → Memory → Option ℕ
unfolding slot_loop initial_slot find_at
find fuel v keys k m =
    Option.map (λ p. p.0) (slot_loop fuel v (initial_slot v (keys.hash k)) (find_at v keys k m) tt)

unfoldable pub contains_at : View → Keys → ℕ → Memory → ℕ → Unit {0} → Outcome Bool (Unit {0})
contains_at v keys k m slot u =
    let existing_key = (m slot).first in
    if existing_key == v.empty_key_sentinel
    then some (return false, tt)
    else if keys.key_equal existing_key k
    then some (return true, tt)
    else some (next, tt)

unfoldable pub contains : ℕ → View → Keys → ℕ → Memory → Option Bool
unfolding slot_loop initial_slot contains_at
contains fuel v keys k m =
    Option.map (λ p. p.0)
      (slot_loop fuel v (initial_slot v (keys.hash k)) (contains_at v keys k m) tt)
