-- ===== src/LegacyMap/Erase.antt =====
-- `device_mutable_view::erase` of one thread.
use cu_collections.Common.{ℕ, Bool, true, false, Option, some, ◌==◌, if◌then◌else◌}
use cu_collections.OpenAddressing.Cas.{cas_key, cas_payload}
use cu_collections.OpenAddressing.Defs.{Slot, Memory, write, same_slot}
use cu_collections.OpenAddressing.Loop.{return, next, Outcome}
use cu_collections.LegacyMap.Defs.{View, Keys, initial_slot, slot_loop}

-- the exchange of the slot for the erased pair, and whether its key changed
unfoldable pub erase_exchange : View → Memory → ℕ → Slot → Bool × Memory
unfolding cas_key cas_payload write same_slot
erase_exchange v m slot contents =
    let gone : Slot = record { first = v.erased_key_sentinel; second = v.empty_value_sentinel } in
    if v.packable
    then if same_slot (m slot) contents then (true, write m slot gone) else (false, m)
    else let (_, m1) = cas_payload m slot contents.second gone.second in
      let (swapped, _, m2) = cas_key m1 slot contents.first gone.first in (swapped, m2)

unfoldable pub erase_returns : Bool × Memory → Outcome Bool Memory
erase_returns (b, m) = some (return b, m)

unfoldable pub erase_at : View → Keys → ℕ → ℕ → Memory → Outcome Bool Memory
unfolding erase_exchange erase_returns
erase_at v keys k slot m =
    if (m slot).first == v.empty_key_sentinel
    then some (return false, m)
    else if keys.key_equal (m slot).first k
    then erase_returns (erase_exchange v m slot (m slot))
    else some (next, m)

unfoldable pub erase : ℕ → View → Keys → ℕ → Memory → Option (Bool × Memory)
unfolding slot_loop initial_slot erase_at
erase fuel v keys k m = slot_loop fuel v (initial_slot v (keys.hash k)) (erase_at v keys k) m
