-- ===== src/Tests/Threads.antt =====
-- Two threads that insert the same key into a map of three windows at once.
use cu_collections.Common.{some, ◌+◌, ℕ, ◌≡◌, refl, true, false, List, [], ◌∷◌, arith}
use cu_collections.OpenAddressing.Cover.{IsCyclic}
use cu_collections.OpenAddressing.Defs.{Slot, capacity, probe}
use cu_collections.OpenAddressing.InsertLaws.{NoneErased}
use cu_collections.OpenAddressing.Table.{IsValidKey, HoldsAt, Present}
use cu_collections.Equality.{compare_key}
use cu_collections.Probing.{start_probe, advance}
use cu_collections.Concurrent.Winner.{find-winner}
use cu_collections.OpenAddressing.Lookup.{find}
use cu_collections.Concurrent.Safety.{Reach-HoldsAt, one_winner, returned-Present}
use cu_collections.Concurrent.Threads.{
  returned, begin_attempt, after_attempt, after_exchange, visit_slot, move, World, step, begin,
  Reach, start, run, run-Reach,
}
use cu_collections.Tests.Tables.{
  small_map, small_map-IsRef, small_map-IsKeyEqual, valid_key, empty_map, empty_map-IsTable,
}

machine : Unit {0}
unfolding probe start_probe advance compare_key capacity begin_attempt after_attempt after_exchange
    visit_slot move step begin run
machine = tt

-- Every thread inserts the key 7, with one more than its number as the payload.
abbrev sevens : ℕ → Slot
sevens t = record { first = 7; second = t + 1 }

sevens-IsValidKey : (t : ℕ) → IsValidKey small_map (sevens t).first
sevens-IsValidKey t = valid_key 7 (omega arith)

-- Both threads load the window; the thread 1 exchanges the key first, and the thread 0 fails.
abbrev schedule : List ℕ
schedule = 0 ∷ 0 ∷ 0 ∷ 1 ∷ 1 ∷ 1 ∷ 1 ∷ 0 ∷ 1 ∷ 0 ∷ []

abbrev finished : World
finished = run small_map sevens schedule (begin small_map sevens empty_map)

finished-Reach : Reach small_map sevens empty_map finished
finished-Reach = run-Reach small_map sevens schedule (begin small_map sevens empty_map) start

thread_0 : finished.pc 0 ≡ returned false
unfolding machine
thread_0 = refl

thread_1 : finished.pc 1 ≡ returned true
unfolding machine
thread_1 = refl

payload : (finished.memory 2).second ≡ 2
unfolding machine
payload = refl

small_map-IsCyclic : IsCyclic small_map
small_map-IsCyclic = omega arith

clean : NoneErased small_map empty_map
clean a lt h = refl

two-HoldsAt : HoldsAt small_map finished.memory 7 2
unfolding machine
two-HoldsAt = (omega arith, refl, refl)

Reach-HoldsAt_example : ◌≡◌ {A = ℕ} 2 2
Reach-HoldsAt_example =
    Reach-HoldsAt small_map-IsRef small_map-IsCyclic small_map-IsKeyEqual refl sevens
      sevens-IsValidKey empty_map-IsTable clean finished-Reach 7 2 2 two-HoldsAt two-HoldsAt

one_winner_example : ◌≡◌ {A = ℕ} 1 1
one_winner_example =
    one_winner small_map-IsRef small_map-IsCyclic small_map-IsKeyEqual refl sevens sevens-IsValidKey
      empty_map-IsTable clean finished-Reach 1 1 thread_1 thread_1 refl

returned-Present_example : Present small_map finished.memory 7
returned-Present_example =
    returned-Present small_map-IsRef small_map-IsCyclic small_map-IsKeyEqual refl sevens
      sevens-IsValidKey empty_map-IsTable clean finished-Reach 0 false thread_0

find-winner_example :
    (a : ℕ) × (find 3 small_map 7 finished.memory ≡ some a) × (finished.memory a ≡ sevens 1)
find-winner_example =
    find-winner small_map-IsRef small_map-IsCyclic small_map-IsKeyEqual refl sevens
      sevens-IsValidKey (λ t. omega arith) empty_map-IsTable clean finished-Reach 1 thread_1 3
      (omega arith)
