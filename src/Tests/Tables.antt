-- ===== src/Tests/Tables.antt =====
-- A map with three windows of two slots, linear probing, and keys hashed by themselves.
use cu_collections.Common.{
  ℕ, ◌<◌, ◌≡◌, refl, Bool, true, false, ◌==◌, ◌⊎◌, ◌↔◌, [], ◌∷◌, arith, Split, Option, none, some,
}
use cu_collections.Equality.{compare_key}
use cu_collections.Probing.{linear_probing, start_probe, advance}
use cu_collections.OpenAddressing.Cas.{attempt_insert, attempt_insert_stable}
use cu_collections.OpenAddressing.Defs.{
  Slot, Memory, write, Ref, erased_slot_sentinel, end, capacity, probe,
}
use cu_collections.OpenAddressing.Erase.{erase_switch, erase_slot, erase_window, erase}
use cu_collections.OpenAddressing.EraseLaws.{erase-Present, erase-Maps}
use cu_collections.OpenAddressing.Insert.{insert_switch, insert_slot, insert_window, insert}
use cu_collections.OpenAddressing.InsertLaws.{
  NoneErased, Maps, Inserted, insert-absent, insert-Present, insert-Maps,
}
use cu_collections.OpenAddressing.Lookup.{contains_slot, contains, find_slot, find}
use cu_collections.OpenAddressing.Loop.{for_slots, probe_loop}
use cu_collections.OpenAddressing.Path.{addresses, path_from, path}
use cu_collections.OpenAddressing.Queries.{contains-decides, find-decides}
use cu_collections.OpenAddressing.Reach.{IsRef}
use cu_collections.OpenAddressing.Writes.{write-IsTable}
use cu_collections.OpenAddressing.Table.{
  IsKeyEqual, IsValidKey, is_available, IsTable, HoldsAt, Present, blank, blank-IsTable,
}

abbrev pub small_map : Ref
small_map = record {
  empty_slot_sentinel = record { first = 100; second = 0 };
  predicate = record { empty_sentinel = 100; erased_sentinel = 101; equal_fn = λ a b. a == b };
  probing_scheme = linear_probing (λ k. k);
  size_bits = 32;
  num_windows = 3;
  window_size = 2;
  allows_duplicates = false;
  has_payload = true;
  small_slot = false;
  old_arch = false;
}

machine : Unit {0}
unfolding for_slots probe_loop probe start_probe advance compare_key attempt_insert
    attempt_insert_stable write insert_switch insert_slot insert_window insert erase_switch
    erase_slot erase_window erase contains_slot contains find_slot find capacity path path_from
    addresses erased_slot_sentinel
machine = tt

pub small_map-IsRef : IsRef small_map
small_map-IsRef = omega arith

pub small_map-IsKeyEqual : IsKeyEqual small_map
small_map-IsKeyEqual = record {
  reflexive = ground arith;
  symmetric = ground arith;
  transitive = ground arith;
  hash_congr = ground arith;
}

pub valid_key : (k : ℕ) → k < 100 → IsValidKey small_map k
valid_key k h = record { not_empty = omega arith; not_erased = omega arith; apart = ground arith }

-- before anything is inserted
abbrev pub empty_map : Memory
empty_map = blank small_map

pub empty_map-IsTable : IsTable small_map empty_map
empty_map-IsTable = blank-IsTable small_map refl

nothing_there : (k : ℕ) → ¬ Present small_map empty_map k
nothing_there k (a, h) = ground arith

abbrev pub seven : Slot
seven = record { first = 7; second = 70 }

abbrev pub four : Slot
four = record { first = 4; second = 40 }

-- 7 stands where its probe begins; the probe for 4 begins there too, and goes on to slot 3
abbrev pub stored : Memory
stored = write empty_map 2 seven

pub first_slot : Split (path 3 small_map 7) 2
unfolding machine
first_slot = record { before = []; after = _; whole = refl }

pub second_slot : Split (path 3 small_map 4) 3
unfolding machine
second_slot = record { before = 2 ∷ []; after = _; whole = refl }

pub stored-IsTable : IsTable small_map stored
unfolding first_slot
stored-IsTable =
    write-IsTable small_map-IsKeyEqual empty_map-IsTable 2 seven (valid_key 7 (omega arith))
      (record { split = first_slot; passed = tt }) (λ _. nothing_there 7)

pub seven_HoldsAt : HoldsAt small_map stored 7 2
unfolding machine
seven_HoldsAt = (omega arith, refl, refl)

pub four_absent : ¬ Present small_map stored 4
unfolding machine
four_absent (a, h) = ground arith

pub stored-NoneErased : NoneErased small_map stored
unfolding machine
stored-NoneErased a lt h = ground arith

pub free_slot : is_available small_map (stored 3) ≡ true
unfolding machine
free_slot = refl

pub empty_slot : (stored 3).first ≡ small_map.predicate.empty_sentinel
unfolding machine
empty_slot = refl

insert-absent_example :
    (m' : Memory) × (insert 3 small_map four stored ≡ some (true, m'))
    × Inserted small_map stored four m'
insert-absent_example =
    insert-absent small_map-IsRef small_map-IsKeyEqual stored-IsTable refl 3 (omega arith) four
      (valid_key 4 (omega arith)) 3 second_slot free_slot four_absent

insert-Present_example :
    insert 3 small_map (record { first = 7; second = 71 }) stored ≡ some (false, stored)
insert-Present_example =
    insert-Present small_map-IsRef small_map-IsKeyEqual stored-IsTable refl 3 (omega arith)
      (record { first = 7; second = 71 }) (valid_key 7 (omega arith)) stored-NoneErased
      (2, seven_HoldsAt)

insert-Maps_example :
    (m' : Memory) × (insert 3 small_map four stored ≡ some (true, m'))
    × IsTable small_map m'
    × ((k x : ℕ)
        → Maps small_map m' k x ↔ ((((k == 4) ≡ true) × (40 ≡ x)) ⊎ Maps small_map stored k x))
insert-Maps_example =
    insert-Maps small_map-IsRef small_map-IsKeyEqual stored-IsTable refl 3 (omega arith) four
      (valid_key 4 (omega arith)) 3 second_slot free_slot four_absent

contains-decides_example :
    ((contains 3 small_map 4 stored ≡ some true) × Present small_map stored 4)
    ⊎ ((contains 3 small_map 4 stored ≡ some false) × (¬ Present small_map stored 4))
contains-decides_example =
    contains-decides small_map-IsRef small_map-IsKeyEqual stored-IsTable refl 3 (omega arith) 4
      (valid_key 4 (omega arith)) 3 second_slot empty_slot

find-decides_example :
    ((b : ℕ) × (find 3 small_map 4 stored ≡ some b)
      × HoldsAt small_map stored 4 b
      × (b < end small_map))
    ⊎ ((find 3 small_map 4 stored ≡ some (end small_map)) × (¬ Present small_map stored 4))
find-decides_example =
    find-decides small_map-IsRef small_map-IsKeyEqual stored-IsTable refl 3 (omega arith) 4
      (valid_key 4 (omega arith)) 3 second_slot empty_slot

erase-Present_example :
    (erase 3 small_map 7 stored ≡ some (true, write stored 2 (erased_slot_sentinel small_map)))
    × IsTable small_map (write stored 2 (erased_slot_sentinel small_map))
erase-Present_example =
    erase-Present small_map-IsRef small_map-IsKeyEqual stored-IsTable refl 3 (omega arith) 7
      (omega arith) (2, seven_HoldsAt)

erase-Maps_example :
    (m' : Memory) × (erase 3 small_map 7 stored ≡ some (true, m'))
    × IsTable small_map m'
    × ((k x : ℕ) → Maps small_map m' k x ↔ (((k == 7) ≡ false) × Maps small_map stored k x))
erase-Maps_example =
    erase-Maps small_map-IsRef small_map-IsKeyEqual stored-IsTable refl 3 (omega arith) 7
      (valid_key 7 (omega arith)) (omega arith) (2, seven_HoldsAt)

-- A key that was erased, inserted again behind its twin: `insert` stops at the erased slot.
abbrev history : Option (Bool × Memory)
history = elim (insert 3 small_map four stored) [
  | none ↦ none
  | some (_, m1) ↦ elim (erase 3 small_map 7 m1) [
    | none ↦ none
    | some (_, m2) ↦ insert 3 small_map four m2
  ]
]

twice_inserted : (m : Memory) × (history ≡ some (true, m)) × ((m 2).first ≡ 4) × ((m 3).first ≡ 4)
unfolding machine
twice_inserted = (_, refl, refl, refl)
