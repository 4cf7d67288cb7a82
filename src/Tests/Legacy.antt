-- ===== src/Tests/Legacy.antt =====
-- The older map with four slots and with two, and the two as submaps of a dynamic map.
use cu_collections.Common.{
  ℕ, zero, suc, ◌%◌, ◌^◌, ◌<◌, ◌≡◌, ◌↔◌, ◌⊎◌, ◌≢◌, Option, none, refl, sym, subst, Bool, true,
  false, ◌==◌, List, [], ◌∷◌, some, arith,
}
use cu_collections.OpenAddressing.Defs.{Slot, Memory, write, capacity}
use cu_collections.OpenAddressing.Erase
use cu_collections.OpenAddressing.Insert
use cu_collections.OpenAddressing.Path.{path, path_from, addresses}
use cu_collections.OpenAddressing.Defs.{probe}
use cu_collections.Probing.{start_probe, advance, sanitize_hash}
use cu_collections.OpenAddressing.Table.{IsKeyEqual, IsValidKey, IsTable, Present, blank-IsTable}
use cu_collections.OpenAddressing.Writes.{write-IsTable}
use cu_collections.LegacyMap.Apart.{Apart, Stored, insert_pair-Apart}
use cu_collections.LegacyMap.Defs.{View, Keys, next_group_slot}
use cu_collections.LegacyMap.Erase.{erase}
use cu_collections.LegacyMap.Insert.{slot_is_available, insert}
use cu_collections.LegacyMap.Kernels.{SubmapViews, insert_pair, erase_key, find_value}
use cu_collections.LegacyMap.Laws.{IsTable-Idle, legacy_find-insert}
use cu_collections.LegacyMap.Lookup.{find}
use cu_collections.LegacyMap.Answers.{ValueOf, find_value-decides}
use cu_collections.LegacyMap.Removal.{Distinct, erase_key-Stored}
use cu_collections.LegacyMap.Submaps.{some-injective, IsSubmap, AreSubmaps, Holds}
use cu_collections.LegacyMap.Updates.{insert-insert, erase-erase}
use cu_collections.LegacyMap.Walk.{view_ref, Fits}

machine : Unit {0}
unfolding path path_from addresses probe start_probe advance sanitize_hash capacity write
    slot_is_available
machine = tt

abbrev view : ℕ → View
view n = record {
  capacity = n;
  empty_key_sentinel = 100;
  erased_key_sentinel = 101;
  empty_value_sentinel = 0;
  packable = false;
  old_arch = false;
}

abbrev digits : Keys
digits = record { hash = λ k. k % 4; key_equal = λ a b. a == b }

view-Fits : (n : ℕ) → 0 < n → n < 256 → Fits 8 (view n) digits
view-Fits n pos small = record {
  some_slot = pos;
  capacity_fits = small;
  hash_fits = λ k. omega arith;
}

view-IsKeyEqual : (n : ℕ) → IsKeyEqual (view_ref 8 (view n) digits)
view-IsKeyEqual n = record {
  reflexive = ground arith;
  symmetric = ground arith;
  transitive = ground arith;
  hash_congr = ground arith;
}

view-IsValidKey : (n k : ℕ) → k < 100 → IsValidKey (view_ref 8 (view n) digits) k
view-IsValidKey n k h = record {
  not_empty = omega arith;
  not_erased = omega arith;
  apart = ground arith;
}

abbrev blank_slots : Memory
blank_slots = λ a. record { first = 100; second = 0 }

blank_slots-IsTable : (n : ℕ) → IsTable (view_ref 8 (view n) digits) blank_slots
blank_slots-IsTable n = blank-IsTable (view_ref 8 (view n) digits) refl

nothing_there : (n k : ℕ) → ¬ Present (view_ref 8 (view n) digits) blank_slots k
nothing_there n k (a, h) = ground arith

abbrev seven : Slot
seven = record { first = 7; second = 70 }

abbrev four : Slot
four = record { first = 4; second = 40 }

-- 7 stands in the last of four slots
abbrev stored : Memory
stored = write blank_slots 3 seven

stored-IsTable : IsTable (view_ref 8 (view 4) digits) stored
unfolding machine
stored-IsTable =
    write-IsTable (view-IsKeyEqual 4) (blank_slots-IsTable 4) 3 seven
      (view-IsValidKey 4 7 (omega arith))
      (record { split = record { before = []; after = _; whole = refl }; passed = tt })
      (λ _. nothing_there 4 7)

four_absent : ¬ Present (view_ref 8 (view 4) digits) stored 4
unfolding machine
four_absent (a, h) = ground arith

four_slots : Fits 8 (view 4) digits
four_slots = view-Fits 4 (omega arith) (omega arith)

legacy_find-insert_example :
    (m' : Memory) × (a : ℕ) × (insert 4 (view 4) digits four stored ≡ some (true, m'))
    × (find 4 (view 4) digits 4 m' ≡ some a)
    × (m' a ≡ four)
unfolding machine
legacy_find-insert_example =
    legacy_find-insert four_slots (view-IsKeyEqual 4) stored-IsTable 4 (omega arith) four
      (view-IsValidKey 4 4 (omega arith)) 0 (omega arith) refl four_absent

insert-insert_example :
    insert 4 (view 4) digits four stored ≡ Insert.insert 4 (view_ref 8 (view 4) digits) four stored
insert-insert_example =
    insert-insert four_slots 4 four stored (IsTable-Idle four_slots stored stored-IsTable)

erase-erase_example :
    erase 4 (view 4) digits 7 stored ≡ Erase.erase 4 (view_ref 8 (view 4) digits) 7 stored
erase-erase_example = erase-erase four_slots 4 7 stored

abbrev large_submap : SubmapViews
large_submap = record { view = view 4; memory = stored }

abbrev small_submap : SubmapViews
small_submap = record { view = view 2; memory = blank_slots }

abbrev two_submaps : List SubmapViews
two_submaps = large_submap ∷ small_submap ∷ []

large_submap-IsSubmap : (k : ℕ) → k < 100 → IsSubmap 8 digits 4 k large_submap
unfolding machine
large_submap-IsSubmap k small = record {
  fits = four_slots;
  equality = view-IsKeyEqual 4;
  table = stored-IsTable;
  valid = view-IsValidKey 4 k small;
  enough = omega arith;
  room = 0;
  inside = omega arith;
  is_empty = refl;
}

small_submap-IsSubmap : (k : ℕ) → k < 100 → IsSubmap 8 digits 4 k small_submap
small_submap-IsSubmap k small = record {
  fits = view-Fits 2 (omega arith) (omega arith);
  equality = view-IsKeyEqual 2;
  table = blank_slots-IsTable 2;
  valid = view-IsValidKey 2 k small;
  enough = omega arith;
  room = 0;
  inside = omega arith;
  is_empty = refl;
}

two_submaps-AreSubmaps : (k : ℕ) → k < 100 → AreSubmaps 8 digits 4 k two_submaps
two_submaps-AreSubmaps k small zero s e =
    subst (IsSubmap 8 digits 4 k) (some-injective e) (large_submap-IsSubmap k small)
two_submaps-AreSubmaps k small (suc zero) s e =
    subst (IsSubmap 8 digits 4 k) (some-injective e) (small_submap-IsSubmap k small)
two_submaps-AreSubmaps k small (suc (suc i)) s e = absurd (cc e)

small_submap-empty : (k : ℕ) (s : SubmapViews) → some small_submap ≡ some s → ¬ Holds 8 digits s k
small_submap-empty k s e h =
    nothing_there 2 k (subst (λ s. Holds 8 digits s k) (sym (some-injective e)) h)

two_submaps-Apart : Apart 8 digits two_submaps
two_submaps-Apart zero zero k s t e f h g = refl
two_submaps-Apart zero (suc zero) k s t e f h g = absurd (small_submap-empty k t f g)
two_submaps-Apart zero (suc (suc j)) k s t e f h g = absurd (cc f)
two_submaps-Apart (suc zero) j k s t e f h g = absurd (small_submap-empty k s e h)
two_submaps-Apart (suc (suc i)) j k s t e f h g = absurd (cc e)

insert_pair-Apart_example :
    (b : Bool) × (subs' : List SubmapViews) × (insert_pair 4 digits 1 two_submaps four
      ≡ some (b, subs'))
    × ((b ≡ true) ↔ (¬ Stored 8 digits two_submaps 4))
    × Stored 8 digits subs' 4
    × Apart 8 digits subs'
insert_pair-Apart_example =
    insert_pair-Apart 1 two_submaps four (two_submaps-AreSubmaps 4 (omega arith)) small_submap refl
      (λ a lt h. ground arith) two_submaps-Apart

two_submaps-Distinct : Distinct two_submaps
two_submaps-Distinct zero s e =
    subst (λ (s : SubmapViews). s.view.erased_key_sentinel ≢ s.view.empty_key_sentinel)
      (some-injective e) (omega arith)
two_submaps-Distinct (suc zero) s e =
    subst (λ (s : SubmapViews). s.view.erased_key_sentinel ≢ s.view.empty_key_sentinel)
      (some-injective e) (omega arith)
two_submaps-Distinct (suc (suc i)) s e = absurd (cc e)

erase_key-Stored_example :
    (o : Option ℕ) × (subs' : List SubmapViews) × (erase_key 4 digits 7 0 two_submaps
      ≡ some (o, subs'))
    × ((o ≡ none) ↔ (¬ Stored 8 digits two_submaps 7))
    × ((k : ℕ) → Stored 8 digits subs' k ↔ (Stored 8 digits two_submaps k × ((7 == k) ≡ false)))
erase_key-Stored_example =
    erase_key-Stored two_submaps (two_submaps-AreSubmaps 7 (omega arith)) two_submaps-Distinct
      two_submaps-Apart

find_value-decides_example :
    ((x : ℕ) × (find_value 4 digits 7 0 two_submaps ≡ some x) × ValueOf 8 digits 7 two_submaps x)
    ⊎ ((find_value 4 digits 7 0 two_submaps ≡ some 0) × (¬ Stored 8 digits two_submaps 7))
find_value-decides_example =
    find_value-decides 0 two_submaps (two_submaps-AreSubmaps 7 (omega arith))

-- Past the first 2 ^ 32 slots a group goes back to the front of the storage.
truncated_slot : next_group_slot (view (2 ^ 33)) 4 (2 ^ 32) ≡ 4
unfolding next_group_slot
truncated_slot = refl
