-- ===== src/Tests/Growing.antt =====
-- A dynamic map of numbers, whose submaps are lists, with a slot more than is asked for. A bulk insert asks for room for two at least.
use cu_collections.Common.{
  ℕ, ◌+◌, ◌*◌, ◌/◌, ◌≡◌, refl, Bool, false, ◌||◌, ◌==◌, List, [], ◌∷◌, ◌++◌, map, length, none,
  some, ◌-◌, leb, if◌then◌else◌, arith,
}
use cu_collections.DynamicMap.Defs.{
  Load, DynamicMap, StaticMap, with_submap, if_defined, new_submap, reserve_new, reserve_in,
  reserve, slice, insert_some, insert_in, insert, contains_in, contains,
}
use cu_collections.DynamicMap.ContainsLaws.{contains_first_only}

machine : Unit {0}
unfolding with_submap if_defined new_submap reserve_new reserve_in reserve slice insert_some
    insert_in insert contains_in contains
machine = tt

-- six tenths of the capacity
abbrev six_tenths : Load
six_tenths = record {
  size_bits = 64;
  whole = λ n. n * 6 / 10;
  room = λ capacity size. capacity * 6 / 10 - size;
  take_off = λ n capacity k.
      if leb (capacity * 6 / 10) (n + k) then some (n + k - (capacity * 6 + 9) / 10) else none;
}

-- whether the number is in the list
abbrev member : List ℕ → ℕ → Bool
member [] k = false
member (x ∷ xs) k = (x == k) || member xs k

abbrev lists : StaticMap (List ℕ) ℕ
lists = record {
  create = λ n. (n + 1, []);
  insert_range = λ s items. (length items, items ++ s);
  contains_range = λ s keys. map (member s) keys;
}

-- a new map for ten elements
abbrev new_map : DynamicMap (List ℕ)
new_map = record {
  size = 0;
  capacity = 10;
  min_insert_size = 2;
  submaps = record { capacity = 10; size = 0; storage = [] } ∷ [];
}

abbrev eight : List ℕ
eight = 1 ∷ 2 ∷ 3 ∷ 4 ∷ 5 ∷ 6 ∷ 7 ∷ 8 ∷ []

-- each of two submaps takes four off
abbrev reserved : DynamicMap (List ℕ)
reserved = record {
  size = 0;
  capacity = 20;
  min_insert_size = 2;
  submaps =
      record { capacity = 10; size = 0; storage = [] }
      ∷ record { capacity = 11; size = 0; storage = [] }
      ∷ [];
}

eight_reserved : reserve six_tenths lists 10 8 new_map ≡ some reserved
unfolding machine
eight_reserved = refl

-- For three elements the conversion is out of range.
undefined_for_three : reserve six_tenths lists 10 3 new_map ≡ none
unfolding machine
undefined_for_three = refl

-- the map after: six elements in the first submap, two in a new one
abbrev grown : DynamicMap (List ℕ)
grown = record {
  size = 8;
  capacity = 20;
  min_insert_size = 2;
  submaps =
      record { capacity = 10; size = 6; storage = 1 ∷ 2 ∷ 3 ∷ 4 ∷ 5 ∷ 6 ∷ [] }
      ∷ record { capacity = 11; size = 2; storage = 7 ∷ 8 ∷ [] }
      ∷ [];
}

eight_inserted : insert six_tenths lists 2 eight new_map ≡ some grown
unfolding machine
eight_inserted = refl

-- 7 is in the second submap, and is not found by itself.
seven_missed : contains six_tenths lists (7 ∷ []) grown ≡ false ∷ []
unfolding machine
seven_missed = refl

contains_first_only_example :
    contains six_tenths lists (7 ∷ []) grown
    ≡ lists.contains_range (1 ∷ 2 ∷ 3 ∷ 4 ∷ 5 ∷ 6 ∷ []) (7 ∷ [])
contains_first_only_example =
    contains_first_only six_tenths lists grown
      (record { capacity = 10; size = 6; storage = 1 ∷ 2 ∷ 3 ∷ 4 ∷ 5 ∷ 6 ∷ [] })
      (record { capacity = 11; size = 2; storage = 7 ∷ 8 ∷ [] } ∷ []) 7 [] refl (omega arith)
