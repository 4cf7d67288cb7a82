-- ===== src/DynamicMap/Defs.antt =====
-- The host side of `experimental::dynamic_map`. A submap is a `static_map`, of which its capacity
-- and its size are known here; its bulk operations are parameters.
use cu_collections.Common.{
  ℕ, zero, suc, ◌+◌, ◌-◌, ◌*◌, ◌%◌, ◌^◌, ◌≤◌, ◌≡◌, Bool, ltb, leb, if◌then◌else◌, List, [], ◌∷◌,
  ◌++◌, length, Option, none, some,
}

-- What is computed with the load factor, in floating point. `whole` is `max_load_factor_ * capacity`
-- without its fraction. `room capacity size` is `max_load_factor_ * capacity - size` without its
-- fraction, or 0 where that is negative; as the least bulk insert is a number that is not 0, no bulk
-- insert is made then. `take_off n capacity min_insert_size` is what
-- `n -= max_load_factor_ * capacity - min_insert_size` makes of `n`, or `none` where the new value
-- is out of the range of the size type, so that its conversion is undefined. The size type has
-- `size_bits` bits.
pub record Load : Type 0 where
  pub size_bits : ℕ
  pub whole : ℕ → ℕ
  pub room : ℕ → ℕ → ℕ
  pub take_off : ℕ → ℕ → ℕ → Option ℕ

-- What is asked of the arithmetic, which holds where its numbers are exact: a larger capacity has no
-- smaller load, the room is the load less the size, and what is taken off is at least the whole load
-- less the least bulk insert, and at most one more.
pub record IsLoad (l : Load) : Type 0 where
  pub grows : (m n : ℕ) → m ≤ n → l.whole m ≤ l.whole n
  pub exact : (capacity size : ℕ) → l.room capacity size ≡ l.whole capacity - size
  pub takes :
      (n capacity k n' : ℕ)
      → l.take_off n capacity k ≡ some n'
      → (n + k ≤ n' + l.whole capacity + 1) × (n' + l.whole capacity ≤ n + k)

-- A submap, with the state of its device storage.
pub record Submap (S : Type 0) : Type 0 where
  pub capacity : ℕ
  pub size : ℕ
  pub storage : S

pub record DynamicMap (S : Type 0) : Type 0 where
  pub size : ℕ
  pub capacity : ℕ
  pub min_insert_size : ℕ
  pub submaps : List (Submap S)

-- A number and submaps, with one more in front.
unfoldable pub with_submap :
    {S : Type 0} → Submap S → Option (ℕ × List (Submap S)) → Option (ℕ × List (Submap S))
with_submap s none = none
with_submap s (some (n, subs)) = some (n, s ∷ subs)

-- what follows a conversion, if it is defined
unfoldable pub if_defined : {B : Type 0} → Option ℕ → (ℕ → Option B) → Option B
if_defined none f = none
if_defined (some n) f = f n

-- What the host calls of `static_map`: a new storage for a requested capacity, with the capacity that
-- it has, the bulk insert with the number of its successes, and the bulk contains.
pub record StaticMap (S A : Type 0) : Type 0 where
  pub create : ℕ → ℕ × S
  pub insert_range : S → List A → ℕ × S
  pub contains_range : S → List A → List Bool

module _ {S A : Type 0} (l : Load) (ops : StaticMap S A) where
  -- `std::make_unique<map_type>(submap_capacity, ...)`
  unfoldable pub new_submap : ℕ → Submap S
  new_submap capacity = record {
    capacity = (ops.create capacity).0;
    size = 0;
    storage = (ops.create capacity).1;
  }

  -- `reserve`: the submaps that there are, then new ones; its `while` runs on fuel. `none` says that
  -- it ran out, or that a conversion was undefined.
  unfoldable pub reserve_new : ℕ → ℕ → ℕ → ℕ → Option (ℕ × List (Submap S))
  unfolding with_submap if_defined new_submap
  reserve_new zero min_insert_size remaining capacity =
      if ltb 0 remaining then none else some (capacity, [])
  reserve_new (suc fuel) min_insert_size remaining capacity =
      let rest = λ (n : ℕ). reserve_new fuel min_insert_size n (capacity * 2 % 2 ^ l.size_bits) in
      if ltb 0 remaining
      then with_submap (new_submap capacity)
          (if_defined (l.take_off remaining capacity min_insert_size) rest)
      else some (capacity, [])

  unfoldable pub reserve_in : ℕ → ℕ → ℕ → ℕ → List (Submap S) → Option (ℕ × List (Submap S))
  unfolding reserve_new with_submap if_defined
  reserve_in fuel min_insert_size remaining capacity [] =
      reserve_new fuel min_insert_size remaining capacity
  reserve_in fuel min_insert_size remaining capacity (s ∷ subs) =
      let rest = λ (n : ℕ). reserve_in fuel min_insert_size n capacity subs in
      if ltb 0 remaining
      then with_submap s (if_defined (l.take_off remaining s.capacity min_insert_size) rest)
      else some (capacity, s ∷ subs)

  unfoldable pub reserve : ℕ → ℕ → DynamicMap S → Option (DynamicMap S)
  unfolding reserve_in
  reserve fuel n d = elim (reserve_in fuel d.min_insert_size n d.capacity d.submaps) [
    | none ↦ none
    | some (capacity, subs) ↦ some (record {
      size = d.size;
      capacity = capacity;
      min_insert_size = d.min_insert_size;
      submaps = subs;
    })
  ]

  -- the first `n` items, and the others
  unfoldable pub slice : ℕ → List A → List A × List A
  slice zero xs = ([], xs)
  slice (suc n) [] = ([], [])
  slice (suc n) (x ∷ xs) = let (a, b) = slice n xs in (x ∷ a, b)

  -- One round of `insert` for a submap: the items that it takes, the successes, the submap after.
  unfoldable pub insert_some : ℕ → List A → Submap S → List A × ℕ × Submap S
  unfolding slice
  insert_some n items s =
      let (now, later) = slice n items in
      let (successes, storage) = ops.insert_range s.storage now in
      (
        later,
        successes,
        record { capacity = s.capacity; size = s.size + successes; storage = storage },
      )

  -- `while (num_to_insert > 0)`; `none` says that it goes past the submaps
  unfoldable pub insert_in : ℕ → ℕ → List A → List (Submap S) → Option (ℕ × List (Submap S))
  unfolding insert_some with_submap
  insert_in min_insert_size size [] subs = some (size, subs)
  insert_in min_insert_size size (x ∷ items) [] = none
  insert_in min_insert_size size (x ∷ items) (s ∷ subs) =
      let room = l.room s.capacity s.size in
      let (later, successes, s') = insert_some room (x ∷ items) s in
      let skip = insert_in min_insert_size size (x ∷ items) subs in
      let go_on = insert_in min_insert_size (size + successes) later subs in
      if leb min_insert_size room then with_submap s' go_on else with_submap s skip

  unfoldable pub insert : ℕ → List A → DynamicMap S → Option (DynamicMap S)
  unfolding reserve insert_in
  insert fuel items d = elim (reserve fuel ((d.size + length items) % 2 ^ l.size_bits) d) [
    | none ↦ none
    | some d' ↦ elim (insert_in d'.min_insert_size d'.size items d'.submaps) [
      | none ↦ none
      | some (size, subs) ↦ some (record {
        size = size;
        capacity = d'.capacity;
        min_insert_size = d'.min_insert_size;
        submaps = subs;
      })
    ]
  ]

  -- `contains`: each submap answers for as many of the keys as its size
  unfoldable pub contains_in : List A → List (Submap S) → List Bool
  unfolding slice
  contains_in keys [] = []
  contains_in [] (s ∷ subs) = []
  contains_in (k ∷ keys) (s ∷ subs) =
      let (now, later) = slice s.size (k ∷ keys) in
      ops.contains_range s.storage now ++ contains_in later subs

  unfoldable pub contains : List A → DynamicMap S → List Bool
  unfolding contains_in
  contains keys d = contains_in keys d.submaps
