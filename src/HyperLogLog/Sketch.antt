-- ===== src/HyperLogLog/Sketch.antt =====
-- The registers of a sketch and the operations that change them. `precision_` is `p`, the sketch has
-- `2 ^ p` registers, and `hash_` gives words of 64 bits.
use cu_collections.Common.{
  ℕ, zero, suc, ◌+◌, ◌-◌, ◌/◌, ◌%◌, ◌^◌, max, bit_and, bit_or, ◌==◌, ltb, if◌then◌else◌, List, [],
  ◌∷◌, get_or, set, length,
}

-- `register_mask_`
abbrev pub register_mask : ℕ → ℕ
register_mask p = 2 ^ p - 1

-- `countl_zero` of a word of `w` bits
unfoldable pub countl_zero : ℕ → ℕ → ℕ
countl_zero zero x = 0
countl_zero (suc w) x = let rest = suc (countl_zero w x) in if x / 2 ^ w % 2 == 1 then 0 else rest

-- `fetch_max` on the register `i`
unfoldable pub update_max : List ℕ → ℕ → ℕ → List ℕ
update_max [] i value = []
update_max (x ∷ xs) zero value = max x value ∷ xs
update_max (x ∷ xs) (suc i) value = x ∷ update_max xs i value

unfoldable pub register_of : ℕ → ℕ → ℕ
register_of p h = bit_and h (register_mask p)

unfoldable pub zeroes_of : ℕ → ℕ → ℕ
unfolding countl_zero
zeroes_of p h = countl_zero 64 (bit_or h (register_mask p)) + 1

module _ (p : ℕ) (hash : ℕ → ℕ) where
  unfoldable pub add : List ℕ → ℕ → List ℕ
  unfolding update_max register_of zeroes_of
  add sketch item = update_max sketch (register_of p (hash item)) (zeroes_of p (hash item))

  -- the items of an input range, one after the other
  unfoldable pub add_all : List ℕ → List ℕ → List ℕ
  unfolding add
  add_all sketch [] = sketch
  add_all sketch (item ∷ items) = add_all (add sketch item) items

-- `for (int i = group.thread_rank(); i < this->sketch_.size(); i += group.size())` in one thread,
-- with fuel for its rounds
unfoldable pub merge_thread : ℕ → ℕ → ℕ → List ℕ → List ℕ → List ℕ
unfolding update_max
merge_thread zero group_size i other sketch = sketch
merge_thread (suc fuel) group_size i other sketch =
    let rest =
      merge_thread fuel group_size (i + group_size) other
        (update_max sketch i (get_or other i 0)) in
    if ltb i (length sketch) then rest else sketch

-- the threads `rank, ..., rank + n - 1`, one after the other
unfoldable pub merge_threads : ℕ → ℕ → ℕ → ℕ → List ℕ → List ℕ → List ℕ
unfolding merge_thread
merge_threads fuel group_size zero rank other sketch = sketch
merge_threads fuel group_size (suc n) rank other sketch =
    merge_threads fuel group_size n (suc rank) other
      (merge_thread fuel group_size rank other sketch)

unfoldable pub merge : ℕ → ℕ → List ℕ → List ℕ → List ℕ
unfolding merge_threads
merge fuel group_size other sketch = merge_threads fuel group_size group_size 0 other sketch

-- `clear`: the same loop
unfoldable pub clear_thread : ℕ → ℕ → ℕ → List ℕ → List ℕ
clear_thread zero group_size i sketch = sketch
clear_thread (suc fuel) group_size i sketch =
    let rest = clear_thread fuel group_size (i + group_size) (set sketch i 0) in
    if ltb i (length sketch) then rest else sketch

-- the threads `rank, ..., rank + n - 1`, one after the other
unfoldable pub clear_threads : ℕ → ℕ → ℕ → ℕ → List ℕ → List ℕ
unfolding clear_thread
clear_threads fuel group_size zero rank sketch = sketch
clear_threads fuel group_size (suc n) rank sketch =
    clear_threads fuel group_size n (suc rank) (clear_thread fuel group_size rank sketch)

unfoldable pub clear : ℕ → ℕ → List ℕ → List ℕ
unfolding clear_threads
clear fuel group_size sketch = clear_threads fuel group_size group_size 0 sketch
