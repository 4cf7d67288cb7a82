-- ===== src/Extent/Defs.antt =====
-- `make_window_extent` for a dynamic extent, over a table of primes. The table of prime.hpp is a parameter, an
-- array with its size. `SizeType` is unsigned and has `w` bits.
use cu_collections.Common.{
  ℕ, zero, suc, ◌+◌, ◌-◌, ◌*◌, ◌/◌, ◌%◌, ◌^◌, max, ltb, if◌then◌else◌, Option, none, some,
}

pub record Table : Type 0 where
  pub size : ℕ
  pub at : ℕ → ℕ

-- the `while (count > 0)` of `lower_bound`, on indices
unfoldable pub lower_bound : ℕ → (ℕ → ℕ) → ℕ → ℕ → ℕ → Option ℕ
lower_bound zero at first count value = if ltb 0 count then none else some first
lower_bound (suc fuel) at first count value =
    let step = count / 2 in
    let it = first + step in
    let right = lower_bound fuel at (it + 1) (count - (step + 1)) value in
    let left = lower_bound fuel at first step value in
    if ltb 0 count then (if ltb (at it) value then right else left) else some first

-- A sum that does not fit wraps around.
unfoldable pub int_div_ceil : ℕ → ℕ → ℕ → ℕ
int_div_ceil w dividend divisor = (dividend + divisor + 2 ^ w - 1) % 2 ^ w / divisor

pub data Outcome : Type 0 where
  -- `CUCO_FAIL("Invalid input extent")`
  fails : Outcome
  windows : (n : ℕ) → Outcome
  out_of_fuel : Outcome

-- The largest size that is accepted.
unfoldable pub max_value : ℕ → Table → ℕ
max_value w primes =
    let max_prime = primes.at (primes.size - 1) in
    if ltb (2 ^ w - 1) max_prime then 2 ^ w - 1 else max_prime

-- the prime at the index that `lower_bound` has found, times the size of a group
unfoldable pub window_count : ℕ → ℕ → Table → Option ℕ → Outcome
window_count w cg_size primes none = out_of_fuel
window_count w cg_size primes (some i) = windows (primes.at i * cg_size % 2 ^ w)

unfoldable pub make_window_extent : ℕ → ℕ → ℕ → ℕ → Table → ℕ → Outcome
unfolding lower_bound int_div_ceil max_value window_count
make_window_extent fuel w cg_size window_size primes ext =
    let size = int_div_ceil w (max ext 1) (cg_size * window_size) in
    if ltb (max_value w primes) size
    then fails
    else window_count w cg_size primes (lower_bound fuel primes.at 0 primes.size size)
