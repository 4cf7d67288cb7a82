-- ===== src/Tests/Extents.antt =====
-- Extents over a table of three primes.
use cu_collections.Common.{
  ℕ, zero, suc, ◌-◌, ◌%◌, ◌≢◌, ◌*◌, ◌<◌, ◌≤◌, ◌^◌, ◌≡◌, refl, arith, true, false, ◌==◌,
  if◌then◌else◌, ◌⊎◌, max, In,
}
use cu_collections.OpenAddressing.Defs.{Ref, capacity}
use cu_collections.OpenAddressing.Path.{path}
use cu_collections.OpenAddressing.Reach.{IsRef}
use cu_collections.Probing.{double_hashing}
use cu_collections.Probing.Cycle.{IsPrime}
use cu_collections.Extent.Defs.{
  Table, lower_bound, int_div_ceil, fails, windows, max_value, window_count, make_window_extent,
}
use cu_collections.Extent.Laws.{IsPrimeTable, Extends, make_window_extent-Extends, extent-covers}

machine : Unit {0}
unfolding lower_bound int_div_ceil max_value window_count make_window_extent
machine = tt

abbrev three_primes : Table
three_primes = record { size = 3; at = λ i. if i == 0 then 2 else if i == 1 then 3 else 5 }

two-IsPrime : IsPrime 2
two-IsPrime = record {
  big = omega arith;
  undivided = λ d low high. absurd (omega (arith, low, high));
}

three-IsPrime : IsPrime 3
three-IsPrime = record { big = omega arith; undivided = go }
  where
    go : (d : ℕ) → 1 < d → d < 3 → 3 % d ≢ 0
    go zero low high e = omega arith
    go (suc zero) low high e = omega arith
    go (suc (suc zero)) low high e = omega (arith, e)
    go (suc (suc (suc d))) low high e = omega arith

five-IsPrime : IsPrime 5
five-IsPrime = record { big = omega arith; undivided = go }
  where
    go : (d : ℕ) → 1 < d → d < 5 → 5 % d ≢ 0
    go zero low high e = omega arith
    go (suc zero) low high e = omega arith
    go (suc (suc zero)) low high e = omega (arith, e)
    go (suc (suc (suc zero))) low high e = omega (arith, e)
    go (suc (suc (suc (suc zero)))) low high e = omega (arith, e)
    go (suc (suc (suc (suc (suc d))))) low high e = omega arith

three_primes-IsPrimeTable : IsPrimeTable three_primes
three_primes-IsPrimeTable = record { some_prime = omega arith; sorted = ground arith; prime = go }
  where
    go : (i : ℕ) → i < 3 → IsPrime (three_primes.at i)
    go zero lt = two-IsPrime
    go (suc zero) lt = three-IsPrime
    go (suc (suc zero)) lt = five-IsPrime
    go (suc (suc (suc i))) lt = absurd (omega (arith, lt))

make_window_extent-Extends_example :
    ((max_value 32 three_primes < int_div_ceil 32 (max 5 1) (4 * 2))
      × (make_window_extent 3 32 4 2 three_primes 5 ≡ fails))
    ⊎ ((n : ℕ) × (make_window_extent 3 32 4 2 three_primes 5 ≡ windows n)
        × Extends 32 4 2 three_primes 5 n)
make_window_extent-Extends_example =
    make_window_extent-Extends three_primes-IsPrimeTable 32 4 2 3 5 (omega arith) (omega arith)
      (omega arith) (omega arith)

-- A map with double hashing.
abbrev double_map : Ref
double_map = record {
  empty_slot_sentinel = record { first = 100; second = 0 };
  predicate = record { empty_sentinel = 100; erased_sentinel = 101; equal_fn = λ a b. a == b };
  probing_scheme = double_hashing (λ k. k) (λ k. 3 * k);
  size_bits = 32;
  num_windows = 3;
  window_size = 2;
  allows_duplicates = false;
  has_payload = true;
  small_slot = false;
  old_arch = false;
}

double_map-IsRef : IsRef double_map
double_map-IsRef = omega arith

three_windows : make_window_extent 3 32 1 2 three_primes 5 ≡ windows 3
unfolding machine
three_windows = refl

extent-covers_example :
    (5 ≤ capacity double_map)
    × ((key a : ℕ) → a < capacity double_map → In a (path double_map.num_windows double_map key))
extent-covers_example =
    extent-covers three_primes-IsPrimeTable 3 5 3 (omega arith) double_map-IsRef (λ k. k)
      (λ k. 3 * k) refl refl (omega arith) (omega arith) three_windows

-- Near the largest value of the size type the division wraps around, and the extent is too small.
wrapped_extent : make_window_extent 3 32 2 2 three_primes (2 ^ 32 - 1) ≡ windows 4
unfolding machine
wrapped_extent = refl
