-- ===== src/Lib.antt =====
-- Verification of the open addressing containers of cuCollections, of their hash functions, and of
-- the parts that they stand on.
--
-- A container (`static_set`, `static_map`, `static_multiset`, `static_multimap`) is an array of
-- windows of slots in device memory. Its device "ref" works on it: a probing scheme hashes a key to
-- a first window and a step, the operation walks over the windows, compares each slot's key through
-- `equal_wrapper`, and changes a slot by compare-and-swap.
--
-- Equality.antt         include/cuco/detail/equal_wrapper.cuh
-- Probing.antt          include/cuco/detail/probing_scheme/probing_scheme_impl.inl and
--                       include/cuco/detail/utils.cuh
-- OpenAddressing/       include/cuco/detail/open_addressing/open_addressing_ref_impl.cuh: the ref in
--                       Defs, the loops in Loop, the updates of a slot in Cas, the operations in
--                       Insert, Erase and Lookup (`insert` is `insert`, with one helper for the
--                       body at a window, one for a slot and one for each `switch`), `initialize`
--                       and `make_copy` in Initialize; `end` is that of
--                       include/cuco/detail/storage/aow_storage.inl
-- Concurrent/           the same file, `insert` of threads that run at once: Threads has a thread's
--                       state and its steps, one access to the memory each
-- Group/                the same file, the operations of a cooperative group: Lanes has the threads
--                       and their loop, Writes and Queries the operations (`insert` is
--                       `insert_group`)
-- Hash/                 include/cuco/detail/hash_functions: murmurhash3.cuh in Murmur and Murmur128,
--                       xxhash.cuh in XxHash, utils.cuh in Words
-- Bitset/               include/cuco/detail/trie/dynamic_bitset: dynamic_bitset.inl in Defs (the bits),
--                       Query (the reference) and Build, kernels.cuh in Build with the grid loops
--                       in Grid
-- Extent/               include/cuco/detail/extent/extent.inl, with `lower_bound` of
--                       include/cuco/detail/utils.hpp and include/cuco/detail/utility/math.hpp
-- StaticMap/            include/cuco/detail/static_map/static_map_ref.inl: `insert_or_assign` in
--                       Assign, `insert_or_apply` in Apply
-- DynamicMap/           include/cuco/detail/dynamic_map/dynamic_map.inl, the host side of the
--                       experimental dynamic_map; the bulk operations of a submap and the load
--                       factor, which is floating point, are the parameters `StaticMap` and `Load`;
--                       where a conversion is out of range, `reserve` has no result, and `Converts` says
--                       that none is; `IsLoad` asks for exact arithmetic, as there is for numbers
--                       that the float holds without rounding
-- LegacyMap/            include/cuco/static_map.cuh and include/cuco/detail/static_map.inl, the older
--                       static_map: the views in Defs, the operations in Insert, Erase and Lookup,
--                       which Walk compares with the ref by `view_ref`; in Kernels what a thread of
--                       include/cuco/detail/dynamic_map_kernels.cuh does for a pair or a key
-- HyperLogLog/          include/cuco/detail/hyperloglog/hyperloglog_ref.cuh: `add`, `merge` and
--                       `clear`
-- Common/, Bits.antt    shared lemmas
--
-- The state of an operation is the memory, a function from the offset of a slot to the slot. A slot
-- is a pair of two numbers, the bit patterns of its key and its payload. The key equality and the
-- hash functions are parameters, and `IsKeyEqual` says what the containers ask of them. Unsigned
-- arithmetic of `w` bits is written with `% 2 ^ w`. A loop `while (true)` runs on fuel and `none`
-- says that it ran out: `num_windows` rounds suffice where the theorems say so, because a
-- well-formed table has every key on the path of its own probe. The index of `initialize` has the
-- type of a thread's rank, of `rank_bits` bits, and wraps around in it. A slot's words are loaded
-- with the window, before the loop over its slots, as in the source. `reserve` of a dynamic map has
-- fuel for the elements and the least bulk insert of each submap, as each new submap takes some off.
--
-- A thread of Concurrent stands at a point of the source with the variables that are live there, and
-- any thread may take the next step; `run` takes the steps in a given order. The slots that it has
-- loaded may be out of date when it reads them. A slot is loaded by one access, as the source does
-- for a window of slots with a vector load.
--
-- The words of a bitset are a function from their index with a size. A kernel's loop over its indices
-- is `launch`, whose threads run one after the other, with fuel for as many rounds as there are
-- indices. The sums and the selection that CUB does are a record of functions; `IsCub` says what
-- an exclusive sum is. A read past the end of an array gives whatever the function has there, and a
-- write changes it there and not the size.
--
-- The table of primes of include/cuco/detail/prime.hpp is a parameter, and `IsPrimeTable` says that it
-- is ascending and has primes.
--
-- A cooperative group is the list of its threads' probing iterators. Between two collective calls its
-- threads only read, so each looks at its window, and then the group decides from all results.
-- `group.ballot` and `__ffs` are `src_lane`, the first thread with a state. `continue` without
-- `++probing_iter` is `retry`.
--
-- Except in Concurrent, one thread or one group runs at a time, since the theorems are about what an
-- operation does by itself. Not modelled: erase and the operations of a group among other threads,
-- memory orders weaker than the order of the steps, and what `select` of a bitset promises; the
-- groups and the bulk operations of the older static_map and dynamic_map; the older static_multimap;
-- the kernels and the host code of the containers, storage allocation and CUDA streams, which have no
-- logic of their own; and the estimate of HyperLogLog, which is floating point.
pub mod Common
pub mod Equality
pub mod Probing
pub mod OpenAddressing
pub mod Group
pub mod Bitset
pub mod Extent
pub mod Concurrent
pub mod StaticMap
pub mod DynamicMap
pub mod LegacyMap
pub mod HyperLogLog
pub mod Bits
pub mod Hash
mod Tests
