-- ===== src/OpenAddressing/InitializeLaws.antt =====
-- `initialize` makes an empty table, and `make_copy` makes a copy.
use cu_collections.Common.{
  ℕ, zero, suc, ◌+◌, ◌*◌, ◌/◌, ◌%◌, ◌^◌, ◌<◌, ◌≤◌, ◌≡◌, refl, ap, sym, ◌∙◌, subst, arith, false,
  ltb, Option, none, some, ltb→lt, not_ltb→le, if_yes, if_not, Bool-cases, inl, inr, eq-or-ne,
}
use native.Mathlib.Nat.{mod-lt, mod-add-div', mod-eq_of_lt, div-lt_iff_lt-mul}
use cu_collections.OpenAddressing.Defs.{Slot, Memory, write, Ref, capacity, slot_address}
use cu_collections.OpenAddressing.Initialize.{
  fill_window, fill_thread, fill_threads, initialize, make_copy,
}
use cu_collections.OpenAddressing.Reach.{IsRef}
use cu_collections.OpenAddressing.Steps.{write_here, write_other}
use cu_collections.OpenAddressing.Table.{IsTable}

module _ (r : Ref) (value : ℕ → Slot) where
  -- A slot that has its value keeps it.
  write_keeps : (m : Memory) (a b : ℕ) → m a ≡ value a → write m b (value b) a ≡ value a
  write_keeps m a b h = elim (eq-or-ne a b) [
    | inl e ↦ write_here m b a (value b) e ∙ ap value (sym e)
    | inr ne ↦ write_other m b a (value b) ne ∙ h
  ]

  window_keeps :
      (window n i : ℕ) (m : Memory) (a : ℕ)
      → m a ≡ value a
      → fill_window r value window n i m a ≡ value a
  unfolding fill_window
  window_keeps window zero i m a h = h
  window_keeps window (suc n) i m a h =
      window_keeps window n (suc i) _ a (write_keeps m a (slot_address r window i) h)

  window_fills :
      (window n i j : ℕ) (m : Memory)
      → i ≤ j
      → j < i + n
      → fill_window r value window n i m (slot_address r window j) ≡ value (slot_address r window j)
  unfolding fill_window
  window_fills window zero i j m from below = absurd (omega arith)
  window_fills window (suc n) i j m from below = elim (eq-or-ne i j) [
    | inl e ↦ window_keeps window n (suc i) _ (slot_address r window j) (
        subst
          (λ i.
            write m (slot_address r window i) (value (slot_address r window i))
              (slot_address r window j)
            ≡ value (slot_address r window j))
          (sym e)
          (write_here m (slot_address r window j) (slot_address r window j)
            (value (slot_address r window j)) refl))
    | inr ne ↦ window_fills window n (suc i) j _ (omega (arith, from, ne)) (omega (arith, below))
  ]

  -- What a thread does that starts at the window `tid`: it ends, a slot that has its value keeps it,
  -- and the slots of the windows that are its turn get theirs.
  record Filled (g tid : ℕ) (m : Memory) (o : Option Memory) : Type 0 where
    m' : Memory
    result : o ≡ some m'
    keeps : (a : ℕ) → m a ≡ value a → m' a ≡ value a
    fills :
        (k window j : ℕ)
        → window ≡ tid + k * g
        → window < r.num_windows
        → j < r.window_size
        → m' (slot_address r window j) ≡ value (slot_address r window j)

  -- past the last window
  over : (g tid : ℕ) (m : Memory) → r.num_windows ≤ tid → Filled g tid m (some m)
  over g tid m outside = record {
    m' = m;
    result = refl;
    keeps = λ a h. h;
    fills = λ k window j e inside lt. absurd (omega (arith, e, inside, outside));
  }

  -- one round, and the others
  round :
      (g tid next : ℕ) (m : Memory) (o : Option Memory)
      → next ≡ tid + g
      → tid < r.num_windows
      → Filled g next (fill_window r value tid r.window_size 0 m) o
      → Filled g tid m o
  round g tid next m o on inside f = record {
    m' = f.m';
    result = f.result;
    keeps = λ a h. f.keeps a (window_keeps tid r.window_size 0 m a h);
    fills = turn;
  }
    where
      turn :
          (k window j : ℕ)
          → window ≡ tid + k * g
          → window < r.num_windows
          → j < r.window_size
          → f.m' (slot_address r window j) ≡ value (slot_address r window j)
      turn zero window j e below lt =
          let here : tid ≡ window = omega (arith, e) in
          f.keeps (slot_address r window j) (
            subst
              (λ w.
                fill_window r value tid r.window_size 0 m (slot_address r w j)
                ≡ value (slot_address r w j))
              here (window_fills tid r.window_size 0 j m (omega arith) (omega (arith, lt))))
      turn (suc k) window j e below lt = f.fills k window j (omega (arith, e, on)) below lt

  -- What the threads `rank, ..., rank + n - 1` do.
  record AllFilled (g n rank : ℕ) (m : Memory) (o : Option Memory) : Type 0 where
    m' : Memory
    result : o ≡ some m'
    keeps : (a : ℕ) → m a ≡ value a → m' a ≡ value a
    fills :
        (t k window j : ℕ)
        → window ≡ t + k * g
        → rank ≤ t
        → t < rank + n
        → window < r.num_windows
        → j < r.window_size
        → m' (slot_address r window j) ≡ value (slot_address r window j)

  module _ (w g : ℕ) (some_thread : 0 < g) (fits : r.num_windows + g ≤ 2 ^ w) where
    thread-Filled :
        (fuel tid : ℕ) (m : Memory)
        → r.num_windows ≤ tid + fuel
        → Filled g tid m (fill_thread fuel w r value g tid m)
    unfolding fill_thread
    thread-Filled zero tid m enough =
        let outside : r.num_windows ≤ tid = omega (arith, enough) in
        let test : ltb tid r.num_windows ≡ false = ground (arith, outside) in
        subst (Filled g tid m) (sym (if_not none (some m) test)) (over g tid m outside)
    thread-Filled (suc fuel) tid m enough = elim (Bool-cases (ltb tid r.num_windows)) [
      | inr test ↦
          subst (Filled g tid m) (sym (if_not _ (some m) test)) (over g tid m (not_ltb→le _ _ test))
      | inl test ↦
          let inside = ltb→lt _ _ test in
          let on : (tid + g) % 2 ^ w ≡ tid + g = mod-eq_of_lt (omega (arith, inside, fits)) in
          subst (Filled g tid m) (sym (if_yes _ (some m) test)) (
            round g tid ((tid + g) % 2 ^ w) m _ on inside
              (thread-Filled fuel ((tid + g) % 2 ^ w) _ (omega (arith, on, enough, some_thread))))
    ]

    threads-AllFilled :
        (fuel n rank : ℕ) (m : Memory)
        → r.num_windows ≤ fuel
        → AllFilled g n rank m (fill_threads fuel w r value g n rank m)
    unfolding fill_threads
    threads-AllFilled fuel zero rank m enough = record {
      m' = m;
      result = refl;
      keeps = λ a h. h;
      fills = λ t k window j e from below inside lt. absurd (omega (arith, from, below));
    }
    threads-AllFilled fuel (suc n) rank m enough =
        let f = thread-Filled fuel rank m (omega (arith, enough)) in
        let rest = threads-AllFilled fuel n (suc rank) f.m' enough in
        record {
          m' = rest.m';
          result = rw (f.result, fill_threads) rest.result;
          keeps = λ a h. rest.keeps a (f.keeps a h);
          fills = λ t k window j e from below inside lt. elim (eq-or-ne rank t) [
            | inl here ↦
                rest.keeps (slot_address r window j)
                  (f.fills k window j (omega (arith, e, here)) inside lt)
            | inr ne ↦
                rest.fills t k window j e (omega (arith, from, ne)) (omega (arith, below)) inside lt
          ];
        }

    -- Every slot of the storage gets its value.
    fills :
        (fuel : ℕ) (m : Memory)
        → 0 < r.window_size
        → r.num_windows ≤ fuel
        → (m' : Memory) × (fill_threads fuel w r value g g 0 m ≡ some m')
          × ((a : ℕ) → a < capacity r → m' a ≡ value a)
    unfolding capacity
    fills fuel m some_slot enough =
        let f = threads-AllFilled fuel g 0 m enough in
        (
          f.m',
          f.result,
          λ a inside.
              let u = a / r.window_size in
              let j = a % r.window_size in
              let at : slot_address r u j ≡ a = omega (arith, mod-add-div' a r.window_size) in
              let lt : u < r.num_windows = (div-lt_iff_lt-mul some_slot).1 inside in
              subst (λ a. f.m' a ≡ value a) at
                (f.fills (u % g) (u / g) u j (sym (mod-add-div' u g)) (omega arith)
                  (omega (arith, mod-lt u some_thread)) lt (mod-lt a some_slot)),
        )

-- If the key of the empty slot sentinel is the empty one, with windows that have slots, at least
-- one thread, a thread rank whose type has the windows and a tile more, and fuel for as many rounds
-- as there are windows: whatever was there, `initialize` ends, and leaves a well-formed table with
-- the empty slot sentinel in every slot.
pub initialize-IsTable :
    (r : Ref) (fuel rank_bits tile_size : ℕ) (m : Memory)
    → IsRef r
    → r.empty_slot_sentinel.first ≡ r.predicate.empty_sentinel
    → 0 < tile_size
    → r.num_windows + tile_size ≤ 2 ^ rank_bits
    → r.num_windows ≤ fuel
    → (m' : Memory) × (initialize fuel rank_bits r tile_size m ≡ some m')
      × IsTable r m'
      × ((a : ℕ) → a < capacity r → m' a ≡ r.empty_slot_sentinel)
unfolding initialize
initialize-IsTable r fuel rank_bits tile_size m ref same some_thread fits enough =
    let (m', done, blank) =
      fills r (λ _. r.empty_slot_sentinel) rank_bits tile_size some_thread fits fuel m ref.some_slot
        enough in
    (
      m',
      done,
      record {
        linked = λ a lt filled. absurd (ground (arith, blank a lt, filled, same));
        valid = λ a lt filled. absurd (ground (arith, blank a lt, filled, same));
        idle = λ a lt free. ap (λ (s : Slot). s.second) (blank a lt);
      },
      blank,
    )

-- With at least one thread, an index whose type has the windows and a tile more, and fuel for as
-- many rounds as there are windows, `make_copy` ends, and every slot of the memory that it writes
-- to holds what the slot of the source holds.
pub make_copy_lem :
    (r : Ref) (fuel tile_size : ℕ) (source m : Memory)
    → IsRef r
    → 0 < tile_size
    → r.num_windows + tile_size ≤ 2 ^ r.size_bits
    → r.num_windows ≤ fuel
    → (m' : Memory) × (make_copy fuel r tile_size source m ≡ some m')
      × ((a : ℕ) → a < capacity r → m' a ≡ source a)
unfolding make_copy
make_copy_lem r fuel tile_size source m ref some_thread fits enough =
    fills r source r.size_bits tile_size some_thread fits fuel m ref.some_slot enough
