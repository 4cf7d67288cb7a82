-- ===== src/LegacyMap/Walk.antt =====
-- The older map walks over the same slots as linear probing over windows of one slot, so its loop is
-- the loop of the ref.
use native.Mathlib.Nat.{mod-eq_of_lt, mod_self, mod-lt}
use cu_collections.Common.{
  ℕ, zero, suc, ◌+◌, ◌%◌, ◌^◌, ◌<◌, ◌≤◌, ◌≡◌, refl, ap, sym, ◌∙◌, subst, false, none, some, inl,
  inr, arith, ltb, Bool-cases, ltb→lt, not_ltb→le, if_yes, if_not, not,
}
use cu_collections.OpenAddressing.Defs.{Ref, probe}
use cu_collections.OpenAddressing.Loop.{return, next, Outcome, probe_loop}
use cu_collections.Probing.{ProbingIterator, linear_probing, advance, start_probe, sanitize_hash}
use cu_collections.LegacyMap.Defs.{
  View, Keys, initial_slot, next_slot, initial_group_slot, next_group_slot, slot_loop,
}

-- The view as a ref with windows of one slot, for a size type of `w` bits.
abbrev pub view_ref : ℕ → View → Keys → Ref
view_ref w v keys = record {
  empty_slot_sentinel = record { first = v.empty_key_sentinel; second = v.empty_value_sentinel };
  predicate = record {
    empty_sentinel = v.empty_key_sentinel;
    erased_sentinel = v.erased_key_sentinel;
    equal_fn = λ probe_key slot_key. keys.key_equal slot_key probe_key;
  };
  probing_scheme = linear_probing keys.hash;
  size_bits = w;
  num_windows = v.capacity;
  window_size = 1;
  allows_duplicates = false;
  has_payload = not v.packable;
  small_slot = v.packable;
  old_arch = v.old_arch;
}

-- The size type has the capacity and the hash values, and there is a slot.
pub record Fits (w : ℕ) (v : View) (keys : Keys) : Type 0 where
  pub some_slot : 0 < v.capacity
  pub capacity_fits : v.capacity < 2 ^ w
  pub hash_fits : (k : ℕ) → keys.hash k < 2 ^ w

abbrev pub iterator_at : View → ℕ → ProbingIterator
iterator_at v slot = record { curr_index = slot; step_size = 1; upper_bound = v.capacity }

module _ {w : ℕ} {v : View} {keys : Keys} (fits : Fits w v keys) where
  pub probe-iterator_at :
      (k : ℕ) → probe (view_ref w v keys) k ≡ iterator_at v (initial_slot v (keys.hash k))
  unfolding probe start_probe sanitize_hash initial_slot
  probe-iterator_at k =
      ap (λ (h : ℕ). iterator_at v (h % v.capacity)) (mod-eq_of_lt (fits.hash_fits k))

  pub next_slot-inside : (slot : ℕ) → next_slot v slot < v.capacity
  unfolding next_slot
  next_slot-inside slot = elim (Bool-cases (ltb (slot + 1) v.capacity)) [
    | inl e ↦ subst (λ n. n < v.capacity) (sym (if_yes (slot + 1) 0 e)) (ltb→lt _ _ e)
    | inr e ↦ subst (λ n. n < v.capacity) (sym (if_not (slot + 1) 0 e)) fits.some_slot
  ]

  pub advance-iterator_at :
      (slot : ℕ)
      → slot < v.capacity
      → advance w (iterator_at v slot) ≡ iterator_at v (next_slot v slot)
  unfolding advance next_slot
  advance-iterator_at slot inside = ap (iterator_at v) (
      ap (λ n. n % v.capacity) (mod-eq_of_lt whole)
      ∙ elim (Bool-cases (ltb (slot + 1) v.capacity)) [
        | inl e ↦ mod-eq_of_lt (ltb→lt _ _ e) ∙ sym (if_yes (slot + 1) 0 e)
        | inr e ↦
            ap (λ n. n % v.capacity) (last e) ∙ mod_self v.capacity ∙ sym (if_not (slot + 1) 0 e)
      ])
    where
      whole : slot + 1 < 2 ^ w
      whole = let h = fits.capacity_fits in omega arith

      last : ltb (slot + 1) v.capacity ≡ false → slot + 1 ≡ v.capacity
      last e = let h = not_ltb→le _ _ e in omega arith

  -- What a body does at a slot of the loop is what the body of the ref's loop does there, and
  -- where it goes on, it leaves the state as it was.
  pub slot_loop-probe_loop {ℓ κ} :
      {R : Type ℓ} {S : Type κ} (fuel slot : ℕ) (body body' : ℕ → S → Outcome R S) (s : S)
      → slot < v.capacity
      → ((a : ℕ) → a < v.capacity → body a s ≡ body' a s)
      → ((a : ℕ) (t : S) → a < v.capacity → body a s ≡ some (next, t) → t ≡ s)
      → slot_loop fuel v slot body s ≡ probe_loop fuel w (iterator_at v slot) body' s
  unfolding slot_loop probe_loop
  slot_loop-probe_loop zero slot body body' s inside same still = refl
  slot_loop-probe_loop {R = R} {S} (suc fuel) slot body body' s inside same still =
      split
        (subst (λ it. slot_loop fuel v (next_slot v slot) body s ≡ probe_loop fuel w it body' s)
          (sym (advance-iterator_at slot inside))
          (slot_loop-probe_loop fuel (next_slot v slot) body body' s (next_slot-inside slot) same
            still))
        (body slot s) refl
    where
      split :
          slot_loop fuel v (next_slot v slot) body s
            ≡ probe_loop fuel w (advance w (iterator_at v slot)) body' s
          → (o : Outcome R S) → body slot s ≡ o
          → slot_loop (suc fuel) v slot body s
            ≡ probe_loop (suc fuel) w (iterator_at v slot) body' s
      split ih none e = rw (e, sym (same slot inside) ∙ e, slot_loop, probe_loop)
      split ih (some (return x, t)) e = rw (e, sym (same slot inside) ∙ e, slot_loop, probe_loop)
      split ih (some (next, t)) e =
          rw (e, sym (same slot inside) ∙ e, slot_loop, probe_loop)
            (subst
              (λ u.
                slot_loop fuel v (next_slot v slot) body u
                ≡ probe_loop fuel w (advance w (iterator_at v slot)) body' u)
              (sym (still slot t inside e)) ih)

  -- The same for the whole operation on a key.
  pub walk-probe_loop {ℓ κ} :
      {R : Type ℓ} {S : Type κ} (fuel k : ℕ) (body body' : ℕ → S → Outcome R S) (s : S)
      → ((a : ℕ) → a < v.capacity → body a s ≡ body' a s)
      → ((a : ℕ) (t : S) → a < v.capacity → body a s ≡ some (next, t) → t ≡ s)
      → slot_loop fuel v (initial_slot v (keys.hash k)) body s
        ≡ probe_loop fuel w (probe (view_ref w v keys) k) body' s
  unfolding initial_slot
  walk-probe_loop fuel k body body' s same still =
      slot_loop-probe_loop fuel (initial_slot v (keys.hash k)) body body' s
        (mod-lt (keys.hash k) fits.some_slot) same still
      ∙ ap (λ it. probe_loop fuel w it body' s) (sym (probe-iterator_at k))

-- A group of one thread goes the way of a thread, as long as 32 bits have the slots.
pub next_group_slot-next_slot :
    (v : View) (s : ℕ)
    → s < v.capacity
    → v.capacity ≤ 2 ^ 32
    → next_group_slot v 1 s ≡ next_slot v s
unfolding next_group_slot next_slot
next_group_slot-next_slot v s inside small =
    ap (λ n. (n + 1) % v.capacity) (mod-eq_of_lt {m = 2 ^ 32} (omega (arith, inside, small)))
    ∙ elim (Bool-cases (ltb (s + 1) v.capacity)) [
      | inl e ↦ mod-eq_of_lt (ltb→lt _ _ e) ∙ sym (if_yes (s + 1) 0 e)
      | inr e ↦
          let h = not_ltb→le _ _ e in
          let last : s + 1 ≡ v.capacity = omega arith in
          ap (λ n. n % v.capacity) last ∙ mod_self v.capacity ∙ sym (if_not (s + 1) 0 e)
    ]

pub initial_group_slot-initial_slot :
    (w : ℕ) (v : View) (hash : ℕ)
    → hash < 2 ^ w
    → initial_group_slot w v 0 hash ≡ initial_slot v hash
unfolding initial_group_slot initial_slot
initial_group_slot-initial_slot w v hash small =
    ap (λ n. n % v.capacity) (ap (λ n. n % 2 ^ w) (omega arith) ∙ mod-eq_of_lt small)
