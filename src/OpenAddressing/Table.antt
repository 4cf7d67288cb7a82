-- ===== src/OpenAddressing/Table.antt =====
-- The well-formed tables of the open addressing ref: what is assumed of the key comparison, and
-- the invariant that every operation keeps.
use cu_collections.Common.{
  ℕ, ◌<◌, ◌≡◌, ◌≢◌, refl, ap, sym, ◌∙◌, Bool, true, false, ◌||◌, ◌==◌, arith, All, All-In, All-map,
  Split, compare_parts, inl, inr,
}
use cu_collections.Probing.{ProbingScheme, linear_probing, double_hashing, start_probe}
use cu_collections.OpenAddressing.Defs.{Slot, Memory, Ref, empty_value_sentinel, capacity, probe}
use cu_collections.OpenAddressing.Path.{path_from, path}

abbrev pub SameHash : ProbingScheme → ℕ → ℕ → Type 0
SameHash (linear_probing hash) a b = hash a ≡ hash b
SameHash (double_hashing hash1 hash2) a b = (hash1 a ≡ hash1 b) × (hash2 a ≡ hash2 b)

-- What the containers ask of `KeyEqual` and of the hash functions.
pub record IsKeyEqual (r : Ref) : Type 0 where
  pub reflexive : (a : ℕ) → r.predicate.equal_fn a a ≡ true
  pub symmetric : (a b : ℕ) → r.predicate.equal_fn a b ≡ r.predicate.equal_fn b a
  pub transitive :
      (a b c : ℕ)
      → r.predicate.equal_fn a b ≡ true
      → r.predicate.equal_fn b c ≡ true
      → r.predicate.equal_fn a c ≡ true
  pub hash_congr : (a b : ℕ) → r.predicate.equal_fn a b ≡ true → SameHash r.probing_scheme a b

-- A key that is no sentinel, and that is not taken for the erased one.
pub record IsValidKey (r : Ref) (k : ℕ) : Type 0 where
  pub not_empty : k ≢ r.predicate.empty_sentinel
  pub not_erased : k ≢ r.predicate.erased_sentinel
  pub apart : r.predicate.equal_fn k r.predicate.erased_sentinel ≡ false

abbrev pub is_available : Ref → Slot → Bool
is_available r s =
    (s.first == r.predicate.empty_sentinel) || (s.first == r.predicate.erased_sentinel)

-- A probe for `k` goes on past the slot, also where it may insert.
abbrev pub Passed : Ref → Memory → ℕ → ℕ → Type 0
Passed r m k b =
    ((m b).first ≢ r.predicate.empty_sentinel)
    × (r.allows_duplicates ≡ false → r.predicate.equal_fn k (m b).first ≡ false)

-- A probe for `k` arrives at the slot `a`.
pub record Chain (r : Ref) (m : Memory) (k a : ℕ) : Type 0 where
  pub split : Split (path r.num_windows r k) a
  pub passed : All (Passed r m k) split.before

pub record IsTable (r : Ref) (m : Memory) : Type 0 where
  pub linked : (a : ℕ) → a < capacity r → is_available r (m a) ≡ false → Chain r m (m a).first a
  pub valid : (a : ℕ) → a < capacity r → is_available r (m a) ≡ false → IsValidKey r (m a).first
  pub idle :
      (a : ℕ) → a < capacity r → is_available r (m a) ≡ true → (m a).second ≡ empty_value_sentinel r

-- Some slot holds a key that is equal to `k`.
abbrev pub HoldsAt : Ref → Memory → ℕ → ℕ → Type 0
HoldsAt r m k a =
    (a < capacity r) × (is_available r (m a) ≡ false) × (r.predicate.equal_fn k (m a).first ≡ true)

abbrev pub Present : Ref → Memory → ℕ → Type 0
Present r m k = (a : ℕ) × HoldsAt r m k a

probe_congr : (r : Ref) (a b : ℕ) → SameHash r.probing_scheme a b → probe r a ≡ probe r b
unfolding probe
probe_congr r a b h = by_scheme r.probing_scheme h
  where
    by_scheme :
        (s : ProbingScheme)
        → SameHash s a b
        → start_probe r.size_bits s a r.num_windows ≡ start_probe r.size_bits s b r.num_windows
    by_scheme (linear_probing hash) e =
        unfold start_probe in
        ap (λ h. start_probe r.size_bits (linear_probing (λ _. h)) a r.num_windows) e
    by_scheme (double_hashing hash1 hash2) e = unfold start_probe in rw (e.0, e.1)

module _ {r : Ref} (ok : IsKeyEqual r) where
  -- Equal keys have one path.
  pub path_congr : (fuel a b : ℕ) → r.predicate.equal_fn a b ≡ true → path fuel r a ≡ path fuel r b
  unfolding path
  path_congr fuel a b e = ap (path_from fuel r) (probe_congr r a b (ok.hash_congr a b e))

  pub equal_congr :
      (a b c : ℕ)
      → r.predicate.equal_fn a b ≡ true
      → r.predicate.equal_fn a c ≡ r.predicate.equal_fn b c
  equal_congr a b c e = ground (arith, ok.symmetric a b, ok.transitive a b c, ok.transitive b a c)

  -- A probe for any equal key arrives at the slot.
  pub Chain-for : {m : Memory} {k : ℕ} → IsTable r m → (a : ℕ) → HoldsAt r m k a → Chain r m k a
  Chain-for {m} {k} t a h =
      let c = t.linked a h.0 h.1 in
      let e = path_congr r.num_windows k (m a).first h.2 in
      record {
        split = record {
          before = c.split.before;
          after = c.split.after;
          whole = e ∙ c.split.whole;
        };
        passed =
            All-map (Passed r m (m a).first) (Passed r m k)
              (λ b p. (p.0, λ nodup. equal_congr k (m a).first (m b).first h.2 ∙ p.1 nodup))
              c.split.before c.passed;
      }

  -- In a well-formed table without duplicates two slots that both hold a key equal to `k` are one
  -- slot.
  pub holder_unique :
      {m : Memory} {k : ℕ}
      → r.allows_duplicates ≡ false
      → IsTable r m
      → (a b : ℕ) → HoldsAt r m k a
      → HoldsAt r m k b
      → a ≡ b
  holder_unique {m} {k} nodup t a b ha hb =
      let ca = Chain-for t a ha in
      let cb = Chain-for t b hb in
      elim (compare_parts a b ca.split.before ca.split.after cb.split.before cb.split.after
        (sym ca.split.whole ∙ cb.split.whole)) [
          | inl i ↦ absurd (refuted a ha (All-In (Passed r m k) a cb.split.before cb.passed i))
          | inr (inl e) ↦ e
          | inr (inr i) ↦
              absurd (refuted b hb (All-In (Passed r m k) b ca.split.before ca.passed i))
        ]
    where
      refuted : (c : ℕ) → HoldsAt r m k c → Passed r m k c → ⊥
      refuted c h p = cc (h.2, p.1 nodup)

-- A storage that was just initialized.
abbrev pub blank : Ref → Memory
blank r = λ _. r.empty_slot_sentinel

pub blank-IsTable :
    (r : Ref) → r.empty_slot_sentinel.first ≡ r.predicate.empty_sentinel → IsTable r (blank r)
blank-IsTable r e = record {
  linked = λ a lt filled. absurd (ground arith);
  valid = λ a lt filled. absurd (ground arith);
  idle = λ a lt free. refl;
}
