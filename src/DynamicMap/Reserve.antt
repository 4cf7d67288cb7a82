-- ===== src/DynamicMap/Reserve.antt =====
-- What `reserve` gives, where its conversions are defined.
use cu_collections.Common.{
  ℕ, zero, suc, ◌+◌, ◌*◌, ◌%◌, ◌^◌, ◌≤◌, ◌<◌, ◌≡◌, refl, ap, sym, ◌∙◌, subst, arith, false, ltb,
  Bool-cases, eq-or-ne, lt→ltb, if_yes, if_not, List, [], ◌∷◌, length, Option, none, some, ◌⊎◌, inl,
  inr, All,
}
use native.Mathlib.Nat.{mul-suc}
use cu_collections.DynamicMap.Defs.{
  Load, IsLoad, Submap, StaticMap, with_submap, if_defined, new_submap, reserve_new, reserve_in,
}

-- A new submap has the capacity that is asked for, and a bulk insert has at most as many successes as
-- elements.
pub record IsStaticMap {S A : Type 0} (ops : StaticMap S A) : Type 0 where
  pub roomy : (n : ℕ) → n ≤ (ops.create n).0
  pub bounded : (s : S) (items : List A) → (ops.insert_range s items).0 ≤ length items

-- how many elements the submaps hold
abbrev pub total_size : {S : Type 0} → List (Submap S) → ℕ
total_size [] = 0
total_size (s ∷ subs) = s.size + total_size subs

-- A submap is filled up to its load at most.
abbrev pub Fits : {S : Type 0} → Load → Submap S → Type 0
Fits l s = s.size ≤ l.whole s.capacity

-- The submaps take the count off, one after the other.
abbrev pub Enough : {S : Type 0} → Load → ℕ → ℕ → List (Submap S) → Type 0
Enough l k remaining [] = remaining ≡ 0
Enough l k remaining (s ∷ subs) =
    (remaining ≡ 0) ⊎ ((n : ℕ) × (remaining + k ≤ n + l.whole s.capacity + 1) × Enough l k n subs)

-- What `reserve` gives from submaps that hold `size` elements.
pub record Reserved {S : Type 0} (l : Load) (k remaining size : ℕ) (subs' : List (Submap S))
    : Type 0 where
  pub enough : Enough l k remaining subs'
  pub same_size : total_size subs' ≡ size
  pub fits : All (Fits l) subs'

-- Nothing is left to take off.
nothing_left :
    {S : Type 0} (l : Load) (k remaining : ℕ) (subs : List (Submap S))
    → ltb 0 remaining ≡ false
    → All (Fits l) subs
    → Reserved l k remaining (total_size subs) subs
nothing_left {S} l k remaining subs e fits = record {
  enough = enough subs;
  same_size = refl;
  fits = fits;
}
  where
    zeroed : remaining ≡ 0
    zeroed = ground (arith, e)

    enough : (subs : List (Submap S)) → Enough l k remaining subs
    enough [] = zeroed
    enough (s ∷ subs) = inl zeroed

-- What a submap in front adds.
in_front :
    {S : Type 0} (l : Load) (k remaining n size : ℕ) (s : Submap S) (subs : List (Submap S))
    → remaining + k ≤ n + l.whole s.capacity + 1
    → Fits l s
    → Reserved l k n size subs
    → Reserved l k remaining (s.size + size) (s ∷ subs)
in_front l k remaining n size s subs le fit r = record {
  enough = inr (n, le, r.enough);
  same_size = ap (λ m. s.size + m) r.same_size;
  fits = (fit, r.fits);
}

-- the parts of a result
first_part :
    {S : Type 0} {a c : ℕ} {b d : List (Submap S)}
    → ◌≡◌ {A = Option (ℕ × List (Submap S))} (some (a, b)) (some (c, d))
    → a ≡ c
first_part e = cc e

second_part :
    {S : Type 0} {a c : ℕ} {b d : List (Submap S)}
    → ◌≡◌ {A = Option (ℕ × List (Submap S))} (some (a, b)) (some (c, d))
    → b ≡ d
second_part e = cc e

-- A result with a submap in front comes from a conversion that was defined, and a result without it.
front_cases :
    {S : Type 0} (s : Submap S) (o : Option ℕ) (rest : ℕ → Option (ℕ × List (Submap S))) (c : ℕ)
    (subs' : List (Submap S))
    → with_submap s (if_defined o rest) ≡ some (c, subs')
    → (n : ℕ) × (subs : List (Submap S)) × (o ≡ some n)
      × (rest n ≡ some (c, subs))
      × (s ∷ subs ≡ subs')
unfolding with_submap if_defined
front_cases s none rest c subs' e = absurd (cc e)
front_cases {S} s (some n) rest c subs' e =
    let (subs, f, shape) = by_rest (rest n) e in (n, subs, refl, f, shape)
  where
    by_rest :
        (o : Option (ℕ × List (Submap S)))
        → with_submap s o ≡ some (c, subs')
        → (subs : List (Submap S)) × (◌≡◌ {A = Option (ℕ × List (Submap S))} o (some (c, subs)))
          × (s ∷ subs ≡ subs')
    by_rest none e = absurd (cc e)
    by_rest (some (c', subs)) e =
        (subs, ap (λ (x : ℕ). some (x, subs)) (first_part e), second_part e)

module _ {S A : Type 0} {l : Load} (load : IsLoad l) {ops : StaticMap S A} (bulk : IsStaticMap ops)
    (k : ℕ) where
  reserve_new-Reserved :
      (fuel remaining capacity c : ℕ) (subs' : List (Submap S))
      → reserve_new l ops fuel k remaining capacity ≡ some (c, subs')
      → Reserved l k remaining 0 subs'
  unfolding reserve_new new_submap
  reserve_new-Reserved zero remaining capacity c subs' e = elim (Bool-cases (ltb 0 remaining)) [
    | inl f ↦ absurd (cc (sym (if_yes none (some (capacity, [])) f) ∙ e))
    | inr f ↦
        subst (Reserved l k remaining 0)
          (second_part (sym (if_not none (some (capacity, [])) f) ∙ e))
          (nothing_left l k remaining [] f tt)
  ]
  reserve_new-Reserved (suc fuel) remaining capacity c subs' e =
      elim (Bool-cases (ltb 0 remaining)) [
        | inl f ↦
            let s : Submap S = new_submap l ops capacity in
            let (n, subs, taken, re, shape) =
              front_cases s (l.take_off remaining capacity k) _ c subs' (sym (if_yes _ _ f) ∙ e) in
            let larger = load.grows capacity (ops.create capacity).0 (bulk.roomy capacity) in
            subst (Reserved l k remaining 0) shape (
              in_front l k remaining n 0 s subs
                (omega (arith, (load.takes remaining capacity k n taken).0, larger)) (omega arith)
                (reserve_new-Reserved fuel n (capacity * 2 % 2 ^ l.size_bits) c subs re))
        | inr f ↦
            subst (Reserved l k remaining 0) (second_part (sym (if_not _ _ f) ∙ e))
              (nothing_left l k remaining [] f tt)
      ]

  pub reserve_in-Reserved :
      (fuel remaining capacity c : ℕ) (subs subs' : List (Submap S))
      → All (Fits l) subs
      → reserve_in l ops fuel k remaining capacity subs ≡ some (c, subs')
      → Reserved l k remaining (total_size subs) subs'
  unfolding reserve_in
  reserve_in-Reserved fuel remaining capacity c [] subs' fits e =
      reserve_new-Reserved fuel remaining capacity c subs' e
  reserve_in-Reserved fuel remaining capacity c (s ∷ subs) subs' fits e =
      elim (Bool-cases (ltb 0 remaining)) [
        | inl f ↦
            let (n, rest, taken, re, shape) =
              front_cases s (l.take_off remaining s.capacity k) _ c subs'
                (sym (if_yes _ _ f) ∙ e) in
            subst (Reserved l k remaining (s.size + total_size subs)) shape (
              in_front l k remaining n (total_size subs) s rest
                (load.takes remaining s.capacity k n taken).0 fits.0
                (reserve_in-Reserved fuel n capacity c subs rest fits.1 re))
        | inr f ↦
            subst (Reserved l k remaining (s.size + total_size subs))
              (second_part (sym (if_not _ _ f) ∙ e)) (nothing_left l k remaining (s ∷ subs) f fits)
      ]

-- For the new submaps of `rounds` rounds, while there is a count: its load is more than the least bulk
-- insert, and the conversion is in range.
abbrev pub ConvertsNew : Load → ℕ → ℕ → ℕ → ℕ → Type 0
ConvertsNew l k zero remaining capacity = Unit
ConvertsNew l k (suc rounds) remaining capacity =
    (remaining ≡ 0)
    ⊎ ((n : ℕ) × (l.take_off remaining capacity k ≡ some n)
        × (k < l.whole capacity)
        × ConvertsNew l k rounds n (capacity * 2 % 2 ^ l.size_bits))

-- The conversions are in range for the submaps that there are, and for the new ones.
abbrev pub Converts : {S : Type 0} → Load → ℕ → ℕ → ℕ → ℕ → List (Submap S) → Type 0
Converts l k rounds remaining capacity [] = ConvertsNew l k rounds remaining capacity
Converts l k rounds remaining capacity (s ∷ subs) =
    (remaining ≡ 0)
    ⊎ ((n : ℕ) × (l.take_off remaining s.capacity k ≡ some n) × Converts l k rounds n capacity subs)

module _ {S A : Type 0} {l : Load} (load : IsLoad l) (ops : StaticMap S A) (k : ℕ) where
  -- Each new submap takes some of the count off.
  reserve_new_ends :
      (fuel remaining capacity : ℕ)
      → remaining ≤ fuel
      → ConvertsNew l k fuel remaining capacity
      → (c : ℕ) × (subs' : List (Submap S)) × (reserve_new l ops fuel k remaining capacity
          ≡ some (c, subs'))
  unfolding reserve_new with_submap if_defined
  reserve_new_ends zero remaining capacity enough conv =
      (capacity, [], if_not _ _ (ap (ltb 0) (le-zero enough)))
    where
      le-zero : remaining ≤ 0 → remaining ≡ 0
      le-zero le = omega (arith, le)
  reserve_new_ends (suc fuel) remaining capacity enough (inl zeroed) =
      (capacity, [], if_not _ _ (ap (ltb 0) zeroed))
  reserve_new_ends (suc fuel) remaining capacity enough (inr (n, taken, roomy, more)) =
      elim (eq-or-ne remaining 0) [
        | inl zeroed ↦ (capacity, [], if_not _ _ (ap (ltb 0) zeroed))
        | inr ne ↦
            let (c, subs', e) =
              reserve_new_ends fuel n (capacity * 2 % 2 ^ l.size_bits)
                (omega (arith, enough, roomy, (load.takes remaining capacity k n taken).1)) more in
            (
              c,
              new_submap l ops capacity ∷ subs',
              if_yes _ _ (lt→ltb 0 remaining (omega (arith, ne)))
                  ∙ rw (taken, if_defined) (ap (with_submap (new_submap l ops capacity)) e),
            )
      ]

  -- A submap that there is adds the least bulk insert to the count at most.
  pub reserve_in_ends :
      (fuel remaining capacity : ℕ) (subs : List (Submap S))
      → remaining + k * length subs ≤ fuel
      → Converts l k fuel remaining capacity subs
      → (c : ℕ) × (subs' : List (Submap S)) × (reserve_in l ops fuel k remaining capacity subs
          ≡ some (c, subs'))
  unfolding reserve_in with_submap if_defined
  reserve_in_ends fuel remaining capacity [] enough conv =
      reserve_new_ends fuel remaining capacity (omega (arith, enough)) conv
  reserve_in_ends fuel remaining capacity (s ∷ subs) enough (inl zeroed) =
      (capacity, s ∷ subs, if_not _ _ (ap (ltb 0) zeroed))
  reserve_in_ends fuel remaining capacity (s ∷ subs) enough (inr (n, taken, more)) =
      elim (eq-or-ne remaining 0) [
        | inl zeroed ↦ (capacity, s ∷ subs, if_not _ _ (ap (ltb 0) zeroed))
        | inr ne ↦
            let off = (load.takes remaining s.capacity k n taken).1 in
            let split = mul-suc k (length subs) in
            let (c, subs', e) =
              reserve_in_ends fuel n capacity subs (omega (arith, enough, off, split)) more in
            (
              c,
              s ∷ subs',
              if_yes _ _ (lt→ltb 0 remaining (omega (arith, ne)))
                  ∙ rw (taken, if_defined) (ap (with_submap s) e),
            )
      ]
