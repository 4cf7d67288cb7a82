-- ===== src/Common/Splits.antt =====
-- Lists split at an item.
use mathlib.Core.Path.{◌≡◌, refl, ap}
use mathlib.Core.Logic.{◌⊎◌, inl, inr}
use mathlib.Core.Bool.{Bool, true, false}
use mathlib.Core.List.{List, [], ◌∷◌, ◌++◌, map}
use cu_collections.Common.Tests.{Bool-cases}
use cu_collections.Common.Lists.{All}

module _ {A : Type 0} where
  abbrev pub In : A → List A → Type 0
  In a [] = ⊥
  In a (x ∷ xs) = (x ≡ a) ⊎ In a xs

  pub All-In {κ} : (P : A → Type κ) (a : A) (xs : List A) → All P xs → In a xs → P a
  All-In P a [] h i = elim i [ ]
  All-In P a (x ∷ xs) h (inl e) = rw (← e) h.0
  All-In P a (x ∷ xs) h (inr i) = All-In P a xs h.1 i

  pub In→All {κ} : (P : A → Type κ) (xs : List A) → ((a : A) → In a xs → P a) → All P xs
  In→All P [] h = tt
  In→All P (x ∷ xs) h = (h x (inl refl), In→All P xs (λ a i. h a (inr i)))

  pub All-map {κ μ} :
      (P : A → Type κ) (Q : A → Type μ)
      → ((a : A) → P a → Q a)
      → (xs : List A) → All P xs
      → All Q xs
  All-map P Q f [] h = tt
  All-map P Q f (x ∷ xs) h = (f x h.0, All-map P Q f xs h.1)

  pub In-append_left : (a : A) (xs ys : List A) → In a xs → In a (xs ++ ys)
  In-append_left a [] ys i = elim i [ ]
  In-append_left a (x ∷ xs) ys (inl e) = inl e
  In-append_left a (x ∷ xs) ys (inr i) = inr (In-append_left a xs ys i)

  pub In-append_right : (a : A) (xs ys : List A) → In a ys → In a (xs ++ ys)
  In-append_right a [] ys i = i
  In-append_right a (x ∷ xs) ys i = inr (In-append_right a xs ys i)

  pub In-append : (a : A) (xs ys : List A) → In a (xs ++ ys) → In a xs ⊎ In a ys
  In-append a [] ys i = inr i
  In-append a (x ∷ xs) ys (inl e) = inl (inl e)
  In-append a (x ∷ xs) ys (inr i) = elim (In-append a xs ys i) [
    | inl j ↦ inl (inr j)
    | inr j ↦ inr j
  ]

  pub In-middle : (a : A) (xs ys : List A) → In a (xs ++ a ∷ ys)
  In-middle a xs ys = In-append_right a xs (a ∷ ys) (inl refl)

  -- The list parted at an item: what stands before it, and after.
  pub record Split (xs : List A) (a : A) : Type 0 where
    pub before : List A
    pub after : List A
    pub whole : xs ≡ before ++ a ∷ after

  pub In-split : (a : A) (xs : List A) → In a xs → Split xs a
  In-split a [] i = elim i [ ]
  In-split a (x ∷ xs) (inl e) = record { before = []; after = xs; whole = ap (λ y. y ∷ xs) e }
  In-split a (x ∷ xs) (inr i) =
      let s = In-split a xs i in
      record { before = x ∷ s.before; after = s.after; whole = ap (λ ys. x ∷ ys) s.whole }

  -- Of two items that the same list is parted at, one stands before the other or they are one.
  pub compare_parts :
      (a b : A) (xs ys us vs : List A) → xs ++ a ∷ ys ≡ us ++ b ∷ vs → In a us ⊎ ((a ≡ b) ⊎ In b xs)
  compare_parts a b [] ys [] vs e = inr (inl (cc))
  compare_parts a b [] ys (u ∷ us) vs e = inl (inl (cc))
  compare_parts a b (x ∷ xs) ys [] vs e = inr (inr (inl (cc)))
  compare_parts a b (x ∷ xs) ys (u ∷ us) vs e = elim (compare_parts a b xs ys us vs (cc)) [
    | inl i ↦ inl (inr i)
    | inr (inl same) ↦ inr (inl same)
    | inr (inr i) ↦ inr (inr (inr i))
  ]

  -- The first item that passes a test.
  pub record First (p : A → Bool) (xs : List A) : Type 0 where
    pub item : A
    pub split : Split xs item
    pub passes : p item ≡ true
    pub before_fails : All (λ x. p x ≡ false) split.before

  pub first : (p : A → Bool) (xs : List A) → All (λ x. p x ≡ false) xs ⊎ First p xs
  first p [] = inl tt
  first p (x ∷ xs) = elim (Bool-cases (p x)) [
    | inl pass ↦ inr (record {
      item = x;
      split = record { before = []; after = xs; whole = refl };
      passes = pass;
      before_fails = tt;
    })
    | inr fail ↦ elim (first p xs) [
      | inl none_passes ↦ inl (fail, none_passes)
      | inr f ↦ inr (record {
        item = f.item;
        split = record {
          before = x ∷ f.split.before;
          after = f.split.after;
          whole = ap (λ ys. x ∷ ys) f.split.whole;
        };
        passes = f.passes;
        before_fails = (fail, f.before_fails);
      })
    ]
  ]

pub In-map :
    {A : Type 0} {B : Type 0} (f : A → B) (b : B) (xs : List A)
    → In b (map f xs)
    → (a : A) × In a xs × (f a ≡ b)
In-map f b [] i = elim i [ ]
In-map f b (x ∷ xs) (inl e) = (x, inl refl, e)
In-map f b (x ∷ xs) (inr i) = let (a, j, e) = In-map f b xs i in (a, inr j, e)
