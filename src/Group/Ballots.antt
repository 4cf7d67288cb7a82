-- ===== src/Group/Ballots.antt =====
-- What a ballot of the group tells of its lanes.
use cu_collections.Common.{
  ◌≡◌, ◌≢◌, refl, sym, subst, arith, none, some, true, false, List, [], ◌∷◌, map, In, ◌⊎◌, inl, inr,
  Bool-cases,
}
use cu_collections.Equality.{EqualResult, unequal, equal, empty, available}
use cu_collections.Group.Lanes.{Lane, same_state, any, src_lane}

same_equal : (s : EqualResult) → same_state s equal ≡ true → s ≡ equal
unfolding same_state
same_equal equal h = refl
same_equal unequal h = absurd (ground arith)
same_equal empty h = absurd (ground arith)
same_equal available h = absurd (ground arith)

same_available : (s : EqualResult) → same_state s available ≡ true → s ≡ available
unfolding same_state
same_available available h = refl
same_available unequal h = absurd (ground arith)
same_available empty h = absurd (ground arith)
same_available equal h = absurd (ground arith)

same_self : (s : EqualResult) → same_state s s ≡ true
unfolding same_state
same_self unequal = refl
same_self equal = refl
same_self empty = refl
same_self available = refl

-- The source lane is the first one with the state, if any has it.
pub src_lane_cases :
    {A : Type 0} (f : A → Lane) (xs : List A)
    → ((src_lane available (map f xs) ≡ none)
        × ((x : A) → In x xs → (f x).results.state ≢ available))
      ⊎ ((x : A) × In x xs
          × ((f x).results.state ≡ available)
          × (src_lane available (map f xs) ≡ some (f x)))
unfolding src_lane
src_lane_cases f [] = inl (refl, λ x i. elim i [ ])
src_lane_cases f (x ∷ xs) = elim (Bool-cases (same_state (f x).results.state available)) [
  | inl hit ↦ inr (x, inl refl, same_available (f x).results.state hit, rw hit)
  | inr miss ↦ elim (src_lane_cases f xs) [
    | inr (y, i, s, e) ↦ inr (y, inr i, s, rw miss e)
    | inl (e, others) ↦ inl (
      rw miss e,
      λ y i. elim i [
        | inl here ↦ λ s.
            let at = subst (λ z. (f z).results.state ≡ available) (sym here) s in
            cc (same_self available, subst (λ c. same_state c available ≡ false) at miss)
        | inr j ↦ others y j
      ],
    )
  ]
]

pub any_cases :
    {A : Type 0} (f : A → Lane) (xs : List A)
    → ((any equal (map f xs) ≡ false) × ((x : A) → In x xs → (f x).results.state ≢ equal))
      ⊎ ((x : A) × In x xs × ((f x).results.state ≡ equal) × (any equal (map f xs) ≡ true))
unfolding any
any_cases f [] = inl (refl, λ x i. elim i [ ])
any_cases f (x ∷ xs) = elim (Bool-cases (same_state (f x).results.state equal)) [
  | inl hit ↦ inr (x, inl refl, same_equal (f x).results.state hit, rw hit)
  | inr miss ↦ elim (any_cases f xs) [
    | inr (y, i, s, e) ↦ inr (y, inr i, s, rw miss e)
    | inl (e, others) ↦ inl (
      rw miss e,
      λ y i. elim i [
        | inl here ↦ λ s.
            let at = subst (λ z. (f z).results.state ≡ equal) (sym here) s in
            cc (same_self equal, subst (λ c. same_state c equal ≡ false) at miss)
        | inr j ↦ others y j
      ],
    )
  ]
]
