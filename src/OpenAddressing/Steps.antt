-- ===== src/OpenAddressing/Steps.antt =====
-- What an operation does at one slot, and how far its probe reaches.
use cu_collections.Common.{
  ℕ, ◌≡◌, ◌≢◌, refl, ap, Bool, true, false, ◌==◌, Option, none, some, if◌then◌else◌, ==_self,
  ==_of_ne, Option-cases, ◌⊎◌, inl, inr,
}
use mathlib.Core.Path.{fun_ext}
use cu_collections.OpenAddressing.Cas.{
  InsertResult, success, packed_cas, cas_dependent_write, back_to_back_cas, back_to_back_end,
  retry_payload, attempt_insert, attempt_insert_stable,
}
use cu_collections.OpenAddressing.Defs.{Slot, Memory, write, same_slot, Ref, empty_value_sentinel}

pub write_self : (m : Memory) (a : ℕ) (s : Slot) → write m a s a ≡ s
unfolding write
write_self m a s = rw (==_self a)

pub write_here : (m : Memory) (a b : ℕ) (s : Slot) → b ≡ a → write m a s b ≡ s
write_here m a b s e = rw e (write_self m a s)

pub write_other : (m : Memory) (a b : ℕ) (s : Slot) → b ≢ a → write m a s b ≡ m b
unfolding write
write_other m a b s h = rw (==_of_ne b a h)

if-if : (e : Bool) (s t u : Slot) → (if e then s else if e then t else u) ≡ (if e then s else u)
if-if true s t u = refl
if-if false s t u = refl

pub write-write : (m : Memory) (a : ℕ) (s t : Slot) → write (write m a s) a t ≡ write m a t
unfolding write
write-write m a s t = fun_ext (λ b. if-if (b == a) t s (m b))

-- With the slot as it was read, the exchange succeeds and the slot is written whole.
pub packed_cas_lem :
    (r : Ref) (m : Memory) (a : ℕ) (s : Slot) → packed_cas r m a (m a) s ≡ (success, write m a s)
unfolding packed_cas same_slot
packed_cas_lem r m a s = rw (==_self (m a).first, ==_self (m a).second)

pub cas_dependent_write_lem :
    (r : Ref) (m : Memory) (a : ℕ) (s : Slot)
    → cas_dependent_write r m a (m a) s ≡ (success, write m a s)
unfolding cas_dependent_write
cas_dependent_write_lem r m a s = simp (==_self, write-write)

pub attempt_insert_stable_lem :
    (r : Ref) (m : Memory) (a : ℕ) (s : Slot)
    → attempt_insert_stable r m a (m a) s ≡ (success, write m a s)
unfolding attempt_insert_stable
attempt_insert_stable_lem r m a s = by_size r.small_slot
  where
    by_size :
        (small : Bool)
        → (if small then packed_cas r m a (m a) s else cas_dependent_write r m a (m a) s)
          ≡ (success, write m a s)
    by_size true = packed_cas_lem r m a s
    by_size false = cas_dependent_write_lem r m a s

back_to_back_cas_lem :
    (fuel : ℕ) (r : Ref) (m : Memory) (a : ℕ) (s : Slot)
    → (m a).second ≡ empty_value_sentinel r
    → back_to_back_cas fuel r m a (m a) s ≡ some (success, write m a s)
unfolding back_to_back_cas
back_to_back_cas_lem fuel r m a s h = simp (==_self, h, write-write)

pub attempt_insert_lem :
    (fuel : ℕ) (r : Ref) (m : Memory) (a : ℕ) (s : Slot)
    → (m a).second ≡ empty_value_sentinel r
    → attempt_insert fuel r m a (m a) s ≡ some (success, write m a s)
unfolding attempt_insert
attempt_insert_lem fuel r m a s h = by_strategy r.small_slot r.old_arch
  where
    by_strategy :
        (small old : Bool)
        → (if small
            then some (packed_cas r m a (m a) s)
            else if old
            then some (cas_dependent_write r m a (m a) s)
            else back_to_back_cas fuel r m a (m a) s)
          ≡ some (success, write m a s)
    by_strategy true old = ap some (packed_cas_lem r m a s)
    by_strategy false true = ap some (cas_dependent_write_lem r m a s)
    by_strategy false false = back_to_back_cas_lem fuel r m a s h

-- An exchange that expects the slot as it is either succeeds or waits for the payload for ever.
abbrev pub IsSuccess : Option (InsertResult × Memory) → Type 0
IsSuccess o = (o ≡ none) ⊎ ((m : Memory) × (o ≡ some (success, m)))

back_to_back_shape :
    (fuel : ℕ) (r : Ref) (m : Memory) (a : ℕ) (s : Slot)
    → IsSuccess (back_to_back_cas fuel r m a (m a) s)
unfolding back_to_back_cas
back_to_back_shape fuel r m a s = rw (==_self (m a).first) (by_payload _ _)
  where
    by_payload :
        (swapped : Bool) (m2 : Memory)
        → IsSuccess (back_to_back_end fuel r a s (m a).first true swapped m2)
    by_payload true m2 = inr (m2, refl)
    by_payload false m2 = elim (Option-cases (retry_payload fuel r m2 a s.second)) [
      | inl e ↦ inl (rw (e, back_to_back_end))
      | inr (m3, e) ↦ inr (m3, rw (e, back_to_back_end))
    ]

pub attempt_insert_shape :
    (fuel : ℕ) (r : Ref) (m : Memory) (a : ℕ) (s : Slot)
    → IsSuccess (attempt_insert fuel r m a (m a) s)
unfolding attempt_insert
attempt_insert_shape fuel r m a s = by_strategy r.small_slot r.old_arch
  where
    by_strategy :
        (small old : Bool)
        → IsSuccess (
            if small
            then some (packed_cas r m a (m a) s)
            else if old
            then some (cas_dependent_write r m a (m a) s)
            else back_to_back_cas fuel r m a (m a) s)
    by_strategy true old = inr (write m a s, ap some (packed_cas_lem r m a s))
    by_strategy false true = inr (write m a s, ap some (cas_dependent_write_lem r m a s))
    by_strategy false false = back_to_back_shape fuel r m a s
