-- ===== src/LegacyMap/Exchanges.antt =====
-- What `erase` and `insert` of the older map do to one slot.
use cu_collections.Common.{
  ℕ, ◌≡◌, refl, Bool, true, false, not, ◌&&◌, Option, some, if◌then◌else◌, ==_self,
}
use cu_collections.Equality.{unequal, equal, available}
use cu_collections.OpenAddressing.Cas.{InsertResult, success, cas_key, cas_payload, store_payload}
use cu_collections.OpenAddressing.Defs.{Slot, Memory, write, same_slot, erased_slot_sentinel}
use cu_collections.OpenAddressing.Erase
use cu_collections.OpenAddressing.Loop.{return, next, Outcome}
use cu_collections.OpenAddressing.Steps.{write-write}
use cu_collections.LegacyMap.Defs.{View, Keys}
use cu_collections.LegacyMap.Erase.{erase_exchange, erase_returns}
use cu_collections.LegacyMap.Insert.{
  packed_cas, cas_dependent_write, back_to_back_cas, write_pair, after_exchanges,
}
use cu_collections.LegacyMap.Walk.{view_ref}

-- The exchange of `erase` for the slot as it was read succeeds.
pub erase_exchange_lem :
    (w : ℕ) (v : View) (keys : Keys) (m : Memory) (a : ℕ)
    → erase_exchange v m a (m a) ≡ (true, write m a (erased_slot_sentinel (view_ref w v keys)))
unfolding erase_exchange erased_slot_sentinel
erase_exchange_lem w v keys m a = by_size v.packable
  where
    gone : Slot
    gone = record { first = v.erased_key_sentinel; second = v.empty_value_sentinel }

    by_size :
        (packable : Bool)
        → ◌≡◌ {A = Bool × Memory}
            (if packable
              then if same_slot (m a) (m a) then (true, write m a gone) else (false, m)
              else let (_, m1) = cas_payload m a (m a).second gone.second in
                let (swapped, _, m2) = cas_key m1 a (m a).first gone.first in (swapped, m2))
            (true, write m a gone)
    by_size true = unfold same_slot in simp (==_self)
    by_size false = unfold cas_payload cas_key in simp (==_self, write-write)

pub erase_returns-erase_switch :
    (x : Bool × Memory) (o : InsertResult × Memory) (m : Memory)
    → x ≡ (true, m)
    → o ≡ (success, m)
    → erase_returns x ≡ Erase.erase_switch o
unfolding erase_returns Erase.erase_switch
erase_returns-erase_switch x o m e f = rw (e, f) refl

-- An erase that does not return leaves the memory as it was.
pub erase_still :
    (b c : Bool) (x : Bool × Memory) (m t : Memory)
    → ◌≡◌ {A = Outcome Bool Memory}
        (if b then some (return false, m) else if c then erase_returns x else some (next, m))
        (some (next, t))
    → t ≡ m
unfolding erase_returns
erase_still true c x m t e = absurd (cc e)
erase_still false true x m t e = absurd (cc e)
erase_still false false x m t e = cc e

-- The ways to write a slot as it was read all write it whole.
pub write_pair_lem :
    (fuel : ℕ) (v : View) (keys : Keys) (m : Memory) (a : ℕ) (pair : Slot)
    → (m a).second ≡ v.empty_value_sentinel
    → write_pair fuel v keys m a pair (m a).first ≡ some (success, write m a pair)
unfolding write_pair
write_pair_lem fuel v keys m a pair h = by_strategy v.packable v.old_arch
  where
    by_strategy :
        (packable old : Bool)
        → ◌≡◌ {A = Option (InsertResult × Memory)}
            (if packable
              then some (packed_cas v keys m a pair (m a).first)
              else if old
              then some (cas_dependent_write v keys m a pair (m a).first)
              else back_to_back_cas fuel v keys m a pair (m a).first)
            (some (success, write m a pair))
    by_strategy true old = unfold packed_cas same_slot in simp (==_self, h)
    by_strategy false true =
        unfold cas_dependent_write cas_key store_payload in simp (==_self, write-write)
    by_strategy false false =
        unfold back_to_back_cas cas_key cas_payload after_exchanges in
        simp (==_self, h, write-write)

-- the comparison of an insert, split into its two tests
pub insert_split {ℓ} :
    {A : Type ℓ} (b c : Bool) (x x' y z : A)
    → (b ≡ true → x ≡ x')
    → (if not b && c then y else if b then x else z)
      ≡ elim (if b then available else if c then equal else unequal) [
        | equal ↦ y
        | available ↦ x'
        | _ ↦ z
      ]
insert_split true c x x' y z e = e refl
insert_split false true x x' y z e = refl
insert_split false false x x' y z e = refl

pub insert_still {κ} :
    {R : Type κ} (b c : Bool) (y o : Outcome R Memory) (m t : Memory)
    → (y ≡ some (next, t) → t ≡ m)
    → (b ≡ true → o ≡ some (next, t) → t ≡ m)
    → ◌≡◌ {A = Outcome R Memory}
        (if not b && c then y else if b then o else some (next, m))
        (some (next, t))
    → t ≡ m
insert_still true c y o m t f g e = g refl e
insert_still false true y o m t f g e = f e
insert_still false false y o m t f g e = cc e
