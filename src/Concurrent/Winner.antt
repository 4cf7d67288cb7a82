-- ===== src/Concurrent/Winner.antt =====
-- What a thread finds whose `insert` has returned true.
use cu_collections.Common.{ℕ, ◌≤◌, ◌≡◌, ◌≢◌, ap, sym, ◌∙◌, subst, true, false, some}
use cu_collections.OpenAddressing.Arrival.{find_equal}
use cu_collections.OpenAddressing.Lookup.{find}
use cu_collections.OpenAddressing.Queries.{Arrives-holder}
use cu_collections.OpenAddressing.Cover.{IsCyclic}
use cu_collections.OpenAddressing.Defs.{Slot, Memory, Ref}
use cu_collections.OpenAddressing.InsertLaws.{NoneErased}
use cu_collections.OpenAddressing.Reach.{IsRef}
use cu_collections.OpenAddressing.Table.{IsKeyEqual, IsValidKey, is_available, IsTable, HoldsAt}
use cu_collections.OpenAddressing.Writes.{valid-not-available}
use cu_collections.Concurrent.Effects.{sentinel}
use cu_collections.Concurrent.Safety.{Reach-Inv}
use cu_collections.Concurrent.Threads.{returned, World, begin, Reach, start, later}
use cu_collections.Concurrent.Payloads.{Paid, step-Paid}

module _ {r : Ref} (ref : IsRef r) (cyclic : IsCyclic r) (ok : IsKeyEqual r)
    (nodup : r.allows_duplicates ≡ false) (vals : ℕ → Slot)
    (valid : (t : ℕ) → IsValidKey r (vals t).first)
    (filled : (t : ℕ) → (vals t).second ≢ sentinel r) {m : Memory} (table : IsTable r m)
    (clean : NoneErased r m) where
  begin-Paid : Paid r vals (begin r vals m)
  unfolding begin
  begin-Paid = record {
    reset = λ t a e. absurd e;
    one = λ t u a ne e f. e;
    own = λ t a e. absurd e;
    mode = λ t. tt;
    done = λ t e. absurd (cc (e));
  }

  Reach-Paid : {w : World} → Reach r vals m w → Paid r vals w
  Reach-Paid start = begin-Paid
  Reach-Paid (later {v} before t e) = subst (Paid r vals) (sym e) (
      step-Paid ref cyclic ok nodup vals valid filled t v
        (Reach-Inv ref cyclic ok nodup vals valid table clean before) (Reach-Paid before))

  -- Threads insert valid keys at once, in any order of their steps, into a well-formed table
  -- without duplicates and without erased slots whose probes visit every window, and no thread's
  -- payload is the sentinel: once `insert` of a thread has returned true, a slot holds its element,
  -- whatever the other threads have done since, and `find` for its key on this memory, with fuel
  -- for all windows, returns that slot.
  pub find-winner :
      {w : World}
      → Reach r vals m w
      → (t : ℕ) → w.pc t ≡ returned true
      → (fuel : ℕ) → r.num_windows ≤ fuel
      → (a : ℕ) × (find fuel r (vals t).first w.memory ≡ some a) × (w.memory a ≡ vals t)
  find-winner {w} reach t e fuel enough =
      let (a, lt, stored, _) = (Reach-Paid reach).done t e in
      let now = (Reach-Inv ref cyclic ok nodup vals valid table clean reach).table in
      let held : HoldsAt r w.memory (vals t).first a = (
        lt,
        subst (λ s. is_available r s ≡ false) (sym stored)
            (valid-not-available r (vals t) (valid t)),
        ap (λ (s : Slot). r.predicate.equal_fn (vals t).first s.first) stored
            ∙ ok.reflexive (vals t).first,
      ) in
      let (arrival, at) = Arrives-holder ref ok now nodup fuel enough (vals t).first a held in
      (a, find_equal fuel r (vals t).first w.memory arrival ∙ ap some at, stored)
