-- ===== src/Concurrent/Payloads.antt =====
-- The payloads that threads leave which insert at once.
use cu_collections.Common.{
  ℕ, ◌<◌, ◌≡◌, ◌≢◌, refl, ap, sym, ◌∙◌, subst, true, false, inl, inr, eq-or-ne,
}
use cu_collections.OpenAddressing.Cover.{IsCyclic}
use cu_collections.OpenAddressing.Defs.{Slot, Memory, Ref, capacity}
use cu_collections.OpenAddressing.Reach.{IsRef}
use cu_collections.OpenAddressing.Table.{IsKeyEqual, IsValidKey, is_available, HoldsAt}
use cu_collections.OpenAddressing.Writes.{valid-not-available}
use cu_collections.Concurrent.Effects.{sentinel, Resets, Stores, Owns, Mode, Effect}
use cu_collections.Concurrent.Kept.{Kept}
use cu_collections.Concurrent.Knows.{Good, has_won}
use cu_collections.Concurrent.MoveEffects.{move-Effect}
use cu_collections.Concurrent.Safety.{Inv}
use cu_collections.Concurrent.Steps.{move-Kept}
use cu_collections.Concurrent.Threads.{
  Pc, loading, visiting, storing, exchanging, retrying, resetting, returned, move, World, step,
  pc_here, pc_other,
}

pub record Paid (r : Ref) (vals : ℕ → Slot) (w : World) : Type 0 where
  pub reset : (t a : ℕ) → Resets r (w.pc t) a → (w.memory a).second ≢ sentinel r
  pub one : (t u a : ℕ) → t ≢ u → Resets r (w.pc t) a → Resets r (w.pc u) a → ⊥
  pub own : (t a : ℕ) → Owns r (w.pc t) a → (w.memory a).first ≡ (vals t).first
  pub mode : (t : ℕ) → Mode r (w.pc t)
  pub done :
      (t : ℕ)
      → w.pc t ≡ returned true
      → (a : ℕ) × (a < capacity r) × (w.memory a ≡ vals t) × ((u : ℕ) → Resets r (w.pc u) a → ⊥)

module _ (r : Ref) (m : Memory) (key a : ℕ) where
  Stores-HoldsAt :
      (p : Pc)
      → Good r m key p
      → Mode r p
      → Stores r p a
      → HoldsAt r m key a × (has_won p ≡ true) × (r.old_arch ≡ true)
  Stores-HoldsAt (storing b) h mode e = (subst (HoldsAt r m key) e h, refl, mode)
  Stores-HoldsAt (loading it i snap) h mode e = absurd e
  Stores-HoldsAt (visiting it i snap) h mode e = absurd e
  Stores-HoldsAt (exchanging it i snap swapped found) h mode e = absurd e
  Stores-HoldsAt (retrying b) h mode e = absurd e
  Stores-HoldsAt (resetting it i snap found) h mode e = absurd e
  Stores-HoldsAt (returned inserted) h mode e = absurd e

  Resets-taken :
      (p : Pc)
      → Good r m key p
      → Mode r p
      → Resets r p a
      → (is_available r (m a) ≡ false) × (r.old_arch ≡ false)
  Resets-taken (resetting it i snap found) h mode e =
      (subst (λ b. is_available r (m b) ≡ false) e h.taken, mode.1)
  Resets-taken (loading it i snap) h mode e = absurd e
  Resets-taken (visiting it i snap) h mode e = absurd e
  Resets-taken (exchanging it i snap swapped found) h mode e = absurd e
  Resets-taken (retrying b) h mode e = absurd e
  Resets-taken (storing b) h mode e = absurd e
  Resets-taken (returned inserted) h mode e = absurd e

  Owns-HoldsAt : (p : Pc) → Good r m key p → Owns r p a → HoldsAt r m key a
  Owns-HoldsAt (storing b) h e = subst (HoldsAt r m key) e h
  Owns-HoldsAt (exchanging it i snap true found) h e = subst (HoldsAt r m key) e h
  Owns-HoldsAt (exchanging it i snap false found) h e = absurd e
  Owns-HoldsAt (retrying b) h e = subst (HoldsAt r m key) e h
  Owns-HoldsAt (loading it i snap) h e = absurd e
  Owns-HoldsAt (visiting it i snap) h e = absurd e
  Owns-HoldsAt (resetting it i snap found) h e = absurd e
  Owns-HoldsAt (returned inserted) h e = absurd e

slot-ext : (s u : Slot) → s.first ≡ u.first → s.second ≡ u.second → s ≡ u
slot-ext s u e f = λ i. record { first = e i; second = f i }

-- One step, from a state where the invariants hold.
module _ {r : Ref} (ref : IsRef r) (cyclic : IsCyclic r) (ok : IsKeyEqual r)
    (nodup : r.allows_duplicates ≡ false) (vals : ℕ → Slot)
    (valid : (t : ℕ) → IsValidKey r (vals t).first)
    (filled : (t : ℕ) → (vals t).second ≢ sentinel r) (t : ℕ) (w : World) (inv : Inv r vals w)
    (paid : Paid r vals w) where
  abbrev p : Pc
  p = w.pc t

  abbrev q : Memory × Pc
  q = move r (vals t) w.memory p

  effect : Effect r w.memory (vals t) p q
  effect = move-Effect r w.memory (vals t) ref p (inv.good t) (paid.own t) (paid.mode t)

  kept : Kept r w.memory (vals t).first p q.0 q.1
  kept = move-Kept ref cyclic ok nodup inv.table inv.clean (vals t) (valid t) p (inv.good t)

  -- A slot with a payload that no thread resets keeps its payload, but for a thread that stores.
  payload_stays :
      (a : ℕ)
      → is_available r (w.memory a) ≡ false
      → (w.memory a).second ≢ sentinel r
      → (Resets r p a → ⊥)
      → (Stores r p a → ⊥)
      → (q.0 a).second ≡ (w.memory a).second
  payload_stays a taken full no_reset no_store = elim (effect.payload a taken) [
    | inl same ↦ same
    | inr (inl free) ↦ absurd (full free)
    | inr (inr (inl e)) ↦ absurd (no_reset e)
    | inr (inr (inr e)) ↦ absurd (no_store e)
  ]

  -- While a thread resets a slot, no thread stores.
  no_store : (u a : ℕ) → Resets r (w.pc u) a → (b : ℕ) → Stores r p b → ⊥
  no_store u a e b s =
      let (_, new_arch) =
        Resets-taken r w.memory (vals u).first a (w.pc u) (inv.good u) (paid.mode u) e in
      let (_, _, old) = Stores-HoldsAt r w.memory (vals t).first b p (inv.good t) (paid.mode t) s in
      absurd (cc (new_arch, old))

  reset_other : (u a : ℕ) → u ≢ t → Resets r (w.pc u) a → (q.0 a).second ≢ sentinel r
  reset_other u a ne e =
      let (taken, _) =
        Resets-taken r w.memory (vals u).first a (w.pc u) (inv.good u) (paid.mode u) e in
      λ free. paid.reset u a e (
        sym (
          payload_stays a taken (paid.reset u a e) (λ mine. paid.one u t a ne e mine)
            (no_store u a e a))
        ∙ free)

  -- The slot that a thread begins to reset had the sentinel, so no other thread resets it.
  alone : (u a : ℕ) → Resets r q.1 a → Resets r (w.pc u) a → ⊥
  alone u a mine e = paid.reset u a e (effect.reset a mine).0

  -- The slot of a thread that has returned stays as it is.
  done_other :
      (u a : ℕ)
      → u ≢ t
      → w.pc u ≡ returned true
      → w.memory a ≡ vals u
      → a < capacity r
      → ((x : ℕ) → Resets r (w.pc x) a → ⊥)
      → q.0 a ≡ vals u
  done_other u a ne e same lt calm =
      let taken : is_available r (w.memory a) ≡ false =
        subst (λ s. is_available r s ≡ false) (sym same)
          (valid-not-available r (vals u) (valid u)) in
      let full : (w.memory a).second ≢ sentinel r =
        λ free. filled u (ap (λ (s : Slot). s.second) (sym same) ∙ free) in
      let stays = payload_stays a taken full (calm t) (λ s.
        let (h, won, _) =
          Stores-HoldsAt r w.memory (vals t).first a p (inv.good t) (paid.mode t) s in
        let apart = inv.winners t u (λ x. ne (sym x)) won (ap has_won e) in
        let equals : r.predicate.equal_fn (vals t).first (vals u).first ≡ true =
          subst (λ s. r.predicate.equal_fn (vals t).first s.first ≡ true) same h.2 in
        absurd (cc (apart, equals))) in
      slot-ext (q.0 a) (vals u) (kept.grows.kept a taken ∙ ap (λ (s : Slot). s.first) same)
        (stays ∙ ap (λ (s : Slot). s.second) same)

  own_other : (u a : ℕ) → Owns r (w.pc u) a → (q.0 a).first ≡ (vals u).first
  own_other u a e =
      let h = Owns-HoldsAt r w.memory (vals u).first a (w.pc u) (inv.good u) e in
      kept.grows.kept a h.1 ∙ paid.own u a e

  abbrev w' : World
  w' = step r vals t w

  done_here :
      q.1 ≡ returned true
      → (a : ℕ) × (a < capacity r) × (q.0 a ≡ vals t) × ((u : ℕ) → u ≢ t → Resets r (w.pc u) a → ⊥)
  done_here e = elim (effect.done e) [
    | inl (before, same) ↦
        let (a, lt, stored, calm) = paid.done t before in
        (a, lt, ap (λ (m : Memory). m a) same ∙ stored, λ u _. calm u)
    | inr (a, lt, stored, had) ↦ (
      a,
      lt,
      stored,
      λ u ne e. elim had [
        | inl free ↦
            let (taken, _) =
              Resets-taken r w.memory (vals u).first a (w.pc u) (inv.good u) (paid.mode u) e in
            absurd (cc (free, taken))
        | inr (inl free) ↦ absurd (paid.reset u a e free)
        | inr (inr s) ↦ no_store u a e a s
      ],
    )
  ]

  pub step-Paid : Paid r vals (step r vals t w)
  unfolding step
  step-Paid = record {
    reset = λ u a e. elim (eq-or-ne u t) [
      | inl here ↦
          let mine = subst (λ p. Resets r p a) (pc_here r vals w t u here) e in
          λ free. filled t (sym (effect.reset a mine).1 ∙ free)
      | inr ne ↦ reset_other u a ne (subst (λ p. Resets r p a) (pc_other r vals w t u ne) e)
    ];
    one = λ u v a ne e f. elim (eq-or-ne u t) [
      | inl here ↦
          let other : v ≢ t = λ x. ne (here ∙ sym x) in
          alone v a (subst (λ p. Resets r p a) (pc_here r vals w t u here) e)
            (subst (λ p. Resets r p a) (pc_other r vals w t v other) f)
      | inr nu ↦
          let old = subst (λ p. Resets r p a) (pc_other r vals w t u nu) e in
          elim (eq-or-ne v t) [
            | inl here ↦ alone u a (subst (λ p. Resets r p a) (pc_here r vals w t v here) f) old
            | inr nv ↦
                paid.one u v a ne old (subst (λ p. Resets r p a) (pc_other r vals w t v nv) f)
          ]
    ];
    own = λ u a e. elim (eq-or-ne u t) [
      | inl here ↦
          effect.own a (subst (λ p. Owns r p a) (pc_here r vals w t u here) e)
          ∙ ap (λ u. (vals u).first) (sym here)
      | inr ne ↦ own_other u a (subst (λ p. Owns r p a) (pc_other r vals w t u ne) e)
    ];
    mode = λ u. elim (eq-or-ne u t) [
      | inl here ↦ subst (Mode r) (sym (pc_here r vals w t u here)) effect.mode
      | inr ne ↦ subst (Mode r) (sym (pc_other r vals w t u ne)) (paid.mode u)
    ];
    done = λ u e. elim (eq-or-ne u t) [
      | inl here ↦
          let over : q.1 ≡ returned true = sym (pc_here r vals w t u here) ∙ e in
          let (a, lt, stored, calm) = done_here over in
          (
            a,
            lt,
            stored ∙ ap vals (sym here),
            λ v f. elim (eq-or-ne v t) [
              | inl same ↦ subst (λ p. Resets r p a) (pc_here r vals w t v same ∙ over) f
              | inr nv ↦ calm v nv (subst (λ p. Resets r p a) (pc_other r vals w t v nv) f)
            ],
          )
      | inr ne ↦
          let before = sym (pc_other r vals w t u ne) ∙ e in
          let (a, lt, stored, calm) = paid.done u before in
          (
            a,
            lt,
            done_other u a ne before stored lt calm,
            λ v f. elim (eq-or-ne v t) [
              | inl same ↦
                  let mine = subst (λ p. Resets r p a) (pc_here r vals w t v same) f in
                  filled u (ap (λ (s : Slot). s.second) (sym stored) ∙ (effect.reset a mine).0)
              | inr nv ↦ calm v (subst (λ p. Resets r p a) (pc_other r vals w t v nv) f)
            ],
          )
    ];
  }
