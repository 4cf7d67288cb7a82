-- ===== src/Concurrent/Safety.antt =====
-- What holds in every state that threads come to which insert at once.
use cu_collections.Common.{
  ℕ, ◌≡◌, ◌≢◌, ap, sym, ◌∙◌, subst, arith, Bool, true, false, inl, inr, eq-or-ne, Bool-cases,
}
use cu_collections.OpenAddressing.Cover.{IsCyclic}
use cu_collections.OpenAddressing.Defs.{Slot, Memory, Ref}
use cu_collections.OpenAddressing.InsertLaws.{NoneErased}
use cu_collections.OpenAddressing.Reach.{IsRef}
use cu_collections.OpenAddressing.Table.{
  IsKeyEqual, IsValidKey, IsTable, HoldsAt, Present, holder_unique,
}
use cu_collections.Concurrent.Kept.{Kept}
use cu_collections.Concurrent.Knows.{Good, has_won, Good-Grows}
use cu_collections.Concurrent.Steps.{move-Kept}
use cu_collections.Concurrent.Threads.{
  Pc, loading, visiting, storing, exchanging, retrying, resetting, returned, move, World, step,
  begin, Reach, start, later, pc_here, pc_other,
}
use cu_collections.Concurrent.Walk.{Walk-start}

pub record Inv (r : Ref) (vals : ℕ → Slot) (w : World) : Type 0 where
  pub table : IsTable r w.memory
  pub clean : NoneErased r w.memory
  pub good : (t : ℕ) → Good r w.memory (vals t).first (w.pc t)
  pub winners :
      (t u : ℕ)
      → t ≢ u
      → has_won (w.pc t) ≡ true
      → has_won (w.pc u) ≡ true
      → r.predicate.equal_fn (vals t).first (vals u).first ≡ false

-- A thread that has written its key finds it there.
won-Present :
    (r : Ref) (m : Memory) (key : ℕ) (p : Pc) → has_won p ≡ true → Good r m key p → Present r m key
won-Present r m key (storing a) e h = (a, h)
won-Present r m key (exchanging it i snap true found) e h = (_, h)
won-Present r m key (retrying a) e h = (a, h)
won-Present r m key (returned inserted) e h = h
won-Present r m key (exchanging it i snap false found) e h = absurd (cc (e))
won-Present r m key (loading it i snap) e h = absurd (cc (e))
won-Present r m key (visiting it i snap) e h = absurd (cc (e))
won-Present r m key (resetting it i snap found) e h = absurd (cc (e))

module _ {r : Ref} (ref : IsRef r) (cyclic : IsCyclic r) (ok : IsKeyEqual r)
    (nodup : r.allows_duplicates ≡ false) (vals : ℕ → Slot)
    (valid : (t : ℕ) → IsValidKey r (vals t).first) where
  key : ℕ → ℕ
  key t = (vals t).first

  -- A key that is not there is not equal to that of a thread that has won.
  apart_from_winner :
      (w : World)
      → Inv r vals w
      → (t u : ℕ) → has_won (w.pc u) ≡ true
      → ¬ Present r w.memory (vals t).first
      → r.predicate.equal_fn (vals t).first (vals u).first ≡ false
  apart_from_winner w inv t u won absent =
      elim (Bool-cases (r.predicate.equal_fn (vals t).first (vals u).first)) [
        | inr e ↦ e
        | inl e ↦
            let (a, (lt, filled, same)) =
              won-Present r w.memory (vals u).first (w.pc u) won (inv.good u) in
            absurd (absent (a, (lt, filled, ok.transitive _ _ _ e same)))
      ]

  step-Inv : (t : ℕ) (w : World) → Inv r vals w → Inv r vals (step r vals t w)
  unfolding step
  step-Inv t w inv = record {
    table = kept.table;
    clean = kept.clean;
    good = λ u. elim (eq-or-ne u t) [
      | inl e ↦
          subst (Good r after (vals u).first) (sym (pc_here r vals w t u e))
            (subst (λ x. Good r after (vals x).first p') (sym e) kept.good)
      | inr ne ↦
          subst (Good r after (vals u).first) (sym (pc_other r vals w t u ne))
            (Good-Grows kept.grows (vals u).first (w.pc u) (inv.good u))
    ];
    winners = λ x y ne wx wy. elim (eq-or-ne x t) [
      | inl ex ↦
          let other : y ≢ t = λ ey. ne (ex ∙ sym ey) in
          let old = subst (λ p. has_won p ≡ true) (pc_other r vals w t y other) wy in
          subst (λ x. r.predicate.equal_fn (vals x).first (vals y).first ≡ false) (sym ex)
            (first_wins y (λ e. other (sym e))
              (subst (λ p. has_won p ≡ true) (pc_here r vals w t x ex) wx) old)
      | inr nx ↦
          let old = subst (λ p. has_won p ≡ true) (pc_other r vals w t x nx) wx in
          elim (eq-or-ne y t) [
            | inl ey ↦
                subst (λ y. r.predicate.equal_fn (vals x).first (vals y).first ≡ false) (sym ey)
                  (ok.symmetric (vals x).first (vals t).first
                    ∙ first_wins x (λ e. nx (sym e))
                        (subst (λ p. has_won p ≡ true) (pc_here r vals w t y ey) wy) old)
            | inr ny ↦
                inv.winners x y ne old (subst (λ p. has_won p ≡ true) (pc_other r vals w t y ny) wy)
          ]
    ];
  }
    where
      after : Memory
      after = (move r (vals t) w.memory (w.pc t)).0

      p' : Pc
      p' = (move r (vals t) w.memory (w.pc t)).1

      kept : Kept r w.memory (vals t).first (w.pc t) after p'
      kept =
          move-Kept ref cyclic ok nodup inv.table inv.clean (vals t) (valid t) (w.pc t) (inv.good t)

      first_wins :
          (u : ℕ)
          → t ≢ u
          → has_won p' ≡ true
          → has_won (w.pc u) ≡ true
          → r.predicate.equal_fn (vals t).first (vals u).first ≡ false
      first_wins u ne won won_u = elim (kept.wins won) [
        | inl before ↦ inv.winners t u ne before won_u
        | inr absent ↦ apart_from_winner w inv t u won_u absent
      ]

  module _ {m : Memory} (table : IsTable r m) (clean : NoneErased r m) where
    begin-Inv : Inv r vals (begin r vals m)
    unfolding begin
    begin-Inv = record {
      table = table;
      clean = clean;
      good = λ t. (Walk-start r m (vals t).first, λ j lt. absurd (omega (arith, lt)));
      winners = λ t u ne won won_u. absurd (cc (won));
    }

    pub Reach-Inv : {w : World} → Reach r vals m w → Inv r vals w
    Reach-Inv start = begin-Inv
    Reach-Inv (later {v} before t e) = subst (Inv r vals) (sym e) (step-Inv t v (Reach-Inv before))

    -- In every state that threads which insert valid keys at once come to, in any order of their
    -- steps, from a well-formed table without duplicates and without erased slots, whose probes
    -- visit every window: two slots that both hold a key equal to `k` are one slot.
    pub Reach-HoldsAt :
        {w : World}
        → Reach r vals m w
        → (k a b : ℕ) → HoldsAt r w.memory k a
        → HoldsAt r w.memory k b
        → a ≡ b
    Reach-HoldsAt reach k a b ha hb =
        holder_unique ok {k = k} nodup (Reach-Inv reach).table a b ha hb

    -- Under the same conditions, two threads with equal keys whose `insert` returned true are one
    -- thread.
    pub one_winner :
        {w : World}
        → Reach r vals m w
        → (t u : ℕ) → w.pc t ≡ returned true
        → w.pc u ≡ returned true
        → r.predicate.equal_fn (vals t).first (vals u).first ≡ true
        → t ≡ u
    one_winner {w} reach t u wt wu e = elim (eq-or-ne t u) [
      | inl same ↦ same
      | inr ne ↦
          let apart = (Reach-Inv reach).winners t u ne (ap has_won wt) (ap has_won wu) in
          absurd (cc (apart, e))
    ]

    -- Under the same conditions, once `insert` of a thread has returned, true or false, some slot
    -- holds its key.
    pub returned-Present :
        {w : World}
        → Reach r vals m w
        → (t : ℕ) (inserted : Bool) → w.pc t ≡ returned inserted
        → Present r w.memory (vals t).first
    returned-Present {w} reach t inserted e =
        subst (Good r w.memory (vals t).first) e ((Reach-Inv reach).good t)
