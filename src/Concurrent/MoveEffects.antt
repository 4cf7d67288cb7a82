-- ===== src/Concurrent/MoveEffects.antt =====
-- What each move of a thread does to the payloads of the slots.
use cu_collections.Common.{
  if_yes, if_not, ℕ, suc, ◌<◌, ◌≡◌, refl, sym, subst, Bool, true, false, ◌==◌, ==_iff, ltb, ltb→lt,
  if◌then◌else◌, ◌⊎◌, inl, inr, Bool-cases,
}
use cu_collections.OpenAddressing.Cas.{store_payload}
use cu_collections.OpenAddressing.Defs.{Slot, Memory, Ref, capacity}
use cu_collections.Probing.{ProbingIterator, advance}
use cu_collections.Concurrent.Exchanges.{cas_payload_free, cas_payload_taken}
use cu_collections.Concurrent.Threads.{
  Pc, loading, visiting, storing, exchanging, retrying, resetting, returned, current,
  after_exchange, move,
}
use cu_collections.Concurrent.Claim.{Walk-inside}
use cu_collections.Concurrent.Knows.{Good}
use cu_collections.OpenAddressing.Reach.{IsRef}
use cu_collections.Concurrent.Effects.{
  BackToBack, sentinel, Stores, Owns, Mode, Quiet-visiting, Quiet-loading, Quiet-failure, quietly,
  waits, repaid,
}
use cu_collections.Concurrent.VisitEffects.{Does, visit-Effect}

module _ (r : Ref) (m : Memory) (val : Slot) where
  -- what the exchange of the payload leads to
  abbrev after_payload : ProbingIterator → ℕ → Memory → Bool → ℕ → Bool × Memory → Memory × Pc
  after_payload it i snap swapped found q =
      (q.1, after_exchange r val m it i snap found swapped q.0)

  abbrev retry : ℕ → Bool × Memory → Memory × Pc
  retry a q = (q.1, if q.0 then returned true else retrying a)

  -- A thread that has the slot writes its payload, and returns.
  pays :
      (p : Pc) (a : ℕ)
      → a < capacity r
      → (m a).first ≡ val.first
      → ((m a).second ≡ sentinel r) ⊎ Stores r p a
      → Does r m val p (store_payload m a val.second, returned true)
  pays p a lt key may =
      repaid r m val p a val.second (returned true)
        (elim may [ inl free ↦ inl free | inr own ↦ inr (inr own) ]) (λ b h. absurd h) (λ b h. h) tt
        (λ e. (lt, key, refl, may))

  exchanging_won :
      (it : ProbingIterator) (i : ℕ) (snap : Memory) (found : ℕ)
      → current r it i < capacity r
      → (m (current r it i)).first ≡ val.first
      → BackToBack r
      → Does r m val
          (exchanging it i snap true found)
          (move r val m (exchanging it i snap true found))
  unfolding move after_exchange
  exchanging_won it i snap found lt key both =
      let a : ℕ = current r it i in
      let p = exchanging it i snap true found in
      elim (Bool-cases ((m a).second == sentinel r)) [
        | inl e ↦
            subst (λ q. Does r m val p (after_payload it i snap true found q))
              (sym (cas_payload_free m a (sentinel r) val.second e))
              (pays p a lt key (inl ((==_iff _ _).0 e)))
        | inr e ↦
            subst (λ q. Does r m val p (after_payload it i snap true found q))
              (sym (cas_payload_taken m a (sentinel r) val.second e))
              (waits r m val p (retrying a) (λ b h. h)
                (λ b h. subst (λ b. (m b).first ≡ val.first) h key) both (λ e. absurd (cc (e))))
      ]

  exchanging_lost :
      (it : ProbingIterator) (i : ℕ) (snap : Memory) (found : ℕ)
      → BackToBack r
      → Does r m val
          (exchanging it i snap false found)
          (move r val m (exchanging it i snap false found))
  unfolding move after_exchange
  exchanging_lost it i snap found both =
      let a : ℕ = current r it i in
      let p = exchanging it i snap false found in
      elim (Bool-cases ((m a).second == sentinel r)) [
        | inl e ↦
            let free = (==_iff _ _).0 e in
            subst (λ q. Does r m val p (after_payload it i snap false found q))
              (sym (cas_payload_free m a (sentinel r) val.second e))
              (repaid r m val p a val.second (resetting it i snap found) (inl free)
                (λ b h. (h, free, refl)) (λ b h. h) both (λ e. absurd (cc (e))))
        | inr e ↦
            subst (λ q. Does r m val p (after_payload it i snap false found q))
              (sym (cas_payload_taken m a (sentinel r) val.second e))
              (quietly r m val p _ (Quiet-failure r it i snap val.first found))
      ]

  -- Any step of a thread, where it holds what its place says.
  pub move-Effect :
      IsRef r
      → (p : Pc) → Good r m val.first p
      → ((a : ℕ) → Owns r p a → (m a).first ≡ val.first)
      → Mode r p
      → Does r m val p (move r val m p)
  unfolding move
  move-Effect ref (loading it i snap) h own mode = elim (Bool-cases (ltb i r.window_size)) [
    | inl inside ↦
        subst (Does r m val (loading it i snap)) (sym (if_yes _ _ inside))
          (quietly r m val (loading it i snap) _ (Quiet-loading r it (suc i) _))
    | inr outside ↦
        subst (Does r m val (loading it i snap)) (sym (if_not _ _ outside))
          (quietly r m val (loading it i snap) _ (Quiet-visiting r it 0 snap))
  ]
  move-Effect ref (visiting it i snap) h own mode = elim (Bool-cases (ltb i r.window_size)) [
    | inl inside ↦ subst (Does r m val (visiting it i snap)) (sym (if_yes _ _ inside)) (
        visit-Effect r m val it i snap
          (Walk-inside ref it i h.walk (ltb→lt i r.window_size inside)))
    | inr outside ↦
        subst (Does r m val (visiting it i snap)) (sym (if_not _ _ outside))
          (quietly r m val (visiting it i snap) _ (Quiet-loading r (advance r.size_bits it) 0 snap))
  ]
  move-Effect ref (storing a) h own mode = pays (storing a) a h.0 (own a refl) (inr refl)
  move-Effect ref (exchanging it i snap true found) h own mode =
      exchanging_won it i snap found h.0 (own (current r it i) refl) mode
  move-Effect ref (exchanging it i snap false found) h own mode =
      exchanging_lost it i snap found mode
  move-Effect ref (retrying a) h own mode = elim (Bool-cases ((m a).second == sentinel r)) [
    | inl e ↦
        subst (λ q. Does r m val (retrying a) (retry a q))
          (sym (cas_payload_free m a (sentinel r) val.second e))
          (pays (retrying a) a h.0 (own a refl) (inl ((==_iff _ _).0 e)))
    | inr e ↦
        subst (λ q. Does r m val (retrying a) (retry a q))
          (sym (cas_payload_taken m a (sentinel r) val.second e))
          (waits r m val (retrying a) (retrying a) (λ b h. h) own mode (λ e. absurd (cc (e))))
  ]
  move-Effect ref (resetting it i snap found) h own mode =
      let q = Quiet-failure r it i snap val.first found in
      repaid r m val (resetting it i snap found) (current r it i) (sentinel r) _ (inr (inl refl))
        (λ b h. absurd (q.no_reset b h)) q.no_own q.mode (λ e. absurd (q.not_done e))
  move-Effect ref (returned inserted) h own mode = record {
    payload = λ a filled. inl refl;
    reset = λ a h. absurd h;
    own = λ a h. absurd h;
    mode = tt;
    done = λ e. inl (e, refl);
  }
