-- ===== src/OpenAddressing/Loop.antt =====
-- The loops of every operation: `while (true) { ...; ++probing_iter; }` over windows and
-- `for (auto& slot_content : window_slots)` inside. `none` says that the fuel ran out.
use cu_collections.Common.{ℕ, zero, suc, Option, none, some}
use cu_collections.Probing.{ProbingIterator, advance}

-- What a loop body decides: `return r`, or go on.
pub data Flow {ℓ} (R : Type ℓ) : Type ℓ where
  return : R → Flow R
  next : Flow R

abbrev pub Outcome {ℓ κ} : Type ℓ → Type κ → Type (ℓ ⊔ κ)
Outcome R S = Option (Flow R × S)

module _ {ℓ κ} {R : Type ℓ} {S : Type κ} where
  -- `;` between two parts of a body: the second runs if the first falls through
  infixr 6 ◌then_on◌
  abbrev pub ◌then_on◌ : Outcome R S → (S → Outcome R S) → Outcome R S
  none then_on k = none
  some (return r, s) then_on k = some (return r, s)
  some (next, s) then_on k = k s

  -- the rounds `i, ..., i + n - 1` of a `for` loop
  unfoldable pub for_slots : ℕ → ℕ → (ℕ → S → Outcome R S) → S → Outcome R S
  for_slots zero i body s = some (next, s)
  for_slots (suc n) i body s = body i s then_on λ t. for_slots n (suc i) body t

  -- `while (true)`, with fuel for its rounds; the body is given `*probing_iter`
  unfoldable pub probe_loop : ℕ → ℕ → ProbingIterator → (ℕ → S → Outcome R S) → S → Option (R × S)
  probe_loop zero w it body s = none
  probe_loop (suc fuel) w it body s = elim (body it.curr_index s) [
    | none ↦ none
    | some (return r, t) ↦ some (r, t)
    | some (next, t) ↦ probe_loop fuel w (advance w it) body t
  ]
