-- ===== src/Common/Loops.antt =====
-- `while` loops on fuel: `none` says that the fuel ran out.
use Prim.Native.Nat.{ℕ, zero, suc, ◌+◌, ◌<◌, ◌≤◌}
use mathlib.Core.Path.{◌≡◌}
use mathlib.Core.Bool.{Bool, true, false}
use mathlib.Core.Option.{Option, none, some}
use mathlib.Core.Logic.{inl, inr}
use native.Mathlib.Omega.{arith}
use cu_collections.Common.Tests.{Bool-cases}

module _ {ℓ} {S : Type ℓ} where
  unfoldable pub while_do : ℕ → (S → Bool) → (S → S) → S → Option S
  while_do zero test round s = none
  while_do (suc fuel) test round s = elim (test s) [
    | false ↦ some s
    | true ↦ while_do fuel test round (round s)
  ]

  -- A loop ends whose every round moves an offset on that is at most `last` when a round begins.
  pub while_do_ends :
      (last : ℕ) (offset : S → ℕ) (test : S → Bool) (round : S → S)
      → ((s : S) → test s ≡ true → offset s ≤ last)
      → ((s : S) → offset s < offset (round s))
      → (fuel : ℕ) (s : S) → suc last < fuel + offset s
      → 0 < fuel
      → (t : S) × (while_do fuel test round s ≡ some t)
  unfolding while_do
  while_do_ends last offset test round inside moves zero s enough some_fuel = absurd (omega arith)
  while_do_ends last offset test round inside moves (suc fuel) s enough some_fuel =
      elim (Bool-cases (test s)) [
        | inr stop ↦ (s, rw (stop, while_do))
        | inl go ↦
            let far = inside s go in
            let (t, e) =
              while_do_ends last offset test round inside moves fuel (round s)
                (omega (arith, moves s)) (omega (arith, far, enough)) in
            (t, rw (go, while_do) e)
      ]
