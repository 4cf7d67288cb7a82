-- ===== src/Probing/Cycle.antt =====
-- Residues that a step with no common divisor reaches: the arithmetic of the probing schemes.
-- No code of the repository is modelled here.
use cu_collections.Common.{
  ℕ, zero, suc, ◌+◌, ◌-◌, ◌*◌, ◌/◌, ◌%◌, ◌<◌, ◌≡◌, ◌≢◌, ap, sym, ◌∙◌, subst, arith,
}
use native.Mathlib.Nat.{mod-lt, mod-add-div', add-mul-mod_self_right, mod-eq_of_lt}

-- No number from 2 on, below `p`, divides it.
pub record IsPrime (p : ℕ) : Type 0 where
  pub big : 1 < p
  pub undivided : (d : ℕ) → 1 < d → d < p → p % d ≢ 0

-- `u * d` is 1 up to multiples of `p`.
pub record Inverse (p d : ℕ) : Type 0 where
  pub u : ℕ
  pub s : ℕ
  pub t : ℕ
  pub one : u * d + s * p ≡ 1 + t * p

mod_unique : (p w a s t : ℕ) → w < p → a + s * p ≡ w + t * p → a % p ≡ w
mod_unique p w a s t lt e =
    sym (add-mul-mod_self_right a s p)
    ∙ ap (λ n. n % p) e
    ∙ add-mul-mod_self_right w t p
    ∙ mod-eq_of_lt lt

-- One step of the division of `p` by `d`.
inverse_step :
    (n d q r u s t : ℕ)
    → r + q * d ≡ suc n
    → u * r + s * suc n ≡ 1 + t * suc n
    → u * q * n * d + (u + s) * suc n ≡ 1 + (u * q * d + t) * suc n
inverse_step n d q r u s t e h = omega (arith, h, ap (λ (z : ℕ). u * z) e)

reach_step :
    (p c d w u s t x k j : ℕ)
    → c + x ≡ w + p
    → u * d + s * p ≡ 1 + t * p
    → k + j * p ≡ u * x
    → c + k * d + (j * d + s * x) * p ≡ w + (1 + t * x) * p
reach_step p c d w u s t x k j e h f =
    omega (arith, e, ap (λ (z : ℕ). z * x) h, ap (λ (z : ℕ). z * d) f)

module _ {p : ℕ} (prime : IsPrime p) where
  -- by the remainders of `p`, which get smaller
  Inverse-below : (bound d : ℕ) → d < bound → 0 < d → d < p → Inverse p d
  Inverse-below zero d h pos lt = absurd (omega arith)
  Inverse-below (suc bound) zero h pos lt = absurd (omega arith)
  Inverse-below (suc bound) (suc zero) h pos lt = record { u = 1; s = 0; t = 0; one = omega arith }
  Inverse-below (suc bound) (suc (suc d')) h pos lt =
      let d : ℕ = suc (suc d') in
      let d_pos : 0 < d = omega arith in
      let whole : p ≡ suc (p - 1) = omega (arith, prime.big) in
      let r = p % d in
      let q = p / d in
      let i =
        Inverse-below bound r (omega (arith, h, mod-lt p d_pos))
          (omega (arith, prime.undivided d (omega arith) lt)) (omega (arith, lt, mod-lt p d_pos)) in
      record {
        u = i.u * q * (p - 1);
        s = i.u + i.s;
        t = i.u * q * d + i.t;
        one =
            subst (λ n. i.u * q * (p - 1) * d + (i.u + i.s) * n ≡ 1 + (i.u * q * d + i.t) * n)
              (sym whole)
              (inverse_step (p - 1) d q r i.u i.s i.t (mod-add-div' p d ∙ whole)
                (subst (λ n. i.u * r + i.s * n ≡ 1 + i.t * n) whole i.one));
      }

  pub inverse : (d : ℕ) → 0 < d → d < p → Inverse p d
  inverse d pos lt = Inverse-below (suc d) d (omega arith) pos lt

  -- From any residue, some number of steps below `p` leads to any other.
  pub reaches :
      (c d w : ℕ) → c < p → 0 < d → d < p → w < p → (k : ℕ) × (k < p) × ((c + k * d) % p ≡ w)
  reaches c d w hc pos lt hw =
      let i = inverse d pos lt in
      let x = w + p - c in
      (
        i.u * x % p,
        mod-lt (i.u * x) (omega (arith, hc)),
        mod_unique p w (c + i.u * x % p * d) (i.u * x / p * d + i.s * x) (1 + i.t * x) hw (
            reach_step p c d w i.u i.s i.t x (i.u * x % p) (i.u * x / p) (omega (arith, hc)) i.one
              (mod-add-div' (i.u * x) p)),
      )
