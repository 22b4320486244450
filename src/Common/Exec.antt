-- ===== src/Common/Exec.antt =====
-- Code that may throw, and methods that also change an object. What was written before a throw
-- stays written, so the state comes back beside the error too.

use mathlib.Core.Path.{◌≡◌, refl}
use mathlib.Core.Logic.{◌⊎◌, inl, inr}
use mathlib.Core.Bool.{Bool, true, false}
use native.Mathlib.Omega.{arith}

pub data Result {ℓ} (E A : Type ℓ) : Type ℓ where
  ok : A → Result E A
  err : E → Result E A

abbrev pub Exec : Type 0 → Type 0 → Type 0 → Type 0
Exec E S A = S → Result E A × S

module _ {E S A : Type 0} where
  abbrev pub pure : A → Exec E S A
  pure a s = (ok a, s)

  -- `throw e`
  abbrev pub throw : E → Exec E S A
  throw e s = (err e, s)

  abbrev pub lift : Result E A → Exec E S A
  lift r s = (r, s)

module _ {E S : Type 0} where
  abbrev pub modify : (S → S) → Exec E S (Unit {0})
  modify f s = (ok tt, f s)

module _ {E S A B : Type 0} where
  abbrev pub continue : Result E A → (A → Exec E S B) → Exec E S B
  continue (ok a) f s = f a s
  continue (err e) f s = (err e, s)

  infixl 10 ◌>>=◌ ◌>>◌
  abbrev pub ◌>>=◌ : Exec E S A → (A → Exec E S B) → Exec E S B
  ◌>>=◌ m f s = continue (m s).0 f (m s).1

  abbrev pub ◌>>◌ : Exec E S A → Exec E S B → Exec E S B
  m >> n = m >>= λ _. n

pub Result-cases {ℓ} :
    {E A : Type ℓ} (r : Result E A) → ((a : A) × (r ≡ ok a)) ⊎ ((e : E) × (r ≡ err e))
Result-cases (ok a) = inl (a, refl)
Result-cases (err e) = inr (e, refl)

abbrev pub is_ok {ℓ} : {E A : Type ℓ} → Result E A → Bool
is_ok (ok a) = true
is_ok (err e) = false

-- A chain that returned took its first step, and then the rest.
module _ {E S A B : Type 0} (m : Exec E S A) (f : A → Exec E S B) (s t : S) (b : B) where
  bind_inversion :
      (p : Result E A × S)
      → m s ≡ p
      → continue p.0 f p.1 ≡ (ok b, t)
      → (a : A) × (u : S) × (m s ≡ (ok a, u)) × (f a u ≡ (ok b, t))
  bind_inversion (ok a, u) e h = (a, u, e, h)
  bind_inversion (err x, u) e h = absurd (ground arith)

  pub >>=-eq-ok :
      (m >>= f) s ≡ (ok b, t) → (a : A) × (u : S) × (m s ≡ (ok a, u)) × (f a u ≡ (ok b, t))
  >>=-eq-ok h = bind_inversion (m s) refl h
