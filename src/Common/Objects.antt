-- ===== src/Common/Objects.antt =====
-- An object that the source uses as a dictionary, `{ [key: string]: V }`: a list of its own
-- entries in the order of their insertion. Keys that every object inherits are left out.
use Prim.Native.String.{String}
use mathlib.Core.Path.{◌≡◌, refl}
use mathlib.Core.Logic.{◌≢◌}
use mathlib.Core.Bool.{false}
use mathlib.Core.Option.{Option, none, some}
use mathlib.Core.List.{List, [], ◌∷◌}
use native.Mathlib.Omega.{arith}
use text.Mathlib.TextEquality.{eq_iff}
use text.Mathlib.TextPositions.{eq_refl}
use lrzwasnla.Common.Tests.{◌===◌, if◌then◌else◌}

abbrev pub Dict {ℓ} : Type ℓ → Type ℓ
Dict V = List (String × V)

module _ {ℓ} {V : Type ℓ} where
  -- `object[key]`, `none` for `undefined`
  unfoldable pub at : Dict V → String → Option V
  at [] key = none
  at ((other, v) ∷ rest) key = if other === key then some v else at rest key

  -- `object[key] = value`
  unfoldable pub put : Dict V → String → V → Dict V
  put [] key v = (key, v) ∷ []
  put ((other, w) ∷ rest) key v =
      if other === key then (other, v) ∷ rest else (other, w) ∷ put rest key v

  pub at-put :
      (d : Dict V) (key j : String) (v : V)
      → at (put d key v) j ≡ (if key === j then some v else at d j)
  unfolding at put
  at-put [] key j v = refl
  at-put ((other, w) ∷ rest) key j v =
      ground (arith, at-put rest key j v, eq_iff other key, eq_iff other j, eq_iff key j)

  pub at-put_self : (d : Dict V) (key : String) (v : V) → at (put d key v) key ≡ some v
  at-put_self d key v = simp (at-put, eq_refl)

  pub at-put_ne : (d : Dict V) (key j : String) (v : V) → key ≢ j → at (put d key v) j ≡ at d j
  at-put_ne d key j v h = ground (arith, at-put d key j v, eq_iff key j)

pub different : (s t : String) → (s === t) ≡ false → s ≢ t
different s t h e = absurd (ground (arith, eq_iff s t))
