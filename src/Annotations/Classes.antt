-- ===== src/Annotations/Classes.antt =====
-- A class as its instances see it: the names of the constructors on the prototype chain of a new
-- instance, which the annotation containers walk up to `Object.prototype`.
use Prim.Native.String
use lrzwasnla.Common.{
  String, ◌≡◌, refl, ◌≢◌, Option, none, some, List, [], ◌∷◌, ◌++◌, Dict, at, put, at-put_self,
  at-put_ne, All, arith,
}

-- `name` is the name of the class itself, `parents` those of the classes that it extends, the
-- nearest first.
pub record Class : Type 0 where
  pub name : String
  pub parents : List String

abbrev pub prototypes : Class → List String
prototypes c = c.name ∷ c.parents

-- `${serviceClass.name}${functionName}`, with no separator
abbrev pub key : String → String → String
key name member = String.◌++◌ name member

module _ {ℓ} {V : Type ℓ} where
  -- The loop of every getter: the value at the first prototype whose entry is not `undefined`.
  unfoldable pub nearest : (String → Option V) → List String → Option V
  nearest look [] = none
  nearest look (name ∷ rest) = elim (look name) [ some v ↦ some v | none ↦ nearest look rest ]

  pub nearest-put_ne :
      (d : Dict V) (k : String) (v : V) (to_key : String → String) (names : List String)
      → All (λ name. k ≢ to_key name) names
      → nearest (λ name. at (put d k v) (to_key name)) names
        ≡ nearest (λ name. at d (to_key name)) names
  unfolding nearest
  nearest-put_ne d k v to_key [] h = refl
  nearest-put_ne d k v to_key (name ∷ rest) (ne, h) =
      ground (arith, at-put_ne d k (to_key name) v ne, nearest-put_ne d k v to_key rest h)

  -- An entry is found through every chain on which nothing nearer has one.
  pub nearest-put_self :
      (d : Dict V) (v : V) (to_key : String → String) (before after : List String) (name : String)
      → All (λ other. (at d (to_key other) ≡ none) × (to_key name ≢ to_key other)) before
      → nearest (λ n. at (put d (to_key name) v) (to_key n)) (before ++ name ∷ after) ≡ some v
  unfolding nearest
  nearest-put_self d v to_key [] after name h = rw (at-put_self d (to_key name) v, nearest)
  nearest-put_self d v to_key (other ∷ before) after name ((free, ne), h) =
      rw (at-put_ne d (to_key name) (to_key other) v ne, free, nearest)
        (nearest-put_self d v to_key before after name h)
