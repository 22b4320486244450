-- ===== src/Annotations/Keys.antt =====
-- What is registered under the key of a class and a member, as the walk up a prototype chain sees it.
use lrzwasnla.Common.{String, ◌≡◌, ◌≢◌, List, ◌∷◌, ◌++◌, All, none, some, Dict, at, put}
use lrzwasnla.Annotations.Classes.{
  Class, prototypes, key, nearest, nearest-put_ne, nearest-put_self,
}

module _ (owner c : Class) (member : String) where
  pub unchanged {ℓ} :
      {V : Type ℓ} (fn : String)
      → All (λ name. key owner.name member ≢ key name fn) (prototypes c)
      → (d : Dict V) (v : V)
      → nearest (λ name. at (put d (key owner.name member) v) (key name fn)) (prototypes c)
        ≡ nearest (λ name. at d (key name fn)) (prototypes c)
  unchanged fn h d v =
      nearest-put_ne d (key owner.name member) v (λ name. key name fn) (prototypes c) h

  pub shown {ℓ} :
      {V : Type ℓ} (before after : List String)
      → prototypes c ≡ before ++ owner.name ∷ after
      → (d : Dict V) (v : V)
      → All
          (λ other. (at d (key other member) ≡ none) × (key owner.name member ≢ key other member))
          before
      → nearest (λ name. at (put d (key owner.name member) v) (key name member)) (prototypes c)
        ≡ some v
  shown before after e d v h =
      rw e (nearest-put_self d v (λ name. key name member) before after owner.name h)
