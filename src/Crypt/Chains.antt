-- ===== src/Crypt/Chains.antt =====
-- crypt/: what an action gives whatever is remembered, as long as each remembered answer is the one
-- that a given function has for its key.
use lrzwasnla.Common.{
  String, Bool, some, at, at-put, ◌≡◌, refl, sym, ap, ◌∙◌, Option-cases, Bool-cases, inl, inr,
  ◌===◌, eq_iff, arith,
}
use lrzwasnla.Common.Exec.{Result, ok, Exec, pure, lift, ◌>>=◌}
use lrzwasnla.Errors.{Failure}
use lrzwasnla.Annotations.Classes.{Class, key}
use lrzwasnla.Crypt.{Crypto, Memory}
use lrzwasnla.Crypt.Names.{should_encrypt_value, is_to_be_encrypted, remember}

module _ (g : String → Bool) where
  -- Every remembered answer is that of `g`.
  abbrev pub IsSound : Memory → Type 0
  IsSound m = (j : String) (b : Bool) → at m.should_encrypt_value_map j ≡ some b → b ≡ g j

  -- The action returns, with a result that has the property.
  abbrev pub Yields : {A : Type 0} → Exec Failure Memory A → (A → Type 0) → Type 0
  Yields {A} act P =
      (s : Memory) → IsSound s → (a : A) × (t : Memory) × (act s ≡ (ok a, t)) × IsSound t × P a

  abbrev pub Gives : {A : Type 0} → Exec Failure Memory A → A → Type 0
  Gives act a = Yields act (λ x. x ≡ a)

  module _ {A B : Type 0} {P : A → Type 0} {Q : B → Type 0} where
    pub Yields->>= :
        (m : Exec Failure Memory A) (f : A → Exec Failure Memory B)
        → Yields m P
        → ((a : A) → P a → Yields (f a) Q)
        → Yields (m >>= f) Q
    Yields->>= m f first rest s sound =
        let (a, t, e, sound1, p) = first s sound in
        let (b, u, e1, sound2, q) = rest a p t sound1 in (b, u, rw e e1, sound2, q)

  module _ {A : Type 0} {P : A → Type 0} where
    pub Yields-pure : (a : A) → P a → Yields (pure a) P
    Yields-pure a p s sound = (a, s, refl, sound, p)

    pub Yields-lift : (r : Result Failure A) (a : A) → r ≡ ok a → P a → Yields (lift r) P
    Yields-lift r a e p s sound = (a, s, rw e refl, sound, p)

  module _ {A : Type 0} where
    pub Gives-pure : (a b : A) → a ≡ b → Gives (pure a) b
    Gives-pure a b e s sound = (a, s, refl, sound, e)

  module _ {Any : Type 0} (k : Crypto Any) (name : String) (c : Class) where
    -- Under a key that other properties share too, the answer is the one of `g`.
    abbrev pub IsAsked : Type 0
    IsAsked = is_to_be_encrypted k name (some c) ≡ g (key c.name name)

    remember-IsSound :
        IsAsked
        → (m : Memory) → IsSound m
        → IsSound (remember k name c (is_to_be_encrypted k name (some c)) m)
    unfolding remember
    remember-IsSound asked m sound j b h = elim (Bool-cases (c.name === "")) [
      | inl nameless ↦ sound j b (ground (arith, nameless))
      | inr named ↦ elim (Bool-cases (key c.name name === j)) [
        | inl here ↦ ground (
          arith,
          eq_iff (key c.name name) j,
          asked,
          at-put m.should_encrypt_value_map (key c.name name) j
              (is_to_be_encrypted k name (some c)),
        )
        | inr there ↦ sound j b (
            ground (
              arith,
              named,
              there,
              at-put m.should_encrypt_value_map (key c.name name) j
                  (is_to_be_encrypted k name (some c)),
            ))
      ]
    ]

    pub should_encrypt_value-Gives :
        IsAsked → Gives (should_encrypt_value k name (some c)) (is_to_be_encrypted k name (some c))
    unfolding should_encrypt_value
    should_encrypt_value-Gives asked s sound =
        elim (Option-cases (at s.should_encrypt_value_map (key c.name name))) [
          | inl e ↦ (
            is_to_be_encrypted k name (some c),
            remember k name c (is_to_be_encrypted k name (some c)) s,
            rw (e, should_encrypt_value) refl,
            remember-IsSound asked s sound,
            refl,
          )
          | inr (b, e) ↦ (
            b,
            s,
            rw (e, should_encrypt_value) refl,
            sound,
            sound (key c.name name) b e ∙ sym asked,
          )
        ]

-- Where each answer that is remembered is the one that a function has for its key, and the function
-- gives the worked-out answer for this property of this class, that answer is returned, and all
-- that is remembered afterwards is still the function's.
pub should_encrypt_value-IsSound :
    {Any : Type 0} (g : String → Bool) (k : Crypto Any) (name : String) (c : Class) (m : Memory)
    → is_to_be_encrypted k name (some c) ≡ g (key c.name name)
    → IsSound g m
    → (n : Memory) × (should_encrypt_value k name (some c) m
        ≡ (ok (is_to_be_encrypted k name (some c)), n))
      × IsSound g n
should_encrypt_value-IsSound g k name c m asked sound =
    let (b, n, e, kept, p) = should_encrypt_value-Gives g k name c asked m sound in
    (n, e ∙ ap (λ x. (ok x, n)) p, kept)
