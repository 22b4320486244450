-- ===== src/Crypt/Properties.antt =====
-- crypt/hashAndEncryptEntity.ts and decryptEntities.ts: what becomes of one property.
use lrzwasnla.Common.{String, Bool, true, false, some, ◌≡◌, refl, ap, ◌∙◌, Text, if◌then◌else◌}
use lrzwasnla.Common.Exec.{Result, ok, Exec, pure, lift, ◌>>=◌}
use lrzwasnla.Errors.{Failure}
use lrzwasnla.Annotations.Classes.{Class}
use lrzwasnla.Crypt.{Value, text, array, Entries, Crypto, Memory}
use lrzwasnla.Crypt.Names.{
  is_to_be_encrypted, should_hash_value, should_encrypt_value,
  should_use_random_initialization_vector,
}
use lrzwasnla.Crypt.Cipher.{is_hash, encrypt, decrypt, hash}
use lrzwasnla.Crypt.Encryption.{text_of, hash_text, encrypt_text, encrypt_single, protect_single}
use lrzwasnla.Crypt.Decryption.{
  open_text, open_single, open_texts, open_elements, open_array, decrypt_property,
}
use lrzwasnla.Crypt.Chains.{
  Yields, Gives, Yields->>=, Yields-pure, Gives-pure, IsAsked, should_encrypt_value-Gives,
}
use lrzwasnla.Crypt.Keys.{IsWorking, is_ascii, encrypt-Yields, hash-Gives}

module _ {Any : Type 0} (k : Crypto Any) (g : String → Bool) where
  -- An answer that is known makes a choice.
  module _ {A : Type 0} {P : A → Type 0} where
    pub chosen :
        (name : String) (c : Class) (answer : Bool)
        → is_to_be_encrypted k name (some c) ≡ answer
        → IsAsked g k name c
        → (f : Bool → Exec Failure Memory A) → Yields g (f answer) P
        → Yields g (should_encrypt_value k name (some c) >>= f) P
    chosen name c answer e asked f h =
        Yields->>= g (should_encrypt_value k name (some c)) f
          (should_encrypt_value-Gives g k name c asked) (λ x p. rw (p ∙ e) h)

  module _ {A B : Type 0} {P : A → Type 0} where
    pub known :
        (r : Result Failure B) (x : B)
        → r ≡ ok x
        → (f : B → Exec Failure Memory A) → Yields g (f x) P
        → Yields g (lift r >>= f) P
    known r x e f h s sound = rw e (h s sound)

module _ {Any : Type 0} (k : Crypto Any) (b : Bool) (g : String → Bool) (secret : Text)
    (works : IsWorking k secret) (name : String) (c : Class) (asked : IsAsked g k name c) where
  -- A property that is not to be encrypted is left alone by decryption.
  pub open_single-Gives :
      is_to_be_encrypted k name (some c) ≡ false
      → (v : Value) → Gives g (open_single k b (some c) name v) v
  unfolding open_single
  open_single-Gives e v =
      chosen k g name c false e asked (λ x. if x then open_text k b (some c) name v else pure v)
        (Gives-pure g v v refl)

  pub open_elements-Gives :
      is_to_be_encrypted k name (some c) ≡ false
      → (first : Value) (es : Entries) → Gives g (open_array k b (some c) name first es) (array es)
  unfolding open_array open_elements
  open_elements-Gives e first es =
      Yields->>= g (open_elements k b (some c) name first es) (λ os. pure (array os))
        (chosen k g name c false e asked
          (λ x. if x then open_texts k b (some c) name first es else pure es)
          (Gives-pure g es es refl))
        (λ os p. Gives-pure g (array os) (array es) (ap array p))

  pub encrypt_single-Gives :
      is_to_be_encrypted k name (some c) ≡ false
      → (v : Value) → Gives g (encrypt_single k (some c) name v) v
  unfolding encrypt_single
  encrypt_single-Gives e v =
      chosen k g name c false e asked (λ x. if x then encrypt_text k (some c) name v else pure v)
        (Gives-pure g v v refl)

  -- What protects a text, decryption opens.
  pub protect_single-plain :
      should_hash_value k name (some c) ≡ ok false
      → is_to_be_encrypted k name (some c) ≡ false
      → (v : Value) → Gives g (protect_single k (some c) name v) v
  unfolding protect_single
  protect_single-plain h e v =
      known k g (should_hash_value k name (some c)) false h
        (λ x. if x then hash_text k (some c) name v else encrypt_single k (some c) name v)
        (encrypt_single-Gives e v)

  pub protect_single-hashed :
      should_hash_value k name (some c) ≡ ok true
      → (s : Text) → is_hash s ≡ true
      → Gives g (protect_single k (some c) name (text s)) (text s)
  unfolding protect_single hash_text text_of
  protect_single-hashed h s hashed =
      known k g (should_hash_value k name (some c)) true h
        (λ x.
          if x then hash_text k (some c) name (text s) else encrypt_single k (some c) name (text s))
        (known k g (ok s) s refl (λ r. hash k r >>= λ e. pure (text e))
          (Yields->>= g (hash k s) (λ e. pure (text e)) (hash-Gives k secret works g s hashed)
            (λ e p. Gives-pure g (text e) (text s) (ap text p))))

  open_encrypted :
      is_to_be_encrypted k name (some c) ≡ true
      → (s t : Text) → Gives g (decrypt k t) s
      → Gives g (open_single k b (some c) name (text t)) (text s)
  unfolding open_single open_text text_of
  open_encrypted e s t p =
      chosen k g name c true e asked
        (λ x. if x then open_text k b (some c) name (text t) else pure (text t))
        (known k g (ok t) t refl (λ r. decrypt k r >>= λ d. pure (text d))
          (Yields->>= g (decrypt k t) (λ d. pure (text d)) p
            (λ d q. Gives-pure g (text d) (text s) (ap text q))))

  pub protect_single-encrypted :
      should_hash_value k name (some c) ≡ ok false
      → is_to_be_encrypted k name (some c) ≡ true
      → (s : Text) → is_ascii s ≡ true
      → Yields g
          (protect_single k (some c) name (text s))
          (λ w. Gives g (decrypt_property k b name w (some c)) (text s))
  unfolding protect_single encrypt_single encrypt_text text_of decrypt_property
  protect_single-encrypted h e s ascii =
      known k g (should_hash_value k name (some c)) false h
        (λ x.
          if x then hash_text k (some c) name (text s) else encrypt_single k (some c) name (text s))
        (chosen k g name c true e asked
          (λ x. if x then encrypt_text k (some c) name (text s) else pure (text s))
          (known k g (ok s) s refl
            (λ r. encrypt k r (should_use_random_initialization_vector name) >>= λ x. pure (text x))
            (Yields->>= g (encrypt k s (should_use_random_initialization_vector name))
              (λ x. pure (text x))
              (encrypt-Yields k secret works g s ascii
                (should_use_random_initialization_vector name))
              (λ t p. Yields-pure g (text t) (open_encrypted e s t p)))))
