-- ===== src/Crypt/Texts.antt =====
-- crypt/hashAndEncryptEntity.ts and decryptEntities.ts: what becomes of an array of texts.
use lrzwasnla.Common.{
  String, Bool, true, false, some, ◌≡◌, refl, ap, ◌∙◌, Text, if◌then◌else◌, arith,
}
use lrzwasnla.Common.Exec.{ok, pure, ◌>>=◌}
use lrzwasnla.Annotations.Classes.{Class}
use lrzwasnla.Crypt.{null, text, array, Entries, end, entry, Crypto, is_object_like}
use lrzwasnla.Crypt.Names.{is_to_be_encrypted, should_hash_value}
use lrzwasnla.Crypt.Cipher.{is_hash, encrypt, decrypt, hash}
use lrzwasnla.Crypt.Encryption.{
  text_of, hash_elements, encrypt_elements, encrypt_if_asked, protect_elements, protect_array,
}
use lrzwasnla.Crypt.Decryption.{
  decrypt_elements, open_texts, open_elements, open_array, decrypt_property,
}
use lrzwasnla.Crypt.Chains.{Yields, Gives, Yields->>=, Yields-pure, Gives-pure, IsAsked}
use lrzwasnla.Crypt.Keys.{IsWorking, is_ascii, encrypt-Yields, hash-Gives}
use lrzwasnla.Crypt.Properties.{known, chosen}
use lrzwasnla.Crypt.Fits.{is_all_texts}

-- The first of the elements is a text.
abbrev pub is_headed : Entries → Bool
is_headed (entry i (text s) rest) = true
is_headed _ = false

module _ {Any : Type 0} (k : Crypto Any) (b : Bool) (g : String → Bool) (secret : Text)
    (works : IsWorking k secret) (name : String) (c : Class) where
  pub hash_elements-Gives :
      (es : Entries)
      → is_all_texts true is_hash es ≡ true
      → Gives g (hash_elements k (some c) name es) es
  unfolding hash_elements
  hash_elements-Gives end h = Gives-pure g end end refl
  hash_elements-Gives (entry i null rest) h =
      Yields->>= g (hash_elements k (some c) name rest) (λ os. pure (entry i null os))
        (hash_elements-Gives rest h)
        (λ os p. Gives-pure g (entry i null os) (entry i null rest) (ap (λ r. entry i null r) p))
  hash_elements-Gives (entry i (text s) rest) h =
      Yields->>= g (hash k s)
        (λ x. hash_elements k (some c) name rest >>= λ os. pure (entry i (text x) os))
        (hash-Gives k secret works g s (ground arith))
        (λ x q.
          Yields->>= g (hash_elements k (some c) name rest) (λ os. pure (entry i (text x) os))
            (hash_elements-Gives rest (ground arith))
            (λ os p. Gives-pure g (entry i (text x) os) (entry i (text s) rest) (rw (q, p) refl)))
  hash_elements-Gives (entry i _ rest) h = absurd (ground arith)

  pub encrypt_elements-Yields :
      (es : Entries)
      → is_all_texts false is_ascii es ≡ true
      → Yields g
          (encrypt_elements k (some c) name es)
          (λ os. (is_headed os ≡ is_headed es) × Gives g (decrypt_elements k b os) es)
  unfolding encrypt_elements decrypt_elements
  encrypt_elements-Yields end h = Yields-pure g end (refl, Gives-pure g end end refl)
  encrypt_elements-Yields (entry i (text s) rest) h =
      Yields->>= g (encrypt k s true)
        (λ x. encrypt_elements k (some c) name rest >>= λ os. pure (entry i (text x) os))
        (encrypt-Yields k secret works g s (ground arith) true)
        (λ x opens.
          Yields->>= g (encrypt_elements k (some c) name rest) (λ os. pure (entry i (text x) os))
            (encrypt_elements-Yields rest (ground arith))
            (λ os others. Yields-pure g (entry i (text x) os) (
              refl,
              Yields->>= g (decrypt k x)
                  (λ d. decrypt_elements k b os >>= λ ds. pure (entry i (text d) ds)) opens
                  (λ d p.
                    Yields->>= g (decrypt_elements k b os) (λ ds. pure (entry i (text d) ds))
                      others.1
                      (λ ds q.
                        Gives-pure g (entry i (text d) ds) (entry i (text s) rest)
                          (rw (p, q) refl))),
            )))
  encrypt_elements-Yields (entry i _ rest) h = absurd (ground arith)

  -- What protects an array of texts, decryption opens.
  open_headed :
      is_to_be_encrypted k name (some c) ≡ true
      → IsAsked g k name c
      → (es os : Entries) → is_headed os ≡ true
      → Gives g (decrypt_elements k b os) es
      → Gives g (decrypt_property k b name (array os) (some c)) (array es)
  unfolding decrypt_property is_object_like open_array open_elements open_texts text_of
  open_headed e asked es (entry i (text t) more) h opens =
      Yields->>= g (open_elements k b (some c) name (text t) (entry i (text t) more))
        (λ ds. pure (array ds))
        (chosen k g name c true e asked
          (λ x.
            if x
            then open_texts k b (some c) name (text t) (entry i (text t) more)
            else pure (entry i (text t) more))
          opens)
        (λ ds p. Gives-pure g (array ds) (array es) (ap array p))
  open_headed e asked es end h opens = absurd (ground arith)
  open_headed e asked es (entry i _ more) h opens = absurd (ground arith)

  module _ (asked : IsAsked g k name c) (es : Entries) where
    pub protect_array-encrypted :
        should_hash_value k name (some c) ≡ ok false
        → is_to_be_encrypted k name (some c) ≡ true
        → is_headed es ≡ true
        → is_all_texts false is_ascii es ≡ true
        → Yields g
            (protect_array k (some c) name es)
            (λ w. Gives g (decrypt_property k b name w (some c)) (array es))
    unfolding protect_array protect_elements encrypt_if_asked
    protect_array-encrypted h e headed ascii =
        Yields->>= g (protect_elements k (some c) name es) (λ os. pure (array os))
          (known k g (should_hash_value k name (some c)) false h
            (λ x.
              if x then hash_elements k (some c) name es else encrypt_if_asked k (some c) name es)
            (chosen k g name c true e asked
              (λ x. if x then encrypt_elements k (some c) name es else pure es)
              (encrypt_elements-Yields es ascii)))
          (λ os p. Yields-pure g (array os) (open_headed e asked es os (p.0 ∙ headed) p.1))

    pub protect_array-hashed :
        should_hash_value k name (some c) ≡ ok true
        → is_all_texts true is_hash es ≡ true
        → Gives g (protect_array k (some c) name es) (array es)
    unfolding protect_array protect_elements
    protect_array-hashed h hashed =
        Yields->>= g (protect_elements k (some c) name es) (λ os. pure (array os))
          (known k g (should_hash_value k name (some c)) true h
            (λ x.
              if x then hash_elements k (some c) name es else encrypt_if_asked k (some c) name es)
            (hash_elements-Gives es hashed))
          (λ os p. Gives-pure g (array os) (array es) (ap array p))

    pub protect_array-plain :
        should_hash_value k name (some c) ≡ ok false
        → is_to_be_encrypted k name (some c) ≡ false
        → Gives g (protect_array k (some c) name es) (array es)
    unfolding protect_array protect_elements encrypt_if_asked
    protect_array-plain h e =
        Yields->>= g (protect_elements k (some c) name es) (λ os. pure (array os))
          (known k g (should_hash_value k name (some c)) false h
            (λ x.
              if x then hash_elements k (some c) name es else encrypt_if_asked k (some c) name es)
            (chosen k g name c false e asked
              (λ x. if x then encrypt_elements k (some c) name es else pure es)
              (Gives-pure g es es refl)))
          (λ os p. Gives-pure g (array os) (array es) (ap array p))
