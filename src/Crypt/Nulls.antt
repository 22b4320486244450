-- ===== src/Crypt/Nulls.antt =====
-- crypt/hashAndEncryptEntity.ts and decryptEntities.ts: a `null` among the texts of an array.
use lrzwasnla.Common.{String, Bool, true, false, ◌≡◌, refl, ap, Option, none, some, inl, inr, arith}
use lrzwasnla.Common.Exec.{ok, is_ok, Result-cases, pure, ◌>>=◌, >>=-eq-ok}
use lrzwasnla.Annotations.Classes.{Class}
use lrzwasnla.Crypt.{null, text, Entries, end, entry, Crypto, Memory}
use lrzwasnla.Crypt.Cipher.{encrypt, decrypt}
use lrzwasnla.Crypt.Encryption.{encrypt_elements, refuse_property}
use lrzwasnla.Crypt.Decryption.{decrypt_elements}

abbrev pub has_null : Entries → Bool
has_null end = false
has_null (entry i null rest) = true
has_null (entry i _ rest) = has_null rest

module _ {Any : Type 0} (k : Crypto Any) (b : Bool) where
  has_null-encrypt_elements :
      (c : Option Class) (name : String) (es os : Entries) (m n : Memory)
      → has_null es ≡ true
      → encrypt_elements k c name es m ≡ (ok os, n)
      → has_null os ≡ true
  unfolding encrypt_elements refuse_property
  has_null-encrypt_elements c name end os m n h e = absurd (ground arith)
  has_null-encrypt_elements c name (entry i null rest) os m n h e =
      let (xs, s, e1, e2) =
        >>=-eq-ok (encrypt_elements k c name rest) (λ xs. pure (entry i null xs)) m n os e in
      ground (arith, e2)
  has_null-encrypt_elements c name (entry i (text s) rest) os m n h e =
      let (x, u, e1, e2) =
        >>=-eq-ok (encrypt k s true)
          (λ x. encrypt_elements k c name rest >>= λ xs. pure (entry i (text x) xs)) m n os e in
      let (xs, v, e3, e4) =
        >>=-eq-ok (encrypt_elements k c name rest) (λ xs. pure (entry i (text x) xs)) u n os e2 in
      ground (arith, e4, has_null-encrypt_elements c name rest xs u v h e3)
  has_null-encrypt_elements none name (entry i _ rest) os m n h e = absurd (ground arith)
  has_null-encrypt_elements (some c) name (entry i _ rest) os m n h e = absurd (ground arith)

  has_null-refused :
      (os out : Entries) (m n : Memory)
      → has_null os ≡ true
      → decrypt_elements k b os m ≡ (ok out, n)
      → true ≡ false
  unfolding decrypt_elements
  has_null-refused end out m n h e = absurd (ground arith)
  has_null-refused (entry i (text s) rest) out m n h e =
      let (x, u, e1, e2) =
        >>=-eq-ok (decrypt k s)
          (λ x. decrypt_elements k b rest >>= λ xs. pure (entry i (text x) xs)) m n out e in
      let (xs, v, e3, e4) =
        >>=-eq-ok (decrypt_elements k b rest) (λ xs. pure (entry i (text x) xs)) u n out e2 in
      has_null-refused rest xs u v h e3
  has_null-refused (entry i _ rest) out m n h e = absurd (ground arith)

  -- What was encrypted of an array with a `null` cannot be decrypted, at any time.
  pub null_stays_unreadable :
      (c : Option Class) (name : String) (es os : Entries) (m n later : Memory)
      → has_null es ≡ true
      → encrypt_elements k c name es m ≡ (ok os, n)
      → is_ok (decrypt_elements k b os later).0 ≡ false
  null_stays_unreadable c name es os m n later h e =
      elim (Result-cases (decrypt_elements k b os later).0) [
        | inl (out, e1) ↦ absurd (
            ground (
              arith,
              has_null-refused os out later (decrypt_elements k b os later).1
                  (has_null-encrypt_elements c name es os m n h e)
                  (ap (λ r. (r, (decrypt_elements k b os later).1)) e1),
            ))
        | inr (failure, e1) ↦ rw e1 refl
      ]
