-- ===== src/Crypt/Keys.antt =====
-- crypt/encrypt.ts, decrypt.ts and hash.ts: what was encrypted can be decrypted, and what was hashed
-- is not hashed again.
use lrzwasnla.Common.{
  ℕ, zero, suc, Bool, true, false, ◌&&◌, [], ◌∷◌, ◌++◌, String, Text, take, drop, length, leb,
  Bool-cases, Option-cases, inl, inr, ◌≡◌, refl, ap, arith,
}
use lrzwasnla.Common.Exec.{ok}
use lrzwasnla.Validation.{has_at_most_repeating_or_consecutive_characters}
use lrzwasnla.Crypt.{Crypto, Memory}
use lrzwasnla.Crypt.Cipher.{
  encryption_key, check_runs, check_strength, draw, initialization_vector, packed, encrypt, decrypt,
  is_hash, hash,
}
use lrzwasnla.Crypt.Chains.{Yields, Gives}

-- characters of one byte
abbrev pub is_ascii : Text → Bool
is_ascii [] = true
is_ascii (c ∷ s) = leb c 127 && is_ascii s

-- What the code relies on: a key in the environment that passes the guards, vectors of 16 bytes,
-- and, of `crypto` and `Buffer`, that each decoder undoes its encoder; `update` and `final`
-- give the deciphered bytes in two parts, and each byte of an ASCII text is decoded alone.
pub record IsWorking {Any : Type 0} (k : Crypto Any) (secret : Text) : Type 0 where
  pub has_key : (message : String) → encryption_key k message ≡ ok secret
  pub has_strength : check_strength k secret ≡ ok tt
  pub has_random_vector : (n : ℕ) → length (k.random_bytes n) ≡ 16
  pub has_fixed_vector : length (k.to_utf8 (take 16 secret)) ≡ 16
  pub parts : Text → Text → Text × Text
  pub opened : Text → Text → Text × Text
  pub has_cipher :
      (vector bytes : Text)
      → length vector ≡ 16
      → k.cipher (take 32 secret) vector bytes ≡ ok (parts vector bytes)
  pub has_decipher :
      (vector bytes : Text)
      → length vector ≡ 16
      → k.decipher (take 32 secret) vector ((parts vector bytes).0 ++ (parts vector bytes).1)
        ≡ ok (opened vector bytes)
  pub has_opened :
      (vector bytes : Text) → (opened vector bytes).0 ++ (opened vector bytes).1 ≡ bytes
  pub has_base64 : (bytes : Text) → k.from_base64 (k.to_base64 bytes) ≡ bytes
  pub has_ascii :
      (s a b : Text) → is_ascii s ≡ true → a ++ b ≡ k.to_utf8 s → k.from_utf8 a ++ k.from_utf8 b ≡ s

take-append : (n : ℕ) (s t : Text) → length s ≡ n → take n (s ++ t) ≡ s
take-append zero [] t h = refl
take-append zero (c ∷ s) t h = absurd (ground arith)
take-append (suc n) [] t h = absurd (ground arith)
take-append (suc n) (c ∷ s) t h = ap (λ r. c ∷ r) (take-append n s t (ground arith))

drop-append : (n : ℕ) (s t : Text) → length s ≡ n → drop n (s ++ t) ≡ t
drop-append zero [] t h = refl
drop-append zero (c ∷ s) t h = absurd (ground arith)
drop-append (suc n) [] t h = absurd (ground arith)
drop-append (suc n) (c ∷ s) t h = drop-append n s t (ground arith)

module _ {Any : Type 0} (k : Crypto Any) (secret : Text) (w : IsWorking k secret) where
  decrypt-packed :
      (vector s : Text)
      → length vector ≡ 16
      → is_ascii s ≡ true
      → (m : Memory) → decrypt k (packed k vector (w.parts vector (k.to_utf8 s))) m ≡ (ok s, m)
  unfolding decrypt packed
  decrypt-packed vector s long ascii m =
      let bytes = (w.parts vector (k.to_utf8 s)).0 ++ (w.parts vector (k.to_utf8 s)).1 in
      rw
        (
          w.has_key "Encryption key must be 32 characters long",
          w.has_base64 (vector ++ bytes),
          take-append 16 vector bytes long,
          drop-append 16 vector bytes long,
          w.has_decipher vector (k.to_utf8 s) long,
          w.has_ascii s (w.opened vector (k.to_utf8 s)).0 (w.opened vector (k.to_utf8 s)).1 ascii
              (w.has_opened vector (k.to_utf8 s)),
        )
        refl

  -- A chain behind a vector of 16 bytes.
  module _ (s : Text) (ascii : is_ascii s ≡ true) where
    pub encrypt_random :
        (m : Memory)
        → encrypt k s true m ≡ (
          ok (packed k (k.random_bytes m.drawn) (w.parts (k.random_bytes m.drawn) (k.to_utf8 s))),
          record m { drawn = suc m.drawn },
        )
    unfolding encrypt initialization_vector draw
    encrypt_random m =
        rw
          (
            w.has_key
                "Encryption key must be 32 characters long as given in environment variable ENCRYPTION_KEY",
            w.has_strength,
            w.has_cipher (k.random_bytes m.drawn) (k.to_utf8 s) (w.has_random_vector m.drawn),
          )
          refl

    pub encrypt_fixed :
        (m : Memory)
        → encrypt k s false m ≡ (
          ok (
              packed k
                (k.to_utf8 (take 16 secret))
                (w.parts (k.to_utf8 (take 16 secret)) (k.to_utf8 s))),
          m,
        )
    unfolding encrypt initialization_vector
    encrypt_fixed m =
        rw
          (
            w.has_key
                "Encryption key must be 32 characters long as given in environment variable ENCRYPTION_KEY",
            w.has_strength,
            w.has_cipher (k.to_utf8 (take 16 secret)) (k.to_utf8 s) w.has_fixed_vector,
          )
          refl

  encrypted_opens :
      (s : Text)
      → is_ascii s ≡ true
      → (is_random : Bool) → (m : Memory)
      → (t : Text) × (n : Memory) × (encrypt k s is_random m ≡ (ok t, n))
        × (n.should_encrypt_value_map ≡ m.should_encrypt_value_map)
        × ((later : Memory) → decrypt k t later ≡ (ok s, later))
  encrypted_opens s ascii true m = (
    packed k (k.random_bytes m.drawn) (w.parts (k.random_bytes m.drawn) (k.to_utf8 s)),
    record m { drawn = suc m.drawn },
    encrypt_random s ascii m,
    refl,
    decrypt-packed (k.random_bytes m.drawn) s (w.has_random_vector m.drawn) ascii,
  )
  encrypted_opens s ascii false m = (
    packed k (k.to_utf8 (take 16 secret)) (w.parts (k.to_utf8 (take 16 secret)) (k.to_utf8 s)),
    m,
    encrypt_fixed s ascii m,
    refl,
    decrypt-packed (k.to_utf8 (take 16 secret)) s w.has_fixed_vector ascii,
  )

  module _ (g : String → Bool) where
    pub encrypt-Yields :
        (s : Text)
        → is_ascii s ≡ true
        → (is_random : Bool) → Yields g (encrypt k s is_random) (λ t. Gives g (decrypt k t) s)
    encrypt-Yields s ascii is_random m sound =
        let (t, n, e, kept, opens) = encrypted_opens s ascii is_random m in
        (
          t,
          n,
          e,
          λ j b h. sound j b (rw (← kept) h),
          λ later sound1. (s, later, opens later, sound1, refl),
        )

    pub hash-Gives : (s : Text) → is_hash s ≡ true → Gives g (hash k s) s
    unfolding hash
    hash-Gives s h m sound = (s, m, rw h refl, sound, refl)

-- With a key that passes the guards, and a cipher whose decoders undo its encoders, an ASCII text
-- is encrypted, with a random vector or the fixed one, into a text that `decrypt` turns back,
-- whatever is remembered by then; what is remembered of names stays as it was.
pub decrypt-encrypt :
    {Any : Type 0} (k : Crypto Any) (secret : Text)
    → IsWorking k secret
    → (s : Text) → is_ascii s ≡ true
    → (is_random : Bool) (m later : Memory)
    → (t : Text) × (n : Memory) × (encrypt k s is_random m ≡ (ok t, n))
      × (n.should_encrypt_value_map ≡ m.should_encrypt_value_map)
      × (decrypt k t later ≡ (ok s, later))
decrypt-encrypt k secret works s ascii is_random m later =
    let (t, n, e, kept, opens) = encrypted_opens k secret works s ascii is_random m in
    (t, n, e, kept, opens later)

-- Where each text that `argon2` makes has its documented form, hashing what `hash` returned
-- returns the same text again, at any time.
hash-hash :
    {Any : Type 0} (k : Crypto Any)
    → ((n : ℕ) (s h : Text) → k.argon2_hash n s ≡ ok h → is_hash h ≡ true)
    → (s h : Text) (m n later : Memory) → hash k s m ≡ (ok h, n)
    → hash k h later ≡ (ok h, later)
unfolding hash
hash-hash k form s h m n later e = elim (Bool-cases (is_hash s)) [
  | inl hashed ↦ ground arith
  | inr fresh ↦ rw (form m.drawn s h (ground arith)) refl
]

-- A key that is long enough for `encrypt` passes the guard against repetitions whatever it
-- repeats.
pub check_runs-encryption_key :
    {Any : Type 0} (k : Crypto Any) (message : String) (key : Text)
    → encryption_key k message ≡ ok key
    → check_runs k key ≡ ok tt
unfolding encryption_key check_runs has_at_most_repeating_or_consecutive_characters
check_runs-encryption_key k message key h = elim (Option-cases k.encryption_key) [
  | inl e ↦ absurd (ground arith)
  | inr ([], e) ↦ absurd (ground arith)
  | inr (c ∷ t, e) ↦ ground (arith, e)
]
