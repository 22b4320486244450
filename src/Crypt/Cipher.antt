-- ===== src/Crypt/Cipher.antt =====
-- crypt/encrypt.ts, decrypt.ts and hash.ts
use lrzwasnla.Common.{
  suc, Bool, true, false, none, some, String, List, [], ◌∷◌, ◌++◌, Text, codes, take, drop, length,
  starts_with, ltb, ◌==◌, default_to, if◌then◌else◌,
}
use lrzwasnla.Common.Exec.{Result, ok, err, Exec, pure, lift, ◌>>=◌}
use lrzwasnla.Errors.{Failure, plain, is_set_to}
use lrzwasnla.TypeNames.{between}
use lrzwasnla.Validation.{has_at_most_repeating_or_consecutive_characters}
use lrzwasnla.Crypt.{Crypto, Memory}

-- the prefix of a value that `hash` made, and the length of what follows it
abbrev pub hash_prefix : Text
hash_prefix = codes "$argon2id$v=19$m=4096,t=5,p=1"

-- `value.split(prefix)[1].length === 67`, of a value that starts with the prefix
unfoldable pub is_hash : Text → Bool
is_hash value =
    if starts_with value hash_prefix
    then length (default_to [] (between hash_prefix value)) == 67
    else false

module _ {Any : Type 0} (k : Crypto Any) where
  unfoldable pub failure : String → Failure
  failure message = plain (record { message = codes message; stack = k.stack })

  -- The guards on the key that `encrypt` and `decrypt` share, with the message on a short one; an
  -- empty key is none.
  unfoldable pub encryption_key : String → Result Failure Text
  encryption_key too_short = elim k.encryption_key [
    | none ↦ err (failure "Encryption key must be provided environment variable ENCRYPTION_KEY")
    | some [] ↦ err (failure "Encryption key must be provided environment variable ENCRYPTION_KEY")
    | some (c ∷ key) ↦ if ltb (length (c ∷ key)) 32 then err (failure too_short) else ok (c ∷ key)
  ]

  -- lines 17 to 25 of encrypt.ts
  unfoldable pub check_kinds : List String → Text → Result Failure (Unit {0})
  check_kinds [] key = ok tt
  check_kinds (reg_exp ∷ rest) key =
      if k.matches reg_exp key
      then check_kinds rest key
      else err (
          failure
            "Encryption key, as given in environment variable ENCRYPTION_KEY, must contain at least one lowercase character, one uppercase character and one number.")

  -- lines 27 to 31 of encrypt.ts
  unfoldable pub check_runs : Text → Result Failure (Unit {0})
  check_runs key = elim (has_at_most_repeating_or_consecutive_characters k.stack key 3) [
    | err e ↦ err e
    | ok true ↦ ok tt
    | ok false ↦ err (
        failure
          "Encryption key, as given in environment variable ENCRYPTION_KEY, cannot have more than 3 alphabetically consecutive letters or numerically consecutive digits (e.g. abcd and 1234 are prohibited). Encryption key may not contain more than 3 repeating characters/numbers (e.g. 1111 and aaaa are prohibited). Encryption key may not contain more than 4 keyboard layout consecutive characters, e.g. qwert and asdf are prohibited")
  ]

  -- lines 16 to 32 of encrypt.ts
  unfoldable pub check_strength : Text → Result Failure (Unit {0})
  check_strength key =
      if is_set_to k.node_env "production"
      then elim (check_kinds ("[a-z]+" ∷ "[A-Z]+" ∷ "\\d+" ∷ []) key) [
        | ok u ↦ check_runs key
        | err e ↦ err e
      ]
      else ok tt

  -- `randomBytes(16)`
  unfoldable pub draw : Exec Failure Memory Text
  draw m = pure (k.random_bytes m.drawn) (record m { drawn = suc m.drawn })

  unfoldable pub initialization_vector : Bool → Text → Exec Failure Memory Text
  initialization_vector true key = draw
  initialization_vector false key = pure (k.to_utf8 (take 16 key))

  -- `Buffer.concat([initializationVector, encryptedValue, finalValue]).toString('base64')`
  unfoldable pub packed : Text → Text × Text → Text
  packed vector (update, final) = k.to_base64 (vector ++ (update ++ final))

  unfoldable pub encrypt : Text → Bool → Exec Failure Memory Text
  encrypt value is_random = do
    key ← lift (
        encryption_key
          "Encryption key must be 32 characters long as given in environment variable ENCRYPTION_KEY")
    checked ← lift (check_strength key)
    vector ← initialization_vector is_random key
    parts ← lift (k.cipher (take 32 key) vector (k.to_utf8 value))
    pure (packed vector parts)

  -- The two parts are decoded apart.
  unfoldable pub decrypt : Text → Exec Failure Memory Text
  decrypt encrypted = do
    key ← lift (encryption_key "Encryption key must be 32 characters long")
    parts ← lift (
        k.decipher (take 32 key) (take 16 (k.from_base64 encrypted))
          (drop 16 (k.from_base64 encrypted)))
    pure (k.from_utf8 parts.0 ++ k.from_utf8 parts.1)

  unfoldable pub hash : Text → Exec Failure Memory Text
  hash value m =
      if is_hash value
      then pure value m
      else lift (k.argon2_hash m.drawn value) (record m { drawn = suc m.drawn })
