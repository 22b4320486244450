-- ===== src/Crypt/Tests.antt =====
-- Users whose city is encrypted and whose password is hashed, under a cipher that changes nothing.
use lrzwasnla.Common.{
  ℕ, String, Bool, true, false, none, some, [], ◌∷◌, ◌++◌, ◌≡◌, refl, inl, inr, Text, codes, ◌===◌,
  at, arith, ap,
}
use lrzwasnla.Common.Exec.{ok, is_ok}
use lrzwasnla.TypeNames.{
  get_type_info_for_type_name, read_element, read_base, check_base, without_array,
  without_parentheses, ends_with, has_part, between, before,
}
use lrzwasnla.Validation.{has_at_most_repeating_or_consecutive_characters}
use lrzwasnla.Annotations.Classes.{Class, nearest}
use lrzwasnla.Annotations.TypeProperty.{
  empty, is_type_property_encrypted, is_type_property_not_encrypted, is_type_property_hashed,
  is_type_property_not_hashed,
}
use lrzwasnla.Crypt.{Value, null, text, object, end, entry, Crypto, Memory}
use lrzwasnla.Crypt.Names.{
  is_to_be_encrypted, is_not_encrypted, is_encrypted, is_sensitive_name, should_hash_value,
  should_encrypt_value,
}
use lrzwasnla.Crypt.Cipher.{
  encryption_key, check_kinds, check_strength, initialization_vector, draw, packed, check_runs,
  encrypt, decrypt, is_hash,
}
use lrzwasnla.Crypt.Encryption.{
  class_of_property, type_name_of, class_named, hash_and_encrypt_entity, encrypt_elements,
}
use lrzwasnla.Crypt.Decryption.{decrypt_entity_values, decrypt_elements}
use lrzwasnla.Crypt.Chains.{IsSound, should_encrypt_value-IsSound}
use lrzwasnla.Crypt.Keys.{IsWorking, decrypt-encrypt, check_runs-encryption_key}
use lrzwasnla.Crypt.Nulls.{null_stays_unreadable}
use lrzwasnla.Crypt.Fits.{FitsEntity}
use lrzwasnla.Crypt.RoundTrip.{decrypt_entity_values-hash_and_encrypt_entity}

abbrev secret : Text
secret = codes "aaaaaaaaaaaaaaaaaaaaaaaaaaaaaaaa"

abbrev sixteen : ℕ → Text
sixteen n = n ∷ n ∷ n ∷ n ∷ n ∷ n ∷ n ∷ n ∷ n ∷ n ∷ n ∷ n ∷ n ∷ n ∷ n ∷ n ∷ []

abbrev some_hash : Text
some_hash =
    codes
      "$argon2id$v=19$m=4096,t=5,p=1xxxxxxxxxxxxxxxxxxxxxxxxxxxxxxxxxxxxxxxxxxxxxxxxxxxxxxxxxxxxxxxxxxx"

abbrev user : Class
user = record { name = "User"; parents = [] }

abbrev toy : Crypto (Unit {0})
toy = record {
  encryption_key = some secret;
  node_env = some "production";
  stack = none;
  type_error = λ name. record { message = codes "TypeError"; stack = none };
  matches = λ pattern s. true;
  random_bytes = sixteen;
  cipher = λ secret vector bytes. ok (bytes, []);
  decipher = λ secret vector bytes. ok (bytes, []);
  argon2_hash = λ n s. ok some_hash;
  to_utf8 = λ s. s;
  from_utf8 = λ s. s;
  to_base64 = λ s. s;
  from_base64 = λ s. s;
  annotations = empty;
  metadata =
      λ c. ("city", codes "string") ∷ ("password", codes "string") ∷ ("friend", codes "User") ∷ [];
  types = λ name. some user;
}

append_nil : (s : Text) → s ++ [] ≡ s
append_nil [] = refl
append_nil (c ∷ s) = ap (λ t. c ∷ t) (append_nil s)

toy-check_strength : check_strength toy secret ≡ ok tt
unfolding check_strength check_kinds check_runs has_at_most_repeating_or_consecutive_characters
toy-check_strength = refl

toy-IsWorking : IsWorking toy secret
unfolding encryption_key
toy-IsWorking = record {
  has_key = λ message. refl;
  has_strength = toy-check_strength;
  has_random_vector = λ n. refl;
  has_fixed_vector = refl;
  parts = λ vector bytes. (bytes, []);
  opened = λ vector bytes. (bytes, []);
  has_cipher = λ vector bytes h. refl;
  has_decipher = λ vector bytes h. ap (λ t. ok (t, [])) (append_nil bytes);
  has_opened = λ vector bytes. append_nil bytes;
  has_base64 = λ bytes. refl;
  has_ascii = λ s a b h e. e;
}

abbrev nothing : Memory
nothing = record { should_encrypt_value_map = []; drawn = 0 }

decrypt-encrypt_example :
    (t : Text) × (n : Memory) × (encrypt toy (codes "Oslo") true nothing ≡ (ok t, n))
    × (n.should_encrypt_value_map ≡ [])
    × (decrypt toy t nothing ≡ (ok (codes "Oslo"), nothing))
decrypt-encrypt_example =
    decrypt-encrypt toy secret toy-IsWorking (codes "Oslo") refl true nothing nothing

some_hash-is_hash : is_hash some_hash ≡ true
unfolding is_hash between before
some_hash-is_hash = refl

check_runs-encryption_key_example : check_runs toy secret ≡ ok tt
unfolding encryption_key
check_runs-encryption_key_example = check_runs-encryption_key toy "short" secret refl

abbrev cities : String → Bool
cities j = j === "Usercity"

nothing-IsSound : IsSound cities nothing
unfolding at
nothing-IsSound j b h = absurd (ground arith)

city : is_to_be_encrypted toy "city" (some user) ≡ true
unfolding is_to_be_encrypted is_not_encrypted is_encrypted is_sensitive_name
    is_type_property_encrypted is_type_property_not_encrypted nearest at ends_with has_part
city = refl

should_encrypt_value-IsSound_example :
    (n : Memory) × (should_encrypt_value toy "city" (some user) nothing
      ≡ (ok (is_to_be_encrypted toy "city" (some user)), n))
    × IsSound cities n
should_encrypt_value-IsSound_example =
    should_encrypt_value-IsSound cities toy "city" user nothing city nothing-IsSound

abbrev person : Value
person = object (
    entry "city" (text (codes "Oslo")) (
      entry "password" (text some_hash)
        (entry "friend" (object (entry "city" (text (codes "Bergen")) end)) end)))

person-Fits : FitsEntity toy true cities person (some user)
unfolding FitsEntity should_hash_value is_to_be_encrypted is_not_encrypted is_encrypted
    is_sensitive_name is_type_property_encrypted is_type_property_not_encrypted
    is_type_property_hashed is_type_property_not_hashed nearest at ends_with has_part
    class_of_property type_name_of class_named get_type_info_for_type_name read_element read_base
    check_base without_array before without_parentheses
person-Fits = (
  inr (inr ((refl, refl, refl), refl)),
  (
    inr (inl ((refl, refl, refl), some_hash-is_hash)),
    ((refl, (some user, refl, (inr (inr ((refl, refl, refl), refl)), tt))), tt),
  ),
)

decrypt_entity_values-hash_and_encrypt_entity_example :
    (hidden : Value) × (n : Memory) × (last : Memory) × (hash_and_encrypt_entity toy person user
        nothing
      ≡ (ok hidden, n))
    × IsSound cities n
    × (decrypt_entity_values toy true hidden (some user) nothing ≡ (ok person, last))
decrypt_entity_values-hash_and_encrypt_entity_example =
    decrypt_entity_values-hash_and_encrypt_entity toy true cities secret toy-IsWorking person user
      person-Fits nothing nothing nothing-IsSound nothing-IsSound

oslo :
    encrypt_elements toy
      (some user)
      "city"
      (entry "0" (text (codes "Oslo")) (entry "1" null end))
      nothing
    ≡ (
      ok (entry "0" (text (sixteen 0 ++ codes "Oslo")) (entry "1" null end)),
      record { should_encrypt_value_map = []; drawn = 1 },
    )
unfolding encrypt_elements encrypt encryption_key check_strength check_kinds check_runs
    has_at_most_repeating_or_consecutive_characters initialization_vector draw packed
oslo = refl

null_stays_unreadable_example :
    is_ok
      (decrypt_elements toy true
        (entry "0" (text (sixteen 0 ++ codes "Oslo")) (entry "1" null end))
        nothing).0
    ≡ false
null_stays_unreadable_example =
    null_stays_unreadable toy true (some user) "city"
      (entry "0" (text (codes "Oslo")) (entry "1" null end))
      (entry "0" (text (sixteen 0 ++ codes "Oslo")) (entry "1" null end)) nothing
      (record { should_encrypt_value_map = []; drawn = 1 }) nothing refl oslo
