-- ===== src/Crypt.antt =====
-- crypt/: how the values of an entity are hashed and encrypted before they are stored, and
-- decrypted when they are read.
pub mod Names
pub mod Cipher
pub mod Encryption
pub mod Decryption
pub mod Chains
pub mod Keys
pub mod Fits
pub mod Properties
pub mod Texts
pub mod Nested
pub mod Nulls
pub mod Fitting
pub mod RoundTrip
pub mod Tests
use lrzwasnla.Common.{ℕ, String, Bool, true, false, Option, Dict, ℤ, Text}
use lrzwasnla.Common.Exec.{Result}
use lrzwasnla.Errors.{Failure, Error}
use lrzwasnla.Annotations.Classes.{Class}
use lrzwasnla.Annotations.TypeProperty.{TypePropertyAnnotationContainer}

-- The value of a property. The elements of an array are entries under their indexes; an object
-- without entries of its own is a date too.
mutual
  pub data Value : Type 0 where
    undefined null : Value
    boolean : Bool → Value
    number : ℤ → Value
    text : Text → Value
    object_id : Entries → Value
    array : Entries → Value
    object : Entries → Value

  -- `Object.entries(value)`
  pub data Entries : Type 0 where
    end : Entries
    entry : String → Value → Entries → Entries

-- The environment, the modules `crypto`, `argon2` and `re2`, the conversions of `Buffer`, and what
-- a microservice says of its classes. `random_bytes` and `argon2_hash` take the number of draws
-- before.
pub record Crypto (Any : Type 0) : Type 0 where
  pub encryption_key : Option Text
  pub node_env : Option String
  pub stack : Option Text
  pub type_error : String → Error
  pub matches : String → Text → Bool
  pub random_bytes : ℕ → Text
  pub cipher : Text → Text → Text → Result Failure (Text × Text)
  pub decipher : Text → Text → Text → Result Failure (Text × Text)
  pub argon2_hash : ℕ → Text → Result Failure Text
  pub to_utf8 : Text → Text
  pub from_utf8 : Text → Text
  pub to_base64 : Text → Text
  pub from_base64 : Text → Text
  pub annotations : TypePropertyAnnotationContainer Any
  -- `getClassPropertyNameToPropertyTypeNameMap`
  pub metadata : Class → Dict Text
  -- `Types[name]`
  pub types : Text → Option Class

-- What outlives a call: the answers that were kept, and how many draws there were.
pub record Memory : Type 0 where
  pub should_encrypt_value_map : Dict Bool
  pub drawn : ℕ

-- `typeof value === 'object' && value !== null`
unfoldable pub is_object_like : Value → Bool
is_object_like (object_id _) = true
is_object_like (array _) = true
is_object_like (object _) = true
is_object_like _ = false
