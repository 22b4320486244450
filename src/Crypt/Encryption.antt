-- ===== src/Crypt/Encryption.antt =====
-- crypt/hashAndEncryptEntity.ts. The properties are handled one after the other, in their order;
-- the code awaits them together, and each writes its own property only.
use lrzwasnla.Common.{
  String, true, Option, none, some, [], ◌∷◌, ◌++◌, Text, codes, at, if◌then◌else◌,
}
use lrzwasnla.Common.Exec.{Result, ok, err, Exec, pure, lift, ◌>>=◌}
use lrzwasnla.Errors.{Failure, plain}
use lrzwasnla.TypeNames.{get_type_info_for_type_name}
use lrzwasnla.Annotations.Classes.{Class}
use lrzwasnla.Crypt.{
  Value, undefined, null, boolean, number, text, object_id, array, object, Entries, end, entry,
  Crypto, Memory, is_object_like,
}
use lrzwasnla.Crypt.Names.{
  should_encrypt_value, should_hash_value, should_use_random_initialization_vector,
}
use lrzwasnla.Crypt.Cipher.{encrypt, hash}

module _ {Any : Type 0} (k : Crypto Any) where
  unfoldable pub undefined_read : String → Failure
  undefined_read name = plain (k.type_error name)

  -- `getClassPropertyNameToPropertyTypeNameMap(EntityClass)[propertyName]`
  unfoldable pub type_name_of : Option Class → String → Result Failure (Option Text)
  type_name_of none name = err (undefined_read "name")
  type_name_of (some c) name = ok (at (k.metadata c) name)

  -- `Types[getTypeInfoForTypeName(typeName).baseTypeName]`
  unfoldable pub class_named : Text → Result Failure (Option Class)
  class_named type_name = elim (get_type_info_for_type_name k.stack type_name) [
    | ok info ↦ ok (k.types info.base_type_name)
    | err e ↦ err e
  ]

  -- of a property without metadata, `undefined` is read as the name of a type
  unfoldable pub class_of_property : Option Class → String → Result Failure (Option Class)
  class_of_property c name = elim (type_name_of c name) [
    | err e ↦ err e
    | ok none ↦ err (undefined_read "startsWith")
    | ok (some type_name) ↦ class_named type_name
  ]

  -- `EntityClass.name + '.' + propertyName + message`
  unfoldable pub refuse_property : {A : Type 0} → Option Class → String → String → Result Failure A
  refuse_property none name message = err (undefined_read "name")
  refuse_property (some c) name message = err (
      plain (record {
        message = codes c.name ++ codes "." ++ codes name ++ codes message;
        stack = k.stack;
      }))

  -- lines 29 to 38
  unfoldable pub hash_elements : Option Class → String → Entries → Exec Failure Memory Entries
  hash_elements c name end = pure end
  hash_elements c name (entry i null rest) = do
    hashed ← hash_elements c name rest
    pure (entry i null hashed)
  hash_elements c name (entry i (text s) rest) = do
    h ← hash k s
    hashed ← hash_elements c name rest
    pure (entry i (text h) hashed)
  hash_elements c name (entry i _ rest) =
      lift (refuse_property c name " must be string array in order to hash it")

  -- lines 40 to 49
  unfoldable pub encrypt_elements : Option Class → String → Entries → Exec Failure Memory Entries
  encrypt_elements c name end = pure end
  encrypt_elements c name (entry i null rest) = do
    encrypted ← encrypt_elements c name rest
    pure (entry i null encrypted)
  encrypt_elements c name (entry i (text s) rest) = do
    e ← encrypt k s true
    encrypted ← encrypt_elements c name rest
    pure (entry i (text e) encrypted)
  encrypt_elements c name (entry i _ rest) =
      lift (refuse_property c name " must be string array in order to encrypt it")

  -- lines 39 to 50
  unfoldable pub encrypt_if_asked : Option Class → String → Entries → Exec Failure Memory Entries
  encrypt_if_asked c name elements = do
    is_encrypted ← should_encrypt_value k name c
    if is_encrypted then encrypt_elements c name elements else pure elements

  -- lines 28 to 50, of an array that does not start with an object
  unfoldable pub protect_elements : Option Class → String → Entries → Exec Failure Memory Entries
  protect_elements c name elements = do
    is_hashed ← lift (should_hash_value k name c)
    if is_hashed then hash_elements c name elements else encrypt_if_asked c name elements

  unfoldable pub protect_array : Option Class → String → Entries → Exec Failure Memory Value
  protect_array c name elements = do hidden ← protect_elements c name elements; pure (array hidden)

  -- `typeof propertyValue !== 'string'`
  unfoldable pub text_of : Option Class → String → String → Value → Result Failure Text
  text_of c name message (text s) = ok s
  text_of c name message _ = refuse_property c name message

  -- lines 72 to 75
  unfoldable pub encrypt_text : Option Class → String → Value → Exec Failure Memory Value
  encrypt_text c name v = do
    s ← lift (text_of c name " must be string in order to encrypt it" v)
    e ← encrypt k s (should_use_random_initialization_vector name)
    pure (text e)

  -- lines 71 to 76
  unfoldable pub encrypt_single : Option Class → String → Value → Exec Failure Memory Value
  encrypt_single c name v = do
    is_encrypted ← should_encrypt_value k name c
    if is_encrypted then encrypt_text c name v else pure v

  -- lines 67 to 70
  unfoldable pub hash_text : Option Class → String → Value → Exec Failure Memory Value
  hash_text c name v = do
    s ← lift (text_of c name " must be string in order to hash it" v)
    h ← hash k s
    pure (text h)

  -- lines 62 to 76, of a value that is no object and not `null`
  unfoldable pub protect_single : Option Class → String → Value → Exec Failure Memory Value
  protect_single c name v = do
    is_hashed ← lift (should_hash_value k name c)
    if is_hashed then hash_text c name v else encrypt_single c name v

  unfoldable pub with_class :
      {X : Type 0} → Result Failure X → (X → Exec Failure Memory Value) → Exec Failure Memory Value
  with_class r f = lift r >>= f

  -- an array of entities: lines 20 to 27
  unfoldable pub array_of :
      String → Exec Failure Memory Value → Exec Failure Memory Entries → Exec Failure Memory Value
  array_of i first rest = do v ← first; others ← rest; pure (array (entry i v others))

  -- An element of an array that starts with an object; a text is read as its characters, whose
  -- indexes are the names of no property.
  unfoldable mutual
    pub hash_or_encrypt_entity_values : Value → Option Class → Exec Failure Memory Value
    hash_or_encrypt_entity_values undefined c = lift (err (undefined_read "entries"))
    hash_or_encrypt_entity_values null c = lift (err (undefined_read "entries"))
    hash_or_encrypt_entity_values (boolean b) c = pure (boolean b)
    hash_or_encrypt_entity_values (number n) c = pure (number n)
    hash_or_encrypt_entity_values (text []) c = pure (text [])
    hash_or_encrypt_entity_values (text (x ∷ s)) none = lift (err (undefined_read "constructor"))
    hash_or_encrypt_entity_values (text (x ∷ s)) (some c) = pure (text (x ∷ s))
    hash_or_encrypt_entity_values (object_id es) c = do
      hidden ← hash_or_encrypt_entries es c
      pure (object_id hidden)
    hash_or_encrypt_entity_values (array es) c = do
      hidden ← hash_or_encrypt_entries es c
      pure (array hidden)
    hash_or_encrypt_entity_values (object es) c = do
      hidden ← hash_or_encrypt_entries es c
      pure (object hidden)

    pub hash_or_encrypt_entries : Entries → Option Class → Exec Failure Memory Entries
    hash_or_encrypt_entries end c = pure end
    hash_or_encrypt_entries (entry name v rest) c = do
      w ← hash_or_encrypt_property name v c
      hidden ← hash_or_encrypt_entries rest c
      pure (entry name w hidden)

    pub hash_or_encrypt_property : String → Value → Option Class → Exec Failure Memory Value
    hash_or_encrypt_property name null c = pure null
    hash_or_encrypt_property name (object_id es) c = encrypt_single c name (object_id es)
    hash_or_encrypt_property name (object es) c = do
      d ← lift (class_of_property c name)
      hidden ← hash_or_encrypt_entries es d
      pure (object hidden)
    hash_or_encrypt_property name (array end) c = do
      d ← lift (class_of_property c name)
      pure (array end)
    hash_or_encrypt_property name (array (entry i first rest)) c =
        if is_object_like first
        then with_class (class_of_property c name) (λ d.
          array_of i (hash_or_encrypt_entity_values first d) (hash_or_encrypt_elements rest d))
        else protect_array c name (entry i first rest)
    hash_or_encrypt_property name v c = protect_single c name v

    -- the rest of an array that starts with an object
    pub hash_or_encrypt_elements : Entries → Option Class → Exec Failure Memory Entries
    hash_or_encrypt_elements end c = pure end
    hash_or_encrypt_elements (entry i v rest) c = do
      w ← hash_or_encrypt_entity_values v c
      others ← hash_or_encrypt_elements rest c
      pure (entry i w others)

  unfoldable pub hash_and_encrypt_entity : Value → Class → Exec Failure Memory Value
  hash_and_encrypt_entity entity c = hash_or_encrypt_entity_values entity (some c)
