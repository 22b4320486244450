-- ===== src/Crypt/Decryption.antt =====
-- crypt/decryptEntities.ts
use lrzwasnla.Common.{
  String, Bool, true, not, ◌||◌, Option, none, some, List, [], ◌∷◌, ◌===◌, if◌then◌else◌,
}
use lrzwasnla.Common.Exec.{Result, ok, err, Exec, pure, lift, ◌>>=◌}
use lrzwasnla.Errors.{Failure}
use lrzwasnla.Annotations.Classes.{Class}
use lrzwasnla.Annotations.TypeProperty.{is_type_property_many_to_many}
use lrzwasnla.Crypt.{
  Value, undefined, null, boolean, number, text, object_id, array, object, Entries, end, entry,
  Crypto, Memory, is_object_like,
}
use lrzwasnla.Crypt.Names.{should_encrypt_value}
use lrzwasnla.Crypt.Cipher.{decrypt}
use lrzwasnla.Crypt.Encryption.{
  undefined_read, type_name_of, class_named, text_of, array_of, with_class,
}

module _ {Any : Type 0} (k : Crypto Any) (should_decrypt_many_to_many : Bool) where
  -- `decrypt(propertyValue[index])`; `Buffer.from` refuses what is no text
  unfoldable pub decrypt_elements : Entries → Exec Failure Memory Entries
  decrypt_elements end = pure end
  decrypt_elements (entry i (text s) rest) = do
    d ← decrypt k s
    others ← decrypt_elements rest
    pure (entry i (text d) others)
  decrypt_elements (entry i _ rest) = lift (err (undefined_read k "from"))

  -- lines 35 to 42
  unfoldable pub open_texts : Option Class → String → Value → Entries → Exec Failure Memory Entries
  open_texts c name first elements = do
    s ← lift (text_of k c name " must be string array in order to encrypt it" first)
    decrypt_elements elements

  -- lines 34 to 43
  unfoldable pub open_elements :
      Option Class → String → Value → Entries → Exec Failure Memory Entries
  open_elements c name first elements = do
    is_encrypted ← should_encrypt_value k name c
    if is_encrypted then open_texts c name first elements else pure elements

  unfoldable pub open_array : Option Class → String → Value → Entries → Exec Failure Memory Value
  open_array c name first elements = do
    opened ← open_elements c name first elements
    pure (array opened)

  -- lines 59 to 62
  unfoldable pub open_text : Option Class → String → Value → Exec Failure Memory Value
  open_text c name v = do
    s ← lift (text_of k c name " must be string in order to encrypt it" v)
    d ← decrypt k s
    pure (text d)

  -- lines 54 to 63
  unfoldable pub open_single : Option Class → String → Value → Exec Failure Memory Value
  open_single c name v = do
    is_encrypted ← should_encrypt_value k name c
    if is_encrypted then open_text c name v else pure v

  -- `!isManyToMany || isManyToMany && shouldDecryptManyToMany`
  unfoldable pub is_followed : Option Class → String → Bool
  is_followed c name =
      not (is_type_property_many_to_many k.annotations c name) || should_decrypt_many_to_many

  -- The class of a property that has metadata and is followed, and `none` for another.
  unfoldable pub nested_class :
      Bool → Option Class → String → Result Failure (Option (Option Class))
  nested_class followed c name = elim (type_name_of k c name) [
    | err e ↦ err e
    | ok none ↦ ok none
    | ok (some type_name) ↦
        if followed
        then elim (class_named k type_name) [ ok d ↦ ok (some d) | err e ↦ err e ]
        else ok none
  ]

  -- with metadata only
  unfoldable pub when_nested :
      Value
      → (Option Class → Exec Failure Memory Value)
      → Option (Option Class)
      → Exec Failure Memory Value
  when_nested v f none = pure v
  when_nested v f (some d) = f d

  unfoldable pub made : (Entries → Value) → Exec Failure Memory Entries → Exec Failure Memory Value
  made make m = do es ← m; pure (make es)

  unfoldable mutual
    pub decrypt_entity_values : Value → Option Class → Exec Failure Memory Value
    decrypt_entity_values undefined c = lift (err (undefined_read k "entries"))
    decrypt_entity_values null c = pure null
    decrypt_entity_values (boolean b) c = pure (boolean b)
    decrypt_entity_values (number n) c = pure (number n)
    decrypt_entity_values (text s) c = pure (text s)
    decrypt_entity_values (object_id es) c = made object_id (decrypt_entries es c)
    decrypt_entity_values (array es) c = do opened ← decrypt_entries es c; pure (array opened)
    decrypt_entity_values (object es) c = do opened ← decrypt_entries es c; pure (object opened)

    pub decrypt_entries : Entries → Option Class → Exec Failure Memory Entries
    decrypt_entries end c = pure end
    decrypt_entries (entry name v rest) c = do
      w ← decrypt_property name v c
      opened ← decrypt_entries rest c
      pure (entry name w opened)

    pub decrypt_property : String → Value → Option Class → Exec Failure Memory Value
    decrypt_property name null c = pure null
    decrypt_property name undefined c = pure undefined
    decrypt_property name (object_id es) c =
        if name === "_id"
        then open_single c name (object_id es)
        else with_class k (nested_class true c name)
            (when_nested (object_id es) (λ d. made object_id (decrypt_entries es d)))
    decrypt_property name (object es) c =
        if name === "_id"
        then open_single c name (object es)
        else with_class k (nested_class true c name)
            (when_nested (object es) (λ d. made object (decrypt_entries es d)))
    decrypt_property name (array end) c =
        if name === "_id"
        then open_single c name (array end)
        else with_class k (nested_class true c name)
            (when_nested (array end) (λ d. pure (array end)))
    decrypt_property name (array (entry i first rest)) c =
        if is_object_like first
        then with_class k (nested_class (is_followed c name) c name) (
            when_nested (array (entry i first rest))
              (λ d. array_of k i (decrypt_entity_values first d) (decrypt_row_elements rest d)))
        else open_array c name first (entry i first rest)
    decrypt_property name v c = open_single c name v

    pub decrypt_row_elements : Entries → Option Class → Exec Failure Memory Entries
    decrypt_row_elements end c = pure end
    decrypt_row_elements (entry i v rest) c = do
      w ← decrypt_entity_values v c
      others ← decrypt_row_elements rest c
      pure (entry i w others)

  unfoldable pub decrypt_entities : List Value → Class → Exec Failure Memory (List Value)
  decrypt_entities [] c = pure []
  decrypt_entities (entity ∷ rest) c = do
    opened ← decrypt_entity_values entity (some c)
    others ← decrypt_entities rest c
    pure (opened ∷ others)
