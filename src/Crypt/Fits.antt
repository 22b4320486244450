-- ===== src/Crypt/Fits.antt =====
-- crypt/: the entities whose values come back as they were. A hashed text has to be the hash
-- already, an encrypted text has to be ASCII, and neither may be both.
use lrzwasnla.Common.{String, Bool, true, false, Option, none, some, ◌≡◌, ◌⊎◌, ◌===◌, Text, [], ◌∷◌}
use lrzwasnla.Common.Exec.{ok}
use lrzwasnla.Annotations.Classes.{Class}
use lrzwasnla.Crypt.{
  Value, undefined, null, boolean, number, text, object_id, array, object, Entries, end, entry,
  Crypto, is_object_like,
}
use lrzwasnla.Crypt.Names.{is_to_be_encrypted, should_hash_value}
use lrzwasnla.Crypt.Cipher.{is_hash}
use lrzwasnla.Crypt.Encryption.{class_of_property}
use lrzwasnla.Crypt.Decryption.{is_followed}
use lrzwasnla.Crypt.Chains.{IsAsked}
use lrzwasnla.Crypt.Keys.{is_ascii}

-- Each element is a text that passes, or `null` where that is allowed.
abbrev pub is_all_texts : Bool → (Text → Bool) → Entries → Bool
is_all_texts allows_null test end = true
is_all_texts allows_null test (entry i null rest) = elim allows_null [
  | true ↦ is_all_texts allows_null test rest
  | false ↦ false
]
is_all_texts allows_null test (entry i (text s) rest) = elim (test s) [
  | true ↦ is_all_texts allows_null test rest
  | false ↦ false
]
is_all_texts allows_null test (entry i _ rest) = false

module _ {Any : Type 0} (k : Crypto Any) (b : Bool) (g : String → Bool) where
  -- nothing is done to the property
  abbrev pub IsPlain : String → Class → Type 0
  IsPlain name c =
      (should_hash_value k name (some c) ≡ ok false)
      × (is_to_be_encrypted k name (some c) ≡ false)
      × IsAsked g k name c

  abbrev pub IsHashed : String → Class → Type 0
  IsHashed name c =
      (should_hash_value k name (some c) ≡ ok true)
      × (is_to_be_encrypted k name (some c) ≡ false)
      × IsAsked g k name c

  abbrev pub IsEncrypted : String → Class → Type 0
  IsEncrypted name c =
      (should_hash_value k name (some c) ≡ ok false)
      × (is_to_be_encrypted k name (some c) ≡ true)
      × IsAsked g k name c

  abbrev pub FitsText : String → Class → Text → Type 0
  FitsText name c s =
      IsPlain name c
      ⊎ ((IsHashed name c × (is_hash s ≡ true)) ⊎ (IsEncrypted name c × (is_ascii s ≡ true)))

  -- an array that does not start with an object
  abbrev pub FitsTexts : String → Class → Entries → Type 0
  FitsTexts name c es =
      IsPlain name c
      ⊎ ((IsHashed name c × (is_all_texts true is_hash es ≡ true))
          ⊎ (IsEncrypted name c × (is_all_texts false is_ascii es ≡ true)))

  unfoldable mutual
    pub FitsEntity : Value → Option Class → Type 0
    FitsEntity undefined c = false ≡ true
    FitsEntity null c = false ≡ true
    FitsEntity (boolean x) c = Unit
    FitsEntity (number n) c = Unit
    FitsEntity (text []) c = Unit
    FitsEntity (text (x ∷ s)) none = false ≡ true
    FitsEntity (text (x ∷ s)) (some c) = Unit
    FitsEntity (object_id es) c = FitsEntries es c
    FitsEntity (array es) c = FitsEntries es c
    FitsEntity (object es) c = FitsEntries es c

    pub FitsEntries : Entries → Option Class → Type 0
    FitsEntries end c = Unit
    FitsEntries (entry name v rest) none = false ≡ true
    FitsEntries (entry name v rest) (some c) = FitsProperty name v c × FitsEntries rest (some c)

    pub FitsProperty : String → Value → Class → Type 0
    FitsProperty name undefined c = IsPlain name c
    FitsProperty name null c = Unit
    FitsProperty name (boolean x) c = IsPlain name c
    FitsProperty name (number n) c = IsPlain name c
    FitsProperty name (text s) c = FitsText name c s
    FitsProperty name (object_id end) c =
        IsPlain name c
        × (((name === "_id") ≡ true)
            ⊎ ((d : Option Class) × (class_of_property k (some c) name ≡ ok d)))
    FitsProperty name (object_id (entry i v rest)) c = false ≡ true
    FitsProperty name (object es) c =
        ((name === "_id") ≡ false)
        × ((d : Option Class) × (class_of_property k (some c) name ≡ ok d) × FitsEntries es d)
    FitsProperty name (array end) c =
        ((name === "_id") ≡ false)
        × ((d : Option Class) × (class_of_property k (some c) name ≡ ok d))
    FitsProperty name (array (entry i first rest)) c =
        ((is_object_like first ≡ true)
          × (is_followed k b (some c) name ≡ true)
          × ((d : Option Class) × (class_of_property k (some c) name ≡ ok d)
              × FitsEntity first d
              × FitsElements rest d))
        ⊎ ((is_object_like first ≡ false) × FitsTexts name c (entry i first rest))

    pub FitsElements : Entries → Option Class → Type 0
    FitsElements end c = Unit
    FitsElements (entry i v rest) c = FitsEntity v c × FitsElements rest c
