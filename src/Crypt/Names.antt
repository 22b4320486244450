-- ===== src/Crypt/Names.antt =====
-- crypt/shouldEncryptValue.ts, shouldHashValue.ts and shouldUseRandomInitializationVector.ts: what
-- is done to a property, by its name and its annotations.
use lrzwasnla.Common.{
  String, Bool, false, not, ◌&&◌, ◌||◌, Option, none, some, List, [], ◌∷◌, Text, codes, any, at,
  put, to_lower_case, ◌===◌, if◌then◌else◌,
}
use lrzwasnla.Common.Exec.{Result, ok, err, Exec, pure}
use lrzwasnla.Errors.{Failure, plain}
use lrzwasnla.TypeNames.{is_same, ends_with, has_part}
use lrzwasnla.Annotations.Classes.{Class, key}
use lrzwasnla.Annotations.TypeProperty.{
  is_type_property_encrypted, is_type_property_not_encrypted, is_type_property_hashed,
  is_type_property_not_hashed,
}
use lrzwasnla.Crypt.{Crypto, Memory}

abbrev pub sub_property_names_whose_values_should_be_encrypted : List String
sub_property_names_whose_values_should_be_encrypted =
    "username" ∷ "user_name" ∷ "displayname" ∷ "display_name" ∷ "address" ∷ "addr" ∷ "lastname"
    ∷ "last_name" ∷ "surname" ∷ "firstname" ∷ "first_name" ∷ "fullname" ∷ "full_name" ∷ "phone"
    ∷ "fax" ∷ "email" ∷ "iban" ∷ "bankaccount" ∷ "bank_account" ∷ "accountnumber" ∷ "account_number"
    ∷ "cardnumber" ∷ "card_number" ∷ "cardverif" ∷ "card_verif" ∷ "creditcard" ∷ "credit_card"
    ∷ "driverslicense" ∷ "drivers_license" ∷ "passport" ∷ "pass port" ∷ "socialsecurity"
    ∷ "social_security" ∷ "licenseplate" ∷ "license_plate" ∷ "numberplate" ∷ "number_plate"
    ∷ "vechiclereg" ∷ "vehicle_reg" ∷ "birthdate" ∷ "birth_date" ∷ "dateofbirth" ∷ "date_of_birth"
    ∷ "city" ∷ "zipcode" ∷ "zip_code" ∷ "postcode" ∷ "post_code" ∷ "postalcode" ∷ "postal_code"
    ∷ "jobtitle" ∷ "job_title" ∷ "jobposition" ∷ "job_position" ∷ "workplace" ∷ "jobdescription"
    ∷ "job_description" ∷ "company" ∷ "employee" ∷ "employer" ∷ "manager" ∷ "supervisor"
    ∷ "superior" ∷ "organization" ∷ "geoposition" ∷ "geo_position" ∷ "gps" ∷ "geolocation"
    ∷ "geo_location" ∷ "latitude" ∷ "longitude" ∷ "vehicleid" ∷ "vehicle_id" ∷ "imei" ∷ "imsi"
    ∷ "msisdn" ∷ "url" ∷ "serialnumber" ∷ "serial_number" ∷ "fingerprint" ∷ "finger_print"
    ∷ "voiceprint" ∷ "voice_print" ∷ "signature" ∷ "retina" ∷ "biometric" ∷ "faceimage" ∷ "facial"
    ∷ "face_image" ∷ "facephoto" ∷ "face_photo" ∷ "medical" ∷ "idnumber" ∷ "id_number"
    ∷ "identificationnumber" ∷ "identification_number" ∷ "identitynumber" ∷ "identity_number"
    ∷ "insurancenumber" ∷ "insurance_number" ∷ "ethnic" ∷ "political_party" ∷ "politicalparty"
    ∷ "religion" ∷ "labour_union" ∷ "labor_union" ∷ "labourunion" ∷ "laborunion" ∷ "salary"
    ∷ "benefit" ∷ "genetic" ∷ []

abbrev pub property_names_whose_values_should_be_encrypted : List String
property_names_whose_values_should_be_encrypted =
    "user" ∷ "race" ∷ "ssn" ∷ "cvc" ∷ "cvv" ∷ "cvc2" ∷ "cvv2" ∷ "cav" ∷ "cid" ∷ "csc" ∷ "cvd"
    ∷ "cve" ∷ "cvn" ∷ "age" ∷ "vin" ∷ "ip" ∷ "mac" ∷ []

-- `propertyName.toLowerCase()`
abbrev pub lower : String → Text
lower name = to_lower_case (codes name)

-- lines 155 to 161
unfoldable pub is_sensitive_name : String → Bool
is_sensitive_name name =
    any
      (λ part.
        has_part (lower name) (codes part)
        || any (λ other. is_same (lower name) (codes other))
            property_names_whose_values_should_be_encrypted)
      sub_property_names_whose_values_should_be_encrypted

module _ {Any : Type 0} (k : Crypto Any) where
  -- `EntityClass && typePropertyAnnotationContainer.isTypePropertyEncrypted(...)`, and the other
  unfoldable pub is_encrypted : Option Class → String → Bool
  is_encrypted none name = false
  is_encrypted (some c) name = is_type_property_encrypted k.annotations c name

  unfoldable pub is_not_encrypted : Option Class → String → Bool
  is_not_encrypted none name = false
  is_not_encrypted (some c) name = is_type_property_not_encrypted k.annotations c name

  -- the answer that is worked out: lines 149 to 162
  unfoldable pub is_to_be_encrypted : String → Option Class → Bool
  is_to_be_encrypted name c =
      if is_not_encrypted c name
      then false
      else (ends_with (codes name) (codes "Ip") || is_encrypted c name || is_sensitive_name name)

  -- lines 164 to 166
  unfoldable pub remember : String → Class → Bool → Memory → Memory
  remember name c b m = if c.name === "" then m else record m {
    should_encrypt_value_map = put m.should_encrypt_value_map (key c.name name) b;
  }

  unfoldable pub should_encrypt_value : String → Option Class → Exec Failure Memory Bool
  should_encrypt_value name none m = pure (is_to_be_encrypted name none) m
  should_encrypt_value name (some c) m = elim (at m.should_encrypt_value_map (key c.name name)) [
    | some b ↦ pure b m
    | none ↦
        pure (is_to_be_encrypted name (some c))
          (remember name c (is_to_be_encrypted name (some c)) m)
  ]

  -- Without a class the container is asked for the prototype of `undefined`.
  unfoldable pub should_hash_value : String → Option Class → Result Failure Bool
  should_hash_value name none = err (plain (k.type_error "constructor"))
  should_hash_value name (some c) = ok (
      (has_part (lower name) (codes "password") || is_type_property_hashed k.annotations c name)
      && not (is_type_property_not_hashed k.annotations c name))

unfoldable pub should_use_random_initialization_vector : String → Bool
should_use_random_initialization_vector name = not (
    is_same (lower name) (codes "user")
    || has_part (lower name) (codes "username")
    || has_part (lower name) (codes "user_name"))
