-- ===== src/Validation/Metadata.antt =====
-- The question of validation/setClassPropertyValidationDecorators.ts about the validations that a
-- property has. The storage of class-validator is a parameter.
use lrzwasnla.Common.{
  String, Bool, true, not, ◌&&◌, ◌||◌, Option, none, some, List, [], ◌∷◌, any, ◌===◌,
}
use lrzwasnla.Annotations.Classes.{Class}

-- What class-validator keeps of a decorator: `constraint` is `constraints[0]`, where it is text.
pub record ValidationMetadata : Type 0 where
  pub property_name : String
  pub type : String
  pub constraint : Option String
  pub groups : List String

abbrev is_text : Option String → String → Bool
is_text none t = not true
is_text (some s) t = s === t

abbrev first_is : List String → String → Bool
first_is [] t = not true
first_is (g ∷ rest) t = g === t

-- The test of lines 70 and 71: an empty group counts as none.
abbrev is_regarded : Option String → List String → Bool
is_regarded none groups = true
is_regarded (some g) groups = (g === "") || not (first_is groups g)

-- the test of line 72
abbrev is_in_group : Option String → List String → Bool
is_in_group none groups = true
is_in_group (some g) groups = (g === "") || any (λ other. other === g) groups

unfoldable pub does_class_property_contain_custom_validation :
    (get_target_validation_metadatas : Class → List ValidationMetadata)
    → Class
    → (property_name validation_type : String) → (disregard_first_group group : Option String)
    → Bool
does_class_property_contain_custom_validation metadatas c name type disregarded group =
    any
      (λ v.
        (v.property_name === name)
        && (v.type === "customValidation")
        && is_text v.constraint type
        && is_regarded disregarded v.groups
        && is_in_group group v.groups)
      (metadatas c)
