-- ===== src/Annotations/Entity/Tests.antt =====
-- An entity class with a class that extends it, and an entity that belongs to two others.
use lrzwasnla.Common.{◌≡◌, refl, true, none, some, [], ◌∷◌, at, put}
use lrzwasnla.Common.Exec.{ok}
use lrzwasnla.Errors.{Error}
use lrzwasnla.TypeNames.{ends_with}
use lrzwasnla.Annotations.Classes.{Class, nearest}
use lrzwasnla.Annotations.TypeProperty
use lrzwasnla.Annotations.TypeProperty.{TypePropertyAnnotationContainer}
use lrzwasnla.Annotations.Entity
use lrzwasnla.Annotations.Entity.{
  EntityAnnotationContainer, is_entity, add_entity_name_and_class, add_entity_table_name,
  add_entity_additional_property_name, get_foreign_id_field_name,
}
use lrzwasnla.Annotations.Entity.Decorators.{entity, is_class_name}
use lrzwasnla.Annotations.Entity.SubEntities.{set_sub_entity_info, get_singular_name, id_field_name}
use lrzwasnla.Annotations.Entity.Laws.{is_entity-entity}
use lrzwasnla.Annotations.Entity.ForeignIds.{get_foreign_id_field_name-set_sub_entity_info}

abbrev user : Class
user = record { name = "User"; parents = [] }

abbrev admin : Class
admin = record { name = "Admin"; parents = "User" ∷ [] }

abbrev users : EntityAnnotationContainer
users = add_entity_table_name (add_entity_name_and_class Entity.empty "User" user) "User" "Account"

is_entity-entity_example : is_entity users admin ≡ true
unfolding entity is_entity nearest at put is_class_name
is_entity-entity_example = is_entity-entity (some "Account") none Entity.empty users user admin refl

-- The plural of a class that already ends with an s loses two letters.
get_singular_name_test : get_singular_name "addresses" ≡ "address"
unfolding get_singular_name ends_with
get_singular_name_test = refl

id_field_name_test : id_field_name "UserAccount" ≡ "userAccountId"
unfolding id_field_name
id_field_name_test = refl

abbrev no_error : Error
no_error = record { message = []; stack = none }

abbrev plain_properties : TypePropertyAnnotationContainer (Unit {0})
plain_properties = TypeProperty.empty

abbrev owned : EntityAnnotationContainer
owned = add_entity_additional_property_name Entity.empty "Address" "userId"

get_foreign_id_field_name-set_sub_entity_info_example :
    get_foreign_id_field_name
      (λ name. no_error)
      (set_sub_entity_info (λ c. []) plain_properties owned "Shop" user "addresses" "Address" true)
      "Address"
    ≡ ok (some "userId")
unfolding get_foreign_id_field_name add_entity_additional_property_name at put
get_foreign_id_field_name-set_sub_entity_info_example =
    get_foreign_id_field_name-set_sub_entity_info (λ name. no_error) (λ c. []) plain_properties
      owned "Shop" user "addresses" "Address" true "Address" "userId" refl
