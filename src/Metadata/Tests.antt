-- ===== src/Metadata/Tests.antt =====
-- An entity with a private property and one for reading and writing.
use lrzwasnla.Common.{String, ◌≡◌, refl, some, [], ◌∷◌, Dict, at, put}
use lrzwasnla.Annotations.Classes.{Class, nearest}
use lrzwasnla.Annotations.Entity
use lrzwasnla.Annotations.Entity.{EntityAnnotationContainer, add_entity_name_and_class, is_entity}
use lrzwasnla.Annotations.TypeProperty
use lrzwasnla.Annotations.TypeProperty.{
  TypePropertyAnnotationContainer, set_type_property_as_private, set_type_property_as_read_write,
  is_type_property_private, is_type_property_create_only, is_type_property_read_only,
  is_type_property_read_write,
}
use lrzwasnla.Metadata.{get_type_property_access_type, type_property_access}
use lrzwasnla.Metadata.Laws.{at-get_type_property_access_type}

abbrev user : Class
user = record { name = "User"; parents = [] }

abbrev entities : EntityAnnotationContainer
entities = add_entity_name_and_class Entity.empty "User" user

abbrev properties : TypePropertyAnnotationContainer (Unit {0})
properties =
    set_type_property_as_private (set_type_property_as_read_write TypeProperty.empty user "name")
      user "password"

abbrev metadata : Dict String
metadata = ("name", "string") ∷ ("password", "string") ∷ []

abbrev told : Dict String
told = ("name", "readWrite") ∷ []

at-get_type_property_access_type_example : at told "name" ≡ some "readWrite"
unfolding get_type_property_access_type is_entity nearest at put add_entity_name_and_class
    is_type_property_private is_type_property_create_only is_type_property_read_only
    is_type_property_read_write set_type_property_as_private set_type_property_as_read_write
    type_property_access
at-get_type_property_access_type_example =
    at-get_type_property_access_type properties user entities (some metadata) told "name" refl
