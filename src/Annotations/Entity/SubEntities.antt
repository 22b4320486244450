-- ===== src/Annotations/Entity/SubEntities.antt =====
-- datastore/sql/operations/ddl/utils/setSubEntityInfo.ts, which registers how a property of an
-- entity refers to another entity.
use Prim.Native.Char.{Char, code}
use Prim.Native.String
use lrzwasnla.Common.{
  String, Bool, ◌&&◌, none, some, List, [], ◌∷◌, ◌++◌, at, put, default_to, codes, ◌==◌,
  if◌then◌else◌,
}
use lrzwasnla.TypeNames.{ends_with}
use lrzwasnla.Validation.Metadata.{
  ValidationMetadata, does_class_property_contain_custom_validation,
}
use lrzwasnla.Annotations.Classes.{Class}
use lrzwasnla.Annotations.Entity.{
  ManyToManyRelationTableSpec, EntityJoinSpec, EntityAnnotationContainer, push,
}
use lrzwasnla.Annotations.Entity.Decorators.{given}
use lrzwasnla.Annotations.TypeProperty.{
  TypePropertyAnnotationContainer, is_type_property_many_to_many, is_type_property_one_to_many,
  is_type_property_external_service_entity,
}

-- `s.slice(0, -1)`
without_last : String → String
without_last String.[] = ""
without_last (String.◌∷◌ c String.[]) = ""
without_last (String.◌∷◌ c (String.◌∷◌ d s)) = String.◌∷◌ c (without_last (String.◌∷◌ d s))

-- utils/getSingularName.ts
unfoldable pub get_singular_name : String → String
unfolding without_last
get_singular_name name =
    if ends_with (codes name) (codes "ses")
    then without_last (without_last name)
    else if ends_with (codes name) (codes "s")
    then without_last name
    else name

-- `c.toLowerCase()`, where the letters are those that `upper` and `lower` pair
lower_char : Char → (upper lower : String) → Char
lower_char c String.[] lower = c
lower_char c (String.◌∷◌ u upper) String.[] = c
lower_char c (String.◌∷◌ u upper) (String.◌∷◌ l lower) =
    let found = lower_char c upper lower in if code c == code u then l else found

-- `name.charAt(0).toLowerCase() + name.slice(1) + 'Id'`, for names in ASCII
unfoldable pub id_field_name : String → String
unfolding lower_char
id_field_name String.[] = "Id"
id_field_name (String.◌∷◌ c s) =
    String.◌∷◌ (lower_char c "ABCDEFGHIJKLMNOPQRSTUVWXYZ" "abcdefghijklmnopqrstuvwxyz")
      (String.◌++◌ s "Id")

-- lines 23 to 30
abbrev many_to_many_spec :
    (table_name entity_name field_name sub_entity_name : String) → ManyToManyRelationTableSpec
many_to_many_spec table_name entity_name field_name sub_entity_name = record {
  entity_name = entity_name;
  entity_field_name = field_name;
  association_table_name = String.◌++◌ entity_name (String.◌++◌ "_" (get_singular_name field_name));
  sub_entity_name = sub_entity_name;
  entity_foreign_id_field_name = id_field_name table_name;
  sub_entity_foreign_id_field_name = id_field_name sub_entity_name;
}

-- lines 53 to 59
abbrev join_spec :
    (table_name field_name sub_entity_name : String) → (is_readonly : Bool) → EntityJoinSpec
join_spec table_name field_name sub_entity_name is_readonly = record {
  entity_field_name = field_name;
  sub_entity_table_name = sub_entity_name;
  entity_id_field_name = "_id";
  sub_entity_foreign_id_field_name = id_field_name table_name;
  is_readonly = is_readonly;
  as_field_name = none;
  entity_class = none;
}

-- lines 16 to 20
unfoldable pub table_name_of : EntityAnnotationContainer → String → String
table_name_of r entity_name =
    default_to entity_name (given (at r.entity_name_to_table_name_map entity_name))

module _ {Any : Type 0} (get_target_validation_metadatas : Class → List ValidationMetadata)
    (properties : TypePropertyAnnotationContainer Any) where
  -- lines 48 to 51
  abbrev pub is_readonly_sub_entity : Class → String → Bool
  is_readonly_sub_entity c field_name =
      does_class_property_contain_custom_validation get_target_validation_metadatas c field_name
        "isUndefined" none none
      && is_type_property_one_to_many properties (some c) field_name
      && is_type_property_external_service_entity properties (some c) field_name

  unfoldable pub set_sub_entity_info :
      EntityAnnotationContainer
      → (entity_name : String) → Class
      → (field_name sub_entity_name : String) → (is_array_type : Bool) → EntityAnnotationContainer
  unfolding table_name_of
  set_sub_entity_info r entity_name c field_name sub_entity_name is_array_type =
      let table_name = table_name_of r entity_name in
      let is_readonly = is_readonly_sub_entity c field_name in
      if is_type_property_many_to_many properties (some c) field_name
      then (record r {
        many_to_many_relation_table_specs =
            r.many_to_many_relation_table_specs
            ++ many_to_many_spec table_name entity_name field_name sub_entity_name ∷ [];
      })
      else (record r {
        entity_name_to_foreign_id_field_names_map =
            push r.entity_name_to_foreign_id_field_names_map sub_entity_name
              (id_field_name table_name);
        entity_name_to_is_array_map =
            put r.entity_name_to_is_array_map sub_entity_name is_array_type;
        entity_name_to_joins_map =
            push r.entity_name_to_joins_map entity_name
              (join_spec table_name field_name sub_entity_name is_readonly);
      })
