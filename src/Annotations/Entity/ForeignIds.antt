-- ===== src/Annotations/Entity/ForeignIds.antt =====
-- The names of the fields that refer to the owner of an entity.
use lrzwasnla.Common.{
  String, ◌≡◌, Bool, Option, none, some, List, [], ◌∷◌, ◌++◌, Dict, at, at-put, ◌===◌, default_to,
  if◌then◌else◌, arith, eq_iff,
}
use lrzwasnla.Common.Exec.{ok}
use lrzwasnla.Errors.{Error}
use lrzwasnla.Validation.Metadata.{ValidationMetadata}
use lrzwasnla.Annotations.Classes.{Class}
use lrzwasnla.Annotations.TypeProperty.{TypePropertyAnnotationContainer}
use lrzwasnla.Annotations.Entity.{
  EntityAnnotationContainer, push, first_name, get_foreign_id_field_name,
}
use lrzwasnla.Annotations.Entity.SubEntities.{set_sub_entity_info, id_field_name, table_name_of}

-- the first element of an entry
abbrev first_of : Option (List String) → Option String
first_of none = none
first_of (some names) = first_name names

first_name-++ :
    (names more : List String) (name : String)
    → first_name names ≡ some name
    → first_name (names ++ more) ≡ some name
first_name-++ [] more name h = ground arith
first_name-++ (x ∷ names) more name h = h

at-push :
    (d : Dict (List String)) (k value other : String)
    → at (push d k value) other
      ≡ (if k === other then some (default_to [] (at d k) ++ value ∷ []) else at d other)
unfolding push
at-push d k value other =
    ground (
      arith,
      at-put d k other (value ∷ []),
      at-put d k other (default_to [] (at d k) ++ value ∷ []),
    )

first_of-push :
    (d : Dict (List String)) (k value other name : String)
    → first_of (at d other) ≡ some name
    → first_of (at (push d k value) other) ≡ some name
first_of-push d k value other name h = ground (
  arith,
  at-push d k value other,
  eq_iff k other,
  first_name-++ (default_to [] (at d k)) (value ∷ []) name,
)

first_of-get :
    (type_error : String → Error) (r : EntityAnnotationContainer) (other name : String)
    → get_foreign_id_field_name type_error r other ≡ ok (some name)
    → first_of (at r.entity_name_to_foreign_id_field_names_map other) ≡ some name
unfolding get_foreign_id_field_name
first_of-get type_error r other name h = ground arith

get-first_of :
    (type_error : String → Error) (r : EntityAnnotationContainer) (other name : String)
    → first_of (at r.entity_name_to_foreign_id_field_names_map other) ≡ some name
    → get_foreign_id_field_name type_error r other ≡ ok (some name)
unfolding get_foreign_id_field_name
get-first_of type_error r other name h = ground arith

-- The foreign id field name of an entity stays the one that it had, whatever relation is registered
-- afterwards, also when that relation is to the same entity and has another owner.
pub get_foreign_id_field_name-set_sub_entity_info :
    {Any : Type 0} (type_error : String → Error) (metadatas : Class → List ValidationMetadata)
    (properties : TypePropertyAnnotationContainer Any) (r : EntityAnnotationContainer)
    (entity_name : String) (c : Class) (field_name sub_entity_name : String) (is_array_type : Bool)
    (other name : String)
    → get_foreign_id_field_name type_error r other ≡ ok (some name)
    → get_foreign_id_field_name type_error
        (set_sub_entity_info metadatas properties r entity_name c field_name sub_entity_name
          is_array_type)
        other
      ≡ ok (some name)
unfolding set_sub_entity_info table_name_of
get_foreign_id_field_name-set_sub_entity_info type_error metadatas properties r entity_name c
      field_name sub_entity_name is_array_type other name h =
    get-first_of type_error _ other name (
      let first = first_of-get type_error r other name h in
      let pushed =
        first_of-push r.entity_name_to_foreign_id_field_names_map sub_entity_name
          (id_field_name (table_name_of r entity_name)) other name first in
      ground (arith, first, pushed))
