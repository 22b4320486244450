-- ===== src/Annotations/Entity.antt =====
-- decorators/entity/entityAnnotationContainer.ts
pub mod Decorators
pub mod SubEntities
pub mod Laws
pub mod ForeignIds
pub mod Tests
use lrzwasnla.Common.{
  String, Bool, Option, none, some, List, [], ◌∷◌, ◌++◌, Dict, at, put, is_defined, ◌===◌,
  if◌then◌else◌,
}
use lrzwasnla.Common.Exec.{Result, ok, err}
use lrzwasnla.Errors.{Error, Failure, plain}
use lrzwasnla.Annotations.Classes.{Class, prototypes, nearest}

-- decorators/typeproperty/Indexed.ts
pub data SortOrder : Type 0 where
  ascending : SortOrder
  descending : SortOrder

pub record ManyToManyRelationTableSpec : Type 0 where
  pub entity_name : String
  pub entity_field_name : String
  pub association_table_name : String
  pub sub_entity_name : String
  pub entity_foreign_id_field_name : String
  pub sub_entity_foreign_id_field_name : String

pub record EntityJoinSpec : Type 0 where
  pub entity_field_name : String
  pub sub_entity_table_name : String
  pub entity_id_field_name : String
  pub sub_entity_foreign_id_field_name : String
  pub is_readonly : Bool
  pub as_field_name : Option String
  pub entity_class : Option Class

pub record EntityAnnotationContainer : Type 0 where
  pub entity_name_to_class_map : Dict Class
  pub entity_name_to_additional_sql_create_table_statement_options_map : Dict String
  pub entity_name_to_foreign_id_field_names_map : Dict (List String)
  pub index_name_to_index_fields_map : Dict (List String)
  pub index_name_to_unique_index_fields_map : Dict (List String)
  pub index_name_to_sort_order_map : Dict SortOrder
  pub index_name_to_using_option_map : Dict (Option String)
  pub index_name_to_additional_sql_create_index_statement_options_map : Dict (Option String)
  pub many_to_many_relation_table_specs : List ManyToManyRelationTableSpec
  pub entity_name_to_joins_map : Dict (List EntityJoinSpec)
  pub entity_name_to_is_array_map : Dict Bool
  pub entity_name_to_table_name_map : Dict String

-- the container as a microservice starts with it
abbrev pub empty : EntityAnnotationContainer
empty = record {
  entity_name_to_class_map = [];
  entity_name_to_additional_sql_create_table_statement_options_map = [];
  entity_name_to_foreign_id_field_names_map = [];
  index_name_to_index_fields_map = [];
  index_name_to_unique_index_fields_map = [];
  index_name_to_sort_order_map = [];
  index_name_to_using_option_map = [];
  index_name_to_additional_sql_create_index_statement_options_map = [];
  many_to_many_relation_table_specs = [];
  entity_name_to_joins_map = [];
  entity_name_to_is_array_map = [];
  entity_name_to_table_name_map = [];
}

-- `names[0]`
abbrev pub first_name : List String → Option String
first_name [] = none
first_name (name ∷ rest) = some name

-- An entity without foreign ids has `undefined` in place of the array, which has no element:
-- `type_error` is the error of the engine that names it.
unfoldable pub get_foreign_id_field_name :
    (type_error : String → Error)
    → EntityAnnotationContainer
    → String
    → Result Failure (Option String)
get_foreign_id_field_name type_error r name =
    elim (at r.entity_name_to_foreign_id_field_names_map name) [
      | none ↦ err (plain (type_error "0"))
      | some names ↦ ok (first_name names)
    ]

find_spec : List ManyToManyRelationTableSpec → String → Option ManyToManyRelationTableSpec
find_spec [] name = none
find_spec (spec ∷ rest) name =
    let found = find_spec rest name in
    if spec.association_table_name === name then some spec else found

unfoldable pub get_many_to_many_relation_table_spec :
    EntityAnnotationContainer → String → Option ManyToManyRelationTableSpec
unfolding find_spec
get_many_to_many_relation_table_spec r name = find_spec r.many_to_many_relation_table_specs name

unfoldable pub add_entity_name_and_class :
    EntityAnnotationContainer → String → Class → EntityAnnotationContainer
add_entity_name_and_class r name c = record r {
  entity_name_to_class_map = put r.entity_name_to_class_map name c;
}

unfoldable pub add_additional_sql_create_table_statement_options_for_entity :
    EntityAnnotationContainer → String → String → EntityAnnotationContainer
add_additional_sql_create_table_statement_options_for_entity r name options = record r {
  entity_name_to_additional_sql_create_table_statement_options_map =
      put r.entity_name_to_additional_sql_create_table_statement_options_map name options;
}

unfoldable pub add_entity_index :
    EntityAnnotationContainer → String → List String → EntityAnnotationContainer
add_entity_index r name fields = record r {
  index_name_to_index_fields_map = put r.index_name_to_index_fields_map name fields;
}

unfoldable pub add_entity_unique_index :
    EntityAnnotationContainer → String → List String → EntityAnnotationContainer
add_entity_unique_index r name fields = record r {
  index_name_to_unique_index_fields_map = put r.index_name_to_unique_index_fields_map name fields;
}

unfoldable pub add_index_sort_order :
    EntityAnnotationContainer → String → SortOrder → EntityAnnotationContainer
add_index_sort_order r name order = record r {
  index_name_to_sort_order_map = put r.index_name_to_sort_order_map name order;
}

unfoldable pub add_using_option_for_index :
    EntityAnnotationContainer → String → Option String → EntityAnnotationContainer
add_using_option_for_index r name option = record r {
  index_name_to_using_option_map = put r.index_name_to_using_option_map name option;
}

unfoldable pub add_additional_sql_create_index_statement_options_for_index :
    EntityAnnotationContainer → String → Option String → EntityAnnotationContainer
add_additional_sql_create_index_statement_options_for_index r name options = record r {
  index_name_to_additional_sql_create_index_statement_options_map =
      put r.index_name_to_additional_sql_create_index_statement_options_map name options;
}

-- `if (map[key]) { map[key].push(value) } else { map[key] = [value] }`
unfoldable pub push : {A : Type 0} → Dict (List A) → String → A → Dict (List A)
push d name value = elim (at d name) [
  | some values ↦ put d name (values ++ value ∷ [])
  | none ↦ put d name (value ∷ [])
]

unfoldable pub add_entity_additional_property_name :
    EntityAnnotationContainer → String → String → EntityAnnotationContainer
unfolding push
add_entity_additional_property_name r name property = record r {
  entity_name_to_foreign_id_field_names_map =
      push r.entity_name_to_foreign_id_field_names_map name property;
}

unfoldable pub add_entity_table_name :
    EntityAnnotationContainer → String → String → EntityAnnotationContainer
add_entity_table_name r name table = record r {
  entity_name_to_table_name_map = put r.entity_name_to_table_name_map name table;
}

unfoldable pub is_entity : EntityAnnotationContainer → Class → Bool
is_entity r c = is_defined (nearest (λ name. at r.entity_name_to_class_map name) (prototypes c))
