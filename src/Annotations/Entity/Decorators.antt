-- ===== src/Annotations/Entity/Decorators.antt =====
-- The decorators that register in the container: decorators/entity/ and
-- decorators/typeproperty/Indexed.ts. A sort order that is left out is `ascending`.
use Prim.Native.String
use lrzwasnla.Common.{
  ℕ, String, Bool, true, false, ◌&&◌, ◌||◌, Option, none, some, List, [], ◌∷◌, Text, codes,
  starts_with, leb, ◌===◌, if◌then◌else◌,
}
use lrzwasnla.Common.Exec.{Result, ok, err}
use lrzwasnla.Errors.{Failure, plain}
use lrzwasnla.Annotations.Classes.{Class, key}
use lrzwasnla.Annotations.Entity.{
  EntityAnnotationContainer, SortOrder, add_entity_name_and_class, add_entity_table_name,
  add_additional_sql_create_table_statement_options_for_entity, add_entity_index,
  add_entity_unique_index, add_index_sort_order, add_using_option_for_index,
  add_additional_sql_create_index_statement_options_for_index,
}

-- `[A-Z]`
abbrev is_upper : ℕ → Bool
is_upper c = leb 65 c && leb c 90

-- `[a-zA-Z0-9]*`
abbrev are_alphanumeric : Text → Bool
are_alphanumeric [] = true
are_alphanumeric (c ∷ rest) =
    (leb 97 c && leb c 122 || is_upper c || leb 48 c && leb c 57) && are_alphanumeric rest

-- the regular expression of line 10
abbrev matches_class_name : Text → Bool
matches_class_name [] = false
matches_class_name (c ∷ rest) = is_upper c && are_alphanumeric rest

-- the test of lines 9 and 10 for a class that may be an entity
unfoldable pub is_class_name : String → Bool
is_class_name name = starts_with (codes name) (codes "__Backk") || matches_class_name (codes name)

-- an optional text that is not falsy
abbrev pub given : Option String → Option String
given none = none
given (some t) = if t === "" then none else some t

-- `if (referenceToEntity)`
abbrev pub with_table_name :
    EntityAnnotationContainer → String → Option String → EntityAnnotationContainer
with_table_name r name none = r
with_table_name r name (some table) = add_entity_table_name r name table

-- `if (additionalSqlCreateTableStatementOptions)`
abbrev pub with_options :
    EntityAnnotationContainer → String → Option String → EntityAnnotationContainer
with_options r name none = r
with_options r name (some options) =
    add_additional_sql_create_table_statement_options_for_entity r name options

-- `@Entity(referenceToEntity, additionalSqlCreateTableStatementOptions)`
unfoldable pub entity :
    (reference options : Option String)
    → EntityAnnotationContainer
    → Class
    → Result Failure EntityAnnotationContainer
entity reference options r c =
    if is_class_name c.name
    then ok (
        with_options
          (with_table_name (add_entity_name_and_class r c.name c) c.name (given reference)) c.name
          (given options))
    else err (
        plain (record {
          message = codes (
              String.◌++◌ c.name
                ": entity class name must match regular expression: /^[A-Z][a-zA-Z0-9]*$/");
          stack = none;
        }))

-- `fields.join('_')`
joined : List String → String
joined [] = ""
joined (field ∷ []) = field
joined (field ∷ next ∷ rest) = String.◌++◌ field (String.◌++◌ "_" (joined (next ∷ rest)))

-- `entityClass.name + ':' + indexFields.join('_')`
unfoldable pub index_name : Class → List String → String
unfolding joined
index_name c fields = key c.name (String.◌++◌ ":" (joined fields))

-- what the decorators of indexes do behind the registration of the fields
abbrev pub with_index_options :
    SortOrder
    → (using_option options : Option String) → EntityAnnotationContainer
    → String
    → EntityAnnotationContainer
with_index_options order using_option options r name =
    add_additional_sql_create_index_statement_options_for_index
      (add_using_option_for_index (add_index_sort_order r name order) name using_option) name
      options

-- `@CompositeIndex(indexFields, sortOrder, usingOption, additionalSqlCreateIndexStatementOptions)`
unfoldable pub composite_index :
    List String
    → SortOrder
    → (using_option options : Option String) → EntityAnnotationContainer
    → Class
    → EntityAnnotationContainer
unfolding index_name
composite_index fields order using_option options r c =
    with_index_options order using_option options (add_entity_index r (index_name c fields) fields)
      (index_name c fields)

-- `@UniqueCompositeIndex(...)`, with the same arguments
unfoldable pub unique_composite_index :
    List String
    → SortOrder
    → (using_option options : Option String) → EntityAnnotationContainer
    → Class
    → EntityAnnotationContainer
unfolding index_name
unique_composite_index fields order using_option options r c =
    with_index_options order using_option options
      (add_entity_unique_index r (index_name c fields) fields) (index_name c fields)

-- `@Indexed(...)` of a property
unfoldable pub indexed :
    SortOrder
    → (using_option options : Option String) → EntityAnnotationContainer
    → Class
    → (property_name : String) → EntityAnnotationContainer
indexed order using_option options r c property_name =
    let name = key c.name (String.◌++◌ ":" property_name) in
    with_index_options order using_option options (add_entity_index r name (property_name ∷ []))
      name
