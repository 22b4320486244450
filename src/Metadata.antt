-- ===== src/Metadata.antt =====
-- metadata/getTypePropertyAccessType.ts: the access to the properties of an entity that the
-- metadata of a microservice tell, from what the two annotation containers keep.
pub mod Laws
pub mod Tests
use Prim.Native.String
use lrzwasnla.Common.{
  String, Bool, true, false, Option, none, some, List, [], ◌∷◌, Dict, put, default_to, codes,
  if◌then◌else◌,
}
use lrzwasnla.Common.Exec.{Result, ok, err}
use lrzwasnla.Errors.{Failure, plain}
use lrzwasnla.Annotations.Classes.{Class}
use lrzwasnla.Annotations.Entity.{EntityAnnotationContainer, is_entity}
use lrzwasnla.Annotations.TypeProperty.{
  TypePropertyAnnotationContainer, is_type_property_private, is_type_property_create_only,
  is_type_property_read_only, is_type_property_read_write, is_type_property_update_only,
  is_type_property_write_only, is_type_property_read_update,
}

-- `Object.keys(dictionary)`
abbrev pub keys : {V : Type 0} → Dict V → List String
keys [] = []
keys ((name, v) ∷ rest) = name ∷ keys rest

module _ {Any : Type 0} (properties : TypePropertyAnnotationContainer Any) (c : Class) where
  -- lines 17 to 37, `none` where the code throws
  unfoldable pub type_property_access : String → Option String
  type_property_access name =
      if is_type_property_create_only properties c name
      then some "createOnly"
      else if is_type_property_private properties c name
      then some "private"
      else if is_type_property_read_only properties c name
      then some "readOnly"
      else if is_type_property_read_write properties c name
      then some "readWrite"
      else if is_type_property_update_only properties c name
      then some "updateOnly"
      else if is_type_property_write_only properties c name
      then some "writeOnly"
      else if is_type_property_read_update properties c name
      then some "readUpdate"
      else none

  unfoldable pub unsupported_access : String → Failure
  unsupported_access name = plain (record {
    message = codes (
        String.◌++◌ c.name
          (String.◌++◌ "." (String.◌++◌ name ": Unsupported property access type: undefined")));
    stack = none;
  })

  -- the reduction of lines 12 to 43, from `modifiers`
  unfoldable pub reduce_access :
      List String → (modifiers : Dict String) → Result Failure (Dict String)
  unfolding type_property_access unsupported_access
  reduce_access [] modifiers = ok modifiers
  reduce_access (name ∷ rest) modifiers = elim (is_type_property_private properties c name) [
    | true ↦ reduce_access rest modifiers
    | false ↦ elim (type_property_access name) [
      | none ↦ err (unsupported_access name)
      | some access ↦ reduce_access rest (put modifiers name access)
    ]
  ]

  unfoldable pub get_type_property_access_type :
      EntityAnnotationContainer
      → (type_metadata : Option (Dict String)) → Result Failure (Dict String)
  unfolding reduce_access
  get_type_property_access_type entities type_metadata =
      if is_entity entities c then reduce_access (keys (default_to [] type_metadata)) [] else ok []
