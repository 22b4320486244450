-- ===== src/Annotations/TypeProperty/Views.antt =====
-- The registrations on a property as data, and all the answers of the container about it at once.
use lrzwasnla.Common.{String, Bool, true, ◌≡◌, Option, none, some, Dict, at}
use lrzwasnla.Annotations.Classes.{Class}
use lrzwasnla.Annotations.TypeProperty.Defs.{
  RemoteServiceFetchSpec, TypePropertyAnnotationContainer, add_documentation_for_type_property,
  set_type_property_as_unique, set_type_property_as_not_unique, set_type_property_as_transient,
  set_type_property_as_not_hashed, set_type_property_as_hashed, set_type_property_as_encrypted,
  set_type_property_as_not_encrypted, set_type_property_as_private,
  set_type_property_as_many_to_many, set_type_property_as_one_to_many,
  set_type_property_as_external_id, set_type_property_as_read_write, set_type_property_as_read_only,
  set_type_property_as_write_only, set_type_property_as_create_only,
  set_type_property_as_update_only, set_type_property_as_read_update,
  set_type_property_as_fetched_from_remote_service,
}
use lrzwasnla.Annotations.TypeProperty.Asking.{
  get_documentation_for_type_property, is_type_property_transient, is_type_property_unique,
  is_type_property_not_unique, is_type_property_not_hashed, is_type_property_hashed,
  is_type_property_encrypted, is_type_property_not_encrypted, is_type_property_private,
  is_type_property_many_to_many, is_type_property_one_to_many,
  is_type_property_external_service_entity, is_type_property_external_id,
  is_type_property_read_write, is_type_property_read_only, is_type_property_write_only,
  is_type_property_create_only, is_type_property_update_only, is_type_property_read_update,
  get_type_property_remote_service_fetch_spec,
}

-- One registration, with what it registers.
pub data PropertyAnnotation (Any : Type 0) : Type 0 where
  documented : String → PropertyAnnotation Any
  as_unique : PropertyAnnotation Any
  as_not_unique : PropertyAnnotation Any
  as_transient : PropertyAnnotation Any
  as_not_hashed : PropertyAnnotation Any
  as_hashed : PropertyAnnotation Any
  as_encrypted : PropertyAnnotation Any
  as_not_encrypted : PropertyAnnotation Any
  as_private : PropertyAnnotation Any
  as_many_to_many : PropertyAnnotation Any
  as_one_to_many : Bool → PropertyAnnotation Any
  as_external_id : PropertyAnnotation Any
  as_read_write : PropertyAnnotation Any
  as_read_only : PropertyAnnotation Any
  as_write_only : PropertyAnnotation Any
  as_create_only : PropertyAnnotation Any
  as_update_only : PropertyAnnotation Any
  as_read_update : PropertyAnnotation Any
  as_fetched_from_remote_service :
      String → Option String → String → (Any → Any → Dict Any) → Option Any → PropertyAnnotation Any

-- The answers to every question.
pub record PropertyView (Any : Type 0) : Type 0 where
  pub documentation : Option String
  pub transient : Bool
  pub unique : Bool
  pub not_unique : Bool
  pub not_hashed : Bool
  pub hashed : Bool
  pub encrypted : Bool
  pub not_encrypted : Bool
  pub private : Bool
  pub many_to_many : Bool
  pub one_to_many : Bool
  pub external_service_entity : Bool
  pub external_id : Bool
  pub read_write : Bool
  pub read_only : Bool
  pub write_only : Bool
  pub create_only : Bool
  pub update_only : Bool
  pub read_update : Bool
  pub remote_service_fetch_spec : Option (RemoteServiceFetchSpec Any)

module _ {Any : Type 0} where
  unfoldable pub register :
      PropertyAnnotation Any
      → TypePropertyAnnotationContainer Any
      → Class
      → String
      → TypePropertyAnnotationContainer Any
  unfolding add_documentation_for_type_property set_type_property_as_unique
      set_type_property_as_not_unique set_type_property_as_transient set_type_property_as_not_hashed
      set_type_property_as_hashed set_type_property_as_encrypted set_type_property_as_not_encrypted
      set_type_property_as_private set_type_property_as_many_to_many
      set_type_property_as_one_to_many set_type_property_as_external_id
      set_type_property_as_read_write set_type_property_as_read_only set_type_property_as_write_only
      set_type_property_as_create_only set_type_property_as_update_only
      set_type_property_as_read_update set_type_property_as_fetched_from_remote_service
  register (documented doc_string) r c member =
      add_documentation_for_type_property r c member doc_string
  register as_unique r c member = set_type_property_as_unique r c member
  register as_not_unique r c member = set_type_property_as_not_unique r c member
  register as_transient r c member = set_type_property_as_transient r c member
  register as_not_hashed r c member = set_type_property_as_not_hashed r c member
  register as_hashed r c member = set_type_property_as_hashed r c member
  register as_encrypted r c member = set_type_property_as_encrypted r c member
  register as_not_encrypted r c member = set_type_property_as_not_encrypted r c member
  register as_private r c member = set_type_property_as_private r c member
  register as_many_to_many r c member = set_type_property_as_many_to_many r c member
  register (as_one_to_many is_external_service_entity) r c member =
      set_type_property_as_one_to_many r c member is_external_service_entity
  register as_external_id r c member = set_type_property_as_external_id r c member
  register as_read_write r c member = set_type_property_as_read_write r c member
  register as_read_only r c member = set_type_property_as_read_only r c member
  register as_write_only r c member = set_type_property_as_write_only r c member
  register as_create_only r c member = set_type_property_as_create_only r c member
  register as_update_only r c member = set_type_property_as_update_only r c member
  register as_read_update r c member = set_type_property_as_read_update r c member
  register
        (as_fetched_from_remote_service remote_microservice_name remote_microservice_namespace
          remote_service_function_name build_remote_service_function_argument options)
        r c member =
      set_type_property_as_fetched_from_remote_service r c member remote_microservice_name
        remote_microservice_namespace remote_service_function_name
        build_remote_service_function_argument options

  unfoldable pub property_view :
      TypePropertyAnnotationContainer Any → Class → String → PropertyView Any
  unfolding get_documentation_for_type_property is_type_property_transient is_type_property_unique
      is_type_property_not_unique is_type_property_not_hashed is_type_property_hashed
      is_type_property_encrypted is_type_property_not_encrypted is_type_property_private
      is_type_property_many_to_many is_type_property_one_to_many
      is_type_property_external_service_entity is_type_property_external_id
      is_type_property_read_write is_type_property_read_only is_type_property_write_only
      is_type_property_create_only is_type_property_update_only is_type_property_read_update
      get_type_property_remote_service_fetch_spec
  property_view r c member = record {
    documentation = get_documentation_for_type_property r c member;
    transient = is_type_property_transient r c member;
    unique = is_type_property_unique r c member;
    not_unique = is_type_property_not_unique r c member;
    not_hashed = is_type_property_not_hashed r c member;
    hashed = is_type_property_hashed r c member;
    encrypted = is_type_property_encrypted r c member;
    not_encrypted = is_type_property_not_encrypted r c member;
    private = is_type_property_private r c member;
    many_to_many = is_type_property_many_to_many r (some c) member;
    one_to_many = is_type_property_one_to_many r (some c) member;
    external_service_entity = is_type_property_external_service_entity r (some c) member;
    external_id = is_type_property_external_id r c member;
    read_write = is_type_property_read_write r c member;
    read_only = is_type_property_read_only r c member;
    write_only = is_type_property_write_only r c member;
    create_only = is_type_property_create_only r c member;
    update_only = is_type_property_update_only r c member;
    read_update = is_type_property_read_update r c member;
    remote_service_fetch_spec = get_type_property_remote_service_fetch_spec r c member;
  }

  -- Nothing of the same kind is registered under the key.
  abbrev pub IsFree : PropertyAnnotation Any → TypePropertyAnnotationContainer Any → String → Type 0
  IsFree (documented _) r k = (at r.type_property_name_to_doc_string_map k ≡ none)
  IsFree as_unique r k = (at r.type_property_name_to_is_unique_map k ≡ none)
  IsFree as_not_unique r k = (at r.type_property_name_to_is_not_unique_map k ≡ none)
  IsFree as_transient r k = (at r.type_property_name_to_is_transient_map k ≡ none)
  IsFree as_not_hashed r k = (at r.type_property_name_to_is_not_hashed_map k ≡ none)
  IsFree as_hashed r k = (at r.type_property_name_to_is_hashed_map k ≡ none)
  IsFree as_encrypted r k = (at r.type_property_name_to_is_encrypted_map k ≡ none)
  IsFree as_not_encrypted r k = (at r.type_property_name_to_is_not_encrypted_map k ≡ none)
  IsFree as_private r k = (at r.type_property_name_to_is_private_map k ≡ none)
  IsFree as_many_to_many r k = (at r.type_property_name_to_is_many_to_many_map k ≡ none)
  IsFree (as_one_to_many _) r k =
      (at r.type_property_name_to_is_one_to_many_map k ≡ none)
      × (at r.type_property_name_to_is_external_service_entity_map k ≡ none)
  IsFree as_external_id r k = (at r.type_property_name_to_is_external_id_map k ≡ none)
  IsFree as_read_write r k = (at r.type_property_name_to_is_read_write_map k ≡ none)
  IsFree as_read_only r k = (at r.type_property_name_to_is_read_only_map k ≡ none)
  IsFree as_write_only r k = (at r.type_property_name_to_is_write_only_map k ≡ none)
  IsFree as_create_only r k = (at r.type_property_name_to_is_create_only_map k ≡ none)
  IsFree as_update_only r k = (at r.type_property_name_to_is_update_only_map k ≡ none)
  IsFree as_read_update r k = (at r.type_property_name_to_is_read_update_map k ≡ none)
  IsFree (as_fetched_from_remote_service _ _ _ _ _) r k =
      (at r.type_property_name_to_remote_service_fetch_spec_map k ≡ none)

  -- What the answers say when a registration is seen.
  abbrev pub IsShown : PropertyAnnotation Any → PropertyView Any → Type 0
  IsShown (documented doc_string) v = (v.documentation ≡ some doc_string)
  IsShown as_unique v = (v.unique ≡ true)
  IsShown as_not_unique v = (v.not_unique ≡ true)
  IsShown as_transient v = (v.transient ≡ true)
  IsShown as_not_hashed v = (v.not_hashed ≡ true)
  IsShown as_hashed v = (v.hashed ≡ true)
  IsShown as_encrypted v = (v.encrypted ≡ true)
  IsShown as_not_encrypted v = (v.not_encrypted ≡ true)
  IsShown as_private v = (v.private ≡ true)
  IsShown as_many_to_many v = (v.many_to_many ≡ true)
  IsShown (as_one_to_many is_external_service_entity) v =
      (v.one_to_many ≡ true) × (v.external_service_entity ≡ is_external_service_entity)
  IsShown as_external_id v = (v.external_id ≡ true)
  IsShown as_read_write v = (v.read_write ≡ true)
  IsShown as_read_only v = (v.read_only ≡ true)
  IsShown as_write_only v = (v.write_only ≡ true)
  IsShown as_create_only v = (v.create_only ≡ true)
  IsShown as_update_only v = (v.update_only ≡ true)
  IsShown as_read_update v = (v.read_update ≡ true)
  IsShown
        (as_fetched_from_remote_service remote_microservice_name remote_microservice_namespace
          remote_service_function_name build_remote_service_function_argument options)
        v =
      (v.remote_service_fetch_spec
        ≡ some (record {
          remote_microservice_name = remote_microservice_name;
          remote_microservice_namespace = remote_microservice_namespace;
          remote_service_function_name = remote_service_function_name;
          build_remote_service_function_argument = build_remote_service_function_argument;
          options = options;
        }))
