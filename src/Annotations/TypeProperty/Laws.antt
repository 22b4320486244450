-- ===== src/Annotations/TypeProperty/Laws.antt =====
-- How the answers of the container follow from what was registered on a property.
use lrzwasnla.Common.{String, ◌≡◌, ◌≢◌, true, List, ◌∷◌, ◌++◌, All, All-map}
use lrzwasnla.Annotations.Classes.{Class, prototypes, key}
use lrzwasnla.Annotations.Keys.{unchanged, shown}
use lrzwasnla.Annotations.TypeProperty.Defs.{TypePropertyAnnotationContainer}
use lrzwasnla.Annotations.TypeProperty.Views.{
  PropertyAnnotation, register, property_view, IsFree, IsShown, documented, as_unique,
  as_not_unique, as_transient, as_not_hashed, as_hashed, as_encrypted, as_not_encrypted, as_private,
  as_many_to_many, as_one_to_many, as_external_id, as_read_write, as_read_only, as_write_only,
  as_create_only, as_update_only, as_read_update, as_fetched_from_remote_service,
}

module _ {Any : Type 0} (r : TypePropertyAnnotationContainer Any) (owner c : Class)
    (member : String) where
  -- A registration changes no answer about a property whose key it does not share on any prototype
  -- of the class that is asked about.
  register-property_view_ne :
      (other : String) (a : PropertyAnnotation Any)
      → All (λ name. key owner.name member ≢ key name other) (prototypes c)
      → property_view (register a r owner member) c other ≡ property_view r c other
  unfolding register property_view
  register-property_view_ne other (documented doc_string) h =
      rw (unchanged owner c member other h r.type_property_name_to_doc_string_map doc_string)
  register-property_view_ne other as_unique h =
      rw (unchanged owner c member other h r.type_property_name_to_is_unique_map true)
  register-property_view_ne other as_not_unique h =
      rw (unchanged owner c member other h r.type_property_name_to_is_not_unique_map true)
  register-property_view_ne other as_transient h =
      rw (unchanged owner c member other h r.type_property_name_to_is_transient_map true)
  register-property_view_ne other as_not_hashed h =
      rw (unchanged owner c member other h r.type_property_name_to_is_not_hashed_map true)
  register-property_view_ne other as_hashed h =
      rw (unchanged owner c member other h r.type_property_name_to_is_hashed_map true)
  register-property_view_ne other as_encrypted h =
      rw (unchanged owner c member other h r.type_property_name_to_is_encrypted_map true)
  register-property_view_ne other as_not_encrypted h =
      rw (unchanged owner c member other h r.type_property_name_to_is_not_encrypted_map true)
  register-property_view_ne other as_private h =
      rw (unchanged owner c member other h r.type_property_name_to_is_private_map true)
  register-property_view_ne other as_many_to_many h =
      rw (unchanged owner c member other h r.type_property_name_to_is_many_to_many_map true)
  register-property_view_ne other (as_one_to_many is_external_service_entity) h = rw (
    unchanged owner c member other h r.type_property_name_to_is_one_to_many_map true,
    unchanged owner c member other h r.type_property_name_to_is_external_service_entity_map
        is_external_service_entity,
  )
  register-property_view_ne other as_external_id h =
      rw (unchanged owner c member other h r.type_property_name_to_is_external_id_map true)
  register-property_view_ne other as_read_write h =
      rw (unchanged owner c member other h r.type_property_name_to_is_read_write_map true)
  register-property_view_ne other as_read_only h =
      rw (unchanged owner c member other h r.type_property_name_to_is_read_only_map true)
  register-property_view_ne other as_write_only h =
      rw (unchanged owner c member other h r.type_property_name_to_is_write_only_map true)
  register-property_view_ne other as_create_only h =
      rw (unchanged owner c member other h r.type_property_name_to_is_create_only_map true)
  register-property_view_ne other as_update_only h =
      rw (unchanged owner c member other h r.type_property_name_to_is_update_only_map true)
  register-property_view_ne other as_read_update h =
      rw (unchanged owner c member other h r.type_property_name_to_is_read_update_map true)
  register-property_view_ne other
        (as_fetched_from_remote_service remote_microservice_name remote_microservice_namespace
          remote_service_function_name build_remote_service_function_argument options)
        h =
      rw (
        unchanged owner c member other h r.type_property_name_to_remote_service_fetch_spec_map
          (record {
            remote_microservice_name = remote_microservice_name;
            remote_microservice_namespace = remote_microservice_namespace;
            remote_service_function_name = remote_service_function_name;
            build_remote_service_function_argument = build_remote_service_function_argument;
            options = options;
          }))

  -- A registration on a class is what the answers show for every class that extends it, as long as
  -- no nearer class registered the same under the same property name.
  pub register-IsShown :
      (a : PropertyAnnotation Any) (before after : List String)
      → prototypes c ≡ before ++ owner.name ∷ after
      → All
          (λ other. IsFree a r (key other member) × (key owner.name member ≢ key other member))
          before
      → IsShown a (property_view (register a r owner member) c member)
  unfolding register property_view
  register-IsShown (documented doc_string) before after e h =
      rw (shown owner c member before after e r.type_property_name_to_doc_string_map doc_string h)
  register-IsShown as_unique before after e h =
      rw (shown owner c member before after e r.type_property_name_to_is_unique_map true h)
  register-IsShown as_not_unique before after e h =
      rw (shown owner c member before after e r.type_property_name_to_is_not_unique_map true h)
  register-IsShown as_transient before after e h =
      rw (shown owner c member before after e r.type_property_name_to_is_transient_map true h)
  register-IsShown as_not_hashed before after e h =
      rw (shown owner c member before after e r.type_property_name_to_is_not_hashed_map true h)
  register-IsShown as_hashed before after e h =
      rw (shown owner c member before after e r.type_property_name_to_is_hashed_map true h)
  register-IsShown as_encrypted before after e h =
      rw (shown owner c member before after e r.type_property_name_to_is_encrypted_map true h)
  register-IsShown as_not_encrypted before after e h =
      rw (shown owner c member before after e r.type_property_name_to_is_not_encrypted_map true h)
  register-IsShown as_private before after e h =
      rw (shown owner c member before after e r.type_property_name_to_is_private_map true h)
  register-IsShown as_many_to_many before after e h =
      rw (shown owner c member before after e r.type_property_name_to_is_many_to_many_map true h)
  register-IsShown (as_one_to_many is_external_service_entity) before after e h = (
    rw (
        shown owner c member before after e r.type_property_name_to_is_one_to_many_map true
          (All-map before (λ _ p. (p.0.0, p.1)) h)),
    rw (
        shown owner c member before after e r.type_property_name_to_is_external_service_entity_map
          is_external_service_entity (All-map before (λ _ p. (p.0.1, p.1)) h)),
  )
  register-IsShown as_external_id before after e h =
      rw (shown owner c member before after e r.type_property_name_to_is_external_id_map true h)
  register-IsShown as_read_write before after e h =
      rw (shown owner c member before after e r.type_property_name_to_is_read_write_map true h)
  register-IsShown as_read_only before after e h =
      rw (shown owner c member before after e r.type_property_name_to_is_read_only_map true h)
  register-IsShown as_write_only before after e h =
      rw (shown owner c member before after e r.type_property_name_to_is_write_only_map true h)
  register-IsShown as_create_only before after e h =
      rw (shown owner c member before after e r.type_property_name_to_is_create_only_map true h)
  register-IsShown as_update_only before after e h =
      rw (shown owner c member before after e r.type_property_name_to_is_update_only_map true h)
  register-IsShown as_read_update before after e h =
      rw (shown owner c member before after e r.type_property_name_to_is_read_update_map true h)
  register-IsShown
        (as_fetched_from_remote_service remote_microservice_name remote_microservice_namespace
          remote_service_function_name build_remote_service_function_argument options)
        before after e h =
      rw (
        shown owner c member before after e r.type_property_name_to_remote_service_fetch_spec_map
          (record {
            remote_microservice_name = remote_microservice_name;
            remote_microservice_namespace = remote_microservice_namespace;
            remote_service_function_name = remote_service_function_name;
            build_remote_service_function_argument = build_remote_service_function_argument;
            options = options;
          })
          h)
