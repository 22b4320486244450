-- ===== src/Annotations/TypeProperty/Asking.antt =====
-- decorators/typeproperty/typePropertyAnnotationContainer.ts: the getters.
use lrzwasnla.Common.{String, Bool, false, Option, none, some, at, default_to}
use lrzwasnla.Annotations.Classes.{Class, prototypes, nearest, key}
use lrzwasnla.Annotations.TypeProperty.Defs.{
  RemoteServiceFetchSpec, TypePropertyAnnotationContainer,
}

module _ {Any : Type 0} where
  unfoldable pub get_documentation_for_type_property :
      TypePropertyAnnotationContainer Any → Class → String → Option String
  get_documentation_for_type_property r c member =
      nearest (λ name. at r.type_property_name_to_doc_string_map (key name member)) (prototypes c)

  unfoldable pub is_type_property_transient :
      TypePropertyAnnotationContainer Any → Class → String → Bool
  is_type_property_transient r c member = default_to false (
      nearest (λ name. at r.type_property_name_to_is_transient_map (key name member))
        (prototypes c))

  unfoldable pub is_type_property_unique :
      TypePropertyAnnotationContainer Any → Class → String → Bool
  is_type_property_unique r c member =
      default_to false (
        nearest (λ name. at r.type_property_name_to_is_unique_map (key name member)) (prototypes c))

  unfoldable pub is_type_property_not_unique :
      TypePropertyAnnotationContainer Any → Class → String → Bool
  is_type_property_not_unique r c member = default_to false (
      nearest (λ name. at r.type_property_name_to_is_not_unique_map (key name member))
        (prototypes c))

  unfoldable pub is_type_property_not_hashed :
      TypePropertyAnnotationContainer Any → Class → String → Bool
  is_type_property_not_hashed r c member = default_to false (
      nearest (λ name. at r.type_property_name_to_is_not_hashed_map (key name member))
        (prototypes c))

  unfoldable pub is_type_property_hashed :
      TypePropertyAnnotationContainer Any → Class → String → Bool
  is_type_property_hashed r c member =
      default_to false (
        nearest (λ name. at r.type_property_name_to_is_hashed_map (key name member)) (prototypes c))

  unfoldable pub is_type_property_encrypted :
      TypePropertyAnnotationContainer Any → Class → String → Bool
  is_type_property_encrypted r c member = default_to false (
      nearest (λ name. at r.type_property_name_to_is_encrypted_map (key name member))
        (prototypes c))

  unfoldable pub is_type_property_not_encrypted :
      TypePropertyAnnotationContainer Any → Class → String → Bool
  is_type_property_not_encrypted r c member = default_to false (
      nearest (λ name. at r.type_property_name_to_is_not_encrypted_map (key name member))
        (prototypes c))

  unfoldable pub is_type_property_private :
      TypePropertyAnnotationContainer Any → Class → String → Bool
  is_type_property_private r c member =
      default_to false (
        nearest (λ name. at r.type_property_name_to_is_private_map (key name member))
          (prototypes c))

  unfoldable pub is_type_property_many_to_many :
      TypePropertyAnnotationContainer Any → Option Class → String → Bool
  is_type_property_many_to_many r none member = false
  is_type_property_many_to_many r (some c) member = default_to false (
      nearest (λ name. at r.type_property_name_to_is_many_to_many_map (key name member))
        (prototypes c))

  unfoldable pub is_type_property_one_to_many :
      TypePropertyAnnotationContainer Any → Option Class → String → Bool
  is_type_property_one_to_many r none member = false
  is_type_property_one_to_many r (some c) member = default_to false (
      nearest (λ name. at r.type_property_name_to_is_one_to_many_map (key name member))
        (prototypes c))

  unfoldable pub is_type_property_external_service_entity :
      TypePropertyAnnotationContainer Any → Option Class → String → Bool
  is_type_property_external_service_entity r none member = false
  is_type_property_external_service_entity r (some c) member = default_to false (
      nearest (λ name. at r.type_property_name_to_is_external_service_entity_map (key name member))
        (prototypes c))

  unfoldable pub is_type_property_external_id :
      TypePropertyAnnotationContainer Any → Class → String → Bool
  is_type_property_external_id r c member = default_to false (
      nearest (λ name. at r.type_property_name_to_is_external_id_map (key name member))
        (prototypes c))

  unfoldable pub is_type_property_read_write :
      TypePropertyAnnotationContainer Any → Class → String → Bool
  is_type_property_read_write r c member = default_to false (
      nearest (λ name. at r.type_property_name_to_is_read_write_map (key name member))
        (prototypes c))

  unfoldable pub is_type_property_read_only :
      TypePropertyAnnotationContainer Any → Class → String → Bool
  is_type_property_read_only r c member = default_to false (
      nearest (λ name. at r.type_property_name_to_is_read_only_map (key name member))
        (prototypes c))

  unfoldable pub is_type_property_write_only :
      TypePropertyAnnotationContainer Any → Class → String → Bool
  is_type_property_write_only r c member = default_to false (
      nearest (λ name. at r.type_property_name_to_is_write_only_map (key name member))
        (prototypes c))

  unfoldable pub is_type_property_create_only :
      TypePropertyAnnotationContainer Any → Class → String → Bool
  is_type_property_create_only r c member = default_to false (
      nearest (λ name. at r.type_property_name_to_is_create_only_map (key name member))
        (prototypes c))

  unfoldable pub is_type_property_update_only :
      TypePropertyAnnotationContainer Any → Class → String → Bool
  is_type_property_update_only r c member = default_to false (
      nearest (λ name. at r.type_property_name_to_is_update_only_map (key name member))
        (prototypes c))

  unfoldable pub is_type_property_read_update :
      TypePropertyAnnotationContainer Any → Class → String → Bool
  is_type_property_read_update r c member = default_to false (
      nearest (λ name. at r.type_property_name_to_is_read_update_map (key name member))
        (prototypes c))

  unfoldable pub get_type_property_remote_service_fetch_spec :
      TypePropertyAnnotationContainer Any → Class → String → Option (RemoteServiceFetchSpec Any)
  get_type_property_remote_service_fetch_spec r c member =
      nearest (λ name. at r.type_property_name_to_remote_service_fetch_spec_map (key name member))
        (prototypes c)
