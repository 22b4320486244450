-- ===== src/Annotations/Service/Views.antt =====
-- The registrations on a service class as data, and the answers of the container about it that
-- follow from them.
use lrzwasnla.Common.{String, Bool, true, ◌≡◌, Option, none, some, List, at}
use lrzwasnla.Annotations.Classes.{Class}
use lrzwasnla.Annotations.Service.{
  ServiceAnnotationContainer, add_no_auto_tests_annotation_to_service_class,
  add_allowed_user_roles_for_service, add_service_allowed_for_every_user,
  add_service_allowed_for_cluster_internal_use, add_documentation_for_service,
  get_allowed_user_roles, is_service_allowed_for_every_user,
  is_service_allowed_for_cluster_internal_use, has_no_auto_tests_annotation_for_service_class,
  get_documentation_for_service,
}

pub data ServiceAnnotation : Type 0 where
  no_auto_tests : ServiceAnnotation
  allowed_for_roles : List String → ServiceAnnotation
  allowed_for_every_user : Bool → ServiceAnnotation
  allowed_for_cluster : ServiceAnnotation
  documented : String → ServiceAnnotation

pub record ServiceView : Type 0 where
  pub auto_tests_are_off : Bool
  pub roles : List String
  pub every_user : Bool
  pub cluster : Bool
  pub documentation : Option String

unfoldable pub annotate_service :
    ServiceAnnotation → ServiceAnnotationContainer → Class → ServiceAnnotationContainer
unfolding add_no_auto_tests_annotation_to_service_class add_allowed_user_roles_for_service
    add_service_allowed_for_every_user add_service_allowed_for_cluster_internal_use
    add_documentation_for_service
annotate_service no_auto_tests r c = add_no_auto_tests_annotation_to_service_class r c
annotate_service (allowed_for_roles roles) r c = add_allowed_user_roles_for_service r c roles
annotate_service (allowed_for_every_user is_authentication_required) r c =
    add_service_allowed_for_every_user r c is_authentication_required
annotate_service allowed_for_cluster r c = add_service_allowed_for_cluster_internal_use r c
annotate_service (documented doc_string) r c = add_documentation_for_service r c doc_string

unfoldable pub service_view : ServiceAnnotationContainer → Class → ServiceView
unfolding get_allowed_user_roles is_service_allowed_for_every_user
    is_service_allowed_for_cluster_internal_use has_no_auto_tests_annotation_for_service_class
    get_documentation_for_service
service_view r c = record {
  auto_tests_are_off = has_no_auto_tests_annotation_for_service_class r c;
  roles = get_allowed_user_roles r c;
  every_user = is_service_allowed_for_every_user r c;
  cluster = is_service_allowed_for_cluster_internal_use r c;
  documentation = get_documentation_for_service r c;
}

-- Nothing of the same kind is registered under the name.
abbrev pub IsUnset : ServiceAnnotation → ServiceAnnotationContainer → String → Type 0
IsUnset no_auto_tests r k = at r.service_class_name_to_has_no_auto_tests_annotation_map k ≡ none
IsUnset (allowed_for_roles _) r k = at r.service_class_name_to_allowed_user_roles_map k ≡ none
IsUnset (allowed_for_every_user _) r k =
    at r.service_class_name_to_is_allowed_for_every_user_map k ≡ none
IsUnset allowed_for_cluster r k =
    at r.service_class_name_to_is_allowed_for_cluster_internal_use_map k ≡ none
IsUnset (documented _) r k = at r.service_class_name_to_doc_string_map k ≡ none

-- What the answers say when a registration is seen; whether a class that is open to every user
-- requires authentication is not among them.
abbrev pub IsSeen : ServiceAnnotation → ServiceView → Type 0
IsSeen no_auto_tests v = v.auto_tests_are_off ≡ true
IsSeen (allowed_for_roles roles) v = v.roles ≡ roles
IsSeen (allowed_for_every_user _) v = v.every_user ≡ true
IsSeen allowed_for_cluster v = v.cluster ≡ true
IsSeen (documented doc_string) v = v.documentation ≡ some doc_string
