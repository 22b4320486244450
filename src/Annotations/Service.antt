-- ===== src/Annotations/Service.antt =====
-- decorators/service/serviceAnnotationContainer.ts
pub mod Laws
pub mod Views
pub mod Registration
use lrzwasnla.Common.{
  String, Bool, true, Option, none, some, List, [], ◌∷◌, Dict, at, put, is_defined, default_to,
}
use lrzwasnla.Annotations.Classes.{Class, prototypes, nearest}

pub record ServiceAnnotationContainer : Type 0 where
  pub service_class_name_to_has_no_auto_tests_annotation_map : Dict Bool
  pub service_class_name_to_is_allowed_for_every_user_map : Dict Bool
  pub service_class_name_to_is_allowed_for_cluster_internal_use_map : Dict Bool
  pub service_class_name_to_allowed_user_roles_map : Dict (List String)
  pub service_class_name_to_doc_string_map : Dict String

-- the container as a microservice starts with it
abbrev pub empty : ServiceAnnotationContainer
empty = record {
  service_class_name_to_has_no_auto_tests_annotation_map = [];
  service_class_name_to_is_allowed_for_every_user_map = [];
  service_class_name_to_is_allowed_for_cluster_internal_use_map = [];
  service_class_name_to_allowed_user_roles_map = [];
  service_class_name_to_doc_string_map = [];
}

unfoldable pub add_no_auto_tests_annotation_to_service_class :
    ServiceAnnotationContainer → Class → ServiceAnnotationContainer
add_no_auto_tests_annotation_to_service_class r c = record r {
  service_class_name_to_has_no_auto_tests_annotation_map =
      put r.service_class_name_to_has_no_auto_tests_annotation_map (c.name) true;
}

unfoldable pub add_allowed_user_roles_for_service :
    ServiceAnnotationContainer → Class → List String → ServiceAnnotationContainer
add_allowed_user_roles_for_service r c roles = record r {
  service_class_name_to_allowed_user_roles_map =
      put r.service_class_name_to_allowed_user_roles_map (c.name) roles;
}

unfoldable pub add_service_allowed_for_every_user :
    ServiceAnnotationContainer → Class → Bool → ServiceAnnotationContainer
add_service_allowed_for_every_user r c is_authentication_required = record r {
  service_class_name_to_is_allowed_for_every_user_map =
      put r.service_class_name_to_is_allowed_for_every_user_map (c.name) is_authentication_required;
}

unfoldable pub add_service_allowed_for_cluster_internal_use :
    ServiceAnnotationContainer → Class → ServiceAnnotationContainer
add_service_allowed_for_cluster_internal_use r c = record r {
  service_class_name_to_is_allowed_for_cluster_internal_use_map =
      put r.service_class_name_to_is_allowed_for_cluster_internal_use_map (c.name) true;
}

unfoldable pub add_documentation_for_service :
    ServiceAnnotationContainer → Class → String → ServiceAnnotationContainer
add_documentation_for_service r c doc_string = record r {
  service_class_name_to_doc_string_map =
      put r.service_class_name_to_doc_string_map (c.name) doc_string;
}

unfoldable pub get_allowed_user_roles : ServiceAnnotationContainer → Class → List String
get_allowed_user_roles r c =
    default_to []
      (nearest (λ name. at r.service_class_name_to_allowed_user_roles_map name) (prototypes c))

unfoldable pub is_service_allowed_for_every_user : ServiceAnnotationContainer → Class → Bool
is_service_allowed_for_every_user r c =
    is_defined (
      nearest (λ name. at r.service_class_name_to_is_allowed_for_every_user_map name)
        (prototypes c))

-- The loop reads the value of each annotated prototype and drops it: there is no `return`.
scan_service_allowed_for_every_user : Dict Bool → List String → Bool
scan_service_allowed_for_every_user allowed [] = true
scan_service_allowed_for_every_user allowed (name ∷ rest) = elim (at allowed name) [
  | some v ↦ scan_service_allowed_for_every_user allowed rest
  | none ↦ scan_service_allowed_for_every_user allowed rest
]

unfoldable pub is_service_allowed_for_every_user_with_authentication :
    ServiceAnnotationContainer → Class → Bool
unfolding scan_service_allowed_for_every_user
is_service_allowed_for_every_user_with_authentication r c =
    scan_service_allowed_for_every_user r.service_class_name_to_is_allowed_for_every_user_map
      (prototypes c)

unfoldable pub is_service_allowed_for_cluster_internal_use :
    ServiceAnnotationContainer → Class → Bool
is_service_allowed_for_cluster_internal_use r c = is_defined (
    nearest (λ name. at r.service_class_name_to_is_allowed_for_cluster_internal_use_map name)
      (prototypes c))

unfoldable pub has_no_auto_tests_annotation_for_service_class :
    ServiceAnnotationContainer → Class → Bool
has_no_auto_tests_annotation_for_service_class r c = is_defined (
    nearest (λ name. at r.service_class_name_to_has_no_auto_tests_annotation_map name)
      (prototypes c))

unfoldable pub get_documentation_for_service : ServiceAnnotationContainer → Class → Option String
get_documentation_for_service r c =
    nearest (λ name. at r.service_class_name_to_doc_string_map name) (prototypes c)
