-- ===== src/Annotations/Service/Registration.antt =====
-- How the answers about a service class follow from what was registered.
use lrzwasnla.Common.{String, ◌≡◌, ◌≢◌, true, none, some, List, ◌∷◌, ◌++◌, All, Dict, at, put}
use lrzwasnla.Annotations.Classes.{Class, prototypes, nearest, nearest-put_ne, nearest-put_self}
use lrzwasnla.Annotations.Service.{ServiceAnnotationContainer}
use lrzwasnla.Annotations.Service.Views.{
  ServiceAnnotation, no_auto_tests, allowed_for_roles, allowed_for_every_user, allowed_for_cluster,
  documented, annotate_service, service_view, IsUnset, IsSeen,
}

module _ (r : ServiceAnnotationContainer) (owner c : Class) where
  unseen {ℓ} :
      {V : Type ℓ} (d : Dict V) (v : V)
      → All (λ name. owner.name ≢ name) (prototypes c)
      → nearest (λ name. at (put d owner.name v) name) (prototypes c)
        ≡ nearest (λ name. at d name) (prototypes c)
  unseen d v h = nearest-put_ne d owner.name v (λ name. name) (prototypes c) h

  seen {ℓ} :
      {V : Type ℓ} (before after : List String) (d : Dict V) (v : V)
      → prototypes c ≡ before ++ owner.name ∷ after
      → All (λ other. (at d other ≡ none) × (owner.name ≢ other)) before
      → nearest (λ name. at (put d owner.name v) name) (prototypes c) ≡ some v
  seen before after d v e h = rw e (nearest-put_self d v (λ name. name) before after owner.name h)

  -- A registration on a service class changes no answer about a class that does not extend it.
  annotate_service-service_view_ne :
      (a : ServiceAnnotation)
      → All (λ name. owner.name ≢ name) (prototypes c)
      → service_view (annotate_service a r owner) c ≡ service_view r c
  unfolding annotate_service service_view
  annotate_service-service_view_ne no_auto_tests h =
      rw (unseen r.service_class_name_to_has_no_auto_tests_annotation_map true h)
  annotate_service-service_view_ne (allowed_for_roles roles) h =
      rw (unseen r.service_class_name_to_allowed_user_roles_map roles h)
  annotate_service-service_view_ne (allowed_for_every_user required) h =
      rw (unseen r.service_class_name_to_is_allowed_for_every_user_map required h)
  annotate_service-service_view_ne allowed_for_cluster h =
      rw (unseen r.service_class_name_to_is_allowed_for_cluster_internal_use_map true h)
  annotate_service-service_view_ne (documented text) h =
      rw (unseen r.service_class_name_to_doc_string_map text h)

  -- A registration on a service class is what the answers show for every class that extends it, as
  -- long as no nearer class registered the same.
  annotate_service-IsSeen :
      (a : ServiceAnnotation) (before after : List String)
      → prototypes c ≡ before ++ owner.name ∷ after
      → All (λ other. IsUnset a r other × (owner.name ≢ other)) before
      → IsSeen a (service_view (annotate_service a r owner) c)
  unfolding annotate_service service_view
  annotate_service-IsSeen no_auto_tests before after e h =
      rw (seen before after r.service_class_name_to_has_no_auto_tests_annotation_map true e h)
  annotate_service-IsSeen (allowed_for_roles roles) before after e h =
      rw (seen before after r.service_class_name_to_allowed_user_roles_map roles e h)
  annotate_service-IsSeen (allowed_for_every_user required) before after e h =
      rw (seen before after r.service_class_name_to_is_allowed_for_every_user_map required e h)
  annotate_service-IsSeen allowed_for_cluster before after e h =
      rw
        (seen before after r.service_class_name_to_is_allowed_for_cluster_internal_use_map true e h)
  annotate_service-IsSeen (documented text) before after e h =
      rw (seen before after r.service_class_name_to_doc_string_map text e h)
