-- ===== src/Annotations/ServiceFunction/Answers.antt =====
-- The answers about cron jobs, which are kept by service and function name with no walk up the
-- prototypes, and all the answers about a registration at once.
use lrzwasnla.Common.{
  ℕ, String, ◌≡◌, refl, ◌≢◌, Option, some, List, ◌∷◌, ◌++◌, All, at, at-put_self, at-put_ne,
}
use lrzwasnla.Annotations.Classes.{Class, prototypes, key}
use lrzwasnla.Annotations.ServiceFunction.Defs.{ServiceFunctionAnnotationContainer}
use lrzwasnla.Annotations.ServiceFunction.Adding.{dotted}
use lrzwasnla.Annotations.ServiceFunction.Asking.{
  get_service_function_name_to_cron_schedule_map,
  get_service_function_name_to_retry_intervals_in_secs_map,
}
use lrzwasnla.Annotations.ServiceFunction.Registrations.{
  Annotation, annotate, Free, no_captcha_annotation, allowed_user_roles,
  service_function_allowed_for_every_user,
  service_function_allowed_for_every_user_with_authentication,
  service_function_allowed_for_cluster_internal_use, service_function_allow_http_get_method,
  service_function_allowed_for_every_user_for_own_resources,
  service_function_allowed_for_service_internal_use, documentation_for_service_function,
  response_status_code_for_service_function, service_function_allowed_for_tests,
  errors_for_service_function, non_transactional_service_function,
  non_distributed_transactional_service_function, cron_schedule_for_service_function,
  retry_intervals_in_secs_for_service_function, update_annotation,
  response_headers_for_service_function, no_auto_test_annotation, on_start_up_annotation,
  create_annotation, delete_annotation, test_setup, service_function_audit_log, subscription,
  return_value_to_contain_in_tests, entity_to_contain_in_tests,
}
use lrzwasnla.Annotations.ServiceFunction.Views.{view, Shows}
use lrzwasnla.Annotations.ServiceFunction.Laws.{annotate-view_ne, annotate-Shows}

-- The schedule and the retry intervals under a name, `service.function`.
abbrev pub CronView : Type 0
CronView = Option String × Option (List ℕ)

module _ {Any : Type 0} where
  unfoldable pub cron_view : ServiceFunctionAnnotationContainer Any → String → CronView
  unfolding get_service_function_name_to_cron_schedule_map
      get_service_function_name_to_retry_intervals_in_secs_map
  cron_view r name = (
    at (get_service_function_name_to_cron_schedule_map r) name,
    at (get_service_function_name_to_retry_intervals_in_secs_map r) name,
  )

  -- What they say when a registration for a cron job is seen.
  abbrev pub ShowsCron : Annotation Any → CronView → Type 0
  ShowsCron (cron_schedule_for_service_function schedule) v = (v.0 ≡ some schedule)
  ShowsCron (retry_intervals_in_secs_for_service_function intervals) v = (v.1 ≡ some intervals)
  ShowsCron _ v = Unit

module _ {Any : Type 0} (r : ServiceFunctionAnnotationContainer Any) (owner : Class)
    (member : String) where
  annotate-cron_view_ne :
      (name : String) (a : Annotation Any)
      → dotted owner member ≢ name
      → cron_view (annotate a r owner member) name ≡ cron_view r name
  unfolding annotate cron_view
  annotate-cron_view_ne name no_captcha_annotation h = refl
  annotate-cron_view_ne name (allowed_user_roles _) h = refl
  annotate-cron_view_ne name (service_function_allowed_for_every_user _) h = refl
  annotate-cron_view_ne name (service_function_allowed_for_every_user_with_authentication _) h =
      refl
  annotate-cron_view_ne name service_function_allowed_for_cluster_internal_use h = refl
  annotate-cron_view_ne name service_function_allow_http_get_method h = refl
  annotate-cron_view_ne name (service_function_allowed_for_every_user_for_own_resources _) h = refl
  annotate-cron_view_ne name service_function_allowed_for_service_internal_use h = refl
  annotate-cron_view_ne name (documentation_for_service_function _) h = refl
  annotate-cron_view_ne name (response_status_code_for_service_function _) h = refl
  annotate-cron_view_ne name service_function_allowed_for_tests h = refl
  annotate-cron_view_ne name (errors_for_service_function _) h = refl
  annotate-cron_view_ne name non_transactional_service_function h = refl
  annotate-cron_view_ne name non_distributed_transactional_service_function h = refl
  annotate-cron_view_ne name (cron_schedule_for_service_function schedule) h =
      rw
        (at-put_ne r.service_function_name_to_cron_schedule_map (dotted owner member) name schedule
          h)
        refl
  annotate-cron_view_ne name (retry_intervals_in_secs_for_service_function intervals) h =
      rw
        (at-put_ne r.service_function_name_to_retry_intervals_in_secs_map (dotted owner member) name
          intervals h)
        refl
  annotate-cron_view_ne name (update_annotation _) h = refl
  annotate-cron_view_ne name (response_headers_for_service_function _) h = refl
  annotate-cron_view_ne name no_auto_test_annotation h = refl
  annotate-cron_view_ne name on_start_up_annotation h = refl
  annotate-cron_view_ne name create_annotation h = refl
  annotate-cron_view_ne name delete_annotation h = refl
  annotate-cron_view_ne name (test_setup _) h = refl
  annotate-cron_view_ne name (service_function_audit_log _ _) h = refl
  annotate-cron_view_ne name subscription h = refl
  annotate-cron_view_ne name (return_value_to_contain_in_tests _) h = refl
  annotate-cron_view_ne name (entity_to_contain_in_tests _) h = refl

  annotate-ShowsCron :
      (a : Annotation Any)
      → ShowsCron a (cron_view (annotate a r owner member) (dotted owner member))
  unfolding annotate cron_view
  annotate-ShowsCron no_captcha_annotation = tt
  annotate-ShowsCron (allowed_user_roles _) = tt
  annotate-ShowsCron (service_function_allowed_for_every_user _) = tt
  annotate-ShowsCron (service_function_allowed_for_every_user_with_authentication _) = tt
  annotate-ShowsCron service_function_allowed_for_cluster_internal_use = tt
  annotate-ShowsCron service_function_allow_http_get_method = tt
  annotate-ShowsCron (service_function_allowed_for_every_user_for_own_resources _) = tt
  annotate-ShowsCron service_function_allowed_for_service_internal_use = tt
  annotate-ShowsCron (documentation_for_service_function _) = tt
  annotate-ShowsCron (response_status_code_for_service_function _) = tt
  annotate-ShowsCron service_function_allowed_for_tests = tt
  annotate-ShowsCron (errors_for_service_function _) = tt
  annotate-ShowsCron non_transactional_service_function = tt
  annotate-ShowsCron non_distributed_transactional_service_function = tt
  annotate-ShowsCron (cron_schedule_for_service_function schedule) =
      at-put_self r.service_function_name_to_cron_schedule_map (dotted owner member) schedule
  annotate-ShowsCron (retry_intervals_in_secs_for_service_function intervals) =
      at-put_self r.service_function_name_to_retry_intervals_in_secs_map (dotted owner member)
        intervals
  annotate-ShowsCron (update_annotation _) = tt
  annotate-ShowsCron (response_headers_for_service_function _) = tt
  annotate-ShowsCron no_auto_test_annotation = tt
  annotate-ShowsCron on_start_up_annotation = tt
  annotate-ShowsCron create_annotation = tt
  annotate-ShowsCron delete_annotation = tt
  annotate-ShowsCron (test_setup _) = tt
  annotate-ShowsCron (service_function_audit_log _ _) = tt
  annotate-ShowsCron subscription = tt
  annotate-ShowsCron (return_value_to_contain_in_tests _) = tt
  annotate-ShowsCron (entity_to_contain_in_tests _) = tt

  -- A registration changes no answer about a function of a class if it shares the function's key
  -- on no prototype of the class, and no answer about a cron job of another name.
  pub annotate-answers_ne :
      (c : Class) (fn name : String) (a : Annotation Any)
      → All (λ prototype. key owner.name member ≢ key prototype fn) (prototypes c)
      → dotted owner member ≢ name
      → (view (annotate a r owner member) c fn ≡ view r c fn)
        × (cron_view (annotate a r owner member) name ≡ cron_view r name)
  annotate-answers_ne c fn name a other h =
      (annotate-view_ne r owner c member fn a other, annotate-cron_view_ne name a h)

  -- Each kind of registration on a class is what the answers show: one for a cron job under the
  -- name of the class itself, every other for every class that extends it, as long as no nearer
  -- class registered the same under the same function name.
  pub annotate-answers :
      (c : Class) (a : Annotation Any) (before after : List String)
      → prototypes c ≡ before ++ owner.name ∷ after
      → All
          (λ other. Free a r (key other member) × (key owner.name member ≢ key other member))
          before
      → Shows a (view (annotate a r owner member) c member)
        × ShowsCron a (cron_view (annotate a r owner member) (dotted owner member))
  annotate-answers c a before after e h =
      (annotate-Shows r owner c member a before after e h, annotate-ShowsCron a)
