-- ===== src/Annotations/ServiceFunction/Laws.antt =====
-- How the answers of the container follow from what was registered.
use lrzwasnla.Common.{String, ◌≡◌, refl, ◌≢◌, List, ◌∷◌, ◌++◌, All, true}
use lrzwasnla.Annotations.Classes.{Class, prototypes, key}
use lrzwasnla.Annotations.Keys.{unchanged, shown}
use lrzwasnla.Annotations.ServiceFunction.Defs.{ServiceFunctionAnnotationContainer}
use lrzwasnla.Annotations.ServiceFunction.Registrations.{
  Annotation, annotate, Free, no_captcha_annotation, allowed_user_roles,
  service_function_allowed_for_every_user,
  service_function_allowed_for_every_user_with_authentication,
  service_function_allowed_for_cluster_internal_use, service_function_allow_http_get_method,
  service_function_allowed_for_every_user_for_own_resources,
  service_function_allowed_for_service_internal_use, documentation_for_service_function,
  response_status_code_for_service_function, service_function_allowed_for_tests,
  errors_for_service_function, non_transactional_service_function,
  non_distributed_transactional_service_function, cron_schedule_for_service_function,
  retry_intervals_in_secs_for_service_function, update_annotation,
  response_headers_for_service_function, no_auto_test_annotation, on_start_up_annotation,
  create_annotation, delete_annotation, test_setup, service_function_audit_log, subscription,
  return_value_to_contain_in_tests, entity_to_contain_in_tests,
}
use lrzwasnla.Annotations.ServiceFunction.Views.{view, Shows}

module _ {Any : Type 0} (r : ServiceFunctionAnnotationContainer Any) (owner c : Class)
    (member : String) where
  -- A registration changes no answer about a function whose key it does not share on any prototype
  -- of the class that is asked about.
  pub annotate-view_ne :
      (fn : String) (a : Annotation Any)
      → All (λ name. key owner.name member ≢ key name fn) (prototypes c)
      → view (annotate a r owner member) c fn ≡ view r c fn
  unfolding annotate view
  annotate-view_ne fn no_captcha_annotation h =
      rw (
        unchanged owner c member fn h r.service_function_name_to_has_no_captcha_annotation_map true)
  annotate-view_ne fn (allowed_user_roles roles) h =
      rw (unchanged owner c member fn h r.service_function_name_to_allowed_user_roles_map roles)
  annotate-view_ne fn (service_function_allowed_for_every_user allow_despite_user_id_in_arg) h =
      rw (
        unchanged owner c member fn h r.service_function_name_to_is_allowed_for_every_user_map
          allow_despite_user_id_in_arg)
  annotate-view_ne fn
        (service_function_allowed_for_every_user_with_authentication is_authentication_required) h =
      rw (
        unchanged owner c member fn h
          r.service_function_name_to_is_allowed_for_every_user_with_authentication_map
          is_authentication_required)
  annotate-view_ne fn service_function_allowed_for_cluster_internal_use h = rw (
      unchanged owner c member fn h
        r.service_function_name_to_is_allowed_for_cluster_internal_use_map true)
  annotate-view_ne fn service_function_allow_http_get_method h =
      rw (unchanged owner c member fn h r.service_function_name_to_allow_http_get_method_map true)
  annotate-view_ne fn
        (service_function_allowed_for_every_user_for_own_resources user_account_id_field_name) h =
      rw (
        unchanged owner c member fn h r.service_function_name_to_user_account_id_field_name
          user_account_id_field_name)
  annotate-view_ne fn service_function_allowed_for_service_internal_use h = rw (
      unchanged owner c member fn h
        r.service_function_name_to_is_allowed_for_service_private_use_map true)
  annotate-view_ne fn (documentation_for_service_function doc_string) h =
      rw (unchanged owner c member fn h r.service_function_name_to_doc_string_map doc_string)
  annotate-view_ne fn (response_status_code_for_service_function status_code) h = rw (
      unchanged owner c member fn h r.service_function_name_to_response_status_code_map status_code)
  annotate-view_ne fn service_function_allowed_for_tests h =
      rw (unchanged owner c member fn h r.service_function_name_to_allowed_for_tests_map true)
  annotate-view_ne fn (errors_for_service_function errors) h =
      rw (unchanged owner c member fn h r.service_function_name_to_errors_map errors)
  annotate-view_ne fn non_transactional_service_function h =
      rw (unchanged owner c member fn h r.service_function_name_to_is_not_transactional_map true)
  annotate-view_ne fn non_distributed_transactional_service_function h = rw (
      unchanged owner c member fn h r.service_function_name_to_is_not_distributed_transactional_map
        true)
  annotate-view_ne fn (cron_schedule_for_service_function _) h = refl
  annotate-view_ne fn (retry_intervals_in_secs_for_service_function _) h = refl
  annotate-view_ne fn (update_annotation update_type) h =
      rw (unchanged owner c member fn h r.service_function_name_to_update_type_map update_type)
  annotate-view_ne fn (response_headers_for_service_function headers) h =
      rw (unchanged owner c member fn h r.service_function_name_to_response_headers_map headers)
  annotate-view_ne fn no_auto_test_annotation h =
      rw (unchanged owner c member fn h r.service_function_name_to_has_no_auto_test_map true)
  annotate-view_ne fn on_start_up_annotation h =
      rw (unchanged owner c member fn h r.service_function_name_to_on_start_up_map true)
  annotate-view_ne fn create_annotation h =
      rw (unchanged owner c member fn h r.service_function_name_to_is_create_function_map true)
  annotate-view_ne fn delete_annotation h =
      rw (unchanged owner c member fn h r.service_function_name_to_is_delete_function_map true)
  annotate-view_ne fn (test_setup service_functions_or_specs_to_execute) h = rw (
      unchanged owner c member fn h r.service_function_name_to_test_setup_map
        service_functions_or_specs_to_execute)
  annotate-view_ne fn (service_function_audit_log should_log attributes_to_log) h = rw (
      unchanged owner c member fn h r.service_function_name_to_audit_log_map
        (record { should_log = should_log; attributes_to_log = attributes_to_log }))
  annotate-view_ne fn subscription h =
      rw (unchanged owner c member fn h r.service_function_name_to_subscription_map true)
  annotate-view_ne fn (return_value_to_contain_in_tests field_path_name_to_field_value_map) h = rw (
      unchanged owner c member fn h
        r.service_function_name_to_expected_response_field_path_name_to_field_value_map_map
        field_path_name_to_field_value_map)
  annotate-view_ne fn (entity_to_contain_in_tests test_specs) h =
      rw (unchanged owner c member fn h r.service_function_name_to_post_test_specs_map test_specs)

  -- A registration on a class is what the answers show for every class that extends it, as long as
  -- no nearer class registered the same under the same function name.
  pub annotate-Shows :
      (a : Annotation Any) (before after : List String)
      → prototypes c ≡ before ++ owner.name ∷ after
      → All
          (λ other. Free a r (key other member) × (key owner.name member ≢ key other member))
          before
      → Shows a (view (annotate a r owner member) c member)
  unfolding annotate view
  annotate-Shows no_captcha_annotation before after e h = rw (
      shown owner c member before after e r.service_function_name_to_has_no_captcha_annotation_map
        true h)
  annotate-Shows (allowed_user_roles roles) before after e h = rw (
      shown owner c member before after e r.service_function_name_to_allowed_user_roles_map roles h)
  annotate-Shows (service_function_allowed_for_every_user allow_despite_user_id_in_arg) before after
        e h =
      (
        rw (
            shown owner c member before after e
              r.service_function_name_to_is_allowed_for_every_user_map allow_despite_user_id_in_arg
              h),
        rw (
            shown owner c member before after e
              r.service_function_name_to_is_allowed_for_every_user_map allow_despite_user_id_in_arg
              h),
      )
  annotate-Shows
        (service_function_allowed_for_every_user_with_authentication is_authentication_required)
        before after e h =
      rw (
        shown owner c member before after e
          r.service_function_name_to_is_allowed_for_every_user_with_authentication_map
          is_authentication_required h)
  annotate-Shows service_function_allowed_for_cluster_internal_use before after e h = rw (
      shown owner c member before after e
        r.service_function_name_to_is_allowed_for_cluster_internal_use_map true h)
  annotate-Shows service_function_allow_http_get_method before after e h = rw (
      shown owner c member before after e r.service_function_name_to_allow_http_get_method_map true
        h)
  annotate-Shows
        (service_function_allowed_for_every_user_for_own_resources user_account_id_field_name)
        before after e h =
      rw (
        shown owner c member before after e r.service_function_name_to_user_account_id_field_name
          user_account_id_field_name h)
  annotate-Shows service_function_allowed_for_service_internal_use before after e h = rw (
      shown owner c member before after e
        r.service_function_name_to_is_allowed_for_service_private_use_map true h)
  annotate-Shows (documentation_for_service_function doc_string) before after e h =
      rw
        (shown owner c member before after e r.service_function_name_to_doc_string_map doc_string h)
  annotate-Shows (response_status_code_for_service_function status_code) before after e h = rw (
      shown owner c member before after e r.service_function_name_to_response_status_code_map
        status_code h)
  annotate-Shows service_function_allowed_for_tests before after e h =
      rw (
        shown owner c member before after e r.service_function_name_to_allowed_for_tests_map true h)
  annotate-Shows (errors_for_service_function errors) before after e h =
      rw (shown owner c member before after e r.service_function_name_to_errors_map errors h)
  annotate-Shows non_transactional_service_function before after e h = rw (
      shown owner c member before after e r.service_function_name_to_is_not_transactional_map true
        h)
  annotate-Shows non_distributed_transactional_service_function before after e h = rw (
      shown owner c member before after e
        r.service_function_name_to_is_not_distributed_transactional_map true h)
  annotate-Shows (cron_schedule_for_service_function _) before after e h = tt
  annotate-Shows (retry_intervals_in_secs_for_service_function _) before after e h = tt
  annotate-Shows (update_annotation update_type) before after e h =
      rw (
        shown owner c member before after e r.service_function_name_to_update_type_map update_type
          h)
  annotate-Shows (response_headers_for_service_function headers) before after e h = rw (
      shown owner c member before after e r.service_function_name_to_response_headers_map headers h)
  annotate-Shows no_auto_test_annotation before after e h =
      rw
        (shown owner c member before after e r.service_function_name_to_has_no_auto_test_map true h)
  annotate-Shows on_start_up_annotation before after e h =
      rw (shown owner c member before after e r.service_function_name_to_on_start_up_map true h)
  annotate-Shows create_annotation before after e h =
      rw (
        shown owner c member before after e r.service_function_name_to_is_create_function_map true
          h)
  annotate-Shows delete_annotation before after e h =
      rw (
        shown owner c member before after e r.service_function_name_to_is_delete_function_map true
          h)
  annotate-Shows (test_setup service_functions_or_specs_to_execute) before after e h = rw (
      shown owner c member before after e r.service_function_name_to_test_setup_map
        service_functions_or_specs_to_execute h)
  annotate-Shows (service_function_audit_log should_log attributes_to_log) before after e h = rw (
      shown owner c member before after e r.service_function_name_to_audit_log_map
        (record { should_log = should_log; attributes_to_log = attributes_to_log }) h)
  annotate-Shows subscription before after e h =
      rw (shown owner c member before after e r.service_function_name_to_subscription_map true h)
  annotate-Shows (return_value_to_contain_in_tests field_path_name_to_field_value_map) before after
        e h =
      rw (
        shown owner c member before after e
          r.service_function_name_to_expected_response_field_path_name_to_field_value_map_map
          field_path_name_to_field_value_map h)
  annotate-Shows (entity_to_contain_in_tests test_specs) before after e h = rw (
      shown owner c member before after e r.service_function_name_to_post_test_specs_map test_specs
        h)
