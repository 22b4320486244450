-- ===== src/Annotations/ServiceFunction/Registrations.antt =====
-- The registrations on a function as data.
use lrzwasnla.Common.{ℕ, String, Bool, ◌≡◌, none, List, Dict, at}
use lrzwasnla.Annotations.Classes.{Class}
use lrzwasnla.Errors.{ErrorDefinition}
use lrzwasnla.Annotations.ServiceFunction.Defs.{
  UpdateType, HttpHeaders, PostTestSpec, TestSetupStep, ServiceFunctionAnnotationContainer,
}
use lrzwasnla.Annotations.ServiceFunction.AddingAccess.{
  add_no_captcha_annotation, add_allowed_user_roles, add_service_function_allowed_for_every_user,
  add_service_function_allowed_for_every_user_with_authentication,
  add_service_function_allowed_for_cluster_internal_use, add_service_function_allow_http_get_method,
  add_service_function_allowed_for_every_user_for_own_resources,
  add_service_function_allowed_for_service_internal_use, add_service_function_allowed_for_tests,
}
use lrzwasnla.Annotations.ServiceFunction.Adding.{
  add_documentation_for_service_function, add_response_status_code_for_service_function,
  add_errors_for_service_function, add_non_transactional_service_function,
  add_non_distributed_transactional_service_function, add_cron_schedule_for_service_function,
  add_retry_intervals_in_secs_for_service_function, add_update_annotation,
  add_response_headers_for_service_function, add_no_auto_test_annotation,
  add_on_start_up_annotation, add_create_annotation, add_delete_annotation, add_test_setup,
  add_service_function_audit_log, add_subscription,
  expect_service_function_return_value_to_contain_in_tests,
  expect_service_function_entity_to_contain_in_tests,
}

-- One registration, with what it registers.
pub data Annotation (Any : Type 0) : Type 0 where
  no_captcha_annotation : Annotation Any
  allowed_user_roles : List String → Annotation Any
  service_function_allowed_for_every_user : Bool → Annotation Any
  service_function_allowed_for_every_user_with_authentication : Bool → Annotation Any
  service_function_allowed_for_cluster_internal_use : Annotation Any
  service_function_allow_http_get_method : Annotation Any
  service_function_allowed_for_every_user_for_own_resources : String → Annotation Any
  service_function_allowed_for_service_internal_use : Annotation Any
  documentation_for_service_function : String → Annotation Any
  response_status_code_for_service_function : ℕ → Annotation Any
  service_function_allowed_for_tests : Annotation Any
  errors_for_service_function : List ErrorDefinition → Annotation Any
  non_transactional_service_function : Annotation Any
  non_distributed_transactional_service_function : Annotation Any
  cron_schedule_for_service_function : String → Annotation Any
  retry_intervals_in_secs_for_service_function : List ℕ → Annotation Any
  update_annotation : UpdateType → Annotation Any
  response_headers_for_service_function : HttpHeaders Any → Annotation Any
  no_auto_test_annotation : Annotation Any
  on_start_up_annotation : Annotation Any
  create_annotation : Annotation Any
  delete_annotation : Annotation Any
  test_setup : List (TestSetupStep Any) → Annotation Any
  service_function_audit_log : (Any → Any → Bool) → (Any → Any → Dict Any) → Annotation Any
  subscription : Annotation Any
  return_value_to_contain_in_tests : Dict Any → Annotation Any
  entity_to_contain_in_tests : List (PostTestSpec Any) → Annotation Any

module _ {Any : Type 0} where
  unfoldable pub annotate :
      Annotation Any
      → ServiceFunctionAnnotationContainer Any
      → Class
      → String
      → ServiceFunctionAnnotationContainer Any
  unfolding add_no_captcha_annotation add_allowed_user_roles
      add_service_function_allowed_for_every_user
      add_service_function_allowed_for_every_user_with_authentication
      add_service_function_allowed_for_cluster_internal_use
      add_service_function_allow_http_get_method
      add_service_function_allowed_for_every_user_for_own_resources
      add_service_function_allowed_for_service_internal_use add_documentation_for_service_function
      add_response_status_code_for_service_function add_service_function_allowed_for_tests
      add_errors_for_service_function add_non_transactional_service_function
      add_non_distributed_transactional_service_function add_cron_schedule_for_service_function
      add_retry_intervals_in_secs_for_service_function add_update_annotation
      add_response_headers_for_service_function add_no_auto_test_annotation
      add_on_start_up_annotation add_create_annotation add_delete_annotation add_test_setup
      add_service_function_audit_log add_subscription
      expect_service_function_return_value_to_contain_in_tests
      expect_service_function_entity_to_contain_in_tests
  annotate no_captcha_annotation r c member = add_no_captcha_annotation r c member
  annotate (allowed_user_roles roles) r c member = add_allowed_user_roles r c member roles
  annotate (service_function_allowed_for_every_user allow_despite_user_id_in_arg) r c member =
      add_service_function_allowed_for_every_user r c member allow_despite_user_id_in_arg
  annotate (service_function_allowed_for_every_user_with_authentication is_authentication_required)
        r c member =
      add_service_function_allowed_for_every_user_with_authentication r c member
        is_authentication_required
  annotate service_function_allowed_for_cluster_internal_use r c member =
      add_service_function_allowed_for_cluster_internal_use r c member
  annotate service_function_allow_http_get_method r c member =
      add_service_function_allow_http_get_method r c member
  annotate (service_function_allowed_for_every_user_for_own_resources user_account_id_field_name) r
        c member =
      add_service_function_allowed_for_every_user_for_own_resources r c member
        user_account_id_field_name
  annotate service_function_allowed_for_service_internal_use r c member =
      add_service_function_allowed_for_service_internal_use r c member
  annotate (documentation_for_service_function doc_string) r c member =
      add_documentation_for_service_function r c member doc_string
  annotate (response_status_code_for_service_function status_code) r c member =
      add_response_status_code_for_service_function r c member status_code
  annotate service_function_allowed_for_tests r c member =
      add_service_function_allowed_for_tests r c member
  annotate (errors_for_service_function errors) r c member =
      add_errors_for_service_function r c member errors
  annotate non_transactional_service_function r c member =
      add_non_transactional_service_function r c member
  annotate non_distributed_transactional_service_function r c member =
      add_non_distributed_transactional_service_function r c member
  annotate (cron_schedule_for_service_function cron_schedule) r c member =
      add_cron_schedule_for_service_function r c member cron_schedule
  annotate (retry_intervals_in_secs_for_service_function retry_intervals_in_secs) r c member =
      add_retry_intervals_in_secs_for_service_function r c member retry_intervals_in_secs
  annotate (update_annotation update_type) r c member = add_update_annotation r c member update_type
  annotate (response_headers_for_service_function headers) r c member =
      add_response_headers_for_service_function r c member headers
  annotate no_auto_test_annotation r c member = add_no_auto_test_annotation r c member
  annotate on_start_up_annotation r c member = add_on_start_up_annotation r c member
  annotate create_annotation r c member = add_create_annotation r c member
  annotate delete_annotation r c member = add_delete_annotation r c member
  annotate (test_setup service_functions_or_specs_to_execute) r c member =
      add_test_setup r c member service_functions_or_specs_to_execute
  annotate (service_function_audit_log should_log attributes_to_log) r c member =
      add_service_function_audit_log r c member should_log attributes_to_log
  annotate subscription r c member = add_subscription r c member
  annotate (return_value_to_contain_in_tests field_path_name_to_field_value_map) r c member =
      expect_service_function_return_value_to_contain_in_tests r c member
        field_path_name_to_field_value_map
  annotate (entity_to_contain_in_tests test_specs) r c member =
      expect_service_function_entity_to_contain_in_tests r c member test_specs

  -- Nothing of the same kind is registered under the key.
  abbrev pub Free : Annotation Any → ServiceFunctionAnnotationContainer Any → String → Type 0
  Free no_captcha_annotation r k =
      at r.service_function_name_to_has_no_captcha_annotation_map k ≡ none
  Free (allowed_user_roles _) r k = at r.service_function_name_to_allowed_user_roles_map k ≡ none
  Free (service_function_allowed_for_every_user _) r k =
      at r.service_function_name_to_is_allowed_for_every_user_map k ≡ none
  Free (service_function_allowed_for_every_user_with_authentication _) r k =
      at r.service_function_name_to_is_allowed_for_every_user_with_authentication_map k ≡ none
  Free service_function_allowed_for_cluster_internal_use r k =
      at r.service_function_name_to_is_allowed_for_cluster_internal_use_map k ≡ none
  Free service_function_allow_http_get_method r k =
      at r.service_function_name_to_allow_http_get_method_map k ≡ none
  Free (service_function_allowed_for_every_user_for_own_resources _) r k =
      at r.service_function_name_to_user_account_id_field_name k ≡ none
  Free service_function_allowed_for_service_internal_use r k =
      at r.service_function_name_to_is_allowed_for_service_private_use_map k ≡ none
  Free (documentation_for_service_function _) r k =
      at r.service_function_name_to_doc_string_map k ≡ none
  Free (response_status_code_for_service_function _) r k =
      at r.service_function_name_to_response_status_code_map k ≡ none
  Free service_function_allowed_for_tests r k =
      at r.service_function_name_to_allowed_for_tests_map k ≡ none
  Free (errors_for_service_function _) r k = at r.service_function_name_to_errors_map k ≡ none
  Free non_transactional_service_function r k =
      at r.service_function_name_to_is_not_transactional_map k ≡ none
  Free non_distributed_transactional_service_function r k =
      at r.service_function_name_to_is_not_distributed_transactional_map k ≡ none
  Free (cron_schedule_for_service_function _) r k = Unit
  Free (retry_intervals_in_secs_for_service_function _) r k = Unit
  Free (update_annotation _) r k = at r.service_function_name_to_update_type_map k ≡ none
  Free (response_headers_for_service_function _) r k =
      at r.service_function_name_to_response_headers_map k ≡ none
  Free no_auto_test_annotation r k = at r.service_function_name_to_has_no_auto_test_map k ≡ none
  Free on_start_up_annotation r k = at r.service_function_name_to_on_start_up_map k ≡ none
  Free create_annotation r k = at r.service_function_name_to_is_create_function_map k ≡ none
  Free delete_annotation r k = at r.service_function_name_to_is_delete_function_map k ≡ none
  Free (test_setup _) r k = at r.service_function_name_to_test_setup_map k ≡ none
  Free (service_function_audit_log _ _) r k = at r.service_function_name_to_audit_log_map k ≡ none
  Free subscription r k = at r.service_function_name_to_subscription_map k ≡ none
  Free (return_value_to_contain_in_tests _) r k =
      at r.service_function_name_to_expected_response_field_path_name_to_field_value_map_map k
      ≡ none
  Free (entity_to_contain_in_tests _) r k =
      at r.service_function_name_to_post_test_specs_map k ≡ none
