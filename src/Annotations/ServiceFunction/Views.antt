-- ===== src/Annotations/ServiceFunction/Views.antt =====
-- All the answers of the container about one function at once, and what they say of a registration.
use lrzwasnla.Common.{ℕ, String, Bool, true, ◌≡◌, Option, some, List, Dict}
use lrzwasnla.Annotations.Classes.{Class}
use lrzwasnla.Errors.{ErrorDefinition}
use lrzwasnla.Annotations.ServiceFunction.Defs.{
  UpdateType, HttpHeaders, PostTestSpec, TestSetupStep, AuditLog,
  ServiceFunctionAnnotationContainer,
}
use lrzwasnla.Annotations.ServiceFunction.Asking.{
  get_allowed_user_roles, is_service_function_allowed_for_every_user,
  is_service_function_allowed_for_every_user_with_authentication,
  is_service_function_allowed_for_every_user_despite_of_user_id_in_arg,
  is_service_function_allowed_for_cluster_internal_use,
  is_service_function_allowed_for_every_user_for_own_resources,
  is_service_function_allowed_for_service_internal_use,
  has_no_captcha_annotation_for_service_function, get_documentation_for_service_function,
  get_response_status_code_for_service_function, is_service_function_allowed_for_tests,
  get_errors_for_service_function, is_service_function_non_transactional,
  does_service_function_allow_http_get_method, is_service_function_non_distributed_transactional,
  get_update_type_for_service_function, is_create_service_function, is_delete_service_function,
  get_response_headers_for_service_function, has_no_auto_tests, has_on_start_up,
  get_expected_response_value_field_path_name_to_field_value_map_for_tests, get_post_test_specs,
  get_test_setup, get_audit_log, is_subscription,
}
use lrzwasnla.Annotations.ServiceFunction.Registrations.{
  Annotation, no_captcha_annotation, allowed_user_roles, service_function_allowed_for_every_user,
  service_function_allowed_for_every_user_with_authentication,
  service_function_allowed_for_cluster_internal_use, service_function_allow_http_get_method,
  service_function_allowed_for_every_user_for_own_resources,
  service_function_allowed_for_service_internal_use, documentation_for_service_function,
  response_status_code_for_service_function, service_function_allowed_for_tests,
  errors_for_service_function, non_transactional_service_function,
  non_distributed_transactional_service_function, cron_schedule_for_service_function,
  retry_intervals_in_secs_for_service_function, update_annotation,
  response_headers_for_service_function, no_auto_test_annotation, on_start_up_annotation,
  create_annotation, delete_annotation, test_setup, service_function_audit_log, subscription,
  return_value_to_contain_in_tests, entity_to_contain_in_tests,
}

-- The answers to every question that walks the prototypes.
pub record View (Any : Type 0) : Type 0 where
  pub allowed_user_roles : List String
  pub service_function_allowed_for_every_user : Bool
  pub service_function_allowed_for_every_user_with_authentication : Option Bool
  pub service_function_allowed_for_every_user_despite_of_user_id_in_arg : Option Bool
  pub service_function_allowed_for_cluster_internal_use : Bool
  pub service_function_allowed_for_every_user_for_own_resources : Option String
  pub service_function_allowed_for_service_internal_use : Bool
  pub no_captcha_annotation_for_service_function : Bool
  pub documentation_for_service_function : Option String
  pub response_status_code_for_service_function : Option ℕ
  pub service_function_allowed_for_tests : Bool
  pub errors_for_service_function : Option (List ErrorDefinition)
  pub service_function_non_transactional : Bool
  pub service_function_allow_http_get_method : Bool
  pub service_function_non_distributed_transactional : Bool
  pub update_type_for_service_function : Option UpdateType
  pub create_service_function : Bool
  pub delete_service_function : Bool
  pub response_headers_for_service_function : Option (HttpHeaders Any)
  pub no_auto_tests : Bool
  pub on_start_up : Bool
  pub expected_response_value_field_path_name_to_field_value_map_for_tests : Option (Dict Any)
  pub post_test_specs : Option (List (PostTestSpec Any))
  pub test_setup : Option (List (TestSetupStep Any))
  pub audit_log : Option (AuditLog Any)
  pub subscription : Bool

module _ {Any : Type 0} where
  unfoldable pub view : ServiceFunctionAnnotationContainer Any → Class → String → View Any
  unfolding get_allowed_user_roles is_service_function_allowed_for_every_user
      is_service_function_allowed_for_every_user_with_authentication
      is_service_function_allowed_for_every_user_despite_of_user_id_in_arg
      is_service_function_allowed_for_cluster_internal_use
      is_service_function_allowed_for_every_user_for_own_resources
      is_service_function_allowed_for_service_internal_use
      has_no_captcha_annotation_for_service_function get_documentation_for_service_function
      get_response_status_code_for_service_function is_service_function_allowed_for_tests
      get_errors_for_service_function is_service_function_non_transactional
      does_service_function_allow_http_get_method is_service_function_non_distributed_transactional
      get_update_type_for_service_function is_create_service_function is_delete_service_function
      get_response_headers_for_service_function has_no_auto_tests has_on_start_up
      get_expected_response_value_field_path_name_to_field_value_map_for_tests get_post_test_specs
      get_test_setup get_audit_log is_subscription
  view r c member = record {
    allowed_user_roles = get_allowed_user_roles r c member;
    service_function_allowed_for_every_user = is_service_function_allowed_for_every_user r c member;
    service_function_allowed_for_every_user_with_authentication =
        is_service_function_allowed_for_every_user_with_authentication r c member;
    service_function_allowed_for_every_user_despite_of_user_id_in_arg =
        is_service_function_allowed_for_every_user_despite_of_user_id_in_arg r c member;
    service_function_allowed_for_cluster_internal_use =
        is_service_function_allowed_for_cluster_internal_use r c member;
    service_function_allowed_for_every_user_for_own_resources =
        is_service_function_allowed_for_every_user_for_own_resources r c member;
    service_function_allowed_for_service_internal_use =
        is_service_function_allowed_for_service_internal_use r c member;
    no_captcha_annotation_for_service_function =
        has_no_captcha_annotation_for_service_function r c member;
    documentation_for_service_function = get_documentation_for_service_function r c member;
    response_status_code_for_service_function =
        get_response_status_code_for_service_function r c member;
    service_function_allowed_for_tests = is_service_function_allowed_for_tests r c member;
    errors_for_service_function = get_errors_for_service_function r c member;
    service_function_non_transactional = is_service_function_non_transactional r c member;
    service_function_allow_http_get_method = does_service_function_allow_http_get_method r c member;
    service_function_non_distributed_transactional =
        is_service_function_non_distributed_transactional r c member;
    update_type_for_service_function = get_update_type_for_service_function r c member;
    create_service_function = is_create_service_function r c member;
    delete_service_function = is_delete_service_function r c member;
    response_headers_for_service_function = get_response_headers_for_service_function r c member;
    no_auto_tests = has_no_auto_tests r c member;
    on_start_up = has_on_start_up r c member;
    expected_response_value_field_path_name_to_field_value_map_for_tests =
        get_expected_response_value_field_path_name_to_field_value_map_for_tests r c member;
    post_test_specs = get_post_test_specs r c member;
    test_setup = get_test_setup r c member;
    audit_log = get_audit_log r c member;
    subscription = is_subscription r c member;
  }

  -- What the answers say when a registration is seen.
  abbrev pub Shows : Annotation Any → View Any → Type 0
  Shows no_captcha_annotation v = (v.no_captcha_annotation_for_service_function ≡ true)
  Shows (allowed_user_roles roles) v = (v.allowed_user_roles ≡ roles)
  Shows (service_function_allowed_for_every_user allow_despite_user_id_in_arg) v =
      (v.service_function_allowed_for_every_user ≡ true)
      × (v.service_function_allowed_for_every_user_despite_of_user_id_in_arg
          ≡ some allow_despite_user_id_in_arg)
  Shows (service_function_allowed_for_every_user_with_authentication is_authentication_required) v =
      (v.service_function_allowed_for_every_user_with_authentication
        ≡ some is_authentication_required)
  Shows service_function_allowed_for_cluster_internal_use v =
      (v.service_function_allowed_for_cluster_internal_use ≡ true)
  Shows service_function_allow_http_get_method v = (v.service_function_allow_http_get_method ≡ true)
  Shows (service_function_allowed_for_every_user_for_own_resources user_account_id_field_name) v =
      (v.service_function_allowed_for_every_user_for_own_resources
        ≡ some user_account_id_field_name)
  Shows service_function_allowed_for_service_internal_use v =
      (v.service_function_allowed_for_service_internal_use ≡ true)
  Shows (documentation_for_service_function doc_string) v =
      (v.documentation_for_service_function ≡ some doc_string)
  Shows (response_status_code_for_service_function status_code) v =
      (v.response_status_code_for_service_function ≡ some status_code)
  Shows service_function_allowed_for_tests v = (v.service_function_allowed_for_tests ≡ true)
  Shows (errors_for_service_function errors) v = (v.errors_for_service_function ≡ some errors)
  Shows non_transactional_service_function v = (v.service_function_non_transactional ≡ true)
  Shows non_distributed_transactional_service_function v =
      (v.service_function_non_distributed_transactional ≡ true)
  Shows (cron_schedule_for_service_function _) v = Unit
  Shows (retry_intervals_in_secs_for_service_function _) v = Unit
  Shows (update_annotation update_type) v = (v.update_type_for_service_function ≡ some update_type)
  Shows (response_headers_for_service_function headers) v =
      (v.response_headers_for_service_function ≡ some headers)
  Shows no_auto_test_annotation v = (v.no_auto_tests ≡ true)
  Shows on_start_up_annotation v = (v.on_start_up ≡ true)
  Shows create_annotation v = (v.create_service_function ≡ true)
  Shows delete_annotation v = (v.delete_service_function ≡ true)
  Shows (test_setup service_functions_or_specs_to_execute) v =
      (v.test_setup ≡ some service_functions_or_specs_to_execute)
  Shows (service_function_audit_log should_log attributes_to_log) v =
      (v.audit_log
        ≡ some (record { should_log = should_log; attributes_to_log = attributes_to_log }))
  Shows subscription v = (v.subscription ≡ true)
  Shows (return_value_to_contain_in_tests field_path_name_to_field_value_map) v =
      (v.expected_response_value_field_path_name_to_field_value_map_for_tests
        ≡ some field_path_name_to_field_value_map)
  Shows (entity_to_contain_in_tests test_specs) v = (v.post_test_specs ≡ some test_specs)
