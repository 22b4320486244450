-- ===== src/Annotations/ServiceFunction/Asking.antt =====
-- decorators/service/function/serviceFunctionAnnotationContainer.ts: what the other parts ask.
use lrzwasnla.Common.{ℕ, String, Bool, Option, List, [], Dict, at, is_defined, default_to}
use lrzwasnla.Annotations.Classes.{Class, prototypes, nearest, key}
use lrzwasnla.Errors.{ErrorDefinition}
use lrzwasnla.Annotations.ServiceFunction.Defs.{
  UpdateType, HttpHeaders, PostTestSpec, TestSetupStep, AuditLog,
  ServiceFunctionAnnotationContainer,
}

module _ {Any : Type 0} where
  unfoldable pub get_allowed_user_roles :
      ServiceFunctionAnnotationContainer Any → Class → String → List String
  get_allowed_user_roles r c member = default_to [] (
      nearest (λ name. at r.service_function_name_to_allowed_user_roles_map (key name member))
        (prototypes c))

  unfoldable pub is_service_function_allowed_for_every_user :
      ServiceFunctionAnnotationContainer Any → Class → String → Bool
  is_service_function_allowed_for_every_user r c member = is_defined (
      nearest
        (λ name. at r.service_function_name_to_is_allowed_for_every_user_map (key name member))
        (prototypes c))

  unfoldable pub is_service_function_allowed_for_every_user_with_authentication :
      ServiceFunctionAnnotationContainer Any → Class → String → Option Bool
  is_service_function_allowed_for_every_user_with_authentication r c member =
      nearest
        (λ name.
          at r.service_function_name_to_is_allowed_for_every_user_with_authentication_map
            (key name member))
        (prototypes c)

  unfoldable pub is_service_function_allowed_for_every_user_despite_of_user_id_in_arg :
      ServiceFunctionAnnotationContainer Any → Class → String → Option Bool
  is_service_function_allowed_for_every_user_despite_of_user_id_in_arg r c member =
      nearest
        (λ name. at r.service_function_name_to_is_allowed_for_every_user_map (key name member))
        (prototypes c)

  unfoldable pub is_service_function_allowed_for_cluster_internal_use :
      ServiceFunctionAnnotationContainer Any → Class → String → Bool
  is_service_function_allowed_for_cluster_internal_use r c member = is_defined (
      nearest
        (λ name.
          at r.service_function_name_to_is_allowed_for_cluster_internal_use_map (key name member))
        (prototypes c))

  unfoldable pub is_service_function_allowed_for_every_user_for_own_resources :
      ServiceFunctionAnnotationContainer Any → Class → String → Option String
  is_service_function_allowed_for_every_user_for_own_resources r c member =
      nearest (λ name. at r.service_function_name_to_user_account_id_field_name (key name member))
        (prototypes c)

  unfoldable pub is_service_function_allowed_for_service_internal_use :
      ServiceFunctionAnnotationContainer Any → Class → String → Bool
  is_service_function_allowed_for_service_internal_use r c member = is_defined (
      nearest
        (λ name.
          at r.service_function_name_to_is_allowed_for_service_private_use_map (key name member))
        (prototypes c))

  unfoldable pub has_no_captcha_annotation_for_service_function :
      ServiceFunctionAnnotationContainer Any → Class → String → Bool
  has_no_captcha_annotation_for_service_function r c member = is_defined (
      nearest
        (λ name. at r.service_function_name_to_has_no_captcha_annotation_map (key name member))
        (prototypes c))

  unfoldable pub get_documentation_for_service_function :
      ServiceFunctionAnnotationContainer Any → Class → String → Option String
  get_documentation_for_service_function r c member =
      nearest (λ name. at r.service_function_name_to_doc_string_map (key name member))
        (prototypes c)

  unfoldable pub get_response_status_code_for_service_function :
      ServiceFunctionAnnotationContainer Any → Class → String → Option ℕ
  get_response_status_code_for_service_function r c member =
      nearest (λ name. at r.service_function_name_to_response_status_code_map (key name member))
        (prototypes c)

  unfoldable pub is_service_function_allowed_for_tests :
      ServiceFunctionAnnotationContainer Any → Class → String → Bool
  is_service_function_allowed_for_tests r c member = is_defined (
      nearest (λ name. at r.service_function_name_to_allowed_for_tests_map (key name member))
        (prototypes c))

  unfoldable pub get_errors_for_service_function :
      ServiceFunctionAnnotationContainer Any → Class → String → Option (List ErrorDefinition)
  get_errors_for_service_function r c member =
      nearest (λ name. at r.service_function_name_to_errors_map (key name member)) (prototypes c)

  unfoldable pub is_service_function_non_transactional :
      ServiceFunctionAnnotationContainer Any → Class → String → Bool
  is_service_function_non_transactional r c member = is_defined (
      nearest (λ name. at r.service_function_name_to_is_not_transactional_map (key name member))
        (prototypes c))

  unfoldable pub does_service_function_allow_http_get_method :
      ServiceFunctionAnnotationContainer Any → Class → String → Bool
  does_service_function_allow_http_get_method r c member = is_defined (
      nearest (λ name. at r.service_function_name_to_allow_http_get_method_map (key name member))
        (prototypes c))

  unfoldable pub is_service_function_non_distributed_transactional :
      ServiceFunctionAnnotationContainer Any → Class → String → Bool
  is_service_function_non_distributed_transactional r c member = is_defined (
      nearest
        (λ name.
          at r.service_function_name_to_is_not_distributed_transactional_map (key name member))
        (prototypes c))

  unfoldable pub get_update_type_for_service_function :
      ServiceFunctionAnnotationContainer Any → Class → String → Option UpdateType
  get_update_type_for_service_function r c member =
      nearest (λ name. at r.service_function_name_to_update_type_map (key name member))
        (prototypes c)

  unfoldable pub is_create_service_function :
      ServiceFunctionAnnotationContainer Any → Class → String → Bool
  is_create_service_function r c member = is_defined (
      nearest (λ name. at r.service_function_name_to_is_create_function_map (key name member))
        (prototypes c))

  unfoldable pub is_delete_service_function :
      ServiceFunctionAnnotationContainer Any → Class → String → Bool
  is_delete_service_function r c member = is_defined (
      nearest (λ name. at r.service_function_name_to_is_delete_function_map (key name member))
        (prototypes c))

  unfoldable pub get_service_function_name_to_cron_schedule_map :
      ServiceFunctionAnnotationContainer Any → Dict String
  get_service_function_name_to_cron_schedule_map r = r.service_function_name_to_cron_schedule_map

  unfoldable pub get_service_function_name_to_retry_intervals_in_secs_map :
      ServiceFunctionAnnotationContainer Any → Dict (List ℕ)
  get_service_function_name_to_retry_intervals_in_secs_map r =
      r.service_function_name_to_retry_intervals_in_secs_map

  unfoldable pub get_response_headers_for_service_function :
      ServiceFunctionAnnotationContainer Any → Class → String → Option (HttpHeaders Any)
  get_response_headers_for_service_function r c member =
      nearest (λ name. at r.service_function_name_to_response_headers_map (key name member))
        (prototypes c)

  unfoldable pub has_no_auto_tests : ServiceFunctionAnnotationContainer Any → Class → String → Bool
  has_no_auto_tests r c member = is_defined (
      nearest (λ name. at r.service_function_name_to_has_no_auto_test_map (key name member))
        (prototypes c))

  unfoldable pub has_on_start_up : ServiceFunctionAnnotationContainer Any → Class → String → Bool
  has_on_start_up r c member = is_defined (
      nearest (λ name. at r.service_function_name_to_on_start_up_map (key name member))
        (prototypes c))

  unfoldable pub get_expected_response_value_field_path_name_to_field_value_map_for_tests :
      ServiceFunctionAnnotationContainer Any → Class → String → Option (Dict Any)
  get_expected_response_value_field_path_name_to_field_value_map_for_tests r c member =
      nearest
        (λ name.
          at r.service_function_name_to_expected_response_field_path_name_to_field_value_map_map
            (key name member))
        (prototypes c)

  unfoldable pub get_post_test_specs :
      ServiceFunctionAnnotationContainer Any → Class → String → Option (List (PostTestSpec Any))
  get_post_test_specs r c member =
      nearest (λ name. at r.service_function_name_to_post_test_specs_map (key name member))
        (prototypes c)

  unfoldable pub get_test_setup :
      ServiceFunctionAnnotationContainer Any → Class → String → Option (List (TestSetupStep Any))
  get_test_setup r c member =
      nearest (λ name. at r.service_function_name_to_test_setup_map (key name member))
        (prototypes c)

  unfoldable pub get_audit_log :
      ServiceFunctionAnnotationContainer Any → Class → String → Option (AuditLog Any)
  get_audit_log r c member =
      nearest (λ name. at r.service_function_name_to_audit_log_map (key name member)) (prototypes c)

  unfoldable pub is_subscription : ServiceFunctionAnnotationContainer Any → Class → String → Bool
  is_subscription r c member = is_defined (
      nearest (λ name. at r.service_function_name_to_subscription_map (key name member))
        (prototypes c))
