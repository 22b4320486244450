-- ===== src/Annotations/ServiceFunction/Defs.antt =====
-- decorators/service/function/serviceFunctionAnnotationContainer.ts: the maps of the container.
-- `Any` is the source's `any`, the type of arguments and return values.
use lrzwasnla.Common.{ℕ, String, Bool, Option, List, [], Dict}
use lrzwasnla.Errors.{ErrorDefinition}

-- Update.ts
pub data UpdateType : Type 0 where
  update add_or_remove : UpdateType

-- ResponseHeaders.ts; `absent` is a header whose value is `undefined`
pub data HeaderValue (Any : Type 0) : Type 0 where
  text : String → HeaderValue Any
  generator : (Any → Any → Option String) → HeaderValue Any
  absent : HeaderValue Any

abbrev pub HttpHeaders : Type 0 → Type 0
HttpHeaders Any = Dict (HeaderValue Any)

-- PostTests.ts
pub record PostTestSpec (Any : Type 0) : Type 0 where
  pub test_name : String
  pub service_function_name : String
  pub argument : Option (Dict Any)
  pub expected_result : Dict Any

-- TestSetup.ts; a step is a string or a `TestSetupSpec`
pub record TestSetupSpec (Any : Type 0) : Type 0 where
  pub setup_step_name : String
  pub service_function_name : String
  pub argument : Option (Dict Any)
  pub postman_tests : Option (List String)

pub data TestSetupStep (Any : Type 0) : Type 0 where
  call : String → TestSetupStep Any
  spec : TestSetupSpec Any → TestSetupStep Any

pub record AuditLog (Any : Type 0) : Type 0 where
  pub should_log : Any → Any → Bool
  pub attributes_to_log : Any → Any → Dict Any

pub record ServiceFunctionAnnotationContainer (Any : Type 0) : Type 0 where
  pub service_function_name_to_has_no_captcha_annotation_map : Dict Bool
  pub service_function_name_to_is_allowed_for_every_user_map : Dict Bool
  pub service_function_name_to_is_allowed_for_every_user_with_authentication_map : Dict Bool
  pub service_function_name_to_is_allowed_for_cluster_internal_use_map : Dict Bool
  pub service_function_name_to_user_account_id_field_name : Dict String
  pub service_function_name_to_is_allowed_for_service_private_use_map : Dict Bool
  pub service_function_name_to_allowed_user_roles_map : Dict (List String)
  pub service_function_name_to_doc_string_map : Dict String
  pub service_function_name_to_allowed_for_tests_map : Dict Bool
  pub service_function_name_to_errors_map : Dict (List ErrorDefinition)
  pub service_function_name_to_is_not_transactional_map : Dict Bool
  pub service_function_name_to_is_not_distributed_transactional_map : Dict Bool
  pub service_function_name_to_cron_schedule_map : Dict String
  pub service_function_name_to_retry_intervals_in_secs_map : Dict (List ℕ)
  pub service_function_name_to_update_type_map : Dict UpdateType
  pub service_function_name_to_response_headers_map : Dict (HttpHeaders Any)
  pub service_function_name_to_has_no_auto_test_map : Dict Bool
  pub service_function_name_to_audit_log_map : Dict (AuditLog Any)
  pub service_function_name_to_allow_http_get_method_map : Dict Bool
  pub service_function_name_to_expected_response_field_path_name_to_field_value_map_map :
      Dict (Dict Any)
  pub service_function_name_to_post_test_specs_map : Dict (List (PostTestSpec Any))
  pub service_function_name_to_on_start_up_map : Dict Bool
  pub service_function_name_to_is_create_function_map : Dict Bool
  pub service_function_name_to_is_delete_function_map : Dict Bool
  pub service_function_name_to_response_status_code_map : Dict ℕ
  pub service_function_name_to_test_setup_map : Dict (List (TestSetupStep Any))
  pub service_function_name_to_subscription_map : Dict Bool

-- the container as a microservice starts with it
abbrev pub empty : {Any : Type 0} → ServiceFunctionAnnotationContainer Any
empty = record {
  service_function_name_to_has_no_captcha_annotation_map = [];
  service_function_name_to_is_allowed_for_every_user_map = [];
  service_function_name_to_is_allowed_for_every_user_with_authentication_map = [];
  service_function_name_to_is_allowed_for_cluster_internal_use_map = [];
  service_function_name_to_user_account_id_field_name = [];
  service_function_name_to_is_allowed_for_service_private_use_map = [];
  service_function_name_to_allowed_user_roles_map = [];
  service_function_name_to_doc_string_map = [];
  service_function_name_to_allowed_for_tests_map = [];
  service_function_name_to_errors_map = [];
  service_function_name_to_is_not_transactional_map = [];
  service_function_name_to_is_not_distributed_transactional_map = [];
  service_function_name_to_cron_schedule_map = [];
  service_function_name_to_retry_intervals_in_secs_map = [];
  service_function_name_to_update_type_map = [];
  service_function_name_to_response_headers_map = [];
  service_function_name_to_has_no_auto_test_map = [];
  service_function_name_to_audit_log_map = [];
  service_function_name_to_allow_http_get_method_map = [];
  service_function_name_to_expected_response_field_path_name_to_field_value_map_map = [];
  service_function_name_to_post_test_specs_map = [];
  service_function_name_to_on_start_up_map = [];
  service_function_name_to_is_create_function_map = [];
  service_function_name_to_is_delete_function_map = [];
  service_function_name_to_response_status_code_map = [];
  service_function_name_to_test_setup_map = [];
  service_function_name_to_subscription_map = [];
}
