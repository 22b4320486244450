-- ===== src/Annotations/ServiceFunction/Adding.antt =====
-- decorators/service/function/serviceFunctionAnnotationContainer.ts: what the other decorators
-- register: documentation, errors, transactions, jobs, tests, headers and auditing.
use Prim.Native.String
use lrzwasnla.Common.{ℕ, String, Bool, true, List, Dict, put}
use lrzwasnla.Annotations.Classes.{Class, key}
use lrzwasnla.Errors.{ErrorDefinition}
use lrzwasnla.Annotations.ServiceFunction.Defs.{
  UpdateType, HttpHeaders, PostTestSpec, TestSetupStep, ServiceFunctionAnnotationContainer,
}

-- the key of the two maps of cron jobs
abbrev pub dotted : Class → String → String
dotted c member = String.◌++◌ c.name (String.◌++◌ "." member)

module _ {Any : Type 0} where
  unfoldable pub add_documentation_for_service_function :
      ServiceFunctionAnnotationContainer Any
      → Class
      → String
      → String
      → ServiceFunctionAnnotationContainer Any
  add_documentation_for_service_function r c member doc_string = record r {
    service_function_name_to_doc_string_map =
        put r.service_function_name_to_doc_string_map (key c.name member) doc_string;
  }

  unfoldable pub add_response_status_code_for_service_function :
      ServiceFunctionAnnotationContainer Any
      → Class
      → String
      → ℕ
      → ServiceFunctionAnnotationContainer Any
  add_response_status_code_for_service_function r c member status_code = record r {
    service_function_name_to_response_status_code_map =
        put r.service_function_name_to_response_status_code_map (key c.name member) status_code;
  }

  unfoldable pub add_errors_for_service_function :
      ServiceFunctionAnnotationContainer Any
      → Class
      → String
      → List ErrorDefinition
      → ServiceFunctionAnnotationContainer Any
  add_errors_for_service_function r c member errors = record r {
    service_function_name_to_errors_map =
        put r.service_function_name_to_errors_map (key c.name member) errors;
  }

  unfoldable pub add_non_transactional_service_function :
      ServiceFunctionAnnotationContainer Any
      → Class
      → String
      → ServiceFunctionAnnotationContainer Any
  add_non_transactional_service_function r c member = record r {
    service_function_name_to_is_not_transactional_map =
        put r.service_function_name_to_is_not_transactional_map (key c.name member) true;
  }

  unfoldable pub add_non_distributed_transactional_service_function :
      ServiceFunctionAnnotationContainer Any
      → Class
      → String
      → ServiceFunctionAnnotationContainer Any
  add_non_distributed_transactional_service_function r c member = record r {
    service_function_name_to_is_not_distributed_transactional_map =
        put r.service_function_name_to_is_not_distributed_transactional_map (key c.name member)
          true;
  }

  unfoldable pub add_cron_schedule_for_service_function :
      ServiceFunctionAnnotationContainer Any
      → Class
      → String
      → String
      → ServiceFunctionAnnotationContainer Any
  add_cron_schedule_for_service_function r c member cron_schedule = record r {
    service_function_name_to_cron_schedule_map =
        put r.service_function_name_to_cron_schedule_map (dotted c member) cron_schedule;
  }

  unfoldable pub add_retry_intervals_in_secs_for_service_function :
      ServiceFunctionAnnotationContainer Any
      → Class
      → String
      → List ℕ
      → ServiceFunctionAnnotationContainer Any
  add_retry_intervals_in_secs_for_service_function r c member retry_intervals_in_secs = record r {
    service_function_name_to_retry_intervals_in_secs_map =
        put r.service_function_name_to_retry_intervals_in_secs_map (dotted c member)
          retry_intervals_in_secs;
  }

  unfoldable pub add_update_annotation :
      ServiceFunctionAnnotationContainer Any
      → Class
      → String
      → UpdateType
      → ServiceFunctionAnnotationContainer Any
  add_update_annotation r c member update_type = record r {
    service_function_name_to_update_type_map =
        put r.service_function_name_to_update_type_map (key c.name member) update_type;
  }

  unfoldable pub add_response_headers_for_service_function :
      ServiceFunctionAnnotationContainer Any
      → Class
      → String
      → HttpHeaders Any
      → ServiceFunctionAnnotationContainer Any
  add_response_headers_for_service_function r c member headers = record r {
    service_function_name_to_response_headers_map =
        put r.service_function_name_to_response_headers_map (key c.name member) headers;
  }

  unfoldable pub add_no_auto_test_annotation :
      ServiceFunctionAnnotationContainer Any
      → Class
      → String
      → ServiceFunctionAnnotationContainer Any
  add_no_auto_test_annotation r c member = record r {
    service_function_name_to_has_no_auto_test_map =
        put r.service_function_name_to_has_no_auto_test_map (key c.name member) true;
  }

  unfoldable pub add_on_start_up_annotation :
      ServiceFunctionAnnotationContainer Any
      → Class
      → String
      → ServiceFunctionAnnotationContainer Any
  add_on_start_up_annotation r c member = record r {
    service_function_name_to_on_start_up_map =
        put r.service_function_name_to_on_start_up_map (key c.name member) true;
  }

  unfoldable pub add_create_annotation :
      ServiceFunctionAnnotationContainer Any
      → Class
      → String
      → ServiceFunctionAnnotationContainer Any
  add_create_annotation r c member = record r {
    service_function_name_to_is_create_function_map =
        put r.service_function_name_to_is_create_function_map (key c.name member) true;
  }

  unfoldable pub add_delete_annotation :
      ServiceFunctionAnnotationContainer Any
      → Class
      → String
      → ServiceFunctionAnnotationContainer Any
  add_delete_annotation r c member = record r {
    service_function_name_to_is_delete_function_map =
        put r.service_function_name_to_is_delete_function_map (key c.name member) true;
  }

  unfoldable pub add_test_setup :
      ServiceFunctionAnnotationContainer Any
      → Class
      → String
      → List (TestSetupStep Any)
      → ServiceFunctionAnnotationContainer Any
  add_test_setup r c member service_functions_or_specs_to_execute = record r {
    service_function_name_to_test_setup_map =
        put r.service_function_name_to_test_setup_map (key c.name member)
          service_functions_or_specs_to_execute;
  }

  unfoldable pub add_service_function_audit_log :
      ServiceFunctionAnnotationContainer Any
      → Class
      → String
      → (Any → Any → Bool)
      → (Any → Any → Dict Any)
      → ServiceFunctionAnnotationContainer Any
  add_service_function_audit_log r c member should_log attributes_to_log = record r {
    service_function_name_to_audit_log_map =
        put r.service_function_name_to_audit_log_map (key c.name member)
          (record { should_log = should_log; attributes_to_log = attributes_to_log });
  }

  unfoldable pub add_subscription :
      ServiceFunctionAnnotationContainer Any
      → Class
      → String
      → ServiceFunctionAnnotationContainer Any
  add_subscription r c member = record r {
    service_function_name_to_subscription_map =
        put r.service_function_name_to_subscription_map (key c.name member) true;
  }

  unfoldable pub expect_service_function_return_value_to_contain_in_tests :
      ServiceFunctionAnnotationContainer Any
      → Class
      → String
      → Dict Any
      → ServiceFunctionAnnotationContainer Any
  expect_service_function_return_value_to_contain_in_tests r c member
        field_path_name_to_field_value_map =
      record r {
        service_function_name_to_expected_response_field_path_name_to_field_value_map_map =
            put r.service_function_name_to_expected_response_field_path_name_to_field_value_map_map
              (key c.name member) field_path_name_to_field_value_map;
      }

  unfoldable pub expect_service_function_entity_to_contain_in_tests :
      ServiceFunctionAnnotationContainer Any
      → Class
      → String
      → List (PostTestSpec Any)
      → ServiceFunctionAnnotationContainer Any
  expect_service_function_entity_to_contain_in_tests r c member test_specs = record r {
    service_function_name_to_post_test_specs_map =
        put r.service_function_name_to_post_test_specs_map (key c.name member) test_specs;
  }
