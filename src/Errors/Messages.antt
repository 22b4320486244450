-- ===== src/Errors/Messages.antt =====
-- errors/BACKK_ERRORS.ts, with the status codes of constants/constants.ts
use lrzwasnla.Common.{some, none, Text, codes, ℤ, pos}
use lrzwasnla.Errors.{BackkError, text}

abbrev backk_error : Text → Text → ℤ → BackkError
backk_error error_code message status_code = record {
  status_code = status_code;
  message = message;
  error_code = some (text error_code);
  stack_trace = none;
}

abbrev pub entity_version_mismatch : BackkError
entity_version_mismatch =
    backk_error (codes "error.1")
      (codes
        "Entity version conflict. Entity was updated before this request, please re-fetch the entity and try update again")
      (pos 409)

abbrev pub entity_last_modified_timestamp_mismatch : BackkError
entity_last_modified_timestamp_mismatch =
    backk_error (codes "error.2")
      (codes
        "Entity last modified timestamp conflict. Entity was updated before this request, please re-fetch the entity and try update again")
      (pos 409)

abbrev pub duplicate_entity : BackkError
duplicate_entity = backk_error (codes "error.3") (codes "Duplicate entity") (pos 409)

abbrev pub entity_not_found : BackkError
entity_not_found = backk_error (codes "error.4") (codes "Entity not found") (pos 404)

abbrev pub invalid_argument : BackkError
invalid_argument = backk_error (codes "error.5") (codes "Invalid argument: ") (pos 400)

abbrev pub service_function_call_not_authorized : BackkError
service_function_call_not_authorized =
    backk_error (codes "error.6") (codes "Service function call not authorized") (pos 403)

abbrev pub max_entity_count_reached : BackkError
max_entity_count_reached =
    backk_error (codes "error.7")
      (codes "Maximum sub-entity count reached. Cannot add new sub-entity") (pos 422)

abbrev pub unknown_service : BackkError
unknown_service = backk_error (codes "error.8") (codes "Unknown service: ") (pos 404)

abbrev pub unknown_service_function : BackkError
unknown_service_function = backk_error (codes "error.9") (codes "Unknown function: ") (pos 404)

abbrev pub missing_service_function_argument : BackkError
missing_service_function_argument =
    backk_error (codes "error.10") (codes "Missing service function argument") (pos 406)

abbrev pub remote_service_function_call_not_allowed : BackkError
remote_service_function_call_not_allowed =
    backk_error (codes "error.11") (codes "Remote service function call not allowed") (pos 403)

abbrev pub too_many_service_functions_called : BackkError
too_many_service_functions_called =
    backk_error (codes "error.12") (codes "Too many service functions called") (pos 429)

abbrev pub remote_service_function_call_not_allowed_inside_transaction : BackkError
remote_service_function_call_not_allowed_inside_transaction =
    backk_error (codes "error.13")
      (codes "Remote service function call not allowed inside transaction") (pos 400)

abbrev pub allowed_remote_service_functions_regexp_pattern_not_defined : BackkError
allowed_remote_service_functions_regexp_pattern_not_defined =
    backk_error (codes "error.14")
      (codes "Allowed remote service functions regular expression pattern not defined") (pos 400)

abbrev pub http_method_must_be_post : BackkError
http_method_must_be_post =
    backk_error (codes "error.15") (codes "Invalid HTTP method. HTTP method must be POST") (pos 405)

abbrev pub request_is_too_long : BackkError
request_is_too_long = backk_error (codes "error.16") (codes "Request is too long") (pos 413)

abbrev pub user_not_authenticated : BackkError
user_not_authenticated =
    backk_error (codes "error.17") (codes "User is not authenticated") (pos 401)

abbrev pub invalid_http_method : BackkError
invalid_http_method =
    backk_error (codes "error.18") (codes "Invalid HTTP method. HTTP method must be POST or GET")
      (pos 405)

abbrev pub microservice_not_ready : BackkError
microservice_not_ready =
    backk_error (codes "error.19") (codes "Microservice is not ready") (pos 503)

abbrev pub microservice_not_started : BackkError
microservice_not_started =
    backk_error (codes "error.20") (codes "Microservice is not started") (pos 503)
