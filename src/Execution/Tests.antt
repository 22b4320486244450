-- ===== src/Execution/Tests.antt =====
-- Requests to a microservice with one service for notes, whose function `get` is open to everybody
-- and whose function `own` is for the owners of notes, and with a service for liveness checks. What
-- is outside is the number of calls of service functions.
use lrzwasnla.Common.{
  ℕ, suc, String, ◌≡◌, refl, true, false, none, some, [], ◌∷◌, codes, at, put, pos, if◌then◌else◌,
}
use lrzwasnla.Common.Exec.{ok, pure, is_ok}
use lrzwasnla.Annotations.Classes.{Class, nearest}
use lrzwasnla.Annotations.Service
use lrzwasnla.Annotations.ServiceFunction
use lrzwasnla.Annotations.ServiceFunction.{
  ServiceFunctionAnnotationContainer, add_service_function_allowed_for_every_user,
  is_service_function_allowed_for_every_user,
  is_service_function_allowed_for_every_user_with_authentication,
}
use lrzwasnla.Authorization.{try_authorize, is_open, one}
use lrzwasnla.Transactions.Tests.{idle, willing}
use lrzwasnla.Execution.{Request, Service, Call, MemoryCache, Microservice}
use lrzwasnla.Execution.Values.{
  Json, object, text, member, empty, is_true, is_object, is_array, get, find,
}
use lrzwasnla.Execution.Names.{split_name, service_and_function, has_function}
use lrzwasnla.Execution.Steps.{
  get_microservice_service_by_service_class, get_microservice_service_name_by_service_class,
}
use lrzwasnla.Execution.Requests.{choose_course, answer_health_check, dispatch_multiple_execution}
use lrzwasnla.Execution.Admission.{
  find_service, check_argument_is_object, check_captcha, authorize, ask_authorization,
  check_owner_in_argument, has_owner_in_argument, validate_argument,
}
use lrzwasnla.Execution.Functions.{call_in_namespace, enter_namespace}
use lrzwasnla.Execution.Method.{start, admit, try_execute_service_method}
use lrzwasnla.Execution.Dispatch.{dispatch_multiple_execution-is_independent}
use lrzwasnla.Execution.Admitted.{
  is_health_check, unauthorized_is_health_check, Admitted, admit-Admitted,
}
use lrzwasnla.Execution.Connections.{work, reserved, borrowed-call_in_namespace}
use lrzwasnla.Execution.Quiet.{IsAnswer}
use lrzwasnla.Execution.OneAnswer.{IsAnswer-try_execute_service_method}

abbrev notes_class : Class
notes_class = record { name = "NotesImpl"; parents = "BaseService" ∷ [] }

abbrev plain_service : Class → Service
plain_service c = record {
  service_class = c;
  is_user_base_service = false;
  is_tenant_base_service = false;
  is_liveness_check_service = false;
  is_readiness_check_service = false;
  is_startup_check_service = false;
  is_audit_logging_service = false;
  authorization_service = none;
  response_cache_config_service = none;
  has_data_store = true;
  function_names = "get" ∷ [];
  function_name_to_return_type_name_map = ("get", "Note") ∷ [];
  function_name_to_param_type_name_map = [];
}

abbrev notes : Service
notes = plain_service notes_class

abbrev alive : Service
alive = record (plain_service (record { name = "Alive"; parents = [] })) {
  is_liveness_check_service = true;
}

abbrev no_cache : MemoryCache ℕ
no_cache = record {
  retrieve_item_value = λ key n. none;
  store_expiring_item = λ key value n. n;
  remove_item = λ key n. n;
}

abbrev annotations : ServiceFunctionAnnotationContainer Json
annotations =
    add_service_function_allowed_for_every_user ServiceFunction.empty notes_class "get" false

abbrev note : Json
note = object (member "data" (object (member "version" (text "7") empty)) empty)

abbrev diary : Microservice ℕ
diary = record {
  services = ("notes", notes) ∷ ("live", alive) ∷ [];
  service_annotations = Service.empty;
  function_annotations = annotations;
  process_env = λ name. none;
  stack = none;
  type_error = λ name. record { message = codes "TypeError"; stack = none };
  to_string = λ value. "value";
  parse_json = λ s. none;
  generation_failure = λ body is_internal. none;
  decode_uri_component = λ value. ok "";
  subject_to_user_account_id_cache = no_cache;
  issuer_to_tenant_id_cache = no_cache;
  database = willing;
  service_function = λ service function argument (t, n). (ok (some note, none), (t, suc n));
  get_id_by_subject = λ subject x. (ok (none, none), x);
  get_id_by_issuer = λ issuer x. (ok (none, none), x);
  plain_to_class = λ name value. value;
  try_validate_service_function_argument = λ c name value. pure tt;
  try_validate_service_function_return_value = λ value type_name name. pure tt;
  fetch_from_remote_services = λ name argument response. pure (none, response);
  verify_captcha = none;
  redis_get = λ name argument. pure none;
  redis_ttl = λ name argument. pure (pos 0);
  redis_set = λ name argument response. pure tt;
  redis_expire = λ name argument ttl. pure tt;
  try_schedule_job_execution = λ argument. pure tt;
  execute_multiple_service_functions = λ is_concurrent is_inside. pure tt;
  log_audit = λ entry. pure tt;
}

abbrev request : String → Request
request name = record {
  service_function_name = name;
  service_function_argument = object empty;
  headers = ("If-None-Match", one "7") ∷ [];
  http_method = "POST";
  is_cluster_internal_call = false;
  options = none;
  can_set_header = true;
}

abbrev get_request : Request
get_request = record (request "notes.get") { headers = [] }

IsAnswer-try_execute_service_method_example :
    IsAnswer (try_execute_service_method diary get_request idle 0).1.replies
unfolding at
IsAnswer-try_execute_service_method_example =
    IsAnswer-try_execute_service_method diary get_request (λ body. refl) refl refl idle 0

dispatch_multiple_execution-is_independent_example :
    dispatch_multiple_execution diary
      (request "executeMultipleServiceFunctionsInParallelInsideTransaction")
    ≡ dispatch_multiple_execution
        (record diary {
          execute_multiple_service_functions =
              λ is_concurrent is_inside s. (ok tt, record s { outside = 5 });
        })
        (request "executeMultipleServiceFunctionsInParallelInsideTransaction")
dispatch_multiple_execution-is_independent_example =
    dispatch_multiple_execution-is_independent diary
      (request "executeMultipleServiceFunctionsInParallelInsideTransaction")
      (λ is_concurrent is_inside s. (ok tt, record s { outside = 5 }))

abbrev check_request : Request
check_request = request "livenessCheckService.isMicroserviceAlive"

abbrev started : Request → Call ℕ
started r = start diary r idle 0

unauthorized_is_health_check_example :
    is_health_check "livenessCheckService.isMicroserviceAlive" ≡ true
unfolding choose_course answer_health_check get_microservice_service_by_service_class
    get_microservice_service_name_by_service_class split_name service_and_function
unauthorized_is_health_check_example =
    unauthorized_is_health_check diary check_request (started check_request)
      (record (started check_request) {
        service_name = "live";
        service_function_name = "live.isMicroserviceAlive";
      })
      refl

admit-Admitted_example :
    Admitted diary get_request true (started get_request) notes (started get_request)
unfolding admit find_service has_function at check_argument_is_object check_captcha get find is_true
    is_object is_array authorize ask_authorization get_microservice_service_by_service_class
    try_authorize is_open check_owner_in_argument has_owner_in_argument validate_argument split_name
    service_and_function Service.is_service_allowed_for_every_user
    is_service_function_allowed_for_every_user
    is_service_function_allowed_for_every_user_with_authentication put nearest
    add_service_function_allowed_for_every_user
admit-Admitted_example =
    admit-Admitted diary get_request true (started get_request) (started get_request) notes none
      Json.undefined refl

borrowed-call_in_namespace_example :
    (call_in_namespace diary get_request notes none Json.undefined
      (started get_request)).1.session.borrowed
    ≡ (if is_ok
          (work diary get_request notes none Json.undefined (record (started get_request) {
            session = reserved (enter_namespace diary get_request idle);
          })).0
        then 1
        else 2)
borrowed-call_in_namespace_example =
    borrowed-call_in_namespace diary get_request
      (λ service function argument. record { at = λ x. refl })
      (λ subject. record { at = λ x. refl }) (λ issuer. record { at = λ x. refl }) notes none
      Json.undefined (started get_request) refl refl refl
