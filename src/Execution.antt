-- ===== src/Execution.antt =====
-- execution/: how a request becomes the call of a service function and then an answer.
-- The types: what a request says, what a microservice is made of, and what one execution keeps.
pub mod Values
pub mod Names
pub mod Steps
pub mod Requests
pub mod Admission
pub mod Accounts
pub mod Responses
pub mod Answers
pub mod Functions
pub mod Method
pub mod Dispatch
pub mod Admitted
pub mod Checks
pub mod Connections
pub mod Tags
pub mod Fetching
pub mod Silence
pub mod Quiet
pub mod Writing
pub mod OneAnswer
pub mod Tests
use lrzwasnla.Common.{ℕ, String, Bool, Option, List, Text, ℤ, Dict}
use lrzwasnla.Common.Exec.{Result, ok, err, Exec}
use lrzwasnla.Errors.{Failure, Error, BackkError, Environment}
use lrzwasnla.Annotations.Classes.{Class}
use lrzwasnla.Annotations.Service.{ServiceAnnotationContainer}
use lrzwasnla.Annotations.ServiceFunction.{ServiceFunctionAnnotationContainer}
use lrzwasnla.Authorization.{HeaderValue, AuthorizationService}
use lrzwasnla.Transactions.{Session, Database, ErrorOr}
use Values.{Json}

-- ServiceFunctionExecutionOptions; a regular expression is what it matches
pub record Options : Type 0 where
  pub is_metadata_service_enabled : Option Bool
  pub reg_exp_for_allowed_service_function_names : Option (String → Bool)
  pub denied_service_function_names : Option (List String)
  pub max_service_function_count : Option ℕ
  pub reg_exp_for_allowed_remote_service_function_calls : Option (String → Bool)

-- The parameters of tryExecuteServiceMethod. `can_set_header` is what is asked of `resp`.
pub record Request : Type 0 where
  pub service_function_name : String
  pub service_function_argument : Json
  pub headers : Dict HeaderValue
  pub http_method : String
  pub is_cluster_internal_call : Bool
  pub options : Option Options
  pub can_set_header : Bool

-- The body that is given to `resp.end`, which is its `JSON.stringify`.
pub data Body : Type 0 where
  nothing : Body
  content : Json → Body
  failure : BackkError → Body
  open_api_spec services_metadata : Body

-- What is called on `resp`.
pub data Reply : Type 0 where
  set_header : String → Json → Reply
  write_head : (status_code : ℤ) → (content_type : Option String) → Reply
  end : Body → Reply

-- Counters of defaultServiceMetrics that tell errors.
pub data Counter : Type 0 where
  http_5xx_errors http_client_errors : Counter

-- cache/ResponseCacheConfigService.ts
pub record ResponseCacheConfigService : Type 0 where
  pub should_cache_service_function_call_response : String → Json → Bool
  pub get_caching_duration_in_secs : String → Json → ℤ

-- A field of the microservice: its class, the base class that it is an instance of, its methods,
-- and its `__BackkTypes__`.
pub record Service : Type 0 where
  pub service_class : Class
  pub is_user_base_service : Bool
  pub is_tenant_base_service : Bool
  pub is_liveness_check_service : Bool
  pub is_readiness_check_service : Bool
  pub is_startup_check_service : Bool
  pub is_audit_logging_service : Bool
  pub authorization_service : Option AuthorizationService
  pub response_cache_config_service : Option ResponseCacheConfigService
  pub has_data_store : Bool
  pub function_names : List String
  pub function_name_to_return_type_name_map : Dict String
  pub function_name_to_param_type_name_map : Dict String

-- What one execution keeps: the variables that its `catch` and `finally` read too, what was
-- called on `resp`, the values of the namespaces, the metrics, and everything else.
pub record Call (W : Type 0) : Type 0 where
  pub service_name : String
  pub service_function_name : String
  pub service_function_argument : Json
  pub subject : Option String
  pub issuer : Option String
  pub response : Json
  pub replies : List Reply
  pub counted : List Counter
  pub authorization_failures : ℕ
  pub session : Session
  pub outside : W

abbrev pub Step : Type 0 → Type 0 → Type 0
Step W A = Exec Failure (Call W) A

-- memory-cache-node's MemoryCache, by what it keeps
pub record MemoryCache (W : Type 0) : Type 0 where
  pub retrieve_item_value : String → W → Option Json
  pub store_expiring_item : String → Json → W → W
  pub remove_item : String → W → W

-- An entry of the audit log, less the time, the trace and the resource.
pub record AuditLogEntry : Type 0 where
  pub subject : Json
  pub client_ip : HeaderValue
  pub authorization_header : HeaderValue
  pub user_operation : String
  pub is_failure : Bool
  pub status_code : Option ℤ
  pub error_message : Option Text
  pub attributes : Json

-- A microservice: its services by the names of their fields, the annotations, the process and the
-- language's runtime, what the generation of a document of the metadata throws, by whether the call
-- is cluster-internal, the two identity caches, the database; and the functions of services, the
-- validation of values, remote services, Redis and the audit log, which act on what is outside.
pub record Microservice (W : Type 0) : Type 0 where
  pub services : Dict Service
  pub service_annotations : ServiceAnnotationContainer
  pub function_annotations : ServiceFunctionAnnotationContainer Json
  pub process_env : Environment
  pub stack : Option Text
  pub type_error : String → Error
  pub to_string : Json → String
  pub parse_json : String → Option Json
  pub generation_failure : Body → Bool → Option Failure
  pub decode_uri_component : Json → Result Failure String
  pub subject_to_user_account_id_cache : MemoryCache W
  pub issuer_to_tenant_id_cache : MemoryCache W
  pub database : Database
  pub service_function : String → String → Json → Exec Failure (Session × W) (ErrorOr Json)
  pub get_id_by_subject : String → Exec Failure (Session × W) (ErrorOr Json)
  pub get_id_by_issuer : String → Exec Failure (Session × W) (ErrorOr Json)
  pub plain_to_class : String → Json → Json
  pub try_validate_service_function_argument : Class → String → Json → Exec Failure W (Unit {0})
  pub try_validate_service_function_return_value : Json → Text → String → Exec Failure W (Unit {0})
  pub fetch_from_remote_services : Text → Json → Json → Exec Failure W (Option BackkError × Json)
  pub verify_captcha : Option (Json → Exec Failure W Bool)
  pub redis_get : String → Json → Exec Failure W (Option String)
  pub redis_ttl : String → Json → Exec Failure W ℤ
  pub redis_set : String → Json → Json → Exec Failure W (Unit {0})
  pub redis_expire : String → Json → ℤ → Exec Failure W (Unit {0})
  pub try_schedule_job_execution : Json → Exec Failure (Call W) (Unit {0})
  pub execute_multiple_service_functions : Bool → Bool → Exec Failure (Call W) (Unit {0})
  pub log_audit : AuditLogEntry → Exec Failure W (Unit {0})
