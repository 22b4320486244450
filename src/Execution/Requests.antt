-- ===== src/Execution/Requests.antt =====
-- execution/tryExecuteServiceMethod.ts, lines 93 to 288: which requests are answered at once, which
-- are refused by their method, and which service function is called on whose behalf.
use lrzwasnla.Common.{
  String, Bool, true, false, not, ◌&&◌, ◌||◌, Option, none, some, [], Text, codes, pos, at,
  default_to, ltb, ◌==◌, ◌===◌, if◌then◌else◌,
}
use lrzwasnla.Common.Exec.{pure, throw, lift, modify, ◌>>=◌, ◌>>◌}
use lrzwasnla.Errors.{plain, create_error_from_error_code_message_and_status}
use lrzwasnla.Errors.Messages.{
  invalid_http_method, http_method_must_be_post, invalid_argument, unknown_service,
}
use lrzwasnla.Annotations.Classes.{Class}
use lrzwasnla.Annotations.ServiceFunction.{does_service_function_allow_http_get_method}
use lrzwasnla.Execution.{
  Options, Request, Body, nothing, open_api_spec, services_metadata, write_head, end, Service, Step,
  Microservice,
}
use lrzwasnla.Execution.Values.{text, count_keys}
use lrzwasnla.Execution.Names.{
  split_name, service_and_function, is_execute_multiple_request, multiple_execution, includes,
}
use lrzwasnla.Execution.Steps.{
  full_name, with_message, on_resp, refuse, complain, get_microservice_service_by_service_class,
  get_microservice_service_name_by_service_class,
}

-- What is left to do after a branch: nothing after its `return`, or to call a service function,
-- with `shouldAuthorize`.
pub data Course : Type 0 where
  answered : Course
  proceed : (should_authorize : Bool) → Course

abbrev matches : Option (String → Bool) → String → Bool
matches none name = false
matches (some reg_exp) name = reg_exp name

abbrev pub with_options {ℓ} : {A : Type ℓ} → (Options → Option A) → Option Options → Option A
with_options field none = none
with_options field (some options) = field options

module _ {W : Type 0} (m : Microservice W) (r : Request) where
  -- the two names of the request
  abbrev pub requested : String × String
  unfolding split_name service_and_function
  requested = service_and_function (split_name r.service_function_name)

  -- `ServiceClass`, `undefined` where no service has the name
  abbrev pub requested_class : Option Class
  requested_class = elim (at m.services requested.0) [
    | none ↦ none
    | some service ↦ some service.service_class
  ]

  unfoldable pub check_http_method : Step W (Unit {0})
  check_http_method =
      if not (r.http_method === "GET") && not (r.http_method === "POST")
      then refuse m invalid_http_method
      else pure tt

  unfoldable pub require_post : Step W (Unit {0})
  require_post = if r.http_method === "POST" then pure tt else refuse m http_method_must_be_post

  unfoldable pub check_service_function_count : Step W (Unit {0})
  check_service_function_count s =
      elim (with_options (λ o. o.max_service_function_count) r.options) [
        | none ↦ complain m missing_count s
        | some limit ↦
            if limit == 0
            then complain m missing_count s
            else (elim (count_keys s.service_function_argument) [
              | none ↦ throw (plain (m.type_error "keys")) s
              | some n ↦
                  if ltb limit n
                  then refuse m
                      (with_message invalid_argument (codes "too many service functions called")) s
                  else pure tt s
            ])
      ]
    where
      missing_count : Text
      missing_count =
          codes
            "Missing 'multipleServiceFunctionExecution.maxServiceFunctionCount' option in HttpServer"

  -- lines 97 to 171
  unfoldable pub dispatch_multiple_execution : Step W Course
  unfolding require_post check_service_function_count
  dispatch_multiple_execution =
      if is_execute_multiple_request r.service_function_name
      then require_post
        >> check_service_function_count
        >> (elim (multiple_execution r.service_function_name) [
          | none ↦ pure (proceed true)
          | some mode ↦ m.execute_multiple_service_functions mode.0 mode.1 >> pure answered
        ])
      else pure (proceed true)

  -- The document is generated behind the head and before the body.
  unfoldable pub end_with_document : Body → Step W Course
  end_with_document body s = elim (m.generation_failure body r.is_cluster_internal_call) [
    | none ↦ pure answered (on_resp (end body) s)
    | some f ↦ throw f s
  ]

  -- lines 188 to 226
  unfoldable pub answer_metadata : Body → Step W Course
  unfolding end_with_document
  answer_metadata body s =
      if default_to true (with_options (λ o. o.is_metadata_service_enabled) r.options)
      then end_with_document body (on_resp (write_head (pos 200) (some "application/json")) s)
      else refuse m (with_message unknown_service (codes s.service_name)) s

  -- lines 227 to 259, for one class of health checks
  unfoldable pub answer_health_check : String → (Service → Bool) → Step W Course
  answer_health_check class_name is_instance = do
    service ← lift (get_microservice_service_by_service_class m class_name is_instance)
    λ s. elim service [
      | none ↦ pure answered (on_resp (end nothing) (on_resp (write_head (pos 200) none) s))
      | some _ ↦
          (let name = get_microservice_service_name_by_service_class m is_instance in
            pure (proceed false) (record s {
              service_name = name;
              service_function_name = full_name name requested.1;
            }))
    ]

  unfoldable pub refuses_get : Bool
  refuses_get =
      (not (
          matches (with_options (λ o. o.reg_exp_for_allowed_service_function_names) r.options)
            r.service_function_name)
        || includes (default_to [] (with_options (λ o. o.denied_service_function_names) r.options))
            r.service_function_name)
      && not (elim requested_class [
        | none ↦ false
        | some c ↦ does_service_function_allow_http_get_method m.function_annotations c requested.1
      ])

  -- lines 260 to 288
  unfoldable pub read_get_argument : Step W Course
  unfolding refuses_get
  read_get_argument =
      if refuses_get
      then throw
          (plain (create_error_from_error_code_message_and_status m.stack http_method_must_be_post))
      else do
        argument ← λ s. (m.decode_uri_component s.service_function_argument, s)
        modify (λ s. record s { service_function_argument = text argument })
        elim (m.parse_json argument) [
          | none ↦ refuse m (
              with_message invalid_argument (
                codes
                  "argument not valid or too long in HTTP GET. Argument must be URI encoded JSON given in query string parameter named \"arg\""))
          | some value ↦
              modify (λ s. record s { service_function_argument = value }) >> pure (proceed true)
        ]

  -- lines 178 to 288
  unfoldable pub choose_course : Step W Course
  unfolding require_post answer_metadata answer_health_check read_get_argument
  choose_course =
      if r.service_function_name === "serviceFunctionSchedulingService.scheduleExecution"
      then require_post
        >> (λ s. m.try_schedule_job_execution s.service_function_argument s)
        >> pure answered
      else if r.service_function_name === "metadataService.getOpenApiSpec"
      then answer_metadata open_api_spec
      else if r.service_function_name === "metadataService.getServicesMetadata"
      then answer_metadata services_metadata
      else if r.service_function_name === "livenessCheckService.isMicroserviceAlive"
      then answer_health_check "LivenessCheckService" (λ s. s.is_liveness_check_service)
      else if r.service_function_name === "readinessCheckService.isMicroserviceReady"
      then answer_health_check "ReadinessCheckService" (λ s. s.is_readiness_check_service)
      else if r.service_function_name === "startupCheckService.isMicroserviceStarted"
      then answer_health_check "StartupCheckService" (λ s. s.is_startup_check_service)
      else if r.http_method === "GET"
      then read_get_argument
      else pure (proceed true)
