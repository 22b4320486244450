-- ===== src/Execution/Method.antt =====
-- execution/tryExecuteServiceMethod.ts: the whole function.
use lrzwasnla.Common.{Bool, Option, none, some, [], ℤ, if◌then◌else◌}
use lrzwasnla.Common.Exec.{Result, ok, err, pure, ◌>>=◌, ◌>>◌}
use lrzwasnla.Errors.{Failure}
use lrzwasnla.Transactions.{Session}
use lrzwasnla.Execution.{Request, Service, Call, Step, Microservice}
use lrzwasnla.Execution.Values.{Json, is_true}
use lrzwasnla.Execution.Requests.{
  Course, answered, proceed, requested, check_http_method, dispatch_multiple_execution,
  choose_course,
}
use lrzwasnla.Execution.Admission.{
  find_service, check_argument_is_object, check_captcha, authorize, check_owner_in_argument,
  validate_argument,
}
use lrzwasnla.Execution.Functions.{call_in_namespace, throw_counted}
use lrzwasnla.Execution.Responses.{read_cached_response, finish_response}
use lrzwasnla.Execution.Answers.{keep_alive, write_answer, answer_error, write_audit_log}

module _ {W : Type 0} (m : Microservice W) (r : Request) where
  -- the variables at the start
  abbrev pub start : Session → W → Call W
  start session outside = record {
    service_name = (requested m r).0;
    service_function_name = r.service_function_name;
    service_function_argument = r.service_function_argument;
    subject = none;
    issuer = none;
    response = Json.undefined;
    replies = [];
    counted = [];
    authorization_failures = 0;
    session = session;
    outside = outside;
  }

  -- lines 290 to 379
  unfoldable pub admit : Bool → Step W (Service × Option Service × Json)
  admit should_authorize = do
    service ← find_service m r
    check_argument_is_object m r service
    check_captcha m r
    user_service ← authorize m r service should_authorize
    check_owner_in_argument m r service
    argument ← validate_argument m r service
    pure (service, user_service, argument)

  -- lines 444 to 769; the answer is `ttl`
  unfoldable pub call_and_finish : Service → Option Service → Json → Step W (Option ℤ)
  call_and_finish service user_service argument = do
    error ← call_in_namespace m r service user_service argument
    throw_counted m r error
    finish_response m r service argument

  -- lines 381 to 770
  unfoldable pub call_or_take_cached : Service → Option Service → Json → Step W (Option ℤ)
  unfolding call_and_finish
  call_or_take_cached service user_service argument = do
    read_cached_response m r
    λ s. if is_true s.response then pure none s else call_and_finish service user_service argument s

  -- lines 290 to 821
  unfoldable pub execute_service_function : Bool → Step W (Unit {0})
  unfolding admit call_or_take_cached
  execute_service_function should_authorize = do
    (service, user_service, argument) ← admit should_authorize
    ttl ← call_or_take_cached service user_service argument
    write_answer m r service ttl

  abbrev pub follow : Step W Course → (Bool → Step W (Unit {0})) → Step W (Unit {0})
  follow course go_on = do
    chosen ← course
    elim chosen [ answered ↦ pure tt | proceed should_authorize ↦ go_on should_authorize ]

  -- the `try`
  unfoldable pub execute : Step W (Unit {0})
  unfolding execute_service_function
  execute =
      check_http_method m r
      >> follow (dispatch_multiple_execution m r)
          (λ _. follow (choose_course m r) execute_service_function)

  -- the `catch`
  abbrev pub after_try : Result Failure (Unit {0}) → Call W → Call W
  after_try (ok _) s = s
  after_try (err f) s = answer_error m r f s

  -- `storedError`
  abbrev pub stored_error : Result Failure (Unit {0}) → Option Failure
  stored_error (ok _) = none
  stored_error (err f) = some f

  unfoldable pub try_execute_service_method : Session → W → Result Failure (Unit {0}) × Call W
  unfolding execute
  try_execute_service_method session outside =
      let c = execute (keep_alive m r (start session outside)) in
      write_audit_log m r (stored_error c.0) (after_try c.0 c.1)
