-- ===== src/Execution/Answers.antt =====
-- execution/tryExecuteServiceMethod.ts: the head and the body of an answer (lines 778 to 821), the
-- answer to an error (lines 822 to 847), and the audit log (lines 848 to 871).
use Prim.Native.String
use lrzwasnla.Common.{
  String, Bool, true, false, ◌||◌, Option, none, some, [], ◌∷◌, ◌++◌, codes, ℤ, pos, take, at, put,
  default_to, parse_int, parse_decimal, is_defined, ◌==◌, if◌then◌else◌,
}
use lrzwasnla.Common.Exec.{pure, lift, ◌>>=◌}
use lrzwasnla.Errors.{
  Failure, backk, plain, ErrorCode, text, number, BackkError, show_code,
  create_backk_error_from_error,
}
use lrzwasnla.Annotations.ServiceFunction.{
  AuditLog, get_response_headers_for_service_function,
  get_response_status_code_for_service_function, get_audit_log, is_subscription,
}
use lrzwasnla.Annotations.ServiceFunction
use lrzwasnla.Authorization.{one}
use lrzwasnla.Execution.{
  Request, content, failure, set_header, write_head, end, Service, Call, Step, AuditLogEntry,
  Microservice,
}
use lrzwasnla.Execution.Values.{Json, is_null, is_undefined, get, to_json, to_members}
use lrzwasnla.Execution.Steps.{on_outside, on_resp, get_microservice_service_by_service_class}
use lrzwasnla.Execution.Requests.{requested, requested_class}

module _ {W : Type 0} (m : Microservice W) (r : Request) where
  abbrev pub with_header : String → Json → Call W → Call W
  with_header name value s = if r.can_set_header then on_resp (set_header name value) s else s

  abbrev pub is_subscribed : Bool
  is_subscribed = elim (requested_class m r) [
    | none ↦ false
    | some c ↦ is_subscription m.function_annotations c (requested m r).1
  ]

  -- lines 84 to 90
  unfoldable pub keep_alive : Call W → Call W
  keep_alive s = if is_subscribed then with_header "Connection" (Json.text "keep-alive") s else s

  -- lines 778 to 786
  unfoldable pub with_cache_control : Option ℤ → Call W → Call W
  with_cache_control ttl s =
      with_header "Cache-Control"
        (elim ttl [
          | none ↦ Json.text "no-store"
          | some (pos n) ↦
              if n == 0
              then Json.text "no-store"
              else Json.text (String.◌++◌ "max-age=" (m.to_string (Json.number (pos n))))
          | some n ↦ Json.text (String.◌++◌ "max-age=" (m.to_string (Json.number n)))
        ])
        s

  unfoldable pub with_generated : String → Option String → Call W → Call W
  with_generated name none s = s
  with_generated name (some value) s = with_header name (Json.text value) s

  -- lines 788 to 806
  unfoldable pub with_response_headers : ServiceFunction.HttpHeaders Json → Call W → Call W
  with_response_headers [] s = s
  with_response_headers ((name, ServiceFunction.text value) ∷ rest) s =
      with_response_headers rest (with_header name (Json.text value) s)
  with_response_headers ((name, ServiceFunction.generator generate) ∷ rest) s =
      with_response_headers rest
        (with_generated name (generate s.service_function_argument s.response) s)
  with_response_headers ((name, ServiceFunction.absent) ∷ rest) s = with_response_headers rest s

  -- `getResponseHeadersForServiceFunction(...) || {}`
  abbrev pub response_headers : Service → ServiceFunction.HttpHeaders Json
  response_headers service = default_to [] (
      get_response_headers_for_service_function m.function_annotations service.service_class
        (requested m r).1)

  -- lines 778 to 821
  unfoldable pub write_answer : Service → Option ℤ → Step W (Unit {0})
  unfolding with_cache_control with_response_headers with_generated
  write_answer service ttl s =
      let c = service.service_class in
      let status_code = default_to 200 (
        get_response_status_code_for_service_function m.function_annotations c (requested m r).1) in
      let t = with_response_headers (response_headers service) (with_cache_control ttl s) in
      pure tt (
        on_resp (end (content t.response)) (
          on_resp
            (write_head (pos status_code)
              (some (if is_subscribed then "text/event-stream" else "application/json")))
            t))

  -- `Number.isInteger(errorCode) || !isNaN(parseInt(errorCode, 10))`
  abbrev pub is_numeric : Option ErrorCode → Bool
  is_numeric none = false
  is_numeric (some (number n)) = true
  is_numeric (some (text code)) = is_defined (parse_decimal code)

  -- the `errorCode` of the answer
  unfoldable pub answered_error_code : String → Option ErrorCode → Option ErrorCode
  answered_error_code service_name error_code =
      if is_numeric error_code
      then some (text (codes service_name ++ (codes "." ++ show_code error_code)))
      else error_code

  -- the status code and the body that answer an error
  unfoldable pub answered_status : Failure → ℤ
  answered_status (backk e) = e.status_code
  answered_status (plain e) = default_to (pos 500) (parse_int (take 3 e.message))

  unfoldable pub answered_error : String → Failure → BackkError
  unfolding answered_error_code
  answered_error service_name (backk e) = record e {
    error_code = answered_error_code service_name e.error_code;
    stack_trace = none;
  }
  answered_error service_name (plain e) = create_backk_error_from_error m.process_env e

  -- lines 822 to 847
  unfoldable pub answer_error : Failure → Call W → Call W
  unfolding answered_status answered_error
  answer_error f s =
      on_resp (end (failure (answered_error s.service_name f)))
        (on_resp (write_head (answered_status f) (some "application/json")) s)

  -- lines 849 to 851
  abbrev pub audit_log : Option (AuditLog Json)
  audit_log = elim (requested_class m r) [
    | none ↦ none
    | some c ↦ get_audit_log m.function_annotations c (requested m r).1
  ]

  -- `value ?? other`
  abbrev or_else : Json → Json → Json
  or_else value other = if is_undefined value || is_null value then other else value

  -- lines 857 to 868
  unfoldable pub create_audit_log_entry : Option Failure → Bool → Call W → AuditLogEntry
  create_audit_log_entry error is_user_service s = record {
    subject =
        or_else (to_json s.subject)
          (or_else (get s.service_function_argument "subject") (Json.text ""));
    client_ip = default_to (one "") (at r.headers "x-forwarded-for");
    authorization_header = default_to (one "") (at r.headers "authorization");
    user_operation = if is_user_service then (requested m r).1 else s.service_function_name;
    is_failure = is_defined error;
    status_code = elim error [ some (backk e) ↦ some e.status_code | _ ↦ none ];
    error_message = elim error [
      | none ↦ none
      | some (backk e) ↦ some e.message
      | some (plain e) ↦ some e.message
    ];
    attributes =
        if is_user_service
        then s.service_function_argument
        else Json.object (
            to_members (
              put
                (elim audit_log [
                  | none ↦ []
                  | some log ↦ log.attributes_to_log s.service_function_argument s.response
                ])
                "_id" (get s.response "_id")));
  }

  -- `microservice[serviceName] instanceof UserBaseService`
  abbrev pub is_of_user_service : Call W → Bool
  is_of_user_service s = elim (at m.services s.service_name) [
    | none ↦ false
    | some service ↦ service.is_user_base_service
  ]

  abbrev should_log : Call W → Bool
  should_log s = elim audit_log [
    | none ↦ false
    | some log ↦ log.should_log s.service_function_argument s.response
  ]

  -- lines 848 to 871
  unfoldable pub write_audit_log : Option Failure → Step W (Unit {0})
  unfolding create_audit_log_entry
  write_audit_log error s =
      if is_of_user_service s || should_log s
      then (do
        service ← lift (
            get_microservice_service_by_service_class m "AuditLoggingService"
              (λ s. s.is_audit_logging_service))
        elim service [
          | none ↦ pure tt
          | some _ ↦
              on_outside (m.log_audit (create_audit_log_entry error (is_of_user_service s) s))
        ])
          s
      else pure tt s
