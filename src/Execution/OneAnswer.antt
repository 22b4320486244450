-- ===== src/Execution/OneAnswer.antt =====
-- What is called on the response: headers are set, then one head and one body are written.
use lrzwasnla.Common.{◌≡◌, refl, Bool, false, Option, none, some, String, ℤ, pos, at, ◌===◌, arith}
use lrzwasnla.Common.Exec.{Result, ok, err, pure, continue}
use lrzwasnla.Errors.{Failure}
use lrzwasnla.Execution.{
  Call, Step, write_head, end, Body, nothing, open_api_spec, services_metadata, Service,
  Microservice, Request,
}
use lrzwasnla.Execution.Values.{Json}
use lrzwasnla.Transactions.{Session}
use lrzwasnla.Execution.Dispatch.{multiple_execution-none}
use lrzwasnla.Execution.Steps.{on_resp}
use lrzwasnla.Execution.Requests.{
  Course, answered, proceed, check_http_method, dispatch_multiple_execution, choose_course,
  require_post, answer_metadata, end_with_document, answer_health_check, read_get_argument,
  check_service_function_count,
}
use lrzwasnla.Execution.Answers.{keep_alive}
use lrzwasnla.Execution.Method.{
  after_try, stored_error, start, follow, admit, call_or_take_cached, execute_service_function,
  execute, try_execute_service_method,
}
use lrzwasnla.Execution.Quiet.{IsAnswer, Quiet, Ends, Silent-KeepsQuiet, Ends->>=}
use lrzwasnla.Execution.Silence.{Silent-admit, Silent-write_audit_log, Silent-check_http_method}
use lrzwasnla.Execution.Writing.{
  Quiet-with_header, Ends-write_answer, IsAnswer-answer_error, KeepsQuiet-call_or_take_cached,
}

-- No document of the metadata fails to be generated for the request.
abbrev pub IsGenerated : {W : Type 0} → Microservice W → Request → Type 0
IsGenerated m r = (body : Body) → m.generation_failure body r.is_cluster_internal_call ≡ none

module _ {W : Type 0} (m : Microservice W) (r : Request) (generated : IsGenerated m r) where
  module _ (h : at r.headers "If-None-Match" ≡ none) where
    Ends-execute_service_function :
        (b : Bool) (s : Call W) → Quiet s → Ends (execute_service_function m r b s)
    unfolding execute_service_function
    Ends-execute_service_function b s q =
        Ends->>= (admit m r b) _ s (Silent-KeepsQuiet (Silent-admit m r b)) q
          (λ (service, user_service, argument) t qt.
            Ends->>= (call_or_take_cached m r service user_service argument) _ t
              (KeepsQuiet-call_or_take_cached m r h service user_service argument) qt
              (λ ttl u qu. Ends-write_answer m r service ttl u qu))

  -- What a choice of the course leaves: an answer, or a call to go on with.
  abbrev Chosen : Result Failure Course × Call W → Type 0
  Chosen (ok answered, s) = IsAnswer s.replies
  Chosen (ok (proceed _), s) = Quiet s
  Chosen (err _, s) = Quiet s

  Ends-follow :
      (c : Step W Course) (g : Bool → Step W (Unit {0})) (s : Call W)
      → Chosen (c s)
      → ((b : Bool) (t : Call W) → Quiet t → Ends (g b t))
      → Ends (follow m r c g s)
  Ends-follow c g s chosen k = go (c s) chosen
    where
      go :
          (p : Result Failure Course × Call W)
          → Chosen p
          → Ends (continue p.0 (λ chosen. elim chosen [ answered ↦ pure tt | proceed b ↦ g b ]) p.1)
      go (ok answered, t) h = h
      go (ok (proceed b), t) h = k b t h
      go (err e, t) h = h

  IsAnswer-two :
      (status_code : ℤ) (content_type : Option String) (body : Body) (s : Call W)
      → Quiet s
      → IsAnswer (on_resp (end body) (on_resp (write_head status_code content_type) s)).replies
  IsAnswer-two status_code content_type body s q = record {
    before = _;
    status_code = _;
    content_type = _;
    body = _;
    before_only_headers = q;
    parts = refl;
  }

  Chosen-answer_metadata :
      (body : Body) (s : Call W) → Quiet s → Chosen (answer_metadata m r body s)
  unfolding answer_metadata end_with_document
  Chosen-answer_metadata body s q =
      ground (arith, generated body, IsAnswer-two (pos 200) (some "application/json") body s q, q)

  Chosen-answer_health_check :
      (class_name : String) (is_instance : Service → Bool) (s : Call W)
      → Quiet s
      → Chosen (answer_health_check m r class_name is_instance s)
  unfolding answer_health_check
  Chosen-answer_health_check class_name is_instance s q =
      ground (arith, IsAnswer-two (pos 200) none nothing s q, q)

  Chosen-read_get_argument : (s : Call W) → Quiet s → Chosen (read_get_argument m r s)
  unfolding read_get_argument
  Chosen-read_get_argument s q = ground (arith, q)

  Chosen-dispatch_multiple_execution :
      (s : Call W) → Quiet s → Chosen (dispatch_multiple_execution m r s)
  unfolding dispatch_multiple_execution require_post check_service_function_count
  Chosen-dispatch_multiple_execution s q =
      ground (arith, multiple_execution-none r.service_function_name, q)

  Chosen-choose_course :
      (r.service_function_name === "serviceFunctionSchedulingService.scheduleExecution") ≡ false
      → (s : Call W) → Quiet s
      → Chosen (choose_course m r s)
  unfolding choose_course
  Chosen-choose_course h s q = ground (
    arith,
    h,
    Chosen-answer_metadata open_api_spec s q,
    Chosen-answer_metadata services_metadata s q,
    Chosen-answer_health_check "LivenessCheckService" (λ s. s.is_liveness_check_service) s q,
    Chosen-answer_health_check "ReadinessCheckService" (λ s. s.is_readiness_check_service) s q,
    Chosen-answer_health_check "StartupCheckService" (λ s. s.is_startup_check_service) s q,
    Chosen-read_get_argument s q,
    q,
  )

  module _ (h : at r.headers "If-None-Match" ≡ none)
      (not_scheduling : (r.service_function_name
          === "serviceFunctionSchedulingService.scheduleExecution")
        ≡ false) where
    Ends-execute : (s : Call W) → Quiet s → Ends (execute m r s)
    unfolding execute
    Ends-execute s q =
        Ends->>= (check_http_method m r) _ s (Silent-KeepsQuiet (Silent-check_http_method m r)) q
          (λ _ t qt.
            Ends-follow (dispatch_multiple_execution m r) _ t
              (Chosen-dispatch_multiple_execution t qt)
              (λ _ u qu.
                Ends-follow (choose_course m r) _ u (Chosen-choose_course not_scheduling u qu)
                  (Ends-execute_service_function h)))

    Quiet-keep_alive : (s : Call W) → Quiet s → Quiet (keep_alive m r s)
    unfolding keep_alive
    Quiet-keep_alive s q =
        ground (arith, Quiet-with_header m r "Connection" (Json.text "keep-alive") s q, q)

    IsAnswer-after_try :
        (p : Result Failure (Unit {0}) × Call W) → Ends p → IsAnswer (after_try m r p.0 p.1).replies
    IsAnswer-after_try (ok _, s) a = a
    IsAnswer-after_try (err f, s) q = IsAnswer-answer_error m r f s q

    -- A request without If-None-Match that is not for the scheduling of a function, and for which
    -- no document of the metadata fails to be generated, gets one whole answer: headers, one head,
    -- one body.
    pub IsAnswer-try_execute_service_method :
        (session : Session) (outside : W)
        → IsAnswer (try_execute_service_method m r session outside).1.replies
    unfolding try_execute_service_method
    IsAnswer-try_execute_service_method session outside =
        let c = execute m r (keep_alive m r (start m r session outside)) in
        let a =
          IsAnswer-after_try c
            (Ends-execute _ (Quiet-keep_alive (start m r session outside) refl)) in
        rw ((Silent-write_audit_log m r (stored_error m r c.0)).at (after_try m r c.0 c.1)) a
