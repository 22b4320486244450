-- ===== src/Execution/Writing.antt =====
-- What the end of an execution calls on the response: headers, and then a head and a body.
use lrzwasnla.Common.{◌≡◌, refl, false, Option, none, some, [], ◌∷◌, String, ℤ, at, arith}
use lrzwasnla.Errors.{Failure}
use lrzwasnla.Annotations.ServiceFunction
use lrzwasnla.Execution.{Call, Service, Microservice, Request}
use lrzwasnla.Execution.Values.{Json, get}
use lrzwasnla.Execution.Responses.{
  tag_response, is_match, finish_response, finish_found, response_type, fetch_response,
  read_cached_response, validate_response, cache_response,
}
use lrzwasnla.Execution.Functions.{throw_counted, call_in_namespace}
use lrzwasnla.Execution.Answers.{
  write_answer, with_cache_control, with_response_headers, answer_error, with_header,
  with_generated, response_headers,
}
use lrzwasnla.Execution.Method.{call_and_finish, call_or_take_cached}
use lrzwasnla.Execution.Quiet.{
  IsAnswer, only_headers-set_header, Quiet, Ends, KeepsQuiet, Silent-KeepsQuiet, KeepsQuiet->>=,
}
use lrzwasnla.Execution.Silence.{
  Silent-response_type, Silent-fetch_response, Silent-throw_counted, Silent-validate_response,
  Silent-cache_response, Silent-call_in_namespace, Silent-read_cached_response,
}

module _ {W : Type 0} (m : Microservice W) (r : Request) where
  pub Quiet-with_header :
      (name : String) (value : Json) (s : Call W) → Quiet s → Quiet (with_header m r name value s)
  Quiet-with_header name value s q = ground (arith, only_headers-set_header s.replies name value q)

  Quiet-with_generated :
      (name : String) (o : Option String) (s : Call W)
      → Quiet s
      → Quiet (with_generated m r name o s)
  unfolding with_generated
  Quiet-with_generated name none s q = q
  Quiet-with_generated name (some value) s q = Quiet-with_header name (Json.text value) s q

  Quiet-with_response_headers :
      (headers : ServiceFunction.HttpHeaders Json) (s : Call W)
      → Quiet s
      → Quiet (with_response_headers m r headers s)
  unfolding with_response_headers
  Quiet-with_response_headers [] s q = q
  Quiet-with_response_headers ((name, ServiceFunction.text value) ∷ rest) s q =
      Quiet-with_response_headers rest _ (Quiet-with_header name (Json.text value) s q)
  Quiet-with_response_headers ((name, ServiceFunction.generator generate) ∷ rest) s q =
      Quiet-with_response_headers rest
        (with_generated m r name (generate s.service_function_argument s.response) s)
        (Quiet-with_generated name _ s q)
  Quiet-with_response_headers ((name, ServiceFunction.absent) ∷ rest) s q =
      Quiet-with_response_headers rest s q

  Quiet-with_cache_control :
      (ttl : Option ℤ) (s : Call W) → Quiet s → Quiet (with_cache_control m r ttl s)
  unfolding with_cache_control
  Quiet-with_cache_control ttl s q = Quiet-with_header _ _ s q

  pub Ends-write_answer :
      (service : Service) (ttl : Option ℤ) (s : Call W)
      → Quiet s
      → Ends (write_answer m r service ttl s)
  unfolding write_answer
  Ends-write_answer service ttl s q = record {
    before = _;
    status_code = _;
    content_type = _;
    body = _;
    before_only_headers =
        Quiet-with_response_headers (response_headers m r service) (with_cache_control m r ttl s)
          (Quiet-with_cache_control ttl s q);
    parts = refl;
  }

  pub IsAnswer-answer_error :
      (f : Failure) (s : Call W) → Quiet s → IsAnswer (answer_error m r f s).replies
  unfolding answer_error
  IsAnswer-answer_error f s q = record {
    before = _;
    status_code = _;
    content_type = _;
    body = _;
    before_only_headers = q;
    parts = refl;
  }

  is_match-none :
      at r.headers "If-None-Match" ≡ none → (version : Json) → is_match m r version ≡ false
  unfolding is_match
  is_match-none h (Json.text version) = ground arith
  is_match-none h Json.undefined = refl
  is_match-none h Json.null = refl
  is_match-none h (Json.boolean _) = refl
  is_match-none h (Json.number _) = refl
  is_match-none h (Json.array _) = refl
  is_match-none h (Json.object _) = refl

  module _ (h : at r.headers "If-None-Match" ≡ none) where
    -- With no version to compare with, a tag is a header at most.
    KeepsQuiet-tag_response : KeepsQuiet (tag_response m r)
    unfolding tag_response
    KeepsQuiet-tag_response = record {
      at = λ s q.
          let version = get (get s.response "data") "version" in
          ground
            (arith, is_match-none h version, only_headers-set_header s.replies "ETag" version q);
    }

    KeepsQuiet-finish_found :
        (service : Service) (argument : Json) → KeepsQuiet (finish_found m r service argument)
    unfolding finish_found
    KeepsQuiet-finish_found service argument =
        KeepsQuiet->>= (response_type m r service) _
          (Silent-KeepsQuiet (Silent-response_type m r service))
          (λ info.
            KeepsQuiet->>= (fetch_response m r info argument) _
              (Silent-KeepsQuiet (Silent-fetch_response m r info argument))
              (λ error.
                KeepsQuiet->>= (throw_counted m r error) _
                  (Silent-KeepsQuiet (Silent-throw_counted m r error))
                  (λ _.
                    KeepsQuiet->>= (validate_response m r info) _
                      (Silent-KeepsQuiet (Silent-validate_response m r info))
                      (λ _.
                        KeepsQuiet->>= (cache_response m r) _
                          (Silent-KeepsQuiet (Silent-cache_response m r))
                          (λ ttl.
                            KeepsQuiet->>= (tag_response m r) _ KeepsQuiet-tag_response
                              (λ _. record { at = λ s q. q }))))))

    KeepsQuiet-finish_response :
        (service : Service) (argument : Json) → KeepsQuiet (finish_response m r service argument)
    unfolding finish_response
    KeepsQuiet-finish_response service argument = record {
      at = λ s q. ground (arith, (KeepsQuiet-finish_found service argument).at s q);
    }

    KeepsQuiet-call :
        (service : Service) (user_service : Option Service) (argument : Json)
        → KeepsQuiet (call_and_finish m r service user_service argument)
    unfolding call_and_finish
    KeepsQuiet-call service user_service argument =
        KeepsQuiet->>= (call_in_namespace m r service user_service argument) _
          (Silent-KeepsQuiet (Silent-call_in_namespace m r service user_service argument))
          (λ error.
            KeepsQuiet->>= (throw_counted m r error) _
              (Silent-KeepsQuiet (Silent-throw_counted m r error))
              (λ _. KeepsQuiet-finish_response service argument))

    pub KeepsQuiet-call_or_take_cached :
        (service : Service) (user_service : Option Service) (argument : Json)
        → KeepsQuiet (call_or_take_cached m r service user_service argument)
    unfolding call_or_take_cached
    KeepsQuiet-call_or_take_cached service user_service argument =
        KeepsQuiet->>= (read_cached_response m r) _
          (Silent-KeepsQuiet (Silent-read_cached_response m r))
          (λ _. record {
            at = λ s q. ground (arith, (KeepsQuiet-call service user_service argument).at s q);
          })
