-- ===== src/Execution/Silence.antt =====
-- Steps that call nothing on the response, and the rules by which they are put together.
use lrzwasnla.Common.{
  ◌≡◌, refl, ◌∙◌, Bool, true, false, Option, none, some, String, if◌then◌else◌, arith,
}
use lrzwasnla.Common.Exec.{Result, ok, err, Exec, pure, continue, ◌>>=◌}
use lrzwasnla.Errors.{Failure}
use lrzwasnla.Execution.{Call, Step, Service, Microservice, Request}
use lrzwasnla.Execution.Requests.{check_http_method, read_get_argument}
use lrzwasnla.Execution.Admission.{
  find_service, check_argument_is_object, try_verify_captcha_token, check_captcha,
  ask_authorization, authorize, check_owner_in_argument, validate_argument,
}
use lrzwasnla.Errors.{BackkError}
use lrzwasnla.Execution.Values.{Json}
use lrzwasnla.Execution.Names.{is_text}
use lrzwasnla.Execution.Accounts.{
  resolve_user_account_or_tenant_id, resolve_own_id, resolve_id_of_subject, resolve_id_of_issuer,
  ask_for_id, field_name_of_own_resources, keep_user_account_id, set_user_account_id,
}
use lrzwasnla.Execution.Functions.{
  call_function, check_transactions, throw_counted, with_data_store, call_with_connection,
  call_in_namespace, enter_namespace,
}
use lrzwasnla.Transactions.{Session}
use lrzwasnla.Execution.Method.{admit}
use lrzwasnla.Execution.Answers.{write_audit_log}
use lrzwasnla.Execution.Responses.{
  read_cached_response, cache_config, check_redis_settings, read_cached_text, cache_response,
  store_response, validate_response, validate_value, response_type, fetch_response,
}
use lrzwasnla.TypeNames.{TypeInfo}

-- `f` calls nothing on the response, whether it returns or throws.
pub record Silent {W A : Type 0} (f : Step W A) : Type 0 where
  pub at : (s : Call W) → (f s).1.replies ≡ s.replies

module _ {W A B : Type 0} where
  Silent-continue :
      (r : Result Failure A) (f : A → Step W B) (s : Call W)
      → ((a : A) → Silent (f a))
      → (continue r f s).1.replies ≡ s.replies
  Silent-continue (ok a) f s k = (k a).at s
  Silent-continue (err e) f s k = refl

  pub Silent->>= :
      (f : Step W A) (g : A → Step W B) → Silent f → ((a : A) → Silent (g a)) → Silent (f >>= g)
  Silent->>= f g kf kg = record { at = λ s. Silent-continue (f s).0 g (f s).1 kg ∙ kf.at s }

module _ {W : Type 0} (m : Microservice W) (r : Request) where
  pub Silent-check_http_method : Silent (check_http_method m r)
  unfolding check_http_method
  Silent-check_http_method = record { at = λ s. ground arith }

  pub Silent-check_argument_is_object :
      (service : Service) → Silent (check_argument_is_object m r service)
  unfolding check_argument_is_object
  Silent-check_argument_is_object service = record { at = λ s. ground arith }

  pub Silent-find_service : Silent (find_service m r)
  unfolding find_service
  Silent-find_service = record { at = λ s. ground arith }

  pub Silent-check_captcha : Silent (check_captcha m r)
  unfolding check_captcha try_verify_captcha_token
  Silent-check_captcha = record { at = λ s. ground arith }

  pub Silent-authorize : (service : Service) (b : Bool) → Silent (authorize m r service b)
  unfolding authorize ask_authorization
  Silent-authorize service b = record { at = λ s. ground arith }

  pub Silent-check_owner_in_argument :
      (service : Service) → Silent (check_owner_in_argument m r service)
  unfolding check_owner_in_argument
  Silent-check_owner_in_argument service = record { at = λ s. ground arith }

  pub Silent-validate_argument : (service : Service) → Silent (validate_argument m r service)
  unfolding validate_argument
  Silent-validate_argument service = record { at = λ s. ground arith }

  pub Silent-read_get_argument : Silent (read_get_argument m r)
  unfolding read_get_argument
  Silent-read_get_argument = record { at = λ s. ground arith }

  Silent-resolve :
      (service : Service) (user_service : Option Service)
      → Silent (resolve_user_account_or_tenant_id m r service user_service)
  unfolding resolve_user_account_or_tenant_id resolve_own_id resolve_id_of_subject
      resolve_id_of_issuer ask_for_id
  Silent-resolve service user_service = record { at = λ s. ground arith }

  Silent-keep_user_account_id :
      (service : Service) (user_service : Option Service) (field_name : Option String)
      → Silent (keep_user_account_id m r service user_service field_name)
  unfolding keep_user_account_id
  Silent-keep_user_account_id service user_service field_name =
      Silent->>= _ _ (Silent-resolve service user_service) (λ id. record { at = λ s. ground arith })

  Silent-if : (b : Bool) (f : Step W (Unit {0})) → Silent f → Silent (if b then f else pure tt)
  Silent-if true f k = k
  Silent-if false f k = record { at = λ s. refl }

  Silent-field_name : Silent (field_name_of_own_resources m r)
  unfolding field_name_of_own_resources
  Silent-field_name = record { at = λ s. refl }

  Silent-set_user_account_id :
      (service : Service) (user_service : Option Service)
      → Silent (set_user_account_id m r service user_service)
  unfolding set_user_account_id
  Silent-set_user_account_id service user_service =
      Silent->>= (field_name_of_own_resources m r) _ Silent-field_name (λ field_name.
        Silent-if (is_text field_name) _
          (Silent-keep_user_account_id service user_service field_name))

  Silent-call_function : (argument : Json) → Silent (call_function m r argument)
  unfolding call_function
  Silent-call_function argument = record { at = λ s. ground arith }

  Silent-check_transactions : (service : Service) → Silent (check_transactions m r service)
  unfolding check_transactions
  Silent-check_transactions service = record { at = λ s. ground arith }

  pub Silent-throw_counted : (e : Option BackkError) → Silent (throw_counted m r e)
  unfolding throw_counted
  Silent-throw_counted none = record { at = λ s. refl }
  Silent-throw_counted (some e) = record { at = λ s. ground arith }

  pub Silent-read_cached_response : Silent (read_cached_response m r)
  unfolding read_cached_response cache_config check_redis_settings read_cached_text
  Silent-read_cached_response = record { at = λ s. ground arith }

  pub Silent-cache_response : Silent (cache_response m r)
  unfolding cache_response cache_config check_redis_settings store_response
  Silent-cache_response = record { at = λ s. ground arith }

  pub Silent-validate_response : (info : TypeInfo) → Silent (validate_response m r info)
  unfolding validate_response validate_value
  Silent-validate_response info = record { at = λ s. ground arith }

  pub Silent-with_data_store :
      (service : Service) (f : Exec Failure Session (Unit {0}))
      → Silent (with_data_store m r service f)
  unfolding with_data_store
  Silent-with_data_store service f = record { at = λ s. ground arith }

  Silent-call_with_connection :
      (service : Service) (user_service : Option Service) (argument : Json)
      → Silent (call_with_connection m r service user_service argument)
  unfolding call_with_connection
  Silent-call_with_connection service user_service argument =
      Silent->>= _ _ (Silent-with_data_store service _) (λ _.
        Silent->>= _ _ (Silent-set_user_account_id service user_service) (λ _.
          Silent->>= _ _ (Silent-call_function argument) (λ outcome.
            Silent->>= _ _ (Silent-with_data_store service _) (λ _.
              Silent->>= _ _ (Silent-check_transactions service)
                (λ _. record { at = λ s. refl })))))

  pub Silent-call_in_namespace :
      (service : Service) (user_service : Option Service) (argument : Json)
      → Silent (call_in_namespace m r service user_service argument)
  unfolding call_in_namespace
  Silent-call_in_namespace service user_service argument = record {
    at = λ s.
        (Silent-call_with_connection service user_service argument).at
          (record s { session = enter_namespace m r s.session });
  }

  pub Silent-admit : (b : Bool) → Silent (admit m r b)
  unfolding admit
  Silent-admit b = Silent->>= _ _ Silent-find_service (λ service.
      Silent->>= _ _ (Silent-check_argument_is_object service) (λ _.
        Silent->>= _ _ Silent-check_captcha (λ _.
          Silent->>= _ _ (Silent-authorize service b) (λ user_service.
            Silent->>= _ _ (Silent-check_owner_in_argument service) (λ _.
              Silent->>= _ _ (Silent-validate_argument service)
                (λ argument. record { at = λ s. refl }))))))

  pub Silent-response_type : (service : Service) → Silent (response_type m r service)
  unfolding response_type
  Silent-response_type service = record { at = λ s. refl }

  pub Silent-fetch_response :
      (info : TypeInfo) (argument : Json) → Silent (fetch_response m r info argument)
  unfolding fetch_response
  Silent-fetch_response info argument = record { at = λ s. ground arith }

  pub Silent-write_audit_log : (error : Option Failure) → Silent (write_audit_log m r error)
  unfolding write_audit_log
  Silent-write_audit_log error = record { at = λ s. ground arith }
