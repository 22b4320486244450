-- ===== src/Execution/Admitted.antt =====
-- What is known of a call whose service function is executed.
use mathlib.Core.Path.{subst}
use lrzwasnla.Common.{
  ◌≡◌, ap, sym, ◌∙◌, String, Bool, true, false, ◌||◌, Option, some, ◌===◌, at, inl, inr, arith, ℕ,
}
use lrzwasnla.Common.Exec.{Result, ok, err, >>=-eq-ok, Result-cases}
use lrzwasnla.Errors.{Failure}
use lrzwasnla.Authorization.{Identity}
use lrzwasnla.Authorization.Grants.{Grants}
use lrzwasnla.Authorization.Laws.{try_authorize-Grants}
use lrzwasnla.Execution.{Call, Service, Microservice, Request}
use lrzwasnla.Execution.Values.{Json, is_object, is_array}
use lrzwasnla.Execution.Names.{has_function}
use lrzwasnla.Execution.Requests.{
  proceed, requested, choose_course, require_post, answer_metadata, read_get_argument,
}
use lrzwasnla.Execution.Steps.{get_microservice_service_by_service_class}
use lrzwasnla.Execution.Admission.{
  is_authorization_service, authorization_service_of, keep_identity, find_service,
  check_argument_is_object, check_captcha, authorize, ask_authorization, check_owner_in_argument,
  validate_argument, try_verify_captcha_token,
}
use lrzwasnla.Execution.Method.{admit}

-- The names of the three health checks.
abbrev pub is_health_check : String → Bool
is_health_check name =
    (name === "livenessCheckService.isMicroserviceAlive")
    || (name === "readinessCheckService.isMicroserviceReady")
    || (name === "startupCheckService.isMicroserviceStarted")

module _ {W : Type 0} (m : Microservice W) (r : Request) where
  -- A call goes on without authorization only for a health check.
  pub unauthorized_is_health_check :
      (s t : Call W)
      → choose_course m r s ≡ (ok (proceed false), t)
      → is_health_check r.service_function_name ≡ true
  unfolding choose_course require_post answer_metadata read_get_argument
  unauthorized_is_health_check s t h = ground arith

  -- A reason of tryAuthorize, with what the microservice's authorization service answers.
  abbrev pub Granted : Service → Option Service → Option String → Option String → Type 0
  Granted service a subject issuer =
      Grants m.service_annotations m.function_annotations service.service_class (requested m r).1
        m.process_env (at r.headers "authorization") (authorization_service_of m r a)
        r.is_cluster_internal_call (subject, issuer)

  -- The reasons and the checks behind an admission from the state `s`.
  pub record Admitted (should_authorize : Bool) (s : Call W) (service : Service) (t : Call W)
      : Type 0 where
    pub known : at m.services s.service_name ≡ some service
    pub has : has_function service (requested m r).1 ≡ true
    pub argument_is_object : is_object s.service_function_argument ≡ true
    pub argument_is_no_array : is_array s.service_function_argument ≡ false
    pub granted :
        should_authorize ≡ true
        → (authorization_service : Option Service) × (get_microservice_service_by_service_class m
              "AuthorizationService" is_authorization_service
            ≡ ok authorization_service)
          × Granted service authorization_service t.subject t.issuer

  found :
      (s t : Call W) (service : Service)
      → find_service m r s ≡ (ok service, t)
      → (at m.services s.service_name ≡ some service)
        × (has_function service (requested m r).1 ≡ true)
        × (t ≡ s)
  unfolding find_service
  found s t service h = ground arith

  object :
      (s t : Call W) (service : Service)
      → check_argument_is_object m r service s ≡ (ok tt, t)
      → (is_object s.service_function_argument ≡ true)
        × (is_array s.service_function_argument ≡ false)
        × (t ≡ s)
  unfolding check_argument_is_object
  object s t service h = ground arith

  identity_kept :
      (p : Result Failure Identity × ℕ) (s t : Call W)
      → keep_identity m r p s ≡ (ok tt, t)
      → p ≡ (ok (t.subject, t.issuer), t.authorization_failures)
  identity_kept (ok (subject, issuer), n) s t h = ground arith
  identity_kept (err e, n) s t h = absurd (ground arith)

  asked :
      (service : Service) (a : Option Service) (s t : Call W)
      → ask_authorization m r service a s ≡ (ok tt, t)
      → Granted service a t.subject t.issuer
  unfolding ask_authorization
  asked service a s t h = try_authorize-Grants _ _ _ _ _ _ _ _ _ _ _ _ (identity_kept _ s t h)

  owner :
      (service : Service) (s t : Call W)
      → check_owner_in_argument m r service s ≡ (ok tt, t)
      → t ≡ s
  unfolding check_owner_in_argument
  owner service s t h = ground arith

  valid :
      (service : Service) (s t : Call W) (v : Json)
      → validate_argument m r service s ≡ (ok v, t)
      → (t.subject ≡ s.subject) × (t.issuer ≡ s.issuer)
  unfolding validate_argument
  valid service s t v h = ground arith

  captcha :
      (s t : Call W)
      → check_captcha m r s ≡ (ok tt, t)
      → (t.service_function_argument ≡ s.service_function_argument)
  unfolding check_captcha try_verify_captcha_token
  captcha s t h = ground arith

  -- What authorize leaves when it lets a call through.
  authorized :
      (service : Service) (should_authorize : Bool) (user_service : Option Service) (s t : Call W)
      → authorize m r service should_authorize s ≡ (ok user_service, t)
      → should_authorize ≡ true
      → (authorization_service : Option Service) × (get_microservice_service_by_service_class m
            "AuthorizationService" is_authorization_service
          ≡ ok authorization_service)
        × (ask_authorization m r service authorization_service s ≡ (ok tt, t))
  unfolding authorize
  authorized service should_authorize user_service s t h e =
      elim (Result-cases (
        get_microservice_service_by_service_class m "AuthorizationService"
          is_authorization_service)) [
            | inl (a, e') ↦ (a, e', ground arith)
            | inr (f, e') ↦ absurd (ground arith)
          ]

  same_service :
      (service service' : Service) (u u' : Option Service) (v v' : Json) (s t : Call W)
      → ◌≡◌ {A = Result Failure (Service × Option Service × Json) × Call W}
          (ok (service, u, v), s)
          (ok (service', u', v'), t)
      → service ≡ service'
  same_service service service' u u' v v' s t h = ground arith

  same_call :
      (x y : Service × Option Service × Json) (s t : Call W)
      → ◌≡◌ {A = Result Failure (Service × Option Service × Json) × Call W} (ok x, s) (ok y, t)
      → s ≡ t
  same_call x y s t h = ap (λ p. p.1) h

  same_field :
      (field : Call W → Option String) {s4 s5 s6 t : Call W}
      → s5 ≡ s4
      → field s6 ≡ field s5
      → s6 ≡ t
      → field s4 ≡ field t
  same_field field p q o = sym (ap field p) ∙ sym q ∙ ap field o

  same_grant :
      (service service' : Service) (b : Option Service) (x x' y y' : Option String)
      → service ≡ service'
      → x ≡ x'
      → y ≡ y'
      → Granted service b x y
      → Granted service' b x' y'
  same_grant service service' b x x' y y' p q o g =
      subst (λ z. Granted service' b x' z) o
        (subst (λ z. Granted service' b z y) q (subst (λ z. Granted z b x y) p g))

  -- A call is admitted only to a function of a service that the microservice has, with an object
  -- as argument, and, unless it is a health check, for a reason that tryAuthorize has.
  pub admit-Admitted :
      (should_authorize : Bool) (s t : Call W) (service : Service) (user_service : Option Service)
      (argument : Json)
      → admit m r should_authorize s ≡ (ok (service, user_service, argument), t)
      → Admitted should_authorize s service t
  unfolding admit
  admit-Admitted should_authorize s t service user_service argument h =
      let (service1, s1, e1, h1) = >>=-eq-ok (find_service m r) _ s t _ h in
      let (_, s2, e2, h2) = >>=-eq-ok (check_argument_is_object m r service1) _ s1 t _ h1 in
      let (_, s3, e3, h3) = >>=-eq-ok (check_captcha m r) _ s2 t _ h2 in
      let (_, s4, e4, h4) = >>=-eq-ok (authorize m r service1 should_authorize) _ s3 t _ h3 in
      let (_, s5, e5, h5) = >>=-eq-ok (check_owner_in_argument m r service1) _ s4 t _ h4 in
      let (argument', s6, e6, h6) = >>=-eq-ok (validate_argument m r service1) _ s5 t _ h5 in
      let (known, has, unchanged1) = found s s1 service1 e1 in
      let (is_object, is_no_array, unchanged2) = object s1 s2 service1 e2 in
      let same = same_service service1 service _ _ _ _ s6 t h6 in
      let after = owner service1 s4 s5 e5 in
      let (sub5, iss5) = valid service1 s5 s6 argument' e6 in
      let sub = same_field (λ (u : Call W). u.subject) after sub5 (same_call _ _ s6 t h6) in
      let iss = same_field (λ (u : Call W). u.issuer) after iss5 (same_call _ _ s6 t h6) in
      record {
        known = ground (arith, known, same);
        has = ground (arith, has, same);
        argument_is_object = ground (arith, is_object, unchanged1);
        argument_is_no_array = ground (arith, is_no_array, unchanged1);
        granted = λ e.
            let (a, e', asks) = authorized service1 should_authorize _ s3 s4 e4 e in
            (
              a,
              e',
              same_grant service1 service a s4.subject t.subject s4.issuer t.issuer same sub iss
                  (asked service1 a s3 s4 asks),
            );
      }
