-- ===== src/Authorization/Complete.antt =====
-- Every reason is honoured, and what a denial leaves behind.
use lrzwasnla.Common.{
  ℕ, suc, String, ◌≡◌, ◌≢◌, Bool, true, false, ◌⊎◌, Option, none, some, List, Text, arith,
}
use lrzwasnla.Common.Exec.{err, is_ok}
use lrzwasnla.Errors.{backk, Environment, create_backk_error_from_error_code_message_and_status}
use lrzwasnla.Errors.Messages.{user_not_authenticated, service_function_call_not_authorized}
use lrzwasnla.Annotations.Classes.{Class}
use lrzwasnla.Annotations.Service.{ServiceAnnotationContainer}
use lrzwasnla.Annotations.Service.Laws.{with_authentication-eq-true}
use lrzwasnla.Annotations.ServiceFunction.{
  ServiceFunctionAnnotationContainer, is_service_function_allowed_for_every_user,
  is_service_function_allowed_for_every_user_with_authentication,
}
use lrzwasnla.Authorization.{
  HeaderValue, AuthorizationService, Identity, is_open, is_for_cluster, is_for_identified,
  allowed_roles, authorize_outside_production, identify, authorize_roles, authorize_header,
  try_authorize,
}
use lrzwasnla.Authorization.Grants.{
  Grants, everybody, from_cluster, identified, in_role, outside_production,
}

-- An authorization service that answers both questions about a header.
abbrev pub Answers : AuthorizationService → Type 0
Answers service =
    (h : HeaderValue)
    → (is_ok (service.get_subject_and_issuer h) ≡ true)
      × ((roles : List String) → is_ok (service.has_user_role_in roles h) ≡ true)

module _ {Any : Type 0} (services : ServiceAnnotationContainer)
    (functions : ServiceFunctionAnnotationContainer Any) (env : Environment) (stack : Option Text)
    (c : Class) (function_name : String) where
  -- A call that carries a header, or comes from the cluster, is let through if it has a reason.
  pub Grants-try_authorize :
      (header : Option HeaderValue) (service : AuthorizationService) (cluster : Bool) (n : ℕ)
      (who : Identity)
      → Answers service
      → (header ≢ none) ⊎ (cluster ≡ true)
      → Grants services functions c function_name env header (some service) cluster who
      → is_ok
          (try_authorize services functions env stack c function_name header
            (some service)
            cluster
            n).0
        ≡ true
  unfolding try_authorize is_open authorize_header is_for_cluster is_for_identified allowed_roles
      authorize_outside_production identify authorize_roles
  Grants-try_authorize header service cluster n who a r (everybody p q) = ground (arith, p, q)
  Grants-try_authorize none service true n who a r (from_cluster p q f) = ground arith
  Grants-try_authorize none service false n who a r (from_cluster p q f) = ground arith
  Grants-try_authorize (some h) service cluster n who a r (from_cluster p q f) = ground arith
  Grants-try_authorize none service cluster n who a r (identified w p q f x y z) = ground arith
  Grants-try_authorize (some h) service cluster n who a r (identified w p q f x y z) = ground arith
  Grants-try_authorize none service cluster n who a r (in_role p q x) = ground arith
  Grants-try_authorize (some h) service cluster n who a r (in_role p q x) = ground (arith, (a h).0)
  Grants-try_authorize none service true n who a r (outside_production p q) = ground arith
  Grants-try_authorize none service false n who a r (outside_production p q) = ground arith
  Grants-try_authorize (some h) service cluster n who a r (outside_production p q) =
      ground (arith, (a h).0, (a h).1 (allowed_roles services functions env stack c function_name))

  -- A run counts one authorization failure where it denies the call, and none otherwise.
  count-try_authorize :
      (header : Option HeaderValue) (service : Option AuthorizationService) (cluster : Bool) (n : ℕ)
      → let r =
          try_authorize services functions env stack c function_name header service cluster n in
        (r.1 ≡ n)
        ⊎ ((r.1 ≡ suc n)
            × (r.0
                ≡ err (
                    backk (
                      create_backk_error_from_error_code_message_and_status env stack
                        service_function_call_not_authorized))))
  unfolding try_authorize authorize_header authorize_outside_production authorize_roles
  count-try_authorize header none cluster n = ground arith
  count-try_authorize none (some service) true n = ground arith
  count-try_authorize none (some service) false n = ground arith
  count-try_authorize (some h) (some service) cluster n = ground arith

  -- A call from outside of the cluster that carries no header is turned away as not authenticated,
  -- unless the function itself is registered as open to everybody without authentication: what is
  -- registered for its class makes no difference.
  try_authorize-unauthenticated :
      (service : AuthorizationService) (n : ℕ)
      → (is_service_function_allowed_for_every_user functions c function_name ≡ false)
        ⊎ (is_service_function_allowed_for_every_user_with_authentication functions c function_name
            ≡ some true)
      → try_authorize services functions env stack c function_name none (some service) false n ≡ (
        err (
            backk (
              create_backk_error_from_error_code_message_and_status env stack
                user_not_authenticated)),
        n,
      )
  unfolding try_authorize is_open authorize_header
  try_authorize-unauthenticated service n h = ground (arith, with_authentication-eq-true services c)
