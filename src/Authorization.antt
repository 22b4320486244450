-- ===== src/Authorization.antt =====
-- authorization/tryAuthorize.ts
pub mod Grants
pub mod Laws
pub mod Complete
pub mod Tests
use lrzwasnla.Common.{
  ℕ, suc, String, Bool, true, false, not, ◌&&◌, ◌||◌, Option, none, some, List, ◌++◌, Text, codes,
  default_to, is_defined, ◌===◌, if◌then◌else◌,
}
use lrzwasnla.Common.Exec.{Result, ok, err, Exec, pure, throw, lift, modify, ◌>>=◌, ◌>>◌}
use lrzwasnla.Errors.{
  Failure, backk, plain, Environment, is_set_to,
  create_backk_error_from_error_code_message_and_status,
}
use lrzwasnla.Errors.Messages.{user_not_authenticated, service_function_call_not_authorized}
use lrzwasnla.Annotations.Classes.{Class}
use lrzwasnla.Annotations.Service
use lrzwasnla.Annotations.Service.{
  ServiceAnnotationContainer, is_service_allowed_for_every_user,
  is_service_allowed_for_every_user_with_authentication,
  is_service_allowed_for_cluster_internal_use,
}
use lrzwasnla.Annotations.ServiceFunction
use lrzwasnla.Annotations.ServiceFunction.{
  ServiceFunctionAnnotationContainer, is_service_function_allowed_for_every_user,
  is_service_function_allowed_for_every_user_with_authentication,
  is_service_function_allowed_for_cluster_internal_use,
  is_service_function_allowed_for_every_user_for_own_resources,
  is_service_function_allowed_for_tests,
}

-- The value of a request header.
pub data HeaderValue : Type 0 where
  one : String → HeaderValue
  many : List String → HeaderValue

-- authorization/AuthorizationService.ts: the two questions to an authorization service, each of
-- which may throw
pub record AuthorizationService : Type 0 where
  pub get_subject_and_issuer : HeaderValue → Result Failure (Option String × Option String)
  pub has_user_role_in : List String → HeaderValue → Result Failure Bool

-- `[subject, issuer]`
abbrev pub Identity : Type 0
Identity = Option String × Option String

abbrev pub is_truthy : Option String → Bool
is_truthy none = false
is_truthy (some s) = not (s === "")

-- The state is the count of authorization failures in the metrics.
abbrev pub Authorize : Type 0
Authorize = Exec Failure ℕ Identity

abbrev pub nobody : Identity
nobody = (none, none)

module _ {Any : Type 0} (services : ServiceAnnotationContainer)
    (functions : ServiceFunctionAnnotationContainer Any) (env : Environment) (stack : Option Text)
    (c : Class) (function_name : String) where
  -- the first test: open to everybody, with no authentication
  unfoldable pub is_open : Bool
  is_open =
      (is_service_allowed_for_every_user services c
        && not (is_service_allowed_for_every_user_with_authentication services c))
      || (is_service_function_allowed_for_every_user functions c function_name
          && not (
              default_to false (
                is_service_function_allowed_for_every_user_with_authentication functions c
                  function_name)))

  pub is_for_cluster : Bool
  is_for_cluster =
      is_service_allowed_for_cluster_internal_use services c
      || is_service_function_allowed_for_cluster_internal_use functions c function_name

  -- whether the identity behind the header is asked for
  pub is_for_identified : Bool
  is_for_identified =
      is_service_allowed_for_every_user services c
      || is_truthy
          (is_service_function_allowed_for_every_user_for_own_resources functions c function_name)
      || is_service_function_allowed_for_every_user functions c function_name

  pub allowed_roles : List String
  allowed_roles =
      Service.get_allowed_user_roles services c
      ++ ServiceFunction.get_allowed_user_roles functions c function_name

  -- The last resort, outside of production, and the denial.
  pub authorize_outside_production : Authorize
  authorize_outside_production =
      if not (is_set_to (env "NODE_ENV") "production")
        && (is_service_function_allowed_for_tests functions c function_name || is_for_cluster)
      then pure nobody
      else modify suc
        >> throw (
            backk (
              create_backk_error_from_error_code_message_and_status env stack
                service_function_call_not_authorized))

  -- The identity behind a header, if both of its parts are there.
  pub identify : AuthorizationService → HeaderValue → Result Failure (Option Identity)
  identify service header =
      if is_for_identified
      then (elim (service.get_subject_and_issuer header) [
        | ok who ↦ ok (if is_truthy who.0 && is_truthy who.1 then some who else none)
        | err e ↦ err e
      ])
      else ok none

  pub authorize_roles : AuthorizationService → HeaderValue → Option Identity → Authorize
  authorize_roles service header (some who) = pure who
  authorize_roles service header none = do
    has_role ← lift (service.has_user_role_in allowed_roles header)
    if has_role then pure nobody else authorize_outside_production

  pub authorize_header : AuthorizationService → Option HeaderValue → Bool → Authorize
  authorize_header service none true =
      if is_for_cluster then pure nobody else authorize_outside_production
  authorize_header service none false = throw (
      backk
        (create_backk_error_from_error_code_message_and_status env stack user_not_authenticated))
  authorize_header service (some header) is_cluster_internal_call = do
    who ← lift (identify service header)
    authorize_roles service header who

  unfoldable pub try_authorize : Option HeaderValue → Option AuthorizationService → Bool → Authorize
  try_authorize auth_header none is_cluster_internal_call =
      if is_open
      then pure nobody
      else throw (
          plain (record {
            message =
                codes
                  "Authorization service missing. You must define an authorization service which is an instance of AuthorizationService in your MicroserviceImpl class";
            stack = stack;
          }))
  try_authorize auth_header (some service) is_cluster_internal_call =
      if is_open then pure nobody else authorize_header service auth_header is_cluster_internal_call
