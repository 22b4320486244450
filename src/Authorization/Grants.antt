-- ===== src/Authorization/Grants.antt =====
-- The reasons for which a call may be let through, in terms of what the decorators registered and
-- of what the authorization service answers.
use lrzwasnla.Common.{String, ◌≡◌, ◌⊎◌, Bool, true, false, Option, none, some, ◌++◌, default_to}
use lrzwasnla.Common.Exec.{ok}
use lrzwasnla.Errors.{Environment, is_set_to}
use lrzwasnla.Annotations.Classes.{Class}
use lrzwasnla.Annotations.Service
use lrzwasnla.Annotations.Service.{
  ServiceAnnotationContainer, is_service_allowed_for_every_user,
  is_service_allowed_for_cluster_internal_use,
}
use lrzwasnla.Annotations.ServiceFunction
use lrzwasnla.Annotations.ServiceFunction.{
  ServiceFunctionAnnotationContainer, is_service_function_allowed_for_every_user,
  is_service_function_allowed_for_every_user_with_authentication,
  is_service_function_allowed_for_cluster_internal_use,
  is_service_function_allowed_for_every_user_for_own_resources,
  is_service_function_allowed_for_tests,
}
use lrzwasnla.Authorization.{HeaderValue, AuthorizationService, Identity, nobody, is_truthy}

module _ {Any : Type 0} (services : ServiceAnnotationContainer)
    (functions : ServiceFunctionAnnotationContainer Any) (c : Class) (function_name : String) where
  -- The class or the function is for use inside the cluster.
  abbrev pub ForCluster : Type 0
  ForCluster =
      (is_service_allowed_for_cluster_internal_use services c ≡ true)
      ⊎ (is_service_function_allowed_for_cluster_internal_use functions c function_name ≡ true)

  -- The identity of the caller is enough.
  abbrev pub ForIdentified : Type 0
  ForIdentified =
      (is_service_allowed_for_every_user services c ≡ true)
      ⊎ ((is_truthy (
              is_service_function_allowed_for_every_user_for_own_resources functions c
                function_name)
            ≡ true)
          ⊎ (is_service_function_allowed_for_every_user functions c function_name ≡ true))

  pub data Grants (env : Environment) (header : Option HeaderValue)
      (service : Option AuthorizationService) (is_cluster_internal_call : Bool)
      : Identity → Type 0 where
    -- The function is open to everybody and asks for no authentication.
    everybody :
        is_service_function_allowed_for_every_user functions c function_name ≡ true
        → default_to false (
            is_service_function_allowed_for_every_user_with_authentication functions c
              function_name)
          ≡ false
        → Grants env header service is_cluster_internal_call nobody
    -- A call from inside of the cluster that carries no header.
    from_cluster :
        header ≡ none
        → is_cluster_internal_call ≡ true
        → ForCluster
        → Grants env header service is_cluster_internal_call nobody
    -- The authorization service names the caller and the issuer.
    identified :
        {s : AuthorizationService} {h : HeaderValue} (who : Identity)
        → service ≡ some s
        → header ≡ some h
        → ForIdentified
        → s.get_subject_and_issuer h ≡ ok who
        → is_truthy who.0 ≡ true
        → is_truthy who.1 ≡ true
        → Grants env header service is_cluster_internal_call who
    -- The caller has a role that the class or the function lists.
    in_role :
        {s : AuthorizationService} {h : HeaderValue}
        → service ≡ some s
        → header ≡ some h
        → s.has_user_role_in
            (Service.get_allowed_user_roles services c
              ++ ServiceFunction.get_allowed_user_roles functions c function_name)
            h
          ≡ ok true
        → Grants env header service is_cluster_internal_call nobody
    -- Outside of production only: the function is for tests, or for the cluster.
    outside_production :
        is_set_to (env "NODE_ENV") "production" ≡ false
        → ((is_service_function_allowed_for_tests functions c function_name ≡ true) ⊎ ForCluster)
        → Grants env header service is_cluster_internal_call nobody
