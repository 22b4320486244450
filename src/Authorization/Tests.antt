-- ===== src/Authorization/Tests.antt =====
-- Calls of `tryAuthorize` on a service class with one function for users with a role, one open to
-- everybody, and one for the tests.
use lrzwasnla.Common.{◌≡◌, refl, ◌≢◌, arith, inl, true, false, none, some, [], ◌∷◌, at, put, ◌===◌}
use lrzwasnla.Common.Exec.{ok, is_ok}
use lrzwasnla.Errors.{Environment}
use lrzwasnla.Annotations.Classes.{Class, nearest}
use lrzwasnla.Annotations.Service
use lrzwasnla.Annotations.Service.{
  is_service_allowed_for_every_user, is_service_allowed_for_every_user_with_authentication,
  is_service_allowed_for_cluster_internal_use,
}
use lrzwasnla.Annotations.ServiceFunction
use lrzwasnla.Annotations.ServiceFunction.{
  ServiceFunctionAnnotationContainer, add_allowed_user_roles,
  add_service_function_allowed_for_every_user, add_service_function_allowed_for_tests,
  is_service_function_allowed_for_every_user,
  is_service_function_allowed_for_every_user_with_authentication,
  is_service_function_allowed_for_cluster_internal_use,
  is_service_function_allowed_for_every_user_for_own_resources,
  is_service_function_allowed_for_tests,
}
use lrzwasnla.Authorization.{
  HeaderValue, one, AuthorizationService, nobody, is_open, is_for_identified, allowed_roles,
  identify, authorize_roles, authorize_header, try_authorize,
}
use lrzwasnla.Authorization.Grants.{Grants, in_role}
use lrzwasnla.Authorization.Laws.{try_authorize-Grants}
use lrzwasnla.Authorization.Complete.{Grants-try_authorize, Answers}

abbrev user_service : Class
user_service = record { name = "UserServiceImpl"; parents = "CrudEntityService" ∷ [] }

abbrev functions : ServiceFunctionAnnotationContainer (Unit {0})
functions =
    add_service_function_allowed_for_tests
      (add_service_function_allowed_for_every_user
        (add_allowed_user_roles ServiceFunction.empty user_service "getUser" ("admin" ∷ []))
        user_service "getNews" false)
      user_service "deleteAllUsers"

abbrev production : Environment
production name = some "production"

-- The service of a company whose only administrator is known by the token.
abbrev company : AuthorizationService
company = record {
  get_subject_and_issuer = λ h. ok (some "joe", some "company");
  has_user_role_in =
      λ roles h. ok (elim h [ one s ↦ s === "token of an administrator" | _ ↦ false ]);
}

abbrev administrator : HeaderValue
administrator = one "token of an administrator"

company-Answers : Answers company
company-Answers h = (refl, λ roles. refl)

header_is_there : some administrator ≢ none
header_is_there e = absurd (ground arith)

try_authorize-Grants_example :
    Grants Service.empty functions user_service "getUser" production
      (some administrator)
      (some company)
      false
      nobody
unfolding try_authorize is_open is_for_identified allowed_roles identify authorize_roles
    authorize_header is_service_allowed_for_every_user
    is_service_allowed_for_every_user_with_authentication is_service_function_allowed_for_every_user
    is_service_function_allowed_for_every_user_with_authentication
    is_service_function_allowed_for_every_user_for_own_resources nearest at put
    add_allowed_user_roles add_service_function_allowed_for_every_user
    add_service_function_allowed_for_tests
try_authorize-Grants_example =
    try_authorize-Grants Service.empty functions production none user_service "getUser"
      (some administrator) (some company) false 0 0 nobody refl

Grants-try_authorize_example :
    is_ok
      (try_authorize Service.empty functions production none user_service "getUser"
        (some administrator)
        (some company)
        false
        0).0
    ≡ true
unfolding add_allowed_user_roles add_service_function_allowed_for_every_user
    add_service_function_allowed_for_tests at put nearest Service.get_allowed_user_roles
    ServiceFunction.get_allowed_user_roles
Grants-try_authorize_example =
    Grants-try_authorize Service.empty functions production none user_service "getUser"
      (some administrator) company false 0 nobody company-Answers (inl header_is_there)
      (in_role refl refl refl)
