-- ===== src/Authorization/Laws.antt =====
-- What a granted, and what a refused, authorization means.
use lrzwasnla.Common.{
  ℕ, String, ◌≡◌, refl, Bool, true, false, inl, inr, Option, none, some, Text, arith, Bool-cases,
}
use lrzwasnla.Common.Exec.{Result-cases, ok}
use lrzwasnla.Errors.{Environment}
use lrzwasnla.Annotations.Classes.{Class}
use lrzwasnla.Annotations.Service.{ServiceAnnotationContainer}
use lrzwasnla.Annotations.Service.Laws.{with_authentication-eq-true}
use lrzwasnla.Annotations.ServiceFunction.{ServiceFunctionAnnotationContainer}
use lrzwasnla.Authorization.{
  HeaderValue, AuthorizationService, Identity, nobody, is_open, is_for_cluster, is_for_identified,
  allowed_roles, authorize_outside_production, identify, authorize_roles, authorize_header,
  try_authorize,
}
use lrzwasnla.Authorization.Grants.{
  Grants, everybody, from_cluster, identified, in_role, outside_production,
}

module _ {Any : Type 0} (services : ServiceAnnotationContainer)
    (functions : ServiceFunctionAnnotationContainer Any) (env : Environment) (stack : Option Text)
    (c : Class) (function_name : String) where
  is_open-Grants :
      (header : Option HeaderValue) (service : Option AuthorizationService) (cluster : Bool)
      (who : Identity)
      → is_open services functions env stack c function_name ≡ true
      → who ≡ nobody
      → Grants services functions c function_name env header service cluster who
  unfolding is_open
  is_open-Grants header service cluster who h e = rw e (
      everybody (ground (arith, with_authentication-eq-true services c))
        (ground (arith, with_authentication-eq-true services c)))

  outside_production-Grants :
      (header : Option HeaderValue) (service : Option AuthorizationService) (cluster : Bool)
      (n n' : ℕ) (who : Identity)
      → authorize_outside_production services functions env stack c function_name n ≡ (ok who, n')
      → Grants services functions c function_name env header service cluster who
  unfolding authorize_outside_production is_for_cluster
  outside_production-Grants header service cluster n n' who h =
      let e : who ≡ nobody = ground arith in rw e (outside_production (ground arith) (ground arith))

  roles-Grants :
      (service : AuthorizationService) (header : HeaderValue) (cluster : Bool) (n n' : ℕ)
      (who : Identity)
      → authorize_roles services functions env stack c function_name service header none n
        ≡ (ok who, n')
      → Grants services functions c function_name env (some header) (some service) cluster who
  unfolding authorize_roles allowed_roles
  roles-Grants service header cluster n n' who h =
      elim (Result-cases (
        service.has_user_role_in (allowed_roles services functions env stack c function_name)
          header)) [
            | inl (true, e) ↦
                let same : who ≡ nobody = ground arith in rw same (in_role refl refl e)
            | inl (false, e) ↦
                outside_production-Grants (some header) (some service) cluster n n' who
                  (ground arith)
            | inr (f, e) ↦ absurd (ground arith)
          ]

  identify-Grants :
      (service : AuthorizationService) (header : HeaderValue) (cluster : Bool) (who : Identity)
      → identify services functions env stack c function_name service header ≡ ok (some who)
      → Grants services functions c function_name env (some header) (some service) cluster who
  unfolding identify is_for_identified
  identify-Grants service header cluster who h =
      identified who refl refl (ground arith) (ground arith) (ground arith) (ground arith)

  header-Grants :
      (service : AuthorizationService) (header : Option HeaderValue) (cluster : Bool) (n n' : ℕ)
      (who : Identity)
      → authorize_header services functions env stack c function_name service header cluster n
        ≡ (ok who, n')
      → Grants services functions c function_name env header (some service) cluster who
  unfolding authorize_header is_for_cluster
  header-Grants service none false n n' who h = absurd (ground arith)
  header-Grants service none true n n' who h =
      elim (Bool-cases (is_for_cluster services functions env stack c function_name)) [
        | inl e ↦
            let same : who ≡ nobody = ground arith in
            rw same (from_cluster refl refl (ground arith))
        | inr e ↦ outside_production-Grants none (some service) true n n' who (ground arith)
      ]
  header-Grants service (some header) cluster n n' who h =
      elim (Result-cases (identify services functions env stack c function_name service header)) [
        | inl (none, e) ↦ roles-Grants service header cluster n n' who (ground arith)
        | inl (some found, e) ↦
            unfold authorize_roles in
            (let same : found ≡ who = ground arith in
              identify-Grants service header cluster who (rw same at e))
        | inr (f, e) ↦ absurd (ground arith)
      ]

  -- A call that is let through has one of the reasons, and the identity that goes with it.
  pub try_authorize-Grants :
      (header : Option HeaderValue) (service : Option AuthorizationService) (cluster : Bool)
      (n n' : ℕ) (who : Identity)
      → try_authorize services functions env stack c function_name header service cluster n
        ≡ (ok who, n')
      → Grants services functions c function_name env header service cluster who
  unfolding try_authorize
  try_authorize-Grants header none cluster n n' who h =
      is_open-Grants header none cluster who (ground arith) (ground arith)
  try_authorize-Grants header (some service) cluster n n' who h =
      elim (Bool-cases (is_open services functions env stack c function_name)) [
        | inl e ↦ is_open-Grants header (some service) cluster who e (ground arith)
        | inr e ↦ header-Grants service header cluster n n' who (ground arith)
      ]
