-- ===== src/Execution/Accounts.antt =====
-- execution/tryExecuteServiceMethod.ts, lines 460 to 558: the identifier of the user account or of
-- the tenant on whose resources a service function may act, with the two caches of identifiers.
use lrzwasnla.Common.{String, ◌||◌, Option, none, some, codes, default_to, ◌===◌, if◌then◌else◌}
use lrzwasnla.Common.Exec.{Result, ok, err, Exec, pure, throw, lift, modify, ◌>>=◌, ◌>>◌}
use lrzwasnla.Errors.{Failure, backk, plain}
use lrzwasnla.Errors.Messages.{service_function_call_not_authorized}
use lrzwasnla.Annotations.ServiceFunction.{
  is_service_function_allowed_for_every_user_for_own_resources,
}
use lrzwasnla.Transactions.{Session, ErrorOr}
use lrzwasnla.Execution.{Request, Service, Call, Step, MemoryCache, Microservice}
use lrzwasnla.Execution.Values.{Json, undefined, null, text, is_true, is_null, is_undefined, get}
use lrzwasnla.Execution.Names.{is_text}
use lrzwasnla.Execution.Steps.{
  on_session_and_outside, refuse, complain, get_microservice_service_by_service_class,
}
use lrzwasnla.Execution.Requests.{requested}
use lrzwasnla.Execution.Admission.{of_class}

module _ {W : Type 0} where
  abbrev pub store : MemoryCache W → String → Json → Call W → Call W
  store cache key id s = record s { outside = cache.store_expiring_item key id s.outside }

  abbrev pub forget : MemoryCache W → String → Call W → Call W
  forget cache key s = record s { outside = cache.remove_item key s.outside }

-- `id ?? holder`
abbrev pub id_or : Json → String → Json
id_or undefined holder = text holder
id_or null holder = text holder
id_or id holder = id

module _ {W : Type 0} (m : Microservice W) (r : Request) where
  -- lines 468 to 498: the service is that of the accounts, or of the tenants, itself
  unfoldable pub resolve_own_id : MemoryCache W → Option String → Step W Json
  resolve_own_id cache holder s =
      let argument = s.service_function_argument in
      let id = get argument "_id" in
      if is_null argument then throw (plain (m.type_error "_id")) s else (elim holder [
        | none ↦ refuse m service_function_call_not_authorized s
        | some key ↦
            if key === ""
            then refuse m service_function_call_not_authorized s
            else if is_true id
            then pure id (store cache key id s)
            else pure (id_or id key) (forget cache key s)
      ])

  -- `throwIf(error); idEntity.data._id`
  unfoldable pub id_of_entity : ErrorOr Json → Result Failure Json
  id_of_entity (entity, some error) = err (backk error)
  id_of_entity (none, none) = err (plain (m.type_error "data"))
  id_of_entity (some entity, none) =
      if is_undefined (get entity "data") || is_null (get entity "data")
      then err (plain (m.type_error "_id"))
      else ok (get (get entity "data") "_id")

  -- The identifier that a service knows for a subject or an issuer, kept in the cache.
  unfoldable pub ask_for_id :
      MemoryCache W → String → (String → Exec Failure (Session × W) (ErrorOr Json)) → Step W Json
  unfolding id_of_entity
  ask_for_id cache key ask = do
    entity ← on_session_and_outside (ask key)
    id ← lift (id_of_entity entity)
    modify (λ s. store cache key id s)
    modify (λ s. record s { session = record s.session { db_local_transaction_count = 0 } })
    pure id

  -- lines 505 to 522
  unfoldable pub resolve_id_of_subject : Option Service → String → Step W Json
  unfolding ask_for_id
  resolve_id_of_subject user_service subject s =
      elim (m.subject_to_user_account_id_cache.retrieve_item_value subject s.outside) [
        | some id ↦ pure id s
        | none ↦ elim user_service [
          | none ↦
              complain m
                (codes
                  "User account service is missing. You must implement a user account service class that extends UserBaseService class and instantiate your class and store in a field in MicroserviceImpl class")
                s
          | some _ ↦ ask_for_id m.subject_to_user_account_id_cache subject m.get_id_by_subject s
        ]
      ]

  -- lines 528 to 546
  unfoldable pub resolve_id_of_issuer : String → Step W Json
  unfolding ask_for_id
  resolve_id_of_issuer issuer s =
      elim (m.issuer_to_tenant_id_cache.retrieve_item_value issuer s.outside) [
        | some id ↦ pure id s
        | none ↦
            (do
              tenant_service ← lift (
                  get_microservice_service_by_service_class m "TenantBaseService"
                    (λ s. s.is_tenant_base_service))
              elim tenant_service [
                | none ↦ complain m (
                    codes
                      "Tenant service is missing. You must implement a tenant service class that extends TenantBaseService and instantiate your class and store in a field in MicroserviceImpl class")
                | some _ ↦ ask_for_id m.issuer_to_tenant_id_cache issuer m.get_id_by_issuer
              ])
              s
      ]

  -- lines 466 to 547
  unfoldable pub resolve_user_account_or_tenant_id : Service → Option Service → Step W Json
  unfolding resolve_own_id resolve_id_of_subject resolve_id_of_issuer
  resolve_user_account_or_tenant_id service user_service s =
      if service.is_user_base_service
      then resolve_own_id m.subject_to_user_account_id_cache s.subject s
      else if service.is_tenant_base_service
      then resolve_own_id m.issuer_to_tenant_id_cache s.issuer s
      else if is_undefined (get s.service_function_argument "tenantId")
      then if is_text s.subject
        then resolve_id_of_subject user_service (default_to "" s.subject) s
        else pure undefined s
      else if is_text s.issuer
      then resolve_id_of_issuer (default_to "" s.issuer) s
      else pure undefined s

  -- `id.toString()`
  unfoldable pub id_text : Json → Result Failure String
  id_text undefined = err (plain (m.type_error "toString"))
  id_text null = err (plain (m.type_error "toString"))
  id_text (text id) = ok id
  id_text id = ok (m.to_string id)

  -- lines 466 to 557
  unfoldable pub keep_user_account_id : Service → Option Service → Option String → Step W (Unit {0})
  unfolding resolve_user_account_or_tenant_id id_text
  keep_user_account_id service user_service field_name = do
    id ← resolve_user_account_or_tenant_id service user_service
    modify
        (λ s. record s { session = record s.session { user_account_id_field_name = field_name } })
    user_account_id ← lift (id_text id)
    modify (λ s. record s { session = record s.session { user_account_id = some user_account_id } })

  -- isServiceFunctionAllowedForEveryUserForOwnResources(ServiceClass, functionName)
  unfoldable pub field_name_of_own_resources : Step W (Option String)
  field_name_of_own_resources = lift (
      of_class m r (λ c.
        is_service_function_allowed_for_every_user_for_own_resources m.function_annotations c
          (requested m r).1))

  -- lines 460 to 558
  unfoldable pub set_user_account_id : Service → Option Service → Step W (Unit {0})
  unfolding keep_user_account_id field_name_of_own_resources
  set_user_account_id service user_service = do
    field_name ← field_name_of_own_resources
    if is_text field_name then keep_user_account_id service user_service field_name else pure tt
