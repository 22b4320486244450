-- ===== src/Execution/Admission.antt =====
-- execution/tryExecuteServiceMethod.ts, lines 290 to 379: what a call passes before its service
-- function is looked at: the function exists, the argument is an object, the captcha is right, the
-- caller is authorized, and the argument is valid.
use lrzwasnla.Common.{
  ℕ, String, Bool, false, not, ◌&&◌, ◌||◌, Option, none, some, ◌++◌, codes, at, is_defined,
  if◌then◌else◌, ◌===◌, pos,
}
use lrzwasnla.Common.Exec.{Result, ok, err, pure, lift, ◌>>=◌, ◌>>◌}
use lrzwasnla.Errors.{Failure, plain, is_set_to, create_error_message_with_status_code}
use lrzwasnla.Errors.Messages.{
  invalid_argument, unknown_service, unknown_service_function, missing_service_function_argument,
}
use lrzwasnla.Annotations.ServiceFunction.{
  is_service_function_allowed_for_every_user_despite_of_user_id_in_arg,
}
use lrzwasnla.Annotations.Classes.{Class}
use lrzwasnla.Authorization.{AuthorizationService, Identity, try_authorize}
use lrzwasnla.Execution.{Request, Service, Step, Microservice}
use lrzwasnla.Execution.Values.{Json, is_true, is_null, is_array, is_object, get}
use lrzwasnla.Execution.Names.{has_function}
use lrzwasnla.Execution.Steps.{
  on_outside, full_name, with_message, refuse, complain, get_microservice_service_by_service_class,
}
use lrzwasnla.Execution.Requests.{requested, requested_class}

abbrev pub is_authorization_service : Service → Bool
is_authorization_service service = is_defined service.authorization_service

module _ {W : Type 0} (m : Microservice W) (r : Request) where
  -- lines 290 to 305
  unfoldable pub find_service : Step W Service
  unfolding has_function
  find_service s = elim (at m.services s.service_name) [
    | none ↦ refuse m (with_message unknown_service (codes s.service_name)) s
    | some service ↦
        if has_function service (requested m r).1
        then pure service s
        else refuse m (with_message unknown_service_function (codes s.service_function_name)) s
  ]

  -- the name of the type of the argument, where the function has one that is not empty
  abbrev pub argument_type_name : Service → Option String
  argument_type_name service =
      elim (at service.function_name_to_param_type_name_map (requested m r).1) [
        | none ↦ none
        | some name ↦ if name === "" then none else some name
      ]

  -- lines 310 to 319
  unfoldable pub check_argument_is_object : Service → Step W (Unit {0})
  check_argument_is_object service s =
      if not (is_object s.service_function_argument)
        || is_array s.service_function_argument
        || (is_defined (argument_type_name service) && is_null s.service_function_argument)
      then refuse m (with_message invalid_argument (codes "argument must be a JSON object")) s
      else pure tt s

  -- captcha/tryVerifyCaptchaToken.ts
  unfoldable pub try_verify_captcha_token : Json → Step W (Unit {0})
  try_verify_captcha_token token = elim m.verify_captcha [
    | none ↦ complain m (
        codes
          "Captcha verification service is missing. You must implement a captcha verification service class that extends CaptchaVerificationService and instantiate your class and store in a field in MicroserviceImpl class")
    | some verify ↦ on_outside (verify token) >>= λ is_captcha_verified.
        if is_captcha_verified
        then pure tt
        else complain m
            (create_error_message_with_status_code (codes "Invalid captcha token") (pos 400))
  ]

  -- lines 321 to 323
  unfoldable pub check_captcha : Step W (Unit {0})
  unfolding try_verify_captcha_token
  check_captcha s =
      if is_true (get s.service_function_argument "captchaToken")
      then try_verify_captcha_token (get s.service_function_argument "captchaToken") s
      else pure tt s

  abbrev pub authorization_service_of : Option Service → Option AuthorizationService
  authorization_service_of none = none
  authorization_service_of (some service) = service.authorization_service

  -- `[subject, issuer] = ...`
  abbrev pub keep_identity : Result Failure Identity × ℕ → Step W (Unit {0})
  keep_identity (ok who, n) s =
      (ok tt, record s { subject = who.0; issuer = who.1; authorization_failures = n })
  keep_identity (err e, n) s = (err e, record s { authorization_failures = n })

  -- the call of tryAuthorize
  unfoldable pub ask_authorization : Service → Option Service → Step W (Unit {0})
  ask_authorization service authorization_service s =
      keep_identity
        (try_authorize m.service_annotations m.function_annotations m.process_env m.stack
          service.service_class (requested m r).1 (at r.headers "authorization")
          (authorization_service_of authorization_service) r.is_cluster_internal_call
          s.authorization_failures)
        s

  -- lines 325 to 339; the answer is the user account service
  unfoldable pub authorize : Service → Bool → Step W (Option Service)
  unfolding ask_authorization
  authorize service should_authorize = do
    user_service ← lift (
        get_microservice_service_by_service_class m "UserBaseService" (λ s. s.is_user_base_service))
    authorization_service ← lift (
        get_microservice_service_by_service_class m "AuthorizationService"
          (λ s. is_defined s.authorization_service))
    if should_authorize then ask_authorization service authorization_service else pure tt
    pure user_service

  -- A getter of the annotation containers, which makes an instance of the class.
  abbrev pub of_class : {A : Type 0} → (Class → A) → Result Failure A
  of_class getter = elim (requested_class m r) [
    | none ↦ err (plain (m.type_error "constructor"))
    | some c ↦ ok (getter c)
  ]

  unfoldable pub has_owner_in_argument : Service → Json → Bool
  has_owner_in_argument service argument =
      is_true (get argument "userId")
      || is_true (get argument "userAccountId")
      || is_true (get argument "tenantId")
      || (is_true (get argument "subject") && service.is_user_base_service)

  -- lines 343 to 360
  unfoldable pub check_owner_in_argument : Service → Step W (Unit {0})
  unfolding has_owner_in_argument
  check_owner_in_argument service s =
      if has_owner_in_argument service s.service_function_argument
        && is_set_to (m.process_env "NODE_ENV") "development"
      then (do
        is_allowed ← lift (
            of_class (λ c.
              is_service_function_allowed_for_every_user_despite_of_user_id_in_arg
                m.function_annotations c (requested m r).1))
        elim is_allowed [
          | some false ↦ complain m (
              codes (full_name s.service_name (requested m r).1)
              ++ codes
                  ": argument contains 'tenantId', subject', 'userId' or 'userAccountId' and @AllowForEveryUser() annotation. Do you mean to use @AllowForEveryUserForOwnResources() annotation instead? If not, you must annotate this function with AllowForEveryUser decorator including a true flag: @AllowForEveryUser(true)")
          | _ ↦ pure tt
        ])
          s
      else pure tt s

  -- lines 362 to 379; the answer is the instantiated argument, `undefined` where there is no type
  unfoldable pub validate_argument : Service → Step W Json
  validate_argument service s = elim (argument_type_name service) [
    | none ↦ pure Json.undefined s
    | some name ↦
        (let value = m.plain_to_class name s.service_function_argument in
          if is_true value
          then (on_outside (
                  m.try_validate_service_function_argument service.service_class (requested m r).1
                    value)
                >> pure value)
              s
          else refuse m missing_service_function_argument s)
  ]
