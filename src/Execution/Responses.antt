-- ===== src/Execution/Responses.antt =====
-- execution/tryExecuteServiceMethod.ts: the cache of responses (lines 381 to 439 and 698 to 757),
-- and what becomes of a response that a service function gave (lines 637 to 769).
use lrzwasnla.Common.{
  String, Bool, true, false, not, ◌&&◌, ◌||◌, Option, none, some, Text, codes, ℤ, pos, negsuc, at,
  is_defined, default_to, ◌===◌, if◌then◌else◌,
}
use lrzwasnla.Common.Exec.{ok, err, pure, throw, lift, modify, ◌>>=◌, ◌>>◌}
use lrzwasnla.Errors.{plain, BackkError, is_set_to}
use lrzwasnla.Authorization.{one}
use lrzwasnla.Execution.{
  Request, set_header, write_head, ResponseCacheConfigService, Service, Call, Step, Microservice,
}
use lrzwasnla.TypeNames.{TypeInfo, get_type_info_for_type_name}
use lrzwasnla.Execution.Values.{
  Json, null, text, array, is_true, is_null, is_undefined, is_object, first, get,
}
use lrzwasnla.Execution.Names.{is_text}
use lrzwasnla.Execution.Steps.{
  on_outside, on_resp, complain, get_microservice_service_by_service_class,
}
use lrzwasnla.Execution.Requests.{requested}
use lrzwasnla.Execution.Functions.{throw_counted}

abbrev pub is_negative : ℤ → Bool
is_negative (pos n) = false
is_negative (negsuc n) = true

module _ {W : Type 0} (m : Microservice W) (r : Request) where
  -- whether this call's response is one to cache, as the configuration service says it
  abbrev wanted : Option Service → Call W → Option ResponseCacheConfigService
  wanted none s = none
  wanted (some service) s = elim service.response_cache_config_service [
    | none ↦ none
    | some config ↦
        if config.should_cache_service_function_call_response s.service_function_name
          s.service_function_argument
        then some config
        else none
  ]

  unfoldable pub cache_config : Step W (Option ResponseCacheConfigService)
  cache_config =
      if r.http_method === "GET"
      then (do
        service ← lift (
            get_microservice_service_by_service_class m "ResponseCacheConfigService"
              (λ s. is_defined s.response_cache_config_service))
        λ s. pure (wanted service s) s)
      else pure none

  abbrev is_set : String → Bool
  is_set name = is_defined (m.process_env name)

  -- lines 397 to 409
  unfoldable pub check_redis_settings : Step W (Unit {0})
  check_redis_settings =
      if not (is_set "REDIS_CACHE_HOST")
      then complain m (codes "REDIS_CACHE_HOST environment variable must be defined")
      else if not (is_set "REDIS_CACHE_PORT")
      then complain m (codes "REDIS_CACHE_PORT environment variable must be defined")
      else if not (is_text (m.process_env "REDIS_CACHE_PASSWORD"))
          && is_set_to (m.process_env "NODE_ENV") "production"
      then complain m (codes "REDIS_CACHE_PASSWORD environment variable is not defined")
      else pure tt

  -- the text found under the key, `none` after an error, which is only logged
  unfoldable pub read_cached_text : Step W (Option String)
  read_cached_text s =
      let c = on_outside (m.redis_get s.service_function_name s.service_function_argument) s in
      (ok (elim c.0 [ ok found ↦ found | err f ↦ none ]), c.1)

  -- lines 381 to 439
  unfoldable pub read_cached_response : Step W (Unit {0})
  unfolding cache_config check_redis_settings read_cached_text
  read_cached_response = do
    config ← cache_config
    elim config [
      | none ↦ pure tt
      | some _ ↦ (do
        check_redis_settings
        cached ← read_cached_text
        elim cached [
          | none ↦ pure tt
          | some json ↦ if json === "" then pure tt else (elim (m.parse_json json) [
            | none ↦ pure tt
            | some value ↦ modify (λ s. record s { response = value })
          ])
        ])
    ]

  -- lines 733 to 756; the answer is `ttl`
  unfoldable pub store_response : ResponseCacheConfigService → Step W (Option ℤ)
  store_response config s =
      let name = s.service_function_name in
      let argument = s.service_function_argument in
      let c = on_outside (m.redis_ttl name argument) s in
      elim c.0 [
        | err _ ↦ (ok none, c.1)
        | ok ttl ↦
            (let d = on_outside (m.redis_set name argument s.response) c.1 in
              elim d.0 [
                | err _ ↦ (ok (some ttl), d.1)
                | ok _ ↦
                    if is_negative ttl
                    then (let duration = config.get_caching_duration_in_secs name argument in
                        (
                          ok (some duration),
                          (on_outside (m.redis_expire name argument duration) d.1).1,
                        ))
                    else (ok (some ttl), d.1)
              ])
      ]

  -- lines 698 to 757
  unfoldable pub cache_response : Step W (Option ℤ)
  unfolding cache_config check_redis_settings store_response
  cache_response = do
    config ← cache_config
    elim config [ none ↦ pure none | some config ↦ check_redis_settings >> store_response config ]

  unfoldable pub validate_value : Text → Option Json → Step W (Unit {0})
  validate_value type_name none s = pure tt s
  validate_value type_name (some value) s =
      on_outside
        (m.try_validate_service_function_return_value value type_name s.service_function_name) s

  -- lines 666 to 696
  unfoldable pub validate_response : TypeInfo → Step W (Unit {0})
  unfolding validate_value
  validate_response info s =
      let content = get s.response "data" in
      let type_name = info.base_type_name in
      if first_is_object s.response
      then validate_value type_name (first s.response) s
      else if not (is_object s.response)
      then pure tt s
      else if info.is_many_of
      then if is_undefined content || is_null content
        then throw (plain (m.type_error "length")) s
        else validate_value type_name (first content) s
      else if info.is_one_of
      then validate_value type_name (if is_undefined content then none else some content) s
      else validate_value type_name (some s.response) s
    where
      -- `Array.isArray(response) && response.length > 0 && typeof response[0] === 'object'`
      first_is_object : Json → Bool
      first_is_object (array items) = elim (first (array items)) [
        | none ↦ false
        | some value ↦ is_object value
      ]
      first_is_object _ = false

  -- `headers['If-None-Match']` is the version
  unfoldable pub is_match : Json → Bool
  is_match (text version) = elim (at r.headers "If-None-Match") [
    | some (one tag) ↦ version === tag
    | _ ↦ false
  ]
  is_match _ = false

  -- lines 759 to 768
  unfoldable pub tag_response : Step W (Unit {0})
  unfolding is_match
  tag_response s =
      let version = get (get s.response "data") "version" in
      let tagged = if r.can_set_header then on_resp (set_header "ETag" version) s else s in
      if not (is_true version)
      then pure tt s
      else if is_match version
      then pure tt (on_resp (write_head (pos 304) none) (record tagged { response = null }))
      else pure tt tagged

  -- lines 638 to 644: `getTypeInfoForTypeName` of the return type
  unfoldable pub response_type : Service → Step W TypeInfo
  response_type service = lift (
      get_type_info_for_type_name m.stack (
        codes (
          default_to "undefined"
            (at service.function_name_to_return_type_name_map (requested m r).1))))

  -- lines 646 to 654
  unfoldable pub fetch_response : TypeInfo → Json → Step W (Option BackkError)
  fetch_response info argument = do
    fetched ←
        λ s. on_outside (m.fetch_from_remote_services info.base_type_name argument s.response) s
    modify (λ s. record s { response = fetched.1 })
    pure fetched.0

  -- lines 638 to 768; the answer is `ttl`
  unfoldable pub finish_found : Service → Json → Step W (Option ℤ)
  unfolding validate_response cache_response tag_response throw_counted response_type fetch_response
  finish_found service argument = do
    info ← response_type service
    error ← fetch_response info argument
    throw_counted m r error
    validate_response info
    ttl ← cache_response
    tag_response
    pure ttl

  -- lines 637 to 769
  unfoldable pub finish_response : Service → Json → Step W (Option ℤ)
  unfolding finish_found
  finish_response service argument s =
      if is_true s.response then finish_found service argument s else pure none s
