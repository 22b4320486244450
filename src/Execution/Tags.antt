-- ===== src/Execution/Tags.antt =====
-- The answer to a request whose `If-None-Match` is the version of the entity that it gets.
use lrzwasnla.Common.{
  ◌≡◌, refl, ◌∙◌, ap, ℕ, suc, ◌+◌, true, Option, none, some, List, [], ◌∷◌, ◌++◌, String, ℤ, pos,
  default_to, if◌then◌else◌, arith,
}
use lrzwasnla.Common.Exec.{ok, ◌>>◌}
use lrzwasnla.Execution.Steps.{on_resp}
use lrzwasnla.Annotations.ServiceFunction
use lrzwasnla.Annotations.ServiceFunction.{get_response_status_code_for_service_function}
use lrzwasnla.Execution.{
  Call, Reply, set_header, write_head, end, Body, content, Service, Microservice, Request,
}
use lrzwasnla.Execution.Values.{Json, is_true, get}
use lrzwasnla.Execution.Responses.{tag_response, is_match}
use lrzwasnla.Execution.Answers.{
  write_answer, with_cache_control, with_response_headers, with_header, with_generated,
  response_headers, is_subscribed,
}
use lrzwasnla.Execution.Requests.{requested}

-- how often `writeHead` is called
abbrev pub heads : List Reply → ℕ
heads [] = 0
heads (write_head status_code content_type ∷ rest) = suc (heads rest)
heads (_ ∷ rest) = heads rest

heads-++ : (xs ys : List Reply) → heads (xs ++ ys) ≡ heads xs + heads ys
heads-++ [] ys = ground arith
heads-++ (set_header n v ∷ xs) ys = heads-++ xs ys
heads-++ (write_head n v ∷ xs) ys = ground (arith, heads-++ xs ys)
heads-++ (end b ∷ xs) ys = heads-++ xs ys

heads-two :
    (replies : List Reply) (status_code : ℤ) (content_type : Option String) (body : Body)
    → heads ((replies ++ write_head status_code content_type ∷ []) ++ end body ∷ [])
      ≡ suc (heads replies)
heads-two replies status_code content_type body =
    let head = write_head status_code content_type in
    ground (arith, heads-++ (replies ++ head ∷ []) (end body ∷ []), heads-++ replies (head ∷ []))

module _ {W : Type 0} (m : Microservice W) (r : Request) where
  heads-with_header :
      (name : String) (value : Json) (s : Call W)
      → heads (with_header m r name value s).replies ≡ heads s.replies
  heads-with_header name value s = ground (arith, heads-++ s.replies (set_header name value ∷ []))

  heads-with_generated :
      (name : String) (o : Option String) (s : Call W)
      → heads (with_generated m r name o s).replies ≡ heads s.replies
  unfolding with_generated
  heads-with_generated name none s = refl
  heads-with_generated name (some value) s = heads-with_header name (Json.text value) s

  heads-with_response_headers :
      (headers : ServiceFunction.HttpHeaders Json) (s : Call W)
      → heads (with_response_headers m r headers s).replies ≡ heads s.replies
  unfolding with_response_headers
  heads-with_response_headers [] s = refl
  heads-with_response_headers ((name, ServiceFunction.text value) ∷ rest) s =
      heads-with_response_headers rest (with_header m r name (Json.text value) s)
      ∙ heads-with_header name (Json.text value) s
  heads-with_response_headers ((name, ServiceFunction.generator generate) ∷ rest) s =
      let o = generate s.service_function_argument s.response in
      heads-with_response_headers rest (with_generated m r name o s) ∙ heads-with_generated name o s
  heads-with_response_headers ((name, ServiceFunction.absent) ∷ rest) s =
      heads-with_response_headers rest s

  heads-with_cache_control :
      (ttl : Option ℤ) (s : Call W) → heads (with_cache_control m r ttl s).replies ≡ heads s.replies
  unfolding with_cache_control
  heads-with_cache_control ttl s = heads-with_header _ _ s

  heads-write_answer :
      (service : Service) (ttl : Option ℤ) (s : Call W)
      → heads (write_answer m r service ttl s).1.replies ≡ suc (heads s.replies)
  unfolding write_answer
  heads-write_answer service ttl s =
      let t =
        with_response_headers m r (response_headers m r service) (with_cache_control m r ttl s) in
      heads-two t.replies
        (pos (
          default_to 200 (
            get_response_status_code_for_service_function m.function_annotations
              service.service_class (requested m r).1)))
        (some (if is_subscribed m r then "text/event-stream" else "application/json"))
        (content t.response)
      ∙ ap suc (
          heads-with_response_headers (response_headers m r service) (with_cache_control m r ttl s)
          ∙ heads-with_cache_control ttl s)

  -- the state after a version that matches
  abbrev matched : Call W → Call W
  matched s =
      on_resp (write_head (pos 304) none)
        (record (with_header m r "ETag" (get (get s.response "data") "version") s) {
          response = Json.null;
        })

  module _ (s : Call W) (h : is_true (get (get s.response "data") "version") ≡ true)
      (e : is_match m r (get (get s.response "data") "version") ≡ true) where
    tag_response-eq : tag_response m r s ≡ (ok tt, matched s)
    unfolding tag_response
    tag_response-eq = rw (h, e, tag_response) refl

    heads-matched_state : heads (matched s).replies ≡ suc (heads s.replies)
    heads-matched_state =
        let tagged = with_header m r "ETag" (get (get s.response "data") "version") s in
        ground (
          arith,
          heads-++ tagged.replies (write_head (pos 304) none ∷ []),
          heads-with_header "ETag" (get (get s.response "data") "version") s,
        )

    -- An answer whose version is the one that the request names has two heads, the first with the
    -- status code 304: `writeHead` is called again after it.
    heads-matched :
        (service : Service) (ttl : Option ℤ)
        → heads ((tag_response m r >> write_answer m r service ttl) s).1.replies
          ≡ suc (suc (heads s.replies))
    heads-matched service ttl =
        rw (tag_response-eq, ◌>>◌)
          (heads-write_answer service ttl (matched s) ∙ ap suc heads-matched_state)
