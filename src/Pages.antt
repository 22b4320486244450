-- ===== src/Pages.antt =====
-- datastore/utils/createCurrentPageTokens.ts and tryEnsurePreviousOrNextPageIsRequested.ts: a client
-- that got a page gets a token for it, and may ask for that page, the one before and the one after.
-- `hmac` is the keyed hash of a text in base 64, of a third-party library.
pub mod Laws
pub mod Tests
use lrzwasnla.Common.{
  ℕ, String, ◌+◌, ◌-◌, Bool, true, false, not, ◌&&◌, ◌==◌, ◌===◌, Option, none, some, List, [], ◌∷◌,
  ◌++◌, map, Text, codes, pos, negsuc, show, show_ℤ, if◌then◌else◌,
}
use lrzwasnla.Common.Exec.{Result, ok, err}
use lrzwasnla.Errors.{
  Failure, backk, plain, Environment, create_backk_error_from_error_message_and_status_code,
}

-- types/postqueryoperations/Pagination.ts, without the size of a page
pub record Pagination : Type 0 where
  pub sub_entity_path : String
  pub page_number : ℕ

-- types/postqueryoperations/CurrentPageToken.ts
pub record CurrentPageToken : Type 0 where
  pub sub_entity_path : String
  pub current_page_token : String

abbrev pub find_token : List CurrentPageToken → String → Option CurrentPageToken
find_token [] path = none
find_token (token ∷ tokens) path =
    if token.sub_entity_path === path then some token else find_token tokens path

-- `(pageNumber - 1).toString()`
abbrev pub show_previous : ℕ → Text
show_previous n = if n == 0 then show_ℤ (negsuc 0) else show (n - 1)

module _ (hmac : String → Text → String) (env : Environment) (stack : Option Text) where
  bad_request : Text → Failure
  bad_request message =
      backk (create_backk_error_from_error_message_and_status_code env stack message (pos 400))

  missing_key : Failure
  missing_key = plain (record {
    message = codes "Environment variable ENCRYPTION_KEY is not defined";
    stack = stack;
  })

  make_tokens : Option String → List Pagination → Result Failure (List CurrentPageToken)
  make_tokens key [] = ok []
  make_tokens none (p ∷ ps) = err missing_key
  make_tokens (some key) (p ∷ ps) = ok (
      map
        (λ p. record {
          sub_entity_path = p.sub_entity_path;
          current_page_token = hmac key (show p.page_number);
        })
        (p ∷ ps))

  pub create_current_page_tokens :
      Option (List Pagination) → Result Failure (Option (List CurrentPageToken))
  create_current_page_tokens none = ok none
  create_current_page_tokens (some ps) = elim (make_tokens (env "ENCRYPTION_KEY") ps) [
    | ok tokens ↦ ok (some tokens)
    | err f ↦ err f
  ]

  -- whether the token is that of the page, of the one before or of the one after
  abbrev pub is_near : String → String → ℕ → Bool
  is_near key token n = not (
      not (hmac key (show n) === token)
      && not (token === hmac key (show_previous n))
      && not (token === hmac key (show (n + 1))))

  check_token : Option String → Option CurrentPageToken → Pagination → Result Failure (Unit {0})
  check_token key none p = err (
      bad_request
        (codes "currentPageToken is missing for subEntityPath: " ++ codes p.sub_entity_path))
  check_token none (some token) p = err missing_key
  check_token (some key) (some token) p =
      if is_near key token.current_page_token p.page_number
      then ok tt
      else err (
          bad_request (
            codes
              "Fetching requested page is not allowed. You can only fetch previous or next page for subEntityPath: "
            ++ codes p.sub_entity_path))

  check_tokens : List CurrentPageToken → List Pagination → Result Failure (Unit {0})
  check_tokens tokens [] = ok tt
  check_tokens tokens (p ∷ ps) =
      elim (check_token (env "ENCRYPTION_KEY") (find_token tokens p.sub_entity_path) p) [
        | ok _ ↦ check_tokens tokens ps
        | err f ↦ err f
      ]

  abbrev or_none : Option (List CurrentPageToken) → List CurrentPageToken
  or_none none = []
  or_none (some tokens) = tokens

  pub try_ensure_previous_or_next_page_is_requested :
      Option (List CurrentPageToken) → Option (List Pagination) → Result Failure (Unit {0})
  try_ensure_previous_or_next_page_is_requested tokens none = ok tt
  try_ensure_previous_or_next_page_is_requested tokens (some ps) = check_tokens (or_none tokens) ps
