-- ===== src/Pages/Tests.antt =====
-- A client that got the second page of the root entity and asks for the third.
use Prim.Native.String
use lrzwasnla.Common.{
  String, ◌≡◌, refl, ◌↔◌, ◌==◌, ◌===◌, none, some, List, [], ◌∷◌, All, Text, show, inl, inr,
  if◌then◌else◌, arith,
}
use lrzwasnla.Common.Exec.{ok}
use lrzwasnla.Errors.{Environment}
use lrzwasnla.Pages.{
  Pagination, CurrentPageToken, find_token, make_tokens, create_current_page_tokens,
  try_ensure_previous_or_next_page_is_requested,
}
use lrzwasnla.Pages.Laws.{
  IsToken, try_ensure_previous_or_next_page_is_requested_iff, near_pages_pass,
}

-- A hash that tells a 2 from the other digits.
abbrev hmac : String → Text → String
hmac key [] = key
hmac key (c ∷ s) = String.◌++◌ (if c == b'2' then "2" else "-") (hmac key s)

abbrev env : Environment
env name = if name === "ENCRYPTION_KEY" then some "secret" else none

abbrev second : Pagination
second = record { sub_entity_path = ""; page_number = 2 }

abbrev third : Pagination
third = record { sub_entity_path = ""; page_number = 3 }

abbrev tokens : List CurrentPageToken
tokens = record { sub_entity_path = ""; current_page_token = hmac "secret" (show 2) } ∷ []

try_ensure_previous_or_next_page_is_requested_iff_example :
    (try_ensure_previous_or_next_page_is_requested hmac env none (some tokens) (some (third ∷ []))
      ≡ ok tt)
    ↔ All
        (λ r.
          (token : CurrentPageToken) × (find_token tokens r.sub_entity_path ≡ some token)
          × IsToken hmac env none "secret" r token)
        (third ∷ [])
try_ensure_previous_or_next_page_is_requested_iff_example =
    try_ensure_previous_or_next_page_is_requested_iff hmac env none "secret" tokens (third ∷ [])
      refl

near_pages_pass_example :
    try_ensure_previous_or_next_page_is_requested hmac env none (some tokens) (some (third ∷ []))
    ≡ ok tt
unfolding create_current_page_tokens make_tokens
near_pages_pass_example =
    near_pages_pass hmac env none "secret" (second ∷ []) (third ∷ []) (some tokens) refl refl
      ((2, refl, omega arith, inr (inl refl)), tt)
