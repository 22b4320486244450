-- ===== src/Pages/Laws.antt =====
-- Which pages a client may ask for with the tokens that it got.
use lrzwasnla.Common.{
  ℕ, ◌+◌, ◌-◌, String, ◌≡◌, refl, ◌↔◌, ◌⊎◌, inl, inr, true, ◌===◌, Option, none, some, List, [],
  ◌∷◌, map, All, arith, eq_iff, show, Text, if◌then◌else◌, ◌≤◌, Bool-cases, All-map, ap,
}
use lrzwasnla.Common.Exec.{ok}
use lrzwasnla.Errors.{Environment}
use lrzwasnla.Pages.{
  Pagination, CurrentPageToken, find_token, show_previous, is_near, make_tokens,
  create_current_page_tokens, check_token, check_tokens,
  try_ensure_previous_or_next_page_is_requested,
}

-- The page that was issued for a path.
abbrev pub issued_page : List Pagination → String → Option ℕ
issued_page [] path = none
issued_page (p ∷ ps) path =
    if p.sub_entity_path === path then some p.page_number else issued_page ps path

-- A page next to one that was issued for the same path, or that page again.
abbrev pub IsNear : List Pagination → Pagination → Type 0
IsNear issued request =
    (n : ℕ) × (issued_page issued request.sub_entity_path ≡ some n)
    × (1 ≤ request.page_number)
    × ((request.page_number ≡ n) ⊎ ((request.page_number ≡ n + 1) ⊎ (n ≡ request.page_number + 1)))

previous_of_next : (n : ℕ) → show_previous (n + 1) ≡ show n
previous_of_next n = let e : n + 1 - 1 ≡ n = omega arith in ground (arith, ap show e)

module _ (hmac : String → Text → String) (env : Environment) (stack : Option Text)
    (key : String) where
  -- The token of one of the three pages that a request may be for.
  abbrev pub IsToken : Pagination → CurrentPageToken → Type 0
  IsToken request token =
      (token.current_page_token ≡ hmac key (show request.page_number))
      ⊎ ((token.current_page_token ≡ hmac key (show_previous request.page_number))
          ⊎ (token.current_page_token ≡ hmac key (show (request.page_number + 1))))

  is_near_iff :
      (token : CurrentPageToken) (r : Pagination)
      → (is_near hmac env stack key token.current_page_token r.page_number ≡ true) ↔ IsToken r token
  is_near_iff token r =
      let t = token.current_page_token in
      let now = eq_iff (hmac key (show r.page_number)) t in
      let previous = eq_iff t (hmac key (show_previous r.page_number)) in
      let next = eq_iff t (hmac key (show (r.page_number + 1))) in
      (λ h. ground (arith, now, previous, next, h), λ h. ground (arith, now, previous, next, h))

  check_token_iff :
      (found : Option CurrentPageToken) (r : Pagination)
      → (check_token hmac env stack (some key) found r ≡ ok tt)
        ↔ ((token : CurrentPageToken) × (found ≡ some token) × IsToken r token)
  unfolding check_token
  check_token_iff none r = (λ h. absurd (ground arith), λ h. absurd (ground (arith, h.1)))
  check_token_iff (some token) r =
      let near = is_near_iff token r in
      (
        λ h. (token, refl, near.0 (ground (arith, h))),
        λ h.
            let same : h.0 ≡ token = ground (arith, h.1) in ground (arith, near.1 (rw same at h.2)),
      )

  -- A request passes exactly when there is a token for the path of each of its pages, and that is
  -- the token of the page, of the one before or of the one after.
  pub try_ensure_previous_or_next_page_is_requested_iff :
      (tokens : List CurrentPageToken) (requests : List Pagination)
      → env "ENCRYPTION_KEY" ≡ some key
      → (try_ensure_previous_or_next_page_is_requested hmac env stack (some tokens) (some requests)
          ≡ ok tt)
        ↔ All
            (λ r.
              (token : CurrentPageToken) × (find_token tokens r.sub_entity_path ≡ some token)
              × IsToken r token)
            requests
  unfolding try_ensure_previous_or_next_page_is_requested check_tokens check_token
  try_ensure_previous_or_next_page_is_requested_iff tokens [] k = (λ h. tt, λ h. refl)
  try_ensure_previous_or_next_page_is_requested_iff tokens (r ∷ rs) k =
      let rest = try_ensure_previous_or_next_page_is_requested_iff tokens rs k in
      let first = check_token_iff (find_token tokens r.sub_entity_path) r in
      (
        λ h. (first.0 (ground (arith, h, k)), rest.0 (ground (arith, h, k))),
        λ h. ground (arith, k, first.1 h.0, rest.1 h.1),
      )

  abbrev token_of : Pagination → CurrentPageToken
  token_of p = record {
    sub_entity_path = p.sub_entity_path;
    current_page_token = hmac key (show p.page_number);
  }

  create_current_page_tokens-map :
      (issued : List Pagination)
      → env "ENCRYPTION_KEY" ≡ some key
      → create_current_page_tokens hmac env stack (some issued) ≡ ok (some (map token_of issued))
  unfolding create_current_page_tokens make_tokens
  create_current_page_tokens-map [] k = refl
  create_current_page_tokens-map (p ∷ ps) k = ground (arith, k)

  find_token-map :
      (issued : List Pagination) (path : String) (n : ℕ)
      → issued_page issued path ≡ some n
      → (token : CurrentPageToken) × (find_token (map token_of issued) path ≡ some token)
        × (token.current_page_token ≡ hmac key (show n))
  find_token-map [] path n h = absurd (ground (arith, h))
  find_token-map (p ∷ ps) path n h = elim (Bool-cases (p.sub_entity_path === path)) [
    | inl e ↦
        let same : p.page_number ≡ n = ground (arith, h, e) in
        (token_of p, ground (arith, e), ap (λ m. hmac key (show m)) same)
    | inr e ↦
        let (token, found, is) = find_token-map ps path n (ground (arith, h, e)) in
        (token, ground (arith, found, e), is)
  ]

  near-IsToken :
      (issued : List Pagination) (r : Pagination)
      → IsNear issued r
      → (token : CurrentPageToken) × (find_token (map token_of issued) r.sub_entity_path
          ≡ some token)
        × IsToken r token
  near-IsToken issued r (n, e, positive, near) =
      let (token, found, is) = find_token-map issued r.sub_entity_path n e in
      (
        token,
        found,
        elim near [
          | inl same ↦ inl (rw same is)
          | inr (inl after) ↦
              inr (inl ground (arith, is, ap show_previous after, previous_of_next n))
          | inr (inr before) ↦ inr (inr (rw (← before) is))
        ],
      )

  -- tryEnsurePreviousOrNextPageIsRequested lets the tokens that createCurrentPageTokens made for
  -- pages pass with a request for any of these pages, the page before or the page after, of the
  -- same paths. The validation of the tokens as a part of the argument, which goes before, is not
  -- considered.
  pub near_pages_pass :
      (issued requests : List Pagination) (tokens : Option (List CurrentPageToken))
      → env "ENCRYPTION_KEY" ≡ some key
      → create_current_page_tokens hmac env stack (some issued) ≡ ok tokens
      → All (IsNear issued) requests
      → try_ensure_previous_or_next_page_is_requested hmac env stack tokens (some requests) ≡ ok tt
  near_pages_pass issued requests tokens k c h =
      let same : tokens ≡ some (map token_of issued) =
        ground (arith, c, create_current_page_tokens-map issued k) in
      rw same (
        (try_ensure_previous_or_next_page_is_requested_iff (map token_of issued) requests k).1
          (All-map requests (near-IsToken issued) h))
