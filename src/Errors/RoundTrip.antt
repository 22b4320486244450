-- ===== src/Errors/RoundTrip.antt =====
-- The message that carries a status code, an error code and a text is read back as what was
-- written.
use lrzwasnla.Common.{
  ℕ, zero, suc, ◌≤◌, ◌<◌, ◌≡◌, refl, Bool, true, ◌&&◌, ◌||◌, some, List, [], ◌∷◌, ◌++◌, length,
  arith, ltb, ◌==◌, Text, codes, split, trim, ℤ, pos, show, parse_int, Lacks, split-append,
  join-split, Option,
}
use lrzwasnla.Errors.{
  text, BackkError, Environment, create_backk_error_from_error,
  create_error_from_error_code_message_and_status,
}

-- What a status code of three digits is read as, on its own text.
abbrev reads_back : ℕ → Bool
reads_back n = (length (show n) == 3) && is_number n (parse_int (show n))
  where
    is_number : ℕ → Option ℤ → Bool
    is_number n (some (pos m)) = m == n
    is_number n _ = zero == 1

-- The test holds of every number below the bound.
verified : (ℕ → Bool) → ℕ → Bool
verified test zero = true
verified test (suc bound) = verified test bound && test bound

verified-at :
    (test : ℕ → Bool) (bound n : ℕ) → n < bound → verified test bound ≡ true → test n ≡ true
unfolding verified
verified-at test zero n below h = absurd (omega arith)
verified-at test (suc bound) n below h = ground (arith, verified-at test bound n)

status_codes-verified : verified (λ n. ltb n 100 || reads_back n) 1000 ≡ true
unfolding verified parse_int show
status_codes-verified = refl

three : {xs : List ℕ} → length xs ≡ 3 → (a b c : ℕ) × (xs ≡ a ∷ b ∷ c ∷ [])
three {xs = []} h = absurd (omega arith)
three {xs = a ∷ []} h = absurd (omega arith)
three {xs = a ∷ b ∷ []} h = absurd (omega arith)
three {xs = a ∷ b ∷ c ∷ []} h = (a, b, c, refl)
three {xs = a ∷ b ∷ c ∷ d ∷ xs} h = absurd (omega arith)

-- A status code of three digits is three digits that `parseInt` reads back.
status_text :
    (n : ℕ)
    → 100 ≤ n
    → n < 1000
    → (a b c : ℕ) × (show n ≡ a ∷ b ∷ c ∷ []) × (parse_int (a ∷ b ∷ c ∷ []) ≡ some (pos n))
status_text n lo hi =
    let row : (ltb n 100 || reads_back n) ≡ true =
      verified-at (λ n. ltb n 100 || reads_back n) 1000 n hi status_codes-verified in
    let parts : (length (show n) ≡ 3) × (parse_int (show n) ≡ some (pos n)) = ground (arith, row) in
    let (a, b, c, e) = three parts.0 in (a, b, c, e, rw (← e) parts.1)

-- What `split` makes of a message that has its code behind the prefix.
split_message :
    (code message : Text)
    → Lacks b':' code
    → split (codes "Error code " ++ (code ++ b':' ∷ message)) b':'
      ≡ (codes "Error code " ++ code) ∷ split message b':'
split_message code message h =
    split-append (codes "Error code " ++ code) message b':' (ground arith)

-- An error with a status code of three digits and a code that holds no colon comes back from the
-- message that `createErrorFromErrorCodeMessageAndStatus` writes with the same status code and the
-- same code, its text trimmed.
pub create_backk_error_round_trip :
    (env : Environment) (stack : Option Text) (n : ℕ) (code message : Text) (trace : Option Text)
    → 100 ≤ n
    → n < 1000
    → Lacks b':' code
    → let sent : BackkError = record {
      status_code = pos n;
      message = message;
      error_code = some (text code);
      stack_trace = trace;
    } in
      let read : BackkError =
        create_backk_error_from_error env
          (create_error_from_error_code_message_and_status stack sent) in
      (read.status_code ≡ pos n)
      × (read.error_code ≡ some (text code))
      × (read.message ≡ trim message)
unfolding create_backk_error_from_error create_error_from_error_code_message_and_status
create_backk_error_round_trip env stack n code message trace lo hi h =
    let (a, b, c, e, p) = status_text n lo hi in
    (
      rw (e, p),
      rw (e, p, split_message code message h),
      rw (e, p, split_message code message h, join-split),
    )
