-- ===== src/Validation.antt =====
-- validation/hasAtMostRepeatingOrConsecutiveCharacters.ts: the guard against texts such as
-- `aaaa`, `1234` and `qwer`. The largest counts that the first two loops keep are never read,
-- and are left out.
pub mod Metadata
pub mod Runs
pub mod Laws
pub mod Tests
use lrzwasnla.Common.{
  ℕ, zero, suc, Bool, true, false, not, ◌&&◌, ◌||◌, Option, none, some, [], ◌∷◌, Text, codes, take,
  length, to_lower_case, ltb, ◌==◌, if◌then◌else◌,
}
use lrzwasnla.Common.Exec.{Result, ok, err}
use lrzwasnla.Errors.{Failure, plain}
use lrzwasnla.TypeNames.{has_part}

-- The loop over `j` of lines 18 to 33, with `next` the identity, and of lines 41 to 58, with `next`
-- the successor: whether the characters that follow one another grow to more than `at_most`.
unfoldable pub exceeds : (ℕ → ℕ) → (expected count at_most : ℕ) → Text → Bool
exceeds next expected count at_most [] = false
exceeds next expected count at_most (c ∷ rest) =
    let deeper = exceeds next (next c) (suc count) at_most rest in
    if c == expected then (if ltb at_most (suc count) then true else deeper) else false

-- the loop over `i` of lines 14 to 34 and 37 to 59
unfoldable pub any_exceeds : (ℕ → ℕ) → ℕ → Text → Bool
any_exceeds next at_most [] = false
any_exceeds next at_most (c ∷ rest) =
    exceeds next (next c) 1 at_most rest || any_exceeds next at_most rest

abbrev pub letters : Text
letters = codes "qwertyuiopasdfghjklzxcvbnm"

-- the loop over `j` of lines 64 to 73, with what is left of it: the largest count, or `none` where
-- the function returns `false`
unfoldable pub keyboard_from : Text → (j left largest at_most : ℕ) → Option ℕ
keyboard_from s j zero largest at_most = some largest
keyboard_from s j (suc left) largest at_most =
    let is_larger = has_part letters (take j s) && ltb largest j in
    let rest = keyboard_from s (suc j) left (if is_larger then j else largest) at_most in
    if is_larger && ltb at_most j then none else rest

-- lines 61 to 74
unfoldable pub keyboard_rows : Text → (largest at_most : ℕ) → Option ℕ
keyboard_rows [] largest at_most = some largest
keyboard_rows (c ∷ rest) largest at_most =
    elim (keyboard_from (c ∷ rest) 1 (length (c ∷ rest)) largest at_most) [
      | none ↦ none
      | some m ↦ keyboard_rows rest m at_most
    ]

abbrev pub is_none : {A : Type 0} → Option A → Bool
is_none none = true
is_none (some a) = false

-- lines 12 to 76, of the text in lower case
unfoldable pub has_no_long_run : Text → ℕ → Bool
has_no_long_run s at_most =
    if any_exceeds (λ c. c) at_most s
    then false
    else if any_exceeds suc at_most s
    then false
    else not (is_none (keyboard_rows s 0 at_most))

unfoldable pub has_at_most_repeating_or_consecutive_characters :
    Option Text → Text → ℕ → Result Failure Bool
has_at_most_repeating_or_consecutive_characters stack str at_most_count =
    if ltb 26 at_most_count
    then err (plain (record { message = codes "atMostCount must be less than 26"; stack = stack }))
    else if ltb 26 (length str)
    then ok true
    else ok (has_no_long_run (to_lower_case str) at_most_count)
