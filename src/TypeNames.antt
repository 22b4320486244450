-- ===== src/TypeNames.antt =====
-- utils/type/getTypeInfoForTypeName.ts: how the name of a type, as it stands in the source of a
-- service, is taken apart.
pub mod Texts
pub mod Parts
pub mod Laws
pub mod Tests
use lrzwasnla.Common.{
  ℕ, zero, suc, Bool, true, false, ◌&&◌, ◌||◌, Option, none, some, List, [], ◌∷◌, ◌++◌, Text, codes,
  drop, length, starts_with, ◌==◌, if◌then◌else◌,
}
use lrzwasnla.Common.Exec.{Result, ok, err}
use lrzwasnla.Errors.{Failure, plain}

-- What the function answers.
pub record TypeInfo : Type 0 where
  pub base_type_name : Text
  pub is_null : Bool
  pub can_be_error : Bool
  pub default_value_str : Option Text
  pub is_array_type : Bool
  pub is_nullable_type : Bool
  pub is_optional_type : Bool
  pub is_many_of : Bool
  pub is_one_of : Bool

-- `s.slice(0, -1)`
unfoldable pub drop_last : Text → Text
drop_last [] = []
drop_last (c ∷ []) = []
drop_last (c ∷ d ∷ s) = c ∷ drop_last (d ∷ s)

abbrev pub is_same : Text → Text → Bool
is_same [] [] = true
is_same [] (d ∷ t) = false
is_same (c ∷ s) [] = false
is_same (c ∷ s) (d ∷ t) = (c == d) && is_same s t

-- `s.endsWith(t)`
unfoldable pub ends_with : Text → Text → Bool
ends_with [] t = is_same [] t
ends_with (c ∷ s) t = is_same (c ∷ s) t || ends_with s t

-- `s.includes(t)`
unfoldable pub has_part : Text → Text → Bool
has_part [] t = starts_with [] t
has_part (c ∷ s) t = starts_with (c ∷ s) t || has_part s t

-- `s.split(t)[0]`
unfoldable pub before : Text → Text → Text
before t [] = []
before t (c ∷ s) = if starts_with (c ∷ s) t then [] else c ∷ before t s

-- `s.split(t)[1]`
unfoldable pub between : Text → Text → Option Text
unfolding before
between t [] = none
between t (c ∷ s) =
    if starts_with (c ∷ s) t then some (before t (drop (length t) (c ∷ s))) else between t s

-- What stands between a prefix and the last character, if the prefix is there.
unfoldable pub unwrap : Text → Text → Bool × Text
unfolding drop_last
unwrap prefix name =
    if starts_with name prefix then (true, drop_last (drop (length prefix) name)) else (false, name)

-- lines 34 to 37
unfoldable pub without_parentheses : Text → Text
unfolding ends_with has_part drop_last
without_parentheses name =
    if starts_with name (codes "(") && ends_with name (codes ")") && has_part name (codes " | null")
    then drop_last (drop 1 name)
    else name

-- lines 42 to 50
unfoldable pub without_array : Text → Bool × Text
unfolding ends_with drop_last unwrap
without_array name =
    if ends_with name (codes "[]")
    then (true, drop_last (drop_last name))
    else unwrap (codes "Array<") name

-- the checks behind the base name, and the answer: lines 59 to 79
unfoldable pub check_base :
    Option Text
    → (can_be_error is_many_of is_one_of is_optional is_array is_nullable : Bool)
    → (default_value : Option Text) → Text
    → Result Failure TypeInfo
check_base stack can_be_error is_many_of is_one_of is_optional is_array is_nullable default_value
      base =
    let is_still_array = ends_with base (codes "[]") || starts_with base (codes "Array<") in
    if is_still_array && is_nullable
    then err (
        plain (record {
          message =
              codes
                "Array type union with null type is not allowed, use empty array to denote a missing value.";
          stack = stack;
        }))
    else if is_still_array && (is_many_of || is_array)
    then err
        (plain (record { message = codes "Multi-dimensional types not allowed"; stack = stack }))
    else ok (record {
      base_type_name = base;
      is_null = is_same base (codes "null");
      can_be_error = can_be_error || is_many_of || is_one_of;
      default_value_str = default_value;
      is_array_type = is_many_of || is_array;
      is_nullable_type = is_nullable;
      is_optional_type = is_optional;
      is_many_of = is_many_of;
      is_one_of = is_one_of;
    })

-- what follows the signs of an array: lines 52 to 57
unfoldable pub read_base :
    Option Text
    → (can_be_error is_many_of is_one_of is_optional : Bool) → (default_value : Option Text)
    → Bool × Text
    → Result Failure TypeInfo
read_base stack b m o is_optional default_value (is_array, name) =
    let is_nullable = ends_with name (codes " | null") in
    check_base stack b m o is_optional is_array is_nullable default_value
      (if is_nullable then before (codes " | null") name else name)

-- lines 31 to 79, with what was read of the name before
unfoldable pub read_element :
    Option Text → (can_be_error is_many_of is_one_of : Bool) → Text → Result Failure TypeInfo
read_element stack can_be_error is_many_of is_one_of name =
    let is_optional = starts_with name (codes "?") in
    let element = without_parentheses (if is_optional then drop 1 name else name) in
    read_base stack can_be_error is_many_of is_one_of is_optional (between (codes " = ") element)
      (without_array (before (codes " = ") element))

unfoldable pub get_type_info_for_type_name : Option Text → Text → Result Failure TypeInfo
get_type_info_for_type_name stack name =
    let (can_be_error, name1) = unwrap (codes "PromiseErrorOr<") name in
    let (is_many_of, name2) = unwrap (codes "Many<") name1 in
    let (is_one_of, name3) = unwrap (codes "One<") name2 in
    read_element stack can_be_error is_many_of is_one_of name3
