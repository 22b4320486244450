-- ===== src/Execution/Fetching/Tests.antt =====
-- A note whose author comes from another service.
use lrzwasnla.Common.{
  ℕ, ◌<◌, String, Option, none, some, List, [], ◌∷◌, ◌++◌, codes, ◌===◌, if◌then◌else◌, ◌≡◌, ◌≢◌,
  refl, sym, ap, ◌∙◌, Bool-cases, inl, inr, arith,
}
use lrzwasnla.Common.Exec.{Result, ok, err, pure}
use lrzwasnla.Errors.{Failure}
use lrzwasnla.TypeNames.{
  is_same, get_type_info_for_type_name, read_element, read_base, check_base, without_array, before,
  between, without_parentheses, ends_with, has_part,
}
use lrzwasnla.Annotations.Classes.{Class}
use lrzwasnla.Annotations.TypeProperty.{empty}
use lrzwasnla.Execution.Values.{Json}
use lrzwasnla.Execution.Fetching.{Remote, out_of_fuel, class_of_type, fetch_from_remote_services}
use lrzwasnla.Execution.Fetching.Fuel.{Falls, fetch_from_remote_services_ends}

abbrev note : Class
note = record { name = "Note"; parents = [] }

abbrev user : Class
user = record { name = "User"; parents = [] }

-- What holds the response is the list of the paths that were written.
abbrev remote : Remote (List String)
remote = record {
  annotations = empty;
  metadata = λ c. if c.name === "Note" then ("author", codes "User") ∷ [] else [];
  types = λ name. if is_same name (codes "User") then some user else none;
  stack = none;
  call_remote_service = λ spec argument. pure (some Json.null, none);
  response = λ paths. Json.null;
  set = λ path value paths. paths ++ path ∷ [];
}

abbrev rank : Class → ℕ
rank c = if c.name === "Note" then 1 else 0

class_of_type-User : class_of_type remote (codes "User") ≡ ok (some user)
unfolding class_of_type get_type_info_for_type_name read_element read_base check_base without_array
    before between without_parentheses ends_with has_part
class_of_type-User = refl

abbrev name_of : Result Failure (Option Class) → String
name_of (ok (some c)) = c.name
name_of _ = ""

falls_to_user : (d : Class) → class_of_type remote (codes "User") ≡ ok (some d) → rank d < 1
falls_to_user d e =
    let named : d.name ≡ "User" = ap name_of (sym e ∙ class_of_type-User) in rw named (ground arith)

falls : Falls remote Json.null rank
falls c = elim (Bool-cases (c.name === "Note")) [
  | inl is_note ↦ rw is_note (falls_to_user, tt)
  | inr other ↦ rw other tt
]

fetch_from_remote_services_ends_example :
    (fetch_from_remote_services remote 2 Json.null note "" []).0 ≢ err out_of_fuel
fetch_from_remote_services_ends_example =
    fetch_from_remote_services_ends remote Json.null rank falls 2 note "" [] (omega arith)
