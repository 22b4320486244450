-- ===== src/Execution/Fetching.antt =====
-- execution/fetchFromRemoteServices.ts: the properties of a response that come from other services.
-- The fetches of one class are started together, so that the others are made when one fails.
pub mod Fuel
pub mod Tests
use lrzwasnla.Common.{
  ℕ, zero, suc, String, Bool, true, false, Option, none, some, List, [], ◌∷◌, ◌++◌, Dict, Text,
  codes, ◌===◌, if◌then◌else◌,
}
use Prim.Native.String
use lrzwasnla.Common.Exec.{Result, ok, err, Exec, pure, throw, modify, ◌>>=◌, ◌>>◌}
use lrzwasnla.Errors.{Failure, backk, BackkError}
use lrzwasnla.TypeNames.{get_type_info_for_type_name, TypeInfo}
use lrzwasnla.Transactions.{ErrorOr}
use lrzwasnla.Annotations.Classes.{Class}
use lrzwasnla.Annotations.TypeProperty.{
  TypePropertyAnnotationContainer, RemoteServiceFetchSpec,
  get_type_property_remote_service_fetch_spec,
}
use lrzwasnla.Execution.Values.{Json}

-- `out_of_fuel` stands for a recursion that does not end.
pub data Stop : Type 0 where
  out_of_fuel : Stop
  failed : Failure → Stop

-- The annotations, the property types of a class, the types by name; `callRemoteService`, and
-- `_.set` of lodash, which act on what holds the response.
pub record Remote (R : Type 0) : Type 0 where
  pub annotations : TypePropertyAnnotationContainer Json
  pub metadata : Class → Dict Text
  pub types : Text → Option Class
  pub stack : Option Text
  pub call_remote_service : RemoteServiceFetchSpec Json → Dict Json → Exec Failure R (ErrorOr Json)
  pub response : R → Json
  pub set : String → Option Json → R → R

module _ {R A : Type 0} where
  abbrev pub stopping : Result Failure A × R → Result Stop A × R
  stopping (ok a, s) = (ok a, s)
  stopping (err f, s) = (err (failed f), s)

module _ {R : Type 0} (k : Remote R) where
  -- `error.message = `${…} failed: ${error.message}``
  abbrev pub with_function : RemoteServiceFetchSpec Json → BackkError → BackkError
  with_function spec error = record error {
    message = codes spec.remote_service_function_name ++ (codes " failed: " ++ error.message);
  }

  -- lines 41 to 46
  unfoldable pub use_response :
      RemoteServiceFetchSpec Json → String → ErrorOr Json → Exec Stop R (Unit {0})
  use_response spec path (response, some error) = throw (failed (backk (with_function spec error)))
  use_response spec path (response, none) = modify (k.set path response)

  -- lines 22 to 47; the path is `responsePath + propertyName`
  unfoldable pub fetch_value : Json → Class → String → String → Exec Stop R (Unit {0})
  fetch_value argument c path name =
      elim (get_type_property_remote_service_fetch_spec k.annotations c name) [
        | none ↦ pure tt
        | some spec ↦
            (λ s. stopping (
              k.call_remote_service spec
                (spec.build_remote_service_function_argument argument (k.response s)) s))
            >>= use_response spec (String.◌++◌ path name)
      ]

  -- `(responsePath ? responsePath + '.' : '') + propertyName`
  unfoldable pub nested_path : String → String → String
  nested_path path name = if path === "" then name else String.◌++◌ path (String.◌++◌ "." name)

  -- the class that the name of a type stands for, if it is one of the types
  unfoldable pub class_of_type : Text → Result Failure (Option Class)
  class_of_type type_name = elim (get_type_info_for_type_name k.stack type_name) [
    | ok info ↦ ok (k.types info.base_type_name)
    | err e ↦ err e
  ]

  -- lines 50 to 58
  unfoldable pub follow :
      (Class → String → Exec Stop R (Option Failure))
      → String
      → Result Failure (Option Class)
      → Exec Stop R (Unit {0})
  follow fetch path (err e) = throw (failed e)
  follow fetch path (ok none) = pure tt
  follow fetch path (ok (some d)) = fetch d path >> pure tt

  -- lines 21 to 59
  unfoldable pub fetch_property :
      (Class → String → Exec Stop R (Option Failure))
      → Json
      → Class
      → String
      → String × Text
      → Exec Stop R (Unit {0})
  fetch_property fetch argument c path (name, type_name) =
      fetch_value argument c path name
      >> follow fetch (nested_path path name) (class_of_type type_name)

  unfoldable pub first_error :
      Result Stop (Unit {0}) → Result Stop (Unit {0}) × R → Result Stop (Unit {0}) × R
  first_error (ok u) others = others
  first_error (err e) others = (err e, others.1)

  -- each of them, and the first error
  unfoldable pub all_properties :
      (String × Text → Exec Stop R (Unit {0})) → Dict Text → Exec Stop R (Unit {0})
  all_properties fetch [] s = (ok tt, s)
  all_properties fetch (p ∷ rest) s =
      let first = fetch p s in
      let others = all_properties fetch rest first.1 in first_error first.0 others

  -- lines 61 to 69
  unfoldable pub returned : String → Result Stop (Unit {0}) × R → Result Stop (Option Failure) × R
  returned path (ok u, s) = (ok none, s)
  returned path (err out_of_fuel, s) = (err out_of_fuel, s)
  returned path (err (failed f), s) = if path === "" then (ok (some f), s) else (err (failed f), s)

  unfoldable pub fetch_from_remote_services :
      ℕ → Json → Class → String → Exec Stop R (Option Failure)
  fetch_from_remote_services zero argument c path s = (err out_of_fuel, s)
  fetch_from_remote_services (suc fuel) argument c path s = returned path (
      all_properties (fetch_property (fetch_from_remote_services fuel argument) argument c path)
        (k.metadata c) s)
