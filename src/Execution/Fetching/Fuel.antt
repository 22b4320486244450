-- ===== src/Execution/Fetching/Fuel.antt =====
-- execution/fetchFromRemoteServices.ts: the recursion ends for types that do not hold themselves.
use lrzwasnla.Common.{
  ℕ, zero, suc, ◌<◌, String, Option, none, some, [], ◌∷◌, Dict, Text, All, ◌≡◌, ◌≢◌, refl, arith,
  All-map, Option-cases, Bool-cases, ◌===◌, inl, inr,
}
use lrzwasnla.Common.Exec.{Result, ok, err, Exec, pure, continue}
use lrzwasnla.Errors.{Failure}
use Prim.Native.String
use lrzwasnla.Transactions.{ErrorOr}
use lrzwasnla.Annotations.Classes.{Class}
use lrzwasnla.Annotations.TypeProperty.{
  RemoteServiceFetchSpec, get_type_property_remote_service_fetch_spec,
}
use lrzwasnla.Execution.Values.{Json}
use lrzwasnla.Execution.Fetching.{
  Remote, Stop, out_of_fuel, failed, stopping, fetch_value, nested_path, class_of_type, follow,
  fetch_property, first_error, use_response, all_properties, returned, fetch_from_remote_services,
}

module _ {R : Type 0} (k : Remote R) (argument : Json) where
  -- Along the properties of a class the rank gets smaller.
  abbrev pub Falls : (Class → ℕ) → Type 0
  Falls rank =
      (c : Class)
      → All (λ p. (d : Class) → class_of_type k p.1 ≡ ok (some d) → rank d < rank c) (k.metadata c)

  abbrev Fetch : Type 0
  Fetch = Class → String → Exec Stop R (Option Failure)

  -- An action that does not run out of fuel in any state.
  abbrev Ends : {A : Type 0} → Exec Stop R A → Type 0
  Ends m = (s : R) → (m s).0 ≢ err out_of_fuel

  module _ {A B : Type 0} where
    continue-Ends :
        (r : Result Stop A) (f : A → Exec Stop R B) (t : R)
        → r ≢ err out_of_fuel
        → ((a : A) → Ends (f a))
        → (continue r f t).0 ≢ err out_of_fuel
    continue-Ends (ok a) f t h hf e = hf a t e
    continue-Ends (err out_of_fuel) f t h hf e = absurd (h refl)
    continue-Ends (err (failed x)) f t h hf e = absurd (ground arith)

  module _ {A : Type 0} where
    stopping-Ends : (p : Result Failure A × R) → (stopping p).0 ≢ err out_of_fuel
    stopping-Ends (ok a, t) e = absurd (ground arith)
    stopping-Ends (err f, t) e = absurd (ground arith)

  use_response-Ends :
      (spec : RemoteServiceFetchSpec Json) (path : String) (answer : ErrorOr Json)
      → Ends (use_response k spec path answer)
  unfolding use_response
  use_response-Ends spec path (response, none) s e = absurd (ground arith)
  use_response-Ends spec path (response, some error) s e = absurd (ground arith)

  fetch_value-Ends : (c : Class) (path name : String) → Ends (fetch_value k argument c path name)
  unfolding fetch_value
  fetch_value-Ends c path name s =
      elim (Option-cases (get_type_property_remote_service_fetch_spec k.annotations c name)) [
        | inl none_found ↦ rw (none_found, fetch_value) (λ e. absurd (ground arith))
        | inr (spec, found) ↦
            let p = stopping (
              k.call_remote_service spec
                (spec.build_remote_service_function_argument argument (k.response s)) s) in
            rw (found, fetch_value)
              (continue-Ends p.0 (use_response k spec (String.◌++◌ path name)) p.1
                (stopping-Ends (
                  k.call_remote_service spec
                    (spec.build_remote_service_function_argument argument (k.response s)) s))
                (use_response-Ends spec (String.◌++◌ path name)))
      ]

  follow-Ends :
      (fetch : Fetch) (path : String) (r : Result Failure (Option Class))
      → ((d : Class) → r ≡ ok (some d) → Ends (fetch d path))
      → Ends (follow k fetch path r)
  unfolding follow
  follow-Ends fetch path (err f) h s e = absurd (ground arith)
  follow-Ends fetch path (ok none) h s e = absurd (ground arith)
  follow-Ends fetch path (ok (some d)) h s e =
      continue-Ends (fetch d path s).0 (λ r. pure tt) (fetch d path s).1 (h d refl s)
        (λ r t e. absurd (ground arith)) e

  fetch_property-Ends :
      (fetch : Fetch) (c : Class) (path : String) (p : String × Text)
      → ((d : Class) → class_of_type k p.1 ≡ ok (some d) → Ends (fetch d (nested_path k path p.0)))
      → Ends (fetch_property k fetch argument c path p)
  unfolding fetch_property
  fetch_property-Ends fetch c path (name, type_name) h s =
      continue-Ends (fetch_value k argument c path name s).0
        (λ u. follow k fetch (nested_path k path name) (class_of_type k type_name))
        (fetch_value k argument c path name s).1 (fetch_value-Ends c path name s)
        (λ u. follow-Ends fetch (nested_path k path name) (class_of_type k type_name) h)

  first_error-Ends :
      (r : Result Stop (Unit {0})) (others : Result Stop (Unit {0}) × R)
      → r ≢ err out_of_fuel
      → others.0 ≢ err out_of_fuel
      → (first_error k r others).0 ≢ err out_of_fuel
  unfolding first_error
  first_error-Ends (ok u) others h l = l
  first_error-Ends (err x) others h l = h

  all_properties-Ends :
      (fetch : String × Text → Exec Stop R (Unit {0})) (ps : Dict Text)
      → All (λ p. Ends (fetch p)) ps
      → Ends (all_properties k fetch ps)
  unfolding all_properties
  all_properties-Ends fetch [] h s e = absurd (ground arith)
  all_properties-Ends fetch (p ∷ rest) (one, more) s e =
      first_error-Ends (fetch p s).0 (all_properties k fetch rest (fetch p s).1) (one s)
        (all_properties-Ends fetch rest more (fetch p s).1) e

  returned-Ends :
      (path : String) (p : Result Stop (Unit {0}) × R)
      → p.0 ≢ err out_of_fuel
      → (returned k path p).0 ≢ err out_of_fuel
  unfolding returned
  returned-Ends path (ok u, s) h e = absurd (ground arith)
  returned-Ends path (err out_of_fuel, s) h e = absurd (h refl)
  returned-Ends path (err (failed f), s) h e = elim (Bool-cases (path === "")) [
    | inl top ↦ absurd (ground arith)
    | inr nested ↦ absurd (ground arith)
  ]

  -- Where a rank falls along the properties of each class, fuel above the rank of the class that is
  -- fetched is enough: the recursion ends, in every state.
  pub fetch_from_remote_services_ends :
      (rank : Class → ℕ)
      → Falls rank
      → (fuel : ℕ) (c : Class) (path : String) (s : R) → rank c < fuel
      → (fetch_from_remote_services k fuel argument c path s).0 ≢ err out_of_fuel
  unfolding fetch_from_remote_services
  fetch_from_remote_services_ends rank falls zero c path s h e = absurd (ground arith)
  fetch_from_remote_services_ends rank falls (suc fuel) c path s h e =
      returned-Ends path
        (all_properties k
          (fetch_property k (fetch_from_remote_services k fuel argument) argument c path)
          (k.metadata c) s)
        (all_properties-Ends
          (fetch_property k (fetch_from_remote_services k fuel argument) argument c path)
          (k.metadata c)
          (All-map (k.metadata c)
            (λ p lower.
              fetch_property-Ends (fetch_from_remote_services k fuel argument) c path p (λ d e t.
                fetch_from_remote_services_ends rank falls fuel d (nested_path k path p.0) t
                  (omega (arith, lower d e))))
            (falls c))
          s)
        e
