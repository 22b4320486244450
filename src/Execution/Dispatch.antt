-- ===== src/Execution/Dispatch.antt =====
-- What becomes of the requests that are to execute multiple service functions.
use lrzwasnla.Common.{
  ◌≡◌, refl, ◌∙◌, ap, String, Bool, true, none, inl, inr, arith, ◌===◌, eq_iff, Bool-cases,
}
use lrzwasnla.Execution.{Step, Microservice, Request}
use lrzwasnla.Execution.Names.{is_execute_multiple_request, multiple_execution}
use lrzwasnla.Execution.Requests.{
  require_post, check_service_function_count, dispatch_multiple_execution,
}
use lrzwasnla.Execution.Silence.{Silent}

asks_for_nothing :
    (name literal : String)
    → multiple_execution literal ≡ none
    → (name === literal) ≡ true
    → multiple_execution name ≡ none
asks_for_nothing name literal h e = ap multiple_execution ((eq_iff name literal).0 e) ∙ h

-- No name that is taken as a request to execute multiple service functions is the name of a way to
-- execute them.
pub multiple_execution-none :
    (name : String) → is_execute_multiple_request name ≡ true → multiple_execution name ≡ none
unfolding is_execute_multiple_request multiple_execution
multiple_execution-none name h =
    elim (Bool-cases (name === "executeMultipleServiceFunctionsInParallelInsideTransaction")) [
      | inl e ↦
          asks_for_nothing name "executeMultipleServiceFunctionsInParallelInsideTransaction" refl e
      | inr e1 ↦
          elim (Bool-cases
            (name === "executeMultipleServiceFunctionsInParallelWithoutTransaction")) [
              | inl e ↦
                  asks_for_nothing name
                    "executeMultipleServiceFunctionsInParallelWithoutTransaction" refl e
              | inr e2 ↦
                  elim (Bool-cases
                    (name === "executeMultipleServiceFunctionsInSequenceInsideTransaction")) [
                      | inl e ↦
                          asks_for_nothing name
                            "executeMultipleServiceFunctionsInSequenceInsideTransaction" refl e
                      | inr e3 ↦
                          asks_for_nothing name
                            "executeMultipleServiceFunctionsInSequenceWithoutTransaction" refl
                            (ground arith)
                    ]
            ]
    ]

module _ {W : Type 0} (m : Microservice W) (r : Request) where
  -- A request goes on to the later branches, or is refused, the same whatever
  -- executeMultipleServiceFunctions does: no request executes multiple service functions.
  pub dispatch_multiple_execution-is_independent :
      (other : Bool → Bool → Step W (Unit {0}))
      → dispatch_multiple_execution m r
        ≡ dispatch_multiple_execution (record m { execute_multiple_service_functions = other }) r
  unfolding dispatch_multiple_execution
  dispatch_multiple_execution-is_independent other =
      elim (Bool-cases (is_execute_multiple_request r.service_function_name)) [
        | inl e ↦
            rw (e, dispatch_multiple_execution, multiple_execution-none r.service_function_name e)
              refl
        | inr e ↦ rw (e, dispatch_multiple_execution) refl
      ]

  pub Silent-dispatch_multiple_execution : Silent (dispatch_multiple_execution m r)
  unfolding dispatch_multiple_execution require_post check_service_function_count
  Silent-dispatch_multiple_execution = record {
    at = λ s. ground (arith, multiple_execution-none r.service_function_name);
  }
