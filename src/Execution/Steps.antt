-- ===== src/Execution/Steps.antt =====
-- The steps that an execution is made of: what is called on one part of its state, and what is
-- thrown.
use Prim.Native.String
use lrzwasnla.Common.{
  String, Bool, Option, none, some, [], ◌∷◌, ◌++◌, Text, codes, Dict, if◌then◌else◌,
}
use lrzwasnla.Common.Exec.{Result, ok, err, Exec, throw}
use lrzwasnla.Errors.{
  Failure, backk, plain, BackkError, create_backk_error_from_error_code_message_and_status,
}
use lrzwasnla.Transactions.{Session}
use lrzwasnla.Execution.{Call, Step, Reply, Service, Microservice}

module _ {W A : Type 0} where
  abbrev pub on_session : Exec Failure Session A → Step W A
  on_session f s = let r = f s.session in (r.0, record s { session = r.1 })

  abbrev pub on_outside : Exec Failure W A → Step W A
  on_outside f s = let r = f s.outside in (r.0, record s { outside = r.1 })

  abbrev pub on_session_and_outside : Exec Failure (Session × W) A → Step W A
  on_session_and_outside f s =
      let r = f (s.session, s.outside) in (r.0, record s { session = r.1.0; outside = r.1.1 })

-- `serviceName + '.' + functionName`
abbrev pub full_name : String → String → String
full_name service_name function_name = String.◌++◌ service_name (String.◌++◌ "." function_name)

-- `{ ...e, message: e.message + more }`
abbrev pub with_message : BackkError → Text → BackkError
with_message e more = record e { message = e.message ++ more }

abbrev pub on_resp : {W : Type 0} → Reply → Call W → Call W
on_resp reply s = record s { replies = s.replies ++ reply ∷ [] }

abbrev instances : (Service → Bool) → Dict Service → Dict Service
instances is_instance [] = []
instances is_instance ((name, service) ∷ rest) =
    let others = instances is_instance rest in
    if is_instance service then (name, service) ∷ others else others

module _ {W : Type 0} (m : Microservice W) where
  abbrev pub refuse : {A : Type 0} → BackkError → Step W A
  refuse e =
      throw (backk (create_backk_error_from_error_code_message_and_status m.process_env m.stack e))

  abbrev pub complain : {A : Type 0} → Text → Step W A
  complain message = throw (plain (record { message = message; stack = m.stack }))

  -- microservice/getMicroserviceServiceByServiceClass.ts
  unfoldable pub get_microservice_service_by_service_class :
      String → (Service → Bool) → Result Failure (Option Service)
  get_microservice_service_by_service_class class_name is_instance =
      elim (instances is_instance m.services) [
        | [] ↦ ok none
        | first ∷ rest ↦ elim rest [
          | [] ↦ ok (some first.1)
          | _ ∷ _ ↦ err (
              plain (record {
                message =
                    codes "There can be only one instance of class "
                    ++ (codes class_name ++ codes " in your microservice");
                stack = m.stack;
              }))
        ]
      ]

  -- microservice/getMicroserviceServiceNameByServiceClass.ts
  unfoldable pub get_microservice_service_name_by_service_class : (Service → Bool) → String
  get_microservice_service_name_by_service_class is_instance =
      elim (instances is_instance m.services) [
        | [] ↦ "Service name not found"
        | first ∷ rest ↦ first.0
      ]
