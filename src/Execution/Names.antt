-- ===== src/Execution/Names.antt =====
-- execution/isExecuteMultipleRequest.ts and isValidServiceFunctionName.ts, and how
-- tryExecuteServiceMethod.ts reads the name of a service function.
use Prim.Native.Char.{code}
use lrzwasnla.Common.{
  String, Bool, true, false, ◌&&◌, ◌||◌, Option, none, some, List, [], ◌∷◌, Dict, at, ◌==◌, ◌===◌,
  if◌then◌else◌,
}
use lrzwasnla.Execution.{Service}

abbrev in_front : Prim.Native.Char.Char → List String → List String
in_front c [] = String.◌∷◌ c String.[] ∷ []
in_front c (part ∷ parts) = String.◌∷◌ c part ∷ parts

-- `name.split('.')`
unfoldable pub split_name : String → List String
split_name String.[] = String.[] ∷ []
split_name (String.◌∷◌ c s) =
    let parts = split_name s in if code c == 46 then String.[] ∷ parts else in_front c parts

-- `const [serviceName, functionName] = ...`; a missing name is a key or a text as "undefined"
unfoldable pub service_and_function : List String → String × String
service_and_function [] = ("undefined", "undefined")
service_and_function (service ∷ []) = (service, "undefined")
service_and_function (service ∷ function ∷ _) = (service, function)

unfoldable pub is_execute_multiple_request : String → Bool
is_execute_multiple_request name =
    (name === "executeMultipleServiceFunctionsInParallelInsideTransaction")
    || (name === "executeMultipleServiceFunctionsInParallelWithoutTransaction")
    || (name === "executeMultipleServiceFunctionsInSequenceInsideTransaction")
    || (name === "executeMultipleServiceFunctionsInSequenceWithoutTransaction")

-- `isConcurrent` and `shouldExecuteInsideTransaction` of the call that a name asks for
unfoldable pub multiple_execution : String → Option (Bool × Bool)
multiple_execution name =
    if name === "multipleServiceFunctionExecutionService.executeInParallelWithoutTransaction"
    then some (true, false)
    else if name === "multipleServiceFunctionExecutionService.executeInSequenceWithoutTransaction"
    then some (false, false)
    else if name === "multipleServiceFunctionExecutionService.executeInParallelInsideTransaction"
    then some (true, true)
    else if name === "multipleServiceFunctionExecutionService.executeInSequenceInsideTransaction"
    then some (false, true)
    else none

abbrev pub includes : List String → String → Bool
includes [] name = false
includes (other ∷ rest) name = (other === name) || includes rest name

-- `!!text` of what a dictionary holds
abbrev pub is_text : Option String → Bool
is_text none = false
is_text (some s) = if s === "" then false else true

-- a function that the service has, and whose return type is known
unfoldable pub has_function : Service → String → Bool
has_function service function_name =
    includes service.function_names function_name
    && is_text (at service.function_name_to_return_type_name_map function_name)

unfoldable pub is_valid_service_function_name : Dict Service → String → Bool
unfolding split_name service_and_function has_function
is_valid_service_function_name services name =
    let (service_name, function_name) = service_and_function (split_name name) in
    elim (at services service_name) [
      | none ↦ false
      | some service ↦ has_function service function_name
    ]
