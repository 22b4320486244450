-- ===== src/Errors/Tests.antt =====
-- An error of the source, written and read.
use lrzwasnla.Common.{◌≡◌, none, some, codes, pos, trim, arith, Lacks}
use lrzwasnla.Errors.{
  BackkError, text, create_backk_error_from_error, create_error_from_error_code_message_and_status,
}
use lrzwasnla.Errors.RoundTrip.{create_backk_error_round_trip}

abbrev not_found : BackkError
not_found = record {
  status_code = pos 404;
  message = codes "No such entity: 7";
  error_code = some (text (codes "ENTITY_NOT_FOUND"));
  stack_trace = none;
}

code-Lacks : Lacks b':' (codes "ENTITY_NOT_FOUND")
code-Lacks = ground arith

create_backk_error_round_trip_example :
    let read : BackkError =
      create_backk_error_from_error
        (λ name. none)
        (create_error_from_error_code_message_and_status none not_found) in
    (read.status_code ≡ pos 404)
    × (read.error_code ≡ some (text (codes "ENTITY_NOT_FOUND")))
    × (read.message ≡ trim (codes "No such entity: 7"))
create_backk_error_round_trip_example =
    create_backk_error_round_trip (λ name. none) none 404 (codes "ENTITY_NOT_FOUND")
      (codes "No such entity: 7") none (omega arith) (omega arith) code-Lacks
