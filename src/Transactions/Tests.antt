-- ===== src/Transactions/Tests.antt =====
-- Transactions around one statement, over databases that accept everything, refuse BEGIN, or refuse
-- COMMIT.
use lrzwasnla.Common.{ℕ, ◌≡◌, refl, ◌↔◌, true, false, none, some, [], ◌∷◌, codes, pos}
use lrzwasnla.Common.Exec.{ok, Exec, pure, ◌>>◌}
use lrzwasnla.Errors.{Failure, Error, Environment, create_backk_error_from_error}
use lrzwasnla.Transactions.{
  Query, number, begin, commit, statement, Session, Database, ErrorOr, execute_sql_or_throw,
  execute_inside_transaction,
}
use lrzwasnla.Transactions.Local.{try_start_local_transaction_if_needed}
use lrzwasnla.Transactions.Laws.{
  started, ended, execute_inside_transaction_iff, refused_begin_stays_open,
}

abbrev pub idle : Session
idle = record {
  multiple_connection = false;
  multiple_global_transaction = false;
  connection = true;
  global_transaction = false;
  local_transaction = false;
  db_local_transaction_count = 0;
  remote_service_call_count = 0;
  post_hook_remote_service_call_count = 0;
  data_store_operation_after_remote_service_call = false;
  user_account_id = none;
  user_account_id_field_name = none;
  is_inside_post_hook = false;
  auth_header = none;
  borrowed = 1;
  sent = [];
}

abbrev pub willing : Database
willing = record { refuses = λ before q. none; exhausted = λ n. none }

abbrev pub lost : Error
lost = record { message = codes "connection lost"; stack = none }

abbrev pub unwilling : Database
unwilling = record { refuses = λ before q. some lost; exhausted = λ n. none }

abbrev nothing_set : Environment
nothing_set name = none

abbrev update : Query
update = statement (codes "UPDATE t SET n = $1") (number (pos 5) ∷ [])

-- Sends one statement, and returns that.
abbrev updating : ErrorOr ℕ → Exec Failure Session (ErrorOr ℕ)
updating outcome =
    execute_sql_or_throw willing (codes "UPDATE t SET n = $1") (number (pos 5) ∷ []) >> pure outcome

abbrev updated : Session
updated = record (started idle) { sent = begin ∷ update ∷ [] }

execute_inside_transaction_iff_example :
    (execute_inside_transaction willing nothing_set (updating (some 3, none)) idle
      ≡ (ok (some 3, none), ended commit updated))
    ↔ ((t : Session) × (willing.refuses [] begin ≡ none)
        × (updating (some 3, none) (started idle) ≡ (ok (some 3, none), t))
        × (willing.refuses t.sent commit ≡ none)
        × (ended commit updated ≡ ended commit t))
execute_inside_transaction_iff_example =
    execute_inside_transaction_iff willing nothing_set (updating (some 3, none)) idle (some 3)
      (ended commit updated) refl

refused_begin_stays_open_example :
    (execute_inside_transaction unwilling nothing_set (updating (some 3, none)) idle
      ≡ (ok (none, some (create_backk_error_from_error nothing_set lost)), started idle))
    × (try_start_local_transaction_if_needed unwilling (started idle) ≡ (ok false, started idle))
refused_begin_stays_open_example =
    refused_begin_stays_open unwilling nothing_set (updating (some 3, none)) idle lost refl refl
