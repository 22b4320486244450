-- ===== src/Execution/Functions.antt =====
-- execution/tryExecuteServiceMethod.ts, lines 441 to 635: the call of a service function in
-- namespaces of its own, with a connection, and the checks of what it did.
use lrzwasnla.Common.{
  Bool, false, not, ◌&&◌, ◌||◌, Option, none, some, [], ◌∷◌, ◌++◌, Text, codes, at, at_least,
  default_to, ltb, leb, ◌==◌, if◌then◌else◌,
}
use lrzwasnla.Common.Exec.{Result, ok, err, Exec, pure, throw, modify, ◌>>=◌, ◌>>◌}
use lrzwasnla.Errors.{Failure, backk, BackkError, create_backk_error_from_error}
use lrzwasnla.Annotations.ServiceFunction.{
  is_service_function_non_transactional, is_service_function_non_distributed_transactional,
}
use lrzwasnla.Transactions.{
  Session, ErrorOr, to_error, try_reserve_db_connection_from_pool,
  try_release_db_connection_back_to_pool,
}
use lrzwasnla.Execution.{Request, Service, Step, Microservice, http_5xx_errors, http_client_errors}
use lrzwasnla.Execution.Values.{Json, undefined, is_true}
use lrzwasnla.Execution.Steps.{on_session, on_session_and_outside, complain}
use lrzwasnla.Execution.Requests.{requested}
use lrzwasnla.Execution.Accounts.{set_user_account_id}

-- What a service function may have done that its annotations do not allow.
pub data Violation : Type 0 where
  multiple_operations operation_and_remote_call : Violation
  multiple_remote_calls operation_after_remote_call : Violation

-- the conditions of lines 568 to 612
unfoldable pub violation_of :
    (non_transactional non_distributed : Bool) → Session → Option Violation
violation_of non_transactional non_distributed t =
    if ltb 1 t.db_local_transaction_count
      && (t.remote_service_call_count == 0)
      && not non_transactional
    then some multiple_operations
    else if leb 1 t.db_local_transaction_count
        && (t.remote_service_call_count == 1)
        && not non_transactional
    then some operation_and_remote_call
    else if (ltb 1 t.remote_service_call_count || ltb 1 t.post_hook_remote_service_call_count)
        && not non_distributed
    then some multiple_remote_calls
    else if t.data_store_operation_after_remote_service_call && not non_distributed
    then some operation_after_remote_call
    else none

abbrev pub violation_message : Violation → Text
violation_message multiple_operations =
    codes
      ": multiple database manager operations must be executed inside a transaction (use database manager's executeInsideTransaction method) or service function must be annotated with @NoTransaction"
violation_message operation_and_remote_call =
    codes
      ": database manager operation and remote service callRemoteService must be executed inside a transaction or service function must be annotated with @NoTransaction if no transaction is needed"
violation_message multiple_remote_calls =
    codes
      ": multiple remote service calls cannot be executed because distributed transactions are not supported. To allow multiple remote service calls that don't require a transaction, annotate service function with @NoDistributedTransactionNeeded"
violation_message operation_after_remote_call =
    codes
      ": database manager operation(s) that can fail cannot be called after a remote service callRemoteService that cannot be rolled back. Alternatively, service function must be annotated with @NoDistributedTransactionNeeded if no distributed transaction is needed"

-- `value ? value : undefined`
abbrev pub true_or_undefined : Json → Json
true_or_undefined value = if is_true value then value else undefined

module _ {W : Type 0} (m : Microservice W) (r : Request) where
  -- what `runAndReturn` starts from: the values of the namespace around, and those set first
  unfoldable pub enter_namespace : Session → Session
  enter_namespace t = record t {
    auth_header = at r.headers "authorization";
    db_local_transaction_count = 0;
    remote_service_call_count = 0;
    post_hook_remote_service_call_count = 0;
    data_store_operation_after_remote_service_call = false;
  }

  -- the namespace around is left as it was; the pool, the database, and the namespace of multiple
  -- executions are not part of it
  unfoldable pub leave_namespace : (before after : Session) → Session
  leave_namespace before after = record before {
    multiple_connection = after.multiple_connection;
    multiple_global_transaction = after.multiple_global_transaction;
    borrowed = after.borrowed;
    sent = after.sent;
  }

  -- lines 560 to 562
  unfoldable pub call_function : Json → Step W (ErrorOr Json)
  call_function argument s =
      (on_session_and_outside (m.service_function s.service_name (requested m r).1 argument)
          >>= λ outcome.
              modify (λ s. record s { response = default_to undefined outcome.0 }) >> pure outcome)
        s

  -- lines 568 to 619
  unfoldable pub check_transactions : Service → Step W (Unit {0})
  unfolding violation_of
  check_transactions service s =
      elim (violation_of
        (is_service_function_non_transactional m.function_annotations service.service_class
          (requested m r).1)
        (is_service_function_non_distributed_transactional m.function_annotations
          service.service_class (requested m r).1)
        s.session) [
          | none ↦ pure tt s
          | some v ↦ complain m (codes s.service_function_name ++ violation_message v) s
        ]

  unfoldable pub with_data_store : Service → Exec Failure Session (Unit {0}) → Step W (Unit {0})
  with_data_store service f = if service.has_data_store then on_session f else pure tt

  -- the `try` of lines 455 to 619
  unfoldable pub call_with_connection : Service → Option Service → Json → Step W (Option BackkError)
  unfolding with_data_store call_function check_transactions
  call_with_connection service user_service argument = do
    with_data_store service (try_reserve_db_connection_from_pool m.database)
    set_user_account_id m r service user_service
    outcome ← call_function argument
    with_data_store service (try_release_db_connection_back_to_pool m.database)
    check_transactions service
    pure outcome.1

  -- its `catch`
  unfoldable pub caught : Result Failure (Option BackkError) → Option BackkError
  caught (ok e) = e
  caught (err f) = some (create_backk_error_from_error m.process_env (to_error f))

  -- lines 445 to 625
  unfoldable pub call_in_namespace : Service → Option Service → Json → Step W (Option BackkError)
  unfolding enter_namespace leave_namespace call_with_connection caught
  call_in_namespace service user_service argument s =
      let c =
        call_with_connection service user_service argument
          (record s { session = enter_namespace s.session }) in
      (
        ok (caught c.0),
        record c.1 {
          session = leave_namespace s.session c.1.session;
          response = true_or_undefined c.1.response;
        },
      )

  -- lines 627 to 635
  unfoldable pub throw_counted : Option BackkError → Step W (Unit {0})
  throw_counted none s = pure tt s
  throw_counted (some e) s =
      if at_least e.status_code 500
      then throw (backk e) (record s { counted = s.counted ++ http_5xx_errors ∷ [] })
      else if at_least e.status_code 400
      then throw (backk e) (record s { counted = s.counted ++ http_client_errors ∷ [] })
      else throw (backk e) s
