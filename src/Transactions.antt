-- ===== src/Transactions.antt =====
-- datastore/AbstractSqlDataStore.ts and datastore/sql/operations/transaction/: connections,
-- statements and transactions of one service function call, over a database that may refuse.
-- Logging and metrics are left out; `session` is a value of MongoDB only.
pub mod Local
pub mod Laws
pub mod Tests
use lrzwasnla.Common.{
  ℕ, String, suc, ◌+◌, ◌-◌, Bool, true, false, not, ◌&&◌, ◌||◌, Option, none, some, List, [], ◌∷◌,
  ◌++◌, Text, ℤ, ltb, if◌then◌else◌,
}
use lrzwasnla.Common.Exec.{Result, ok, err, Exec, pure, throw, lift, modify, ◌>>=◌, ◌>>◌}
use lrzwasnla.Errors.{
  Failure, backk, plain, Error, BackkError, Environment, create_backk_error_from_error,
}
use lrzwasnla.Authorization.{HeaderValue}

-- A value that is bound to a placeholder of a statement.
pub data Value : Type 0 where
  number : ℤ → Value
  text : String → Value

-- What is sent over the connection.
pub data Query : Type 0 where
  begin commit rollback : Query
  statement : (sql : Text) → (values : List Value) → Query

-- The values of the two continuation-local namespaces, `multiple_` for those of
-- 'multipleServiceFunctionExecutions'; the connections taken from the pool, and what was sent.
pub record Session : Type 0 where
  pub multiple_connection : Bool
  pub multiple_global_transaction : Bool
  pub connection : Bool
  pub global_transaction : Bool
  pub local_transaction : Bool
  pub db_local_transaction_count : ℕ
  pub remote_service_call_count : ℕ
  pub post_hook_remote_service_call_count : ℕ
  pub data_store_operation_after_remote_service_call : Bool
  pub user_account_id : Option String
  pub user_account_id_field_name : Option String
  pub is_inside_post_hook : Bool
  pub auth_header : Option HeaderValue
  pub borrowed : ℕ
  pub sent : List Query

-- `[result, error]`
abbrev pub ErrorOr {ℓ} : Type ℓ → Type ℓ
ErrorOr A = Option A × Option BackkError

-- The database's answer to a query after those that were sent before it: `some e` for a refusal;
-- the pool's answer to a request for a connection, by the number that is out.
pub record Database : Type 0 where
  pub refuses : List Query → Query → Option Error
  pub exhausted : ℕ → Option Error

-- What an error that was caught says of itself. A BackkError has no `stack`.
abbrev pub to_error : Failure → Error
to_error (plain e) = e
to_error (backk e) = record { message = e.message; stack = none }

abbrev Run : Type 0 → Type 0
Run = Exec Failure Session

abbrev pub accepted : Option Error → Result Failure (Unit {0})
accepted none = ok tt
accepted (some e) = err (plain e)

module _ (db : Database) where
  unfoldable pub send : Query → Run (Unit {0})
  send q s = (accepted (db.refuses s.sent q), record s { sent = s.sent ++ q ∷ [] })

  unfoldable pub try_begin_transaction : Run (Unit {0})
  try_begin_transaction = send begin

  unfoldable pub try_commit_transaction : Run (Unit {0})
  try_commit_transaction = send commit

  -- A refusal is only logged.
  unfoldable pub try_rollback_transaction : Run (Unit {0})
  unfolding send
  try_rollback_transaction s = (ok tt, (send rollback s).1)

  unfoldable pub execute_sql_or_throw : Text → List Value → Run (Unit {0})
  execute_sql_or_throw sql values s =
      if ltb 0 s.remote_service_call_count
      then send (statement sql values)
          (record s { data_store_operation_after_remote_service_call = true })
      else send (statement sql values) s

  unfoldable pub try_reserve_db_connection_from_pool : Run (Unit {0})
  try_reserve_db_connection_from_pool s =
      if s.multiple_connection then (ok tt, s) else (elim (db.exhausted s.borrowed) [
        | none ↦ (
          ok tt,
          record s {
            connection = true;
            local_transaction = false;
            global_transaction = false;
            borrowed = suc s.borrowed;
          },
        )
        | some e ↦ (err (plain e), s)
      ])

  -- `connection?.release()`: without a connection in the namespace nothing goes back.
  unfoldable pub try_release_db_connection_back_to_pool : Run (Unit {0})
  try_release_db_connection_back_to_pool s = if s.multiple_connection then (ok tt, s) else (
    ok tt,
    record s { connection = false; borrowed = if s.connection then s.borrowed - 1 else s.borrowed },
  )

  module _ {A : Type 0} (env : Environment) where
    -- The end of a transaction whose `executable` returned.
    pub finish_transaction : ErrorOr A → Run (ErrorOr A)
    finish_transaction (result, some error) s = (
      ok (result, some error),
      record (try_rollback_transaction s).1 { global_transaction = false },
    )
    finish_transaction (result, none) s = elim (try_commit_transaction s).0 [
      | ok _ ↦
          (ok (result, none), record (try_commit_transaction s).1 { global_transaction = false })
      | err f ↦ (
        ok (none, some (create_backk_error_from_error env (to_error f))),
        (try_commit_transaction s).1,
      )
    ]

    pub after_begin : Run (ErrorOr A) → Result Failure (Unit {0}) → Run (ErrorOr A)
    after_begin executable (err f) =
        pure (none, some (create_backk_error_from_error env (to_error f)))
    after_begin executable (ok _) = do outcome ← executable; finish_transaction outcome

    unfoldable pub execute_inside_transaction : Run (ErrorOr A) → Run (ErrorOr A)
    unfolding after_begin finish_transaction
    execute_inside_transaction executable s =
        if s.multiple_global_transaction
        then executable s
        else (let r = try_begin_transaction (record s { global_transaction = true }) in
            after_begin executable r.0 r.1)
