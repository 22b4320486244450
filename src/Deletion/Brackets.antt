-- ===== src/Deletion/Brackets.antt =====
-- The local transaction around an operation on a SQL data store: what the operations of
-- datastore/sql/operations/dml/ do in `try`, `catch` and `finally` around their own work.
pub mod Laws
use lrzwasnla.Common.{Bool, true, false, Option, none, some}
use lrzwasnla.Common.Exec.{Result, ok, err, Exec, pure, ◌>>=◌, ◌>>◌}
use lrzwasnla.Errors.{Failure, BackkError}
use lrzwasnla.Transactions.{Session, Database}
use lrzwasnla.Transactions.Local.{
  try_start_local_transaction_if_needed, try_commit_local_transaction_if_needed,
  try_rollback_local_transaction_if_needed, cleanup_local_transaction_if_needed,
}

module _ (db : Database) (to_backk_error : Failure → BackkError) where
  -- `return [null, null]`, or the `catch`; then the `finally`
  unfoldable pub leave : Bool → Result Failure (Unit {0}) → Exec Failure Session (Option BackkError)
  leave did_start_transaction (ok _) = do
    cleanup_local_transaction_if_needed did_start_transaction
    pure none
  leave did_start_transaction (err f) = do
    try_rollback_local_transaction_if_needed db did_start_transaction
    cleanup_local_transaction_if_needed did_start_transaction
    pure (some (to_backk_error f))

  unfoldable pub inside_local_transaction :
      Exec Failure Session (Unit {0}) → Exec Failure Session (Option BackkError)
  unfolding try_start_local_transaction_if_needed
  inside_local_transaction work s =
      let started = try_start_local_transaction_if_needed db s in
      elim started.0 [
        | err f ↦ leave false (err f) started.1
        | ok did_start_transaction ↦
            let r =
              (work >> try_commit_local_transaction_if_needed db did_start_transaction) started.1 in
            leave did_start_transaction r.0 r.1
      ]
