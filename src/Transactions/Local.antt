-- ===== src/Transactions/Local.antt =====
-- datastore/sql/operations/transaction/ and updateDbLocalTransactionCount.ts
use lrzwasnla.Common.{suc, Bool, true, false, not, ◌&&◌, if◌then◌else◌}
use lrzwasnla.Common.Exec.{Exec, pure, modify, ◌>>◌}
use lrzwasnla.Errors.{Failure}
use lrzwasnla.Transactions.{
  Session, Database, try_begin_transaction, try_commit_transaction, try_rollback_transaction,
}

abbrev pub is_outside_transaction : Session → Bool
is_outside_transaction s =
    not s.multiple_global_transaction && not s.global_transaction && not s.local_transaction

module _ (db : Database) where
  unfoldable pub start_local : Exec Failure Session Bool
  start_local = do
    try_begin_transaction db
    modify (λ s. record s {
      local_transaction = true;
      db_local_transaction_count = suc s.db_local_transaction_count;
    })
    pure true

  unfoldable pub try_start_local_transaction_if_needed : Exec Failure Session Bool
  unfolding start_local
  try_start_local_transaction_if_needed s =
      if is_outside_transaction s then start_local s else (pure false) s

  unfoldable pub try_commit_local_transaction_if_needed : Bool → Exec Failure Session (Unit {0})
  try_commit_local_transaction_if_needed true = try_commit_transaction db
  try_commit_local_transaction_if_needed false = pure tt

  unfoldable pub try_rollback_local_transaction_if_needed : Bool → Exec Failure Session (Unit {0})
  try_rollback_local_transaction_if_needed true = try_rollback_transaction db
  try_rollback_local_transaction_if_needed false = pure tt

-- A SQL data store has nothing more to clean up.
unfoldable pub cleanup_local_transaction_if_needed : Bool → Exec Failure Session (Unit {0})
cleanup_local_transaction_if_needed true = modify (λ s. record s { local_transaction = false })
cleanup_local_transaction_if_needed false = pure tt

unfoldable pub update_db_local_transaction_count : Exec Failure Session (Unit {0})
update_db_local_transaction_count s =
    if is_outside_transaction s
    then modify (λ t. record t { db_local_transaction_count = suc t.db_local_transaction_count }) s
    else pure tt s
