-- ===== src/Execution/Checks.antt =====
-- Which uses of the database and of remote services a service function is allowed.
use lrzwasnla.Common.{◌≡◌, ◌⊎◌, ◌≤◌, ◌+◌, false}
use lrzwasnla.Transactions.{Session}

-- One operation or one remote call, or several remote calls.
abbrev pub AtomicEnough : Session → Type 0
AtomicEnough t =
    (t.db_local_transaction_count + t.remote_service_call_count ≤ 1)
    ⊎ (2 ≤ t.remote_service_call_count)

-- One remote call at most, which no operation follows.
abbrev pub NotDistributed : Session → Type 0
NotDistributed t =
    (t.remote_service_call_count ≤ 1)
    × (t.post_hook_remote_service_call_count ≤ 1)
    × (t.data_store_operation_after_remote_service_call ≡ false)
