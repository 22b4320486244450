-- ===== src/Scheduling.antt =====
-- scheduling/scheduleCronJob.ts and scheduleJobsForExecution.ts, with utils/findAsyncSequential.ts: a
-- service function that is to be executed later, once, with retries.
pub mod Loop
pub mod Intervals
pub mod Submission
pub mod Accepted
pub mod Laws
pub mod Tests
use lrzwasnla.Common.{
  ℕ, String, Bool, true, false, not, Option, none, some, List, [], ◌∷◌, ◌++◌, Text, codes, split,
  join, Dict, put, ℤ, pos, show_ℤ, parse_decimal, map, is_defined, ◌===◌, if◌then◌else◌,
}
use lrzwasnla.Common.Exec.{Result, ok, err, Exec, pure, throw, lift, modify, ◌>>=◌, ◌>>◌}
use lrzwasnla.Errors.{Failure, plain, Error, BackkError, Environment}
use lrzwasnla.Transactions.{
  Session, Database, ErrorOr, try_reserve_db_connection_from_pool,
  try_release_db_connection_back_to_pool, execute_inside_transaction,
}
use lrzwasnla.Hooks.{PreHook, HookResult}
use lrzwasnla.Deletion.Statements.{EntityContainer, Dialect}
use lrzwasnla.Deletion.ById.{delete_entity_by_id}
use Loop.{find_async_sequential}

-- What is remembered of a job that waits, less its time.
pub record CronJob : Type 0 where
  pub service_function_name : String
  pub retry_intervals_in_secs : List (Option ℤ)

-- A job as it is stored, less its time and its argument.
pub record JobScheduling : Type 0 where
  pub id : String
  pub service_function_name : String
  pub retry_intervals_in_secs : Text

-- The session, `scheduledJobs` of scheduleCronJob.ts and of scheduleJobsForExecution.ts, the waits,
-- and how often an error was logged. An interval that is no number is `none`.
pub record Scheduler : Type 0 where
  pub session : Session
  pub scheduled_cron_jobs : Dict CronJob
  pub scheduled_jobs : Option (List JobScheduling)
  pub waited : List (Option ℤ)
  pub logged : ℕ

-- What an `async` function returned, as far as its truth goes: `[result, error]` or `undefined`.
pub data Returned : Type 0 where
  pair : ErrorOr (Unit {0}) → Returned
  undefined : Returned

abbrev pub is_truthy_returned : Returned → Bool
is_truthy_returned (pair r) = true
is_truthy_returned undefined = false

-- `delete object[key]`
unfoldable pub remove : {A : Type 0} → Dict A → String → Dict A
remove [] key = []
remove ((other, a) ∷ rest) key = if other === key then rest else (other, a) ∷ remove rest key

abbrev Run : Type 0 → Type 0
Run = Exec Failure Session

-- The hook of the deletion, `!!jobScheduling`, of a job that the lookup found.
abbrev pub is_found : {Job : Type 0} → PreHook Job
is_found = record {
  execute_pre_hook_if = none;
  should_succeed_or_be_true = λ job. pure (HookResult.boolean true);
  error = none;
}

abbrev pub job_table : Text
job_table = codes "__Backk__JobScheduling"

-- `runAndReturn` in both namespaces: their values are left as they were before
unfoldable pub leave_namespaces : (before after : Session) → Session
leave_namespaces before after = record before { borrowed = after.borrowed; sent = after.sent }

-- the `finally` of scheduleCronJob.ts
unfoldable pub clean_up : Database → Run (Unit {0})
clean_up db = do
  try_release_db_connection_back_to_pool db
  modify (λ s. record s { multiple_connection = false })

abbrev pub is_done : Result Failure Bool → Bool
is_done (ok b) = b
is_done (err e) = false

abbrev pub logs : Result Failure Bool → ℕ → ℕ
logs (ok b) n = n
logs (err e) n = ℕ.suc n

-- lines 55 to 66 of scheduleCronJob.ts, with the wait that went before
unfoldable pub after_attempt :
    Database → String → Option ℤ → Result Failure Bool × Session → Exec Failure Scheduler Bool
after_attempt db key interval (r, after) s = (
  ok (is_done r),
  record s {
    session = leave_namespaces s.session (clean_up db after).1;
    scheduled_cron_jobs =
        if is_done r then remove s.scheduled_cron_jobs key else s.scheduled_cron_jobs;
    waited = s.waited ++ interval ∷ [];
    logged = logs r s.logged;
  },
)

module _ {Job : Type 0} (db : Database) (env : Environment) (stack : Option Text)
    (dialect : Dialect) (container : EntityContainer)
    (get_entity_by_id : Text → Exec Failure Session (Result BackkError Job))
    (type_error : Error) where
  -- `[result, error] = await executable()`
  unfoldable pub destructured : Returned → Run (ErrorOr (Unit {0}))
  destructured (pair r) = pure r
  destructured undefined = throw (plain type_error)

  -- `possibleErrorResponse || tryExecuteServiceMethod(…)`, which returns `undefined`
  unfoldable pub or_execute : Run (Unit {0}) → Returned → Run Returned
  or_execute try_execute_service_method (pair r) = pure (pair r)
  or_execute try_execute_service_method undefined = try_execute_service_method >> pure undefined

  -- `dataStore.deleteEntityById(…)`: `[null, null]` or `[null, error]`
  unfoldable pub delete_job : Text → Run Returned
  delete_job job_id =
      delete_entity_by_id db env stack dialect container get_entity_by_id job_id job_table
        (some (is_found ∷ [])) none false
      >>= λ error. pure (pair (none, error))

  -- lines 33 to 52
  unfoldable pub job_executable : Run (Unit {0}) → Text → Run (ErrorOr (Unit {0}))
  job_executable try_execute_service_method job_id =
      modify (λ s. record s { multiple_global_transaction = true })
      >> (delete_job job_id >>= or_execute try_execute_service_method)
      >>= destructured

  -- the `try`: whether `possibleErrorResponse` is no object
  unfoldable pub try_attempt : Run (Unit {0}) → Text → Run Bool
  try_attempt try_execute_service_method job_id = do
    try_reserve_db_connection_from_pool db
    modify (λ s. record s { multiple_connection = true })
    r ← execute_inside_transaction db env (job_executable try_execute_service_method job_id)
    modify (λ s. record s { multiple_global_transaction = true })
    pure (not (is_truthy_returned (pair r)))

  -- lines 24 to 68: a wait, and one attempt
  unfoldable pub try_job : Run (Unit {0}) → Text → String → Option ℤ → Exec Failure Scheduler Bool
  try_job try_execute_service_method job_id key interval s =
      after_attempt db key interval (try_attempt try_execute_service_method job_id s.session) s

  -- what the CronJob does at its time: lines 25 to 69
  unfoldable pub run_job :
      Run (Unit {0}) → Text → String → List (Option ℤ) → Exec Failure Scheduler (Option (Option ℤ))
  run_job try_execute_service_method job_id key intervals =
      find_async_sequential (some (pos 0) ∷ intervals)
        (try_job try_execute_service_method job_id key)

-- lines 72 to 73
unfoldable pub schedule_cron_job : String → CronJob → Exec Failure Scheduler (Unit {0})
schedule_cron_job job_id job =
    modify (λ s. record s { scheduled_cron_jobs = put s.scheduled_cron_jobs job_id job })

-- `retryIntervalsInSecs.join(',')`, as tryScheduleJobExecution.ts stores them
unfoldable pub stored_intervals : List ℤ → Text
stored_intervals intervals = join (map show_ℤ intervals) (codes ",")

-- `retryIntervalsInSecs.split(',').map(…)`
unfoldable pub loaded_intervals : Text → List (Option ℤ)
loaded_intervals s = map parse_decimal (split s 44)

-- The namespace of one service function call is left as it was before.
unfoldable pub leave_namespace : (before after : Session) → Session
leave_namespace before after = record before {
  multiple_connection = after.multiple_connection;
  multiple_global_transaction = after.multiple_global_transaction;
  borrowed = after.borrowed;
  sent = after.sent;
}

module _ (db : Database) (get_all_entities : Run (Option (List JobScheduling))) where
  -- the `try` of scheduleJobsForExecution.ts
  unfoldable pub load_jobs : Run (Option (List JobScheduling))
  load_jobs = do
    try_reserve_db_connection_from_pool db
    jobs ← get_all_entities
    try_release_db_connection_back_to_pool db
    pure jobs

  abbrev pub loaded :
      Result Failure (Option (List JobScheduling))
      → Option (List JobScheduling)
      → Option (List JobScheduling)
  loaded (ok jobs) before = jobs
  loaded (err e) before = before

  -- lines 22 to 39: an error is dropped
  unfoldable pub try_load : Option ℤ → Exec Failure Scheduler Bool
  try_load interval s =
      let r = load_jobs s.session in
      (
        ok (is_defined (loaded r.0 s.scheduled_jobs)),
        record s {
          session = leave_namespace s.session r.1;
          scheduled_jobs = loaded r.0 s.scheduled_jobs;
          waited = s.waited ++ interval ∷ [];
        },
      )

  abbrev pub load_delays : List (Option ℤ)
  load_delays = map (λ n. some (pos n)) (0 ∷ 1 ∷ 2 ∷ 5 ∷ 10 ∷ 30 ∷ 60 ∷ 120 ∷ 300 ∷ 600 ∷ [])

  -- lines 46 to 67
  unfoldable pub schedule_jobs : List JobScheduling → Exec Failure Scheduler (Unit {0})
  schedule_jobs [] = pure tt
  schedule_jobs (job ∷ rest) =
      schedule_cron_job job.id (record {
        service_function_name = job.service_function_name;
        retry_intervals_in_secs = loaded_intervals job.retry_intervals_in_secs;
      })
      >> schedule_jobs rest

  -- lines 41 to 69
  unfoldable pub finish_loading : Option (List JobScheduling) → Exec Failure Scheduler Bool
  finish_loading none = modify (λ s. record s { logged = ℕ.suc s.logged }) >> pure false
  finish_loading (some jobs) = schedule_jobs jobs >> pure true

  unfoldable pub schedule_jobs_for_execution : Bool → Exec Failure Scheduler Bool
  schedule_jobs_for_execution has_controller =
      if has_controller
      then find_async_sequential load_delays try_load >> (λ s. finish_loading s.scheduled_jobs s)
      else pure false
