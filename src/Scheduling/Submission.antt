-- ===== src/Scheduling/Submission.antt =====
-- scheduling/tryScheduleJobExecution.ts: a request to execute a service function later.
use lrzwasnla.Common.{
  ℕ, String, Bool, false, Option, none, some, List, ◌++◌, Text, codes, Dict, at, ℤ, map, ◌==◌,
  if◌then◌else◌,
}
use lrzwasnla.Common.Exec.{Result, ok, err, Exec, pure, lift, ◌>>=◌, ◌>>◌}
use lrzwasnla.Errors.{
  Failure, plain, backk, Error, Environment, create_error_from_error_code_message_and_status,
  create_backk_error_from_error_code_message_and_status,
}
use lrzwasnla.Errors.Messages.{invalid_argument, unknown_service, unknown_service_function}
use lrzwasnla.Execution.{Service}
use lrzwasnla.Execution.Names.{split_name, service_and_function, has_function}
use lrzwasnla.Transactions.{
  Session, Database, ErrorOr, try_reserve_db_connection_from_pool,
  try_release_db_connection_back_to_pool,
}
use lrzwasnla.Scheduling.{CronJob, Scheduler, schedule_cron_job, stored_intervals, leave_namespace}

-- The argument of the request; of `serviceFunctionArgument` the text that is stored.
pub record ScheduledExecution : Type 0 where
  pub service_function_name : String
  pub scheduled_execution_timestamp : String
  pub service_function_argument : Text
  pub retry_intervals_in_secs : List ℤ

-- The microservice with its validation, the seconds of a time stamp (`none` for one that is no
-- time), and the creation of the entity of a job, which answers its `_id`.
pub record Submission : Type 0 where
  pub services : Dict Service
  pub env : Environment
  pub stack : Option Text
  pub validation_errors : ScheduledExecution → Option Text
  pub seconds_of : String → Option ℕ
  pub create_job :
      (service_function_name : String)
      → (retry_intervals_in_secs : Text) → (timestamp : String) → (argument : Text)
      → Exec Failure Session (ErrorOr String)
  pub database : Database
  pub null_thrown : Failure
  pub text_of_name : String → Text
  pub type_error : String → Error

-- The `resp` of a call, by whether it has a method `send`. That of Node's servers has none, and
-- neither has the BackkResponse of the repository.
pub data Response : Type 0 where
  with_send without_send : Response

abbrev Run : Type 0 → Type 0
Run = Exec Failure Session

module _ (m : Submission) where
  abbrev pub refusal : Text → Failure
  refusal text = backk (
      create_backk_error_from_error_code_message_and_status m.env m.stack
        (record invalid_argument { message = invalid_argument.message ++ text }))

  -- lines 24 to 36
  unfoldable pub validate : ScheduledExecution → Result Failure (Unit {0})
  validate r = elim (m.validation_errors r) [ none ↦ ok tt | some errors ↦ err (refusal errors) ]

  abbrev pub names : ScheduledExecution → String × String
  names r = service_and_function (split_name r.service_function_name)

  -- lines 50 to 67
  unfoldable pub check_function : ScheduledExecution → Result Failure (Unit {0})
  check_function r = elim (at m.services (names r).0) [
    | none ↦ err (
        plain (
          create_error_from_error_code_message_and_status m.stack (record unknown_service {
            message = unknown_service.message ++ m.text_of_name (names r).0;
          })))
    | some service ↦
        if has_function service (names r).1
        then ok tt
        else err (
            plain (
              create_error_from_error_code_message_and_status m.stack
                (record unknown_service_function {
                  message =
                      unknown_service_function.message ++ m.text_of_name r.service_function_name;
                })))
  ]

  -- `getSeconds() !== 0`; the seconds of no time are `NaN`
  abbrev pub is_whole_minute : Option ℕ → Bool
  is_whole_minute none = false
  is_whole_minute (some n) = n == 0

  -- lines 71 to 78
  unfoldable pub check_seconds : ScheduledExecution → Result Failure (Unit {0})
  check_seconds r =
      if is_whole_minute (m.seconds_of r.scheduled_execution_timestamp)
      then ok tt
      else err (refusal (codes "Seconds in 'scheduledExecutionTimestamp' must be zero"))

  -- lines 86 to 97
  unfoldable pub create_inside_namespace : ScheduledExecution → Run (ErrorOr String)
  create_inside_namespace r = do
    try_reserve_db_connection_from_pool m.database
    created ←
        m.create_job r.service_function_name (stored_intervals r.retry_intervals_in_secs)
          r.scheduled_execution_timestamp r.service_function_argument
    try_release_db_connection_back_to_pool m.database
    pure created

  -- `if (!entity) throw error`
  unfoldable pub id_of_job : ErrorOr String → Result Failure String
  id_of_job (some id, error) = ok id
  id_of_job (none, some error) = err (backk error)
  id_of_job (none, none) = err m.null_thrown

  -- `runAndReturn` around the creation, and the session behind it
  unfoldable pub create : ScheduledExecution → Exec Failure Scheduler (ErrorOr String)
  create r s =
      let c = create_inside_namespace r s.session in
      (c.0, record s { session = leave_namespace s.session c.1 })

  -- the checks, lines 24 to 78
  unfoldable pub check : ScheduledExecution → Result Failure (Unit {0})
  check r = elim (validate r) [
    | err e ↦ err e
    | ok u ↦ elim (check_function r) [ err e ↦ err e | ok v ↦ check_seconds r ]
  ]

  abbrev pub job_of : ScheduledExecution → CronJob
  job_of r = record {
    service_function_name = r.service_function_name;
    retry_intervals_in_secs = map some r.retry_intervals_in_secs;
  }

  -- lines 24 to 113
  unfoldable pub schedule_checked : ScheduledExecution → Exec Failure Scheduler String
  schedule_checked r = do
    checked ← lift (check r)
    created ← create r
    id ← lift (id_of_job created)
    scheduled ← schedule_cron_job id (job_of r)
    pure id

  -- `resp?.send({ jobId })`
  unfoldable pub send_id : Option Response → String → Result Failure (Option String)
  send_id none id = ok none
  send_id (some without_send) id = err (plain (m.type_error "send"))
  send_id (some with_send) id = ok (some id)

  -- What is returned is the `jobId` that is sent, if one is.
  unfoldable pub try_schedule_job_execution :
      Option Response → ScheduledExecution → Exec Failure Scheduler (Option String)
  try_schedule_job_execution resp r = schedule_checked r >>= λ id. lift (send_id resp id)
