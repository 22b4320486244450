-- ===== src/Scheduling/Accepted.antt =====
-- scheduling/tryScheduleJobExecution.ts: which requests are accepted, and what they leave.
use lrzwasnla.Common.{String, true, Option, none, some, at, ◌≡◌}
use lrzwasnla.Common.Exec.{Exec, pure, lift, ◌>>=◌}
use lrzwasnla.Errors.{Failure}
use lrzwasnla.Execution.{Service}
use lrzwasnla.Execution.Names.{has_function}
use lrzwasnla.Transactions.{ErrorOr}
use lrzwasnla.Scheduling.{Scheduler, schedule_cron_job}
use lrzwasnla.Scheduling.Submission.{
  Submission, ScheduledExecution, names, id_of_job, job_of, Response, with_send, without_send,
}

module _ (m : Submission) (r : ScheduledExecution) where
  -- The request is valid, names a function that the microservice has, and is for a whole minute.
  abbrev pub IsAcceptable : Type 0
  IsAcceptable =
      (m.validation_errors r ≡ none)
      × ((service : Service) × (at m.services (names m r).0 ≡ some service)
          × (has_function service (names m r).1 ≡ true))
      × (m.seconds_of r.scheduled_execution_timestamp ≡ some 0)

  -- what follows the creation
  abbrev schedule : ErrorOr String → Exec Failure Scheduler String
  schedule created =
      lift (id_of_job m created) >>= λ id. schedule_cron_job id (job_of m r) >>= λ done. pure id

  -- What the answer is, where there is one.
  abbrev pub IsAnswered : Option Response → String → Option String → Type 0
  IsAnswered none id answer = answer ≡ none
  IsAnswered (some with_send) id answer = answer ≡ some id
  IsAnswered (some without_send) id answer = ⊥
