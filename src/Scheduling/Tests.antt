-- ===== src/Scheduling/Tests.antt =====
-- A job of the service function `reportService.send`, with two retries.
use lrzwasnla.Common.{
  ℕ, Bool, true, false, Option, none, some, List, [], ◌∷◌, codes, split, join, parse_decimal, ℤ,
  pos, negsuc, ◌≡◌, ◌↔◌, ◌==◌, refl, put, at,
}
use lrzwasnla.Common.Exec.{ok, Exec, pure, throw}
use lrzwasnla.Errors.{Failure, plain}
use lrzwasnla.Transactions.{
  Session, try_reserve_db_connection_from_pool, try_release_db_connection_back_to_pool,
}
use lrzwasnla.Transactions.Tests.{idle, willing, lost}
use lrzwasnla.Deletion.Tests.{container, dialect, env, lookup}
use lrzwasnla.Scheduling.{
  Scheduler, CronJob, schedule_cron_job, run_job, loaded_intervals, stored_intervals,
}
use lrzwasnla.Scheduling.Loop.{find_async_sequential, none_left, refused, find_async_sequential_iff}
use lrzwasnla.Scheduling.Loop
use lrzwasnla.Scheduling.Intervals.{loaded_intervals-stored_intervals}
use lrzwasnla.Execution.{Service}
use lrzwasnla.Execution.Names.{split_name, service_and_function, has_function}
use lrzwasnla.Scheduling.Submission.{
  Submission, ScheduledExecution, job_of, create, check, validate, check_function, check_seconds,
  create_inside_namespace, id_of_job, with_send, send_id, schedule_checked,
  try_schedule_job_execution,
}
use lrzwasnla.Scheduling.Laws.{run_job_calls_nothing, run_job_never_succeeds}

abbrev retries : List (Option ℤ)
retries = some (pos 1) ∷ some (pos 5) ∷ []

abbrev job : CronJob
job = record { service_function_name = "reportService.send"; retry_intervals_in_secs = retries }

abbrev scheduler : Scheduler
scheduler = record {
  session = idle;
  scheduled_cron_jobs = ("7", job) ∷ [];
  scheduled_jobs = none;
  waited = [];
  logged = 0;
}

abbrev calling : Exec Failure Session (Unit {0})
calling s = (ok tt, record s { remote_service_call_count = 1 })

abbrev failing : Exec Failure Session (Unit {0})
failing = throw (plain lost)

run_job_calls_nothing_example :
    run_job willing env none dialect container lookup lost calling (codes "7") "7" retries scheduler
    ≡ run_job willing env none dialect container lookup lost failing
        (codes "7")
        "7"
        retries
        scheduler
run_job_calls_nothing_example =
    run_job_calls_nothing willing env none dialect container lookup lost calling failing (codes "7")
      "7" retries scheduler

run_job_never_succeeds_example :
    (t : Scheduler) × (run_job willing env none dialect container lookup lost calling
        (codes "7")
        "7"
        retries
        scheduler
      ≡ (ok none, t))
    × (t.scheduled_cron_jobs ≡ ("7", job) ∷ [])
    × (t.waited ≡ some (pos 0) ∷ some (pos 1) ∷ some (pos 5) ∷ [])
run_job_never_succeeds_example =
    run_job_never_succeeds willing env none dialect container lookup lost calling (codes "7") "7"
      retries scheduler

loaded_intervals-stored_intervals_example :
    loaded_intervals (stored_intervals (pos 10 ∷ negsuc 4 ∷ []))
    ≡ some (pos 10) ∷ some (negsuc 4) ∷ []
loaded_intervals-stored_intervals_example =
    loaded_intervals-stored_intervals (pos 10) (negsuc 4 ∷ [])

-- A job without retry intervals is loaded as one with an interval that is no number.
no_intervals_are_one : loaded_intervals (stored_intervals []) ≡ none ∷ []
unfolding loaded_intervals stored_intervals join split parse_decimal
no_intervals_are_one = refl

abbrev is_even : ℕ → Exec Failure ℕ Bool
is_even n s = (ok (n == 0), ℕ.suc s)

find_async_sequential_iff_example :
    (find_async_sequential (3 ∷ 0 ∷ 5 ∷ []) is_even 0 ≡ (ok (some 0), 2))
    ↔ Loop.IsFirst is_even (3 ∷ 0 ∷ 5 ∷ []) 0 0 2
find_async_sequential_iff_example = find_async_sequential_iff is_even (3 ∷ 0 ∷ 5 ∷ []) 0 0 2

abbrev reports : Service
reports = record {
  service_class = record { name = "ReportService"; parents = [] };
  is_user_base_service = false;
  is_tenant_base_service = false;
  is_liveness_check_service = false;
  is_readiness_check_service = false;
  is_startup_check_service = false;
  is_audit_logging_service = false;
  authorization_service = none;
  response_cache_config_service = none;
  has_data_store = true;
  function_names = "send" ∷ [];
  function_name_to_return_type_name_map = ("send", "Report") ∷ [];
  function_name_to_param_type_name_map = [];
}

abbrev submission : Submission
submission = record {
  services = ("reportService", reports) ∷ [];
  env = env;
  stack = none;
  validation_errors = λ r. none;
  seconds_of = λ timestamp. some 0;
  create_job = λ name intervals timestamp argument. pure (some "8", none);
  database = willing;
  null_thrown = plain lost;
  text_of_name = codes;
  type_error = λ name. record { message = codes "TypeError"; stack = none };
}

abbrev request : ScheduledExecution
request = record {
  service_function_name = "reportService.send";
  scheduled_execution_timestamp = "2021-01-01T00:00:00Z";
  service_function_argument = [];
  retry_intervals_in_secs = pos 10 ∷ [];
}

abbrev scheduled : Scheduler
scheduled = record scheduler {
  scheduled_cron_jobs = put scheduler.scheduled_cron_jobs "8" (job_of submission request);
}

accepted :
    (try_schedule_job_execution submission (some with_send) request scheduler).0 ≡ ok (some "8")
unfolding try_schedule_job_execution schedule_checked send_id check validate check_function at
    service_and_function split_name has_function check_seconds create create_inside_namespace
    try_reserve_db_connection_from_pool try_release_db_connection_back_to_pool id_of_job
    schedule_cron_job
accepted = refl
