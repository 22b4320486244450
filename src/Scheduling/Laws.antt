-- ===== src/Scheduling/Laws.antt =====
-- scheduling/scheduleCronJob.ts: what becomes of a job at its time.
use lrzwasnla.Common.{
  String, true, false, Option, none, some, List, [], ◌∷◌, ◌++◌, Text, ℤ, pos, ◌≡◌, refl, ap, sym,
  ◌∙◌, inl, inr,
}
use lrzwasnla.Common.Exec.{Result, ok, Exec, pure, ◌>>=◌, Result-cases}
use lrzwasnla.Errors.{Failure, Error, BackkError, Environment}
use lrzwasnla.Transactions.{
  Session, Database, ErrorOr, try_reserve_db_connection_from_pool, execute_inside_transaction,
}
use lrzwasnla.Deletion.Statements.{EntityContainer, Dialect}
use lrzwasnla.Deletion.ById.{delete_entity_by_id}
use lrzwasnla.Scheduling.{
  Scheduler, pair, is_found, job_table, destructured, or_execute, delete_job, job_executable,
  try_attempt, try_job, run_job, is_done, after_attempt,
}
use lrzwasnla.Scheduling.Loop.{find_async_sequential}

append_nil : {A : Type 0} (xs : List A) → xs ++ [] ≡ xs
append_nil [] = refl
append_nil (x ∷ xs) = ap (λ t. x ∷ t) (append_nil xs)

snoc_append : {A : Type 0} (xs : List A) (x : A) (ys : List A) → (xs ++ x ∷ []) ++ ys ≡ xs ++ x ∷ ys
snoc_append [] x ys = refl
snoc_append (z ∷ xs) x ys = ap (λ t. z ∷ t) (snoc_append xs x ys)

module _ {Job : Type 0} (db : Database) (env : Environment) (stack : Option Text)
    (dialect : Dialect) (container : EntityContainer)
    (get_entity_by_id : Text → Exec Failure Session (Result BackkError Job))
    (type_error : Error) where
  -- what is left of the executable
  abbrev only_delete : Text → Exec Failure Session (ErrorOr (Unit {0}))
  only_delete job_id s =
      (delete_entity_by_id db env stack dialect container get_entity_by_id job_id job_table
            (some (is_found ∷ [])) none false
          >>= λ error. pure (none, error))
        (record s { multiple_global_transaction = true })

  -- Behind whatever the deletion answers, the pair that it is in is returned.
  pair_is_returned :
      (m : Exec Failure Session (Option BackkError)) (call : Exec Failure Session (Unit {0}))
      (s : Session)
      → ((m >>= λ error. pure (pair (none, error)))
            >>= or_execute db env stack dialect container get_entity_by_id type_error call
            >>= destructured db env stack dialect container get_entity_by_id type_error)
          s
        ≡ (m >>= λ error. pure (none, error)) s
  unfolding or_execute destructured
  pair_is_returned m call s = elim (Result-cases (m s).0) [
    | inl (e, h) ↦ rw h refl
    | inr (f, h) ↦ rw h refl
  ]

  job_executable-only_delete :
      (call : Exec Failure Session (Unit {0})) (job_id : Text) (s : Session)
      → job_executable db env stack dialect container get_entity_by_id type_error call job_id s
        ≡ only_delete job_id s
  unfolding job_executable delete_job
  job_executable-only_delete call job_id s =
      pair_is_returned
        (delete_entity_by_id db env stack dialect container get_entity_by_id job_id job_table
          (some (is_found ∷ [])) none false)
        call (record s { multiple_global_transaction = true })

  try_attempt_calls_nothing :
      (call other : Exec Failure Session (Unit {0})) (job_id : Text)
      → try_attempt db env stack dialect container get_entity_by_id type_error call job_id
        ≡ try_attempt db env stack dialect container get_entity_by_id type_error other job_id
  unfolding try_attempt
  try_attempt_calls_nothing call other job_id =
      let e : job_executable db env stack dialect container get_entity_by_id type_error call job_id
          ≡ job_executable db env stack dialect container get_entity_by_id type_error other job_id =
        λ i s.
          (job_executable-only_delete call job_id s
              ∙ sym (job_executable-only_delete other job_id s))
            i in
      rw e refl

  -- At its time a job does the same, in every state, whatever the call of its service function
  -- would do: the call is never made.
  pub run_job_calls_nothing :
      (call other : Exec Failure Session (Unit {0})) (job_id : Text) (key : String)
      → (intervals : List (Option ℤ)) (s : Scheduler)
      → run_job db env stack dialect container get_entity_by_id type_error call job_id key intervals
          s
        ≡ run_job db env stack dialect container get_entity_by_id type_error other job_id key
            intervals s
  unfolding run_job try_job
  run_job_calls_nothing call other job_id key intervals s =
      ap
        (λ attempt.
          find_async_sequential (some (pos 0) ∷ intervals)
            (λ interval t. after_attempt db key interval (attempt t.session) t) s)
        (try_attempt_calls_nothing call other job_id)

  module _ (call : Exec Failure Session (Unit {0})) (job_id : Text) (key : String) where
    try_attempt_fails :
        (s : Session)
        → is_done
            (try_attempt db env stack dialect container get_entity_by_id type_error call job_id s).0
          ≡ false
    unfolding try_attempt
    try_attempt_fails s = elim (Result-cases (try_reserve_db_connection_from_pool db s).0) [
      | inr (f, h) ↦ rw h refl
      | inl (u, h) ↦
          rw h
            (elim (Result-cases
              (execute_inside_transaction db env
                (job_executable db env stack dialect container get_entity_by_id type_error call
                  job_id)
                (record (try_reserve_db_connection_from_pool db s).1 {
                  multiple_connection = true;
                })).0) [ inl (r, e) ↦ rw e refl | inr (f, e) ↦ rw e refl ])
    ]

    try_job_fails :
        (interval : Option ℤ) (s : Scheduler)
        → (t : Scheduler) × (try_job db env stack dialect container get_entity_by_id type_error call
              job_id key interval s
            ≡ (ok false, t))
          × (t.scheduled_cron_jobs ≡ s.scheduled_cron_jobs)
          × (t.waited ≡ s.waited ++ interval ∷ [])
    unfolding try_job after_attempt
    try_job_fails interval s =
        let r =
          try_attempt db env stack dialect container get_entity_by_id type_error call job_id
            s.session in
        (
          (after_attempt db key interval r s).1,
          ap (λ b. (ok b, (after_attempt db key interval r s).1)) (try_attempt_fails s.session),
          rw (try_attempt_fails s.session) refl,
          refl,
        )

    all_attempts_fail :
        (intervals : List (Option ℤ)) (s : Scheduler)
        → (t : Scheduler) × (find_async_sequential intervals
              (try_job db env stack dialect container get_entity_by_id type_error call job_id key)
              s
            ≡ (ok none, t))
          × (t.scheduled_cron_jobs ≡ s.scheduled_cron_jobs)
          × (t.waited ≡ s.waited ++ intervals)
    unfolding find_async_sequential
    all_attempts_fail [] s = (s, refl, refl, sym (append_nil s.waited))
    all_attempts_fail (interval ∷ rest) s =
        let (t, e, kept, waits) = try_job_fails interval s in
        let (u, e1, kept1, waits1) = all_attempts_fail rest t in
        (
          u,
          rw (e, find_async_sequential) e1,
          kept1 ∙ kept,
          waits1 ∙ (ap (λ w. w ++ rest) waits ∙ snoc_append s.waited interval rest),
        )

    -- At its time a job waits for each of its retry intervals, since no attempt counts as
    -- successful, and it stays among the scheduled jobs.
    pub run_job_never_succeeds :
        (intervals : List (Option ℤ)) (s : Scheduler)
        → (t : Scheduler) × (run_job db env stack dialect container get_entity_by_id type_error call
              job_id key intervals s
            ≡ (ok none, t))
          × (t.scheduled_cron_jobs ≡ s.scheduled_cron_jobs)
          × (t.waited ≡ s.waited ++ some (pos 0) ∷ intervals)
    unfolding run_job
    run_job_never_succeeds intervals s = all_attempts_fail (some (pos 0) ∷ intervals) s
