-- ===== src/Runs/Anonymization.antt =====
-- The attempts of the runner: anonymizeRun, finishRunAttempt and retryRunAttempt
-- (internal/controller/anonymizationrun_controller.go).
use pxc_anonymizer.Prelude.{
  ℕ, suc, ◌*◌, String, ◌<>◌, Bool, true, false, ◌==◌, text_eq, nat_eq, Option, none, some, List, [],
  ◌∷◌, ltb, if◌then◌else◌,
}
use pxc_anonymizer.Errors.{plain}
use pxc_anonymizer.Sql.{Io, ◌>>=◌, ◌>>◌, pure, fail}
use pxc_anonymizer.Schedule.Controller.{Requeue, after}
use pxc_anonymizer.Runs.{
  backing_up, cleaning_up, Verdict, Progress, Attempt, Status, Run, Object, Content, Termination,
  Env, hour, poll, expired, delay, set, observed, patch_run, mark_failed, fail_run,
}
use pxc_anonymizer.Runs.Report.{run_report, report_reason, terminations, sampled}
use pxc_anonymizer.Runs.Pipeline.{with_status}

module _ {C K : Type 0} (E : Env C K) where
  abbrev pub with_attempt : Status K → Attempt → Status K
  with_attempt s a = record s { anonymize = some a }

  -- The first call for an attempt: its number is saved before its job is created.
  unfoldable pub start_attempt : Run K → ℕ → Io C Requeue
  start_attempt r n =
      let name = E.rendering.job_name r n in
      let begun = with_attempt r.status (record {
        attempts = n;
        job_name = name;
        started_at = some E.now;
        completed_at = none;
        last_result = none;
        progress = none;
      }) in
      do
        patched ← patch_run E r r.status begun 1
        if E.rendering.has_job r
            then (do λ c. E.api.create_child c "Job" name; pure (after poll))
            else fail_run E (with_status E r (observed E r begun)) "Anonymized" "PolicyError"

  -- `deleteRunOwned` on what was read: whether the child is gone.
  abbrev pub deleted_child : Option (Object (Unit {0})) → Io C Bool
  deleted_child none = pure true
  deleted_child (some o) =
      if o.is_owned
      then (if o.is_deleting
          then pure false
          else if o.uid == ""
          then fail (plain "owned child must have a persisted UID before deletion")
          else (do λ c. E.api.delete_object c o.uid; pure false))
      else fail (plain "refusing foreign child")

  unfoldable pub delete_owned : String → String → Io C Bool
  delete_owned kind name = do found ← λ c. E.api.get_child c kind name; deleted_child found

  abbrev pub transient_verdict : String → Verdict
  transient_verdict message = record { class = "transient"; message = message }

  -- The attempt's end and its transient result are in the saved status.
  abbrev pub is_recorded : Attempt → Bool
  is_recorded a = elim a.completed_at [
    | none ↦ false
    | some t ↦ elim a.last_result [ none ↦ false | some v ↦ v.class == "transient" ]
  ]

  abbrev pub retried : Run K → Attempt → String → Bool → Io C Requeue
  retried r a message gone =
      if gone
      then patch_run E r r.status
          (with_attempt r.status
            (record a { job_name = ""; last_result = some (transient_verdict message) }))
          1
      else pure (after poll)

  -- `retryRunAttempt`, on the saved attempt and on the one that its last report left.
  unfoldable pub retry_attempt : Run K → Attempt → Attempt → String → Io C Requeue
  retry_attempt r saved a message =
      if ltb r.spec.backoff_limit a.attempts
      then patch_run E r r.status
          (mark_failed E r "Anonymized" "RetryBudgetExhausted" (with_attempt r.status a)) 1
      else if is_recorded saved
      then (do gone ← delete_owned "Job" a.job_name; retried r a message gone)
      else patch_run E r r.status
          (with_attempt r.status (record a {
            completed_at = some E.now;
            last_result = some (transient_verdict message);
          }))
          1

  -- The rest of `finishRunAttempt`, on a valid report.
  unfoldable pub attempt_finished : Run K → Attempt → Attempt → Content → Io C Requeue
  attempt_finished r saved a report =
      let s = with_attempt r.status a in
      if report.result == "error"
      then (if report.class == "transient"
          then retry_attempt r saved a "the runner reported a transient failure"
          else patch_run E r r.status (mark_failed E r "Anonymized" (report_reason report.class) s)
              1)
      else if r.spec.dry_run
      then patch_run E r r.status
          (set E r "Anonymized" true "DryRun" (
            set E r "Published" true "Skipped"
              (set E r "BackedUp" false "Running" (record s { phase = cleaning_up }))))
          1
      else patch_run E r r.status
          (set E r "Anonymized" true "Succeeded"
            (set E r "BackedUp" false "Running" (record s { phase = backing_up })))
          1

  abbrev pub progress_of : Content → Progress
  progress_of report = record {
    tables_total = report.tables_total;
    tables_done = report.tables_done;
    rows_done = report.rows_done;
    steps_done = report.steps_done;
  }

  abbrev pub report_seen : Run K → Attempt → Option Content → Io C Requeue
  report_seen r saved none = fail_run E r "Anonymized" "RunnerFailed"
  report_seen r saved (some report) =
      attempt_finished r saved
        (record saved {
          completed_at = some E.now;
          last_result =
              some (record { class = report.class; message = "runner reported " <> report.result });
          progress = some (progress_of report);
        })
        report

  -- `finishRunAttempt`.
  unfoldable pub finish_attempt : Run K → Attempt → Termination → Io C Requeue
  finish_attempt r saved t = report_seen r saved (run_report t r.status.policy_hash)

  -- The pods of the job. What `failRun` sends does not hold the progress that was sampled.
  abbrev pub pods_seen : Run K → Attempt → Bool → List Termination → Option Progress → Io C Requeue
  pods_seen r a ended (t ∷ u ∷ more) progress = fail_run E r "Anonymized" "RunnerFailed"
  pods_seen r a ended (t ∷ []) progress = finish_attempt r a t
  pods_seen r a ended [] progress =
      if ended
      then fail_run E r "Anonymized" "RunnerFailed"
      else patch_run E r r.status (with_attempt r.status (record a { progress = progress }))
          (delay E.now a.started_at r.spec.anonymize (6 * hour))

  abbrev pub with_job : Run K → Attempt → Option (Object (Unit {0})) → Io C Requeue
  with_job r a none = fail_run E r "Anonymized" "RunnerFailed"
  with_job r a (some o) =
      if o.is_owned
      then (do
        pods ← λ c. E.api.list_pods c a.job_name
        λ c.
            pods_seen r a (E.api.job_has_ended c a.job_name) (terminations pods)
              (sampled a.progress pods) c)
      else fail (plain "refusing foreign child")

  -- The rest of `anonymizeRun`, on an attempt that has a job.
  unfoldable pub watch_attempt : Run K → Attempt → Io C Requeue
  watch_attempt r a =
      if is_recorded a
      then retry_attempt r a a (elim a.last_result [ none ↦ "" | some v ↦ v.message ])
      else if expired E.now a.started_at r.spec.anonymize (6 * hour)
      then fail_run E r "Anonymized" "Timeout"
      else if E.rendering.has_job r
      then (do found ← λ c. E.api.get_child c "Job" a.job_name; with_job r a found)
      else fail_run E r "Anonymized" "PolicyError"

  abbrev pub anonymize_with : Run K → Option Attempt → Io C Requeue
  anonymize_with r none = start_attempt r 1
  anonymize_with r (some a) =
      if a.job_name == "" then start_attempt r (suc a.attempts) else watch_attempt r a

  -- `anonymizeRun`.
  unfoldable pub anonymize_run : Run K → Io C Requeue
  anonymize_run r = anonymize_with r r.status.anonymize
