-- ===== src/Runs/Machine/Attempts.antt =====
-- The handlers of the anonymization and the edges of the abstract machine, with the attempts.
use pxc_anonymizer.Prelude.{
  ℕ, suc, ◌≤◌, ◌*◌, String, ◌≡◌, refl, inl, inr, Bool, ◌==◌, text_eq, Option, none, some, List, [],
  ◌∷◌, ltb, arith, eq_iff, if-cases,
}
use pxc_anonymizer.Errors.{Result, ok, err}
use pxc_anonymizer.Sql.{Io, then_with, pure}
use pxc_anonymizer.Schedule.Controller.{Requeue}
use pxc_anonymizer.Runs.{
  anonymizing, Progress, Attempt, Status, Run, Object, Content, Termination, Env, hour, expired,
  patch_run,
}
use pxc_anonymizer.Runs.Report.{run_report, terminations, sampled}
use pxc_anonymizer.Runs.Anonymization.{
  start_attempt, deleted_child, delete_owned, is_recorded, retried, retry_attempt, attempt_finished,
  report_seen, finish_attempt, pods_seen, with_job, watch_attempt, anonymize_with, anonymize_run,
}
use pxc_anonymizer.Runs.Machine.{
  IsLive, stay, backup, skip_backup, give_up, attempt_count, job_of, still, kept, IsLocked, Goes,
  Stays, quiet-Stays, if-Stays, Begins, Ends, then-Begins, patch_run-Saves, fail_run-Ends,
  then-Goes, quiet-Goes, if-Goes, patch_run-Goes, fail_run-Goes,
}

module _ {C K : Type 0} {E : Env C K} {stored : C → Status K} (L : IsLocked E stored)
    (limit : ℕ) where
  deleted_child-Stays :
      (o : Option (Object (Unit {0}))) (c : C) → Stays L limit c (deleted_child E o c)
  deleted_child-Stays none c = kept
  deleted_child-Stays (some o) c =
      if-Stays L limit o.is_owned _ _ c
        (λ owned.
          if-Stays L limit o.is_deleting _ _ c (λ gone. kept)
            (λ there.
              if-Stays L limit (o.uid == "") _ _ c (λ fresh. kept)
                (λ saved.
                  quiet-Stays L limit c (E.api.delete_object c o.uid) _ (L.by_delete c _)
                    (λ u d. kept))))
        (λ foreign. kept)

  pub delete_owned-Stays :
      (kind name : String) (c : C) → Stays L limit c (delete_owned E kind name c)
  unfolding delete_owned
  delete_owned-Stays kind name c =
      quiet-Stays L limit c (E.api.get_child c kind name) _ (L.by_child c kind name)
        deleted_child-Stays

  module _ (r : Run K) (here : r.status.phase ≡ anonymizing)
      (budget : r.spec.backoff_limit ≡ limit) where
    anonymizing-IsLive : IsLive r.status.phase
    anonymizing-IsLive = rw here tt

    -- A call that does not patch, and whose answer is passed on.
    quiet_call :
        {B D : Type 0} (q : Result B × C) (d : C) (x : D)
        → stored q.1 ≡ stored d
        → Ends (stored d) (stored (then_with {C = C} (λ b. pure x) q).1)
    quiet_call (ok b, c) d x e = rw e (stay (stored d).phase, refl, refl)
    quiet_call (err y, c) d x e = rw e (stay (stored d).phase, refl, refl)

    -- The first call for an attempt, where the attempt before has no job.
    start_attempt-Goes :
        (n : ℕ) (c : C)
        → n ≡ suc (attempt_count r.status.anonymize)
        → job_of r.status.anonymize ≡ ""
        → Goes L limit c (start_attempt E r n c)
    unfolding start_attempt
    start_attempt-Goes n c next idle =
        then-Begins L limit c (patch_run E r r.status _ 1 c) _
          (patch_run-Saves L limit r r.status _ 1 c (Begins limit) (λ s. (refl, inl (refl, refl)))
            (refl, inr (inl (next, idle, L.is_named r n))))
          (λ q d.
            if-cases (λ (x : Io C Requeue). Ends (stored d) (stored (x d).1))
              (E.rendering.has_job r)
              (λ rendered.
                quiet_call (E.api.create_child d "Job" (E.rendering.job_name r n)) d _
                  (L.by_create d _ _))
              (λ bad. fail_run-Ends L limit _ _ _ d (rw here tt)))

    module _ (saved : Attempt) (there : r.status.anonymize ≡ some saved) where
      retried-Goes :
          (a : Attempt) (message : String) (gone : Bool) (c : C)
          → a.attempts ≡ saved.attempts
          → saved.attempts ≤ limit
          → Goes L limit c (retried E r a message gone c)
      retried-Goes a message gone c same within =
          if-Goes L limit gone _ _ c
            (λ absent.
              patch_run-Goes L limit r r.status _ 1 c
                (stay r.status.phase, rw there (inr (inr (same, within, refl)))))
            (λ left. still)

      retry_attempt-Goes :
          (a : Attempt) (message : String) (c : C)
          → a.attempts ≡ saved.attempts
          → a.job_name ≡ saved.job_name
          → Goes L limit c (retry_attempt E r saved a message c)
      unfolding retry_attempt
      retry_attempt-Goes a message c same named =
          if-Goes L limit (ltb r.spec.backoff_limit a.attempts) _ _ c
            (λ spent.
              patch_run-Goes L limit r r.status _ 1 c
                (give_up r.status.phase anonymizing-IsLive, rw there (inl (same, named))))
            (λ left.
              if-Goes L limit (is_recorded E saved) _ _ c
                (λ recorded.
                  then-Goes L limit c (delete_owned E "Job" a.job_name c) _
                    (delete_owned-Stays "Job" a.job_name c)
                    (λ gone d. retried-Goes a message gone d same (ground arith)))
                (λ new.
                  patch_run-Goes L limit r r.status _ 1 c
                    (stay r.status.phase, rw there (inl (same, named)))))

      attempt_finished-Goes :
          (a : Attempt) (report : Content) (c : C)
          → a.attempts ≡ saved.attempts
          → a.job_name ≡ saved.job_name
          → Goes L limit c (attempt_finished E r saved a report c)
      unfolding attempt_finished
      attempt_finished-Goes a report c same named =
          if-Goes L limit (report.result == "error") _ _ c
            (λ error.
              if-Goes L limit (report.class == "transient") _ _ c
                (λ transient. retry_attempt-Goes a _ c same named)
                (λ absorbing.
                  patch_run-Goes L limit r r.status _ 1 c
                    (give_up r.status.phase anonymizing-IsLive, rw there (inl (same, named)))))
            (λ good.
              if-Goes L limit r.spec.dry_run _ _ c
                (λ dry.
                  patch_run-Goes L limit r r.status _ 1 c
                    (rw here skip_backup, rw there (inl (same, named))))
                (λ real.
                  patch_run-Goes L limit r r.status _ 1 c
                    (rw here backup, rw there (inl (same, named)))))

      report_seen-Goes : (o : Option Content) (c : C) → Goes L limit c (report_seen E r saved o c)
      report_seen-Goes none c = fail_run-Goes L limit r _ _ c anonymizing-IsLive
      report_seen-Goes (some report) c = attempt_finished-Goes _ report c refl refl

      finish_attempt-Goes :
          (t : Termination) (c : C) → Goes L limit c (finish_attempt E r saved t c)
      unfolding finish_attempt
      finish_attempt-Goes t c = report_seen-Goes (run_report t r.status.policy_hash) c

      pods_seen-Goes :
          (ended : Bool) (ts : List Termination) (p : Option Progress) (c : C)
          → Goes L limit c (pods_seen E r saved ended ts p c)
      pods_seen-Goes ended (t ∷ u ∷ more) p c = fail_run-Goes L limit r _ _ c anonymizing-IsLive
      pods_seen-Goes ended (t ∷ []) p c = finish_attempt-Goes t c
      pods_seen-Goes ended [] p c =
          if-Goes L limit ended _ _ c (λ over. fail_run-Goes L limit r _ _ c anonymizing-IsLive)
            (λ running.
              patch_run-Goes L limit r r.status _ _ c
                (stay r.status.phase, rw there (inl (refl, refl))))

      with_job-Goes :
          (o : Option (Object (Unit {0}))) (c : C) → Goes L limit c (with_job E r saved o c)
      with_job-Goes none c = fail_run-Goes L limit r _ _ c anonymizing-IsLive
      with_job-Goes (some o) c =
          if-Goes L limit o.is_owned _ _ c
            (λ owned.
              quiet-Goes L limit c (E.api.list_pods c saved.job_name) _ (L.by_pods c _) (λ pods d.
                pods_seen-Goes (E.api.job_has_ended d saved.job_name) (terminations pods)
                  (sampled saved.progress pods) d))
            (λ foreign. still)

      watch_attempt-Goes : (c : C) → Goes L limit c (watch_attempt E r saved c)
      unfolding watch_attempt
      watch_attempt-Goes c =
          if-Goes L limit (is_recorded E saved) _ _ c
            (λ recorded. retry_attempt-Goes saved _ c refl refl)
            (λ running.
              if-Goes L limit (expired E.now saved.started_at r.spec.anonymize (6 * hour)) _ _ c
                (λ late. fail_run-Goes L limit r _ _ c anonymizing-IsLive)
                (λ early.
                  if-Goes L limit (E.rendering.has_job r) _ _ c
                    (λ rendered.
                      quiet-Goes L limit c (E.api.get_child c "Job" saved.job_name) _
                        (L.by_child c _ _) with_job-Goes)
                    (λ bad. fail_run-Goes L limit r _ _ c anonymizing-IsLive)))

    anonymize_with-Goes :
        (o : Option Attempt) (c : C)
        → r.status.anonymize ≡ o
        → Goes L limit c (anonymize_with E r o c)
    anonymize_with-Goes none c there = start_attempt-Goes 1 c (rw there refl) (rw there refl)
    anonymize_with-Goes (some a) c there =
        if-Goes L limit (a.job_name == "") _ _ c
          (λ idle.
            start_attempt-Goes (suc a.attempts) c (rw there refl)
              (rw there ((eq_iff a.job_name "").0 idle)))
          (λ busy. watch_attempt-Goes a there c)

    pub anonymize_run-Goes : (c : C) → Goes L limit c (anonymize_run E r c)
    unfolding anonymize_run
    anonymize_run-Goes c = anonymize_with-Goes r.status.anonymize c refl
