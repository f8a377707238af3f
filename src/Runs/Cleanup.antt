-- ===== src/Runs/Cleanup.antt =====
-- The end of a run: cleanupRunCluster and cleanupRun (internal/controller/run_resources.go), finishRun,
-- and the dispatch of reconcileRun (internal/controller/anonymizationrun_controller.go).
use pxc_anonymizer.Prelude.{
  ℕ, ◌+◌, ◌-◌, String, Bool, true, false, ◌&&◌, ◌||◌, ◌==◌, ◌/=◌, text_eq, nat_eq, Option, none,
  some, ltb, if◌then◌else◌,
}
use pxc_anonymizer.Errors.{plain, Result, ok, err}
use pxc_anonymizer.Sql.{Io, ◌>>=◌, ◌>>◌, pure, fail}
use pxc_anonymizer.Schedule.Controller.{Requeue, done, after, again}
use pxc_anonymizer.Runs.{
  Phase, unset, pending, resolving_source, provisioning, restoring, anonymizing, backing_up,
  publishing, pruning, cleaning_up, completed, TempCluster, Attempt, Status, Spec, Run, Object,
  ClusterView, Env, poll, effective, set, patch_run, fail_run,
}
use pxc_anonymizer.Runs.Pipeline.{resolve_run, provision_run, restore_run}
use pxc_anonymizer.Runs.Anonymization.{anonymize_run, delete_owned}
use pxc_anonymizer.Runs.Publication.{backup_run, publish_run, prune_run}

abbrev pub is_unset : Phase → Bool
is_unset unset = true
is_unset p = false

abbrev pub is_completed : Phase → Bool
is_completed completed = true
is_completed p = false

abbrev pub is_resolving : Phase → Bool
is_resolving pending = true
is_resolving resolving_source = true
is_resolving p = false

module _ {C K : Type 0} (E : Env C K) where
  -- What the rest of a cleanup waits for: `some` is the result that `cleanupRunCluster` returns at once.
  abbrev pub secrets_gone : Run K → Bool → Io C (Option Requeue)
  secrets_gone r true = pure none
  secrets_gone r false = pure (some (after poll))

  abbrev pub secret_gone : Run K → Bool → Io C (Option Requeue)
  secret_gone r false = pure (some (after poll))
  secret_gone r true = do gone ← λ c. E.api.generated_gone c r; secrets_gone r gone

  abbrev pub waited : Io C Requeue → Io C (Option Requeue)
  waited m = do q ← m; pure (some q)

  abbrev pub delete_unless : Bool → String → Io C (Unit {0})
  delete_unless true uid = pure tt
  delete_unless false uid =
      if uid == ""
      then fail (plain "owned child must have a persisted UID before deletion")
      else (λ c. E.api.delete_object c uid)

  abbrev pub cluster_left :
      Run K → TempCluster → Option (Object ClusterView) → Io C (Option Requeue)
  cluster_left r t (some o) =
      if o.is_owned
      then (if t.uid == ""
          then waited (
              patch_run E r r.status
                (record r.status { temp_cluster = some (record t { uid = o.uid }) }) 1)
          else if o.uid /= t.uid
          then fail (plain "temporary cluster UID changed")
          else (do
            delete_unless o.is_deleting o.uid
            waited (patch_run E r r.status (set E r "CleanedUp" false "Deleting" r.status) poll)))
      else fail (plain "refusing foreign child")
  cluster_left r t none =
      if t.secret_name == ""
      then secret_gone r true
      else (do gone ← delete_owned E "Secret" t.secret_name; secret_gone r gone)

  abbrev pub cluster_of : Run K → Option TempCluster → Io C (Option Requeue)
  cluster_of r none = pure none
  cluster_of r (some t) =
      if t.name == ""
      then pure none
      else (do found ← λ c. E.api.get_cluster c t.name; cluster_left r t found)

  -- `cleanupRunCluster`.
  unfoldable pub cleanup_cluster : Run K → Io C (Option Requeue)
  cleanup_cluster r = cluster_of r r.status.temp_cluster

  -- The status at the end of `cleanupRun`.
  abbrev pub with_deletion : TempCluster → TempCluster
  with_deletion t = record t {
    deleted_at = elim t.deleted_at [ none ↦ some E.now | some u ↦ some u ];
  }

  abbrev pub cleaned : Run K → Status K → Status K
  cleaned r s = set E r "CleanedUp" true "TempClusterDeleted" (record s {
    temp_cluster = elim s.temp_cluster [ none ↦ none | some t ↦ some (with_deletion t) ];
  })

  abbrev pub is_failed : Status K → Bool
  is_failed s = E.conditions.is_true s.conditions "Failed"

  abbrev pub finished : Run K → Status K → Status K
  finished r s =
      if is_failed s
      then s
      else set E r "Complete" true "Succeeded"
          (record s { phase = completed; completed_at = some E.now })

  -- The end of a cleanup. A run that is being deleted loses its finalizer once nothing is left to save.
  abbrev pub conclude : Run K → Bool → Option Requeue → Io C Requeue
  conclude r deleting (some q) = pure q
  conclude r false none = patch_run E r r.status (finished r (cleaned r r.status)) 0
  conclude r true none =
      if E.is_same (cleaned r r.status) r.status
      then (do λ c. E.api.remove_finalizer c; pure done)
      else patch_run E r r.status (cleaned r r.status) 1

  abbrev pub after_job : Run K → Bool → Bool → Io C Requeue
  after_job r deleting false = pure (after poll)
  after_job r deleting true =
      if (if deleting then false else true) && (r.spec.on_failure == "Retain") && is_failed r.status
      then patch_run E r r.status (set E r "Retained" true "Retained" r.status) 0
      else (do waiting ← cleanup_cluster r; conclude r deleting waiting)

  abbrev pub job_left : Bool → Option Attempt → Io C Bool
  job_left ending none = pure true
  job_left ending (some a) =
      if ending && (a.job_name /= "") then delete_owned E "Job" a.job_name else pure true

  -- `cleanupRun`.
  unfoldable pub cleanup_run : Run K → Bool → Io C Requeue
  cleanup_run r deleting = do
    gone ← job_left (deleting || is_failed r.status) r.status.anonymize
    after_job r deleting gone

  -- `finishRun`: the temporary cluster may be held for a while after the publication.
  abbrev pub held_until : Run K → Option ℕ
  held_until r = elim (E.conditions.since r.status.conditions "Published") [
    | none ↦ none
    | some t ↦ some (t + effective r.spec.hold 0)
  ]

  abbrev pub held : Run K → Option ℕ → Io C Requeue
  held r none = cleanup_run r false
  held r (some end) =
      if ltb 0 (effective r.spec.hold 0) && ltb E.now end
      then pure (after (end - E.now))
      else cleanup_run r false

  unfoldable pub finish_run : Run K → Io C Requeue
  finish_run r = held r (held_until r)

  -- The `switch` of `reconcileRun`; a phase that it does not name is polled.
  abbrev pub handle : (String → String → Bool) → Run K → Phase → Io C Requeue
  handle before r provisioning = provision_run E r
  handle before r restoring = restore_run E r
  handle before r anonymizing = anonymize_run E r
  handle before r backing_up = backup_run E r
  handle before r publishing = publish_run E r
  handle before r pruning = prune_run E before r
  handle before r cleaning_up = finish_run r
  handle before r p = pure (after poll)

  unfoldable pub dispatch : (String → String → Bool) → Run K → Io C Requeue
  dispatch before r = handle before r r.status.phase

  -- The specification of the snapshot takes the place of the run's own.
  abbrev pub with_spec : (String → String → Bool) → Run K → Result Spec × C → Result Requeue × C
  with_spec before r (ok spec, c) = dispatch before (record r { spec = spec }) c
  with_spec before r (err e, c) = fail_run E r "PolicyValid" "PolicyInvalid" c

  -- A run that is finished or has failed; the snapshot may be gone.
  abbrev pub settled_spec : Run K → Result Spec × C → Run K × C
  settled_spec r (ok spec, c) = (record r { spec = spec }, c)
  settled_spec r (err e, c) = (r, c)

  unfoldable pub settled_run : Run K → Io C Requeue
  settled_run r =
      if E.conditions.is_true r.status.conditions "CleanedUp"
        || E.conditions.is_true r.status.conditions "Retained"
      then (λ c. (ok done, (settled_spec r (E.api.load_spec c r)).1))
      else (λ c.
          (cleanup_run (settled_spec r (E.api.load_spec c r)).0 false)
            (settled_spec r (E.api.load_spec c r)).1)

  -- The rest of `reconcileRun`, on a run that is not being deleted.
  unfoldable pub live_run : (String → String → Bool) → Run K → Io C Requeue
  live_run before r =
      if is_unset r.status.phase
      then patch_run E r r.status (record r.status { phase = pending; started_at = some E.now }) 1
      else if r.has_finalizer
      then (if is_failed r.status || is_completed r.status.phase
          then settled_run r
          else if is_resolving r.status.phase
          then resolve_run E r
          else (λ c. with_spec before r (E.api.load_spec c r)))
      else (do λ c. E.api.add_finalizer c; pure (after 1))

  abbrev pub reconcile_found : (String → String → Bool) → Option (Run K) → Io C Requeue
  reconcile_found before none = pure done
  reconcile_found before (some r) =
      if r.deleted == 0
      then live_run before r
      else if r.has_finalizer
      then cleanup_run r true
      else pure done

  abbrev pub conflict_again : Result Requeue × C → Result Requeue × C
  conflict_again (ok q, c) = (ok q, c)
  conflict_again (err e, c) = if E.api.is_conflict e then (ok again, c) else (err e, c)

  -- `Reconcile`.
  unfoldable pub reconcile : (String → String → Bool) → Io C Requeue
  reconcile before c =
      conflict_again ((do found ← λ d. E.api.read d; reconcile_found before found) c)
