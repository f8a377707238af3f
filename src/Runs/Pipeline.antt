-- ===== src/Runs/Pipeline.antt =====
-- The handlers of a run up to the anonymization: resolveRun, provisionRun and restoreRun
-- (internal/controller/anonymizationrun_controller.go).
use pxc_anonymizer.Prelude.{
  ◌*◌, String, ◌<>◌, true, false, ◌||◌, ◌==◌, ◌/=◌, text_eq, nat_eq, Option, none, some,
  if◌then◌else◌,
}
use pxc_anonymizer.Errors.{plain, Result, ok, err}
use pxc_anonymizer.Sql.{Io, ◌>>=◌, ◌>>◌, pure, fail, lift}
use pxc_anonymizer.Schedule.Controller.{Requeue, after}
use pxc_anonymizer.Runs.{
  provisioning, restoring, anonymizing, TempCluster, Status, Run, Object, ClusterView, RestoreView,
  Prepared, snapshot, invalid, Env, minute, hour, poll, expired, delay, set, patch_run, fail_run,
}

module _ {C K : Type 0} (E : Env C K) where
  abbrev pub with_status : Run K → Status K → Run K
  with_status r s = record r { status = s }

  -- A Get whose caller returns every error.
  abbrev pub required : {B : Type 0} → Option B → Result B
  required none = err (plain "not found")
  required (some b) = ok b

  abbrev pub resolved : Run K → Prepared → Io C Requeue
  resolved r (invalid kind reason) = fail_run E r kind reason
  resolved r (snapshot destination hash reason) =
      let name = E.rendering.temp_name r in
      patch_run E r r.status
        (set E r "TempClusterReady" false "Provisioning" (
          set E r "PolicyValid" true "Snapshotted" (
            set E r "SourceResolved" true reason (record r.status {
              source = some destination;
              policy_hash = hash;
              temp_cluster = some (record {
                name = name;
                secret_name = name <> "-secrets";
                uid = "";
                created_at = some E.now;
                ready_at = none;
                deleted_at = none;
              });
              phase = provisioning;
            }))))
        1

  -- `resolveRun`.
  unfoldable pub resolve_run : Run K → Io C Requeue
  resolve_run r =
      if expired E.now r.status.started_at r.spec.cluster_ready (30 * minute)
      then fail_run E r "SourceResolved" "Timeout"
      else (do prepared ← λ c. E.api.prepare c r; resolved r prepared)

  -- The end of `provisionRun`, on the view of the cluster.
  unfoldable pub cluster_seen : Run K → TempCluster → ClusterView → Io C Requeue
  cluster_seen r t view =
      if view.has_error
      then fail_run E r "TempClusterReady" "ClusterError"
      else if view.is_ready
      then patch_run E r r.status
          (set E r "Restored" false "Restoring" (
            set E r "TempClusterReady" true "Ready" (record r.status {
              temp_cluster = some (record t { ready_at = some E.now });
              phase = restoring;
            })))
          1
      else pure (after (delay E.now t.created_at r.spec.cluster_ready (30 * minute)))

  unfoldable pub check_cluster : Run K → TempCluster → Object ClusterView → Io C Requeue
  check_cluster r t o =
      if o.is_owned
      then (if o.uid == ""
          then fail (plain "temporary cluster must have a persisted UID")
          else if t.uid == ""
          then patch_run E r r.status
              (record r.status { temp_cluster = some (record t { uid = o.uid }) }) 1
          else if t.uid /= o.uid
          then fail_run E r "TempClusterReady" "ClusterError"
          else (do view ← lift o.view; cluster_seen r t view))
      else fail (plain "refusing foreign child")

  abbrev pub provision_cluster : Run K → TempCluster → Io C Requeue
  provision_cluster r t =
      if t.name == ""
      then fail_run E r "TempClusterReady" "ClusterError"
      else if expired E.now t.created_at r.spec.cluster_ready (30 * minute)
      then fail_run E r "TempClusterReady" "Timeout"
      else if E.rendering.has_users r
      then (do
        λ c. E.api.create_child c "Secret" t.secret_name
        if E.rendering.has_cluster r
            then (do
              λ c. E.api.create_child c "PerconaXtraDBCluster" t.name
              found ← λ c. E.api.get_cluster c t.name
              o ← lift (required found)
              check_cluster r t o)
            else fail_run E r "TempClusterReady" "ClusterError")
      else fail_run E r "TempClusterReady" "ClusterError"

  abbrev pub provision_with : Run K → Option TempCluster → Io C Requeue
  provision_with r none = fail_run E r "TempClusterReady" "ClusterError"
  provision_with r (some t) = provision_cluster r t

  -- `provisionRun`.
  unfoldable pub provision_run : Run K → Io C Requeue
  provision_run r = provision_with r r.status.temp_cluster

  -- The restore that is there, or that is not.
  unfoldable pub restore_seen : Run K → RestoreView → Io C Requeue
  restore_seen r view =
      if view.has_failed
      then fail_run E r "Restored" "RestoreFailed"
      else if view.has_succeeded
      then patch_run E r r.status
          (set E r "Anonymized" false "Running"
            (record (set E r "Restored" true "Succeeded" r.status) { phase = anonymizing }))
          1
      else pure (
          after (
            delay E.now (E.conditions.since r.status.conditions "Restored") r.spec.restore
              (3 * hour)))

  abbrev pub with_restore : Run K → String → Option (Object RestoreView) → Io C Requeue
  with_restore r name none =
      if r.status.restore_name /= ""
      then fail_run E r "Restored" "RestoreVanished"
      else if E.rendering.has_restore r
      then (do
        patched ← patch_run E r r.status (record r.status { restore_name = name }) 1
        λ c. E.api.create_child c "PerconaXtraDBClusterRestore" name
        pure (after poll))
      else fail_run E r "Restored" "RestoreFailed"
  with_restore r name (some o) =
      if o.is_owned
      then (if r.status.restore_name == ""
          then patch_run E r r.status (record r.status { restore_name = name }) 1
          else (do view ← lift o.view; restore_seen r view))
      else fail (plain "refusing foreign child")

  abbrev pub find_restore : Run K → Option String → Io C Requeue
  find_restore r none = fail_run E r "Restored" "RestoreFailed"
  find_restore r (some name) = do found ← λ c. E.api.get_restore c name; with_restore r name found

  abbrev pub chosen_name : Run K → TempCluster → Option String
  chosen_name r t =
      if r.status.restore_name == ""
      then E.rendering.restore_name r t.name
      else some r.status.restore_name

  abbrev pub restore_into : Run K → TempCluster → Option (Object ClusterView) → Io C Requeue
  restore_into r t none = fail_run E r "TempClusterReady" "ClusterError"
  restore_into r t (some o) =
      if o.is_owned
      then (if (o.uid /= t.uid) || o.is_deleting
          then fail_run E r "TempClusterReady" "ClusterError"
          else find_restore r (chosen_name r t))
      else fail (plain "refusing foreign child")

  abbrev pub restore_with : Run K → Option String → Option TempCluster → Io C Requeue
  restore_with r none t = fail_run E r "Restored" "RestoreFailed"
  restore_with r (some source) none = fail_run E r "Restored" "RestoreFailed"
  restore_with r (some source) (some t) =
      if expired E.now (E.conditions.since r.status.conditions "Restored") r.spec.restore (3 * hour)
      then fail_run E r "Restored" "Timeout"
      else (do found ← λ c. E.api.get_cluster c t.name; restore_into r t found)

  -- `restoreRun`.
  unfoldable pub restore_run : Run K → Io C Requeue
  restore_run r = restore_with r r.status.source r.status.temp_cluster
