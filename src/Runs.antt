-- ===== src/Runs.antt =====
-- Runs of the anonymization (internal/controller/anonymizationrun_controller.go and
-- run_resources.go): the status that a run keeps, and the parameters of its controller.
pub mod Report
pub mod Pipeline
pub mod Anonymization
pub mod Publication
pub mod Cleanup
pub mod Retention
pub mod Machine
use pxc_anonymizer.Prelude.{
  ℕ, zero, suc, ◌+◌, ◌-◌, ◌*◌, String, Bool, true, false, Option, none, some, List, [], ◌∷◌, ltb,
  min, if◌then◌else◌, nat_eq, ◌==◌,
}
use pxc_anonymizer.Prelude.Int.{ℤ, pos, negsuc}
use pxc_anonymizer.Errors.{Err, plain, Result, ok, err}
use pxc_anonymizer.Sql.{Io, ◌>>=◌, ◌>>◌, pure}
use pxc_anonymizer.Schedule.{Run as ListedRun}
use pxc_anonymizer.Schedule.Controller.{Requeue, after}

-- `api.RunPhase`; `unset` is the empty text, `unknown` any other.
pub data Phase : Type 0 where
  unset pending resolving_source provisioning restoring anonymizing backing_up publishing pruning
        cleaning_up completed failed unknown :
      Phase

-- `api.TempClusterStatus`.
pub record TempCluster : Type 0 where
  pub name : String
  pub secret_name : String
  pub uid : String
  pub created_at : Option ℕ
  pub ready_at : Option ℕ
  pub deleted_at : Option ℕ

-- `api.AnonymizeResult`.
pub record Verdict : Type 0 where
  pub class : String
  pub message : String

-- `api.AnonymizeProgress`, without the current table.
pub record Progress : Type 0 where
  pub tables_total : ℤ
  pub tables_done : ℤ
  pub rows_done : ℤ
  pub steps_done : ℤ

-- `api.AnonymizeStatus`. The number of attempts is an int32, which is not reached by its overflow
-- within 2^31 attempts.
pub record Attempt : Type 0 where
  pub attempts : ℕ
  pub job_name : String
  pub started_at : Option ℕ
  pub completed_at : Option ℕ
  pub last_result : Option Verdict
  pub progress : Option Progress

-- `api.PublishedBackup`.
pub record Output : Type 0 where
  pub backup_name : String
  pub destination : String
  pub completed_at : Option ℕ
  pub published_at : Option ℕ
  pub etag : String

-- `api.AnonymizationRunStatus`, with conditions of the type `K` of the library. A time is in nanoseconds.
pub record Status (K : Type 0) : Type 0 where
  pub phase : Phase
  pub observed_generation : ℕ
  pub started_at : Option ℕ
  pub completed_at : Option ℕ
  pub source : Option String  -- the destination of the source backup
  pub policy_hash : String
  pub temp_cluster : Option TempCluster
  pub restore_name : String
  pub anonymize : Option Attempt
  pub output : Option Output
  pub pruned : List String
  pub conditions : K

-- The fields of the specification that are read here. A timeout is a number of nanoseconds, and the
-- backoff limit, which `validateRunInputs` refuses below 0, a count.
pub record Spec : Type 0 where
  pub cluster_ready : ℤ
  pub restore : ℤ
  pub anonymize : ℤ
  pub backup : ℤ
  pub publish : ℤ
  pub cleanup : ℤ
  pub backoff_limit : ℕ
  pub dry_run : Bool
  pub has_pointer : Bool
  pub keep_succeeded : ℤ
  pub delete_failed_after : ℤ
  pub hold : ℤ
  pub on_failure : String

pub record Run (K : Type 0) : Type 0 where
  pub name : String
  pub uid : String
  pub generation : ℕ
  pub deleted : ℕ
  pub has_finalizer : Bool
  pub spec : Spec
  pub status : Status K

-- An object of the API server: whether `runOwns` accepts it, and what its view decodes to.
pub record Object (B : Type 0) : Type 0 where
  pub uid : String
  pub is_owned : Bool
  pub is_deleting : Bool
  pub view : Result B

pub record ClusterView : Type 0 where
  pub has_error : Bool
  pub is_ready : Bool

pub record RestoreView : Type 0 where
  pub has_failed : Bool
  pub has_succeeded : Bool

-- A backup, with the tests of `runOutputIdentity` on its labels.
pub record Backup : Type 0 where
  pub name : String
  pub uid : String
  pub created : ℕ
  pub owners : ℕ
  pub run_uid : String  -- the run-uid annotation
  pub has_labels : Bool
  pub is_deleting : Bool
  pub has_failed : Bool
  pub has_succeeded : Bool
  pub met_deadline : Bool  -- the error speaks of a deadline
  pub completed_at : Option ℕ
  pub destination : String

-- `report.Report`, as the JSON text of a termination decodes.
pub record Content : Type 0 where
  pub result : String
  pub class : String
  pub tables_done : ℤ
  pub tables_total : ℤ
  pub rows_done : ℤ
  pub steps_done : ℤ
  pub policy_hash : String

-- The termination of a runner's container, and the pods of a job.
pub record Termination : Type 0 where
  pub length : ℕ  -- of the message
  pub exit_code : ℤ
  pub report : Option Content

pub record Pod : Type 0 where
  pub is_owned : Bool  -- by the job, as its controller
  pub progress : Option Progress  -- the last one in its log that is valid
  pub terminated : List Termination  -- of the containers named as the runner's

-- What `prepareRunSnapshot` returns: the snapshot, or the condition and the reason of a
-- `runValidationError`.
pub data Prepared : Type 0 where
  snapshot : String → String → String → Prepared  -- destination, policy hash, reason
  invalid : String → String → Prepared

-- `meta.SetStatusCondition` with a generation and a time, `IsStatusConditionTrue`, and the transition time
-- of `FindStatusCondition`.
pub record Conditions (K : Type 0) : Type 0 where
  pub set : K → ℕ → ℕ → String → Bool → String → K
  pub is_true : K → String → Bool
  pub since : K → String → Option ℕ

-- What is rendered for a run, `none` or `false` if its configuration is invalid; and names.
pub record Rendering (K : Type 0) : Type 0 where
  pub temp_name : Run K → String
  pub has_users : Run K → Bool
  pub has_cluster : Run K → Bool
  pub restore_name : Run K → String → Option String
  pub has_restore : Run K → Bool
  pub job_name : Run K → ℕ → String
  pub has_job : Run K → Bool
  pub backup_name : Run K → ℕ → String
  pub has_backup : Run K → Bool
  pub is_destination : String → Bool  -- `Validate` of a pointer document with this destination

-- The API server and the object store. `patch_status` has the optimistic lock: it is given the status
-- that the run was read with.
pub record Api (C K : Type 0) : Type 0 where
  pub read : C → Result (Option (Run K)) × C
  pub patch_status : C → Status K → Status K → Result (Unit {0}) × C
  pub add_finalizer : C → Result (Unit {0}) × C
  pub remove_finalizer : C → Result (Unit {0}) × C
  pub prepare : C → Run K → Result Prepared × C
  pub load_spec : C → Run K → Result Spec × C
  pub create_child : C → String → String → Result (Unit {0}) × C  -- `createRunChild`, by kind and name
  pub create_backup : C → String → Result (Unit {0}) × C  -- a backup that exists already is no error
  pub get_cluster : C → String → Result (Option (Object ClusterView)) × C
  pub get_restore : C → String → Result (Option (Object RestoreView)) × C
  pub get_child : C → String → String → Result (Option (Object (Unit {0}))) × C
  pub get_backup : C → String → Result (Option Backup) × C
  pub list_pods : C → String → Result (List Pod) × C
  pub job_has_ended : C → String → Bool  -- a condition of the job says Failed or Complete
  pub list_backups : C → Result (List Backup) × C
  pub list_runs : C → Result (List ListedRun) × C
  pub delete_object : C → String → Result (Unit {0}) × C  -- by UID; an object not found is no error
  pub generated_gone : C → Run K → Result Bool × C  -- `deleteRunGeneratedSecrets`
  pub put_pointer : C → Backup → Result String × C
  pub is_conflict : Err → Bool

-- What the controller works with. The clock is read as one time in each reconciliation, and
-- `is_same` is `Semantic.DeepEqual`.
pub record Env (C K : Type 0) : Type 0 where
  pub api : Api C K
  pub conditions : Conditions K
  pub rendering : Rendering K
  pub is_same : Status K → Status K → Bool
  pub now : ℕ

abbrev pub second : ℕ
second = 1000000000

abbrev pub minute : ℕ
minute = 60 * second

abbrev pub hour : ℕ
hour = 60 * minute

abbrev pub poll : ℕ
poll = 10 * second

-- The fallback of a timeout that is not positive.
abbrev pub effective : ℤ → ℕ → ℕ
effective (pos zero) fallback = fallback
effective (pos (suc n)) fallback = suc n
effective (negsuc n) fallback = fallback

-- `runExpired`.
unfoldable pub expired : ℕ → Option ℕ → ℤ → ℕ → Bool
expired now none timeout fallback = true
expired now (some start) timeout fallback =
    if ltb now (start + effective timeout fallback) then false else true

-- `runDelay`.
unfoldable pub delay : ℕ → Option ℕ → ℤ → ℕ → ℕ
delay now none timeout fallback = 1
delay now (some start) timeout fallback =
    let end = start + effective timeout fallback in if ltb now end then min poll (end - now) else 1

module _ {C K : Type 0} (E : Env C K) where
  -- `setRunCondition`.
  abbrev pub set : Run K → String → Bool → String → Status K → Status K
  set r kind b reason s = record s {
    conditions = E.conditions.set s.conditions r.generation E.now kind b reason;
  }

  -- What a status becomes when it is patched.
  abbrev pub observed : Run K → Status K → Status K
  observed r s = record s { observed_generation = r.generation }

  -- `patchRun`, without the metrics.
  unfoldable pub patch_run : Run K → Status K → Status K → ℕ → Io C Requeue
  patch_run r base new wait =
      if E.is_same (observed r new) base
      then pure (after wait)
      else (do λ c. E.api.patch_status c base (observed r new); pure (after wait))

  -- `markRunFailed`.
  abbrev pub mark_failed : Run K → String → String → Status K → Status K
  mark_failed r kind reason s = set r "Complete" false reason (
      set r "Failed" true reason (
        set r kind false reason (record s {
          phase = failed;
          completed_at = elim s.completed_at [ none ↦ some E.now | some t ↦ some t ];
        })))

  -- `failRun`.
  unfoldable pub fail_run : Run K → String → String → Io C Requeue
  fail_run r kind reason = patch_run r r.status (mark_failed r kind reason r.status) 1
