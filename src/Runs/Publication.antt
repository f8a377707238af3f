-- ===== src/Runs/Publication.antt =====
-- The output of a run: backupRun, publishRun and pruneRun
-- (internal/controller/anonymizationrun_controller.go).
use pxc_anonymizer.Prelude.{
  ℕ, suc, ◌+◌, ◌*◌, String, Bool, true, false, ◌&&◌, ◌||◌, ◌==◌, ◌/=◌, text_eq, nat_eq, Option,
  none, some, List, [], ◌∷◌, ◌++◌, ltb, contains, if◌then◌else◌,
}
use pxc_anonymizer.Prelude.Int.{ℤ}
use pxc_anonymizer.Errors.{plain, Result, ok, err}
use pxc_anonymizer.Sql.{Io, ◌>>=◌, ◌>>◌, pure, fail, lift}
use pxc_anonymizer.Schedule.{Run as ListedRun, is_settled}
use pxc_anonymizer.Schedule.Controller.{Requeue, after}
use pxc_anonymizer.Runs.{
  publishing, pruning, cleaning_up, TempCluster, Output, Run, Backup, Env, minute, hour, poll,
  effective, expired, set, patch_run, fail_run,
}
use pxc_anonymizer.Runs.Pipeline.{required}

-- `runOutputIdentity`.
abbrev pub is_output : String → Backup → Bool
is_output run_uid b =
    (b.owners == 0)
    && (b.run_uid == run_uid)
    && b.has_labels
    && (if b.is_deleting then false else true)

-- The order of `pruneRun`, as the test that the second is not before the first. The texts are compared by
-- the parameter `before`. Where some completion times are missing this need not be transitive, and then
-- the order that `slices.SortFunc` makes may be another one than that of the insertion below.
abbrev pub names_in_order : (String → String → Bool) → String → String → Bool
names_in_order before a b = if before b a then false else true

abbrev pub created_in_order : (String → String → Bool) → Backup → Backup → Bool
created_in_order before a b =
    if ltb b.created a.created
    then true
    else if ltb a.created b.created
    then false
    else names_in_order before a.name b.name

abbrev pub in_order : (String → String → Bool) → Backup → Backup → Bool
in_order before a b = elim a.completed_at [
  | none ↦ created_in_order before a b
  | some s ↦ elim b.completed_at [
    | none ↦ created_in_order before a b
    | some t ↦ if ltb t s then true else if ltb s t then false else created_in_order before a b
  ]
]

unfoldable pub insert_backup : (String → String → Bool) → Backup → List Backup → List Backup
insert_backup before b [] = b ∷ []
insert_backup before b (d ∷ backups) =
    let rest = insert_backup before b backups in
    if in_order before b d then b ∷ d ∷ backups else d ∷ rest

unfoldable pub sort_backups : (String → String → Bool) → List Backup → List Backup
sort_backups before [] = []
sort_backups before (b ∷ backups) = insert_backup before b (sort_backups before backups)

-- The listed backups that nothing owns.
unfoldable pub unowned : List Backup → List Backup
unowned [] = []
unowned (b ∷ backups) = let rest = unowned backups in if b.owners == 0 then b ∷ rest else rest

abbrev pub kept_count : ℤ → ℕ
kept_count keep = effective keep 2

unfoldable pub is_listed : List ListedRun → String → Bool
is_listed [] uid = false
is_listed (r ∷ runs) uid = let rest = is_listed runs uid in (r.uid == uid) || rest

-- The map `settled`: a run listed later replaces an earlier one of the same UID.
unfoldable pub is_settled_uid : List ListedRun → String → Bool
is_settled_uid [] uid = false
is_settled_uid (r ∷ runs) uid =
    let rest = is_settled_uid runs uid in
    if is_listed runs uid then rest else if r.uid == uid then is_settled r else false

-- Whether the loop of `pruneRun` wants a backup removed, after `count` succeeded ones with it.
unfoldable pub is_surplus : ℕ → ℤ → ℤ → Backup → ℕ → Bool
is_surplus now keep failed_after b count =
    if b.has_failed && (b.created /= 0)
    then (if ltb now (b.created + effective failed_after (24 * hour)) then false else true)
    else b.has_succeeded && ltb (kept_count keep) count

abbrev pub counted : Backup → ℕ → ℕ
counted b count = if b.has_succeeded then suc count else count

-- The backups that `pruneRun` deletes, in the order that they are deleted in.
unfoldable pub removals : ℕ → ℤ → ℤ → String → List ListedRun → ℕ → List Backup → List Backup
removals now keep failed_after current runs count [] = []
removals now keep failed_after current runs count (b ∷ backups) =
    let n = counted b count in
    let rest = removals now keep failed_after current runs n backups in
    if is_surplus now keep failed_after b n && (b.name /= current) && is_settled_uid runs b.run_uid
    then b ∷ rest
    else rest

-- `PrunedBackups` grows by the names that it does not have.
unfoldable pub with_pruned : List String → List Backup → List String
with_pruned names [] = names
with_pruned names (b ∷ backups) =
    with_pruned (if contains names b.name then names else names ++ (b.name ∷ [])) backups

module _ {C K : Type 0} (E : Env C K) where
  abbrev pub empty_output : String → Output
  empty_output name = record {
    backup_name = name;
    destination = "";
    completed_at = none;
    published_at = none;
    etag = "";
  }

  -- A backup that has succeeded.
  abbrev pub backup_done : Run K → Output → Backup → Option ℕ → Io C Requeue
  backup_done r o b none = pure (after poll)
  backup_done r o b (some t) =
      if t == 0
      then pure (after poll)
      else if E.rendering.is_destination b.destination
      then patch_run E r r.status
          (set E r "Published" false "UploadFailed" (
            set E r "BackedUp" true "Succeeded" (record r.status {
              output = some (record o { destination = b.destination; completed_at = some t });
              phase = publishing;
            })))
          1
      else fail_run E r "BackedUp" "BackupFailed"

  -- What `backupRun` makes of the backup that is there.
  unfoldable pub backup_seen : Run K → Output → Backup → Io C Requeue
  backup_seen r o b =
      if is_output r.uid b
      then (if b.has_failed
          then fail_run E r "BackedUp"
              (if b.met_deadline then "BackupDeadlineExceeded" else "BackupFailed")
          else if b.has_succeeded
          then backup_done r o b b.completed_at
          else pure (after poll))
      else fail (plain "output backup identity is foreign or deleting")

  abbrev pub with_backup : Run K → Output → Option Backup → Io C Requeue
  with_backup r o none = do λ c. E.api.create_backup c o.backup_name; pure (after poll)
  with_backup r o (some b) = backup_seen r o b

  abbrev pub backup_into : Run K → Option Output → Io C Requeue
  backup_into r none =
      patch_run E r r.status
        (record r.status { output = some (empty_output (E.rendering.backup_name r E.now)) }) 1
  backup_into r (some o) =
      if expired E.now (E.conditions.since r.status.conditions "BackedUp") r.spec.backup (3 * hour)
      then fail_run E r "BackedUp" "Timeout"
      else if E.rendering.has_backup r
      then (do found ← λ c. E.api.get_backup c o.backup_name; with_backup r o found)
      else fail_run E r "BackedUp" "BackupFailed"

  abbrev pub backup_from : Run K → Option TempCluster → Io C Requeue
  backup_from r none = fail_run E r "BackedUp" "BackupFailed"
  backup_from r (some t) = backup_into r r.status.output

  -- `backupRun`.
  unfoldable pub backup_run : Run K → Io C Requeue
  backup_run r = backup_from r r.status.temp_cluster

  -- The end of `publishRun`: a pointer that is not uploaded is tried again.
  abbrev pub uploaded : Run K → Output → Result String × C → Result Requeue × C
  uploaded r o (ok etag, c) =
      patch_run E r r.status
        (set E r "Published" true "Uploaded" (record r.status {
          output = some (record o { published_at = some E.now; etag = etag });
          phase = pruning;
        }))
        1 c
  uploaded r o (err e, c) =
      patch_run E r r.status (set E r "Published" false "UploadFailed" r.status) poll c

  unfoldable pub publish_backup : Run K → Output → Backup → Io C Requeue
  publish_backup r o b =
      if is_output r.uid b
      then (if b.has_succeeded && (b.destination == o.destination)
          then (λ c. uploaded r o (E.api.put_pointer c b))
          else fail_run E r "Published" "UploadFailed")
      else fail (plain "output backup identity is foreign or deleting")

  abbrev pub publish_from : Run K → Option Output → Io C Requeue
  publish_from r none = fail_run E r "Published" "UploadFailed"
  publish_from r (some o) =
      if o.destination == ""
      then fail_run E r "Published" "UploadFailed"
      else if r.spec.has_pointer
      then (if expired E.now (E.conditions.since r.status.conditions "Published") r.spec.publish
            (10 * minute)
          then fail_run E r "Published" "UploadFailed"
          else (do
            found ← λ c. E.api.get_backup c o.backup_name
            b ← lift (required E found)
            publish_backup r o b))
      else patch_run E r r.status
          (set E r "Published" true "Skipped" (record r.status { phase = pruning })) 1

  -- `publishRun`.
  unfoldable pub publish_run : Run K → Io C Requeue
  publish_run r = publish_from r r.status.output

  -- `deleteRunObject` on each backup.
  unfoldable pub delete_backups : List Backup → Io C (Unit {0})
  delete_backups [] = pure tt
  delete_backups (b ∷ backups) =
      if b.uid == ""
      then fail (plain "owned child must have a persisted UID before deletion")
      else (do λ c. E.api.delete_object c b.uid; delete_backups backups)

  -- `pruneRun`.
  abbrev pub prune_with : (String → String → Bool) → Run K → Option Output → Io C Requeue
  prune_with before r none = fail (plain "publication must precede retention")
  prune_with before r (some o) =
      if E.conditions.is_true r.status.conditions "Published"
      then (do
        backups ← λ c. E.api.list_backups c
        runs ← λ c. E.api.list_runs c
        let removed =
            removals E.now r.spec.keep_succeeded r.spec.delete_failed_after o.backup_name runs 0
              (sort_backups before (unowned backups))
        delete_backups removed
        patch_run E r r.status
            (record r.status { pruned = with_pruned r.status.pruned removed; phase = cleaning_up })
            1)
      else fail (plain "publication must precede retention")

  unfoldable pub prune_run : (String → String → Bool) → Run K → Io C Requeue
  prune_run before r = prune_with before r r.status.output
