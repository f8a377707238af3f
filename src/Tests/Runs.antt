-- ===== src/Tests/Runs.antt =====
-- A server that stores the status of one run and checks the optimistic lock.
use pxc_anonymizer.Prelude.{
  ℕ, ◌+◌, ◌≤◌, ◌≡◌, ◌≢◌, ◌⊎◌, inl, inr, refl, String, Bool, true, false, none, some, List, [], ◌∷◌,
  ◌==◌, text_eq, Bool-cases, if◌then◌else◌, ℕ_discrete, eq_iff, All,
}
use pxc_anonymizer.Prelude.Int.{pos}
use pxc_anonymizer.Errors.{plain, Result, ok, err}
use pxc_anonymizer.Schedule.{Run as ListedRun, is_settled}
use pxc_anonymizer.Runs.{unset, Status, Spec, Backup, snapshot, Conditions, Rendering, Api, Env}
use pxc_anonymizer.Runs.Cleanup.{reconcile}
use pxc_anonymizer.Runs.Publication.{removals, is_surplus, is_settled_uid, is_listed, kept_count}
use pxc_anonymizer.Runs.Retention.{succeeded, HasOneState, IsRemovable, removals_lem}
use pxc_anonymizer.Runs.Machine.{IsLocked, Step, attempt_count}
use pxc_anonymizer.Runs.Machine.Refinement.{IsFrozen, reconcile_refines}
use pxc_anonymizer.Runs.Machine.Budget.{History, now_at, reconciled, attempts_bound}
use pxc_anonymizer.Runs.Machine.Forward.{IsOnward, History-IsOnward}

text_discrete : Discrete String
text_discrete s t = elim (Bool-cases (s == t)) [
  | inl same ↦ yes ((eq_iff s t).0 same)
  | inr other ↦ no (λ e. apart e other)
]
  where
    apart : s ≡ t → (s == t) ≡ false → ⊥
    apart e other = let same = (eq_iff s t).1 e in absurd (cc)

status_discrete : Discrete (Status Bool)
status_discrete = hlevel (ℕ_discrete, text_discrete)

-- The conditions of a run, of which only Failed is remembered.
abbrev flags : Conditions Bool
flags = record {
  set = λ k generation time kind b reason. if kind == "Failed" then b else k;
  is_true = λ k kind. if kind == "Failed" then k else false;
  since = λ k kind. some 0;
}

abbrev names : Rendering Bool
names = record {
  temp_name = λ r. "temp";
  has_users = λ r. true;
  has_cluster = λ r. true;
  restore_name = λ r name. some "restore";
  has_restore = λ r. true;
  job_name = λ r n. "job";
  has_job = λ r. true;
  backup_name = λ r time. "backup";
  has_backup = λ r. true;
  is_destination = λ destination. true;
}

abbrev settings : Spec
settings = record {
  cluster_ready = pos 0;
  restore = pos 0;
  anonymize = pos 0;
  backup = pos 0;
  publish = pos 0;
  cleanup = pos 0;
  backoff_limit = 2;
  dry_run = false;
  has_pointer = true;
  keep_succeeded = pos 2;
  delete_failed_after = pos 0;
  hold = pos 0;
  on_failure = "Delete";
}

abbrev empty : Status Bool
empty = record {
  phase = unset;
  observed_generation = 0;
  started_at = none;
  completed_at = none;
  source = none;
  policy_hash = "";
  temp_cluster = none;
  restore_name = "";
  anonymize = none;
  output = none;
  pruned = [];
  conditions = false;
}

abbrev patched :
    (c base : Status Bool) → Status Bool → Dec (c ≡ base) → Result (Unit {0}) × Status Bool
patched c base new (yes e) = (ok tt, new)
patched c base new (no n) = (err (plain "conflict"), c)

patched_lem :
    (c base new : Status Bool) (d : Dec (c ≡ base))
    → ((patched c base new d).1 ≡ c) ⊎ ((c ≡ base) × ((patched c base new d).1 ≡ new))
patched_lem c base new (yes e) = inr (e, refl)
patched_lem c base new (no n) = inl refl

abbrev server : Api (Status Bool) Bool
server = record {
  read = λ c. (
    ok (
        some (record {
          name = "run";
          uid = "u";
          generation = 1;
          deleted = 0;
          has_finalizer = true;
          spec = settings;
          status = c;
        })),
    c,
  );
  patch_status = λ c base new. patched c base new (status_discrete c base);
  add_finalizer = λ c. (ok tt, c);
  remove_finalizer = λ c. (ok tt, c);
  prepare = λ c r. (ok (snapshot "s3://source" "hash" "FromBackup"), c);
  load_spec = λ c r. (ok settings, c);
  create_child = λ c kind name. (ok tt, c);
  create_backup = λ c name. (ok tt, c);
  get_cluster = λ c name. (
    ok (
        some (record {
          uid = "cluster";
          is_owned = true;
          is_deleting = false;
          view = ok (record { has_error = false; is_ready = true });
        })),
    c,
  );
  get_restore = λ c name. (
    ok (
        some (record {
          uid = "restore";
          is_owned = true;
          is_deleting = false;
          view = ok (record { has_failed = false; has_succeeded = true });
        })),
    c,
  );
  get_child = λ c kind name. (ok none, c);
  get_backup = λ c name. (ok none, c);
  list_pods = λ c name. (ok [], c);
  job_has_ended = λ c name. false;
  list_backups = λ c. (ok [], c);
  list_runs = λ c. (ok [], c);
  delete_object = λ c uid. (ok tt, c);
  generated_gone = λ c r. (ok true, c);
  put_pointer = λ c b. (ok "etag", c);
  is_conflict = λ e. true;
}

abbrev controller : ℕ → Env (Status Bool) Bool
controller time = record {
  api = server;
  conditions = flags;
  rendering = names;
  is_same = λ a b. false;
  now = time;
}

abbrev in_order : String → String → Bool
in_order a b = false

named : ◌≢◌ {A = String} "job" ""
named e = let same = (eq_iff "job" "").1 e in absurd (cc)

locked : (time : ℕ) → IsLocked (controller time) (λ c. c)
locked time = record {
  by_patch = λ c base new. patched_lem c base new (status_discrete c base);
  by_read = λ c. refl;
  by_add = λ c. refl;
  by_remove = λ c. refl;
  by_prepare = λ c r. refl;
  by_load = λ c r. refl;
  by_create = λ c kind name. refl;
  by_backup = λ c name. refl;
  by_cluster = λ c name. refl;
  by_restore = λ c name. refl;
  by_child = λ c kind name. refl;
  by_get = λ c name. refl;
  by_pods = λ c name. refl;
  by_list = λ c. refl;
  by_runs = λ c. refl;
  by_delete = λ c uid. refl;
  by_generated = λ c r. refl;
  by_put = λ c b. refl;
  is_named = λ r n. named;
  failed_apart = λ k g t b reason. refl;
}

frozen : (time : ℕ) → IsFrozen (locked time) 2 in_order
frozen time c r spec e = cc

reconcile_refines_example : Step 2 empty (reconcile (controller 5) in_order empty).1
reconcile_refines_example = reconcile_refines (locked 5) 2 in_order empty (frozen 5)

abbrev twice : Status Bool
twice = (reconcile (controller 9) in_order (reconcile (controller 5) in_order empty).1).1

history : History controller (λ c. c) in_order empty twice
history = reconciled (reconciled now_at 5) 9

attempts_bound_example : attempt_count twice.anonymize ≤ 3
attempts_bound_example = attempts_bound locked 2 frozen history refl

History-IsOnward_example : IsOnward unset twice.phase
History-IsOnward_example = History-IsOnward locked 2 frozen history

abbrev output : String → ℕ → Backup
output name time = record {
  name = name;
  uid = name;
  created = time;
  owners = 0;
  run_uid = "u";
  has_labels = true;
  is_deleting = false;
  has_failed = false;
  has_succeeded = true;
  met_deadline = false;
  completed_at = some time;
  destination = "s3://output";
}

abbrev settled_run : ListedRun
settled_run = record {
  name = 114 ∷ [];
  namespace = "default";
  uid = "u";
  created = 1;
  deleted = 0;
  phase = "Completed";
  completed_at = some 9;
  is_true = λ type. type == "CleanedUp";
  owner = none;
  token_hash = [];
}

abbrev outputs : List Backup
outputs = output "c" 30 ∷ output "b" 20 ∷ output "a" 10 ∷ []

oldest_removed : removals 40 (pos 2) (pos 0) "c" (settled_run ∷ []) 0 outputs ≡ output "a" 10 ∷ []
unfolding removals is_surplus is_settled_uid is_listed is_settled
oldest_removed = refl

one_state : All HasOneState outputs
one_state = (λ e. cc, (λ e. cc, (λ e. cc, tt)))

removals_lem_example :
    All
      (IsRemovable "c" (settled_run ∷ []))
      (removals 40 (pos 2) (pos 0) "c" (settled_run ∷ []) 0 outputs)
    × ((succeeded (removals 40 (pos 2) (pos 0) "c" (settled_run ∷ []) 0 outputs) ≡ 0)
        ⊎ (succeeded (removals 40 (pos 2) (pos 0) "c" (settled_run ∷ []) 0 outputs)
              + kept_count (pos 2)
            ≤ succeeded outputs))
removals_lem_example = removals_lem 40 (pos 2) (pos 0) "c" (settled_run ∷ []) outputs one_state
