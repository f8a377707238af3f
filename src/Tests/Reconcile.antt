-- ===== src/Tests/Reconcile.antt =====
-- A schedule that is read and listed without runs, on a server that counts creations.
use pxc_anonymizer.Prelude.{
  ℕ, suc, ◌+◌, ◌≡◌, refl, true, false, none, some, [], ◌∷◌, ◌++◌, codes, contains, nat_eq, arith,
}
use pxc_anonymizer.Prelude.Int.{pos}
use pxc_anonymizer.Errors.{plain, ok, err}
use pxc_anonymizer.Schedule.{
  removed, latest_missed_tick, scan_ticks, active_runs, prune_history, prune_group, delete_runs,
  victims, settled_in, sort_runs, is_settled,
}
use pxc_anonymizer.Schedule.Status.{
  Status, find_run, apply_run_status, child_name, last_run, latest_success, record_run, sort_names,
  insert_name,
}
use pxc_anonymizer.Schedule.Controller.{
  Schedule, Api, created, Cron, Naming, last_tick, reconcile, reconcile_valid, trigger, handle_cron,
  earliest_tick, admit, start_run, create_run, owned_among, is_owned, requeue_of,
}
use pxc_anonymizer.Schedule.Creation.{CountsCreations, Creates}
use pxc_anonymizer.Schedule.AtMostOne.{MayCreate, reconcile-Creates}
use pxc_anonymizer.Schedule.Advance.{Advances, IsNext, handle_cron-IsNext}

abbrev fresh : Status
fresh = record {
  observed_generation = 0;
  ready = none;
  valid = none;
  active = [];
  active_count = 0;
  last_schedule_time = none;
  last_successful_time = none;
  next_schedule_time = none;
  last_run_name = [];
  last_run_phase = "";
}

abbrev nightly : Schedule
nightly = record {
  name = codes "nightly";
  namespace = "default";
  uid = "u";
  created = 30;
  deleted = 0;
  generation = 1;
  suspend = false;
  concurrency_policy = "Forbid";
  starting_deadline = none;
  successful_limit = pos 3;
  failed_limit = pos 1;
  run_now = none;
  template_hash = [];
  status = fresh;
}

abbrev every_sixty : Cron
every_sixty = record { is_valid = true; next = λ t. some (t + 60) }

abbrev naming : Naming
naming = record {
  token_hash = λ t. codes "0123456789abcdef";
  time_suffix = λ t. t ∷ [];
  controller_reference = λ s. ok (record {
    uid = s.uid;
    name = s.name;
    kind = "AnonymizationSchedule";
    group = some "pxc-anonymizer.io";
  });
}

abbrev counter : Api ℕ
counter = record {
  read = λ c. (ok (some nightly), c);
  list = λ c. (ok [], c);
  create = λ c r. (created r, suc c);
  get = λ c n. (err (plain "not found"), c);
  delete = λ c uid. (removed, c);
  patch_status = λ c s. (ok tt, c);
  clear_token = λ c. (ok tt, c);
  is_conflict = λ e. false;
}

counts : CountsCreations counter (λ c. c)
counts = record {
  by_create = λ c r. refl;
  by_read = λ c. refl;
  by_list = λ c. refl;
  by_get = λ c n. refl;
  by_delete = λ c uid. refl;
  by_patch = λ c s. refl;
  by_clear = λ c. refl;
}

reconcile-Creates_example :
    Creates
      (MayCreate counts naming (λ a b. false) (λ s. every_sixty) 0)
      0
      (reconcile counter naming (λ a b. false) (λ s. every_sixty) 100 0).1
reconcile-Creates_example = reconcile-Creates counts naming (λ a b. false) (λ s. every_sixty) 100 0

one_created : (reconcile counter naming (λ a b. false) (λ s. every_sixty) 100 0).1 ≡ 1
unfolding reconcile reconcile_valid trigger handle_cron earliest_tick admit start_run create_run
    owned_among is_owned requeue_of latest_missed_tick scan_ticks active_runs prune_history
    prune_group delete_runs victims settled_in sort_runs is_settled find_run apply_run_status
    child_name last_run latest_success record_run sort_names insert_name contains
one_created = refl

first_handled :
    (handle_cron counter naming nightly fresh every_sixty 100 [] [] 0).0
    ≡ ok (record {
      status = record fresh {
        ready = some (record { is_true = true; reason = "Scheduled" });
        active = (codes "nightly-" ++ (90 ∷ [])) ∷ [];
        active_count = 1;
        last_schedule_time = some 90;
        last_run_name = codes "nightly-" ++ (90 ∷ []);
        last_run_phase = "";
      };
      clear_token = false;
      wait = 0;
    })
unfolding handle_cron earliest_tick admit start_run create_run latest_missed_tick scan_ticks
    find_run child_name record_run sort_names insert_name is_settled contains
first_handled = refl

advances : Advances every_sixty.next
advances t u e = ground arith

handle_cron-IsNext_example : IsNext none (last_tick nightly) 100 (record {
  status = record fresh {
    ready = some (record { is_true = true; reason = "Scheduled" });
    active = (codes "nightly-" ++ (90 ∷ [])) ∷ [];
    active_count = 1;
    last_schedule_time = some 90;
    last_run_name = codes "nightly-" ++ (90 ∷ []);
    last_run_phase = "";
  };
  clear_token = false;
  wait = 0;
})
handle_cron-IsNext_example =
    handle_cron-IsNext counter naming nightly fresh 100 every_sixty [] [] 0 _ advances first_handled
