-- ===== src/Schedule/Controller.antt =====
-- The reconciliation of a schedule (`reconcileSchedule` and what it calls of
-- internal/controller/anonymizationschedule_controller.go). The API server, the clock, the cron
-- library and SHA-256 are not part of the repository: they are parameters.
use pxc_anonymizer.Prelude.{
  ℕ, ◌-◌, ◌*◌, ◌/◌, String, Bool, true, false, ◌&&◌, ◌||◌, Option, none, some, List, [], ◌∷◌, ◌++◌,
  ltb, leb, ◌==◌, ◌/=◌, list_eq, nat_eq, text_eq, length, take, codes, if◌then◌else◌,
}
use pxc_anonymizer.Prelude.Int.{ℤ}
use pxc_anonymizer.Errors.{Err, plain, Result, ok, err}
use pxc_anonymizer.Sql.{Io, ◌>>=◌, ◌>>◌, pure, fail, lift}
use pxc_anonymizer.Backups.{text_lt}
use pxc_anonymizer.Schedule.{
  Run, Owner, Deletion, active_runs, delete_runs, prune_history, latest_missed_tick, Missed,
}
use pxc_anonymizer.Schedule.Status.{
  Status, set_ready, apply_run_status, record_run, child_name, find_run,
}

-- The fields of an `AnonymizationSchedule` that are read here. The labels and the rest of the run
-- template are copied into each run and read by nothing here; `template_hash` is the run-now hash
-- that the template's own annotations may hold.
pub record Schedule : Type 0 where
  pub name : List ℕ
  pub namespace : String
  pub uid : String
  pub created : ℕ
  pub deleted : ℕ
  pub generation : ℕ
  pub suspend : Bool
  pub concurrency_policy : String
  pub starting_deadline : Option ℕ  -- seconds; the CRD's minimum is 0
  pub successful_limit : ℤ
  pub failed_limit : ℤ
  pub run_now : Option (List ℕ)  -- the run-now annotation
  pub template_hash : List ℕ
  pub status : Status

-- What the API server answers to the creation of a run.
pub data Creation : Type 0 where
  created : Run → Creation
  already_exists : Creation
  not_created : Err → Creation

-- The API server, on a state `C` that holds everything outside the program.
pub record Api (C : Type 0) : Type 0 where
  pub read : C → Result (Option Schedule) × C  -- Get, `none` for not found
  pub list : C → Result (List Run) × C
  pub create : C → Run → Creation × C
  pub get : C → List ℕ → Result Run × C
  pub delete : C → String → Deletion × C
  pub patch_status : C → Status → Result (Unit {0}) × C
  pub clear_token : C → Result (Unit {0}) × C
  pub is_conflict : Err → Bool

-- The cron library on the schedule's own text: `parseScheduleSpec`, and `Next` of what it parsed.
pub record Cron : Type 0 where
  pub is_valid : Bool
  pub next : ℕ → Option ℕ

-- SHA-256 in hexadecimal, the layout 200601021504 of a time, and what `SetControllerReference` makes.
pub record Naming : Type 0 where
  pub token_hash : List ℕ → List ℕ
  pub time_suffix : ℕ → List ℕ
  pub controller_reference : Schedule → Result Owner

-- What a reconciliation asks the queue for: nothing, a call after some nanoseconds, or one at once.
pub data Requeue : Type 0 where
  done : Requeue
  after : ℕ → Requeue
  again : Requeue

abbrev pub second : ℕ
second = 1000000000

abbrev pub deletion_requeue : ℕ
deletion_requeue = 10 * second

-- `ownedBySchedule`.
unfoldable pub is_owned : Schedule → Run → Bool
is_owned s r = if (r.namespace /= s.namespace) || (s.uid == "") then false else elim r.owner [
  | none ↦ false
  | some o ↦
      (o.uid == s.uid)
      && (o.name == s.name)
      && (o.kind == "AnonymizationSchedule")
      && (elim o.group [ none ↦ false | some g ↦ g == "pxc-anonymizer.io" ])
]

-- The order of `ownedRuns`.
abbrev pub is_older : Run → Run → Bool
is_older a b =
    if ltb a.created b.created
    then true
    else if ltb b.created a.created
    then false
    else text_lt a.name b.name

unfoldable pub insert_owned : Run → List Run → List Run
insert_owned r [] = r ∷ []
insert_owned r (s ∷ runs) =
    let rest = insert_owned r runs in if is_older s r then s ∷ rest else r ∷ s ∷ runs

-- The owned ones of the listed runs, sorted.
unfoldable pub owned_among : Schedule → List Run → List Run
owned_among s [] = []
owned_among s (r ∷ runs) =
    let rest = owned_among s runs in if is_owned s r then insert_owned r rest else rest

-- The start of the search for missed ticks in `handleCronTick`. The difference of two times is cut to
-- whole seconds towards zero.
abbrev pub last_tick : Schedule → ℕ
last_tick s = elim s.status.last_schedule_time [ none ↦ s.created | some t ↦ t ]

abbrev pub within_deadline : ℕ → ℕ → Option ℕ → ℕ
within_deadline since now none = since
within_deadline since now (some d) =
    if (leb since now && leb d ((now - since) / second))
      || (ltb now since && ltb (since - now) second && (d == 0))
    then now - d * second
    else since

unfoldable pub earliest_tick : Schedule → ℕ → ℕ
earliest_tick s now = within_deadline (last_tick s) now s.starting_deadline

-- `scheduleRequeueDelay`.
abbrev pub requeue_delay : ℕ → ℕ → ℕ
requeue_delay now next = if ltb now next then next - now else 1

-- The end of `reconcileSchedule`; a wait of 0 is none.
unfoldable pub requeue_of : ℕ → Option ℕ → ℕ → Requeue
requeue_of now none wait = if wait == 0 then done else after wait
requeue_of now (some next) wait =
    if (wait /= 0) && ltb wait (requeue_delay now next)
    then after wait
    else after (requeue_delay now next)

-- What a handler leaves: the status, whether the run-now token may be cleared, and a time to wait.
pub record Handled : Type 0 where
  pub status : Status
  pub clear_token : Bool
  pub wait : ℕ

abbrev pub handled : Status → Bool → String → Bool → ℕ → Handled
handled s b reason clear wait = record {
  status = set_ready s b reason;
  clear_token = clear;
  wait = wait;
}

module _ {C : Type 0} (A : Api C) (N : Naming) where
  -- `desiredRun`.
  abbrev pub desired_run : Schedule → List ℕ → List ℕ → Owner → Run
  desired_run s name hash owner = record {
    name = name;
    namespace = s.namespace;
    uid = "";
    created = 0;
    deleted = 0;
    phase = "";
    completed_at = none;
    is_true = λ type. false;
    owner = some owner;
    token_hash = if length hash == 0 then s.template_hash else hash;
  }

  -- The tests of `createRun` on the run that is there already.
  unfoldable pub adopt : Schedule → Run → Run → Result Run
  adopt s desired existing =
      if is_owned s existing
      then (if existing.deleted /= 0
          then err (plain "owned run is being deleted; refusing to reuse its name")
          else if (length desired.token_hash /= 0) && (existing.token_hash /= desired.token_hash)
          then err (plain "run carries a different run-now token hash; refusing to reuse the name")
          else ok existing)
      else err (plain "run already exists and is not controlled by this schedule")

  abbrev pub after_create : Schedule → Run → Creation × C → Result Run × C
  after_create s desired (created r, c) = (ok r, c)
  after_create s desired (not_created e, c) = (err e, c)
  after_create s desired (already_exists, c) =
      (do existing ← λ d. A.get d desired.name; lift (adopt s desired existing)) c

  -- `createRun`.
  unfoldable pub create_run : Schedule → Run → Io C Run
  create_run s desired c = after_create s desired (A.create c desired)

  -- The end of both handlers: `desiredRun`, `createRun` and `recordScheduledRun`.
  unfoldable pub start_run : Schedule → Status → List ℕ → List ℕ → Io C Status
  start_run s status name hash = do
    owner ← lift (N.controller_reference s)
    run ← create_run s (desired_run s name hash owner)
    pure (record_run status run)

  -- The `switch` on the concurrency policy; `none` lets a run start.
  unfoldable pub admit : Schedule → Status → List Run → Io C (Option Handled)
  admit s status [] = pure none
  admit s status (r ∷ active) =
      if s.concurrency_policy == "Allow"
      then pure none
      else if s.concurrency_policy == "Replace"
      then (do
        delete_runs A.delete (r ∷ active)
        pure (some (handled status false "Blocked" false deletion_requeue)))
      else pure (some (handled status false "Blocked" false 0))

  abbrev pub start_manual : Schedule → Status → List ℕ → List ℕ → Option Handled → Io C Handled
  start_manual s status name hash (some h) = pure h
  start_manual s status name hash none = do
    status' ← start_run s status name hash
    pure (handled status' true "Scheduled" true 0)

  abbrev pub manual_run : Schedule → Status → List ℕ → List ℕ → List Run → Option Run → Io C Handled
  manual_run s status name hash active (some existing) =
      if existing.token_hash /= hash
      then fail (plain "run exists for a different run-now token; refusing to reuse the name")
      else if existing.deleted /= 0
      then pure (handled status false "Blocked" false deletion_requeue)
      else pure (handled status true "Scheduled" true 0)
  manual_run s status name hash active none = do
    blocked ← admit s status active
    start_manual s status name hash blocked

  -- `handleManualTrigger`.
  unfoldable pub handle_manual : Schedule → Status → List ℕ → List Run → List Run → Io C Handled
  handle_manual s status token owned active =
      let hash = N.token_hash token in
      let name = child_name N.token_hash s.name (codes "manual-" ++ take 6 hash) in
      manual_run s status name hash active (find_run owned name)

  abbrev pub start_cron : Schedule → Status → ℕ → List ℕ → Option Handled → Io C Handled
  start_cron s status tick name (some h) = pure h
  start_cron s status tick name none = do
    status' ← start_run s status name []
    pure (handled (record status' { last_schedule_time = some tick }) true "Scheduled" false 0)

  abbrev pub cron_run : Schedule → Status → ℕ → List ℕ → List Run → Option Run → Io C Handled
  cron_run s status tick name active (some existing) =
      if existing.deleted /= 0
      then pure (handled status false "Blocked" false deletion_requeue)
      else pure (
          handled (record (record_run status existing) { last_schedule_time = some tick }) true
            "Scheduled" false 0)
  cron_run s status tick name active none = do
    blocked ← admit s status active
    start_cron s status tick name blocked

  abbrev pub due_tick : Schedule → Status → ℕ → List Run → List Run → Missed → Io C Handled
  due_tick s status now owned active m =
      if m.too_many
      then pure (handled (record status { last_schedule_time = some now }) true "Scheduled" false 0)
      else elim m.latest [
        | none ↦ pure (handled status true "Scheduled" false 0)
        | some tick ↦
            let name = child_name N.token_hash s.name (N.time_suffix tick) in
            cron_run s status tick name active (find_run owned name)
      ]

  -- `handleCronTick`.
  unfoldable pub handle_cron : Schedule → Status → Cron → ℕ → List Run → List Run → Io C Handled
  handle_cron s status cron now owned active =
      let earliest = earliest_tick s now in
      if ltb now earliest
      then pure (handled status true "Scheduled" false 0)
      else due_tick s status now owned active (latest_missed_tick cron.next earliest now)

  -- The `switch` of `reconcileSchedule`.
  unfoldable pub trigger : Schedule → Status → Cron → ℕ → List Run → List Run → Io C Handled
  trigger s status cron now owned active =
      if s.suspend then pure (handled status false "Suspended" false 0) else elim s.run_now [
        | some token ↦ handle_manual s status token owned active
        | none ↦ handle_cron s status cron now owned active
      ]

  -- A status update is sent only if it changes something; `is_same` is `equality.Semantic.DeepEqual`.
  abbrev pub persist_status : (Status → Status → Bool) → Status → Status → Io C (Unit {0})
  persist_status is_same saved status =
      if is_same saved status then pure tt else (λ c. A.patch_status c status)

  -- A schedule whose text does not parse: nothing is created.
  unfoldable pub reconcile_invalid :
      (Status → Status → Bool) → Schedule → Status → List Run → Io C Requeue
  reconcile_invalid is_same s status owned = do
    prune_history A.delete owned s.successful_limit s.failed_limit
    persist_status is_same s.status (
        set_ready
          (record status {
            valid = some (record { is_true = false; reason = "InvalidCron" });
            next_schedule_time = none;
          })
          false "InvalidCron")
    pure done

  -- `clearRunNowAnnotation` runs when the handler allows it.
  abbrev pub clear_if : Bool → Io C (Unit {0})
  clear_if true = λ c. A.clear_token c
  clear_if false = pure tt

  unfoldable pub reconcile_valid :
      (Status → Status → Bool) → Schedule → Status → Cron → ℕ → List Run → Io C Requeue
  reconcile_valid is_same s status cron now owned =
      let next = cron.next now in
      do
        h ←
            trigger s
              (record status {
                valid = some (record { is_true = true; reason = "Parsed" });
                next_schedule_time = next;
              })
              cron now owned (active_runs owned)
        prune_history A.delete owned s.successful_limit s.failed_limit
        persist_status is_same s.status h.status
        clear_if h.clear_token
        pure (requeue_of now next h.wait)

  abbrev pub reconcile_found : (Status → Status → Bool) → Cron → ℕ → Option Schedule → Io C Requeue
  reconcile_found is_same cron now none = pure done
  reconcile_found is_same cron now (some s) = if s.deleted /= 0 then pure done else (do
    listed ← λ c. A.list c
    let owned = owned_among s listed
    let status =
        apply_run_status (record s.status { observed_generation = s.generation }) owned
          (active_runs owned)
    if cron.is_valid
        then reconcile_valid is_same s status cron now owned
        else reconcile_invalid is_same s status owned)

  abbrev pub conflict_again : Result Requeue × C → Result Requeue × C
  conflict_again (ok r, c) = (ok r, c)
  conflict_again (err e, c) = if A.is_conflict e then (ok again, c) else (err e, c)

  -- `Reconcile`: a conflict is tried again at once.
  unfoldable pub reconcile : (Status → Status → Bool) → (Schedule → Cron) → ℕ → Io C Requeue
  reconcile is_same cron now c = conflict_again (
      (do
        s ← λ d. A.read d
        reconcile_found is_same
            (elim s [ none ↦ record { is_valid = false; next = λ t. none } | some x ↦ cron x ]) now
            s)
        c)
