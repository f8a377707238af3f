-- ===== src/Schedule.antt =====
-- Schedules of runs (internal/controller/anonymizationschedule_controller.go): the latest missed tick,
-- the runs that are active, and those that the history limits remove.
pub mod Ticks
pub mod History
pub mod Pruning
pub mod Status
pub mod Controller
pub mod Creation
pub mod AtMostOne
pub mod Advance
use pxc_anonymizer.Prelude.{
  ℕ, zero, suc, ◌-◌, String, Bool, true, false, ◌&&◌, ◌||◌, Option, none, some, List, [], ◌∷◌, ltb,
  leb, ◌==◌, ◌/=◌, nat_eq, text_eq, length, take, if◌then◌else◌,
}
use pxc_anonymizer.Prelude.Int.{ℤ, pos, negsuc}
use pxc_anonymizer.Errors.{Err, Result, ok, err}
use pxc_anonymizer.Sql.{Io, ◌>>=◌, ◌>>◌, pure}
use pxc_anonymizer.Backups.{text_lt}

abbrev pub max_missed_ticks : ℕ
max_missed_ticks = 100

-- What `scheduleLatestMissedTick` returns.
pub record Missed : Type 0 where
  pub latest : Option ℕ
  pub count : ℕ
  pub too_many : Bool

-- The loop, with the rounds that are left, on the tick that `Next` gave last (`none` is the zero time).
unfoldable pub scan_ticks : (ℕ → Option ℕ) → ℕ → ℕ → Option ℕ → Option ℕ → ℕ → Missed
scan_ticks next now zero tick latest count = record {
  latest = none;
  count = count;
  too_many = true;
}
scan_ticks next now (suc left) none latest count = record {
  latest = latest;
  count = count;
  too_many = false;
}
scan_ticks next now (suc left) (some tick) latest count =
    let rest = scan_ticks next now left (next tick) (some tick) (suc count) in
    if ltb now tick
    then record { latest = latest; count = count; too_many = false }
    else if ltb max_missed_ticks (suc count)
    then record { latest = none; count = suc count; too_many = true }
    else rest

-- `scheduleLatestMissedTick`; `next` is the cron schedule's `Next`. The loop ends after at most 101
-- ticks, so that 102 rounds are enough.
unfoldable pub latest_missed_tick : (ℕ → Option ℕ) → ℕ → ℕ → Missed
latest_missed_tick next earliest now = scan_ticks next now 102 (next earliest) none 0

-- The controller reference of an object (`metav1.GetControllerOf`), with the group of its API version, if
-- that parses.
pub record Owner : Type 0 where
  pub uid : String
  pub name : List ℕ
  pub kind : String
  pub group : Option String

-- The fields of an `AnonymizationRun` that are read here. A time is the nanoseconds since the year 1; 0
-- is a time that is not set. A name is the list of its bytes.
pub record Run : Type 0 where
  pub name : List ℕ
  pub namespace : String
  pub uid : String
  pub created : ℕ
  pub deleted : ℕ
  pub phase : String
  pub completed_at : Option ℕ
  pub is_true : String → Bool  -- `meta.IsStatusConditionTrue` of its conditions
  pub owner : Option Owner
  pub token_hash : List ℕ  -- the run-now hash annotation, empty if there is none

-- `scheduleRunSettled`.
unfoldable pub is_settled : Run → Bool
is_settled r =
    if r.deleted /= 0
    then false
    else if (r.phase /= "Completed") && (r.phase /= "Failed")
    then false
    else r.is_true "CleanedUp" || r.is_true "Retained"

-- `scheduleActiveRuns`.
unfoldable pub active_runs : List Run → List Run
active_runs [] = []
active_runs (r ∷ runs) = let rest = active_runs runs in if is_settled r then rest else r ∷ rest

-- `scheduleRunCompletionTime`.
abbrev pub completion_time : Run → ℕ
completion_time r = elim r.completed_at [ none ↦ r.created | some t ↦ t ]

-- `scheduleRunCompletionOrder`, as whether the first run is before the second.
unfoldable pub is_before : Run → Run → Bool
is_before a b =
    if ltb (completion_time a) (completion_time b)
    then true
    else if ltb (completion_time b) (completion_time a)
    then false
    else text_lt a.name b.name

-- `slices.SortStableFunc` in that order.
unfoldable pub insert_run : Run → List Run → List Run
insert_run r [] = r ∷ []
insert_run r (s ∷ runs) =
    let rest = insert_run r runs in if is_before s r then s ∷ rest else r ∷ s ∷ runs

unfoldable pub sort_runs : List Run → List Run
sort_runs [] = []
sort_runs (r ∷ runs) = insert_run r (sort_runs runs)

-- The settled runs of a phase that `pruneHistory` collects.
unfoldable pub settled_in : String → List Run → List Run
settled_in phase [] = []
settled_in phase (r ∷ runs) =
    let rest = settled_in phase runs in
    if is_settled r && (r.phase == phase) then r ∷ rest else rest

-- The runs that `pruneGroup` goes through.
unfoldable pub victims : List Run → ℕ → List Run
victims runs limit =
    if leb (length runs) limit then [] else take (length runs - limit) (sort_runs runs)

-- What the API server answers to a deletion.
pub data Deletion : Type 0 where
  removed not_found : Deletion
  refused : Err → Deletion

abbrev pub deletion_result : {C : Type 0} → Deletion × C → Result (Unit {0}) × C
deletion_result (removed, c) = (ok tt, c)
deletion_result (not_found, c) = (ok tt, c)
deletion_result (refused e, c) = (err e, c)

module _ {C : Type 0} (delete : C → String → Deletion × C) where
  -- `deleteRun`; the precondition of the deletion is the run's UID.
  unfoldable pub delete_run : Run → Io C (Unit {0})
  delete_run r c = if r.deleted /= 0 then (ok tt, c) else deletion_result (delete c r.uid)

  -- `deleteRuns`, and the loop of `pruneGroup`.
  unfoldable pub delete_runs : List Run → Io C (Unit {0})
  delete_runs [] = pure tt
  delete_runs (r ∷ runs) = do delete_run r; delete_runs runs

  -- `pruneGroup`, with a limit below 0 read as 0.
  unfoldable pub prune_group : List Run → ℤ → Io C (Unit {0})
  prune_group runs (pos limit) = delete_runs (victims runs limit)
  prune_group runs (negsuc n) = delete_runs (victims runs 0)

  -- `pruneHistory`, with the two limits of the schedule's specification.
  unfoldable pub prune_history : List Run → ℤ → ℤ → Io C (Unit {0})
  prune_history owned successful failed = do
    prune_group (settled_in "Completed" owned) successful
    prune_group (settled_in "Failed" owned) failed
