-- ===== src/Schedule/Status.antt =====
-- The status of a schedule, as far as it is derived from its runs, and the names of its runs
-- (internal/controller/anonymizationschedule_controller.go).
use pxc_anonymizer.Prelude.{
  ℕ, ◌-◌, String, Bool, ◌||◌, Option, none, some, List, [], ◌∷◌, ◌++◌, ltb, leb, ◌==◌, list_eq,
  nat_eq, text_eq, length, take, contains, if◌then◌else◌,
}
use pxc_anonymizer.Backups.{text_lt}
use pxc_anonymizer.Schedule.{Run, is_settled}

-- A condition that the controller sets: its status and its reason; messages are left out.
pub record Condition : Type 0 where
  pub is_true : Bool
  pub reason : String

-- `api.AnonymizationScheduleStatus`.
pub record Status : Type 0 where
  pub observed_generation : ℕ
  pub valid : Option Condition  -- ScheduleValid
  pub ready : Option Condition  -- Ready
  pub active : List (List ℕ)
  pub active_count : ℕ
  pub last_schedule_time : Option ℕ
  pub last_successful_time : Option ℕ
  pub next_schedule_time : Option ℕ
  pub last_run_name : List ℕ
  pub last_run_phase : String

-- `setScheduleReady`.
abbrev pub set_ready : Status → Bool → String → Status
set_ready s b reason = record s { ready = some (record { is_true = b; reason = reason }) }

-- `slices.Sort` on names.
unfoldable pub insert_name : List ℕ → List (List ℕ) → List (List ℕ)
insert_name n [] = n ∷ []
insert_name n (m ∷ names) =
    let rest = insert_name n names in if text_lt m n then m ∷ rest else n ∷ m ∷ names

unfoldable pub sort_names : List (List ℕ) → List (List ℕ)
sort_names [] = []
sort_names (n ∷ names) = insert_name n (sort_names names)

abbrev pub run_names : List Run → List (List ℕ)
run_names [] = []
run_names (r ∷ runs) = r.name ∷ run_names runs

-- The last of the runs, which is the newest.
unfoldable pub last_run : List Run → Option Run
last_run [] = none
last_run (r ∷ []) = some r
last_run (r ∷ s ∷ runs) = last_run (s ∷ runs)

-- The later of two times, of which the second is a candidate.
abbrev pub later_time : Option ℕ → Option ℕ → Option ℕ
later_time t none = t
later_time none (some u) = some u
later_time (some t) (some u) = if ltb t u then some u else some t

-- The completion time of a run that counts as a success.
abbrev pub success_time : Run → Option ℕ
success_time r = if r.phase == "Completed" then r.completed_at else none

-- The loop over `latestSuccess`.
unfoldable pub latest_success : Option ℕ → List Run → Option ℕ
latest_success t [] = t
latest_success t (r ∷ runs) = latest_success (later_time t (success_time r)) runs

abbrev with_last_run : Status → Option Run → Status
with_last_run s none = s
with_last_run s (some r) = record s { last_run_name = r.name; last_run_phase = r.phase }

-- `applyScheduleRunStatus`.
unfoldable pub apply_run_status : Status → List Run → List Run → Status
apply_run_status s owned active =
    let t =
      with_last_run
        (record s { active = sort_names (run_names active); active_count = length active })
        (last_run owned) in
    record t {
      last_successful_time = later_time t.last_successful_time (latest_success none owned);
    }

-- `recordScheduledRun`.
unfoldable pub record_run : Status → Run → Status
record_run s r =
    let t = record s { last_run_name = r.name; last_run_phase = r.phase } in
    if is_settled r || contains t.active r.name then t else record t {
      active = sort_names (t.active ++ (r.name ∷ []));
      active_count = length (t.active ++ (r.name ∷ []));
    }

abbrev pub max_name_length : ℕ
max_name_length = 253

-- `strings.TrimRight(s, "-")`.
unfoldable pub trim_dashes : List ℕ → List ℕ
trim_dashes [] = []
trim_dashes (c ∷ s) = elim (trim_dashes s) [
  | [] ↦ if c == b'-' then [] else c ∷ []
  | d ∷ rest ↦ c ∷ d ∷ rest
]

-- `scheduleChildName`, with `token_hash` for `scheduleTokenHash`.
unfoldable pub child_name : (List ℕ → List ℕ) → List ℕ → List ℕ → List ℕ
child_name token_hash name suffix =
    let whole = name ++ (b'-' ∷ suffix) in
    let digest = take 8 (token_hash name) in
    if leb (length whole) max_name_length
    then whole
    else trim_dashes (take (max_name_length - length suffix - length digest - 2) name)
      ++ (b'-' ∷ digest ++ (b'-' ∷ suffix))

-- `findScheduleRun`.
unfoldable pub find_run : List Run → List ℕ → Option Run
find_run [] name = none
find_run (r ∷ runs) name = let rest = find_run runs name in if r.name == name then some r else rest
