-- ===== src/Schedule/Advance.antt =====
-- How the recorded tick of a schedule moves.
use pxc_anonymizer.Prelude.{
  ℕ, zero, suc, ◌+◌, ◌≤◌, ◌<◌, ◌≡◌, refl, ◌⊎◌, inl, inr, ◌==◌, ◌/=◌, text_eq, nat_eq, Option, none,
  some, List, [], ◌∷◌, ltb, arith, Option-cases,
}
use pxc_anonymizer.Errors.{ok}
use pxc_anonymizer.Sql.{Yields, then-Yields, after-Yields, if-Yields, Yields-ok}
use pxc_anonymizer.Schedule.{Run, Missed, latest_missed_tick, delete_runs}
use pxc_anonymizer.Schedule.Ticks.{nth_tick, IsScan, latest_missed_tick-IsScan}
use pxc_anonymizer.Schedule.Status.{Status, child_name, find_run, record_run}
use pxc_anonymizer.Schedule.Controller.{
  Schedule, Api, Cron, Naming, Handled, last_tick, earliest_tick, within_deadline, admit, start_run,
  start_cron, cron_run, due_tick, handle_cron,
}

-- `Next` of the cron library is after its argument.
abbrev pub Advances : (ℕ → Option ℕ) → Type 0
Advances next = (t u : ℕ) → next t ≡ some u → t < u

nth_tick-le :
    (next : ℕ → Option ℕ) (earliest n t : ℕ)
    → Advances next
    → nth_tick next earliest n ≡ some t
    → earliest + n ≤ t
unfolding nth_tick
nth_tick-le next earliest zero t law e = ground arith
nth_tick-le next earliest (suc n) t law e = elim (Option-cases (nth_tick next earliest n)) [
  | inl nothing ↦ let impossible : none ≡ some t = rw nothing at e in absurd (cc)
  | inr (u, there) ↦
      let below = nth_tick-le next earliest n u law there in
      let step = law u t (rw there at e) in omega arith
]

-- A missed tick after the start of the search is after the recorded tick.
earliest_tick-le :
    (since now t : ℕ) (deadline : Option ℕ)
    → within_deadline since now deadline < t
    → t ≤ now
    → since < t
earliest_tick-le since now t none early late = early
earliest_tick-le since now t (some d) early late = ground arith

-- The recorded tick is as before, or a tick between the one recorded before and now.
abbrev pub IsNext : Option ℕ → ℕ → ℕ → Handled → Type 0
IsNext before since now h =
    (h.status.last_schedule_time ≡ before)
    ⊎ ((t : ℕ) × (h.status.last_schedule_time ≡ some t) × (since < t) × (t ≤ now))

record_run-last :
    (s : Status) (r : Run) → (record_run s r).last_schedule_time ≡ s.last_schedule_time
unfolding record_run
record_run-last s r = ground arith

module _ {C : Type 0} (A : Api C) (N : Naming) (s : Schedule) (status : Status) (now : ℕ) where
  abbrev KeepsLast : Option Handled → Type 0
  KeepsLast none = Unit
  KeepsLast (some h) = h.status.last_schedule_time ≡ status.last_schedule_time

  admit-last : (active : List Run) (c : C) → Yields KeepsLast (admit A N s status active c)
  unfolding admit
  admit-last [] c = tt
  admit-last (r ∷ active) c =
      if-Yields KeepsLast (s.concurrency_policy == "Allow") _ _ c (λ allow. tt)
        (λ more.
          if-Yields KeepsLast (s.concurrency_policy == "Replace") _ _ c
            (λ replace.
              after-Yields KeepsLast (delete_runs A.delete (r ∷ active) c) _ (λ u d. refl))
            (λ forbid. refl))

  start_cron-IsNext :
      (tick : ℕ) (name : List ℕ) (blocked : Option Handled) (c : C)
      → last_tick s < tick
      → tick ≤ now
      → KeepsLast blocked
      → Yields
          (IsNext status.last_schedule_time (last_tick s) now)
          (start_cron A N s status tick name blocked c)
  start_cron-IsNext tick name (some h) c early late keeps = inl keeps
  start_cron-IsNext tick name none c early late keeps =
      after-Yields (IsNext status.last_schedule_time (last_tick s) now)
        (start_run A N s status name [] c) _ (λ t d. inr (tick, refl, early, late))

  cron_run-IsNext :
      (tick : ℕ) (name : List ℕ) (active : List Run) (found : Option Run) (c : C)
      → last_tick s < tick
      → tick ≤ now
      → Yields
          (IsNext status.last_schedule_time (last_tick s) now)
          (cron_run A N s status tick name active found c)
  cron_run-IsNext tick name active (some r) c early late =
      if-Yields (IsNext status.last_schedule_time (last_tick s) now) (r.deleted /= 0) _ _ c
        (λ deleting. inl refl) (λ there. inr (tick, refl, early, late))
  cron_run-IsNext tick name active none c early late =
      then-Yields (IsNext status.last_schedule_time (last_tick s) now) KeepsLast
        (admit A N s status active c) _ (admit-last active c)
        (λ o d e. start_cron-IsNext tick name o d early late e)

  due_tick-IsNext :
      (next : ℕ → Option ℕ) (earliest : ℕ) (m : Missed) (owned active : List Run) (c : C)
      → Advances next
      → ((t : ℕ) → earliest < t → t ≤ now → last_tick s < t)
      → IsScan next earliest now m
      → Yields
          (IsNext status.last_schedule_time (last_tick s) now)
          (due_tick A N s status now owned active m c)
  unfolding IsScan
  due_tick-IsNext next earliest m owned active c law after
        (inl (few, small, inl (none_left, nothing), ahead)) =
      rw (few, nothing) (inl refl)
  due_tick-IsNext next earliest m owned active c law after
        (inl (few, small, inr (t, some_left, there, nth, late), ahead)) =
      let below = nth_tick-le next earliest m.count t law nth in
      let name = child_name N.token_hash s.name (N.time_suffix t) in
      rw (few, there)
        (cron_run-IsNext t name active (find_run owned name) c (after t (omega arith) late) late)
  due_tick-IsNext next earliest m owned active c law after (inr (many, nothing, (t, nth, late))) =
      let below = nth_tick-le next earliest 101 t law nth in
      rw many (inr (now, refl, after now (omega arith) (omega arith), omega arith))

  -- Where the cron library's next tick is always after its argument, a scheduled tick that is handled
  -- without an error leaves the recorded tick as it was, or records one that is after the last recorded
  -- tick (the schedule's creation, if there is none) and not after now. So no tick is recorded twice.
  pub handle_cron-IsNext :
      (cron : Cron) (owned active : List Run) (c : C) (h : Handled)
      → Advances cron.next
      → (handle_cron A N s status cron now owned active c).0 ≡ ok h
      → IsNext status.last_schedule_time (last_tick s) now h
  unfolding handle_cron earliest_tick
  handle_cron-IsNext cron owned active c h law done =
      let earliest = earliest_tick s now in
      Yields-ok (IsNext status.last_schedule_time (last_tick s) now)
        (handle_cron A N s status cron now owned active c) h
        (if-Yields (IsNext status.last_schedule_time (last_tick s) now) (ltb now earliest) _ _ c
          (λ ahead. inl refl)
          (λ due.
            due_tick-IsNext cron.next earliest (latest_missed_tick cron.next earliest now) owned
              active c law (λ t. earliest_tick-le (last_tick s) now t s.starting_deadline)
              (latest_missed_tick-IsScan cron.next earliest now)))
        done
