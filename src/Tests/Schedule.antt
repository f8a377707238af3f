-- ===== src/Tests/Schedule.antt =====
-- An hourly schedule, and three runs of which the history keeps one.
use pxc_anonymizer.Prelude.{
  ◌++◌, ℕ, ◌+◌, ◌*◌, ◌/◌, ◌≡◌, ◌≢◌, String, refl, Bool, true, false, ◌==◌, text_eq, Option, none,
  some, List, [], ◌∷◌, length, All,
}
use pxc_anonymizer.Prelude.Int.{pos}
use pxc_anonymizer.Schedule.{
  Run, latest_missed_tick, scan_ticks, is_settled, victims, Deletion, removed, prune_history,
}
use pxc_anonymizer.Schedule.Ticks.{IsScan, latest_missed_tick-IsScan}
use mathlib.Core.List.{Perm}
use pxc_anonymizer.Schedule.History.{IsOlder, victims_oldest}
use pxc_anonymizer.Schedule.Pruning.{prune_history_keeps}

abbrev hourly : ℕ → Option ℕ
hourly t = some ((t / 60 + 1) * 60)

three_missed :
    latest_missed_tick hourly 30 200 ≡ record { latest = some 180; count = 3; too_many = false }
unfolding latest_missed_tick scan_ticks
three_missed = refl

latest_missed_tick-IsScan_example : IsScan hourly 30 200 (latest_missed_tick hourly 30 200)
latest_missed_tick-IsScan_example = latest_missed_tick-IsScan hourly 30 200

abbrev run : ℕ → String → Run
run n uid = record {
  name = n ∷ [];
  uid = uid;
  created = n;
  deleted = 0;
  phase = "Completed";
  completed_at = some (10 + n);
  is_true = λ type. type == "CleanedUp";
  namespace = "default";
  owner = none;
  token_hash = [];
}

abbrev runs : List Run
runs = run 3 "c" ∷ run 1 "a" ∷ run 2 "b" ∷ []

victims_oldest_example :
    (kept : List Run) × Perm (victims runs 1 ++ kept) runs
    × (length (victims runs 1) ≡ 2)
    × All (λ v. All (IsOlder v) kept) (victims runs 1)
victims_oldest_example = victims_oldest runs 1

-- The UIDs that were deleted, latest first.
abbrev deleting : List String → String → Deletion × List String
deleting gone uid = (removed, uid ∷ gone)

abbrev running : Run
running = record (run 9 "x") { phase = "Running" }

contradiction : {b : Bool} → b ≡ true → b ≡ false → ⊥
contradiction h k = cc

-- A run of that name that is not settled.
abbrev IsSpared : Run → Type 0
IsSpared r = r.uid ≡ "x" → is_settled r ≡ false

spared : All IsSpared (run 1 "a" ∷ running ∷ [])
unfolding is_settled
spared = ((λ e. absurd (contradiction ((text_eq.same_iff "a" "x").1 e) refl)), ((λ e. refl), tt))

prune_history_keeps_example :
    All (λ uid. uid ≢ "x") (prune_history deleting (run 1 "a" ∷ running ∷ []) (pos 0) (pos 0) []).1
prune_history_keeps_example =
    prune_history_keeps deleting IsSpared (λ gone. All (λ uid. uid ≢ "x") gone)
      (λ r c s q h. ((λ e. absurd (contradiction s (q e))), h)) (run 1 "a" ∷ running ∷ []) (pos 0)
      (pos 0) [] spared tt
