-- ===== src/Schedule/AtMostOne.antt =====
-- The creations of a whole reconciliation.
use pxc_anonymizer.Prelude.{
  ℕ, ◌≡◌, refl, ap, ◌∙◌, ◌⊎◌, inl, inr, Bool, true, false, some, List, [], ◌∷◌, ◌==◌, nat_eq, All,
  Bool-cases, Option-cases, if-cases,
}
use pxc_anonymizer.Errors.{Result, ok, err}
use pxc_anonymizer.Sql.{Io}
use pxc_anonymizer.Schedule.{Run, active_runs, prune_history}
use pxc_anonymizer.Schedule.Pruning.{prune_history_keeps}
use pxc_anonymizer.Schedule.Status.{Status}
use pxc_anonymizer.Schedule.Controller.{
  Schedule, Api, Cron, Naming, Requeue, owned_among, trigger, persist_status, clear_if,
  reconcile_invalid, reconcile_valid, reconcile_found, reconcile, conflict_again,
}
use pxc_anonymizer.Schedule.Creation.{
  CountsCreations, Creates, Creates-map, trigger-Creates, then-IsQuiet, then-Creates, Creates-then,
}

All-unit : {A : Type 0} (xs : List A) → All (λ (x : A). Unit {0}) xs
All-unit [] = tt
All-unit (x ∷ xs) = (tt, All-unit xs)

module _ {C : Type 0} {A : Api C} {creations : C → ℕ} (L : CountsCreations A creations) (N : Naming)
    (is_same : Status → Status → Bool) where
  prune_history-IsQuiet :
      (owned : List Run) (s : Schedule) (c : C)
      → creations (prune_history A.delete owned s.successful_limit s.failed_limit c).1 ≡ creations c
  prune_history-IsQuiet owned s c =
      prune_history_keeps A.delete (λ r. Unit) (λ d. creations d ≡ creations c)
        (λ r d settled q e. L.by_delete d r.uid ∙ e) owned s.successful_limit s.failed_limit c
        (All-unit owned) refl

  persist_status-IsQuiet :
      (saved status : Status) (c : C)
      → creations (persist_status A N is_same saved status c).1 ≡ creations c
  persist_status-IsQuiet saved status c = elim (Bool-cases (is_same saved status)) [
    | inl same ↦ rw same refl
    | inr new ↦ rw new (L.by_patch c status)
  ]

  clear_if-IsQuiet : (b : Bool) (c : C) → creations (clear_if A N b c).1 ≡ creations c
  clear_if-IsQuiet true c = L.by_clear c
  clear_if-IsQuiet false c = refl

  reconcile_invalid-IsQuiet :
      (s : Schedule) (status : Status) (owned : List Run) (c : C)
      → creations (reconcile_invalid A N is_same s status owned c).1 ≡ creations c
  unfolding reconcile_invalid
  reconcile_invalid-IsQuiet s status owned c =
      then-IsQuiet L N (prune_history A.delete owned s.successful_limit s.failed_limit c) _
        (creations c) (prune_history-IsQuiet owned s c)
        (λ u d.
          then-IsQuiet L N (persist_status A N is_same s.status _ d) _ (creations d)
            (persist_status-IsQuiet s.status _ d) (λ v e. refl))

  reconcile_valid-Creates :
      (s : Schedule) (status : Status) (cron : Cron) (now : ℕ) (owned : List Run) (c : C)
      → Creates
          ((s.suspend ≡ false) × ((s.concurrency_policy ≡ "Allow") ⊎ (active_runs owned ≡ [])))
          (creations c)
          (creations (reconcile_valid A N is_same s status cron now owned c).1)
  unfolding reconcile_valid
  reconcile_valid-Creates s status cron now owned c =
      let begun = record status {
        valid = some (record { is_true = true; reason = "Parsed" });
        next_schedule_time = cron.next now;
      } in
      Creates-then L N (trigger A N s begun cron now owned (active_runs owned) c) _ (creations c)
        (trigger-Creates L N s begun cron now owned (active_runs owned) c)
        (λ h d.
          then-IsQuiet L N (prune_history A.delete owned s.successful_limit s.failed_limit d) _
            (creations d) (prune_history-IsQuiet owned s d)
            (λ u e.
              then-IsQuiet L N (persist_status A N is_same s.status h.status e) _ (creations e)
                (persist_status-IsQuiet s.status h.status e)
                (λ v g.
                  then-IsQuiet L N (clear_if A N h.clear_token g) _ (creations g)
                    (clear_if-IsQuiet h.clear_token g) (λ w i. refl))))

  -- What a reconciliation that creates a run has read.
  abbrev pub MayCreate : (Schedule → Cron) → C → Type 0
  MayCreate cron c =
      (s : Schedule) × (listed : List Run) × ((A.read c).0 ≡ ok (some s))
      × ((A.list (A.read c).1).0 ≡ ok listed)
      × ((s.deleted == 0) ≡ true)
      × ((cron s).is_valid ≡ true)
      × (s.suspend ≡ false)
      × ((s.concurrency_policy ≡ "Allow") ⊎ (active_runs (owned_among s listed) ≡ []))

  conflict_again-count :
      (q : Result Requeue × C) → creations (conflict_again A N q).1 ≡ creations q.1
  conflict_again-count (ok r, c) = refl
  conflict_again-count (err e, c) = elim (Bool-cases (A.is_conflict e)) [
    | inl conflict ↦ rw conflict refl
    | inr other ↦ rw other refl
  ]

  reconcile_found-Creates :
      (cron : Schedule → Cron) (s : Schedule) (now : ℕ) (c d : C)
      → A.read c ≡ (ok (some s), d)
      → Creates
          (MayCreate cron c)
          (creations d)
          (creations (reconcile_found A N is_same (cron s) now (some s) d).1)
  reconcile_found-Creates cron s now c d found = elim (Bool-cases (s.deleted == 0)) [
    | inr gone ↦ rw gone (inl refl)
    | inl kept ↦ rw kept (
        then-Creates L N (A.list d) _ (creations d) (L.by_list d) (λ listed b e.
          if-cases
            (λ (m : Io C Requeue). Creates (MayCreate cron c) (creations b) (creations (m b).1))
            (cron s).is_valid
            (λ valid.
              Creates-map
                (λ (running, free). (
                  s,
                  listed,
                  ap (λ q. q.0) found,
                  ap (λ q. q.0) (ap (λ q. A.list q.1) found) ∙ ap (λ q. q.0) e,
                  kept,
                  valid,
                  running,
                  free,
                ))
                (reconcile_valid-Creates s _ (cron s) now (owned_among s listed) b))
            (λ invalid. inl (reconcile_invalid-IsQuiet s _ (owned_among s listed) b))))
  ]

  -- One reconciliation asks the API server to create at most one run. When it does, the schedule that it
  -- read is not being deleted, its cron text is valid, it is not suspended, and its concurrency policy is
  -- Allow or none of its listed runs is active. The state counts the creations that are asked for.
  pub reconcile-Creates :
      (cron : Schedule → Cron) (now : ℕ) (c : C)
      → Creates (MayCreate cron c) (creations c) (creations (reconcile A N is_same cron now c).1)
  unfolding reconcile
  reconcile-Creates cron now c = rw (conflict_again-count _) (
      then-Creates L N (A.read c) _ (creations c) (L.by_read c) (λ o d e. elim (Option-cases o) [
        | inl none_there ↦ rw none_there (inl refl)
        | inr (s, there) ↦
            rw there (reconcile_found-Creates cron s now c d (e ∙ ap (λ x. (ok x, d)) there))
      ]))
