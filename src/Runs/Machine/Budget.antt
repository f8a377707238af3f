-- ===== src/Runs/Machine/Budget.antt =====
-- The attempts of a run and its backoff limit.
use pxc_anonymizer.Prelude.{
  ℕ, suc, ◌≤◌, String, ◌≡◌, ◌≢◌, sym, ap, ◌∙◌, ◌⊎◌, inl, inr, Bool, Option, none, arith,
}
use pxc_anonymizer.Runs.{Attempt, Status, Env}
use pxc_anonymizer.Runs.Cleanup.{reconcile}
use pxc_anonymizer.Runs.Machine.{
  AttemptStep, attempt_count, job_of, Steps, at_once, and_then, IsLocked,
}
use pxc_anonymizer.Runs.Machine.Refinement.{IsFrozen, reconcile_refines}

-- The attempts so far are within the limit, or there is one more, whose job is not given up.
abbrev pub IsWithin : ℕ → Option Attempt → Type 0
IsWithin limit x = (attempt_count x ≤ limit) ⊎ ((attempt_count x ≡ suc limit) × (job_of x ≢ ""))

step-IsWithin :
    (limit : ℕ) (x y : Option Attempt) → AttemptStep limit x y → IsWithin limit x → IsWithin limit y
step-IsWithin limit x y (inl (same, named)) (inl few) = inl (rw same few)
step-IsWithin limit x y (inl (same, named)) (inr (last, busy)) =
    inr (same ∙ last, λ e. busy (sym named ∙ e))
step-IsWithin limit x y (inr (inl (next, idle, named))) (inl few) = elim (most few) [
  | inl less ↦ inl (rw next less)
  | inr all ↦ inr (next ∙ ap suc all, named)
]
  where
    most : attempt_count x ≤ limit → (suc (attempt_count x) ≤ limit) ⊎ (attempt_count x ≡ limit)
    most h = ground arith
step-IsWithin limit x y (inr (inl (next, idle, named))) (inr (last, busy)) = absurd (busy idle)
step-IsWithin limit x y (inr (inr (same, few, given_up))) w = inl (rw same few)

steps-IsWithin :
    {K : Type 0} {limit : ℕ} {s t : Status K}
    → Steps limit s t
    → IsWithin limit s.anonymize
    → IsWithin limit t.anonymize
steps-IsWithin at_once w = w
steps-IsWithin {limit} (and_then {t = m} {u = n} p (edge, step)) w =
    step-IsWithin limit m.anonymize n.anonymize step (steps-IsWithin p w)

-- Reconciliations at any times, and between them changes of the world that leave the run's status as it
-- is saved.
pub data History {C K : Type 0} (E : ℕ → Env C K) (stored : C → Status K)
    (before : String → String → Bool) (c : C) : C → Type 0 where
  now_at : History E stored before c c
  reconciled :
      {d : C}
      → History E stored before c d
      → (time : ℕ) → History E stored before c (reconcile (E time) before d).1
  changed :
      {d : C}
      → History E stored before c d
      → (e : C) → stored e ≡ stored d
      → History E stored before c e

pub History-Steps :
    {C K : Type 0} {E : ℕ → Env C K} {stored : C → Status K} {before : String → String → Bool}
    {c d : C} (L : (time : ℕ) → IsLocked (E time) stored) (limit : ℕ)
    → ((time : ℕ) → IsFrozen (L time) limit before)
    → History E stored before c d
    → Steps limit (stored c) (stored d)
History-Steps L limit frozen now_at = at_once
History-Steps {before} L limit frozen (reconciled {d} h time) =
    and_then (History-Steps L limit frozen h)
      (reconcile_refines (L time) limit before d (frozen time))
History-Steps L limit frozen (changed h e same) = rw same (History-Steps L limit frozen h)

-- However often a run is reconciled, and however the world changes in between, a run that starts
-- without an attempt has at most one attempt more than its backoff limit, provided that only this
-- controller writes its status.
pub attempts_bound :
    {C K : Type 0} {E : ℕ → Env C K} {stored : C → Status K} {before : String → String → Bool}
    {c d : C} (L : (time : ℕ) → IsLocked (E time) stored) (limit : ℕ)
    → ((time : ℕ) → IsFrozen (L time) limit before)
    → History E stored before c d
    → (stored c).anonymize ≡ none
    → attempt_count (stored d).anonymize ≤ suc limit
attempts_bound {stored} {c} {d} L limit frozen h fresh =
    elim (steps-IsWithin (History-Steps L limit frozen h) (rw fresh (inl (omega arith)))) [
      | inl few ↦ omega arith
      | inr (last, busy) ↦ omega arith
    ]
