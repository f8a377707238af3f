-- ===== src/Runs/Machine/Refinement.antt =====
-- The reconciliation of a run and the abstract machine.
use pxc_anonymizer.Prelude.{
  ℕ, String, ◌≡◌, refl, ◌⊎◌, inl, inr, Bool, true, false, ◌&&◌, ◌||◌, ◌==◌, nat_eq, Option, none,
  some, ltb, Bool-cases, or_true,
}
use pxc_anonymizer.Errors.{Result, ok, err}
use pxc_anonymizer.Schedule.Controller.{Requeue}
use pxc_anonymizer.Runs.{
  Phase, unset, pending, resolving_source, provisioning, restoring, anonymizing, backing_up,
  publishing, pruning, cleaning_up, completed, Status, Spec, Run, Env, effective,
}
use pxc_anonymizer.Runs.Cleanup.{
  is_unset, is_completed, is_resolving, is_failed, held, held_until, finish_run, handle, dispatch,
  with_spec, settled_spec, settled_run, live_run, reconcile_found, conflict_again, reconcile,
  cleanup_run,
}
use pxc_anonymizer.Runs.Machine.{
  IsLive, stay, begin, complete, Step, still, after-quiet, IsLocked, Goes, quiet-Goes, Goes-quiet,
  if-Goes, patch_run-Goes, fail_run-Goes,
}
use pxc_anonymizer.Runs.Machine.Early.{resolve_run-Goes, provision_run-Goes, restore_run-Goes}
use pxc_anonymizer.Runs.Machine.Attempts.{anonymize_run-Goes}
use pxc_anonymizer.Runs.Machine.Late.{backup_run-Goes, publish_run-Goes, prune_run-Goes}
use pxc_anonymizer.Runs.Machine.Ending.{MayEnd, cleanup_run-Goes}

unset_of : (p : Phase) → is_unset p ≡ true → p ≡ unset
unset_of unset h = refl
unset_of p h = absurd (cc)

completed_of : (p : Phase) → is_completed p ≡ true → p ≡ completed
completed_of completed h = refl
completed_of p h = absurd (cc)

resolving_of : (p : Phase) → is_resolving p ≡ true → (p ≡ pending) ⊎ (p ≡ resolving_source)
resolving_of pending h = inl refl
resolving_of resolving_source h = inr refl
resolving_of p h = absurd (cc)

rest-IsLive : (p : Phase) → is_unset p ≡ false → is_completed p ≡ false → IsLive p
rest-IsLive unset h k = absurd (cc)
rest-IsLive completed h k = absurd (cc)
rest-IsLive p h k = tt

or_false : (a b : Bool) → (a || b) ≡ false → b ≡ false
or_false true b h = absurd (cc)
or_false false b h = h

module _ {C K : Type 0} {E : Env C K} {stored : C → Status K} (L : IsLocked E stored) (limit : ℕ)
    (before : String → String → Bool) where
  held-Goes :
      (r : Run K) (until : Option ℕ) (c : C)
      → r.status.phase ≡ cleaning_up
      → Goes L limit c (held E r until c)
  held-Goes r none c here = cleanup_run-Goes L limit r false c (inr (inr (rw here complete)))
  held-Goes r (some end) c here =
      if-Goes L limit (ltb 0 (effective r.spec.hold 0) && ltb E.now end) _ _ c (λ holding. still)
        (λ over. cleanup_run-Goes L limit r false c (inr (inr (rw here complete))))

  finish_run-Goes :
      (r : Run K) (c : C) → r.status.phase ≡ cleaning_up → Goes L limit c (finish_run E r c)
  unfolding finish_run
  finish_run-Goes r c here = held-Goes r (held_until E r) c here

  handle-Goes :
      (r : Run K) (p : Phase) (c : C)
      → r.status.phase ≡ p
      → r.spec.backoff_limit ≡ limit
      → Goes L limit c (handle E before r p c)
  handle-Goes r provisioning c here budget = provision_run-Goes L limit r here c
  handle-Goes r restoring c here budget = restore_run-Goes L limit r here c
  handle-Goes r anonymizing c here budget = anonymize_run-Goes L limit r here budget c
  handle-Goes r backing_up c here budget = backup_run-Goes L limit r here c
  handle-Goes r publishing c here budget = publish_run-Goes L limit r here c
  handle-Goes r pruning c here budget = prune_run-Goes L limit r here before c
  handle-Goes r cleaning_up c here budget = finish_run-Goes r c here
  handle-Goes r p c here budget = still

  -- The snapshot's specification, which is immutable, has this backoff limit.
  abbrev pub IsFrozen : Type 0
  IsFrozen =
      (c : C) (r : Run K) (spec : Spec)
      → (E.api.load_spec c r).0 ≡ ok spec
      → spec.backoff_limit ≡ limit

  with_spec-Goes :
      (r : Run K) (q : Result Spec × C)
      → IsLive r.status.phase
      → ((spec : Spec) → q.0 ≡ ok spec → spec.backoff_limit ≡ limit)
      → Goes L limit q.1 (with_spec E before r q)
  unfolding dispatch
  with_spec-Goes r (ok spec, c) live frozen =
      handle-Goes (record r { spec = spec }) r.status.phase c refl (frozen spec refl)
  with_spec-Goes r (err e, c) live frozen = fail_run-Goes L limit r _ _ c live

  settled_spec-Goes :
      (r : Run K) (q : Result Spec × C)
      → MayEnd L limit r
      → Goes L limit q.1 (cleanup_run E (settled_spec E r q).0 false (settled_spec E r q).1)
  settled_spec-Goes r (ok spec, c) may =
      cleanup_run-Goes L limit (record r { spec = spec }) false c (inr may)
  settled_spec-Goes r (err e, c) may = cleanup_run-Goes L limit r false c (inr may)

  settled_spec-keeps : (r : Run K) (q : Result Spec × C) → (settled_spec E r q).1 ≡ q.1
  settled_spec-keeps r (ok spec, c) = refl
  settled_spec-keeps r (err e, c) = refl

  settled_run-Goes : (r : Run K) (c : C) → MayEnd L limit r → Goes L limit c (settled_run E r c)
  unfolding settled_run
  settled_run-Goes r c may =
      if-Goes L limit
        (E.conditions.is_true r.status.conditions "CleanedUp"
          || E.conditions.is_true r.status.conditions "Retained")
        _ _ c
        (λ over.
          rw (settled_spec-keeps r (E.api.load_spec c r)) (Goes-quiet L limit c _ (L.by_load c r)))
        (λ left.
          after-quiet L limit c (E.api.load_spec c r).1 _ (L.by_load c r)
            (settled_spec-Goes r (E.api.load_spec c r) may))

  live_run-Goes : (r : Run K) (c : C) → IsFrozen → Goes L limit c (live_run E before r c)
  unfolding live_run
  live_run-Goes r c frozen =
      if-Goes L limit (is_unset r.status.phase) _ _ c
        (λ new.
          patch_run-Goes L limit r r.status _ 1 c
            (rw (unset_of r.status.phase new) begin, inl (refl, refl)))
        (λ begun.
          if-Goes L limit r.has_finalizer _ _ c
            (λ held.
              if-Goes L limit (is_failed E r.status || is_completed r.status.phase) _ _ c
                (λ over.
                  settled_run-Goes r c
                    (elim (or_true (is_failed E r.status) (is_completed r.status.phase) over) [
                      | inl bad ↦ inl bad
                      | inr good ↦ inr (rw (completed_of r.status.phase good) (stay completed))
                    ]))
                (λ running.
                  if-Goes L limit (is_resolving r.status.phase) _ _ c
                    (λ early. resolve_run-Goes L limit r (resolving_of r.status.phase early) c)
                    (λ later. after-quiet L limit c (E.api.load_spec c r).1 _ (L.by_load c r) (
                      with_spec-Goes r (E.api.load_spec c r)
                        (rest-IsLive r.status.phase begun
                          (or_false (is_failed E r.status) (is_completed r.status.phase) running))
                        (frozen c r)))))
            (λ bare. quiet-Goes L limit c (E.api.add_finalizer c) _ (L.by_add c) (λ u d. still)))

  reconcile_found-Goes :
      (o : Option (Run K)) (c : C) → IsFrozen → Goes L limit c (reconcile_found E before o c)
  reconcile_found-Goes none c frozen = still
  reconcile_found-Goes (some r) c frozen =
      if-Goes L limit (r.deleted == 0) _ _ c (λ live. live_run-Goes r c frozen)
        (λ deleting.
          if-Goes L limit r.has_finalizer _ _ c
            (λ left. cleanup_run-Goes L limit r true c (inl refl)) (λ gone. still))

  conflict_again-Goes :
      (c : C) (q : Result Requeue × C) → Goes L limit c q → Goes L limit c (conflict_again E q)
  conflict_again-Goes c (ok x, d) h = h
  conflict_again-Goes c (err e, d) h = elim (Bool-cases (E.api.is_conflict e)) [
    | inl conflict ↦ rw conflict h
    | inr other ↦ rw other h
  ]

  -- Whatever a reconciliation reads and whatever the API server answers, the status that is saved after it
  -- is the one before it, or it is one step of the abstract machine further: its phase takes one edge of
  -- the pipeline at most, and its attempt stays the same one with its job, or is the next one, only where
  -- the attempt before has no job, or loses its job, only within the backoff limit. Status patches have the
  -- optimistic lock and may be made although their answer is lost; the snapshot's backoff limit is `limit`,
  -- and each job has a name.
  pub reconcile_refines :
      (c : C) → IsFrozen → Step limit (stored c) (stored (reconcile E before c).1)
  unfolding reconcile
  reconcile_refines c frozen =
      conflict_again-Goes c _ (
        quiet-Goes L limit c (E.api.read c) _ (L.by_read c)
          (λ o d. reconcile_found-Goes o d frozen))
