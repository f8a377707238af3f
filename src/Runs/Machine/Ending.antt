-- ===== src/Runs/Machine/Ending.antt =====
-- The cleanup of a run and the edges of the abstract machine.
use pxc_anonymizer.Prelude.{
  ℕ, String, ◌≡◌, refl, ◌∙◌, ◌⊎◌, inl, inr, Bool, true, false, ◌&&◌, ◌||◌, ◌==◌, ◌/=◌, text_eq,
  Option, none, some, Bool-cases, if◌then◌else◌,
}
use pxc_anonymizer.Schedule.Controller.{Requeue}
use pxc_anonymizer.Runs.{
  completed, TempCluster, Attempt, Status, Run, Object, ClusterView, Env, poll, set, patch_run,
}
use pxc_anonymizer.Runs.Anonymization.{delete_owned}
use pxc_anonymizer.Runs.Cleanup.{
  secrets_gone, secret_gone, waited, delete_unless, cluster_left, cluster_of, cleanup_cluster,
  cleaned, finished, is_failed, conclude, after_job, job_left, cleanup_run,
}
use pxc_anonymizer.Runs.Machine.{
  Edge, stay, Step, Keeps, kept, still, IsLocked, Goes, Stays, then-Goes, then-Stays, quiet-Goes,
  quiet-Stays, Stays-quiet, if-Goes, if-Stays, patch_run-Goes, patch_run-Stays,
}
use pxc_anonymizer.Runs.Machine.Attempts.{delete_owned-Stays}

module _ {C K : Type 0} {E : Env C K} {stored : C → Status K} (L : IsLocked E stored) (limit : ℕ)
    (r : Run K) where
  secrets_gone-Stays : (gone : Bool) (c : C) → Stays L limit c (secrets_gone E r gone c)
  secrets_gone-Stays true c = kept
  secrets_gone-Stays false c = kept

  secret_gone-Stays : (gone : Bool) (c : C) → Stays L limit c (secret_gone E r gone c)
  secret_gone-Stays false c = kept
  secret_gone-Stays true c =
      quiet-Stays L limit c (E.api.generated_gone c r) _ (L.by_generated c r) secrets_gone-Stays

  delete_unless-Stays :
      (gone : Bool) (uid : String) (c : C) → Stays L limit c (delete_unless E gone uid c)
  delete_unless-Stays true uid c = kept
  delete_unless-Stays false uid c =
      if-Stays L limit (uid == "") _ _ c (λ fresh. kept)
        (λ saved. Stays-quiet L limit c (E.api.delete_object c uid).1 (L.by_delete c uid))

  -- A patch whose result is returned at once.
  waited-Stays :
      (new : Status K) (wait : ℕ) (c : C)
      → Keeps r.status new
      → Stays L limit c (waited E (patch_run E r r.status new wait) c)
  waited-Stays new wait c step =
      then-Stays L limit c (patch_run E r r.status new wait c) _
        (patch_run-Stays L limit r r.status new wait c step) (λ q d. kept)

  cluster_left-Stays :
      (t : TempCluster) (o : Option (Object ClusterView)) (c : C)
      → Stays L limit c (cluster_left E r t o c)
  cluster_left-Stays t (some o) c =
      if-Stays L limit o.is_owned _ _ c
        (λ owned.
          if-Stays L limit (t.uid == "") _ _ c
            (λ first.
              waited-Stays (record r.status { temp_cluster = some (record t { uid = o.uid }) }) 1 c
                kept)
            (λ known.
              if-Stays L limit (o.uid /= t.uid) _ _ c (λ changed. kept)
                (λ same.
                  then-Stays L limit c (delete_unless E o.is_deleting o.uid c) _
                    (delete_unless-Stays o.is_deleting o.uid c)
                    (λ u d.
                      waited-Stays (set E r "CleanedUp" false "Deleting" r.status) poll d kept))))
        (λ foreign. kept)
  cluster_left-Stays t none c =
      if-Stays L limit (t.secret_name == "") _ _ c (λ nameless. secret_gone-Stays true c)
        (λ named.
          then-Stays L limit c (delete_owned E "Secret" t.secret_name c) _
            (delete_owned-Stays L limit "Secret" t.secret_name c) secret_gone-Stays)

  cluster_of-Stays : (t : Option TempCluster) (c : C) → Stays L limit c (cluster_of E r t c)
  cluster_of-Stays none c = kept
  cluster_of-Stays (some t) c =
      if-Stays L limit (t.name == "") _ _ c (λ nameless. kept)
        (λ named.
          quiet-Stays L limit c (E.api.get_cluster c t.name) _ (L.by_cluster c _)
            (cluster_left-Stays t))

  cleanup_cluster-Stays : (c : C) → Stays L limit c (cleanup_cluster E r c)
  unfolding cleanup_cluster
  cleanup_cluster-Stays c = cluster_of-Stays r.status.temp_cluster c

  job_left-Stays :
      (ending : Bool) (a : Option Attempt) (c : C) → Stays L limit c (job_left E ending a c)
  job_left-Stays ending none c = kept
  job_left-Stays ending (some a) c =
      if-Stays L limit (ending && (a.job_name /= "")) _ _ c
        (λ busy. delete_owned-Stays L limit "Job" a.job_name c) (λ idle. kept)

  -- What lets a cleanup of a run that is not being deleted change its phase.
  abbrev pub MayEnd : Type 0
  MayEnd = (is_failed E r.status ≡ true) ⊎ Edge r.status.phase completed

  finished-Step : MayEnd → Step limit r.status (finished E r (cleaned E r r.status))
  finished-Step (inl failed_before) =
      rw
        (L.failed_apart r.status.conditions r.generation E.now true "TempClusterDeleted"
          ∙ failed_before)
        (stay r.status.phase, inl (refl, refl))
  finished-Step (inr edge) = elim (Bool-cases (is_failed E (cleaned E r r.status))) [
    | inl bad ↦ rw bad (stay r.status.phase, inl (refl, refl))
    | inr good ↦ rw good (edge, inl (refl, refl))
  ]

  conclude-Goes :
      (deleting : Bool) (q : Option Requeue) (c : C)
      → (deleting ≡ true) ⊎ MayEnd
      → Goes L limit c (conclude E r deleting q c)
  conclude-Goes deleting (some q) c may = still
  conclude-Goes true none c may =
      if-Goes L limit (E.is_same (cleaned E r r.status) r.status) _ _ c
        (λ same. quiet-Goes L limit c (E.api.remove_finalizer c) _ (L.by_remove c) (λ u d. still))
        (λ new. patch_run-Goes L limit r r.status _ 1 c (stay r.status.phase, inl (refl, refl)))
  conclude-Goes false none c (inl impossible) = absurd (cc)
  conclude-Goes false none c (inr may) = patch_run-Goes L limit r r.status _ 0 c (finished-Step may)

  after_job-Goes :
      (deleting gone : Bool) (c : C)
      → (deleting ≡ true) ⊎ MayEnd
      → Goes L limit c (after_job E r deleting gone c)
  after_job-Goes deleting false c may = still
  after_job-Goes deleting true c may =
      if-Goes L limit
        ((if deleting then false else true)
          && (r.spec.on_failure == "Retain")
          && is_failed E r.status)
        _ _ c
        (λ retained.
          patch_run-Goes L limit r r.status _ 0 c (stay r.status.phase, inl (refl, refl)))
        (λ removed.
          then-Goes L limit c (cleanup_cluster E r c) _ (cleanup_cluster-Stays c)
            (λ q d. conclude-Goes deleting q d may))

  pub cleanup_run-Goes :
      (deleting : Bool) (c : C)
      → (deleting ≡ true) ⊎ MayEnd
      → Goes L limit c (cleanup_run E r deleting c)
  unfolding cleanup_run
  cleanup_run-Goes deleting c may =
      then-Goes L limit c (job_left E (deleting || is_failed E r.status) r.status.anonymize c) _
        (job_left-Stays _ r.status.anonymize c) (λ gone d. after_job-Goes deleting gone d may)
