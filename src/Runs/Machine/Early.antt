-- ===== src/Runs/Machine/Early.antt =====
-- The handlers up to the restore and the edges of the abstract machine.
use pxc_anonymizer.Prelude.{
  ℕ, ◌*◌, String, ◌≡◌, refl, ◌⊎◌, inl, inr, ◌||◌, ◌==◌, ◌/=◌, text_eq, Option, none, some,
}
use pxc_anonymizer.Sql.{lift}
use pxc_anonymizer.Runs.{
  pending, resolving_source, provisioning, restoring, TempCluster, Status, Run, Object, ClusterView,
  RestoreView, Prepared, snapshot, invalid, Env, minute, hour, expired, patch_run,
}
use pxc_anonymizer.Runs.Pipeline.{
  resolved, resolve_run, cluster_seen, check_cluster, provision_cluster, provision_with,
  provision_run, required, restore_seen, with_restore, find_restore, restore_into, restore_with,
  restore_run, chosen_name,
}
use pxc_anonymizer.Runs.Machine.{
  IsLive, Edge, stay, resolve, resolve_source, restore, anonymize, still, IsLocked, Goes, then-Goes,
  quiet-Goes, if-Goes, patch_run-Goes, patch_run-Stays, kept, fail_run-Goes,
}

module _ {C K : Type 0} {E : Env C K} {stored : C → Status K} (L : IsLocked E stored) (limit : ℕ)
    (r : Run K) where
  module _ (here : (r.status.phase ≡ pending) ⊎ (r.status.phase ≡ resolving_source)) where
    resolving-IsLive : IsLive r.status.phase
    resolving-IsLive = elim here [ inl e ↦ rw e tt | inr e ↦ rw e tt ]

    resolving-Edge : Edge r.status.phase provisioning
    resolving-Edge = elim here [ inl e ↦ rw e resolve | inr e ↦ rw e resolve_source ]

    resolved-Goes : (p : Prepared) (c : C) → Goes L limit c (resolved E r p c)
    resolved-Goes (invalid kind reason) c = fail_run-Goes L limit r kind reason c resolving-IsLive
    resolved-Goes (snapshot destination hash reason) c =
        patch_run-Goes L limit r r.status _ 1 c (resolving-Edge, inl (refl, refl))

    pub resolve_run-Goes : (c : C) → Goes L limit c (resolve_run E r c)
    unfolding resolve_run
    resolve_run-Goes c =
        if-Goes L limit (expired E.now r.status.started_at r.spec.cluster_ready (30 * minute)) _ _ c
          (λ late. fail_run-Goes L limit r _ _ c resolving-IsLive)
          (λ early. quiet-Goes L limit c (E.api.prepare c r) _ (L.by_prepare c r) resolved-Goes)

  module _ (here : r.status.phase ≡ provisioning) where
    provisioning-IsLive : IsLive r.status.phase
    provisioning-IsLive = rw here tt

    cluster_seen-Goes :
        (t : TempCluster) (v : ClusterView) (c : C) → Goes L limit c (cluster_seen E r t v c)
    unfolding cluster_seen
    cluster_seen-Goes t v c =
        if-Goes L limit v.has_error _ _ c (λ bad. fail_run-Goes L limit r _ _ c provisioning-IsLive)
          (λ good.
            if-Goes L limit v.is_ready _ _ c
              (λ ready. patch_run-Goes L limit r r.status _ 1 c (rw here restore, inl (refl, refl)))
              (λ waiting. still))

    check_cluster-Goes :
        (t : TempCluster) (o : Object ClusterView) (c : C)
        → Goes L limit c (check_cluster E r t o c)
    unfolding check_cluster
    check_cluster-Goes t o c =
        if-Goes L limit o.is_owned _ _ c
          (λ owned.
            if-Goes L limit (o.uid == "") _ _ c (λ fresh. still)
              (λ saved.
                if-Goes L limit (t.uid == "") _ _ c
                  (λ first.
                    patch_run-Goes L limit r r.status _ 1 c (stay r.status.phase, inl (refl, refl)))
                  (λ again.
                    if-Goes L limit (t.uid /= o.uid) _ _ c
                      (λ changed. fail_run-Goes L limit r _ _ c provisioning-IsLive)
                      (λ same. quiet-Goes L limit c (lift o.view c) _ refl (cluster_seen-Goes t)))))
          (λ foreign. still)

    provision_cluster-Goes : (t : TempCluster) (c : C) → Goes L limit c (provision_cluster E r t c)
    provision_cluster-Goes t c =
        if-Goes L limit (t.name == "") _ _ c
          (λ nameless. fail_run-Goes L limit r _ _ c provisioning-IsLive)
          (λ named.
            if-Goes L limit (expired E.now t.created_at r.spec.cluster_ready (30 * minute)) _ _ c
              (λ late. fail_run-Goes L limit r _ _ c provisioning-IsLive)
              (λ early.
                if-Goes L limit (E.rendering.has_users r) _ _ c
                  (λ users.
                    quiet-Goes L limit c (E.api.create_child c "Secret" t.secret_name) _
                      (L.by_create c _ _)
                      (λ u d.
                        if-Goes L limit (E.rendering.has_cluster r) _ _ d
                          (λ rendered.
                            quiet-Goes L limit d
                              (E.api.create_child d "PerconaXtraDBCluster" t.name) _
                              (L.by_create d _ _)
                              (λ v e.
                                quiet-Goes L limit e (E.api.get_cluster e t.name) _
                                  (L.by_cluster e _)
                                  (λ found g.
                                    quiet-Goes L limit g (lift (required E found) g) _ refl
                                      (check_cluster-Goes t))))
                          (λ bad. fail_run-Goes L limit r _ _ d provisioning-IsLive)))
                  (λ bad. fail_run-Goes L limit r _ _ c provisioning-IsLive)))

    provision_with-Goes : (t : Option TempCluster) (c : C) → Goes L limit c (provision_with E r t c)
    provision_with-Goes none c = fail_run-Goes L limit r _ _ c provisioning-IsLive
    provision_with-Goes (some t) c = provision_cluster-Goes t c

    pub provision_run-Goes : (c : C) → Goes L limit c (provision_run E r c)
    unfolding provision_run
    provision_run-Goes c = provision_with-Goes r.status.temp_cluster c

  module _ (here : r.status.phase ≡ restoring) where
    restoring-IsLive : IsLive r.status.phase
    restoring-IsLive = rw here tt

    restore_seen-Goes : (v : RestoreView) (c : C) → Goes L limit c (restore_seen E r v c)
    unfolding restore_seen
    restore_seen-Goes v c =
        if-Goes L limit v.has_failed _ _ c (λ bad. fail_run-Goes L limit r _ _ c restoring-IsLive)
          (λ good.
            if-Goes L limit v.has_succeeded _ _ c
              (λ done.
                patch_run-Goes L limit r r.status _ 1 c (rw here anonymize, inl (refl, refl)))
              (λ waiting. still))

    with_restore-Goes :
        (name : String) (o : Option (Object RestoreView)) (c : C)
        → Goes L limit c (with_restore E r name o c)
    with_restore-Goes name none c =
        if-Goes L limit (r.status.restore_name /= "") _ _ c
          (λ vanished. fail_run-Goes L limit r _ _ c restoring-IsLive)
          (λ first.
            if-Goes L limit (E.rendering.has_restore r) _ _ c
              (λ rendered.
                then-Goes L limit c (patch_run E r r.status _ 1 c) _
                  (patch_run-Stays L limit r r.status _ 1 c kept)
                  (λ q d.
                    quiet-Goes L limit d (E.api.create_child d _ name) _ (L.by_create d _ _)
                      (λ u e. still)))
              (λ bad. fail_run-Goes L limit r _ _ c restoring-IsLive))
    with_restore-Goes name (some o) c =
        if-Goes L limit o.is_owned _ _ c
          (λ owned.
            if-Goes L limit (r.status.restore_name == "") _ _ c
              (λ first.
                patch_run-Goes L limit r r.status _ 1 c (stay r.status.phase, inl (refl, refl)))
              (λ again. quiet-Goes L limit c (lift o.view c) _ refl restore_seen-Goes))
          (λ foreign. still)

    find_restore-Goes : (name : Option String) (c : C) → Goes L limit c (find_restore E r name c)
    find_restore-Goes none c = fail_run-Goes L limit r _ _ c restoring-IsLive
    find_restore-Goes (some name) c =
        quiet-Goes L limit c (E.api.get_restore c name) _ (L.by_restore c name)
          (with_restore-Goes name)

    restore_into-Goes :
        (t : TempCluster) (o : Option (Object ClusterView)) (c : C)
        → Goes L limit c (restore_into E r t o c)
    restore_into-Goes t none c = fail_run-Goes L limit r _ _ c restoring-IsLive
    restore_into-Goes t (some o) c =
        if-Goes L limit o.is_owned _ _ c
          (λ owned.
            if-Goes L limit ((o.uid /= t.uid) || o.is_deleting) _ _ c
              (λ changed. fail_run-Goes L limit r _ _ c restoring-IsLive)
              (λ same. find_restore-Goes (chosen_name E r t) c))
          (λ foreign. still)

    restore_with-Goes :
        (source : Option String) (t : Option TempCluster) (c : C)
        → Goes L limit c (restore_with E r source t c)
    restore_with-Goes none t c = fail_run-Goes L limit r _ _ c restoring-IsLive
    restore_with-Goes (some s) none c = fail_run-Goes L limit r _ _ c restoring-IsLive
    restore_with-Goes (some s) (some t) c =
        if-Goes L limit
          (expired E.now (E.conditions.since r.status.conditions "Restored") r.spec.restore
            (3 * hour))
          _ _ c (λ late. fail_run-Goes L limit r _ _ c restoring-IsLive)
          (λ early.
            quiet-Goes L limit c (E.api.get_cluster c t.name) _ (L.by_cluster c _)
              (restore_into-Goes t))

    pub restore_run-Goes : (c : C) → Goes L limit c (restore_run E r c)
    unfolding restore_run
    restore_run-Goes c = restore_with-Goes r.status.source r.status.temp_cluster c
