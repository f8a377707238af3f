-- ===== src/Runs/Machine/Late.antt =====
-- The handlers of the output and the edges of the abstract machine.
use pxc_anonymizer.Prelude.{
  ℕ, ◌*◌, String, ◌≡◌, refl, inl, Bool, ◌&&◌, ◌==◌, nat_eq, text_eq, Option, none, some, List, [],
  ◌∷◌,
}
use pxc_anonymizer.Errors.{Result, ok, err}
use pxc_anonymizer.Sql.{lift}
use pxc_anonymizer.Runs.{
  backing_up, publishing, pruning, TempCluster, Output, Status, Run, Backup, Env, minute, hour,
  poll, expired,
}
use pxc_anonymizer.Runs.Pipeline.{required}
use pxc_anonymizer.Runs.Publication.{
  is_output, backup_done, backup_seen, with_backup, backup_into, backup_from, backup_run, uploaded,
  publish_backup, publish_from, publish_run, delete_backups, prune_with, prune_run,
}
use pxc_anonymizer.Runs.Machine.{
  IsLive, stay, publish, prune, clean, still, IsLocked, Goes, then-Goes, quiet-Goes, after-quiet,
  kept, Stays, quiet-Stays, if-Stays, if-Goes, patch_run-Goes, fail_run-Goes,
}

module _ {C K : Type 0} {E : Env C K} {stored : C → Status K} (L : IsLocked E stored) (limit : ℕ)
    (r : Run K) where
  module _ (here : r.status.phase ≡ backing_up) where
    backing-IsLive : IsLive r.status.phase
    backing-IsLive = rw here tt

    backup_done-Goes :
        (o : Output) (b : Backup) (t : Option ℕ) (c : C) → Goes L limit c (backup_done E r o b t c)
    backup_done-Goes o b none c = still
    backup_done-Goes o b (some t) c =
        if-Goes L limit (t == 0) _ _ c (λ unset. still)
          (λ done.
            if-Goes L limit (E.rendering.is_destination b.destination) _ _ c
              (λ good. patch_run-Goes L limit r r.status _ 1 c (rw here publish, inl (refl, refl)))
              (λ bad. fail_run-Goes L limit r _ _ c backing-IsLive))

    backup_seen-Goes : (o : Output) (b : Backup) (c : C) → Goes L limit c (backup_seen E r o b c)
    unfolding backup_seen
    backup_seen-Goes o b c =
        if-Goes L limit (is_output r.uid b) _ _ c
          (λ own.
            if-Goes L limit b.has_failed _ _ c (λ bad. fail_run-Goes L limit r _ _ c backing-IsLive)
              (λ good.
                if-Goes L limit b.has_succeeded _ _ c
                  (λ done. backup_done-Goes o b b.completed_at c) (λ running. still)))
          (λ foreign. still)

    with_backup-Goes :
        (o : Output) (b : Option Backup) (c : C) → Goes L limit c (with_backup E r o b c)
    with_backup-Goes o none c =
        quiet-Goes L limit c (E.api.create_backup c o.backup_name) _ (L.by_backup c _)
          (λ u d. still)
    with_backup-Goes o (some b) c = backup_seen-Goes o b c

    backup_into-Goes : (o : Option Output) (c : C) → Goes L limit c (backup_into E r o c)
    backup_into-Goes none c =
        patch_run-Goes L limit r r.status _ 1 c (stay r.status.phase, inl (refl, refl))
    backup_into-Goes (some o) c =
        if-Goes L limit
          (expired E.now (E.conditions.since r.status.conditions "BackedUp") r.spec.backup
            (3 * hour))
          _ _ c (λ late. fail_run-Goes L limit r _ _ c backing-IsLive)
          (λ early.
            if-Goes L limit (E.rendering.has_backup r) _ _ c
              (λ rendered.
                quiet-Goes L limit c (E.api.get_backup c o.backup_name) _ (L.by_get c _)
                  (with_backup-Goes o))
              (λ bad. fail_run-Goes L limit r _ _ c backing-IsLive))

    backup_from-Goes : (t : Option TempCluster) (c : C) → Goes L limit c (backup_from E r t c)
    backup_from-Goes none c = fail_run-Goes L limit r _ _ c backing-IsLive
    backup_from-Goes (some t) c = backup_into-Goes r.status.output c

    pub backup_run-Goes : (c : C) → Goes L limit c (backup_run E r c)
    unfolding backup_run
    backup_run-Goes c = backup_from-Goes r.status.temp_cluster c

  module _ (here : r.status.phase ≡ publishing) where
    publishing-IsLive : IsLive r.status.phase
    publishing-IsLive = rw here tt

    uploaded-Goes : (o : Output) (q : Result String × C) → Goes L limit q.1 (uploaded E r o q)
    uploaded-Goes o (ok etag, c) =
        patch_run-Goes L limit r r.status _ 1 c (rw here prune, inl (refl, refl))
    uploaded-Goes o (err e, c) =
        patch_run-Goes L limit r r.status _ poll c (stay r.status.phase, inl (refl, refl))

    publish_backup-Goes :
        (o : Output) (b : Backup) (c : C) → Goes L limit c (publish_backup E r o b c)
    unfolding publish_backup
    publish_backup-Goes o b c =
        if-Goes L limit (is_output r.uid b) _ _ c
          (λ own.
            if-Goes L limit (b.has_succeeded && (b.destination == o.destination)) _ _ c
              (λ good.
                after-quiet L limit c (E.api.put_pointer c b).1 _ (L.by_put c b)
                  (uploaded-Goes o (E.api.put_pointer c b)))
              (λ bad. fail_run-Goes L limit r _ _ c publishing-IsLive))
          (λ foreign. still)

    publish_from-Goes : (o : Option Output) (c : C) → Goes L limit c (publish_from E r o c)
    publish_from-Goes none c = fail_run-Goes L limit r _ _ c publishing-IsLive
    publish_from-Goes (some o) c =
        if-Goes L limit (o.destination == "") _ _ c
          (λ missing. fail_run-Goes L limit r _ _ c publishing-IsLive)
          (λ there.
            if-Goes L limit r.spec.has_pointer _ _ c
              (λ wanted.
                if-Goes L limit
                  (expired E.now (E.conditions.since r.status.conditions "Published") r.spec.publish
                    (10 * minute))
                  _ _ c (λ late. fail_run-Goes L limit r _ _ c publishing-IsLive)
                  (λ early.
                    quiet-Goes L limit c (E.api.get_backup c o.backup_name) _ (L.by_get c _)
                      (λ found d.
                        quiet-Goes L limit d (lift (required E found) d) _ refl
                          (publish_backup-Goes o))))
              (λ skipped.
                patch_run-Goes L limit r r.status _ 1 c (rw here prune, inl (refl, refl))))

    pub publish_run-Goes : (c : C) → Goes L limit c (publish_run E r c)
    unfolding publish_run
    publish_run-Goes c = publish_from-Goes r.status.output c

  module _ (here : r.status.phase ≡ pruning) (before : String → String → Bool) where
    delete_backups-Stays : (bs : List Backup) (c : C) → Stays L limit c (delete_backups E bs c)
    unfolding delete_backups
    delete_backups-Stays [] c = kept
    delete_backups-Stays (b ∷ bs) c =
        if-Stays L limit (b.uid == "") _ _ c (λ fresh. kept)
          (λ saved.
            quiet-Stays L limit c (E.api.delete_object c b.uid) _ (L.by_delete c _)
              (λ u d. delete_backups-Stays bs d))

    prune_with-Goes : (o : Option Output) (c : C) → Goes L limit c (prune_with E before r o c)
    prune_with-Goes none c = still
    prune_with-Goes (some o) c =
        if-Goes L limit (E.conditions.is_true r.status.conditions "Published") _ _ c
          (λ published. quiet-Goes L limit c (E.api.list_backups c) _ (L.by_list c) (λ backups d.
            quiet-Goes L limit d (E.api.list_runs d) _ (L.by_runs d) (λ runs e.
              then-Goes L limit e (delete_backups E _ e) _ (delete_backups-Stays _ e) (λ u g.
                patch_run-Goes L limit r r.status _ 1 g (rw here clean, inl (refl, refl))))))
          (λ early. still)

    pub prune_run-Goes : (c : C) → Goes L limit c (prune_run E before r c)
    unfolding prune_run
    prune_run-Goes c = prune_with-Goes r.status.output c
