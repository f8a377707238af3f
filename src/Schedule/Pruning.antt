-- ===== src/Schedule/Pruning.antt =====
-- What pruning deletes.
use pxc_anonymizer.Prelude.{
  ℕ, zero, suc, ◌-◌, String, ◌≡◌, ◌==◌, ◌/=◌, nat_eq, text_eq, true, ◌&&◌, List, [], ◌∷◌, length,
  take, leb, All, arith, Bool-cases, inl, inr,
}
use pxc_anonymizer.Prelude.Int.{ℤ, pos, negsuc}
use pxc_anonymizer.Errors.{Result, ok, err}
use pxc_anonymizer.Sql.{then_with}
use pxc_anonymizer.Schedule.{
  Run, is_settled, settled_in, sort_runs, victims, Deletion, removed, not_found, refused,
  deletion_result, delete_run, delete_runs, prune_group, prune_history,
}
use pxc_anonymizer.Schedule.History.{All-insert_run}

module _ (Q : Run → Type 0) where
  abbrev IsSettled : Run → Type 0
  IsSettled r = (is_settled r ≡ true) × Q r

  settled_in-IsSettled :
      (phase : String) (runs : List Run) → All Q runs → All IsSettled (settled_in phase runs)
  unfolding settled_in
  settled_in-IsSettled phase [] a = tt
  settled_in-IsSettled phase (r ∷ runs) a = elim (Bool-cases (is_settled r && (r.phase == phase))) [
    | inl good ↦ rw good ((ground arith, a.0), settled_in-IsSettled phase runs a.1)
    | inr bad ↦ rw bad (settled_in-IsSettled phase runs a.1)
  ]

  sort_runs-IsSettled : (runs : List Run) → All IsSettled runs → All IsSettled (sort_runs runs)
  unfolding sort_runs
  sort_runs-IsSettled [] a = tt
  sort_runs-IsSettled (r ∷ runs) a =
      All-insert_run IsSettled r (sort_runs runs) a.0 (sort_runs-IsSettled runs a.1)

  take-IsSettled : (n : ℕ) (runs : List Run) → All IsSettled runs → All IsSettled (take n runs)
  take-IsSettled zero runs a = tt
  take-IsSettled (suc n) [] a = tt
  take-IsSettled (suc n) (r ∷ runs) a = (a.0, take-IsSettled n runs a.1)

  victims-IsSettled :
      (runs : List Run) (limit : ℕ) → All IsSettled runs → All IsSettled (victims runs limit)
  unfolding victims
  victims-IsSettled runs limit a = elim (Bool-cases (leb (length runs) limit)) [
    | inl few ↦ rw few tt
    | inr many ↦
        rw many (take-IsSettled (length runs - limit) (sort_runs runs) (sort_runs-IsSettled runs a))
  ]

module _ {C : Type 0} (delete : C → String → Deletion × C) (Q : Run → Type 0) (I : C → Type 0)
    (keeps : (r : Run) (c : C) → is_settled r ≡ true → Q r → I c → I (delete c r.uid).1) where
  deletion_result-keeps : (q : Deletion × C) → I q.1 → I (deletion_result q).1
  deletion_result-keeps (removed, c) h = h
  deletion_result-keeps (not_found, c) h = h
  deletion_result-keeps (refused e, c) h = h

  delete_run-keeps : (r : Run) (c : C) → IsSettled Q r → I c → I (delete_run delete r c).1
  unfolding delete_run
  delete_run-keeps r c s h = elim (Bool-cases (r.deleted /= 0)) [
    | inl gone ↦ rw gone h
    | inr there ↦ rw there (deletion_result-keeps (delete c r.uid) (keeps r c s.0 s.1 h))
  ]

  then-keeps :
      (q : Result (Unit {0}) × C) (f : Unit {0} → C → Result (Unit {0}) × C)
      → I q.1
      → ((c : C) → I c → I (f tt c).1)
      → I (then_with f q).1
  then-keeps (ok u, c) f h g = g c h
  then-keeps (err e, c) f h g = h

  delete_runs-keeps :
      (runs : List Run) (c : C) → All (IsSettled Q) runs → I c → I (delete_runs delete runs c).1
  unfolding delete_runs
  delete_runs-keeps [] c a h = h
  delete_runs-keeps (r ∷ runs) c a h =
      then-keeps (delete_run delete r c) (λ u. delete_runs delete runs) (delete_run-keeps r c a.0 h)
        (λ d k. delete_runs-keeps runs d a.1 k)

  prune_group-keeps :
      (runs : List Run) (limit : ℤ) (c : C)
      → All (IsSettled Q) runs
      → I c
      → I (prune_group delete runs limit c).1
  unfolding prune_group
  prune_group-keeps runs (pos limit) c a h =
      delete_runs-keeps (victims runs limit) c (victims-IsSettled Q runs limit a) h
  prune_group-keeps runs (negsuc n) c a h =
      delete_runs-keeps (victims runs 0) c (victims-IsSettled Q runs 0 a) h

  -- Whatever the deletion of each settled run among the owned ones keeps true, `pruneHistory` keeps
  -- true, also where a deletion fails: it deletes no other run and changes nothing else.
  pub prune_history_keeps :
      (owned : List Run) (successful failed : ℤ) (c : C)
      → All Q owned
      → I c
      → I (prune_history delete owned successful failed c).1
  unfolding prune_history
  prune_history_keeps owned successful failed c a h =
      then-keeps (prune_group delete (settled_in "Completed" owned) successful c)
        (λ u. prune_group delete (settled_in "Failed" owned) failed)
        (prune_group-keeps (settled_in "Completed" owned) successful c
          (settled_in-IsSettled Q "Completed" owned a) h)
        (λ d k.
          prune_group-keeps (settled_in "Failed" owned) failed d
            (settled_in-IsSettled Q "Failed" owned a) k)
