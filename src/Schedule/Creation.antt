-- ===== src/Schedule/Creation.antt =====
-- When a reconciliation creates a run, and how many.
use pxc_anonymizer.Prelude.{
  ℕ, suc, String, ◌≡◌, refl, ap, ◌∙◌, ◌⊎◌, inl, inr, false, Option, none, some, List, [], ◌∷◌, ◌==◌,
  ◌/=◌, text_eq, nat_eq, list_eq, arith, ◌++◌, take, codes, ltb, Bool-cases, Option-cases,
}
use pxc_anonymizer.Errors.{Result, ok, err}
use pxc_anonymizer.Sql.{Io, then_with, lift, pure}
use pxc_anonymizer.Schedule.{
  Run, Deletion, removed, not_found, refused, deletion_result, delete_run, delete_runs,
  latest_missed_tick, Missed,
}
use pxc_anonymizer.Schedule.Status.{Status, child_name, find_run, record_run}
use pxc_anonymizer.Schedule.Controller.{
  Schedule, Api, Creation, created, already_exists, not_created, Cron, Naming, Handled,
  earliest_tick, adopt, after_create, create_run, start_run, desired_run, admit, start_manual,
  manual_run, handle_manual, start_cron, cron_run, due_tick, handle_cron, trigger,
}

-- `creations` counts the creations that are asked for: each `create` is one, no other call is.
pub record CountsCreations {C : Type 0} (A : Api C) (creations : C → ℕ) : Type 0 where
  pub by_create : (c : C) (r : Run) → creations (A.create c r).1 ≡ suc (creations c)
  pub by_read : (c : C) → creations (A.read c).1 ≡ creations c
  pub by_list : (c : C) → creations (A.list c).1 ≡ creations c
  pub by_get : (c : C) (n : List ℕ) → creations (A.get c n).1 ≡ creations c
  pub by_delete : (c : C) (uid : String) → creations (A.delete c uid).1 ≡ creations c
  pub by_patch : (c : C) (s : Status) → creations (A.patch_status c s).1 ≡ creations c
  pub by_clear : (c : C) → creations (A.clear_token c).1 ≡ creations c

-- No creation, or one that is allowed.
abbrev pub Creates : Type 0 → ℕ → ℕ → Type 0
Creates Allowed n m = (m ≡ n) ⊎ ((m ≡ suc n) × Allowed)

pub Creates-map : {P Q : Type 0} {n m : ℕ} → (P → Q) → Creates P n m → Creates Q n m
Creates-map f (inl e) = inl e
Creates-map f (inr (e, p)) = inr (e, f p)

module _ {C : Type 0} {A : Api C} {creations : C → ℕ} (L : CountsCreations A creations)
    (N : Naming) where
  abbrev IsQuiet : {B : Type 0} → Io C B → Type 0
  IsQuiet m = (c : C) → creations (m c).1 ≡ creations c

  pub then-IsQuiet :
      {B D : Type 0} (q : Result B × C) (f : B → Io C D) (n : ℕ)
      → creations q.1 ≡ n
      → ((b : B) → IsQuiet (f b))
      → creations (then_with f q).1 ≡ n
  then-IsQuiet (ok b, c) f n e h = h b c ∙ e
  then-IsQuiet (err x, c) f n e h = e

  -- A quiet computation before one that may create.
  pub then-Creates :
      {B D Allowed : Type 0} (q : Result B × C) (f : B → Io C D) (n : ℕ)
      → creations q.1 ≡ n
      → ((b : B) (c : C) → q ≡ (ok b, c) → Creates Allowed (creations c) (creations (f b c).1))
      → Creates Allowed n (creations (then_with f q).1)
  then-Creates (ok b, c) f n e h = ground (arith, h b c refl)
  then-Creates (err x, c) f n e h = inl e

  -- A computation that may create before a quiet one.
  pub Creates-then :
      {B D Allowed : Type 0} (q : Result B × C) (f : B → Io C D) (n : ℕ)
      → Creates Allowed n (creations q.1)
      → ((b : B) → IsQuiet (f b))
      → Creates Allowed n (creations (then_with f q).1)
  Creates-then (ok b, c) f n (inl e) h = inl (h b c ∙ e)
  Creates-then (ok b, c) f n (inr (e, a)) h = inr (h b c ∙ e, a)
  Creates-then (err x, c) f n k h = k

  deletion_result-IsQuiet : (q : Deletion × C) → creations (deletion_result q).1 ≡ creations q.1
  deletion_result-IsQuiet (removed, c) = refl
  deletion_result-IsQuiet (not_found, c) = refl
  deletion_result-IsQuiet (refused e, c) = refl

  delete_run-IsQuiet : (r : Run) → IsQuiet (delete_run A.delete r)
  unfolding delete_run
  delete_run-IsQuiet r c = elim (Bool-cases (r.deleted /= 0)) [
    | inl gone ↦ rw gone refl
    | inr there ↦ rw there (deletion_result-IsQuiet (A.delete c r.uid) ∙ L.by_delete c r.uid)
  ]

  delete_runs-IsQuiet : (runs : List Run) → IsQuiet (delete_runs A.delete runs)
  unfolding delete_runs
  delete_runs-IsQuiet [] c = refl
  delete_runs-IsQuiet (r ∷ runs) c =
      then-IsQuiet (delete_run A.delete r c) (λ u. delete_runs A.delete runs) (creations c)
        (delete_run-IsQuiet r c) (λ u. delete_runs-IsQuiet runs)

  after_create-count :
      (s : Schedule) (r : Run) (q : Creation × C)
      → creations (after_create A N s r q).1 ≡ creations q.1
  after_create-count s r (created x, c) = refl
  after_create-count s r (not_created e, c) = refl
  after_create-count s r (already_exists, c) =
      then-IsQuiet (A.get c r.name) (λ x. lift (adopt A N s r x)) (creations c) (L.by_get c r.name)
        (λ x d. refl)

  create_run-count :
      (s : Schedule) (r : Run) (c : C) → creations (create_run A N s r c).1 ≡ suc (creations c)
  unfolding create_run
  create_run-count s r c = after_create-count s r (A.create c r) ∙ L.by_create c r

  start_run-Creates :
      {Allowed : Type 0} (s : Schedule) (status : Status) (name hash : List ℕ) (c : C)
      → Allowed
      → Creates Allowed (creations c) (creations (start_run A N s status name hash c).1)
  unfolding start_run
  start_run-Creates {Allowed} s status name hash c a =
      then-Creates (N.controller_reference s, c)
        (λ o. λ d.
          then_with (λ r. pure (record_run status r))
            (create_run A N s (desired_run A N s name hash o) d))
        (creations c) refl
        (λ o d e.
          Creates-then (create_run A N s (desired_run A N s name hash o) d)
            (λ r. pure (record_run status r)) (creations d)
            (inr (create_run-count s (desired_run A N s name hash o) d, a)) (λ r x. refl))

  -- What lets a run start next to the active ones.
  abbrev IsFree : Schedule → List Run → Type 0
  IsFree s active = (s.concurrency_policy ≡ "Allow") ⊎ (active ≡ [])

  admit-IsQuiet :
      (s : Schedule) (status : Status) (active : List Run) → IsQuiet (admit A N s status active)
  unfolding admit
  admit-IsQuiet s status [] c = refl
  admit-IsQuiet s status (r ∷ active) c = elim (Bool-cases (s.concurrency_policy == "Allow")) [
    | inl allow ↦ rw allow refl
    | inr other ↦ elim (Bool-cases (s.concurrency_policy == "Replace")) [
      | inl replace ↦
          rw (other, replace)
            (then-IsQuiet (delete_runs A.delete (r ∷ active) c) (λ u. pure (some _)) (creations c)
              (delete_runs-IsQuiet (r ∷ active) c) (λ u d. refl))
      | inr forbid ↦ rw (other, forbid) refl
    ]
  ]

  some_blocks : (h : Handled) → ◌≡◌ {A = Result (Option Handled)} (ok (some h)) (ok none) → ⊥
  some_blocks h e = absurd (cc)

  then_some_blocks :
      (q : Result (Unit {0}) × C) (h : Handled) → (then_with (λ u. pure (some h)) q).0 ≡ ok none → ⊥
  then_some_blocks (ok u, c) h e = absurd (cc)
  then_some_blocks (err x, c) h e = absurd (cc)

  admit-IsFree :
      (s : Schedule) (status : Status) (active : List Run) (c : C)
      → (admit A N s status active c).0 ≡ ok none
      → IsFree s active
  unfolding admit
  admit-IsFree s status [] c e = inr refl
  admit-IsFree s status (r ∷ active) c e = elim (Bool-cases (s.concurrency_policy == "Allow")) [
    | inl allow ↦ inl ((text_eq.same_iff s.concurrency_policy "Allow").0 allow)
    | inr other ↦ elim (Bool-cases (s.concurrency_policy == "Replace")) [
      | inl replace ↦
          absurd
            (then_some_blocks (delete_runs A.delete (r ∷ active) c) _ (rw (other, replace) at e))
      | inr forbid ↦ absurd (some_blocks _ (rw (other, forbid) at e))
    ]
  ]

  start_manual-Creates :
      {Allowed : Type 0} (s : Schedule) (status : Status) (name hash : List ℕ) (b : Option Handled)
      (c : C)
      → (b ≡ none → Allowed)
      → Creates Allowed (creations c) (creations (start_manual A N s status name hash b c).1)
  start_manual-Creates s status name hash (some h) c a = inl refl
  start_manual-Creates s status name hash none c a =
      Creates-then (start_run A N s status name hash c) (λ t. pure _) (creations c)
        (start_run-Creates s status name hash c (a refl)) (λ t d. refl)

  start_cron-Creates :
      {Allowed : Type 0} (s : Schedule) (status : Status) (tick : ℕ) (name : List ℕ)
      (b : Option Handled) (c : C)
      → (b ≡ none → Allowed)
      → Creates Allowed (creations c) (creations (start_cron A N s status tick name b c).1)
  start_cron-Creates s status tick name (some h) c a = inl refl
  start_cron-Creates s status tick name none c a =
      Creates-then (start_run A N s status name [] c) (λ t. pure _) (creations c)
        (start_run-Creates s status name [] c (a refl)) (λ t d. refl)

  manual_run-Creates :
      (s : Schedule) (status : Status) (name hash : List ℕ) (active : List Run) (found : Option Run)
      (c : C)
      → Creates
          (IsFree s active)
          (creations c)
          (creations (manual_run A N s status name hash active found c).1)
  manual_run-Creates s status name hash active (some r) c =
      elim (Bool-cases (r.token_hash /= hash)) [
        | inl foreign ↦ rw foreign (inl refl)
        | inr own ↦ elim (Bool-cases (r.deleted /= 0)) [
          | inl deleting ↦ rw (own, deleting) (inl refl)
          | inr there ↦ rw (own, there) (inl refl)
        ]
      ]
  manual_run-Creates s status name hash active none c =
      then-Creates (admit A N s status active c) (start_manual A N s status name hash) (creations c)
        (admit-IsQuiet s status active c)
        (λ b d e.
          start_manual-Creates s status name hash b d
            (λ free. admit-IsFree s status active c (ap (λ q. q.0) e ∙ ap ok free)))

  cron_run-Creates :
      (s : Schedule) (status : Status) (tick : ℕ) (name : List ℕ) (active : List Run)
      (found : Option Run) (c : C)
      → Creates
          (IsFree s active)
          (creations c)
          (creations (cron_run A N s status tick name active found c).1)
  cron_run-Creates s status tick name active (some r) c = elim (Bool-cases (r.deleted /= 0)) [
    | inl deleting ↦ rw deleting (inl refl)
    | inr there ↦ rw there (inl refl)
  ]
  cron_run-Creates s status tick name active none c =
      then-Creates (admit A N s status active c) (start_cron A N s status tick name) (creations c)
        (admit-IsQuiet s status active c)
        (λ b d e.
          start_cron-Creates s status tick name b d
            (λ free. admit-IsFree s status active c (ap (λ q. q.0) e ∙ ap ok free)))

  due_tick-Creates :
      (s : Schedule) (status : Status) (now : ℕ) (owned active : List Run) (m : Missed) (c : C)
      → Creates
          (IsFree s active)
          (creations c)
          (creations (due_tick A N s status now owned active m c).1)
  due_tick-Creates s status now owned active m c = elim (Bool-cases m.too_many) [
    | inl many ↦ rw many (inl refl)
    | inr few ↦ elim (Option-cases m.latest) [
      | inl no_tick ↦ rw (few, no_tick) (inl refl)
      | inr (tick, e) ↦
          rw (few, e)
            (cron_run-Creates s status tick (child_name N.token_hash s.name (N.time_suffix tick))
              active (find_run owned (child_name N.token_hash s.name (N.time_suffix tick))) c)
    ]
  ]

  handle_manual-Creates :
      (s : Schedule) (status : Status) (token : List ℕ) (owned active : List Run) (c : C)
      → Creates
          (IsFree s active)
          (creations c)
          (creations (handle_manual A N s status token owned active c).1)
  unfolding handle_manual
  handle_manual-Creates s status token owned active c =
      let hash = N.token_hash token in
      let name = child_name N.token_hash s.name (codes "manual-" ++ take 6 hash) in
      manual_run-Creates s status name hash active (find_run owned name) c

  handle_cron-Creates :
      (s : Schedule) (status : Status) (cron : Cron) (now : ℕ) (owned active : List Run) (c : C)
      → Creates
          (IsFree s active)
          (creations c)
          (creations (handle_cron A N s status cron now owned active c).1)
  unfolding handle_cron
  handle_cron-Creates s status cron now owned active c =
      let earliest = earliest_tick s now in
      elim (Bool-cases (ltb now earliest)) [
        | inl early ↦ rw early (inl refl)
        | inr due ↦ rw due (
            due_tick-Creates s status now owned active (latest_missed_tick cron.next earliest now)
              c)
      ]

  pub trigger-Creates :
      (s : Schedule) (status : Status) (cron : Cron) (now : ℕ) (owned active : List Run) (c : C)
      → Creates
          ((s.suspend ≡ false) × IsFree s active)
          (creations c)
          (creations (trigger A N s status cron now owned active c).1)
  unfolding trigger
  trigger-Creates s status cron now owned active c = elim (Bool-cases s.suspend) [
    | inl suspended ↦ rw suspended (inl refl)
    | inr running ↦ elim (Option-cases s.run_now) [
      | inr (token, e) ↦
          rw (running, e)
            (Creates-map (λ free. (refl, free))
              (handle_manual-Creates s status token owned active c))
      | inl automatic ↦
          rw (running, automatic)
            (Creates-map (λ free. (refl, free))
              (handle_cron-Creates s status cron now owned active c))
    ]
  ]
