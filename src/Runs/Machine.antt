-- ===== src/Runs/Machine.antt =====
-- The abstract machine of a run: its phases, the edges between them, and its attempts; and what it means
-- that a computation moves the saved status along them only.
pub mod Early
pub mod Attempts
pub mod Late
pub mod Ending
pub mod Refinement
pub mod Budget
pub mod Forward
use pxc_anonymizer.Prelude.{
  ℕ, suc, ◌≤◌, String, ◌≡◌, ◌≢◌, refl, sym, ap, ◌∙◌, ◌⊎◌, inl, inr, Bool, true, false, Option, none,
  some, List, [], ◌∷◌, arith, Bool-cases, if◌then◌else◌,
}
use pxc_anonymizer.Errors.{Result, ok, err}
use pxc_anonymizer.Sql.{Io, then_with, fail, pure}
use pxc_anonymizer.Schedule.Controller.{Requeue, after}
use pxc_anonymizer.Runs.{
  Phase, unset, pending, resolving_source, provisioning, restoring, anonymizing, backing_up,
  publishing, pruning, cleaning_up, completed, failed, unknown, Attempt, Status, Spec, Run, Backup,
  Env, patch_run, fail_run, observed,
}

-- The phases that a run can fail in.
abbrev pub IsLive : Phase → Type 0
IsLive unset = ⊥
IsLive completed = ⊥
IsLive p = Unit

-- The edges of the pipeline.
pub data Edge : Phase → Phase → Type 0 where
  stay : (p : Phase) → Edge p p
  begin : Edge unset pending
  resolve : Edge pending provisioning
  resolve_source : Edge resolving_source provisioning
  restore : Edge provisioning restoring
  anonymize : Edge restoring anonymizing
  backup : Edge anonymizing backing_up
  skip_backup : Edge anonymizing cleaning_up
  publish : Edge backing_up publishing
  prune : Edge publishing pruning
  clean : Edge pruning cleaning_up
  complete : Edge cleaning_up completed
  give_up : (p : Phase) → IsLive p → Edge p failed

abbrev pub attempt_count : Option Attempt → ℕ
attempt_count none = 0
attempt_count (some a) = a.attempts

abbrev pub job_of : Option Attempt → String
job_of none = ""
job_of (some a) = a.job_name

-- The attempt is the same one, it is the next one where none has a job, or its job is given up within
-- the limit.
abbrev pub AttemptStep : ℕ → Option Attempt → Option Attempt → Type 0
AttemptStep limit x y =
    ((attempt_count y ≡ attempt_count x) × (job_of y ≡ job_of x))
    ⊎ ((attempt_count y ≡ suc (attempt_count x)) × (job_of x ≡ "") × (job_of y ≢ ""))
    ⊎ ((attempt_count y ≡ attempt_count x) × (attempt_count x ≤ limit) × (job_of y ≡ ""))

-- One change of the saved status.
abbrev pub Step : {K : Type 0} → ℕ → Status K → Status K → Type 0
Step limit s t = Edge s.phase t.phase × AttemptStep limit s.anonymize t.anonymize

-- No change.
pub still : {p : Phase} {n : ℕ} {j : String} {A : Type 0} → Edge p p × ((n ≡ n) × (j ≡ j) ⊎ A)
still {p} = (stay p, inl (refl, refl))

-- A change that is none of the phase and none of the attempts.
abbrev pub Keeps : {K : Type 0} → Status K → Status K → Type 0
Keeps s t =
    (t.phase ≡ s.phase)
    × (attempt_count t.anonymize ≡ attempt_count s.anonymize)
    × (job_of t.anonymize ≡ job_of s.anonymize)

pub kept : {p : Phase} {n : ℕ} {j : String} → (p ≡ p) × (n ≡ n) × (j ≡ j)
kept = (refl, refl, refl)

Keeps-trans : {K : Type 0} (s t u : Status K) → Keeps s t → Keeps t u → Keeps s u
Keeps-trans s t u (p, n, j) (q, m, k) = (q ∙ p, m ∙ n, k ∙ j)

Keeps-Step :
    {K : Type 0} (limit : ℕ) (s t u : Status K) → Keeps s t → Step limit t u → Step limit s u
Keeps-Step limit s t u (p, n, j) step = rw (p, n, j) at step

Step-Keeps :
    {K : Type 0} (limit : ℕ) (s t u : Status K) → Step limit s t → Keeps t u → Step limit s u
Step-Keeps limit s t u step (p, n, j) = rw (p, n, j) step

-- A change of the attempt alone, and one of the phase alone.
abbrev pub Begins : {K : Type 0} → ℕ → Status K → Status K → Type 0
Begins limit s t = (t.phase ≡ s.phase) × AttemptStep limit s.anonymize t.anonymize

abbrev pub Ends : {K : Type 0} → Status K → Status K → Type 0
Ends s t =
    Edge s.phase t.phase
    × (attempt_count t.anonymize ≡ attempt_count s.anonymize)
    × (job_of t.anonymize ≡ job_of s.anonymize)

Begins-Ends :
    {K : Type 0} (limit : ℕ) (s t u : Status K) → Begins limit s t → Ends t u → Step limit s u
Begins-Ends limit s t u (p, step) (edge, n, j) = (rw p at edge, rw (n, j) step)

-- Any number of steps, one after the other.
pub data Steps {K : Type 0} (limit : ℕ) (s : Status K) : Status K → Type 0 where
  at_once : Steps limit s s
  and_then : {t u : Status K} → Steps limit s t → Step limit t u → Steps limit s u

-- Only a status patch changes the saved status, and only if the run was read with the status that is
-- saved. A lost answer may hide a patch that was made. The other laws are of the conditions' library
-- and of the names of jobs.
pub record IsLocked {C K : Type 0} (E : Env C K) (stored : C → Status K) : Type 0 where
  pub by_patch :
      (c : C) (base new : Status K)
      → (stored (E.api.patch_status c base new).1 ≡ stored c)
        ⊎ ((stored c ≡ base) × (stored (E.api.patch_status c base new).1 ≡ new))
  pub by_read : (c : C) → stored (E.api.read c).1 ≡ stored c
  pub by_add : (c : C) → stored (E.api.add_finalizer c).1 ≡ stored c
  pub by_remove : (c : C) → stored (E.api.remove_finalizer c).1 ≡ stored c
  pub by_prepare : (c : C) (r : Run K) → stored (E.api.prepare c r).1 ≡ stored c
  pub by_load : (c : C) (r : Run K) → stored (E.api.load_spec c r).1 ≡ stored c
  pub by_create :
      (c : C) (kind name : String) → stored (E.api.create_child c kind name).1 ≡ stored c
  pub by_backup : (c : C) (name : String) → stored (E.api.create_backup c name).1 ≡ stored c
  pub by_cluster : (c : C) (name : String) → stored (E.api.get_cluster c name).1 ≡ stored c
  pub by_restore : (c : C) (name : String) → stored (E.api.get_restore c name).1 ≡ stored c
  pub by_child : (c : C) (kind name : String) → stored (E.api.get_child c kind name).1 ≡ stored c
  pub by_get : (c : C) (name : String) → stored (E.api.get_backup c name).1 ≡ stored c
  pub by_pods : (c : C) (name : String) → stored (E.api.list_pods c name).1 ≡ stored c
  pub by_list : (c : C) → stored (E.api.list_backups c).1 ≡ stored c
  pub by_runs : (c : C) → stored (E.api.list_runs c).1 ≡ stored c
  pub by_delete : (c : C) (uid : String) → stored (E.api.delete_object c uid).1 ≡ stored c
  pub by_generated : (c : C) (r : Run K) → stored (E.api.generated_gone c r).1 ≡ stored c
  pub by_put : (c : C) (b : Backup) → stored (E.api.put_pointer c b).1 ≡ stored c
  pub is_named : (r : Run K) (n : ℕ) → E.rendering.job_name r n ≢ ""
  pub failed_apart :
      (k : K) (g t : ℕ) (b : Bool) (reason : String)
      → E.conditions.is_true (E.conditions.set k g t "CleanedUp" b reason) "Failed"
        ≡ E.conditions.is_true k "Failed"

module _ {C K : Type 0} {E : Env C K} {stored : C → Status K} (L : IsLocked E stored)
    (limit : ℕ) where
  -- The saved status makes one step at most.
  abbrev pub Goes : {B : Type 0} → C → Result B × C → Type 0
  Goes c q = Step limit (stored c) (stored q.1)

  -- The saved status keeps its phase, its attempt and its job.
  abbrev pub Stays : {B : Type 0} → C → Result B × C → Type 0
  Stays c q = Keeps (stored c) (stored q.1)

  pub Goes-quiet : (c d : C) → stored d ≡ stored c → Step limit (stored c) (stored d)
  Goes-quiet c d e = rw e still

  pub Stays-quiet : (c d : C) → stored d ≡ stored c → Keeps (stored c) (stored d)
  Stays-quiet c d e = rw e (refl, refl, refl)

  pub after-quiet :
      (c d e : C)
      → stored d ≡ stored c
      → Step limit (stored d) (stored e)
      → Step limit (stored c) (stored e)
  after-quiet c d e same h = rw same at h

  -- Only one of two calls may take a step.
  pub then-Goes :
      {B D : Type 0} (c : C) (q : Result B × C) (f : B → Io C D)
      → Stays c q
      → ((b : B) (d : C) → Goes d (f b d))
      → Goes c (then_with f q)
  then-Goes c (ok b, d) f h k = Keeps-Step limit (stored c) (stored d) (stored (f b d).1) h (k b d)
  then-Goes c (err e, d) f h k = Keeps-Step limit (stored c) (stored d) (stored d) h still

  pub Goes-then :
      {B D : Type 0} (c : C) (q : Result B × C) (f : B → Io C D)
      → Goes c q
      → ((b : B) (d : C) → Stays d (f b d))
      → Goes c (then_with f q)
  Goes-then c (ok b, d) f h k = Step-Keeps limit (stored c) (stored d) (stored (f b d).1) h (k b d)
  Goes-then c (err e, d) f h k = h

  pub then-Stays :
      {B D : Type 0} (c : C) (q : Result B × C) (f : B → Io C D)
      → Stays c q
      → ((b : B) (d : C) → Stays d (f b d))
      → Stays c (then_with f q)
  then-Stays c (ok b, d) f h k = Keeps-trans (stored c) (stored d) (stored (f b d).1) h (k b d)
  then-Stays c (err e, d) f h k = h

  -- A call that does not patch, before another computation.
  pub quiet-Goes :
      {B D : Type 0} (c : C) (q : Result B × C) (f : B → Io C D)
      → stored q.1 ≡ stored c
      → ((b : B) (d : C) → Goes d (f b d))
      → Goes c (then_with f q)
  quiet-Goes c q f e k = then-Goes c q f (Stays-quiet c q.1 e) k

  pub quiet-Stays :
      {B D : Type 0} (c : C) (q : Result B × C) (f : B → Io C D)
      → stored q.1 ≡ stored c
      → ((b : B) (d : C) → Stays d (f b d))
      → Stays c (then_with f q)
  quiet-Stays c q f e k = then-Stays c q f (Stays-quiet c q.1 e) k

  pub if-Goes :
      {B : Type 0} (b : Bool) (x y : Io C B) (c : C)
      → (b ≡ true → Goes c (x c))
      → (b ≡ false → Goes c (y c))
      → Goes c ((if b then x else y) c)
  if-Goes true x y c f g = f refl
  if-Goes false x y c f g = g refl

  pub if-Stays :
      {B : Type 0} (b : Bool) (x y : Io C B) (c : C)
      → (b ≡ true → Stays c (x c))
      → (b ≡ false → Stays c (y c))
      → Stays c ((if b then x else y) c)
  if-Stays true x y c f g = f refl
  if-Stays false x y c f g = g refl

  then_pure :
      {B D : Type 0} (q : Result B × C) (x : D) → (then_with {C = C} (λ b. pure x) q).1 ≡ q.1
  then_pure (ok b, c) x = refl
  then_pure (err e, c) x = refl

  -- What a patch saves: what was there before, or the new status in place of the one that was read.
  pub patch_run-Saves :
      (r : Run K) (base new : Status K) (wait : ℕ) (c : C) (R : Status K → Status K → Type 0)
      → ((s : Status K) → R s s)
      → R base (observed E r new)
      → R (stored c) (stored (patch_run E r base new wait c).1)
  unfolding patch_run
  patch_run-Saves r base new wait c R same step =
      elim (Bool-cases (E.is_same (observed E r new) base)) [
        | inl unchanged ↦ rw unchanged (same (stored c))
        | inr other ↦
            rw (other, then_pure (E.api.patch_status c base (observed E r new)) (after wait))
              (elim (L.by_patch c base (observed E r new)) [
                | inl kept ↦ rw kept (same (stored c))
                | inr (there, made) ↦ rw (there, made) step
              ])
      ]

  pub patch_run-Goes :
      (r : Run K) (base new : Status K) (wait : ℕ) (c : C)
      → Step limit base new
      → Goes c (patch_run E r base new wait c)
  patch_run-Goes r base new wait c step =
      patch_run-Saves r base new wait c (Step limit) (λ s. still) step

  pub patch_run-Stays :
      (r : Run K) (base new : Status K) (wait : ℕ) (c : C)
      → Keeps base new
      → Stays c (patch_run E r base new wait c)
  patch_run-Stays r base new wait c kept =
      patch_run-Saves r base new wait c Keeps (λ s. (refl, refl, refl)) kept

  -- The two patches of a reconciliation that begins an attempt and fails for want of a job.
  pub then-Begins :
      {B D : Type 0} (c : C) (q : Result B × C) (f : B → Io C D)
      → Begins limit (stored c) (stored q.1)
      → ((b : B) (d : C) → Ends (stored d) (stored (f b d).1))
      → Goes c (then_with f q)
  then-Begins c (ok b, d) f h k =
      Begins-Ends limit (stored c) (stored d) (stored (f b d).1) h (k b d)
  then-Begins c (err e, d) f (p, step) k = (rw p (stay (stored c).phase), step)

  pub fail_run-Ends :
      (r : Run K) (kind reason : String) (c : C)
      → IsLive r.status.phase
      → Ends (stored c) (stored (fail_run E r kind reason c).1)
  unfolding fail_run
  fail_run-Ends r kind reason c live =
      patch_run-Saves r r.status _ 1 c Ends (λ s. (stay s.phase, refl, refl))
        (give_up r.status.phase live, refl, refl)

  pub fail_run-Goes :
      (r : Run K) (kind reason : String) (c : C)
      → IsLive r.status.phase
      → Goes c (fail_run E r kind reason c)
  unfolding fail_run
  fail_run-Goes r kind reason c live =
      patch_run-Goes r r.status _ 1 c (give_up r.status.phase live, inl (refl, refl))
