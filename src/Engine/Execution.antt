-- ===== src/Engine/Execution.antt =====
-- The run of the engine over its plan (internal/runner/engine/engine.go): the checks of its options, the
-- order of steps and tables, and the end of the checkpoint. The decoding of the policy, the generator, the
-- preflight, the work on one table and the error group are parameters.
use pxc_anonymizer.Prelude.{
  ℕ, String, Bool, true, false, ◌||◌, ◌==◌, nat_eq, text_eq, List, [], ◌∷◌, map, length, ltb,
  if◌then◌else◌,
}
use pxc_anonymizer.Prelude.Int.{ℤ, pos, ltb_ℤ, ℤ_beq}
use pxc_anonymizer.Errors.{failure, policy, Result, ok, err}
use pxc_anonymizer.Sql.{Server, Io, ◌>>◌, pure}
use pxc_anonymizer.Checkpoint.{Key, ensure, drop}
use pxc_anonymizer.Checkpoint.Cursor.{Formats}
use pxc_anonymizer.Engine.{Pool, StepRef, World, steps, connection}

-- The fields of `Options` that are checked or passed on.
pub record Options : Type 0 where
  pub run_uid : List ℕ
  pub has_reference_time : Bool
  pub workers : ℤ
  pub page_size : ℤ
  pub dry_run : Bool
  pub disable_binlog : Bool

-- A database of the plan, with its tables of the type `T`.
pub record DatabasePlan (T : Type 0) : Type 0 where
  pub key : Key  -- of its checkpoints, but for the kind and the name
  pub pre : List StepRef
  pub post : List StepRef
  pub tables : List T

abbrev pub or_default : ℤ → ℤ → ℤ
or_default default n = if ℤ_beq n (pos 0) then default else n

abbrev pub is_outside_of : ℤ → ℤ → ℤ → Bool
is_outside_of low high n = ltb_ℤ n low || ltb_ℤ high n

-- The options with the defaults of `run`, or its refusal of them.
unfoldable pub prepare_options : Options → Result Options
prepare_options o =
    let p = record o {
      workers = or_default (pos 4) o.workers;
      page_size = or_default (pos 5000) o.page_size;
    } in
    if (length o.run_uid == 0)
      || ltb 128 (length o.run_uid)
      || (if o.has_reference_time then false else true)
    then err (failure policy "database, Run UID and fixed reference time are required")
    else if is_outside_of (pos 1) (pos 32) p.workers
        || is_outside_of (pos 1) (pos 50000) p.page_size
    then err (failure policy "workers must be 1..32 and page size 1..50000")
    else ok p

abbrev pub outside : {C A : Type 0} → Io C A → Io (World C) A
outside m (c, e) = ((m c).0, ((m c).1, e))

module _ {C T : Type 0} (P : Pool C) (S : Server C) (F : Formats)
    (table : T → Io (World C) (Unit {0}))
    (group : List (Io (World C) (Unit {0})) → Io (World C) (Unit {0})) where
  abbrev pub phase : DatabasePlan T → String → List StepRef → Io (World C) (Unit {0})
  phase d name refs = steps P S F d.key name 0 refs

  -- The body of the loop of `run` over the databases.
  abbrev pub database : DatabasePlan T → Io (World C) (Unit {0})
  database d = do phase d "pre" d.pre; group (map table d.tables); phase d "post" d.post

  unfoldable pub databases : List (DatabasePlan T) → Io (World C) (Unit {0})
  databases [] = pure tt
  databases (d ∷ ds) = do database d; databases ds

  -- The end of `run`: a checkpoint that may be left behind makes a retry unsafe.
  abbrev pub dropped : Result (Unit {0}) × World C → Result (Unit {0}) × World C
  dropped (ok u, w) = (ok tt, w)
  dropped (err x, w) =
      (err (failure policy "checkpoint cleanup outcome is uncertain; automatic retry is unsafe"), w)

  abbrev pub drop_checkpoint : Io (World C) (Unit {0})
  drop_checkpoint w = dropped (outside (λ c. drop S c) w)

  -- The part of `run` after the preflight.
  unfoldable pub execute_plan : Options → List (DatabasePlan T) → Io (World C) (Unit {0})
  execute_plan o plan = if o.dry_run then pure tt else (do
    outside (λ c. connection P S F o.disable_binlog c)
    outside (λ c. ensure S c)
    databases plan
    drop_checkpoint)
