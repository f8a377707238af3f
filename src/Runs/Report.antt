-- ===== src/Runs/Report.antt =====
-- The report of a runner that has terminated, and its pods (internal/controller/run_resources.go and
-- anonymizeRun).
use pxc_anonymizer.Prelude.{
  String, Bool, true, false, ◌&&◌, ◌||◌, ◌==◌, ◌/=◌, text_eq, Option, none, some, List, [], ◌∷◌,
  ◌++◌, ltb, if◌then◌else◌,
}
use pxc_anonymizer.Prelude.Int.{ℤ, pos, ltb_ℤ, ℤ_beq}
use pxc_anonymizer.Runs.{Content, Termination, Pod, Progress}

abbrev pub max_int32 : ℤ
max_int32 = pos 2147483647

-- `ExitCode` of a report that is decoded.
abbrev pub exit_of : Content → ℤ
exit_of r =
    if r.result == "ok"
    then pos 0
    else if r.class == "policy"
    then pos 10
    else if r.class == "schema"
    then pos 11
    else if r.class == "permission"
    then pos 12
    else if r.class == "unique"
    then pos 13
    else pos 1

abbrev pub is_class : String → Bool
is_class c =
    (c == "transient")
    || (c == "policy")
    || (c == "schema")
    || (c == "permission")
    || (c == "unique")

-- The tests of `runReport` on a report.
unfoldable pub is_valid_content : Content → String → ℤ → Bool
is_valid_content r hash exit =
    if (r.result /= "ok") && (r.result /= "error")
    then false
    else if ((r.result == "ok") && (r.class /= ""))
        || ltb_ℤ r.tables_done (pos 0)
        || ltb_ℤ r.tables_total r.tables_done
        || ltb_ℤ max_int32 r.tables_total
        || ltb_ℤ r.rows_done (pos 0)
        || ltb_ℤ r.steps_done (pos 0)
        || ltb_ℤ max_int32 r.steps_done
    then false
    else if (r.policy_hash /= hash) || (if ℤ_beq (exit_of r) exit then false else true)
    then false
    else if (r.result == "error") && (if is_class r.class then false else true)
    then false
    else true

-- `runReport`; `none` is a report that is not valid.
unfoldable pub run_report : Termination → String → Option Content
run_report t hash = if ltb 4096 t.length then none else elim t.report [
  | none ↦ none
  | some r ↦ if is_valid_content r hash t.exit_code then some r else none
]

-- `runReportReason`.
unfoldable pub report_reason : String → String
report_reason class =
    if class == "policy"
    then "PolicyError"
    else if class == "schema"
    then "SchemaMismatch"
    else if class == "permission"
    then "PermissionDenied"
    else if class == "unique"
    then "UniqueViolation"
    else "RunnerFailed"

-- The terminations of the runner's containers in the job's own pods.
unfoldable pub terminations : List Pod → List Termination
terminations [] = []
terminations (p ∷ pods) =
    let rest = terminations pods in if p.is_owned then p.terminated ++ rest else rest

-- `sampleRunProgress` on each of the job's own pods.
unfoldable pub sampled : Option Progress → List Pod → Option Progress
sampled p [] = p
sampled p (q ∷ pods) =
    sampled (if q.is_owned then (elim q.progress [ none ↦ p | some n ↦ some n ]) else p) pods
