-- ===== src/Report.antt =====
-- The termination report of a run: error classes and exit codes (internal/runner/report/report.go).
pub mod Laws
use pxc_anonymizer.Prelude.{
  ℕ, String, ◌<>◌, Bool, true, false, ◌&&◌, ◌||◌, Option, none, some, ◌==◌, nat_eq, if◌then◌else◌,
}
use pxc_anonymizer.Prelude.Decimal.{show_text}
use pxc_anonymizer.Errors.{
  Class, transient, policy, schema, permission, unique, Err, as_failure, as_mysql, is_uncertain,
}

-- The `switch` on the number of a database error.
abbrev mysql_class : ℕ → Class
mysql_class n =
    if (n == 1044) || (n == 1045) || (n == 1142) || (n == 1227)
    then permission
    else if (n == 1146) || (n == 1054)
    then schema
    else if n == 1062
    then unique
    else transient

abbrev is_transient : Class → Bool
is_transient transient = true
is_transient _ = false

-- The two tests of `Classify` and its last `return`, from what `errors.AsType` and `errors.Is` say.
classified : Option (Class × String) → Option ℕ → Bool → Class × String
classified (some f) n u = f
classified none (some n) u =
    let c = mysql_class n in
    (
      if is_transient c && u then policy else c,
      "database operation failed (MySQL " <> show_text n <> ")",
    )
classified none none u =
    if u
    then (policy, "SQL step outcome is uncertain; explicit recovery is required")
    else (transient, "database or I/O operation failed")

-- `Classify`: the class, and the message that may be published.
unfoldable pub classify : Err → Class × String
unfolding classified
classify e = classified (as_failure e) (as_mysql e) (is_uncertain e)

-- What a run reports of its outcome: `result` is `ok` or `error`, `class` is empty on success.
pub record Report : Type 0 where
  pub is_ok : Bool
  pub class : Option Class
  pub message : String

-- `ExitCode`.
unfoldable pub exit_code : Report → ℕ
exit_code r = if r.is_ok then 0 else elim r.class [
  | some policy ↦ 10
  | some schema ↦ 11
  | some permission ↦ 12
  | some unique ↦ 13
  | _ ↦ 1
]

-- The report that `engine.Run` makes of its error.
unfoldable pub report_of : Option Err → Report
unfolding classify
report_of none = record { is_ok = true; class = none; message = "anonymization completed" }
report_of (some e) = record { is_ok = false; class = some (classify e).0; message = (classify e).1 }
