-- ===== src/Policy.antt =====
-- Policies and their validation (internal/runner/policy/snapshot.go).
pub mod Valid
use pxc_anonymizer.Prelude.{
  ℕ, String, ◌<>◌, Bool, true, false, ◌&&◌, ◌||◌, Option, none, some, List, [], ◌∷◌, ◌++◌, ◌==◌,
  ◌/=◌, nat_eq, text_eq, contains, codes, length, ltb, if◌then◌else◌,
}
use pxc_anonymizer.Prelude.Int.{ℤ, pos, ltb_ℤ}
use pxc_anonymizer.Errors.{Result, ok, err, refuse_if}
use pxc_anonymizer.Strategy.Params.{
  SecretRef, Parsers, is_some, is_blank_ref, is_outside, has_any, or_else,
}
use pxc_anonymizer.Strategy.Compile.{Rule, Defaults, compile}
use pxc_anonymizer.Strategy.Unicode.{utf8}

-- `api.SQLStep`; its `continueOnError` is not read here.
pub record Step : Type 0 where
  pub name : String
  pub config_map_key : Option SecretRef
  pub secret_key : Option SecretRef

-- `api.ColumnRule`.
pub record ColumnRule : Type 0 where
  pub name : String
  pub rule : Rule

pub record TablePolicy : Type 0 where
  pub name : String
  pub action : String
  pub ignore_where : Option String
  pub columns : List ColumnRule
  pub page_size : Option ℤ

pub record DatabasePolicy : Type 0 where
  pub name : String
  pub name_pattern : String
  pub pre : List String
  pub post : List String
  pub tables : List TablePolicy

-- `api.AnonymizationPolicySpec`.
pub record Spec : Type 0 where
  pub mode : String
  pub seed : Option SecretRef
  pub defaults : Option Defaults
  pub steps : List Step
  pub databases : List DatabasePolicy

-- `PolicyDefaults{}`.
abbrev pub no_defaults : Defaults
no_defaults = record {
  page_size = pos 0;
  on_null = "";
  on_empty = "";
  locale = "";
  email_domain = "";
}

-- An object reference that is missing or names nothing.
abbrev pub is_missing_ref : Option SecretRef → Bool
is_missing_ref none = true
is_missing_ref (some r) = (r.name == "") || (r.key == "")

abbrev pub is_one_of : Bool → Bool → Bool
is_one_of true b = if b then false else true
is_one_of false b = b

-- `validateSteps`: the loop with the names so far.
unfoldable pub validate_steps : List String → List Step → Result (List String)
validate_steps seen [] = ok seen
validate_steps seen (s ∷ steps) = refuse_if (s.name == "") "SQL step name is empty" (
    refuse_if (contains seen s.name) "duplicate SQL step" (
      refuse_if
        (if is_one_of (is_some s.config_map_key) (is_some s.secret_key) then false else true)
        "step requires exactly one source"
        (refuse_if (is_blank_ref s.config_map_key) "step requires a ConfigMap name and key" (
          refuse_if (is_blank_ref s.secret_key) "step requires a Secret name and key"
            (validate_steps (s.name ∷ seen) steps)))))

-- What the checks ask of the standard library: `regexp.Compile` of a text, and `strings.TrimSpace`.
pub record Patterns : Type 0 where
  pub compiles : String → Bool
  pub trim_space : String → String

-- The loop over the references of a database.
unfoldable pub validate_refs : List String → List String → Result (Unit {0})
validate_refs steps [] = ok tt
validate_refs steps (ref ∷ refs) =
    refuse_if (if contains steps ref then false else true) "SQL step is not defined"
      (validate_refs steps refs)

abbrev pub and_then : Result (Unit {0}) → Result (Unit {0}) → Result (Unit {0})
and_then (ok u) r = r
and_then (err e) r = err e

abbrev pub checked {ℓ} : {A : Type ℓ} → Result A → Result (Unit {0})
checked (ok a) = ok tt
checked (err e) = err e

abbrev pub blank_value_from : Rule → Bool
blank_value_from r = elim r.params [ none ↦ false | some p ↦ is_blank_ref p.value_from ]

module _ (P : Parsers) (R : Patterns) where
  -- The loop over the columns of `validateTable`.
  unfoldable pub validate_columns : Defaults → List String → List ColumnRule → Result (Unit {0})
  validate_columns d seen [] = ok tt
  validate_columns d seen (c ∷ columns) = refuse_if (c.name == "") "column name is required" (
      refuse_if (contains seen c.name) "duplicate column" (
        refuse_if (blank_value_from c.rule) "constant requires a Secret name and key" (
          and_then (checked (compile P c.rule d none))
            (validate_columns d (c.name ∷ seen) columns))))

  abbrev pub is_bad_size : Option ℤ → Bool
  is_bad_size none = false
  is_bad_size (some n) = is_outside (pos 1) (pos 50000) n

  -- An expression of rows to ignore that is blank, holds a `;` or is too long.
  abbrev pub is_bad_ignore : Option String → Bool
  is_bad_ignore none = false
  is_bad_ignore (some w) =
      (R.trim_space w == "")
      || has_any (codes w) (λ c. c == b';')
      || ltb 4096 (length (utf8 (codes w)))

  abbrev pub is_nonempty {ℓ} : {A : Type ℓ} → List A → Bool
  is_nonempty [] = false
  is_nonempty (a ∷ s) = true

  -- `validateTable`.
  unfoldable pub validate_table : Defaults → TablePolicy → Result (Unit {0})
  validate_table d t =
      refuse_if (is_bad_size t.page_size) "table pageSize must be between 1 and 50000" (
        refuse_if (is_bad_ignore t.ignore_where)
          "ignore.where requires an expression without statement delimiters"
          (if t.action == "Truncate"
            then refuse_if (is_nonempty t.columns) "truncate action takes no column rules" (ok tt)
            else refuse_if ((t.action /= "") && (t.action /= "Anonymize"))
                "table action must be Anonymize or Truncate"
                (refuse_if (if is_nonempty t.columns then false else true)
                  "anonymize action requires column rules" (validate_columns d [] t.columns))))

  -- The loop over the tables of `validateDatabase`.
  unfoldable pub validate_tables : Defaults → List String → List TablePolicy → Result (Unit {0})
  validate_tables d seen [] = ok tt
  validate_tables d seen (t ∷ tables) = refuse_if (t.name == "") "table name is required" (
      refuse_if (contains seen t.name) "duplicate table"
        (and_then (validate_table d t) (validate_tables d (t.name ∷ seen) tables)))

  -- `validateDatabase`.
  unfoldable pub validate_database : Defaults → List String → DatabasePolicy → Result (Unit {0})
  validate_database d steps b =
      refuse_if (if is_one_of (b.name /= "") (b.name_pattern /= "") then false else true)
        "database requires exactly one name or namePattern"
        (refuse_if
          ((b.name_pattern /= "")
            && (if R.compiles ("^(?:" <> (b.name_pattern <> ")$")) then false else true))
          "cannot compile RE2 expression"
          (and_then (validate_refs steps (b.pre ++ b.post)) (validate_tables d [] b.tables)))

  unfoldable pub validate_databases :
      Defaults → List String → List DatabasePolicy → Result (Unit {0})
  validate_databases d steps [] = ok tt
  validate_databases d steps (b ∷ databases) =
      and_then (validate_database d steps b) (validate_databases d steps databases)

  abbrev pub with_steps : Defaults → List DatabasePolicy → Result (List String) → Result (Unit {0})
  with_steps d databases (err e) = err e
  with_steps d databases (ok steps) = validate_databases d steps databases

  -- `Validate`.
  unfoldable pub validate : Spec → Result (Unit {0})
  validate s =
      let d = or_else no_defaults s.defaults in
      refuse_if (if is_nonempty s.databases then false else true)
        "policy requires at least one database"
        (refuse_if ((s.mode /= "") && (s.mode /= "PerRun") && (s.mode /= "Fixed"))
          "determinism mode must be PerRun or Fixed"
          (refuse_if ((s.mode == "Fixed") && is_missing_ref s.seed)
            "Fixed determinism requires a seed Secret key"
            (refuse_if (is_outside (pos 0) (pos 50000) d.page_size)
              "default pageSize must be between 1 and 50000 when set"
              (with_steps d s.databases (validate_steps [] s.steps)))))
