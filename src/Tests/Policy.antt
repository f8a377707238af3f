-- ===== src/Tests/Policy.antt =====
-- A small policy that is accepted.
use pxc_anonymizer.Prelude.{◌≡◌, refl, true, some, none, [], ◌∷◌, All, contains}
use pxc_anonymizer.Prelude.Int.{pos}
use pxc_anonymizer.Errors.{ok, refuse_if}
use pxc_anonymizer.Strategy.Params.{Kind, Parsers, has_any}
use pxc_anonymizer.Strategy.Unicode.{utf8}
use pxc_anonymizer.Strategy.Compile.{
  compile, prepare_params, is_fixed, is_english, resolved_constant,
}
use pxc_anonymizer.Policy.{
  Step, ColumnRule, TablePolicy, DatabasePolicy, Spec, Patterns, no_defaults, validate,
  validate_steps, validate_refs, validate_columns, validate_table, validate_tables,
  validate_database, validate_databases,
}
use pxc_anonymizer.Policy.Valid.{IsDistinct, IsValidDatabase, validate-IsValidDatabase, step_names}

abbrev parsers : Parsers
parsers = record { parse_date = λ s. none; parse_address = λ s. some s }

abbrev patterns : Patterns
patterns = record { compiles = λ s. true; trim_space = λ s. s }

abbrev clean : Step
clean = record {
  name = "clean";
  config_map_key = some (record { name = "sql"; key = "clean.sql" });
  secret_key = none;
}

abbrev last_name : ColumnRule
last_name = record {
  name = "last_name";
  rule = record {
    strategy = Kind.last_name;
    params = none;
    consistent = none;
    on_null = "";
    on_empty = "";
  };
}

abbrev users : TablePolicy
users = record {
  name = "users";
  action = "";
  ignore_where = some "id = 1";
  columns = last_name ∷ [];
  page_size = some (pos 100);
}

abbrev logs : TablePolicy
logs = record {
  name = "logs";
  action = "Truncate";
  ignore_where = none;
  columns = [];
  page_size = none;
}

abbrev shop : DatabasePolicy
shop = record {
  name = "shop";
  name_pattern = "";
  pre = "clean" ∷ [];
  post = [];
  tables = users ∷ logs ∷ [];
}

abbrev policy : Spec
policy = record {
  mode = "PerRun";
  seed = none;
  defaults = none;
  steps = clean ∷ [];
  databases = shop ∷ [];
}

policy_accepted : validate parsers patterns policy ≡ ok tt
unfolding validate validate_steps validate_refs validate_columns validate_table validate_tables
    validate_database validate_databases compile refuse_if prepare_params is_fixed is_english
    contains has_any utf8 resolved_constant
policy_accepted = refl

validate-IsValidDatabase_example :
    IsDistinct (step_names (clean ∷ []))
    × All (IsValidDatabase parsers patterns no_defaults (clean ∷ [])) (shop ∷ [])
validate-IsValidDatabase_example = validate-IsValidDatabase parsers patterns policy policy_accepted
