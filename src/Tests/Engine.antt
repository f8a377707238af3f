-- ===== src/Tests/Engine.antt =====
-- Tables with two pages, columns and keys.
use pxc_anonymizer.Prelude.{
  ℕ, zero, suc, ◌≤◌, ◌<◌, ◌≡◌, ◌⊎◌, ◌↔◌, refl, true, false, none, List, [], ◌∷◌, nat_eq, text_eq,
  list_eq, length, codes, All, arith,
}
use pxc_anonymizer.Prelude.Int.{ℤ, pos, negsuc, ◌≤ℤ◌}
use pxc_anonymizer.Errors.{ok}
use pxc_anonymizer.Sql.{Io}
use pxc_anonymizer.Checkpoint.{Progress}
use pxc_anonymizer.Checkpoint.Cursor.{format_int}
use pxc_anonymizer.Engine.{Pool, Counters, StepRef, steps, table_loop}
use pxc_anonymizer.Engine.Retries.{IsFinished, Trace, table_loop_ends}
use pxc_anonymizer.Engine.Counting.{Counts, table_loop-Counts, StepsCounted, steps-StepsCounted}
use pxc_anonymizer.Engine.Columns.{
  Column, Index, integer_value, find_column, key_columns, is_indexed, primary_key, primary_names,
}
use pxc_anonymizer.Engine.Numerals.{Denotes}
use pxc_anonymizer.Engine.Ranges.{
  parse_integer-format_int, format_int-short, integer_value-InRange, big_unsigned,
  numeric_value-IntegerType, IsKeyColumn, IsUniqueKey, primary_key_lem,
}
use pxc_anonymizer.Strategy.Params.{number}
use pxc_anonymizer.Strategy.Compile.{Rule}
use pxc_anonymizer.Engine.Columns.{Readers, validate_value, numeric_value}
use pxc_anonymizer.Engine.Plan.{validate_known_values, validate_known_values-number}
use pxc_anonymizer.Tests.Formats.{plain_formats}
use pxc_anonymizer.Tests.SqlStep.{Memory, memory, key, fresh}

-- The state is the number of pages that are left; the last page is empty.
abbrev pool : Pool ℕ
pool = record {
  ping = λ c. (ok tt, c);
  conn = λ c. (ok tt, c);
  close = λ c. c;
  discard = λ c. c;
  pause = λ c n. (ok tt, c);
}

abbrev connect : Io ℕ (Unit {0})
connect c = (ok tt, c)

abbrev page : Io ℕ Progress
page zero = (ok (record { last_pk = []; rows_done = pos 5; done = true; exists = true }), zero)
page (suc n) = (ok (record { last_pk = []; rows_done = pos 3; done = false; exists = true }), n)

abbrev nothing : Counters
nothing = record { rows_done = pos 0; tables_done = 0; steps_done = 0; rows = [] }

table_loop_ends_example :
    IsFinished (table_loop pool connect page "db.t" 12 0 2 false nothing)
    ⊎ ((d : ℕ) × Trace pool connect page 3 2 d)
table_loop_ends_example =
    table_loop_ends pool connect page "db.t" 2 12 0 2 false nothing (omega arith) (omega arith)

table_loop-Counts_example :
    Counts pool connect page "db.t" nothing
      (table_loop pool connect page "db.t" 12 0 2 false nothing)
table_loop-Counts_example = table_loop-Counts pool connect page "db.t" 12 0 2 false nothing

low_accepted : integer_value 8 false (format_int (negsuc 9)) ≡ ok tt
low_accepted = (integer_value-InRange 8 false (format_int (negsuc 9))).1 (
  format_int-short (negsuc 9) (omega arith) (omega arith),
  (negsuc 9, parse_integer-format_int (negsuc 9), (omega arith, omega arith)),
)

high_accepted : integer_value 8 false (format_int (pos 99)) ≡ ok tt
high_accepted = (integer_value-InRange 8 false (format_int (pos 99))).1 (
  format_int-short (pos 99) (omega arith) (omega arith),
  (pos 99, parse_integer-format_int (pos 99), (omega arith, omega arith)),
)

abbrev unread : Readers
unread = record {
  parse_float = λ bits s. none;
  is_date = λ s. false;
  is_datetime = λ s. false;
  count_runes = λ s. length s;
}

abbrev id_column : Column
id_column = record {
  name = "id";
  kind = "bigint";
  is_unsigned = true;
  decimal_size = none;
  holds_bytes = false;
  capacity = none;
  is_nullable = false;
  is_generated = false;
}

numeric_value-IntegerType_example : (numeric_value unread id_column (codes "+12") ≡ ok tt) ↔ (
    (length (codes "+12") ≤ 21)
    × ((n : ℤ) × Denotes (codes "+12") n × ((pos 0 ≤ℤ n) × (n ≤ℤ pos 18446744073709551615))))
numeric_value-IntegerType_example =
    numeric_value-IntegerType unread id_column "bigint" true (pos 0) (pos 18446744073709551615)
      (codes "+12") big_unsigned refl refl

abbrev primary : Index
primary = record { name = "PRIMARY"; names = "id" ∷ []; is_unique = true; is_full = true }

key_found : primary_key (λ s. s) [] (id_column ∷ []) (primary ∷ []) ≡ ok ("id" ∷ [])
unfolding primary_key key_columns find_column is_indexed primary_names
key_found = refl

primary_key_lem_example :
    (0 < 1)
    × All (IsKeyColumn (λ s. s) (id_column ∷ [])) ("id" ∷ [])
    × IsUniqueKey (primary ∷ []) ("id" ∷ [])
primary_key_lem_example =
    primary_key_lem (λ s. s) [] (id_column ∷ []) (primary ∷ []) ("id" ∷ []) key_found

abbrev store_pool : Pool Memory
store_pool = record {
  ping = λ c. (ok tt, c);
  conn = λ c. (ok tt, c);
  close = λ c. c;
  discard = λ c. c;
  pause = λ c n. (ok tt, c);
}

abbrev refs : List StepRef
refs = record { name = "a"; body = "UPDATE t"; continue_on_error = true } ∷ []

steps-StepsCounted_example :
    StepsCounted store_pool memory plain_formats key "pre" 0 refs fresh nothing
      (steps store_pool memory plain_formats key "pre" 0 refs (fresh, nothing))
steps-StepsCounted_example =
    steps-StepsCounted store_pool memory plain_formats key "pre" 0 refs nothing fresh

abbrev age_column : Column
age_column = record id_column { name = "age"; kind = "tinyint"; is_unsigned = false }

abbrev age_rule : Rule
age_rule = record {
  strategy = number;
  params = none;
  consistent = none;
  on_null = "";
  on_empty = "";
}

abbrev readers : Readers
readers = record {
  parse_float = λ bits s. none;
  is_date = λ s. false;
  is_datetime = λ s. false;
  count_runes = λ s. length s;
}

accepted_between : (n : ℕ) → n ≤ 100 → integer_value 8 false (format_int (pos n)) ≡ ok tt
accepted_between n h = (integer_value-InRange 8 false (format_int (pos n))).1 (
  format_int-short (pos n) (omega arith) (omega arith),
  (pos n, parse_integer-format_int (pos n), (omega arith, omega arith)),
)

age_accepted : validate_known_values readers age_rule none age_column ≡ ok tt
unfolding validate_known_values validate_value numeric_value
age_accepted = rw (accepted_between 0 (omega arith), accepted_between 100 (omega arith)) refl

validate_known_values-number_example :
    numeric_value readers age_column (format_int (pos 42)) ≡ ok tt
validate_known_values-number_example =
    validate_known_values-number readers age_rule none age_column (pos 42) refl refl age_accepted
      (omega arith) (omega arith)
