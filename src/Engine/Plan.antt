-- ===== src/Engine/Plan.antt =====
-- The checks of a column rule against its column: compatible and validateKnownValues
-- (internal/runner/engine/preflight.go).
use pxc_anonymizer.Prelude.{
  ℕ, String, Bool, true, false, ◌&&◌, ◌||◌, ◌==◌, ◌/=◌, nat_eq, text_eq, ◌≡◌, refl, inl, inr,
  Option, none, some, List, [], ◌∷◌, ◌≤◌, contains, codes, arith, Bool-cases, if◌then◌else◌,
}
use pxc_anonymizer.Prelude.Int.{ℤ, pos, ltb_ℤ, ◌≤ℤ◌}
use pxc_anonymizer.Errors.{failure, policy, Result, ok, err}
use pxc_anonymizer.Strategy.Params.{Kind, date, email, number, constant, null, Params, or_else}
use pxc_anonymizer.Strategy.Compile.{Rule}
use pxc_anonymizer.Checkpoint.Cursor.{format_int}
use pxc_anonymizer.Engine.Columns.{
  Column, Readers, bits_of, refused, integer_value, numeric_value, validate_value, exceeds,
  then_temporal, is_temporal,
}
use pxc_anonymizer.Engine.Ranges.{integer_value-between}

abbrev pub text_kinds : List String
text_kinds =
    "char" ∷ "varchar" ∷ "tinytext" ∷ "text" ∷ "mediumtext" ∷ "longtext" ∷ "binary" ∷ "varbinary"
    ∷ "tinyblob" ∷ "blob" ∷ "mediumblob" ∷ "longblob" ∷ []

abbrev pub number_kinds : List String
number_kinds =
    "tinyint" ∷ "smallint" ∷ "mediumint" ∷ "int" ∷ "bigint" ∷ "decimal" ∷ "float" ∷ "double" ∷ []

abbrev pub is_text : Column → Bool
is_text column = contains text_kinds column.kind

-- What `time.Parse` reads of a date, as seconds, and the day of the reference time.
abbrev pub starts_late : (String → Option ℤ) → ℤ → Option Params → Bool
starts_late parse_date today none = false
starts_late parse_date today (some p) =
    (p.to == "")
    && (p.from /= "")
    && (elim (parse_date p.from) [ none ↦ true | some d ↦ ltb_ℤ today d ])

-- The `switch` of `compatible` on the strategy.
unfoldable pub kind_fits :
    (String → Option ℤ) → ℤ → Kind → Option Params → Column → Result (Unit {0})
kind_fits parse_date today date params column =
    if (if is_text column || is_temporal column.kind then false else true)
    then refused "date strategy requires a date, datetime or text column"
    else if starts_late parse_date today params
    then err (failure policy "date range starts after the fixed reference date")
    else ok tt
kind_fits parse_date today number params column =
    if is_text column || contains number_kinds column.kind
    then ok tt
    else refused "number strategy requires a numeric or text column"
kind_fits parse_date today constant params column =
    if is_text column || contains number_kinds column.kind || is_temporal column.kind
    then ok tt
    else refused "strategy is incompatible with the column type"
kind_fits parse_date today kind params column =
    if is_text column then ok tt else refused "text strategy requires a text or binary column"

abbrev pub kind_minimum : Kind → ℤ
kind_minimum email = pos 32
kind_minimum kind = pos 1

abbrev pub least_capacity : Kind → Option Params → ℤ
least_capacity kind none = kind_minimum kind
least_capacity kind (some p) = or_else (kind_minimum kind) p.size

abbrev pub capacity_fits : Rule → Column → Result (Unit {0}) → Result (Unit {0})
capacity_fits rule column (err e) = err e
capacity_fits rule column (ok u) = elim column.capacity [
  | none ↦ ok tt
  | some n ↦
      if ltb_ℤ (pos n) (least_capacity rule.strategy rule.params)
      then refused "column capacity is below strategy minimum"
      else ok tt
]

abbrev pub is_null : Kind → Bool
is_null null = true
is_null kind = false

-- `compatible`.
unfoldable pub compatible : (String → Option ℤ) → ℤ → Rule → Column → Result (Unit {0})
compatible parse_date today rule column =
    if is_null rule.strategy
    then (if column.is_nullable then ok tt else refused "null strategy requires a nullable column")
    else capacity_fits rule column (kind_fits parse_date today rule.strategy rule.params column)

abbrev pub low_of : Option Params → ℤ
low_of none = pos 0
low_of (some p) = or_else (pos 0) p.min

abbrev pub high_of : Option Params → ℤ
high_of none = pos 100
high_of (some p) = or_else (pos 100) p.max

abbrev pub constant_text : Option Params → Option (List ℕ) → Option (List ℕ)
constant_text none file = file
constant_text (some p) file = elim p.value [ none ↦ file | some v ↦ some (codes v) ]

module _ (R : Readers) where
  abbrev pub both_valid : Column → ℤ → Result (Unit {0}) → Result (Unit {0})
  both_valid column high (err e) = err e
  both_valid column high (ok u) = validate_value R column (some (format_int high))

  abbrev pub constant_valid : Column → Option (List ℕ) → Result (Unit {0})
  constant_valid column none = ok tt
  constant_valid column (some text) = validate_value R column (some text)

  abbrev pub known_values : Kind → Option Params → Option (List ℕ) → Column → Result (Unit {0})
  known_values constant params text column = constant_valid column (constant_text params text)
  known_values number params text column =
      both_valid column (high_of params)
        (validate_value R column (some (format_int (low_of params))))
  known_values kind params text column = ok tt

  -- `validateKnownValues`; the text is that of the constant's file.
  unfoldable pub validate_known_values : Rule → Option (List ℕ) → Column → Result (Unit {0})
  validate_known_values rule text column = known_values rule.strategy rule.params text column

  both_valid-parts :
      (column : Column) (high : ℤ) (r : Result (Unit {0}))
      → both_valid column high r ≡ ok tt
      → (r ≡ ok tt) × (validate_value R column (some (format_int high)) ≡ ok tt)
  both_valid-parts column high (ok u) h = (refl, h)
  both_valid-parts column high (err e) h = absurd (cc)

  then_temporal-ok :
      (column : Column) (value : List ℕ) (r : Result (Unit {0}))
      → then_temporal R column value r ≡ ok tt
      → r ≡ ok tt
  then_temporal-ok column value (ok u) h = refl
  then_temporal-ok column value (err e) h = absurd (cc)

  validate_value-integer :
      (column : Column) (value : List ℕ)
      → (bits_of column.kind == 0) ≡ false
      → validate_value R column (some value) ≡ ok tt
      → integer_value (bits_of column.kind) column.is_unsigned value ≡ ok tt
  unfolding validate_value numeric_value
  validate_value-integer column value some_bits h = elim (Bool-cases (exceeds R column value)) [
    | inl long ↦
        let impossible : refused "replacement exceeds column capacity" ≡ ok tt = rw long at h in
        absurd (cc)
    | inr short ↦
        let kept : then_temporal R column value (numeric_value R column value) ≡ ok tt =
          rw short at h in
        rw some_bits at (then_temporal-ok column value (numeric_value R column value) kept)
  ]

  bits_few : (kind : String) → bits_of kind ≤ 64
  bits_few kind = ground arith

  -- Where the preflight accepts a number rule for an integer column, each number from the rule's
  -- smallest to its largest one is in the range of the column.
  pub validate_known_values-number :
      (rule : Rule) (text : Option (List ℕ)) (column : Column) (n : ℤ)
      → rule.strategy ≡ number
      → (bits_of column.kind == 0) ≡ false
      → validate_known_values rule text column ≡ ok tt
      → low_of rule.params ≤ℤ n
      → n ≤ℤ high_of rule.params
      → numeric_value R column (format_int n) ≡ ok tt
  unfolding validate_known_values numeric_value
  validate_known_values-number rule text column n is_number some_bits accepts above below =
      let known : known_values number rule.params text column ≡ ok tt = rw is_number at accepts in
      let (low, high) = both_valid-parts column (high_of rule.params) _ known in
      rw some_bits (
        integer_value-between (bits_of column.kind) column.is_unsigned (low_of rule.params)
          (high_of rule.params) n (ground arith) (bits_few column.kind)
          (validate_value-integer column (format_int (low_of rule.params)) some_bits low)
          (validate_value-integer column (format_int (high_of rule.params)) some_bits high) above
          below)
