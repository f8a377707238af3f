-- ===== src/Engine/Columns.antt =====
-- The columns of the database, and the checks of values and of keys against them
-- (internal/runner/engine/values.go, preflight.go and files.go). What `Sscanf`, `ParseFloat` and
-- `time.Parse` make of a text are parameters.
use pxc_anonymizer.Prelude.{
  ℕ, zero, suc, ◌-◌, ◌^◌, String, Bool, true, false, ◌&&◌, ◌||◌, ◌==◌, ◌/=◌, nat_eq, text_eq,
  list_eq, Option, none, some, List, [], ◌∷◌, length, codes, ltb, leb, if◌then◌else◌,
}
use pxc_anonymizer.Prelude.Decimal.{is_digit, read}
use pxc_anonymizer.Prelude.Int.{ℤ, pos, negsuc, ltb_ℤ, ◌-ℤ◌}
use pxc_anonymizer.Errors.{failure, schema, first, Result, ok, err}

-- `columnInfo`. Of the full type it keeps whether it speaks of unsigned values, and the precision and the
-- scale of `decimal(%d,%d)`.
pub record Column : Type 0 where
  pub name : String
  pub kind : String
  pub is_unsigned : Bool
  pub decimal_size : Option (ℤ × ℤ)
  pub holds_bytes : Bool  -- the kind contains binary or blob
  pub capacity : Option ℕ
  pub is_nullable : Bool
  pub is_generated : Bool

-- `indexInfo`.
pub record Index : Type 0 where
  pub name : String
  pub names : List String
  pub is_unique : Bool
  pub is_full : Bool

abbrev pub refused : {A : Type 0} → String → Result A
refused message = err (failure schema message)

-- `SetString(value, 10)` of `big.Int`.
abbrev pub negated : Option ℕ → Option ℤ
negated none = none
negated (some zero) = some (pos zero)
negated (some (suc n)) = some (negsuc n)

abbrev pub positive : Option ℕ → Option ℤ
positive none = none
positive (some n) = some (pos n)

unfoldable pub parse_integer : List ℕ → Option ℤ
parse_integer [] = none
parse_integer (c ∷ s) =
    if c == b'-'
    then negated (read s)
    else if c == b'+'
    then positive (read s)
    else positive (read (c ∷ s))

-- The bits of an integer kind, 0 for another kind.
abbrev pub bits_of : String → ℕ
bits_of kind =
    if kind == "tinyint"
    then 8
    else if kind == "smallint"
    then 16
    else if kind == "mediumint"
    then 24
    else if kind == "int"
    then 32
    else if kind == "bigint"
    then 64
    else 0

abbrev pub minimum : ℕ → Bool → ℤ
minimum bits true = pos 0
minimum bits false = negsuc (2 ^ (bits - 1) - 1)

abbrev pub maximum : ℕ → Bool → ℤ
maximum bits true = pos (2 ^ bits - 1)
maximum bits false = pos (2 ^ (bits - 1) - 1)

abbrev pub within : ℤ → ℤ → Option ℤ → Result (Unit {0})
within low high none = refused "replacement is not an integer"
within low high (some n) =
    if ltb_ℤ n low || ltb_ℤ high n
    then refused "replacement exceeds integer column range"
    else ok tt

-- The first test of `numericValue`.
unfoldable pub integer_value : ℕ → Bool → List ℕ → Result (Unit {0})
integer_value bits is_unsigned value =
    if ltb 21 (length value)
    then refused "replacement is not an integer"
    else within (minimum bits is_unsigned) (maximum bits is_unsigned) (parse_integer value)

-- A decimal, as its sign, the digits before its point and those after it.
unfoldable pub split_point : List ℕ → List ℕ × Option (List ℕ)
split_point [] = ([], none)
split_point (c ∷ s) =
    let rest = split_point s in if c == b'.' then ([], some s) else (c ∷ rest.0, rest.1)

unfoldable pub all_digits : List ℕ → Bool
all_digits [] = true
all_digits (c ∷ s) = is_digit c && all_digits s

abbrev pub is_number : List ℕ → Bool
is_number s = (length s /= 0) && all_digits s

abbrev pub without_sign : List ℕ → List ℕ
without_sign [] = []
without_sign (c ∷ s) = if (c == b'+') || (c == b'-') then s else c ∷ s

abbrev pub is_negative : List ℕ → Bool
is_negative [] = false
is_negative (c ∷ s) = c == b'-'

-- `TrimLeft` of zeros.
unfoldable pub trim_zeros : List ℕ → List ℕ
trim_zeros [] = []
trim_zeros (c ∷ s) = let rest = trim_zeros s in if c == b'0' then rest else c ∷ s

abbrev pub fits_scale : Option (List ℕ) → ℤ → Bool
fits_scale none scale = true
fits_scale (some s) scale = if ltb_ℤ scale (pos (length s)) then false else true

abbrev pub fraction_is_number : Option (List ℕ) → Bool
fraction_is_number none = true
fraction_is_number (some s) = is_number s

abbrev pub sized : Option (ℤ × ℤ) → Bool → List ℕ → Result (Unit {0})
sized none is_unsigned value = refused "decimal column definition is unsupported"
sized (some (precision, scale)) is_unsigned value =
    let parts = split_point (without_sign value) in
    if ltb_ℤ (precision -ℤ scale) (pos (length (trim_zeros parts.0)))
      || (if fits_scale parts.1 scale then false else true)
      || (is_unsigned && is_negative value)
    then refused "replacement exceeds decimal precision or scale"
    else ok tt

unfoldable pub decimal_value : Column → List ℕ → Result (Unit {0})
decimal_value column value =
    let parts = split_point (without_sign value) in
    if ltb 128 (length value)
      || (if is_number parts.0 && fraction_is_number parts.1 then false else true)
    then refused "replacement is not a bounded decimal"
    else sized column.decimal_size column.is_unsigned value

abbrev pub is_temporal : String → Bool
is_temporal kind = (kind == "date") || (kind == "datetime") || (kind == "timestamp")

-- What `ParseFloat` makes of a text at a bit size: whether it is negative, or `none` if it is not a
-- finite number; and whether `time.Parse` reads a date, or a date with a time.
pub record Readers : Type 0 where
  pub parse_float : ℕ → List ℕ → Option Bool
  pub is_date : List ℕ → Bool
  pub is_datetime : List ℕ → Bool
  pub count_runes : List ℕ → ℕ

module _ (R : Readers) where
  unfoldable pub float_value : Column → List ℕ → Result (Unit {0})
  float_value column value =
      elim (R.parse_float (if column.kind == "float" then 32 else 64) value) [
        | none ↦ refused "replacement exceeds floating-point column range"
        | some is_below_zero ↦
            if column.is_unsigned && is_below_zero
            then refused "replacement exceeds floating-point column range"
            else ok tt
      ]

  -- `numericValue`; no kind passes more than one of its tests.
  unfoldable pub numeric_value : Column → List ℕ → Result (Unit {0})
  numeric_value column value =
      if bits_of column.kind /= 0
      then integer_value (bits_of column.kind) column.is_unsigned value
      else if column.kind == "decimal"
      then decimal_value column value
      else if (column.kind == "float") || (column.kind == "double")
      then float_value column value
      else ok tt

  abbrev pub exceeds : Column → List ℕ → Bool
  exceeds column value = elim column.capacity [
    | none ↦ false
    | some n ↦ ltb n (if column.holds_bytes then length value else R.count_runes value)
  ]

  -- The last test of `validateValue`.
  abbrev pub temporal_value : Column → List ℕ → Result (Unit {0})
  temporal_value column value =
      if is_temporal column.kind
        && (if R.is_date value then false else true)
        && ((column.kind == "date") || (if R.is_datetime value then false else true))
      then refused "replacement does not match the temporal column type"
      else ok tt

  abbrev pub then_temporal : Column → List ℕ → Result (Unit {0}) → Result (Unit {0})
  then_temporal column value (ok u) = temporal_value column value
  then_temporal column value (err e) = err e

  -- `validateValue`, on the text of a value; `none` is the null value.
  unfoldable pub validate_value : Column → Option (List ℕ) → Result (Unit {0})
  validate_value column none =
      if column.is_nullable then ok tt else refused "replacement is null for a non-null column"
  validate_value column (some value) =
      if exceeds column value
      then refused "replacement exceeds column capacity"
      else then_temporal column value (numeric_value column value)

-- The column of a name, the case of its letters apart; `lower` is `strings.ToLower`. A later column takes
-- the place of an earlier one in the map.
unfoldable pub find_column : (String → String) → List Column → String → Option Column
find_column lower [] name = none
find_column lower (c ∷ columns) name =
    first (find_column lower columns name) (if lower c.name == lower name then some c else none)

-- A round of the loop of `primaryKey`, on what the other rounds make.
abbrev pub key_column : Option Column → Result (List String) → Result (List String)
key_column none rest = refused "paging key must contain existing non-null columns"
key_column (some c) (err e) = err e
key_column (some c) (ok key) =
    if c.is_nullable
    then refused "paging key must contain existing non-null columns"
    else ok (c.name ∷ key)

-- The loop of `primaryKey` over the names of the key; all its errors are the same one.
unfoldable pub key_columns : (String → String) → List Column → List String → Result (List String)
key_columns lower columns [] = ok []
key_columns lower columns (name ∷ names) =
    key_column (find_column lower columns name) (key_columns lower columns names)

unfoldable pub primary_names : List Index → List String
primary_names [] = []
primary_names (i ∷ indexes) =
    let rest = primary_names indexes in if i.name == "PRIMARY" then i.names else rest

unfoldable pub is_indexed : List Index → List String → Bool
is_indexed [] key = false
is_indexed (i ∷ indexes) key =
    (i.is_unique && i.is_full && (i.names == key)) || is_indexed indexes key

abbrev pub indexed_key : List Index → Result (List String) → Result (List String)
indexed_key indexes (err e) = err e
indexed_key indexes (ok key) =
    if is_indexed indexes key
    then ok key
    else refused "paging key must match a complete unique index"

abbrev pub chosen_key : List String → List Index → List String
chosen_key override indexes = if length override == 0 then primary_names indexes else override

-- `primaryKey`.
unfoldable pub primary_key :
    (String → String) → List String → List Column → List Index → Result (List String)
primary_key lower override columns indexes =
    if length (chosen_key override indexes) == 0
    then refused "TableWithoutPrimaryKey: table requires a primary or declared unique key"
    else indexed_key indexes (key_columns lower columns (chosen_key override indexes))

-- `component`, and the parts of `projectedPath` (files.go); a text is the list of its bytes.
abbrev pub is_component_byte : ℕ → Bool
is_component_byte c =
    (leb 65 c && leb c 90)
    || (leb 97 c && leb c 122)
    || is_digit c
    || (c == b'.')
    || (c == b'_')
    || (c == b'-')

unfoldable pub all_component_bytes : List ℕ → Bool
all_component_bytes [] = true
all_component_bytes (c ∷ s) = is_component_byte c && all_component_bytes s

abbrev pub is_component : List ℕ → Bool
is_component s =
    (s /= codes ".")
    && (s /= codes "..")
    && (length s /= 0)
    && leb (length s) 253
    && all_component_bytes s

unfoldable pub all_components : List (List ℕ) → Bool
all_components [] = true
all_components (p ∷ parts) = is_component p && all_components parts
