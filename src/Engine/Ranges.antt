-- ===== src/Engine/Ranges.antt =====
-- What the checks of values and of keys accept.
use pxc_anonymizer.Prelude.{
  ℕ, suc, ◌-◌, ◌^◌, ◌≤◌, ◌<◌, String, ◌≡◌, ◌↔◌, refl, sym, ap, ◌∙◌, ◌⊎◌, inl, inr, Bool, true,
  false, ◌&&◌, ◌==◌, nat_eq, text_eq, list_eq, Option, none, some, List, [], ◌∷◌, length, ltb, All,
  arith, Bool-cases, and_true, or_true,
}
use native.Mathlib.Nat.{pow-le-pow_right}
use pxc_anonymizer.Prelude.Decimal.{is_digit, read, read-show, length-show-le, show-cons}
use pxc_anonymizer.Prelude.Int.{ℤ, pos, negsuc, ◌≤ℤ◌}
use pxc_anonymizer.Errors.{Result, ok, err, ok_injective}
use pxc_anonymizer.Checkpoint.Cursor.{format_int}
use pxc_anonymizer.Engine.Numerals.{Denotes, parse_integer-Denotes, Denotes-parse}
use pxc_anonymizer.Engine.Columns.{
  Column, Index, parse_integer, positive, minimum, maximum, within, integer_value, refused, bits_of,
  Readers, numeric_value, find_column, key_column, key_columns, is_indexed, indexed_key, chosen_key,
  primary_key,
}

-- What an integer column holds.
abbrev pub InRange : ℕ → Bool → ℤ → Type 0
InRange bits is_unsigned n = (minimum bits is_unsigned ≤ℤ n) × (n ≤ℤ maximum bits is_unsigned)

within-InRange : (low high n : ℤ) → within low high (some n) ≡ ok tt → (low ≤ℤ n) × (n ≤ℤ high)
within-InRange low high n h = ground arith

InRange-within : (low high n : ℤ) → low ≤ℤ n → n ≤ℤ high → within low high (some n) ≡ ok tt
InRange-within low high n l h = ground arith

within_read :
    (low high : ℤ) (o : Option ℤ)
    → within low high o ≡ ok tt
    → (n : ℤ) × (o ≡ some n) × (low ≤ℤ n) × (n ≤ℤ high)
within_read low high none h = absurd (cc)
within_read low high (some n) h = let (l, k) = within-InRange low high n h in (n, refl, l, k)

pub integer_value-InRange :
    (bits : ℕ) (is_unsigned : Bool) (value : List ℕ)
    → (integer_value bits is_unsigned value ≡ ok tt) ↔ (
        (length value ≤ 21)
        × ((n : ℤ) × (parse_integer value ≡ some n) × InRange bits is_unsigned n))
unfolding integer_value
integer_value-InRange bits is_unsigned value = (
  λ h. elim (Bool-cases (ltb 21 (length value))) [
    | inl long ↦
        let impossible : refused "replacement is not an integer" ≡ ok tt = rw long at h in
        absurd (cc)
    | inr short ↦
        let fits : within (minimum bits is_unsigned) (maximum bits is_unsigned)
              (parse_integer value)
            ≡ ok tt =
          rw short at h in
        let (n, e, l, k) =
          within_read (minimum bits is_unsigned) (maximum bits is_unsigned) (parse_integer value)
            fits in
        (ground arith, (n, e, (l, k)))
  ],
  λ (short, (n, e, (l, h))). elim (Bool-cases (ltb 21 (length value))) [
    | inl long ↦ absurd (ground arith)
    | inr fits ↦
        rw (fits, e) (InRange-within (minimum bits is_unsigned) (maximum bits is_unsigned) n l h)
  ],
)

parse_integer-digit :
    (c : ℕ) (s : List ℕ) → is_digit c ≡ true → parse_integer (c ∷ s) ≡ positive (read (c ∷ s))
unfolding parse_integer
parse_integer-digit c s h = ground arith

pub parse_integer-format_int : (n : ℤ) → parse_integer (format_int n) ≡ some n
unfolding parse_integer format_int
parse_integer-format_int (pos n) =
    let (c, s, e, d) = show-cons n in
    rw e (parse_integer-digit c s d ∙ rw (← e) (rw (read-show n) refl))
parse_integer-format_int (negsuc n) = rw (read-show (suc n)) refl

some_injective : {a b : ℤ} → some a ≡ some b → a ≡ b
some_injective e = cc

≤ℤ_trans : (a b c : ℤ) → a ≤ℤ b → b ≤ℤ c → a ≤ℤ c
≤ℤ_trans a b c h k = omega arith

-- A number that a column holds has at most 20 digits.
pub format_int-short :
    (n : ℤ) → negsuc (10 ^ 20 - 2) ≤ℤ n → n ≤ℤ pos (10 ^ 20 - 1) → length (format_int n) ≤ 21
unfolding format_int
format_int-short (pos n) l h =
    let k = length-show-le n 20 (omega arith) (omega arith) in omega arith
format_int-short (negsuc n) l h =
    let k = length-show-le (suc n) 20 (omega arith) (omega arith) in omega arith

power_le : (a b : ℕ) → a ≤ b → 2 ^ a ≤ 2 ^ b
power_le a b h = pow-le-pow_right (omega arith) h

short_enough :
    (bits : ℕ) (is_unsigned : Bool) (n : ℤ)
    → 0 < bits
    → bits ≤ 64
    → minimum bits is_unsigned ≤ℤ n
    → n ≤ℤ maximum bits is_unsigned
    → length (format_int n) ≤ 21
short_enough bits true n some_bits few_bits l h =
    let p = power_le bits 64 few_bits in format_int-short n (omega arith) (omega arith)
short_enough bits false n some_bits few_bits l h =
    let p = power_le (bits - 1) 64 (omega arith) in format_int-short n (omega arith) (omega arith)

pub integer_value-between :
    (bits : ℕ) (is_unsigned : Bool) (low high n : ℤ)
    → 0 < bits
    → bits ≤ 64
    → integer_value bits is_unsigned (format_int low) ≡ ok tt
    → integer_value bits is_unsigned (format_int high) ≡ ok tt
    → low ≤ℤ n
    → n ≤ℤ high
    → integer_value bits is_unsigned (format_int n) ≡ ok tt
integer_value-between bits is_unsigned low high n some_bits few_bits accepts_low accepts_high above
      below =
    let (short, (l, e, (l_min, l_max))) =
      (integer_value-InRange bits is_unsigned (format_int low)).0 accepts_low in
    let (short', (h, f, (h_min, h_max))) =
      (integer_value-InRange bits is_unsigned (format_int high)).0 accepts_high in
    let same_low : low ≡ l = some_injective (sym (parse_integer-format_int low) ∙ e) in
    let same_high : high ≡ h = some_injective (sym (parse_integer-format_int high) ∙ f) in
    let from : minimum bits is_unsigned ≤ℤ n =
      ≤ℤ_trans (minimum bits is_unsigned) low n (rw same_low l_min) above in
    let to : n ≤ℤ maximum bits is_unsigned =
      ≤ℤ_trans n high (maximum bits is_unsigned) below (rw same_high h_max) in
    (integer_value-InRange bits is_unsigned (format_int n)).1 (
      short_enough bits is_unsigned n some_bits few_bits from to,
      (n, parse_integer-format_int n, (from, to)),
    )

-- The integer types of MySQL, with the smallest and the largest value of their columns.
pub data IntegerType : String → Bool → ℤ → ℤ → Type 0 where
  tiny : IntegerType "tinyint" false (negsuc 127) (pos 127)
  tiny_unsigned : IntegerType "tinyint" true (pos 0) (pos 255)
  small : IntegerType "smallint" false (negsuc 32767) (pos 32767)
  small_unsigned : IntegerType "smallint" true (pos 0) (pos 65535)
  medium : IntegerType "mediumint" false (negsuc 8388607) (pos 8388607)
  medium_unsigned : IntegerType "mediumint" true (pos 0) (pos 16777215)
  int : IntegerType "int" false (negsuc 2147483647) (pos 2147483647)
  int_unsigned : IntegerType "int" true (pos 0) (pos 4294967295)
  big : IntegerType "bigint" false (negsuc 9223372036854775807) (pos 9223372036854775807)
  big_unsigned : IntegerType "bigint" true (pos 0) (pos 18446744073709551615)

IntegerType-bits :
    (kind : String) (is_unsigned : Bool) (low high : ℤ)
    → IntegerType kind is_unsigned low high
    → ((bits_of kind == 0) ≡ false)
      × (minimum (bits_of kind) is_unsigned ≡ low)
      × (maximum (bits_of kind) is_unsigned ≡ high)
IntegerType-bits kind is_unsigned low high tiny = (refl, refl, refl)
IntegerType-bits kind is_unsigned low high tiny_unsigned = (refl, refl, refl)
IntegerType-bits kind is_unsigned low high small = (refl, refl, refl)
IntegerType-bits kind is_unsigned low high small_unsigned = (refl, refl, refl)
IntegerType-bits kind is_unsigned low high medium = (refl, refl, refl)
IntegerType-bits kind is_unsigned low high medium_unsigned = (refl, refl, refl)
IntegerType-bits kind is_unsigned low high int = (refl, refl, refl)
IntegerType-bits kind is_unsigned low high int_unsigned = (refl, refl, refl)
IntegerType-bits kind is_unsigned low high big = (refl, refl, refl)
IntegerType-bits kind is_unsigned low high big_unsigned = (refl, refl, refl)

numeric_value-parsed :
    (R : Readers) (column : Column) (kind : String) (is_unsigned : Bool) (low high : ℤ)
    (value : List ℕ)
    → IntegerType kind is_unsigned low high
    → column.kind ≡ kind
    → column.is_unsigned ≡ is_unsigned
    → (numeric_value R column value ≡ ok tt) ↔ (
        (length value ≤ 21)
        × ((n : ℤ) × (parse_integer value ≡ some n) × ((low ≤ℤ n) × (n ≤ℤ high))))
unfolding numeric_value
numeric_value-parsed R column kind is_unsigned low high value t k u =
    let (some_bits, least, most) = IntegerType-bits kind is_unsigned low high t in
    rw (k, u, some_bits)
      (rw (least, most) at (integer_value-InRange (bits_of kind) is_unsigned value))

-- For a column of one of MySQL's ten integer types, `numericValue` accepts a text if and only if it is at most
-- 21 bytes long and denotes, by the places of its digits and its sign, an integer from the smallest to the
-- largest value of the type.
pub numeric_value-IntegerType :
    (R : Readers) (column : Column) (kind : String) (is_unsigned : Bool) (low high : ℤ)
    (value : List ℕ)
    → IntegerType kind is_unsigned low high
    → column.kind ≡ kind
    → column.is_unsigned ≡ is_unsigned
    → (numeric_value R column value ≡ ok tt)
      ↔ ((length value ≤ 21) × ((n : ℤ) × Denotes value n × ((low ≤ℤ n) × (n ≤ℤ high))))
numeric_value-IntegerType R column kind is_unsigned low high value t k u =
    let parsed = numeric_value-parsed R column kind is_unsigned low high value t k u in
    (
      λ h.
          let (short, (n, e, inside)) = parsed.0 h in
          (short, (n, parse_integer-Denotes value n e, inside)),
      λ (short, (n, d, inside)). parsed.1 (short, (n, Denotes-parse value n d, inside)),
    )

-- The name of a column that there is and that is not nullable.
abbrev pub IsKeyColumn : (String → String) → List Column → String → Type 0
IsKeyColumn lower columns name =
    (c : Column) × (wanted : String) × (find_column lower columns wanted ≡ some c)
    × (c.name ≡ name)
    × (c.is_nullable ≡ false)

-- A unique index with all its columns in full is made of these names.
abbrev pub IsUniqueKey : List Index → List String → Type 0
IsUniqueKey [] key = ⊥
IsUniqueKey (i ∷ indexes) key =
    ((i.is_unique ≡ true) × (i.is_full ≡ true) × (i.names ≡ key)) ⊎ IsUniqueKey indexes key

is_indexed-IsUniqueKey :
    (indexes : List Index) (key : List String)
    → is_indexed indexes key ≡ true
    → IsUniqueKey indexes key
unfolding is_indexed
is_indexed-IsUniqueKey [] key h = absurd (cc)
is_indexed-IsUniqueKey (i ∷ indexes) key h =
    elim (or_true (i.is_unique && i.is_full && (i.names == key)) (is_indexed indexes key) h) [
      | inr later ↦ inr (is_indexed-IsUniqueKey indexes key later)
      | inl here ↦
          let (flags, same) = and_true (i.is_unique && i.is_full) (i.names == key) here in
          let (unique, full) = and_true i.is_unique i.is_full flags in
          inl (unique, full, (list_eq.same_iff i.names key).0 same)
    ]

key_column-All :
    (lower : String → String) (columns : List Column) (name : String) (names : List String)
    (o : Option Column) (r : Result (List String)) (key : List String)
    → find_column lower columns name ≡ o
    → ((k : List String) → r ≡ ok k → All (IsKeyColumn lower columns) k × (length k ≡ length names))
    → key_column o r ≡ ok key
    → All (IsKeyColumn lower columns) key × (length key ≡ suc (length names))
key_column-All lower columns name names none r key found ih h = absurd (cc)
key_column-All lower columns name names (some c) (err e) key found ih h = absurd (cc)
key_column-All lower columns name names (some c) (ok k) key found ih h =
    elim (Bool-cases c.is_nullable) [
      | inl nullable ↦
          let impossible : refused "paging key must contain existing non-null columns" ≡ ok key =
            rw nullable at h in
          absurd (cc)
      | inr filled ↦
          let same : ok (c.name ∷ k) ≡ ok key = rw filled at h in
          let (all, long) = ih k refl in
          rw⁻¹ (ok_injective same) (((c, name, found, refl, filled), all), ap suc long)
    ]

key_columns-All :
    (lower : String → String) (columns : List Column) (names key : List String)
    → key_columns lower columns names ≡ ok key
    → All (IsKeyColumn lower columns) key × (length key ≡ length names)
unfolding key_columns
key_columns-All lower columns [] key h = rw⁻¹ (ok_injective h) (tt, refl)
key_columns-All lower columns (name ∷ names) key h =
    key_column-All lower columns name names (find_column lower columns name)
      (key_columns lower columns names) key refl (key_columns-All lower columns names) h

indexed_key-IsUniqueKey :
    (indexes : List Index) (r : Result (List String)) (key : List String)
    → indexed_key indexes r ≡ ok key
    → (r ≡ ok key) × IsUniqueKey indexes key
indexed_key-IsUniqueKey indexes (err e) key h = absurd (cc)
indexed_key-IsUniqueKey indexes (ok k) key h = elim (Bool-cases (is_indexed indexes k)) [
  | inl there ↦
      let same : ok k ≡ ok key = rw there at h in
      (same, rw⁻¹ (ok_injective same) (is_indexed-IsUniqueKey indexes k there))
  | inr missing ↦
      let impossible : refused "paging key must match a complete unique index" ≡ ok key =
        rw missing at h in
      absurd (cc)
]

-- A key that is accepted for paging is not empty, names columns that are there and not nullable, and is
-- the whole of a unique index.
pub primary_key_lem :
    (lower : String → String) (override : List String) (columns : List Column)
    (indexes : List Index) (key : List String)
    → primary_key lower override columns indexes ≡ ok key
    → (0 < length key) × All (IsKeyColumn lower columns) key × IsUniqueKey indexes key
unfolding primary_key
primary_key_lem lower override columns indexes key h =
    let names = chosen_key override indexes in
    elim (Bool-cases (length names == 0)) [
      | inl empty ↦
          let impossible : refused
                "TableWithoutPrimaryKey: table requires a primary or declared unique key"
              ≡ ok key =
            rw empty at h in
          absurd (cc)
      | inr filled ↦
          let kept : indexed_key indexes (key_columns lower columns names) ≡ ok key =
            rw filled at h in
          let (read, unique) =
            indexed_key-IsUniqueKey indexes (key_columns lower columns names) key kept in
          let (all, long) = key_columns-All lower columns names key read in
          (ground arith, all, unique)
    ]
