-- ===== src/Checkpoint/Cursor.antt =====
-- The type-tagged encoding of a primary key (`encode` and `decode` of
-- internal/runner/checkpoint/checkpoint.go).
use pxc_anonymizer.Prelude.{
  ℕ, suc, ◌-◌, ◌^◌, String, Bool, true, false, ◌||◌, Option, none, some, List, [], ◌∷◌, ltb, leb,
  ◌==◌, list_eq, nat_eq, codes, if◌then◌else◌,
}
use pxc_anonymizer.Prelude.Int.{ℤ, pos, negsuc}
use pxc_anonymizer.Prelude.Decimal.{show, read}
use pxc_anonymizer.Errors.{plain, Result, ok, err}
use pxc_anonymizer.Sql.{Value, null, bytes, text, int64, uint64, float64, bool, time, foreign}

-- `value` of the source: `type` and `data`.
pub record Tagged : Type 0 where
  pub type : List ℕ
  pub payload : List ℕ

-- The text formats of the standard library that are not modelled: JSON of a list of tagged values,
-- base64, and the readers of floats and times, which answer in the text that is written again.
pub record Formats : Type 0 where
  pub marshal : List Tagged → List ℕ
  pub unmarshal : List ℕ → Option (List Tagged)
  pub encode_base64 : List ℕ → List ℕ
  pub decode_base64 : List ℕ → Option (List ℕ)
  pub parse_float : List ℕ → Option (List ℕ)
  pub parse_time : List ℕ → Option (List ℕ)

-- `strconv.FormatInt(v, 10)`.
unfoldable pub format_int : ℤ → List ℕ
format_int (pos n) = show n
format_int (negsuc n) = b'-' ∷ show (suc n)

abbrev pub negated : Option ℕ → Option ℤ
negated none = none
negated (some n) =
    if n == 0 then some (pos 0) else if leb n (2 ^ 63) then some (negsuc (n - 1)) else none

abbrev pub bounded : Option ℕ → Option ℤ
bounded none = none
bounded (some n) = if ltb n (2 ^ 63) then some (pos n) else none

-- `strconv.ParseInt(s, 10, 64)`.
unfoldable pub parse_int : List ℕ → Option ℤ
parse_int [] = none
parse_int (c ∷ s) =
    if c == b'-'
    then negated (read s)
    else if c == b'+'
    then bounded (read s)
    else bounded (read (c ∷ s))

abbrev pub below_u64 : Option ℕ → Option ℕ
below_u64 none = none
below_u64 (some n) = if ltb n (2 ^ 64) then some n else none

-- `strconv.ParseUint(s, 10, 64)`.
unfoldable pub parse_uint : List ℕ → Option ℕ
parse_uint s = below_u64 (read s)

-- `strconv.FormatBool`.
abbrev pub format_bool : Bool → List ℕ
format_bool true = codes "true"
format_bool false = codes "false"

-- `strconv.ParseBool`.
unfoldable pub parse_bool : List ℕ → Option Bool
parse_bool s =
    if (s == codes "1")
      || (s == codes "t")
      || (s == codes "T")
      || (s == codes "true")
      || (s == codes "TRUE")
      || (s == codes "True")
    then some true
    else if (s == codes "0")
        || (s == codes "f")
        || (s == codes "F")
        || (s == codes "false")
        || (s == codes "FALSE")
        || (s == codes "False")
    then some false
    else none

abbrev pub tagged : String → List ℕ → Result Tagged
tagged t d = ok (record { type = codes t; payload = d })

abbrev pub cons_ok {ℓ} : {A : Type ℓ} → Result A → Result (List A) → Result (List A)
cons_ok (err e) rest = err e
cons_ok (ok a) (err e) = err e
cons_ok (ok a) (ok rest) = ok (a ∷ rest)

abbrev pub read_as {ℓ} : {A : Type ℓ} → (A → Value) → Option A → Result Value
read_as make none = err (plain "malformed checkpoint primary key")
read_as make (some a) = ok (make a)

module _ (F : Formats) where
  -- The `switch` of `encode` on the dynamic type of one key value.
  unfoldable pub encode_value : Value → Result Tagged
  encode_value null = err (plain "unsupported primary key type <nil>")
  encode_value (bytes v) = tagged "bytes" (F.encode_base64 v)
  encode_value (text v) = tagged "string" v
  encode_value (int64 v) = tagged "int64" (format_int v)
  encode_value (uint64 v) = tagged "uint64" (show v)
  encode_value (float64 v) = tagged "float64" v
  encode_value (bool v) = tagged "bool" (format_bool v)
  encode_value (time v) = tagged "time" v
  encode_value (foreign t) = err (plain "unsupported primary key type")

  -- The loop of `encode`.
  unfoldable pub encode_values : List Value → Result (List Tagged)
  encode_values [] = ok []
  encode_values (v ∷ vs) = cons_ok (encode_value v) (encode_values vs)

  abbrev marshalled : Result (List Tagged) → Result (List ℕ)
  marshalled (ok ts) = ok (F.marshal ts)
  marshalled (err e) = err e

  unfoldable pub encode : List Value → Result (List ℕ)
  encode key = marshalled (encode_values key)

  -- The `switch` of `decode` on the tag of one key value.
  unfoldable pub decode_value : Tagged → Result Value
  decode_value v =
      if v.type == codes "bytes"
      then read_as bytes (F.decode_base64 v.payload)
      else if v.type == codes "string"
      then ok (text v.payload)
      else if v.type == codes "int64"
      then read_as int64 (parse_int v.payload)
      else if v.type == codes "uint64"
      then read_as uint64 (parse_uint v.payload)
      else if v.type == codes "float64"
      then read_as float64 (F.parse_float v.payload)
      else if v.type == codes "bool"
      then read_as bool (parse_bool v.payload)
      else if v.type == codes "time"
      then read_as time (F.parse_time v.payload)
      else err (plain "unsupported checkpoint primary key encoding")

  -- The loop of `decode`.
  unfoldable pub decode_values : List Tagged → Result (List Value)
  decode_values [] = ok []
  decode_values (t ∷ ts) = cons_ok (decode_value t) (decode_values ts)

  abbrev unmarshalled : Option (List Tagged) → Result (List Value)
  unmarshalled none = err (plain "malformed checkpoint cursor")
  unmarshalled (some ts) = decode_values ts

  unfoldable pub decode : List ℕ → Result (List Value)
  decode cursor = unmarshalled (F.unmarshal cursor)
