-- ===== src/Checkpoint/RoundTrip.antt =====
-- Cursors that are written and read back.
use pxc_anonymizer.Prelude.{
  ℕ, suc, ◌^◌, ◌<◌, ◌≤◌, ◌≡◌, ◌≢◌, ◌⊎◌, inl, ltb, ap, refl, ◌∙◌, true, false, some, List, [], ◌∷◌,
  arith, All,
}
use pxc_anonymizer.Prelude.Int.{ℤ, pos, negsuc}
use pxc_anonymizer.Prelude.Decimal.{show, read, is_digit, show-cons, read-show, show-IsDigits}
use pxc_anonymizer.Errors.{ok}
use pxc_anonymizer.Strategy.Unicode.{utf8}
use pxc_anonymizer.Sql.{Value, null, bytes, text, int64, uint64, float64, bool, time, foreign}
use pxc_anonymizer.Checkpoint.Cursor.{
  Tagged, Formats, format_int, parse_int, parse_uint, parse_bool, bounded, encode_value,
  encode_values, encode, decode_value, decode_values, decode,
}

-- A Unicode scalar value: a code point that is no surrogate.
abbrev pub IsScalar : ℕ → Type 0
IsScalar c = (c < 55296) ⊎ ((57344 ≤ c) × (c < 1114112))

-- A text that is valid UTF-8: the encoding of scalar values.
abbrev pub IsUtf8 : List ℕ → Type 0
IsUtf8 s = (cs : List ℕ) × All IsScalar cs × (s ≡ utf8 cs)

abbrev pub IsAscii : List ℕ → Type 0
IsAscii s = All (λ c. c < 128) s

-- What the cursor relies on of the standard library's formats: JSON keeps texts that are valid UTF-8 (it
-- replaces the bytes of others) and is not empty, and base64 is ASCII and loses nothing.
pub record IsLossless (F : Formats) : Type 0 where
  pub unmarshal-marshal :
      (ts : List Tagged)
      → All (λ t. IsUtf8 t.type × IsUtf8 t.payload) ts
      → F.unmarshal (F.marshal ts) ≡ some ts
  pub marshal_nonempty : (ts : List Tagged) → F.marshal ts ≢ []
  pub decode-encode : (b : List ℕ) → F.decode_base64 (F.encode_base64 b) ≡ some b
  pub encode_base64-IsAscii : (b : List ℕ) → IsAscii (F.encode_base64 b)

ascii_scalars : (s : List ℕ) → IsAscii s → All IsScalar s
ascii_scalars [] h = tt
ascii_scalars (c ∷ s) h = (inl (omega (arith, h.0)), ascii_scalars s h.1)

ascii_utf8 : (s : List ℕ) → IsAscii s → s ≡ utf8 s
unfolding utf8
ascii_utf8 [] h = refl
ascii_utf8 (c ∷ s) h =
    let low : ltb c 128 ≡ true = ground (arith, h.0) in rw low (ap (λ t. c ∷ t) (ascii_utf8 s h.1))

IsAscii-IsUtf8 : (s : List ℕ) → IsAscii s → IsUtf8 s
IsAscii-IsUtf8 s h = (s, ascii_scalars s h, ascii_utf8 s h)

digits-IsAscii : (s : List ℕ) → All (λ c. is_digit c ≡ true) s → IsAscii s
digits-IsAscii [] h = tt
digits-IsAscii (c ∷ s) (d, h) = (ground arith, digits-IsAscii s h)

format_int-IsAscii : (v : ℤ) → IsAscii (format_int v)
unfolding format_int
format_int-IsAscii (pos n) = digits-IsAscii (show n) (show-IsDigits n)
format_int-IsAscii (negsuc n) = (omega arith, digits-IsAscii (show (suc n)) (show-IsDigits (suc n)))

-- An integer that an `int64` holds.
abbrev pub IsInt64 : ℤ → Type 0
IsInt64 (pos n) = n < 2 ^ 63
IsInt64 (negsuc n) = n < 2 ^ 63

-- A value that the driver delivers for a key column, and that its text format keeps; a text of the driver
-- is valid UTF-8.
abbrev pub IsKeyValue : Formats → Value → Type 0
IsKeyValue F null = ⊥
IsKeyValue F (bytes v) = Unit
IsKeyValue F (text v) = IsUtf8 v
IsKeyValue F (int64 v) = IsInt64 v
IsKeyValue F (uint64 v) = v < 2 ^ 64
IsKeyValue F (float64 v) = (F.parse_float v ≡ some v) × IsAscii v
IsKeyValue F (bool v) = Unit
IsKeyValue F (time v) = (F.parse_time v ≡ some v) × IsAscii v
IsKeyValue F (foreign t) = ⊥

parse_int-digit :
    (c : ℕ) (s : List ℕ) → is_digit c ≡ true → parse_int (c ∷ s) ≡ bounded (read (c ∷ s))
unfolding parse_int
parse_int-digit c s h = ground arith

parse_int-format_int : (v : ℤ) → IsInt64 v → parse_int (format_int v) ≡ some v
unfolding parse_int format_int
parse_int-format_int (pos n) h =
    let (c, s, e, d) = show-cons n in
    rw e (parse_int-digit c s d ∙ rw (← e) (rw (read-show n) (ground arith)))
parse_int-format_int (negsuc n) h = rw (read-show (suc n)) (ground arith)

parse_uint-show : (n : ℕ) → n < 2 ^ 64 → parse_uint (show n) ≡ some n
unfolding parse_uint
parse_uint-show n h = rw (read-show n) (ground arith)

module _ (F : Formats) (L : IsLossless F) where
  -- A tagged value, of which JSON keeps both texts.
  abbrev IsKept : Tagged → Type 0
  IsKept t = IsUtf8 t.type × IsUtf8 t.payload

  tagged-IsKept : (t : Tagged) → IsAscii t.type → IsAscii t.payload → IsKept t
  tagged-IsKept t h k = (IsAscii-IsUtf8 t.type h, IsAscii-IsUtf8 t.payload k)

  decode_value-encode_value :
      (v : Value)
      → IsKeyValue F v
      → (t : Tagged) × (encode_value F v ≡ ok t) × (decode_value F t ≡ ok v) × IsKept t
  unfolding encode_value decode_value
  decode_value-encode_value null h = absurd h
  decode_value-encode_value (bytes v) h =
      (_, refl, rw L.decode-encode, tagged-IsKept _ (ground arith) (L.encode_base64-IsAscii v))
  decode_value-encode_value (text v) h = (_, refl, refl, (IsAscii-IsUtf8 _ (ground arith), h))
  decode_value-encode_value (int64 v) h = (
    _,
    refl,
    rw (parse_int-format_int v h),
    tagged-IsKept _ (ground arith) (format_int-IsAscii v),
  )
  decode_value-encode_value (uint64 v) h = (
    _,
    refl,
    rw (parse_uint-show v h),
    tagged-IsKept _ (ground arith) (digits-IsAscii (show v) (show-IsDigits v)),
  )
  decode_value-encode_value (float64 v) (h, a) = (_, refl, rw h, tagged-IsKept _ (ground arith) a)
  decode_value-encode_value (bool true) h =
      (_, refl, unfold parse_bool in refl, tagged-IsKept _ (ground arith) (ground arith))
  decode_value-encode_value (bool false) h =
      (_, refl, unfold parse_bool in refl, tagged-IsKept _ (ground arith) (ground arith))
  decode_value-encode_value (time v) (h, a) = (_, refl, rw h, tagged-IsKept _ (ground arith) a)
  decode_value-encode_value (foreign t) h = absurd h

  decode_values-encode_values :
      (key : List Value)
      → All (IsKeyValue F) key
      → (ts : List Tagged) × (encode_values F key ≡ ok ts)
        × (decode_values F ts ≡ ok key)
        × All IsKept ts
  unfolding encode_values decode_values
  decode_values-encode_values [] h = ([], refl, refl, tt)
  decode_values-encode_values (v ∷ key) h =
      let (t, encoded, decoded, kept) = decode_value-encode_value v h.0 in
      let (ts, all_encoded, all_decoded, all_kept) = decode_values-encode_values key h.1 in
      (t ∷ ts, rw (encoded, all_encoded), rw (decoded, all_decoded), (kept, all_kept))

  -- Every key of supported, in-range values, with texts in valid UTF-8, has a cursor, which is not empty, and
  -- decoding it gives the key back, types included, provided that JSON keeps valid UTF-8, and base64 and the
  -- texts of floats and times lose nothing.
  pub decode-encode :
      (key : List Value)
      → All (IsKeyValue F) key
      → (cursor : List ℕ) × (encode F key ≡ ok cursor) × (cursor ≢ []) × (decode F cursor ≡ ok key)
  unfolding encode decode
  decode-encode key h =
      let (ts, encoded, decoded, kept) = decode_values-encode_values key h in
      (F.marshal ts, rw encoded, L.marshal_nonempty ts, rw (L.unmarshal-marshal ts kept) decoded)
