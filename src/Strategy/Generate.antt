-- ===== src/Strategy/Generate.antt =====
-- The generation of a pseudonym (`Generate`, `generate` and `valueHash` of
-- internal/runner/strategy/generate.go).
use pxc_anonymizer.Prelude.{
  ℕ, zero, suc, ◌+◌, ◌*◌, String, Bool, true, false, ◌&&◌, ◌||◌, Option, none, some, List, [], ◌∷◌,
  ◌++◌, ◌==◌, ◌/=◌, nat_eq, text_eq, codes, length, min, get_elem?, take, leb, if◌then◌else◌,
}
use pxc_anonymizer.Prelude.Int.{ℤ, pos, negsuc, ltb_ℤ}
use pxc_anonymizer.Sql.{Value, null, bytes}
use pxc_anonymizer.Sql.{text as text_value, time as time_value}
use pxc_anonymizer.Strategy.Params.{
  Params, Kind, email, phone, date, address, street_address, city, postal_code, state, vat_id, iban,
  ipv4_public, alphanumeric, digits, number, text, constant, hash, mask, unregistered, Parsers,
  or_else,
}
use pxc_anonymizer.Strategy.Params.{null as null_kind}
use pxc_anonymizer.Strategy.Compile.{Column}
use pxc_anonymizer.Strategy.Unicode.{runes, utf8}
use pxc_anonymizer.Strategy.Texts.{
  decimal, hex, iban_text, mask_text, number_between, email_text, slice, as_text,
}
use pxc_anonymizer.Strategy.Network.{public_ipv4}

-- What generation asks of other libraries; `S` is the state of the seeded random source, which
-- every draw moves on.
pub record Library (S : Type 0) : Type 0 where
  pub hmac : List ℕ → List ℕ → List ℕ  -- HMAC-SHA256 of a message under a key
  pub normal_form : List ℕ → List ℕ  -- norm.NFC.String
  pub trim_space : List ℕ → List ℕ
  pub to_lower : List ℕ → List ℕ
  pub marshal_texts : List (List ℕ) → List ℕ
  pub kind_name : Kind → List ℕ  -- the text of an `api.Strategy`
  pub print : Value → List ℕ  -- fmt.Sprint
  pub print_time : List ℕ → List ℕ  -- UTC and RFC3339Nano
  pub new_source : ℕ → ℕ → S
  pub fake : Kind → S → List ℕ × S  -- gofakeit's method of a strategy
  pub sentence : S → List ℕ × S
  pub date_range : ℤ → ℤ → S → ℤ
  pub format_date : ℤ → List ℕ
  pub format_date_time : ℤ → List ℕ
  pub uint32 : S → ℕ × S
  pub int_n : S → ℕ → ℕ × S
  pub encode_base64 : List ℕ → List ℕ

-- What a call returns: a nil, a text, an `int64`, an error, or a panic.
pub data Output : Type 0 where
  null_output : Output
  text_output : List ℕ → Output
  number_output : ℤ → Output
  failed : String → Output
  panicked : Output

-- `Row` of generate.go, as bytes.
pub record Origin : Type 0 where
  pub database : List ℕ
  pub table : List ℕ
  pub primary_key : List ℕ
  pub column : List ℕ

-- A pointer that is read, and an `int` that a length, a count or a bound of a slice is.
abbrev pub counted : Option ℤ → (ℕ → Output) → Output
counted none k = panicked
counted (some (negsuc n)) k = panicked
counted (some (pos n)) k = k n

abbrev pub text_or_panic : Option (List ℕ) → Output
text_or_panic none = panicked
text_or_panic (some s) = text_output s

abbrev pub is_empty {ℓ} : {A : Type ℓ} → List A → Bool
is_empty [] = true
is_empty (a ∷ s) = false

abbrev pub is_null : Value → Bool
is_null null = true
is_null _ = false

-- `alphabet` by the case that the parameters ask for.
abbrev pub alphabet : String → List ℕ
alphabet letters =
    if letters == "Upper"
    then codes "ABCDEFGHIJKLMNOPQRSTUVWXYZ0123456789"
    else if letters == "Lower"
    then codes "abcdefghijklmnopqrstuvwxyz0123456789"
    else codes "abcdefghijklmnopqrstuvwxyzABCDEFGHIJKLMNOPQRSTUVWXYZ0123456789"

abbrev pub append_drawn : Option ℕ → Option (List ℕ) → Option (List ℕ)
append_drawn none rest = none
append_drawn (some c) none = none
append_drawn (some c) (some s) = some (c ∷ s)

-- The first bytes of a text, a panic if there are too few.
abbrev pub sliced : List ℕ → ℕ → Output
sliced s n = if leb n (length s) then text_output (take n s) else panicked

-- The first runes of a text, as many as there are up to a limit.
abbrev pub limited : ℕ → List ℕ → Option (List ℕ)
limited n s = as_text (slice 0 (min (length s) n) s)

-- `binary.LittleEndian.Uint64`.
unfoldable pub little_endian : List ℕ → ℕ
little_endian [] = 0
little_endian (b ∷ s) = b + 256 * little_endian s

module _ {S : Type 0} (L : Library S) where
  -- The loop of `alphanumeric`.
  unfoldable pub drawn : List ℕ → ℕ → S → Option (List ℕ)
  drawn letters zero s = some []
  drawn letters (suc n) s =
      append_drawn (get_elem? letters (L.int_n s (length letters)).0)
        (drawn letters n (L.int_n s (length letters)).1)

  -- The sentences of `text`, joined by spaces.
  unfoldable pub sentences_text : ℕ → S → List ℕ
  sentences_text zero s = []
  sentences_text (suc zero) s = (L.sentence s).0
  sentences_text (suc (suc n)) s =
      (L.sentence s).0 ++ (b' ' ∷ sentences_text (suc n) (L.sentence s).1)

  unfoldable pub input_text : Value → List ℕ
  input_text null = []
  input_text (bytes v) = v
  input_text (text_value v) = v
  input_text (time_value v) = L.print_time v
  input_text v = L.print v

  -- The case of `address`: four draws in the order of the source.
  unfoldable pub address_text : S → List ℕ
  address_text s =
      let (street, s1) = L.fake street_address s in
      let (town, s2) = L.fake city s1 in
      let (region, s3) = L.fake state s2 in
      street
      ++ (codes ", " ++ (town ++ (codes ", " ++ (region ++ (b' ' ∷ (L.fake postal_code s3).0)))))

  -- `time.Parse` with its error dropped, which leaves the zero time.
  abbrev date_or_zero : Parsers → String → ℤ
  date_or_zero P s = or_else (pos 0) (P.parse_date s)

  unfoldable pub date_output : Parsers → ℤ → Params → S → Output
  date_output P today p s =
      let from = date_or_zero P p.from in
      let to = if p.to == "" then today else date_or_zero P p.to in
      if ltb_ℤ to from
      then failed "date range ends before it starts"
      else if p.format == "datetime"
      then text_output (L.format_date_time (L.date_range from to s))
      else text_output (L.format_date (L.date_range from to s))

  abbrev pub vat_text : Params → Option (List ℕ) → Output
  vat_text p none = panicked
  vat_text p (some s) = text_output (utf8 (codes p.country_code) ++ s)

  abbrev number_or_panic : Option ℤ → Output
  number_or_panic none = panicked
  number_or_panic (some n) = number_output n

  abbrev pub number_case : Params → Option ℤ → Option ℤ → List ℕ → Output
  number_case p (some low) (some high) h = number_or_panic (number_between h low high)
  number_case p _ _ h = panicked

  abbrev pub address_or_error : Option (List ℕ) → Output
  address_or_error none = failed "public IPv4 generation exhausted its bound"
  address_or_error (some s) = text_output s

  -- `generate`: the last clause is `fakerStrategies` with the other fake texts.
  unfoldable pub generate_text : Parsers → ℤ → Kind → Params → List ℕ → S → Output
  generate_text P today email p h s = text_or_panic (email_text (L.fake email s).0 p.domain h)
  generate_text P today phone p h s = counted p.digit_count (λ n. text_or_panic (decimal h n))
  generate_text P today date p h s = date_output P today p s
  generate_text P today address p h s = text_output (address_text s)
  generate_text P today vat_id p h s = vat_text p (decimal h 9)
  generate_text P today iban p h s = text_or_panic (iban_text h)
  generate_text P today ipv4_public p h s = address_or_error (public_ipv4 L.uint32 128 s)
  generate_text P today alphanumeric p h s =
      counted p.size (λ n. text_or_panic (drawn (alphabet p.letter_case) n s))
  generate_text P today digits p h s = counted p.size (λ n. text_or_panic (decimal h n))
  generate_text P today number p h s = number_case p p.min p.max h
  generate_text P today text p h s =
      counted p.sentences
        (λ n. counted p.max_length (λ m. text_or_panic (limited m (runes (sentences_text n s)))))
  generate_text P today hash p h s =
      counted p.size (λ n. sliced (if p.encoding == "base64" then L.encode_base64 h else hex h) n)
  generate_text P today (unregistered name) p h s = failed "unknown strategy"
  generate_text P today constant p h s = failed "unknown strategy"
  generate_text P today mask p h s = failed "unknown strategy"
  generate_text P today null_kind p h s = failed "unknown strategy"
  generate_text P today k p h s = text_output (L.fake k s).0

  -- The value under the hash of a consistent column.
  unfoldable pub normalized : Kind → List ℕ → List ℕ
  normalized email v = L.to_lower (L.normal_form (L.trim_space v))
  normalized _ v = L.normal_form (L.trim_space v)

  -- `valueHash` up to the first digest: `none` is its error.
  unfoldable pub base_payload : Column → List ℕ → Origin → Option (List ℕ)
  base_payload c v row =
      if c.consistent
      then some (L.kind_name c.strategy ++ (31 ∷ normalized c.strategy v))
      else if is_empty row.database
          || is_empty row.table
          || is_empty row.primary_key
          || is_empty row.column
      then none
      else some (L.marshal_texts (row.database ∷ row.table ∷ row.primary_key ∷ row.column ∷ []))

  abbrev pub retried : List ℕ → ℕ → List ℕ → List ℕ
  retried key zero h = h
  retried key (suc n) h = L.hmac key (codes "pxc-anonymizer/unique-retry/" ++ (h ++ (suc n ∷ [])))

  abbrev pub digest_of : List ℕ → ℕ → Option (List ℕ) → Option (List ℕ)
  digest_of key retry none = none
  digest_of key retry (some payload) = some (retried key retry (L.hmac key payload))

  -- `valueHash`.
  unfoldable pub value_hash : List ℕ → Column → List ℕ → Origin → ℕ → Option (List ℕ)
  value_hash key c v row retry = digest_of key retry (base_payload c v row)

  abbrev pub constant_output : Option String → Output
  constant_output none =
      failed "constant Secret value has not been resolved from its projected file"
  constant_output (some s) = text_output (utf8 (codes s))

  abbrev pub seeded : Parsers → ℤ → Column → List ℕ → Option (List ℕ) → Option (List ℕ) → Output
  seeded P today c h (some a) (some b) =
      generate_text P today c.strategy c.params h (L.new_source (little_endian a) (little_endian b))
  seeded P today c h _ _ = panicked

  abbrev pub from_digest : Parsers → ℤ → Column → Option (List ℕ) → Output
  from_digest P today c none =
      failed "non-consistent generation requires database, table, primary key and column"
  from_digest P today c (some h) = seeded P today c h (slice 0 8 h) (slice 8 16 h)

  abbrev pub mask_output : Params → List ℕ → Output
  mask_output p v =
      counted p.keep_prefix
        (λ a. counted p.keep_suffix (λ b. text_or_panic (mask_text a b (codes p.mask_char) v)))

  -- The `switch` of `Generate` and what follows it.
  unfoldable pub produced : Parsers → ℤ → List ℕ → Column → Kind → List ℕ → Origin → ℕ → Output
  produced P today key c null_kind v row retry = null_output
  produced P today key c constant v row retry = constant_output c.constant
  produced P today key c mask v row retry = mask_output c.params v
  produced P today key c _ v row retry = from_digest P today c (value_hash key c v row retry)

  -- `Generate` on a column that is not nil, with the generator's key and date.
  unfoldable pub generate : Parsers → ℤ → List ℕ → Column → Value → Origin → ℕ → Output
  generate P today key c input row retry =
      if leb 8 retry
      then failed "UNIQUE retry counter exceeds eight attempts"
      else if is_null input && (c.on_null /= "Generate")
      then null_output
      else if (if is_null input then false else true)
          && is_empty (input_text input)
          && (c.on_empty /= "Generate")
      then text_output []
      else produced P today key c c.strategy (input_text input) row retry
