-- ===== src/Strategy/Params.antt =====
-- The parameters of a column rule and their checks by strategy (internal/runner/strategy/params.go).
-- A pointer is an `Option`, an `int32` or `int64` a ℤ.
use pxc_anonymizer.Prelude.{
  ℕ, String, ◌<>◌, Bool, true, false, ◌&&◌, ◌||◌, Option, none, some, List, [], ◌∷◌, ◌==◌, ◌/=◌,
  text_eq, nat_eq, codes, length, ltb, if◌then◌else◌,
}
use pxc_anonymizer.Prelude.Int.{ℤ, pos, ltb_ℤ}
use pxc_anonymizer.Errors.{plain, Result, ok, err, refuse_if}

-- `api.Strategy`: the names of the registry; `unregistered` is any other text.
pub data Kind : Type 0 where
  first_name last_name full_name job_title email phone date address : Kind
  street_address street_suffix city postal_code state country company : Kind
  company_suffix vat_id iban ipv4_public url uuid alphanumeric digits : Kind
  number text constant hash mask null : Kind
  unregistered : String → Kind

pub record SecretRef : Type 0 where
  pub name : String
  pub key : String

-- `api.StrategyParams`, in its order; `unique` is not read by this code.
pub record Params : Type 0 where
  pub locale : String
  pub domain : String
  pub ascii : Option Bool
  pub digit_count : Option ℤ  -- Digits
  pub from : String
  pub to : String
  pub format : String
  pub country_code : String  -- Country
  pub size : Option ℤ  -- Length
  pub letter_case : String  -- Case
  pub min : Option ℤ
  pub max : Option ℤ
  pub max_length : Option ℤ
  pub sentences : Option ℤ
  pub value : Option String
  pub value_from : Option SecretRef
  pub encoding : String
  pub keep_prefix : Option ℤ
  pub keep_suffix : Option ℤ
  pub mask_char : String

-- What the checks ask of the standard library: `time.Parse(time.DateOnly, s)`, as the seconds since the
-- year 1, and the address that `mail.ParseAddress` finds.
pub record Parsers : Type 0 where
  pub parse_date : String → Option ℤ
  pub parse_address : String → Option String

-- The value, or the default that the source stores in its place.
abbrev pub or_else {ℓ} : {A : Type ℓ} → A → Option A → A
or_else d none = d
or_else d (some a) = a

abbrev pub or_text : String → String → String
or_text d s = if s == "" then d else s

abbrev pub is_some {ℓ} : {A : Type ℓ} → Option A → Bool
is_some none = false
is_some (some a) = true

abbrev pub is_outside : ℤ → ℤ → ℤ → Bool
is_outside low high n = ltb_ℤ n low || ltb_ℤ high n

unfoldable pub prepare_length : Params → Result Params
prepare_length p = refuse_if (if is_some p.size then false else true) "strategy requires length" (
    refuse_if
      ((p.letter_case /= "")
        && (p.letter_case /= "Mixed")
        && (p.letter_case /= "Upper")
        && (p.letter_case /= "Lower"))
      "case must be Mixed, Upper or Lower" (ok p))

unfoldable pub prepare_phone : Params → Result Params
prepare_phone p =
    let n = or_else (pos 15) p.digit_count in
    refuse_if (is_outside (pos 1) (pos 15) n) "phone digits must be between 1 and 15"
      (ok (record p { digit_count = some n }))

-- A character that is one of the given ones.
unfoldable pub has_any : List ℕ → (ℕ → Bool) → Bool
has_any [] test = false
has_any (c ∷ s) test = test c || has_any s test

-- `strings.ContainsAny(p.Domain, "\r\n /@")`.
abbrev pub is_domain_breaker : ℕ → Bool
is_domain_breaker c = (c == 13) || (c == 10) || (c == 32) || (c == 47) || (c == 64)

module _ (P : Parsers) where
  abbrev pub is_address : String → Bool
  is_address s = elim (P.parse_address s) [ none ↦ false | some a ↦ a == s ]

  unfoldable pub prepare_email : Params → Result Params
  unfolding has_any
  prepare_email p =
      refuse_if
        ((p.domain /= "") && or_else true p.ascii && has_any (codes p.domain) (λ c. ltb 127 c))
        "ASCII email requires an ASCII domain"
        (refuse_if
          ((p.domain /= "")
            && ((if is_address ("anonymous@" <> p.domain) then false else true)
                || has_any (codes p.domain) is_domain_breaker))
          "email domain is invalid" (ok p))

  -- The end of a range that is set is a date, and not before its start.
  abbrev pub is_wrong_end : ℤ → String → Bool
  is_wrong_end from to =
      if to == "" then false else elim (P.parse_date to) [ none ↦ true | some d ↦ ltb_ℤ d from ]

  abbrev pub date_within : Params → Option ℤ → Result Params
  date_within p none = err (plain "date from must use YYYY-MM-DD")
  date_within p (some from) =
      refuse_if (is_wrong_end from p.to) "date to must use YYYY-MM-DD and not precede from" (
        refuse_if ((p.format /= "") && (p.format /= "date") && (p.format /= "datetime"))
          "date format must be date or datetime" (ok p))

  unfoldable pub prepare_date : Params → Result Params
  prepare_date p =
      let q = record p { from = or_text "1950-01-01" p.from } in date_within q (P.parse_date q.from)

unfoldable pub prepare_country : Params → Result Params
prepare_country p =
    let c = or_text "DE" p.country_code in
    refuse_if (c /= "DE") "vatId and iban currently support country DE"
      (ok (record p { country_code = c }))

unfoldable pub prepare_number : Params → Result Params
prepare_number p =
    let low = or_else (pos 0) p.min in
    let high = or_else (pos 100) p.max in
    refuse_if (ltb_ℤ high low) "number min must not exceed max"
      (ok (record p { min = some low; max = some high }))

unfoldable pub prepare_text : Params → Result Params
prepare_text p =
    let m = or_else (pos 255) p.max_length in
    let s = or_else (pos 1) p.sentences in
    refuse_if (is_outside (pos 1) (pos 4096) m || is_outside (pos 1) (pos 100) s)
      "text maxLength must be 1..4096 and sentences 1..100"
      (ok (record p { max_length = some m; sentences = some s }))

abbrev pub is_blank_ref : Option SecretRef → Bool
is_blank_ref none = false
is_blank_ref (some r) = (r.name == "") || (r.key == "")

-- What `c.constant` becomes.
abbrev pub constant_of : Option String → Option String → Option String
constant_of (some v) resolved = some v
constant_of none resolved = resolved

unfoldable pub prepare_constant : Params → Result Params
prepare_constant p =
    refuse_if
      (if is_some p.value
        then is_some p.value_from
        else (if is_some p.value_from then false else true))
      "constant requires exactly one value or valueFrom"
      (refuse_if (is_blank_ref p.value_from) "constant valueFrom requires Secret name and key"
        (ok p))

-- The number of characters that a digest has in an encoding.
abbrev pub hash_limit : String → ℕ
hash_limit encoding = if encoding == "base64" then 44 else 64

unfoldable pub prepare_hash : Params → Result Params
prepare_hash p =
    let e = or_text "hex" p.encoding in
    let n = or_else (pos (hash_limit e)) p.size in
    refuse_if ((e /= "base64") && (e /= "hex")) "hash encoding must be hex or base64" (
      refuse_if (ltb_ℤ (pos (hash_limit e)) n) "hash length exceeds the output length"
        (ok (record p { encoding = e; size = some n })))

unfoldable pub prepare_mask : Params → Result Params
prepare_mask p =
    let prefix = or_else (pos 0) p.keep_prefix in
    let suffix = or_else (pos 0) p.keep_suffix in
    let char = or_text "*" p.mask_char in
    refuse_if (is_outside (pos 0) (pos 4096) prefix || is_outside (pos 0) (pos 4096) suffix)
      "mask prefix and suffix must be between 0 and 4096"
      (refuse_if (length (codes char) /= 1) "maskChar must be one Unicode character"
        (ok (record p { keep_prefix = some prefix; keep_suffix = some suffix; mask_char = char })))
