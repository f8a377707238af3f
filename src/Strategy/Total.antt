-- ===== src/Strategy/Total.antt =====
-- Generation on a compiled column: panics, and the length of its texts.
use pxc_anonymizer.Prelude.{
  ℕ, zero, suc, ◌+◌, ◌≤◌, ◌<◌, String, ◌≡◌, refl, sym, ap, Bool, true, false, Option, none, some,
  List, [], ◌∷◌, ◌++◌, ◌==◌, text_eq, length, nat_eq, length-append, length-take, get_elem?, take,
  codes, arith, min, leb, Bool-cases, inl, inr, if◌then◌else◌,
}
use pxc_anonymizer.Prelude.Int.{ℤ, pos, ltb_ℤ}
use pxc_anonymizer.Strategy.Params.{Kind, uuid, email, Params, Parsers, hash_limit, or_else}
use pxc_anonymizer.Strategy.Ready.{IsReady, IsCount}
use pxc_anonymizer.Strategy.Texts.{
  decimal, email_text, local_part, or_anonymous, trim_left, trim_right, local_chars, split_address,
  iban_text, hex,
}
use pxc_anonymizer.Strategy.Slices.{slice-some, slice_start}
use pxc_anonymizer.Strategy.Network.{public_ipv4}
use pxc_anonymizer.Strategy.Unicode.{utf8, runes}
use pxc_anonymizer.Strategy.Laws.{number_between_bounds, decimal_total, iban_valid, length-hex}
use pxc_anonymizer.Strategy.Generate.{
  Library, Output, null_output, text_output, number_output, failed, panicked, counted,
  text_or_panic, sliced, drawn, alphabet, vat_text, sentences_text, date_output, number_case,
  address_or_error, generate_text, limited,
}

-- `OutputLength` (internal/runner/strategy/params.go): the exact length of a generated text.
unfoldable pub output_length : Kind → Params → Option ℤ
output_length Kind.hash p = p.size
output_length Kind.digits p = p.size
output_length Kind.alphanumeric p = p.size
output_length Kind.phone p = p.digit_count
output_length Kind.date p = some (pos (if p.format == "datetime" then 19 else 10))
output_length Kind.uuid p = some (pos 36)
output_length Kind.vat_id p = some (pos (length (codes p.country_code) + 9))
output_length Kind.iban p = some (pos 22)
output_length _ p = none

-- What generation relies on of the other libraries: the size of a SHA-256 digest and of its base64
-- text, the bound of `IntN`, an `@` in a fake email address, and the sizes of a UUID and of
-- the two date formats.
pub record IsLibrary {S : Type 0} (L : Library S) : Type 0 where
  pub length-hmac : (key message : List ℕ) → length (L.hmac key message) ≡ 32
  pub length-base64 : (h : List ℕ) → length h ≡ 32 → length (L.encode_base64 h) ≡ 44
  pub int_n-lt : (s : S) (n : ℕ) → 0 < n → (L.int_n s n).0 < n
  pub has_domain : (s : S) → (d : List ℕ) × ((split_address (L.fake email s).0).1 ≡ some d)
  pub length-uuid : (s : S) → length (L.fake uuid s).0 ≡ 36
  pub length-date : (d : ℤ) → length (L.format_date d) ≡ 10
  pub length-date_time : (d : ℤ) → length (L.format_date_time d) ≡ 19

-- An output that is no panic, and that has the given length if it is a text.
unfoldable pub Fits : Option ℤ → Output → Type 0
Fits n panicked = ⊥
Fits none o = Unit
Fits (some n) (text_output s) = n ≡ pos (length s)
Fits (some n) (failed m) = Unit
Fits (some n) null_output = ⊥
Fits (some n) (number_output z) = ⊥

length-Fits : (s : List ℕ) (n : ℕ) → length s ≡ n → Fits (some (pos n)) (text_output s)
unfolding Fits
length-Fits s n e = ap pos (sym e)

sliced-Fits : (s : List ℕ) (n : ℕ) → n ≤ length s → Fits (some (pos n)) (sliced s n)
sliced-Fits s n h = elim (Bool-cases (leb n (length s))) [
  | inl fits ↦ rw fits (length-Fits (take n s) n (omega (arith, length-take n s)))
  | inr short ↦ absurd (ground arith)
]

date_cases-Fits :
    (late long : Bool) (m : String) (x y : List ℕ)
    → length x ≡ 19
    → length y ≡ 10
    → Fits
        (some (pos (if long then 19 else 10)))
        (if late then failed m else if long then text_output x else text_output y)
unfolding Fits
date_cases-Fits true long m x y h k = tt
date_cases-Fits false true m x y h k = ap pos (sym h)
date_cases-Fits false false m x y h k = ap pos (sym k)

pub failed-Fits : (n : Option ℤ) (m : String) → Fits n (failed m)
unfolding Fits
failed-Fits none m = tt
failed-Fits (some n) m = tt

get_elem?-lt : (s : List ℕ) (i : ℕ) → i < length s → (c : ℕ) × (get_elem? s i ≡ some c)
get_elem?-lt [] i h = absurd (omega arith)
get_elem?-lt (c ∷ s) zero h = (c, refl)
get_elem?-lt (c ∷ s) (suc i) h = get_elem?-lt s i (omega arith)

module _ {S : Type 0} (L : Library S) (is : IsLibrary L) where
  drawn_total :
      (letters : List ℕ) (n : ℕ) (s : S)
      → 0 < length letters
      → (t : List ℕ) × (drawn L letters n s ≡ some t) × (length t ≡ n)
  unfolding drawn
  drawn_total letters zero s h = ([], refl, refl)
  drawn_total letters (suc n) s h =
      let (c, at) = get_elem?-lt letters _ (is.int_n-lt s (length letters) h) in
      let (t, e, size) = drawn_total letters n (L.int_n s (length letters)).1 h in
      (c ∷ t, rw (at, e) refl, omega (arith, size))

  alphabet-positive : (letters : String) → 0 < length (alphabet letters)
  alphabet-positive letters = ground arith

  decimal-Fits :
      (h : List ℕ) (o : Option ℤ) (high : ℕ)
      → IsCount 1 high o
      → Fits o (counted o (λ n. text_or_panic (decimal h n)))
  unfolding Fits
  decimal-Fits h o high (n, e, low, up) =
      let (s, made, size, _) = decimal_total h n (omega arith) in
      rw (e, made) (length-Fits s n size)

  alphanumeric-Fits :
      (letters : List ℕ) (s : S) (o : Option ℤ)
      → 0 < length letters
      → IsCount 1 4096 o
      → Fits o (counted o (λ n. text_or_panic (drawn L letters n s)))
  unfolding Fits
  alphanumeric-Fits letters s o h (n, e, low, up) =
      let (t, made, size) = drawn_total letters n s h in rw (e, made, size) refl

  hash-Fits :
      (p : Params) (h : List ℕ)
      → length h ≡ 32
      → IsCount 1 (hash_limit p.encoding) p.size
      → Fits p.size (
          counted p.size
            (λ n. sliced (if p.encoding == "base64" then L.encode_base64 h else hex h) n))
  unfolding Fits
  hash-Fits p h full (n, e, low, up) = elim (Bool-cases (p.encoding == "base64")) [
    | inl base ↦
        rw (e, base) (sliced-Fits (L.encode_base64 h) n (ground (arith, is.length-base64 h full)))
    | inr plain ↦ rw (e, plain) (sliced-Fits (hex h) n (ground (arith, length-hex h)))
  ]

  vat-Fits :
      (p : Params) (h : List ℕ)
      → p.country_code ≡ "DE"
      → Fits (some (pos (length (codes p.country_code) + 9))) (vat_text L p (decimal h 9))
  unfolding Fits utf8
  vat-Fits p h e =
      let (s, made, size, _) = decimal_total h 9 (omega arith) in
      rw (e, made) (length-Fits (utf8 (codes "DE") ++ s) 11 (omega (arith, size)))

  iban-Fits : (h : List ℕ) → Fits (some (pos 22)) (text_or_panic (iban_text h))
  unfolding Fits
  iban-Fits h =
      let (check, bban, n, made, two, size, _, _) = iban_valid h in
      rw made
        (length-Fits (codes "DE" ++ (check ++ bban)) 22 (omega (arith, length-append check bban)))

  text-Fits :
      (p : Params) (s : S)
      → IsCount 1 4096 p.max_length
      → IsCount 1 100 p.sentences
      → Fits none (
          counted p.sentences (λ n.
            counted p.max_length (λ m. text_or_panic (limited m (runes (sentences_text L n s))))))
  unfolding Fits
  text-Fits p s (m, e, _, _) (n, f, _, _) =
      let r = runes (sentences_text L n s) in
      rw (e, f, slice_start (min (length r) m) r (omega arith)) tt

  date-Fits :
      (P : Parsers) (today : ℤ) (p : Params) (s : S)
      → Fits (some (pos (if p.format == "datetime" then 19 else 10))) (date_output L P today p s)
  unfolding Fits date_output
  date-Fits P today p s =
      let from = or_else (pos 0) (P.parse_date p.from) in
      let to = if p.to == "" then today else or_else (pos 0) (P.parse_date p.to) in
      let d = L.date_range from to s in
      date_cases-Fits (ltb_ℤ to from) (p.format == "datetime") "date range ends before it starts"
        (L.format_date_time d) (L.format_date d) (is.length-date_time d) (is.length-date d)

  number-Fits :
      (P : Parsers) (p : Params) (h : List ℕ)
      → IsReady P Kind.number p
      → Fits none (number_case L p p.min p.max h)
  unfolding Fits IsReady
  number-Fits P p h (low, high, a, b, ordered) =
      let (v, made, _, _) = number_between_bounds h low high ordered in rw (a, b, made) tt

  email-Fits :
      (p : Params) (h : List ℕ) (s : S)
      → length h ≡ 32
      → Fits none (text_or_panic (email_text (L.fake email s).0 p.domain h))
  unfolding Fits email_text local_part
  email-Fits p h s full =
      let (d, e) = is.has_domain s in
      let local =
        or_anonymous (trim_right (trim_left (local_chars (split_address (L.fake email s).0).0))) in
      let a = slice_start (min (length local) 51) local (omega arith) in
      let b = slice-some 16 22 h (omega arith) (omega (arith, full)) in
      elim (Bool-cases (length (codes p.domain) == 0)) [
        | inl own ↦ rw (a, b, own, e) tt
        | inr given ↦ rw (a, b, given) tt
      ]

  ipv4-Fits : (o : Option (List ℕ)) → Fits none (address_or_error L o)
  unfolding Fits
  ipv4-Fits none = tt
  ipv4-Fits (some s) = tt

  pub generate_text-Fits :
      (P : Parsers) (today : ℤ) (k : Kind) (p : Params) (h : List ℕ) (s : S)
      → length h ≡ 32
      → IsReady P k p
      → Fits (output_length k p) (generate_text L P today k p h s)
  unfolding generate_text output_length IsReady
  generate_text-Fits P today Kind.email p h s full r = email-Fits p h s full
  generate_text-Fits P today Kind.phone p h s full r = decimal-Fits h p.digit_count 15 r
  generate_text-Fits P today Kind.date p h s full r = date-Fits P today p s
  generate_text-Fits P today Kind.address p h s full r = unfold Fits in tt
  generate_text-Fits P today Kind.vat_id p h s full r = vat-Fits p h r
  generate_text-Fits P today Kind.iban p h s full r = iban-Fits h
  generate_text-Fits P today Kind.ipv4_public p h s full r = ipv4-Fits (public_ipv4 L.uint32 128 s)
  generate_text-Fits P today Kind.alphanumeric p h s full r =
      alphanumeric-Fits (alphabet p.letter_case) s p.size (alphabet-positive p.letter_case) r
  generate_text-Fits P today Kind.digits p h s full r = decimal-Fits h p.size 4096 r
  generate_text-Fits P today Kind.number p h s full r = number-Fits P p h (unfold IsReady in r)
  generate_text-Fits P today Kind.text p h s full r = text-Fits p s r.0 r.1
  generate_text-Fits P today Kind.hash p h s full r = hash-Fits p h full r
  generate_text-Fits P today Kind.uuid p h s full r =
      length-Fits (L.fake uuid s).0 36 (is.length-uuid s)
  generate_text-Fits P today _ p h s full r = unfold Fits in tt
