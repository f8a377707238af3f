-- ===== src/Strategy/Ready.antt =====
-- What a compiled column holds for generation.
use pxc_anonymizer.Prelude.{
  ℕ, ◌≤◌, String, ◌≡◌, Option, some, arith, codes, length, refl, sym, ap, ◌||◌, none, if◌then◌else◌,
  Bool, true, false, ◌/=◌, ◌==◌, ◌&&◌, ◌<>◌, ◌⊎◌, inl, inr, ltb, Bool-cases, text_eq, nat_eq,
}
use pxc_anonymizer.Prelude.Int.{ℤ, pos, negsuc, ◌≤ℤ◌, ltb_ℤ}
use pxc_anonymizer.Errors.{Result, ok, err, refuse_if, ok_injective}
use pxc_anonymizer.Strategy.Params.{
  Params, Kind, phone, vat_id, iban, alphanumeric, digits, number, text, hash, mask, Parsers,
  prepare_length, prepare_phone, prepare_country, prepare_number, prepare_text, prepare_hash,
  prepare_mask, prepare_date, prepare_email, prepare_constant, date_within, is_wrong_end,
  is_blank_ref, has_any, is_domain_breaker, is_address, date, email, constant, hash_limit,
  is_outside, or_else, or_text, is_some,
}
use pxc_anonymizer.Strategy.Compile.{
  Rule, Defaults, Column, compile, prepare_params, is_bad_length, column_of,
}

abbrev pub IsCount : ℕ → ℕ → Option ℤ → Type 0
IsCount low high o = (n : ℕ) × (o ≡ some (pos n)) × (low ≤ n) × (n ≤ high)

-- An end that is set is a date, and not before the start.
abbrev pub IsEnd : Parsers → ℤ → String → Type 0
IsEnd P from to = (to ≡ "") ⊎ ((d : ℤ) × (P.parse_date to ≡ some d) × (from ≤ℤ d))

-- A domain that is set makes an address, and has no character that takes an address apart.
abbrev pub IsDomain : Parsers → Params → Type 0
IsDomain P p =
    (p.domain ≡ "")
    ⊎ ((is_address P ("anonymous@" <> p.domain) ≡ true)
        × (has_any (codes p.domain) is_domain_breaker ≡ false)
        × ((or_else true p.ascii ≡ false) ⊎ (has_any (codes p.domain) (λ c. ltb 127 c) ≡ false)))

-- A value, or a reference to one, and not both.
abbrev pub IsOneValue : Params → Type 0
IsOneValue p =
    ((is_some p.value ≡ true) × (is_some p.value_from ≡ false))
    ⊎ ((is_some p.value ≡ false)
        × (is_some p.value_from ≡ true)
        × (is_blank_ref p.value_from ≡ false))

-- The parameters that a strategy reads without a test.
unfoldable pub IsReady : Parsers → Kind → Params → Type 0
IsReady P alphanumeric p = IsCount 1 4096 p.size
IsReady P digits p = IsCount 1 4096 p.size
IsReady P phone p = IsCount 1 15 p.digit_count
IsReady P vat_id p = p.country_code ≡ "DE"
IsReady P iban p = p.country_code ≡ "DE"
IsReady P number p =
    (low : ℤ) × (high : ℤ) × (p.min ≡ some low) × (p.max ≡ some high) × (low ≤ℤ high)
IsReady P text p = IsCount 1 4096 p.max_length × IsCount 1 100 p.sentences
IsReady P hash p = IsCount 1 (hash_limit p.encoding) p.size
IsReady P mask p =
    IsCount 0 4096 p.keep_prefix × IsCount 0 4096 p.keep_suffix × (length (codes p.mask_char) ≡ 1)
IsReady P date p =
    (low : ℤ) × (P.parse_date p.from ≡ some low)
    × IsEnd P low p.to
    × ((p.format ≡ "") ⊎ (p.format ≡ "date") ⊎ (p.format ≡ "datetime"))
IsReady P email p = IsDomain P p
IsReady P constant p = IsOneValue p
IsReady P _ p = Unit

-- What an early return that is not taken says.
pub refuse_if_ok :
    {A : Type 0} (b : Bool) (m : String) (r : Result A) (a : A)
    → refuse_if b m r ≡ ok a
    → (b ≡ false) × (r ≡ ok a)
unfolding refuse_if
refuse_if_ok true m r a e = absurd (cc)
refuse_if_ok false m r a e = (refl, e)

is_outside-IsCount :
    (low high : ℕ) (n : ℤ) → is_outside (pos low) (pos high) n ≡ false → IsCount low high (some n)
is_outside-IsCount low high (pos n) e = (n, refl, ground arith, ground arith)
is_outside-IsCount low high (negsuc n) e = absurd (ground arith)

differ_false : (a b : String) → (a /= b) ≡ false → a ≡ b
differ_false a b e = (text_eq.same_iff a b).0 (ground arith)

prepare_length-IsCount :
    (p q : Params) → is_bad_length p.size ≡ false → prepare_length p ≡ ok q → IsCount 1 4096 q.size
unfolding prepare_length
prepare_length-IsCount p q h e =
    let (there, r) = refuse_if_ok _ _ _ q e in
    let (_, same) = refuse_if_ok _ _ _ q r in rw (sym (ok_injective same)) (sized p.size h there)
  where
    sized :
        (o : Option ℤ)
        → is_bad_length o ≡ false
        → (if is_some o then false else true) ≡ false
        → IsCount 1 4096 o
    sized none h there = absurd (cc)
    sized (some n) h there = is_outside-IsCount 1 4096 n h

prepare_phone-IsCount : (p q : Params) → prepare_phone p ≡ ok q → IsCount 1 15 q.digit_count
unfolding prepare_phone
prepare_phone-IsCount p q e =
    let (inside, same) = refuse_if_ok _ _ _ q e in
    rw (sym (ok_injective same)) (is_outside-IsCount 1 15 _ inside)

prepare_country_only : (p q : Params) → prepare_country p ≡ ok q → q.country_code ≡ "DE"
unfolding prepare_country
prepare_country_only p q e =
    let (here, same) = refuse_if_ok _ _ _ q e in
    rw (sym (ok_injective same)) (differ_false _ "DE" here)

prepare_number_ordered :
    (p q : Params)
    → prepare_number p ≡ ok q
    → (low : ℤ) × (high : ℤ) × (q.min ≡ some low) × (q.max ≡ some high) × (low ≤ℤ high)
unfolding prepare_number
prepare_number_ordered p q e =
    let (ordered, same) = refuse_if_ok _ _ _ q e in
    rw (sym (ok_injective same)) (_, _, refl, refl, ground arith)

or_false : (a b : Bool) → (a || b) ≡ false → (a ≡ false) × (b ≡ false)
or_false a b e = ground arith

prepare_text-IsCount :
    (p q : Params) → prepare_text p ≡ ok q → IsCount 1 4096 q.max_length × IsCount 1 100 q.sentences
unfolding prepare_text
prepare_text-IsCount p q e =
    let (inside, same) = refuse_if_ok _ _ _ q e in
    let (m, s) = or_false _ _ inside in
    rw (sym (ok_injective same)) (is_outside-IsCount 1 4096 _ m, is_outside-IsCount 1 100 _ s)

prepare_mask-IsCount :
    (p q : Params)
    → prepare_mask p ≡ ok q
    → IsCount 0 4096 q.keep_prefix × IsCount 0 4096 q.keep_suffix × (length (codes q.mask_char) ≡ 1)
unfolding prepare_mask
prepare_mask-IsCount p q e =
    let (inside, r) = refuse_if_ok _ _ _ q e in
    let (single, same) = refuse_if_ok _ _ _ q r in
    let (m, s) = or_false _ _ inside in
    rw (sym (ok_injective same))
      (is_outside-IsCount 0 4096 _ m, is_outside-IsCount 0 4096 _ s, ground arith)

prepare_hash-IsCount :
    (p q : Params)
    → is_bad_length p.size ≡ false
    → prepare_hash p ≡ ok q
    → IsCount 1 (hash_limit q.encoding) q.size
unfolding prepare_hash
prepare_hash-IsCount p q h e =
    let (known, r) = refuse_if_ok _ _ _ q e in
    let (short, same) = refuse_if_ok _ _ _ q r in
    rw (sym (ok_injective same)) (sized p.size (or_text "hex" p.encoding) h short)
  where
    sized :
        (o : Option ℤ) (encoding : String)
        → is_bad_length o ≡ false
        → ltb_ℤ (pos (hash_limit encoding)) (or_else (pos (hash_limit encoding)) o) ≡ false
        → IsCount 1 (hash_limit encoding) (some (or_else (pos (hash_limit encoding)) o))
    sized none encoding h short = (hash_limit encoding, refl, ground arith, ground arith)
    sized (some (pos n)) encoding h short = (n, refl, ground arith, ground arith)
    sized (some (negsuc n)) encoding h short = absurd (ground arith)

not_true : (b : Bool) → (if b then false else true) ≡ false → b ≡ true
not_true b e = ground arith

blank_text : (t : String) → (t /= "") ≡ false → t ≡ ""
blank_text t e = differ_false t "" e

both_false : (a b : Bool) → (a && b) ≡ false → (a ≡ false) ⊎ (b ≡ false)
both_false a b e = ground arith

three_false : (a b c : Bool) → (a && b && c) ≡ false → (a ≡ false) ⊎ (b ≡ false) ⊎ (c ≡ false)
three_false a b c e = ground arith

is_wrong_end-IsEnd :
    (P : Parsers) (from : ℤ) (to : String) → is_wrong_end P from to ≡ false → IsEnd P from to
is_wrong_end-IsEnd P from to e = elim (Bool-cases (to == "")) [
  | inl blank ↦ inl ((text_eq.same_iff to "").0 blank)
  | inr set ↦ inr (parsed (P.parse_date to) refl (rw set at e))
]
  where
    parsed :
        (o : Option ℤ)
        → P.parse_date to ≡ o
        → (elim o [ none ↦ true | some d ↦ ltb_ℤ d from ]) ≡ false
        → (d : ℤ) × (P.parse_date to ≡ some d) × (from ≤ℤ d)
    parsed none h e = absurd (cc)
    parsed (some d) h e = (d, h, ground arith)

date_within-IsReady :
    (P : Parsers) (p q : Params) (o : Option ℤ)
    → P.parse_date p.from ≡ o
    → date_within P p o ≡ ok q
    → (low : ℤ) × (P.parse_date q.from ≡ some low)
      × IsEnd P low q.to
      × ((q.format ≡ "") ⊎ (q.format ≡ "date") ⊎ (q.format ≡ "datetime"))
date_within-IsReady P p q none h e = absurd (cc)
date_within-IsReady P p q (some from) h e =
    let (in_order, r) = refuse_if_ok _ _ _ q e in
    let (known, same) = refuse_if_ok _ _ _ q r in
    rw (sym (ok_injective same)) (
      from,
      h,
      is_wrong_end-IsEnd P from p.to in_order,
      elim (three_false (p.format /= "") (p.format /= "date") (p.format /= "datetime") known) [
        | inl x ↦ inl (differ_false p.format "" x)
        | inr (inl x) ↦ inr (inl (differ_false p.format "date" x))
        | inr (inr x) ↦ inr (inr (differ_false p.format "datetime" x))
      ],
    )

prepare_date-IsReady :
    (P : Parsers) (p q : Params)
    → prepare_date P p ≡ ok q
    → (low : ℤ) × (P.parse_date q.from ≡ some low)
      × IsEnd P low q.to
      × ((q.format ≡ "") ⊎ (q.format ≡ "date") ⊎ (q.format ≡ "datetime"))
unfolding prepare_date
prepare_date-IsReady P p q e =
    date_within-IsReady P (record p { from = or_text "1950-01-01" p.from }) q _ refl e

prepare_email-IsDomain : (P : Parsers) (p q : Params) → prepare_email P p ≡ ok q → IsDomain P q
unfolding prepare_email
prepare_email-IsDomain P p q e =
    let (ascii, r) = refuse_if_ok _ _ _ q e in
    let (good, same) = refuse_if_ok _ _ _ q r in
    rw (sym (ok_injective same)) (elim (Bool-cases (p.domain == "")) [
      | inl blank ↦ inl ((text_eq.same_iff p.domain "").0 blank)
      | inr set ↦
          let (address, plain) = or_false _ _ (rw set at good) in
          inr (
            not_true (is_address P ("anonymous@" <> p.domain)) address,
            plain,
            both_false (or_else true p.ascii) _ (rw set at ascii),
          )
    ])

one_value :
    (a b blank : Bool)
    → (if a then b else (if b then false else true)) ≡ false
    → blank ≡ false
    → ((a ≡ true) × (b ≡ false)) ⊎ ((a ≡ false) × (b ≡ true) × (blank ≡ false))
one_value true b blank h e = inl (refl, h)
one_value false b blank h e = inr (refl, not_true b h, e)

prepare_constant-IsOneValue : (p q : Params) → prepare_constant p ≡ ok q → IsOneValue q
unfolding prepare_constant
prepare_constant-IsOneValue p q e =
    let (one, r) = refuse_if_ok _ _ _ q e in
    let (named, same) = refuse_if_ok _ _ _ q r in
    rw (sym (ok_injective same))
      (one_value (is_some p.value) (is_some p.value_from) (is_blank_ref p.value_from) one named)

prepare_params-IsReady :
    (P : Parsers) (k : Kind) (p q : Params)
    → is_bad_length p.size ≡ false
    → prepare_params P k p ≡ ok q
    → IsReady P k q
unfolding prepare_params IsReady
prepare_params-IsReady P alphanumeric p q h e = prepare_length-IsCount p q h e
prepare_params-IsReady P digits p q h e = prepare_length-IsCount p q h e
prepare_params-IsReady P phone p q h e = prepare_phone-IsCount p q e
prepare_params-IsReady P vat_id p q h e = prepare_country_only p q e
prepare_params-IsReady P iban p q h e = prepare_country_only p q e
prepare_params-IsReady P number p q h e = prepare_number_ordered p q e
prepare_params-IsReady P text p q h e = prepare_text-IsCount p q e
prepare_params-IsReady P hash p q h e = prepare_hash-IsCount p q h e
prepare_params-IsReady P mask p q h e = prepare_mask-IsCount p q e
prepare_params-IsReady P date p q h e = prepare_date-IsReady P p q e
prepare_params-IsReady P email p q h e = prepare_email-IsDomain P p q e
prepare_params-IsReady P constant p q h e = prepare_constant-IsOneValue p q e
prepare_params-IsReady P _ p q h e = tt

column_of-params :
    (r : Rule) (d : Defaults) (resolved : Option String) (prepared : Result Params) (c : Column)
    → column_of r d resolved prepared ≡ ok c
    → (prepared ≡ ok c.params) × (c.strategy ≡ r.strategy)
column_of-params r d resolved (err x) c e = absurd (cc)
column_of-params r d resolved (ok p) c e =
    (ap ok (ap (λ c. c.params) (ok_injective e)), sym (ap (λ c. c.strategy) (ok_injective e)))

-- A rule that compiles has every parameter that its strategy reads, with its value in the range that
-- generation relies on, whatever the rule left out.
pub compile-IsReady :
    (P : Parsers) (r : Rule) (d : Defaults) (resolved : Option String) (c : Column)
    → compile P r d resolved ≡ ok c
    → IsReady P c.strategy c.params
unfolding compile
compile-IsReady P r d resolved c e =
    let (_, e1) = refuse_if_ok _ _ _ c e in
    let (_, e2) = refuse_if_ok _ _ _ c e1 in
    let (_, e3) = refuse_if_ok _ _ _ c e2 in
    let (_, e4) = refuse_if_ok _ _ _ c e3 in
    let (_, e5) = refuse_if_ok _ _ _ c e4 in
    let (sized, e6) = refuse_if_ok _ _ _ c e5 in
    let (prepared, same) = column_of-params r d resolved _ c e6 in
    rw same (prepare_params-IsReady P r.strategy _ c.params sized prepared)
