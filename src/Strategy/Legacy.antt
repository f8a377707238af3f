-- ===== src/Strategy/Legacy.antt =====
-- The migration of V1 expressions (`Parse` of internal/runner/strategy/registry.go).
use pxc_anonymizer.Prelude.{
  ℕ, String, ◌≡◌, refl, sym, ap, ◌∙◌, Bool, true, false, ◌&&◌, ◌||◌, Option, none, some, List, [],
  ◌∷◌, ◌==◌, list_eq, nat_eq, codes, arith, ltb, leb, Bool-cases, Option-cases, inl, inr, ◌⊎◌,
  if◌then◌else◌,
}
use pxc_anonymizer.Prelude.Int.{pos}
use pxc_anonymizer.Prelude.Decimal.{read, is_digit}
use pxc_anonymizer.Errors.{Result, ok, err, plain, refuse_if, ok_injective}
use pxc_anonymizer.Strategy.Params.{Kind, Params}
use pxc_anonymizer.Strategy.Compile.{no_params, is_unregistered}
use pxc_anonymizer.Strategy.Ready.{IsCount, refuse_if_ok}

abbrev is_word_start : ℕ → Bool
is_word_start c = (leb b'A' c && leb c b'Z') || (leb b'a' c && leb c b'z') || (c == b'_')

-- The longest word at the start of a text, and what follows.
unfoldable pub word_split : List ℕ → List ℕ × List ℕ
word_split [] = ([], [])
word_split (c ∷ s) =
    let rest = word_split s in
    if is_word_start c || is_digit c then (c ∷ rest.0, rest.1) else ([], c ∷ s)

-- The digits of a text that ends in a closing parenthesis, if there is at least one.
unfoldable pub call_digits : List ℕ → Option (List ℕ)
call_digits [] = none
call_digits (c ∷ []) = if c == b')' then some [] else none
call_digits (c ∷ d ∷ s) = elim (call_digits (d ∷ s)) [
  | none ↦ none
  | some rest ↦ if is_digit c then some (c ∷ rest) else none
]

abbrev nonempty_digits : Option (List ℕ) → Option (List ℕ)
nonempty_digits none = none
nonempty_digits (some []) = none
nonempty_digits (some (c ∷ s)) = some (c ∷ s)

abbrev argument : List ℕ → List ℕ → Option (List ℕ × List ℕ)
argument name [] = some (name, [])
argument name (c ∷ s) =
    if c == b'('
    then elim (nonempty_digits (call_digits s)) [ none ↦ none | some d ↦ some (name, d) ]
    else none

-- `callPattern.FindStringSubmatch`: the name, and the digits of a positional length, if any.
unfoldable pub parse_call : List ℕ → Option (List ℕ × List ℕ)
parse_call [] = none
parse_call (c ∷ s) =
    if is_word_start c then argument (word_split (c ∷ s)).0 (word_split (c ∷ s)).1 else none

-- The first entry of a table of names.
unfoldable pub look_up : List (String × Kind) → List ℕ → Option Kind
look_up [] name = none
look_up (e ∷ entries) name =
    let rest = look_up entries name in if codes e.0 == name then some e.1 else rest

-- `legacy`.
abbrev pub legacy : List (String × Kind)
legacy =
    ("first_name", Kind.first_name)
    ∷ ("last_name", Kind.last_name)
    ∷ ("name", Kind.full_name)
    ∷ ("job", Kind.job_title)
    ∷ ("ascii_email", Kind.email)
    ∷ ("email", Kind.email)
    ∷ ("phone_number", Kind.phone)
    ∷ ("date", Kind.date)
    ∷ ("address", Kind.address)
    ∷ ("street_address", Kind.street_address)
    ∷ ("street_suffix_long", Kind.street_suffix)
    ∷ ("city", Kind.city)
    ∷ ("postalcode", Kind.postal_code)
    ∷ ("state", Kind.state)
    ∷ ("country", Kind.country)
    ∷ ("company", Kind.company)
    ∷ ("company_suffix", Kind.company_suffix)
    ∷ ("vat_id", Kind.vat_id)
    ∷ ("ipv4_public", Kind.ipv4_public)
    ∷ ("url", Kind.url)
    ∷ ("uuid", Kind.uuid)
    ∷ ("uuid4", Kind.uuid)
    ∷ ("alphanumeric", Kind.alphanumeric)
    ∷ ("alphanumeric_upper_case", Kind.alphanumeric)
    ∷ ("random_number", Kind.digits)
    ∷ ("null", Kind.null)
    ∷ []

-- `names`, each with its strategy.
abbrev pub registered : List (String × Kind)
registered =
    ("firstName", Kind.first_name)
    ∷ ("lastName", Kind.last_name)
    ∷ ("fullName", Kind.full_name)
    ∷ ("jobTitle", Kind.job_title)
    ∷ ("email", Kind.email)
    ∷ ("phone", Kind.phone)
    ∷ ("date", Kind.date)
    ∷ ("address", Kind.address)
    ∷ ("streetAddress", Kind.street_address)
    ∷ ("streetSuffix", Kind.street_suffix)
    ∷ ("city", Kind.city)
    ∷ ("postalCode", Kind.postal_code)
    ∷ ("state", Kind.state)
    ∷ ("country", Kind.country)
    ∷ ("company", Kind.company)
    ∷ ("companySuffix", Kind.company_suffix)
    ∷ ("vatId", Kind.vat_id)
    ∷ ("iban", Kind.iban)
    ∷ ("ipv4Public", Kind.ipv4_public)
    ∷ ("url", Kind.url)
    ∷ ("uuid", Kind.uuid)
    ∷ ("alphanumeric", Kind.alphanumeric)
    ∷ ("digits", Kind.digits)
    ∷ ("number", Kind.number)
    ∷ ("text", Kind.text)
    ∷ ("constant", Kind.constant)
    ∷ ("hash", Kind.hash)
    ∷ ("mask", Kind.mask)
    ∷ ("null", Kind.null)
    ∷ []

abbrev resolve : List ℕ → Option Kind
resolve name = elim (look_up legacy name) [ some k ↦ some k | none ↦ look_up registered name ]

-- The parameters that a name brings.
abbrev name_params : List ℕ → Params
name_params name =
    if name == codes "alphanumeric_upper_case"
    then record no_params { letter_case = "Upper" }
    else no_params

abbrev takes_length : Kind → Bool
takes_length Kind.alphanumeric = true
takes_length Kind.digits = true
takes_length _ = false

-- The positional length; a number that `ParseInt` refuses is too large as well.
abbrev with_length : Kind → Params → Option ℕ → Result (Kind × Params)
with_length k p none = err (plain "strategy length must be between 1 and 4096")
with_length k p (some n) =
    refuse_if (ltb n 1 || ltb 4096 n) "strategy length must be between 1 and 4096"
      (ok (k, record p { size = some (pos n) }))

abbrev with_argument : List ℕ → List ℕ → Option Kind → Result (Kind × Params)
with_argument name digits none = err (plain "unknown strategy")
with_argument name [] (some k) = ok (k, name_params name)
with_argument name (c ∷ s) (some k) =
    refuse_if (if takes_length k then false else true)
      "strategy does not accept a positional length"
      (with_length k (name_params name) (read (c ∷ s)))

abbrev parsed_call : Option (List ℕ × List ℕ) → Result (Kind × Params)
parsed_call none = err (plain "unknown strategy")
parsed_call (some (name, digits)) = with_argument name digits (resolve name)

-- `Parse`.
unfoldable pub parse : List ℕ → Result (Kind × Params)
parse expression = parsed_call (parse_call expression)

abbrev or_default : Kind → Option Kind → Kind
or_default d none = d
or_default d (some k) = k

-- A registered strategy, with a length from 1 to 4096 if any, and only where a length is taken.
unfoldable pub IsParsed : Kind × Params → Type 0
IsParsed r =
    (is_unregistered r.0 ≡ false)
    × ((r.1.size ≡ none) ⊎ (IsCount 1 4096 r.1.size × (takes_length r.0 ≡ true)))

abbrev all_known : List (String × Kind) → Bool
all_known [] = true
all_known (e ∷ entries) = (if is_unregistered e.1 then false else true) && all_known entries

look_up_registered :
    (entries : List (String × Kind)) (name : List ℕ) (k : Kind)
    → all_known entries ≡ true
    → look_up entries name ≡ some k
    → is_unregistered k ≡ false
unfolding look_up
look_up_registered [] name k a e = absurd (cc)
look_up_registered (x ∷ entries) name k a e = elim (Bool-cases (codes x.0 == name)) [
  | inl found ↦ kept (rw found at e)
  | inr other ↦ look_up_registered entries name k (ground arith) (rw other at e)
]
  where
    kept : some x.1 ≡ some k → is_unregistered k ≡ false
    kept e = rw (ap (or_default x.1) (sym e)) (ground arith)

resolve_registered : (name : List ℕ) (k : Kind) → resolve name ≡ some k → is_unregistered k ≡ false
unfolding look_up
resolve_registered name k e = elim (Option-cases (look_up legacy name)) [
  | inl absent ↦ look_up_registered registered name k refl (rw absent at e)
  | inr (l, found) ↦ look_up_registered legacy name k refl (found ∙ (rw found at e))
]

with_length-IsParsed :
    (k : Kind) (p : Params) (o : Option ℕ) (r : Kind × Params)
    → is_unregistered k ≡ false
    → takes_length k ≡ true
    → with_length k p o ≡ ok r
    → IsParsed r
unfolding IsParsed
with_length-IsParsed k p none r u t e = absurd (cc)
with_length-IsParsed k p (some n) r u t e =
    let (inside, same) = refuse_if_ok _ _ _ r e in
    rw (sym (ok_injective same)) (u, inr ((n, refl, ground arith, ground arith), t))

with_argument-IsParsed :
    (name digits : List ℕ) (o : Option Kind) (r : Kind × Params)
    → ((k : Kind) → o ≡ some k → is_unregistered k ≡ false)
    → with_argument name digits o ≡ ok r
    → IsParsed r
with_argument-IsParsed name digits none r u e = absurd (cc)
with_argument-IsParsed name [] (some k) r u e =
    rw (sym (ok_injective e)) (unfold IsParsed in (u k refl, inl (ground arith)))
with_argument-IsParsed name (c ∷ s) (some k) r u e =
    let (taken, e1) = refuse_if_ok _ _ _ r e in
    with_length-IsParsed k (name_params name) (read (c ∷ s)) r (u k refl) (ground arith) e1

-- What `Parse` accepts is a registered strategy, never one that `Compile` does not know, and a positional
-- length is from 1 to 4096 and given to a strategy that takes a length only.
pub parse-IsParsed :
    (expression : List ℕ) (r : Kind × Params) → parse expression ≡ ok r → IsParsed r
unfolding parse
parse-IsParsed expression r e = elim (Option-cases (parse_call expression)) [
  | inl absent ↦ absurd (cc)
  | inr ((name, digits), found) ↦
      with_argument-IsParsed name digits (resolve name) r (resolve_registered name) (rw found at e)
]
