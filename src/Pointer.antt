-- ===== src/Pointer.antt =====
-- Pointer documents (internal/pointer/pointer.go): their validation, encoding and decoding. The library of
-- URLs and JSON are not part of the repository: they are parameters.
pub mod Fetch
use pxc_anonymizer.Prelude.{
  String, Bool, true, false, ◌&&◌, ◌||◌, ◌==◌, text_eq, nat_eq, ◌≡◌, refl, Option, none, some,
  if◌then◌else◌,
}
use pxc_anonymizer.Prelude.Int.{ℤ, pos, ltb_ℤ}
use pxc_anonymizer.Errors.{plain, Result, ok, err, refuse_if, ok_injective}

-- `Document`, with the parts that nothing here reads as one value of the type `X`.
pub record Document (X : Type 0) : Type 0 where
  pub name : String
  pub destination : String
  pub schema_version : ℤ
  pub endpoint_url : Option String  -- of its S3 part
  pub public_url : String
  pub rest : X

abbrev pub schema_version : ℤ
schema_version = pos 2

-- What is read of a URL that `url.Parse` has parsed.
pub record Url : Type 0 where
  pub scheme : String
  pub hostname : String
  pub has_user : Bool
  pub opaque_part : String
  pub path : String
  pub raw_path : String
  pub raw_query : String
  pub force_query : Bool
  pub fragment : String
  pub raw_fragment : String

-- What is asked of the URL library, of the regular expression `^s3://[^/]+/.+`, and of JSON on the plain
-- record: `unmarshal` fills in a document that is given, and `nothing` is the rest of an empty one.
pub record Wire (X T : Type 0) : Type 0 where
  pub parse : String → Option Url
  pub matches_destination : String → Bool
  pub marshal : Document X → T
  pub unmarshal : Document X → T → Option (Document X)
  pub nothing : X

abbrev pub is_good_host : Url → Bool
is_good_host u =
    if u.hostname == ""
      || u.has_user
      || (if u.opaque_part == "" then false else true)
      || (if u.raw_query == "" then false else true)
      || u.force_query
      || (if u.fragment == "" then false else true)
      || (if u.raw_fragment == "" then false else true)
    then false
    else true

-- `ParseURL` of objectstore.
abbrev pub parse_url : Bool → Option Url → Option Url
parse_url insecure none = none
parse_url insecure (some u) =
    if is_good_host u
    then if u.scheme == "https" || (insecure && u.scheme == "http") then some u else none
    else none

abbrev pub without_path : Option Url → Option Url
without_path none = none
without_path (some u) = if u.path == "" && u.raw_path == "" then some u else none

-- `ParseEndpoint` of objectstore.
abbrev pub parse_endpoint : Option Url → Option Url
parse_endpoint u = without_path (parse_url true u)

abbrev pub is_some : {A : Type 0} → Option A → Bool
is_some none = false
is_some (some a) = true

abbrev pub is_plain : Option Url → Bool
is_plain none = false
is_plain (some u) =
    if u.has_user
      || (if u.raw_query == "" then false else true)
      || u.force_query
      || (if u.fragment == "" then false else true)
    then false
    else true

module _ {X T : Type 0} (W : Wire X T) where
  abbrev pub is_bad_destination : String → Bool
  is_bad_destination text =
      if is_plain (W.parse text) && W.matches_destination text then false else true

  abbrev pub is_bad_endpoint : Option String → Bool
  is_bad_endpoint none = false
  is_bad_endpoint (some u) =
      if u == "" then false else if is_some (parse_endpoint (W.parse u)) then false else true

  abbrev pub is_bad_public_url : String → Bool
  is_bad_public_url u =
      if u == "" then false else if is_some (parse_url true (W.parse u)) then false else true

  -- `Validate`.
  unfoldable pub validate : Document X → Result (Unit {0})
  validate d = refuse_if (d.name == "") "pointer name is required" (
      refuse_if (is_bad_destination d.destination)
        "pointer destination must identify an s3 bucket and object"
        (refuse_if (ltb_ℤ d.schema_version (pos 1)) "pointer schemaVersion must be positive" (
          refuse_if (is_bad_endpoint d.endpoint_url) "pointer S3 endpoint URL is invalid"
            (refuse_if (is_bad_public_url d.public_url) "pointer public URL is invalid" (ok tt)))))

  abbrev pub second_version : Document X → Document X
  second_version d = record d { schema_version = schema_version }

  abbrev pub if_valid : {A : Type 0} → A → Result (Unit {0}) → Result A
  if_valid a (ok u) = ok a
  if_valid a (err e) = err e

  -- `MarshalJSON`, which is `Encode`.
  unfoldable pub encode : Document X → Result T
  encode d = if_valid (W.marshal (second_version d)) (validate (second_version d))

  abbrev pub decoded : Option (Document X) → Result (Document X)
  decoded none = err (plain "invalid JSON")
  decoded (some d) = if_valid d (validate d)

  -- The document that is filled in: a document without a version has the first one.
  abbrev pub unversioned : Document X
  unversioned = record {
    name = "";
    destination = "";
    schema_version = pos 1;
    endpoint_url = none;
    public_url = "";
    rest = W.nothing;
  }

  -- `UnmarshalJSON`, which is `Decode`.
  unfoldable pub decode : T → Result (Document X)
  decode text = decoded (W.unmarshal unversioned text)

  decoded-valid : (o : Option (Document X)) (d : Document X) → decoded o ≡ ok d → validate d ≡ ok tt
  decoded-valid none d h = absurd (cc)
  decoded-valid (some e) d h = checked (validate e) refl h
    where
      checked : (r : Result (Unit {0})) → validate e ≡ r → if_valid e r ≡ ok d → validate d ≡ ok tt
      checked (ok u) valid same = rw (ok_injective same) at valid
      checked (err x) valid same = absurd (cc)

  refused_or_not :
      (b : Bool) (m : String) (r : Result (Unit {0}))
      → refuse_if b m r ≡ ok tt
      → (b ≡ false) × (r ≡ ok tt)
  unfolding refuse_if
  refused_or_not true m r h = absurd (cc)
  refused_or_not false m r h = (refl, h)

  not_refused :
      (b : Bool) (m : String) (r : Result (Unit {0}))
      → b ≡ false
      → r ≡ ok tt
      → refuse_if b m r ≡ ok tt
  unfolding refuse_if
  not_refused b m r h k = rw h k

  second_version-valid : (d : Document X) → validate d ≡ ok tt → validate (second_version d) ≡ ok tt
  unfolding validate
  second_version-valid d h =
      let (named, h1) = refused_or_not _ _ _ h in
      let (placed, h2) = refused_or_not _ _ _ h1 in
      let (versioned, h3) = refused_or_not _ _ _ h2 in
      not_refused _ _ _ named (not_refused _ _ _ placed (not_refused _ _ _ refl h3))

  -- A document that is decoded, of whichever version of the schema, is valid, and can be published again:
  -- it is encoded without an error, in the second version and otherwise as it is.
  pub decoded-encodes :
      (text : T) (d : Document X)
      → decode text ≡ ok d
      → (validate d ≡ ok tt) × (encode d ≡ ok (W.marshal (second_version d)))
  unfolding decode encode
  decoded-encodes text d h =
      let valid = decoded-valid (W.unmarshal unversioned text) d h in
      (valid, rw (second_version-valid d valid) refl)
