-- ===== src/Tests/Pointer.antt =====
-- A pointer document that is written and read again, and one that is fetched (internal/pointer).
use pxc_anonymizer.Prelude.{
  String, Bool, true, false, ◌==◌, text_eq, nat_eq, ◌≡◌, refl, Option, none, some, if◌then◌else◌,
}
use pxc_anonymizer.Prelude.Int.{pos}
use pxc_anonymizer.Sql.{Yields}
use pxc_anonymizer.Pointer.Fetch.{Client, HttpSource, IsFetched, fetch_http, fetch_http-IsFetched}
use pxc_anonymizer.Errors.{ok, err, plain, refuse_if}
use pxc_anonymizer.Pointer.{
  Document, Url, Wire, encode, decode, validate, second_version, decoded-encodes,
}

abbrev bucket : Url
bucket = record {
  scheme = "s3";
  hostname = "bucket";
  has_user = false;
  opaque_part = "";
  path = "/backup";
  raw_path = "";
  raw_query = "";
  force_query = false;
  fragment = "";
  raw_fragment = "";
}

abbrev parse_known : String → Option Url
parse_known text =
    if text == "s3://bucket/backup"
    then some bucket
    else if text == "https://host/backup"
    then some (record bucket { scheme = "https"; hostname = "host" })
    else none

-- The document itself stands for its JSON text.
abbrev wire : Wire Bool (Document Bool)
wire = record {
  parse = parse_known;
  matches_destination = λ text. text == "s3://bucket/backup";
  marshal = λ d. d;
  unmarshal = λ blank d. some d;
  nothing = false;
}

abbrev first_document : Document Bool
first_document = record {
  name = "nightly";
  destination = "s3://bucket/backup";
  schema_version = pos 1;
  endpoint_url = none;
  public_url = "";
  rest = true;
}

decode_unnamed :
    decode wire (record first_document { name = "" }) ≡ err (plain "pointer name is required")
unfolding decode validate refuse_if
decode_unnamed = refl

encode_first : encode wire first_document ≡ ok (second_version wire first_document)
unfolding encode validate refuse_if
encode_first = refl

decode_first : decode wire first_document ≡ ok first_document
unfolding decode validate refuse_if
decode_first = refl

decoded-encodes_example :
    (validate wire first_document ≡ ok tt)
    × (encode wire first_document ≡ ok (second_version wire first_document))
decoded-encodes_example = decoded-encodes wire first_document first_document decode_first

-- A server that answers with the document.
abbrev client : Client (Unit {0}) (Document Bool)
client = record {
  transport = λ secret c. (ok tt, c);
  get = λ u timeout check c. (ok 200, c);
  read = λ limit c. (ok first_document, c);
  size = λ d. 120;
}

abbrev source : HttpSource
source = record {
  url = "https://host/backup";
  allow_insecure = false;
  ca_secret = none;
  timeout = none;
  max_bytes = pos 0;
}

fetch_first : fetch_http wire client source tt ≡ (ok first_document, tt)
unfolding fetch_http decode validate refuse_if
fetch_first = refl

fetch_too_large :
    fetch_http wire client (record source { max_bytes = pos 100 }) tt
    ≡ (err (plain "HTTP pointer exceeds maxBytes"), tt)
unfolding fetch_http decode validate refuse_if
fetch_too_large = refl

fetch_http-IsFetched_example :
    Yields (IsFetched wire client (pos 65536)) (fetch_http wire client source tt)
fetch_http-IsFetched_example = fetch_http-IsFetched wire client source tt
