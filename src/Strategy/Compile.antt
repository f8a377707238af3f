-- ===== src/Strategy/Compile.antt =====
-- The compilation of a column rule (internal/runner/strategy/params.go).
use pxc_anonymizer.Prelude.{String, Bool, true, false, ◌&&◌, Option, none, some, ◌/=◌, text_eq}
use pxc_anonymizer.Prelude.Int.{ℤ, pos}
use pxc_anonymizer.Errors.{Result, ok, err, refuse_if}
use pxc_anonymizer.Strategy.Params.{
  Kind, first_name, last_name, full_name, job_title, email, phone, date, address, street_address,
  street_suffix, city, postal_code, state, country, vat_id, iban, alphanumeric, digits, number,
  text, constant, hash, mask, null, unregistered, Parsers, or_else, or_text, is_some, is_outside,
  prepare_length, prepare_phone, prepare_email, prepare_date, prepare_country, prepare_number,
  prepare_text, prepare_constant, prepare_hash, prepare_mask, constant_of,
}
use pxc_anonymizer.Strategy.Params.{Params}

-- `api.ColumnRule` without the column's name.
pub record Rule : Type 0 where
  pub strategy : Kind
  pub params : Option Params
  pub consistent : Option Bool
  pub on_null : String
  pub on_empty : String

-- `api.PolicyDefaults`.
pub record Defaults : Type 0 where
  pub page_size : ℤ
  pub on_null : String
  pub on_empty : String
  pub locale : String
  pub email_domain : String

-- A compiled `Column`, with the strategy of its rule.
pub record Column : Type 0 where
  pub strategy : Kind
  pub params : Params
  pub consistent : Bool
  pub on_null : String
  pub on_empty : String
  pub constant : Option String

-- `api.StrategyParams{}`.
abbrev pub no_params : Params
no_params = record {
  locale = "";
  domain = "";
  ascii = none;
  digit_count = none;
  from = "";
  to = "";
  format = "";
  country_code = "";
  size = none;
  letter_case = "";
  min = none;
  max = none;
  max_length = none;
  sentences = none;
  value = none;
  value_from = none;
  encoding = "";
  keep_prefix = none;
  keep_suffix = none;
  mask_char = "";
}

abbrev pub is_unregistered : Kind → Bool
is_unregistered (unregistered s) = true
is_unregistered _ = false

-- `consistentDefault` (internal/runner/strategy/registry.go).
unfoldable pub consistent_default : Kind → Bool
consistent_default alphanumeric = false
consistent_default digits = false
consistent_default number = false
consistent_default text = false
consistent_default constant = false
consistent_default mask = false
consistent_default null = false
consistent_default _ = true

-- The strategies that refuse `consistent`.
unfoldable pub is_fixed : Kind → Bool
is_fixed null = true
is_fixed mask = true
is_fixed constant = true
is_fixed _ = false

-- The strategies whose texts exist in English only.
unfoldable pub is_english : Kind → Bool
is_english first_name = true
is_english last_name = true
is_english full_name = true
is_english job_title = true
is_english address = true
is_english street_address = true
is_english street_suffix = true
is_english city = true
is_english postal_code = true
is_english state = true
is_english country = true
is_english _ = false

-- A handling that is set and neither of the two.
abbrev pub is_bad_handling : String → Bool
is_bad_handling h = (h /= "") && (h /= "Keep") && (h /= "Generate")

-- The parameters with the policy's defaults.
abbrev pub filled : Defaults → Params → Params
filled d p = record p {
  locale = or_text "en" (or_text d.locale p.locale);
  domain = or_text d.email_domain p.domain;
}

abbrev pub is_bad_length : Option ℤ → Bool
is_bad_length none = false
is_bad_length (some n) = is_outside (pos 1) (pos 4096) n

-- `prepareParams`, but for the constant.
unfoldable pub prepare_params : Parsers → Kind → Params → Result Params
prepare_params P alphanumeric p = prepare_length p
prepare_params P digits p = prepare_length p
prepare_params P phone p = prepare_phone p
prepare_params P email p = prepare_email P p
prepare_params P date p = prepare_date P p
prepare_params P vat_id p = prepare_country p
prepare_params P iban p = prepare_country p
prepare_params P number p = prepare_number p
prepare_params P text p = prepare_text p
prepare_params P constant p = prepare_constant p
prepare_params P hash p = prepare_hash p
prepare_params P mask p = prepare_mask p
prepare_params P _ p = ok p

-- The value of `c.constant`, which `prepareConstant` sets for its strategy only.
unfoldable pub resolved_constant : Kind → Params → Option String → Option String
resolved_constant constant p resolved = constant_of p.value resolved
resolved_constant _ p resolved = none

abbrev pub column_of : Rule → Defaults → Option String → Result Params → Result Column
column_of r d resolved (err e) = err e
column_of r d resolved (ok p) = ok (record {
  strategy = r.strategy;
  params = p;
  consistent = or_else (consistent_default r.strategy) r.consistent;
  on_null = or_text d.on_null r.on_null;
  on_empty = or_text d.on_empty r.on_empty;
  constant = resolved_constant r.strategy p resolved;
})

-- `Compile`.
unfoldable pub compile : Parsers → Rule → Defaults → Option String → Result Column
compile P r d resolved =
    let p = filled d (or_else no_params r.params) in
    refuse_if (is_unregistered r.strategy) "unknown strategy" (
      refuse_if (is_some r.consistent && is_fixed r.strategy) "strategy does not accept consistent"
        (refuse_if (is_bad_handling (or_text d.on_null r.on_null))
          "value handling must be Keep or Generate"
          (refuse_if (is_bad_handling (or_text d.on_empty r.on_empty))
            "value handling must be Keep or Generate"
            (refuse_if (is_english r.strategy && (p.locale /= "en"))
              "this strategy supports locale en"
              (refuse_if (is_bad_length p.size) "length must be between 1 and 4096"
                (column_of r d resolved (prepare_params P r.strategy p)))))))
