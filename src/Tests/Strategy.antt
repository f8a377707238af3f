-- ===== src/Tests/Strategy.antt =====
-- Strategies at concrete rules, with toy versions of the other libraries.
use pxc_anonymizer.Prelude.{
  ℕ, zero, suc, ◌+◌, ◌%◌, ◌*◌, ◌^◌, ◌<◌, ◌≡◌, ◌≢◌, refl, true, none, some, List, [], ◌∷◌, ◌++◌,
  length, replicate, length-replicate, take, drop, codes, arith,
}
use pxc_anonymizer.Prelude.Int.{ℤ, pos, negsuc, ◌≤ℤ◌}
use pxc_anonymizer.Prelude.Decimal.{read}
use pxc_anonymizer.Errors.{ok, refuse_if}
use pxc_anonymizer.Sql.{Value}
use pxc_anonymizer.Strategy.Params.{Kind, Params, Parsers, prepare_length}
use pxc_anonymizer.Strategy.Compile.{
  Rule, Defaults, Column, compile, no_params, prepare_params, is_fixed, is_english,
  resolved_constant,
}
use pxc_anonymizer.Strategy.Ready.{IsReady, compile-IsReady}
use pxc_anonymizer.Strategy.Texts.{
  number_of_bytes, iban_text, number_between, masked, repeated, split_address,
}
use pxc_anonymizer.Strategy.Laws.{iban_valid, number_between_bounds}
use pxc_anonymizer.Strategy.Masks.{masked_lem, public_ipv4-IsPublic, IsPublic}
use pxc_anonymizer.Strategy.Network.{public_ipv4, dotted, is_reserved}
use pxc_anonymizer.Strategy.Generate.{Library, panicked, Origin, generate, input_text}
use pxc_anonymizer.Strategy.Total.{IsLibrary, Fits, output_length}
use pxc_anonymizer.Strategy.Complete.{generate_total, generate-Fits}
use pxc_anonymizer.Strategy.Consistency.{generate_consistent}

abbrev fake_text : Kind → List ℕ
fake_text Kind.email = codes "jo@example.org"
fake_text _ = replicate 36 b'x'

-- The source counts the draws.
abbrev toy : Library ℕ
toy = record {
  hmac = λ key m. replicate 32 (number_of_bytes 0 (key ++ m) % 256);
  normal_form = λ s. s;
  trim_space = λ s. s;
  to_lower = λ s. s;
  marshal_texts = λ ts. [];
  kind_name = λ k. [];
  print = λ v. codes "7";
  print_time = λ s. s;
  new_source = λ a b. 0;
  fake = λ k s. (fake_text k, suc s);
  sentence = λ s. (codes "Lorem.", suc s);
  date_range = λ from to s. from;
  format_date = λ d. replicate 10 b'0';
  format_date_time = λ d. replicate 19 b'0';
  uint32 = λ s. (134744072, suc s);
  int_n = λ s n. (0, suc s);
  encode_base64 = λ h. replicate 44 b'A';
}

toy-IsLibrary : IsLibrary toy
unfolding split_address
toy-IsLibrary = record {
  length-hmac = λ key m. length-replicate {A = ℕ} 32 (number_of_bytes 0 (key ++ m) % 256);
  length-base64 = λ h e. refl;
  int_n-lt = λ s n h. h;
  has_domain = λ s. (codes "example.org", refl);
  length-uuid = λ s. refl;
  length-date = λ d. refl;
  length-date_time = λ d. refl;
}

abbrev parsers : Parsers
parsers = record { parse_date = λ s. none; parse_address = λ s. some s }

abbrev six_digits : Params
six_digits = record no_params { size = some (pos 6) }

abbrev rule : Rule
rule = record {
  strategy = Kind.digits;
  params = some six_digits;
  consistent = some true;
  on_null = "";
  on_empty = "";
}

abbrev defaults : Defaults
defaults = record {
  page_size = pos 0;
  on_null = "Keep";
  on_empty = "";
  locale = "";
  email_domain = "";
}

abbrev column : Column
column = record {
  strategy = Kind.digits;
  params = record six_digits { locale = "en" };
  consistent = true;
  on_null = "Keep";
  on_empty = "";
  constant = none;
}

column_compiled : compile parsers rule defaults none ≡ ok column
unfolding compile refuse_if prepare_params prepare_length is_fixed is_english resolved_constant
column_compiled = refl

abbrev here : Origin
here = record {
  database = codes "shop";
  table = codes "users";
  primary_key = codes "1";
  column = codes "tel";
}

abbrev there : Origin
there = record {
  database = codes "shop";
  table = codes "orders";
  primary_key = codes "9";
  column = codes "tel";
}

compile-IsReady_example : IsReady parsers Kind.digits (record six_digits { locale = "en" })
compile-IsReady_example = compile-IsReady parsers rule defaults none column column_compiled

generate_total_example :
    generate toy parsers (pos 0) (codes "key") column (Value.text (codes "555")) here 0 ≢ panicked
generate_total_example =
    generate_total toy toy-IsLibrary parsers rule defaults none column (pos 0) (codes "key")
      (Value.text (codes "555")) here 0 column_compiled

generate-Fits_example :
    Fits
      (some (pos 6))
      (generate toy parsers (pos 0) (codes "key") column (Value.text (codes "555")) here 0)
unfolding output_length input_text
generate-Fits_example =
    generate-Fits toy toy-IsLibrary parsers rule defaults none column (pos 0) (codes "key")
      (Value.text (codes "555")) here 0 column_compiled refl refl

generate_consistent_example :
    generate toy parsers (pos 0) (codes "key") column (Value.text (codes "555")) here 0
    ≡ generate toy parsers (pos 0) (codes "key") column (Value.bytes (codes "555")) there 0
unfolding input_text
generate_consistent_example =
    generate_consistent toy parsers (pos 0) (codes "key") column (Value.text (codes "555"))
      (Value.bytes (codes "555")) here there 0 refl (λ e. cc) refl refl refl refl refl

iban_valid_example :
    (check : List ℕ) × (bban : List ℕ) × (n : ℕ) × (iban_text (1 ∷ 2 ∷ 3 ∷ [])
      ≡ some (codes "DE" ++ (check ++ bban)))
    × (length check ≡ 2)
    × (length bban ≡ 18)
    × (read (bban ++ (codes "1314" ++ check)) ≡ some n)
    × (n % 97 ≡ 1)
iban_valid_example = iban_valid (1 ∷ 2 ∷ 3 ∷ [])

number_between_bounds_example :
    (v : ℤ) × (number_between (200 ∷ 7 ∷ []) (negsuc 4) (pos 5) ≡ some v)
    × (negsuc 4 ≤ℤ v)
    × (v ≤ℤ pos 5)
number_between_bounds_example =
    number_between_bounds (200 ∷ 7 ∷ []) (negsuc 4) (pos 5) (omega arith)

masked_lem_example :
    (m : List ℕ) × (masked 1 2 (codes "*") (codes "secret") ≡ some m)
    × (length m ≡ 6)
    × (m ≡ take 1 (codes "secret") ++ (repeated 3 (codes "*") ++ drop 4 (codes "secret")))
    × (3 < 6)
masked_lem_example = masked_lem 1 2 (codes "*") (codes "secret") refl refl

abbrev counting : ℕ → ℕ × ℕ
counting zero = (10 * 2 ^ 24 + 1, 1)
counting (suc n) = (134744072, 0)

counting_finds : public_ipv4 counting 2 0 ≡ some (dotted 134744072)
unfolding public_ipv4 is_reserved
counting_finds = refl

public_ipv4-IsPublic_example : (n : ℕ) × (dotted 134744072 ≡ dotted n) × (n < 2 ^ 32) × IsPublic n
public_ipv4-IsPublic_example = public_ipv4-IsPublic counting 2 0 (dotted 134744072) counting_finds
