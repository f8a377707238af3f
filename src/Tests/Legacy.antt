-- ===== src/Tests/Legacy.antt =====
-- A V1 expression with a positional length.
use pxc_anonymizer.Prelude.{◌≡◌, refl, some, codes}
use pxc_anonymizer.Prelude.Int.{pos}
use pxc_anonymizer.Prelude.Decimal.{read}
use pxc_anonymizer.Errors.{ok, refuse_if}
use pxc_anonymizer.Strategy.Params.{Kind}
use pxc_anonymizer.Strategy.Compile.{no_params}
use pxc_anonymizer.Strategy.Legacy.{
  parse, parse_call, word_split, call_digits, look_up, IsParsed, parse-IsParsed,
}

parse_random_number :
    parse (codes "random_number(12)") ≡ ok (Kind.digits, record no_params { size = some (pos 12) })
unfolding parse parse_call word_split call_digits look_up refuse_if read
parse_random_number = refl

parse-IsParsed_example : IsParsed (Kind.digits, record no_params { size = some (pos 12) })
parse-IsParsed_example =
    parse-IsParsed (codes "random_number(12)")
      (Kind.digits, record no_params { size = some (pos 12) }) parse_random_number
