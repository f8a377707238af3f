-- ===== src/Pager/Identifier.antt =====
-- SQL identifiers (`QuoteIdentifier` of internal/runner/pager/pager.go).
use pxc_anonymizer.Prelude.{
  ℕ, String, ◌<>◌, Bool, true, ◌&&◌, ◌||◌, List, [], ◌∷◌, leb, ◌==◌, nat_eq, codes, length,
  if◌then◌else◌,
}
use pxc_anonymizer.Errors.{plain, Result, ok, err}

-- The class `[A-Za-z0-9_$]`.
unfoldable pub is_identifier_char : ℕ → Bool
is_identifier_char c =
    (leb b'A' c && leb c b'Z')
    || (leb b'a' c && leb c b'z')
    || (leb b'0' c && leb c b'9')
    || (c == b'_')
    || (c == b'$')

unfoldable pub all_identifier_chars : List ℕ → Bool
all_identifier_chars [] = true
all_identifier_chars (c ∷ s) = is_identifier_char c && all_identifier_chars s

-- `identifier.MatchString`: one to 64 of these characters.
unfoldable pub is_identifier : String → Bool
unfolding is_identifier_char all_identifier_chars
is_identifier name =
    all_identifier_chars (codes name)
    && (leb 1 (length (codes name)) && leb (length (codes name)) 64)

-- `QuoteIdentifier`.
unfoldable pub quote_identifier : String → Result String
quote_identifier name =
    if is_identifier name then ok ("`" <> name <> "`") else err (plain "invalid SQL identifier")
