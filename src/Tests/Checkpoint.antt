-- ===== src/Tests/Checkpoint.antt =====
-- Cursors at concrete keys.
use pxc_anonymizer.Prelude.{ℕ, ◌≡◌, ◌≢◌, List, [], ◌∷◌, arith}
use pxc_anonymizer.Prelude.Int.{negsuc}
use pxc_anonymizer.Errors.{ok}
use pxc_anonymizer.Sql.{Value, int64, bytes, bool}
use pxc_anonymizer.Prelude.{true}
use pxc_anonymizer.Checkpoint.Cursor.{encode, decode}
use pxc_anonymizer.Checkpoint.RoundTrip.{decode-encode}
use pxc_anonymizer.Tests.Formats.{plain_formats, plain_formats-IsLossless}

abbrev key : List Value
key = int64 (negsuc 41) ∷ bytes (0 ∷ 255 ∷ []) ∷ bool true ∷ []

decode-encode_example :
    (cursor : List ℕ) × (encode plain_formats key ≡ ok cursor)
    × (cursor ≢ [])
    × (decode plain_formats cursor ≡ ok key)
decode-encode_example =
    decode-encode plain_formats plain_formats-IsLossless key (omega arith, (tt, (tt, tt)))
