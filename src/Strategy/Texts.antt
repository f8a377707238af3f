-- ===== src/Strategy/Texts.antt =====
-- The texts that `generate` makes out of a digest (internal/runner/strategy/generate.go). A text is
-- the list of its bytes; `none` stands for a panic.
use pxc_anonymizer.Prelude.{
  ℕ, zero, suc, ◌+◌, ◌-◌, ◌*◌, ◌/◌, ◌%◌, ◌^◌, String, Bool, ◌&&◌, ◌||◌, Option, none, some, List,
  [], ◌∷◌, ◌++◌, ◌==◌, nat_eq, codes, length, take, drop, replicate, min, ltb, leb, if◌then◌else◌,
}
use pxc_anonymizer.Prelude.Decimal.{show, read}
use pxc_anonymizer.Prelude.Int.{ℤ, pos, negsuc, ◌+ℤ◌, ◌-ℤ◌}
use pxc_anonymizer.Strategy.Unicode.{runes, utf8}

-- `SetBytes`, big-endian.
unfoldable pub number_of_bytes : ℕ → List ℕ → ℕ
number_of_bytes acc [] = acc
number_of_bytes acc (b ∷ s) = number_of_bytes (acc * 256 + b) s

-- `decimal`: a digest as a number of exactly `digits` digits.
unfoldable pub decimal : List ℕ → ℕ → Option (List ℕ)
decimal h digits =
    let result = show (number_of_bytes 0 h % 10 ^ digits) in
    if leb (length result) digits
    then some (replicate (digits - length result) b'0' ++ result)
    else none

abbrev hex_digit : ℕ → ℕ
hex_digit n = if ltb n 10 then 48 + n else 87 + n

-- `hex.EncodeToString`.
unfoldable pub hex : List ℕ → List ℕ
hex [] = []
hex (b ∷ s) = hex_digit (b / 16) ∷ hex_digit (b % 16) ∷ hex s

-- `fmt.Sprintf("%02d", n)`.
unfoldable pub two_digits : ℕ → List ℕ
two_digits n = if ltb n 10 then b'0' ∷ show n else show n

-- The check number of an account number: `value` is the number before it is put at its end.
unfoldable pub check_number : ℕ → ℕ
check_number value = 98 - value % 97

abbrev pub with_value : List ℕ → Option ℕ → Option (List ℕ)
with_value bban none = none
with_value bban (some value) = some (codes "DE" ++ (two_digits (check_number value) ++ bban))

abbrev with_check : Option (List ℕ) → Option (List ℕ)
with_check none = none
with_check (some bban) = with_value bban (read (bban ++ codes "131400"))

-- The case of `iban`.
unfoldable pub iban_text : List ℕ → Option (List ℕ)
iban_text h = with_check (decimal h 18)

-- The case of `mask`, on runes; `repeated` is `strings.Repeat`.
unfoldable pub repeated : ℕ → List ℕ → List ℕ
repeated zero s = []
repeated (suc n) s = s ++ repeated n s

-- A slice `s[low:high]`, and `s[low:]` from a signed index; an index out of range is a panic.
abbrev pub slice : ℕ → ℕ → List ℕ → Option (List ℕ)
slice low high s =
    if leb low high && leb high (length s) then some (take (high - low) (drop low s)) else none

abbrev pub slice_from : ℤ → List ℕ → Option (List ℕ)
slice_from (pos low) s = slice low (length s) s
slice_from (negsuc n) s = none

-- `strings.Repeat`, which panics on a negative count.
abbrev pub repeat_text : ℤ → List ℕ → Option (List ℕ)
repeat_text (pos n) s = some (repeated n s)
repeat_text (negsuc n) s = none

abbrev pub three_parts : Option (List ℕ) → Option (List ℕ) → Option (List ℕ) → Option (List ℕ)
three_parts (some x) (some y) (some z) = some (x ++ (y ++ z))
three_parts _ _ _ = none

abbrev pub shows_all : ℕ → ℕ → List ℕ → Bool
shows_all prefix suffix s = leb (length s) (min prefix (length s) + min suffix (length s))

unfoldable pub masked : ℕ → ℕ → List ℕ → List ℕ → Option (List ℕ)
masked prefix suffix char s =
    let a = min prefix (length s) in
    let b = min suffix (length s) in
    three_parts (slice 0 a s) (repeat_text (pos (length s) -ℤ pos a -ℤ pos b) char)
      (slice_from (pos (length s) -ℤ pos b) s)

abbrev pub as_text : Option (List ℕ) → Option (List ℕ)
as_text none = none
as_text (some s) = some (utf8 s)

unfoldable pub mask_text : ℕ → ℕ → List ℕ → List ℕ → Option (List ℕ)
mask_text prefix suffix char value =
    if shows_all prefix suffix (runes value)
    then some value
    else as_text (masked prefix suffix char (runes value))

-- `Mod` on big integers, `none` for a division by zero.
abbrev big_mod : ℕ → ℤ → Option ℕ
big_mod n (pos zero) = none
big_mod n (pos (suc m)) = some (n % suc m)
big_mod n (negsuc m) = some (n % suc m)

abbrev plus_min : ℤ → Option ℕ → Option ℤ
plus_min low none = none
plus_min low (some n) = some (pos n +ℤ low)

-- The case of `number`; the sum is an `int64`, since it is between the two bounds.
unfoldable pub number_between : List ℕ → ℤ → ℤ → Option ℤ
number_between h low high = plus_min low (big_mod (number_of_bytes 0 h) (high -ℤ low +ℤ pos 1))

-- The first part of an address, and the second if there is an `@`: `strings.SplitN(s, "@", 2)`.
unfoldable pub split_address : List ℕ → List ℕ × Option (List ℕ)
split_address [] = ([], none)
split_address (c ∷ s) =
    let rest = split_address s in if c == b'@' then ([], some s) else (c ∷ rest.0, rest.1)

-- The function under `strings.Map`, on bytes: a rune from 128 on is left out, with all its bytes.
unfoldable pub local_chars : List ℕ → List ℕ
local_chars [] = []
local_chars (c ∷ s) =
    let rest = local_chars s in
    if leb b'A' c && leb c b'Z'
    then (c + 32) ∷ rest
    else if (leb b'a' c && leb c b'z')
        || (leb b'0' c && leb c b'9')
        || (c == b'.')
        || (c == b'-')
        || (c == b'_')
    then c ∷ rest
    else rest

unfoldable pub trim_left : List ℕ → List ℕ
trim_left [] = []
trim_left (c ∷ s) = let rest = trim_left s in if c == b'.' then rest else c ∷ s

unfoldable pub trim_right : List ℕ → List ℕ
trim_right [] = []
trim_right (c ∷ s) = elim (trim_right s) [
  | [] ↦ if c == b'.' then [] else c ∷ []
  | d ∷ rest ↦ c ∷ d ∷ rest
]

abbrev pub or_anonymous : List ℕ → List ℕ
or_anonymous [] = codes "anonymous"
or_anonymous (c ∷ s) = c ∷ s

-- The part of an email address before the `@`, from the fake one and the digest.
abbrev pub with_digest : Option (List ℕ) → Option (List ℕ) → Option (List ℕ)
with_digest (some s) (some h) = some (s ++ (b'-' ∷ hex h))
with_digest _ _ = none

unfoldable pub local_part : List ℕ → List ℕ → Option (List ℕ)
local_part fake h =
    let local = or_anonymous (trim_right (trim_left (local_chars fake))) in
    with_digest (slice 0 (min (length local) 51) local) (slice 16 22 h)

abbrev joined_address : Option (List ℕ) → Option (List ℕ) → Option (List ℕ)
joined_address (some part) (some domain) = some (part ++ (b'@' ∷ domain))
joined_address _ _ = none

-- The case of `email`, from the fake address, with `utf8` for the text of the domain.
unfoldable pub email_text : List ℕ → String → List ℕ → Option (List ℕ)
email_text fake domain h =
    let parts = split_address fake in
    joined_address (local_part parts.0 h)
      (if length (codes domain) == 0 then parts.1 else some (utf8 (codes domain)))
