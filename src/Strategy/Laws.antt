-- ===== src/Strategy/Laws.antt =====
-- The form of the texts that are made out of a digest.
use pxc_anonymizer.Prelude.{
  ℕ, zero, suc, ◌+◌, ◌-◌, ◌*◌, ◌/◌, ◌%◌, ◌^◌, ◌≤◌, ◌<◌, ◌≡◌, refl, ◌∙◌, some, List, [], ◌∷◌, ◌++◌,
  length, length-append, length-replicate, replicate, codes, arith, ◌≢◌,
}
use pxc_anonymizer.Prelude.Int.{ℤ, pos, negsuc, ◌≤ℤ◌, ◌+ℤ◌, ◌-ℤ◌, +ℤ_parts, int_laws}
use native.Mathlib.Nat.{mod-lt, pow-suc}
use pxc_anonymizer.Prelude.Decimal.{
  show, read, read_from, length-show-le, show_one, show_two, read_from-padded, read_from-append_all,
  read_of_cons,
}
use pxc_anonymizer.Strategy.Texts.{
  decimal, number_of_bytes, hex, two_digits, check_number, iban_text, number_between,
}

pow_positive : (n : ℕ) → 0 < 10 ^ n
pow_positive zero = omega arith
pow_positive (suc n) = omega (arith, pow-suc 10 n, pow_positive n)

-- For a length of at least 1 `decimal` does not panic, and its digits are the digest modulo the power of ten, with zeros in front
-- up to the length.
pub decimal_total :
    (h : List ℕ) (n : ℕ)
    → 0 < n
    → (s : List ℕ) × (decimal h n ≡ some s)
      × (length s ≡ n)
      × (read_from 0 s ≡ some (number_of_bytes 0 h % 10 ^ n))
unfolding decimal
decimal_total h n p =
    let r = number_of_bytes 0 h % 10 ^ n in
    let fits = length-show-le r n p (mod-lt (number_of_bytes 0 h) (pow_positive n)) in
    (
      replicate (n - length (show r)) b'0' ++ show r,
      ground arith,
      omega (
        arith,
        length-append (replicate (n - length (show r)) b'0') (show r),
        length-replicate {A = ℕ} (n - length (show r)) b'0',
      ),
      read_from-padded (n - length (show r)) r,
    )

pub length-hex : (s : List ℕ) → length (hex s) ≡ length s + length s
unfolding hex
length-hex [] = refl
length-hex (b ∷ s) = omega (arith, length-hex s)

two_digits_lem : (n : ℕ) → n < 100 → two_digits n ≡ (48 + n / 10) ∷ (48 + n % 10) ∷ []
unfolding two_digits
two_digits_lem n h = ground (arith, show_one n, show_two n)

check_number-lt : (v : ℕ) → check_number v < 100
unfolding check_number
check_number-lt v = omega arith

read_check :
    (v k : ℕ)
    → k < 100
    → read_from v (codes "1314" ++ two_digits k) ≡ some (v * 1000000 + 131400 + k)
unfolding read_from
read_check v k h = rw (two_digits_lem k h) (ground arith)

check_number_mod : (v : ℕ) → (v * 1000000 + 131400 + check_number (v * 1000000 + 131400)) % 97 ≡ 1
unfolding check_number
check_number_mod v = omega arith

append-ne_nil : (s t : List ℕ) → length s ≡ 18 → s ++ t ≢ []
append-ne_nil [] t h = absurd (omega arith)
append-ne_nil (c ∷ s) t h = λ e. cc

read_value :
    (bban : List ℕ) (v : ℕ)
    → length bban ≡ 18
    → read_from 0 bban ≡ some v
    → read (bban ++ codes "131400") ≡ some (v * 1000000 + 131400)
unfolding read_from
read_value bban v h e =
    read_of_cons _ (append-ne_nil bban _ h)
    ∙ (read_from-append_all 0 bban (codes "131400") v e ∙ ground arith)

-- The account number that `iban` makes never fails, has two check digits and 18 digits after `DE`,
-- and its check digits are right: the number with `DE` as 1314 and the check digits moved to
-- its end is 1 modulo 97.
pub iban_valid :
    (h : List ℕ)
    → (check : List ℕ) × (bban : List ℕ) × (n : ℕ) × (iban_text h
        ≡ some (codes "DE" ++ (check ++ bban)))
      × (length check ≡ 2)
      × (length bban ≡ 18)
      × (read (bban ++ (codes "1314" ++ check)) ≡ some n)
      × (n % 97 ≡ 1)
unfolding iban_text
iban_valid h =
    let (bban, made, size, v) = decimal_total h 18 (omega arith) in
    let value = number_of_bytes 0 h % 10 ^ 18 in
    let k = check_number (value * 1000000 + 131400) in
    (
      two_digits k,
      bban,
      value * 1000000 + 131400 + k,
      rw (made, read_value bban value size v) refl,
      rw (two_digits_lem k (check_number-lt _)) refl,
      size,
      read_of_cons _ (append-ne_nil bban _ size)
          ∙ (read_from-append_all 0 bban (codes "1314" ++ two_digits k) value v
              ∙ read_check value k (check_number-lt _)),
      check_number_mod value,
    )

span_positive :
    (low high : ℤ)
    → low ≤ℤ high
    → (m : ℕ) × (high -ℤ low +ℤ pos 1 ≡ pos (suc m)) × (high ≡ pos m +ℤ low)
unfolding ◌+ℤ◌ ◌-ℤ◌
span_positive (pos a) (pos b) h = (b - a, ground arith, ground arith)
span_positive (pos a) (negsuc b) h = absurd (omega arith)
span_positive (negsuc a) (pos b) h = (b + suc a, ground arith, ground arith)
span_positive (negsuc a) (negsuc b) h = (a - b, ground arith, ground arith)

below_span :
    (low high : ℤ) (m n : ℕ)
    → high ≡ pos m +ℤ low
    → n ≤ m
    → (low ≤ℤ pos n +ℤ low) × (pos n +ℤ low ≤ℤ high)
below_span low high m n e h = (
  omega (int_laws, +ℤ_parts (pos n) low),
  rw e (omega (int_laws, +ℤ_parts (pos n) low, +ℤ_parts (pos m) low)),
)

-- Between two bounds in order, `number` makes a number, without a division by zero, and it is not below the
-- first bound nor above the second.
pub number_between_bounds :
    (h : List ℕ) (low high : ℤ)
    → low ≤ℤ high
    → (v : ℤ) × (number_between h low high ≡ some v) × (low ≤ℤ v) × (v ≤ℤ high)
unfolding number_between
number_between_bounds h low high ordered =
    let (m, span, top) = span_positive low high ordered in
    let n = number_of_bytes 0 h % suc m in
    let small : n < suc m = mod-lt (number_of_bytes 0 h) (omega arith) in
    let inside = below_span low high m n top (omega arith) in
    (pos n +ℤ low, rw span refl, inside.0, inside.1)
