-- ===== src/Engine/Numerals.antt =====
-- Decimal numerals and the integers that they denote by the places of their digits.
use pxc_anonymizer.Prelude.{
  ℕ, zero, suc, ◌+◌, ◌-◌, ◌*◌, ◌^◌, ◌<◌, ◌≡◌, ◌≢◌, refl, sym, ap, ◌∙◌, true, false, nat_eq, ◌==◌,
  Option, none, some, List, [], ◌∷◌, length, All, arith, Bool-cases, inl, inr,
}
use native.Mathlib.Nat.{pow-suc, add-mul, mul_assoc, mul_comm, zero-mul}
use pxc_anonymizer.Prelude.Decimal.{is_digit, read, read_from, read_of_cons}
use pxc_anonymizer.Prelude.Int.{ℤ, pos, negsuc}
use pxc_anonymizer.Engine.Columns.{parse_integer, positive, negated}

-- A digit in front of `k` others counts as often as ten to the power of `k`.
unfoldable pub place_value : List ℕ → ℕ
place_value [] = 0
place_value (c ∷ s) = (c - 48) * 10 ^ length s + place_value s

-- A numeral without a sign: some digits, and the number that they make.
abbrev pub IsNumeral : List ℕ → ℕ → Type 0
IsNumeral s n = (0 < length s) × All (λ c. is_digit c ≡ true) s × (n ≡ place_value s)

-- A numeral with a sign or without one.
pub data Denotes : List ℕ → ℤ → Type 0 where
  unsigned : {s : List ℕ} {n : ℕ} → IsNumeral s n → Denotes s (pos n)
  plus : {s : List ℕ} {n : ℕ} → IsNumeral s n → Denotes (b'+' ∷ s) (pos n)
  minus : {s : List ℕ} {n : ℕ} → IsNumeral s (suc n) → Denotes (b'-' ∷ s) (negsuc n)
  minus_zero : {s : List ℕ} → IsNumeral s 0 → Denotes (b'-' ∷ s) (pos 0)

shift : (acc d k p : ℕ) → (acc * 10 + d) * k + p ≡ acc * (k * 10) + (d * k + p)
shift acc d k p =
    omega (arith, add-mul (acc * 10) d k, mul_assoc acc 10 k, ap (λ x. acc * x) (mul_comm 10 k))

read_from-place_value :
    (acc : ℕ) (s : List ℕ) (n : ℕ)
    → read_from acc s ≡ some n
    → All (λ c. is_digit c ≡ true) s × (n ≡ acc * 10 ^ length s + place_value s)
unfolding read_from place_value
read_from-place_value acc [] n e = (tt, ground arith)
read_from-place_value acc (c ∷ s) n e = elim (Bool-cases (is_digit c)) [
  | inl digit ↦
      let (digits, value) = read_from-place_value (acc * 10 + (c - 48)) s n (rw digit at e) in
      (
        (digit, digits),
        value
            ∙ (shift acc (c - 48) (10 ^ length s) (place_value s)
                ∙ ap (λ k. acc * k + ((c - 48) * 10 ^ length s + place_value s))
                    (sym (pow-suc 10 (length s)))),
      )
  | inr other ↦ let impossible : none ≡ some n = rw other at e in absurd (cc)
]

place_value-read_from :
    (acc : ℕ) (s : List ℕ)
    → All (λ c. is_digit c ≡ true) s
    → read_from acc s ≡ some (acc * 10 ^ length s + place_value s)
unfolding read_from place_value
place_value-read_from acc [] h = ground arith
place_value-read_from acc (c ∷ s) (digit, digits) = rw digit (
    place_value-read_from (acc * 10 + (c - 48)) s digits
    ∙ ap some (
        shift acc (c - 48) (10 ^ length s) (place_value s)
        ∙ ap (λ k. acc * k + ((c - 48) * 10 ^ length s + place_value s))
            (sym (pow-suc 10 (length s)))))

cons_apart : (c : ℕ) (s : List ℕ) → c ∷ s ≢ []
cons_apart c s z = cc

from_zero : (k p : ℕ) → 0 * k + p ≡ p
from_zero k p = omega (arith, zero-mul k)

read-IsNumeral : (s : List ℕ) (n : ℕ) → read s ≡ some n → IsNumeral s n
unfolding read
read-IsNumeral [] n e = absurd (cc)
read-IsNumeral (c ∷ s) n e =
    let (digits, value) =
      read_from-place_value 0 (c ∷ s) n (sym (read_of_cons (c ∷ s) (cons_apart c s)) ∙ e) in
    (omega arith, digits, value ∙ from_zero (10 ^ length (c ∷ s)) (place_value (c ∷ s)))

IsNumeral-read : (s : List ℕ) (n : ℕ) → IsNumeral s n → read s ≡ some n
IsNumeral-read [] n (some_digits, digits, e) = absurd (omega arith)
IsNumeral-read (c ∷ s) n (some_digits, digits, e) =
    read_of_cons (c ∷ s) (cons_apart c s)
    ∙ (place_value-read_from 0 (c ∷ s) digits
        ∙ ap some (from_zero (10 ^ length (c ∷ s)) (place_value (c ∷ s)) ∙ sym e))

some_pos : {m n : ℕ} → some m ≡ some n → m ≡ n
some_pos e = cc

some_int : {x y : ℤ} → some x ≡ some y → x ≡ y
some_int e = cc

positive-Denotes :
    (s : List ℕ) (o : Option ℕ) (z : ℤ)
    → read s ≡ o
    → positive o ≡ some z
    → (n : ℕ) × (z ≡ pos n) × IsNumeral s n
positive-Denotes s none z r e = absurd (cc)
positive-Denotes s (some n) z r e = (n, sym (some_int e), read-IsNumeral s n r)

negated-Denotes :
    (s : List ℕ) (o : Option ℕ) (z : ℤ) → read s ≡ o → negated o ≡ some z → Denotes (b'-' ∷ s) z
negated-Denotes s none z r e = absurd (cc)
negated-Denotes s (some zero) z r e = rw⁻¹ (some_int e) (minus_zero (read-IsNumeral s 0 r))
negated-Denotes s (some (suc n)) z r e = rw⁻¹ (some_int e) (minus (read-IsNumeral s (suc n) r))

pub parse_integer-Denotes : (s : List ℕ) (z : ℤ) → parse_integer s ≡ some z → Denotes s z
unfolding parse_integer
parse_integer-Denotes [] z e = absurd (cc)
parse_integer-Denotes (c ∷ s) z e = elim (Bool-cases (c == b'-')) [
  | inl hyphen ↦
      rw ((nat_eq.same_iff c b'-').0 hyphen) (negated-Denotes s (read s) z refl (rw hyphen at e))
  | inr other ↦ elim (Bool-cases (c == b'+')) [
    | inl cross ↦
        let (n, same, numeral) = positive-Denotes s (read s) z refl (rw (other, cross) at e) in
        rw ((nat_eq.same_iff c b'+').0 cross, same) (plus numeral)
    | inr bare ↦
        let (n, same, numeral) =
          positive-Denotes (c ∷ s) (read (c ∷ s)) z refl (rw (other, bare) at e) in
        rw same (unsigned numeral)
  ]
]

unsigned-parse : (s : List ℕ) (n : ℕ) → IsNumeral s n → parse_integer s ≡ some (pos n)
unfolding parse_integer
unsigned-parse [] n (some_digits, digits, e) = absurd (omega arith)
unsigned-parse (c ∷ s) n numeral =
    let (some_digits, (digit, digits), e) = numeral in
    let no_hyphen : (c == b'-') ≡ false = ground arith in
    let no_cross : (c == b'+') ≡ false = ground arith in
    rw (no_hyphen, no_cross, IsNumeral-read (c ∷ s) n numeral) refl

pub Denotes-parse : (s : List ℕ) (z : ℤ) → Denotes s z → parse_integer s ≡ some z
unfolding parse_integer
Denotes-parse s z (unsigned {n} numeral) = unsigned-parse s n numeral
Denotes-parse s z (plus {s = t} {n} numeral) = rw (IsNumeral-read t n numeral) refl
Denotes-parse s z (minus {s = t} {n} numeral) = rw (IsNumeral-read t (suc n) numeral) refl
Denotes-parse s z (minus_zero {s = t} numeral) = rw (IsNumeral-read t 0 numeral) refl
